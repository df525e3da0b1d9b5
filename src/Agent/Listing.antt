-- ===== src/Agent/Listing.antt =====
-- `ListKeys` of openssh/keys.go: one request to the agent, and the keys in its answer.
use winssh_pageant.Common.{◌≡◌, ◌⊎◌, inl, inr, refl, none, some, List, [], ◌∷◌, Bytes, Option-cases}
use winssh_pageant.Common.Results.{Result, ok, err, Result-cases}
use winssh_pageant.Library.{Library}
use winssh_pageant.Keys.{Key, KeyError, request_identities, parse_keys}
use winssh_pageant.Agent.Exchange.{Answer}
use winssh_pageant.Agent.Session.{Session, Surroundings, QueryError, query_agent}
use winssh_pageant.Agent.Session.Answers.{query_agent-releases}

pub data ListError : Type 0 where
  query_failed : QueryError → ListError
  bad_answer : KeyError → ListError

parsed : Result KeyError (List Key) → Result ListError (List Key)
parsed (ok keys) = ok keys
parsed (err e) = err (bad_answer e)

unfoldable pub listed_in : Library → Answer QueryError → Result ListError (List Key)
unfolding parsed
listed_in lib a = elim a.failure [
  | some e ↦ err (query_failed e)
  | none ↦ parsed (parse_keys lib a.reply)
]

unfoldable pub identities_frame : Bytes
identities_frame = 0 ∷ 0 ∷ 0 ∷ 1 ∷ request_identities ∷ []

unfoldable pub list_keys : Library → Surroundings → Bytes → Result ListError (List Key) × Session
list_keys lib w pipe_name =
    let (a, s) = query_agent lib w pipe_name identities_frame in (listed_in lib a, s)

listed_in_sound :
    (lib : Library) (a : Answer QueryError)
    → ((e : ListError) × (listed_in lib a ≡ err e))
      ⊎ ((keys : List Key) × (listed_in lib a ≡ ok keys)
          × (a.failure ≡ none)
          × (parse_keys lib a.reply ≡ ok keys))
unfolding listed_in parsed
listed_in_sound lib a = elim (Option-cases a.failure) [
  | inr (e, failed) ↦ inl (query_failed e, rw (failed, listed_in) refl)
  | inl fine ↦ elim (Result-cases (parse_keys lib a.reply)) [
    | inl (keys, read) ↦ inr (keys, rw (fine, listed_in, read) refl, fine, read)
    | inr (e, bad) ↦ inl (bad_answer e, rw (fine, listed_in, bad) refl)
  ]
]

-- Keys are listed only if the agent was asked without an error and its answer parses to just these
-- keys; on every path each connection that was opened is released.
pub list_keys_sound :
    (lib : Library) (w : Surroundings) (pipe_name : Bytes)
    → let (r, s) = list_keys lib w pipe_name in
      let a = (query_agent lib w pipe_name identities_frame).0 in
      ((s.conn ≡ none) × (s.released ≡ s.opened))
      × (((e : ListError) × (r ≡ err e))
          ⊎ ((keys : List Key) × (r ≡ ok keys)
              × (a.failure ≡ none)
              × (parse_keys lib a.reply ≡ ok keys)))
unfolding list_keys
list_keys_sound lib w pipe_name = (
  query_agent-releases lib w pipe_name identities_frame,
  listed_in_sound lib (query_agent lib w pipe_name identities_frame).0,
)
