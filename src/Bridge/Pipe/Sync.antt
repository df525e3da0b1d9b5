-- ===== src/Bridge/Pipe/Sync.antt =====
-- The loop keeps in step with the client: requests are read whole and in order, and each reply
-- follows the one before it.
use winssh_pageant.Common.{
  ℕ, zero, suc, ◌≡◌, ◌≢◌, refl, sym, ap, ◌∙◌, ◌⊎◌, inl, inr, Bool, Option, none, some, Option-cases,
  List, [], ◌∷◌, ◌++◌, arith, Bytes, All, All-append,
}
use mathlib.Core.Path.{subst}
use mathlib.Core.List.{append_assoc, append-nil}
use winssh_pageant.Common.Results.{Result, ok, err, Result-cases}
use winssh_pageant.Conn.{Conn}
use winssh_pageant.Conn.Reading.{stream}
use winssh_pageant.Wire.{validate_request, validate_response}
use winssh_pageant.Bridge.Query.{Handler, query_using, query_using-valid}
use winssh_pageant.Bridge.Pipe.{Stop, Line, read_request, write_reply, answer_request, turn, serve}
use winssh_pageant.Bridge.Pipe.Reading.{read_request-stream, read_request-sent}
use winssh_pageant.Bridge.Pipe.Writing.{IsCut, write_reply-IsCut}

-- The bytes of the requests, and of the replies, one behind the other.
abbrev pub requests : List (Bytes × Bytes) → Bytes
requests [] = []
requests ((request, reply) ∷ rounds) = request ++ requests rounds

abbrev pub replies : List (Bytes × Bytes) → Bytes
replies [] = []
replies ((request, reply) ∷ rounds) = reply ++ replies rounds

requests-append : (xs ys : List (Bytes × Bytes)) → requests (xs ++ ys) ≡ requests xs ++ requests ys
requests-append [] ys = refl
requests-append ((a, b) ∷ xs) ys =
    ap (λ (t : Bytes). a ++ t) (requests-append xs ys)
    ∙ sym (append_assoc a (requests xs) (requests ys))

replies-append : (xs ys : List (Bytes × Bytes)) → replies (xs ++ ys) ≡ replies xs ++ replies ys
replies-append [] ys = refl
replies-append ((a, b) ∷ xs) ys =
    ap (λ (t : Bytes). b ++ t) (replies-append xs ys)
    ∙ sym (append_assoc b (replies xs) (replies ys))

abbrev pub IsRound : Bytes × Bytes → Type 0
IsRound (request, reply) = (validate_request request ≡ none) × (validate_response reply ≡ none)

-- Between two turns: exactly the requests were read, and exactly the replies went out.
abbrev pub InStep : {S : Type 0} → Bytes → Line S → Type 0
InStep input l =
    (input ≡ requests l.rounds ++ stream l.conn.incoming)
    × (l.conn.sent ≡ replies l.rounds)
    × All IsRound l.rounds

-- At any time: the requests are the front of the input, and what went out is the front of the
-- replies.
abbrev pub IsServed : {S : Type 0} → Bytes → Line S → Type 0
IsServed input l =
    (unread : Bytes) × (unsent : Bytes) × (input ≡ requests l.rounds ++ unread)
    × (replies l.rounds ≡ l.conn.sent ++ unsent)
    × All IsRound l.rounds

InStep→IsServed : {S : Type 0} (input : Bytes) (l : Line S) → InStep input l → IsServed input l
InStep→IsServed input l (i, o, v) =
    (stream l.conn.incoming, [], i, sym o ∙ sym (append-nil l.conn.sent), v)

-- The state behind one turn.
abbrev pub IsAfter : {S : Type 0} → Bytes → Option Stop → Line S → Type 0
IsAfter input stop l = IsServed input l × (InStep input l ⊎ (stop ≢ none))

IsCut-IsAfter :
    {S : Type 0} {stop : Option Stop} (input request reply sent : Bytes)
    (rounds : List (Bytes × Bytes)) (d : Conn) (s : S)
    → IsRound (request, reply)
    → All IsRound rounds
    → input ≡ requests rounds ++ (request ++ stream d.incoming)
    → sent ≡ replies rounds
    → IsCut stop (sent ++ reply) d.sent
    → IsAfter input stop
        (record { conn = d; state = s; rounds = rounds ++ ((request, reply) ∷ []) })
IsCut-IsAfter {S} {stop} input request reply sent rounds d s now before i o (left, cut, whole) =
    let all = All-append IsRound rounds ((request, reply) ∷ []) before (now, tt) in
    let read =
      i
      ∙ sym (append_assoc (requests rounds) request (stream d.incoming))
      ∙ ap (λ (t : Bytes). t ++ stream d.incoming)
          (sym (
            requests-append rounds ((request, reply) ∷ [])
            ∙ ap (λ (t : Bytes). requests rounds ++ t) (append-nil request))) in
    let written : replies (rounds ++ ((request, reply) ∷ [])) ≡ d.sent ++ left =
      replies-append rounds ((request, reply) ∷ [])
      ∙ ap (λ (t : Bytes). replies rounds ++ t) (append-nil reply)
      ∙ ap (λ (t : Bytes). t ++ reply) (sym o)
      ∙ cut in
    (
      (stream d.incoming, left, read, written, all),
      elim whole [
        | inr ended ↦ inr ended
        | inl none_left ↦ inl (
          read,
          sym (written ∙ ap (λ (t : Bytes). d.sent ++ t) none_left ∙ append-nil d.sent),
          all,
        )
      ],
    )

module _ {E S : Type 0} (has_desktop : Bool) (handler : Handler E S) where
  answer_request-IsAfter :
      (input request : Bytes) (c : Conn) (l : Line S)
      → validate_request request ≡ none
      → input ≡ requests l.rounds ++ (request ++ stream c.incoming)
      → c.sent ≡ replies l.rounds
      → All IsRound l.rounds
      → let (stop, l') = answer_request has_desktop handler request c l in IsAfter input stop l'
  unfolding answer_request
  answer_request-IsAfter input request c l v i o all =
      let served = query_using has_desktop handler request l.state in
      let (cut, same) = write_reply-IsCut served.reply c in
      let d = (write_reply served.reply c).1 in
      IsCut-IsAfter input request served.reply c.sent l.rounds d served.state
        (v, query_using-valid has_desktop handler request l.state) all
        (i ∙ ap (λ (t : List _). requests l.rounds ++ (request ++ stream t)) (sym same)) o cut

  -- What a turn makes of the outcome of its read.
  unfoldable pub turn_on : Result Stop Bytes × Conn → Line S → Option Stop × Line S
  turn_on (err s, c) l = (some s, record l { conn = c })
  turn_on (ok request, c) l = answer_request has_desktop handler request c l

  pub turn_eq : (l : Line S) → turn has_desktop handler l ≡ turn_on (read_request l.conn) l
  unfolding turn turn_on
  turn_eq l = elim (Result-cases (read_request l.conn).0) [
    | inl (request, e) ↦ ground (arith, e)
    | inr (s, e) ↦ ground (arith, e)
  ]

  turn_on-IsAfter :
      (input : Bytes) (l : Line S) (r : Result Stop Bytes) (c : Conn)
      → read_request l.conn ≡ (r, c)
      → InStep input l
      → let (stop, l') = turn_on (r, c) l in IsAfter input stop l'
  unfolding turn_on
  turn_on-IsAfter input l (err s) c e (i, o, all) =
      let sent : c.sent ≡ l.conn.sent =
        ap (λ (p : Result Stop Bytes × Conn). p.1.sent) (sym e) ∙ read_request-sent l.conn in
      (
        (stream l.conn.incoming, [], i, sym (sent ∙ o) ∙ sym (append-nil c.sent), all),
        inr (λ x. cc),
      )
  turn_on-IsAfter input l (ok request) c e (i, o, all) =
      let (v, split, sent) = read_request-stream l.conn e in
      answer_request-IsAfter input request c l v
        (i ∙ ap (λ (t : Bytes). requests l.rounds ++ t) split) (sent ∙ o) all

  turn-IsAfter :
      (input : Bytes) (l : Line S)
      → InStep input l
      → let (stop, l') = turn has_desktop handler l in IsAfter input stop l'
  turn-IsAfter input l h =
      subst (λ (p : Option Stop × Line S). IsAfter input p.0 p.1) (sym (turn_eq l))
        (turn_on-IsAfter input l (read_request l.conn).0 (read_request l.conn).1 refl h)

  serve-IsAfter :
      (fuel : ℕ) (input : Bytes) (l : Line S)
      → InStep input l
      → let (stop, l') = serve has_desktop handler fuel l in IsServed input l'
  unfolding serve
  serve-IsAfter zero input l h = InStep→IsServed input l h
  serve-IsAfter (suc fuel) input l h =
      let (served, next) = turn-IsAfter input l h in
      let (stop, l') = turn has_desktop handler l in
      elim (Option-cases stop) [
        | inl goes_on ↦ elim next [
          | inl step ↦ ground (arith, goes_on, serve-IsAfter fuel input l' step)
          | inr ended ↦ absurd (ended goes_on)
        ]
        | inr (s, ended) ↦ ground (arith, ended, served)
      ]

  -- Whatever arrives, in whatever pieces, whatever the handler answers and however the connection
  -- fails: what was read in whole requests is the front of the client's bytes, each request that
  -- reached `queryUsing` was valid, each reply is valid, and what went out is the front of the
  -- replies in the order of their requests.
  pub serve_in_step :
      (fuel : ℕ) (c : Conn) (s : S)
      → c.sent ≡ []
      → IsServed
          (stream c.incoming)
          (serve has_desktop handler fuel (record { conn = c; state = s; rounds = [] })).1
  serve_in_step fuel c s e =
      serve-IsAfter fuel (stream c.incoming) (record { conn = c; state = s; rounds = [] })
        (refl, e, tt)
