-- ===== src/Agent/Session/Answers.antt =====
-- What a query answers.
use winssh_pageant.Common.{
  ◌+◌, ◌≡◌, refl, ◌⊎◌, inl, inr, true, false, Option, none, some, arith, Bytes,
}
use winssh_pageant.Common.Results.{Result, ok, err}
use winssh_pageant.Conn.{Conn, IoError}
use winssh_pageant.Conn.Reading.{stream}
use winssh_pageant.Library.{Library}
use winssh_pageant.Wire.{
  validate_request, validate_response, generic_fail_response, is_session_bind,
}
use winssh_pageant.Wire.Frames.{generic_fail_response-valid}
use winssh_pageant.Agent.Exchange.{Answer, exchange}
use winssh_pageant.Agent.Exchange.Laws.{exchange-valid}
use winssh_pageant.Agent.Exchange.Total.{Ready, exchange-total}
use winssh_pageant.Agent.Pipe.{local_pipe_name}
use winssh_pageant.Agent.Session.{
  QueryError, session_bind_refused, Session, Surroundings, new_session, exchange_on, after_dial,
  query_on, query, query_agent,
}
use winssh_pageant.Agent.Session.Invariant.{IsIdle, query-Inv, close-IsShut}

-- A valid frame, which is the generic failure beside an error.
abbrev pub IsSound : Answer QueryError → Type 0
IsSound a =
    (validate_response a.reply ≡ none) × ((a.failure ≡ none) ⊎ (a.reply ≡ generic_fail_response))

module _ (w : Surroundings) (request : Bytes) where
  exchange_on-IsSound : (c : Conn) (s : Session) → IsSound (exchange_on w c request s).0
  unfolding exchange_on
  exchange_on-IsSound c s = ground (arith, exchange-valid request c)

  after_dial-IsSound :
      (r : Result IoError Conn) (s : Session) → IsSound (after_dial w r request s).0
  unfolding after_dial
  after_dial-IsSound (err e) s = (generic_fail_response-valid.0, inr refl)
  after_dial-IsSound (ok c) s =
      let opened = record s { opened = s.opened + 1; conn = some c } in
      ground (arith, generic_fail_response-valid.0, exchange_on-IsSound c opened)

  query_on-IsSound : (conn : Option Conn) (s : Session) → IsSound (query_on w conn request s).0
  unfolding query_on
  query_on-IsSound (some c) s = exchange_on-IsSound c s
  query_on-IsSound none s = after_dial-IsSound w.dial _

-- Whatever the request, the agent and the session's state, a query answers with a valid frame, and
-- beside every error with the generic failure frame.
pub query-IsSound :
    (lib : Library) (w : Surroundings) (request : Bytes) (s : Session)
    → IsSound (query lib w request s).0
unfolding query
query-IsSound lib w request s =
    ground (arith, generic_fail_response-valid.0, query_on-IsSound w request s.conn s)

-- `QueryAgent` never leaves a connection open.
pub query_agent-releases :
    (lib : Library) (w : Surroundings) (pipe_name request : Bytes)
    → let s = (query_agent lib w pipe_name request).1 in (s.conn ≡ none) × (s.released ≡ s.opened)
unfolding query_agent new_session
query_agent-releases lib w pipe_name request =
    let idle = new_session pipe_name in
    let after = (query lib w request idle).1 in
    let v = close-IsShut after (query-Inv lib w request idle (inl (refl, refl, refl, refl))) in
    ground (arith, v)

-- A one-shot query refuses a well-formed session binding, and dials nothing for it.
pub query_agent_bind :
    (lib : Library) (w : Surroundings) (pipe_name request : Bytes)
    → validate_request request ≡ none
    → is_session_bind request ≡ true
    → let (a, s) = query_agent lib w pipe_name request in
      (a.reply ≡ generic_fail_response) × (a.failure ≡ some session_bind_refused) × (s.opened ≡ 0)
unfolding query_agent new_session
query_agent_bind lib w pipe_name request v b = ground arith

-- A first query over a local pipe ends with the agent's reply, if the dial succeeds, nobody closes
-- the session and the agent keeps the protocol; and the session keeps the connection, with what the
-- agent sends behind the reply still to be read.
pub query-total :
    (lib : Library) (w : Surroundings) (request reply more : Bytes) (s : Session) (c : Conn)
    → validate_request request ≡ none
    → local_pipe_name lib s.pipe_name ≡ true
    → IsIdle s
    → w.dial ≡ ok c
    → w.closed_in_dial ≡ false
    → w.closed_in_exchange ≡ false
    → validate_response reply ≡ none
    → Ready request reply more c
    → (d : Conn) × ((query lib w request s).0 ≡ record { reply = reply; failure = none })
      × ((query lib w request s).1 ≡ record s { conn = some d; opened = 1 })
      × (stream d.incoming ≡ more)
unfolding query query_on after_dial exchange_on
query-total lib w request reply more s c v l (none_conn, open_s, o, r) dial calm1 calm2 valid
      ready =
    let (run, left) = exchange-total request reply more c valid ready in
    ((exchange request c).1, ground (arith, run), ground (arith, run), left)
