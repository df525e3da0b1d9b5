-- ===== src/Agent/Session.antt =====
-- `Session` of openssh/agent.go, which keeps one connection to the agent for one client, and
-- `QueryAgent`, which opens a session for one request.
pub mod Invariant
pub mod Answers
use winssh_pageant.Common.{
  ℕ, ◌+◌, Bool, true, false, not, ◌&&◌, Option, none, some, List, [], ◌∷◌, ltb, if◌then◌else◌,
  Bytes,
}
use winssh_pageant.Common.Results.{Result, ok, err}
use winssh_pageant.Conn.{Conn, IoError}
use winssh_pageant.Library.{Library}
use winssh_pageant.Wire.{FrameError, validate_request, generic_fail_response, is_session_bind}
use winssh_pageant.Agent.Exchange.{ExchangeError, Answer, exchange}
use winssh_pageant.Agent.Pipe.{local_pipe_name}

-- `opened` and `released` count the connections that were dialled and that were closed; the
-- program does not keep them, and nothing reads them but the theorems.
pub record Session : Type 0 where
  pub pipe_name : Bytes
  pub conn : Option Conn
  pub closed : Bool
  pub opened : ℕ
  pub released : ℕ

pub data QueryError : Type 0 where
  session_bind_refused remote_pipe session_closed : QueryError
  invalid_request : FrameError → QueryError
  dial_failed : IoError → QueryError
  exchange_failed : ExchangeError → QueryError

-- What happens around one query: the answer of `winio.DialPipeContext`, and whether another
-- goroutine calls Close while the query dials and while it exchanges. The query holds no lock on
-- the state there; everywhere else it does. A Close during the exchange shows in the answers of
-- the connection as well.
pub record Surroundings : Type 0 where
  pub dial : Result IoError Conn
  pub closed_in_dial : Bool
  pub closed_in_exchange : Bool

unfoldable pub new_session : Bytes → Session
new_session pipe_name = record {
  pipe_name = pipe_name;
  conn = none;
  closed = false;
  opened = 0;
  released = 0;
}

release : Option Conn → ℕ → ℕ
release none n = n
release (some c) n = n + 1

-- `Close`
unfoldable pub close : Session → Session
unfolding release
close s =
    if s.closed
    then s
    else record s { closed = true; conn = none; released = release s.conn s.released }

abbrev pub close_if : Bool → Session → Session
close_if b s = if b then close s else s

abbrev pub failure : QueryError → Answer QueryError
failure e = record { reply = generic_fail_response; failure = some e }

-- The session keeps the connection in its new state, unless it was closed in the meantime.
keep_conn : Conn → Session → Session
keep_conn c s = elim s.conn [ none ↦ s | some old ↦ record s { conn = some c } ]

named : Answer ExchangeError → Answer QueryError
named a = elim a.failure [
  | none ↦ record { reply = a.reply; failure = none }
  | some e ↦ record { reply = a.reply; failure = some (exchange_failed e) }
]

has_failed : Answer ExchangeError → Bool
has_failed a = elim a.failure [ none ↦ false | some e ↦ true ]

-- `reply, err := exchange(conn, request)` and the Close behind a failure.
unfoldable pub exchange_on : Surroundings → Conn → Bytes → Session → Answer QueryError × Session
unfolding keep_conn named has_failed
exchange_on w c request s =
    let (a, c') = exchange request c in
    let s' = close_if w.closed_in_exchange (keep_conn c' s) in (named a, close_if (has_failed a) s')

-- What follows a dial: the check that nobody closed the session, and the exchange.
unfoldable pub after_dial :
    Surroundings → Result IoError Conn → Bytes → Session → Answer QueryError × Session
after_dial w (err e) request s = (failure (dial_failed e), close s)
after_dial w (ok c) request s =
    let opened = record s { opened = s.opened + 1 } in
    if s.closed
    then (failure session_closed, record opened { released = opened.released + 1 })
    else exchange_on w c request (record opened { conn = some c })

-- The connection at hand, or a new one.
unfoldable pub query_on : Surroundings → Option Conn → Bytes → Session → Answer QueryError × Session
query_on w (some c) request s = exchange_on w c request s
query_on w none request s = after_dial w w.dial request (close_if w.closed_in_dial s)

-- `Query`
unfoldable pub query : Library → Surroundings → Bytes → Session → Answer QueryError × Session
query lib w request s = elim (validate_request request) [
  | some e ↦ (failure (invalid_request e), s)
  | none ↦
      if not (local_pipe_name lib s.pipe_name)
      then (failure remote_pipe, s)
      else if s.closed
      then (failure session_closed, s)
      else query_on w s.conn request s
]

is_valid : Option FrameError → Bool
is_valid none = true
is_valid (some e) = false

-- `QueryAgent`; the session is closed when the query has returned.
unfoldable pub query_agent : Library → Surroundings → Bytes → Bytes → Answer QueryError × Session
unfolding is_valid
query_agent lib w pipe_name request =
    if is_valid (validate_request request) && is_session_bind request
    then (failure session_bind_refused, new_session pipe_name)
    else let (a, s) = query lib w request (new_session pipe_name) in (a, close s)
