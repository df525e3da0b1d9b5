-- ===== src/Agent/Session/Invariant.antt =====
-- The life of a session's connection.
use winssh_pageant.Common.{
  ◌+◌, ◌≤◌, ◌≡◌, ◌≢◌, refl, ◌⊎◌, inl, inr, Bool, true, false, Option, none, some, List, [], ◌∷◌,
  arith, Bytes, ap, ◌∙◌,
}
use winssh_pageant.Common.Results.{Result, ok, err}
use winssh_pageant.Conn.{Conn, IoError}
use winssh_pageant.Library.{Library}
use winssh_pageant.Agent.Exchange.{ExchangeError}
use winssh_pageant.Agent.Session.{
  exchange_failed, Session, Surroundings, new_session, close, close_if, exchange_on, after_dial,
  query_on, query,
}

-- Before the first dial, with the one connection, and closed for good.
abbrev pub IsIdle : Session → Type 0
IsIdle s = (s.conn ≡ none) × (s.closed ≡ false) × (s.opened ≡ 0) × (s.released ≡ 0)

abbrev pub IsLive : Session → Type 0
IsLive s = (s.conn ≢ none) × (s.closed ≡ false) × (s.opened ≡ 1) × (s.released ≡ 0)

abbrev pub IsShut : Session → Type 0
IsShut s = (s.conn ≡ none) × (s.closed ≡ true) × (s.opened ≤ 1) × (s.released ≡ s.opened)

abbrev pub Inv : Session → Type 0
Inv s = IsIdle s ⊎ IsLive s ⊎ IsShut s

pub close-IsShut : (s : Session) → Inv s → IsShut (close s)
unfolding close
close-IsShut s v = ground arith

pub exchange_on-Inv :
    (w : Surroundings) (c : Conn) (request : Bytes) (s : Session)
    → IsLive s
    → Inv (exchange_on w c request s).1
unfolding exchange_on close
exchange_on-Inv w c request s v = ground arith

after_dial-Inv :
    (w : Surroundings) (r : Result IoError Conn) (request : Bytes) (s : Session)
    → IsIdle s ⊎ (IsShut s × (s.opened ≡ 0))
    → Inv (after_dial w r request s).1
unfolding after_dial close
after_dial-Inv w (err e) request s v = ground arith
after_dial-Inv w (ok c) request s v =
    let live : Session = record s { opened = s.opened + 1; conn = some c } in
    ground (arith, exchange_on-Inv w c request live)

query_on-Inv :
    (w : Surroundings) (conn : Option Conn) (request : Bytes) (s : Session)
    → s.conn ≡ conn
    → s.closed ≡ false
    → Inv s
    → Inv (query_on w conn request s).1
unfolding query_on close
query_on-Inv w (some c) request s e open_s v = exchange_on-Inv w c request s (ground arith)
query_on-Inv w none request s e open_s v =
    after_dial-Inv w w.dial request (close_if w.closed_in_dial s) (ready w.closed_in_dial)
  where
    ready :
        (raced : Bool)
        → IsIdle (close_if raced s) ⊎ (IsShut (close_if raced s) × ((close_if raced s).opened ≡ 0))
    ready true = inr (ground arith)
    ready false = inl (ground arith)

-- A query keeps the invariant, whatever the agent answers and whoever closes the session meanwhile.
pub query-Inv :
    (lib : Library) (w : Surroundings) (request : Bytes) (s : Session)
    → Inv s
    → Inv (query lib w request s).1
unfolding query
query-Inv lib w request s v = ground (arith, query_on-Inv w s.conn request s refl)

-- What the owner of a session does with it.
pub data Call : Type 0 where
  queries : Surroundings → Bytes → Call
  closes : Call

unfoldable pub run : Library → List Call → Session → Session
run lib [] s = s
run lib (queries w request ∷ calls) s = run lib calls (query lib w request s).1
run lib (closes ∷ calls) s = run lib calls (close s)

run-Inv : (lib : Library) (calls : List Call) (s : Session) → Inv s → Inv (run lib calls s)
unfolding run
run-Inv lib [] s v = v
run-Inv lib (queries w request ∷ calls) s v = run-Inv lib calls _ (query-Inv lib w request s v)
run-Inv lib (closes ∷ calls) s v = run-Inv lib calls _ (inr (inr (close-IsShut s v)))

-- Over any history of a session at most one connection is ever opened, and when the session is
-- closed every connection has been released, exactly once.
pub run-opens_once :
    (lib : Library) (pipe_name : Bytes) (calls : List Call)
    → let s = run lib calls (new_session pipe_name) in
      (s.opened ≤ 1) × ((s.closed ≡ false) ⊎ ((s.conn ≡ none) × (s.released ≡ s.opened)))
unfolding new_session
run-opens_once lib pipe_name calls =
    let v = run-Inv lib calls (new_session pipe_name) (inl (refl, refl, refl, refl)) in
    ground (arith, v)

-- A closed session answers no request and changes no more: a lost connection is never replaced.
pub query_closed :
    (lib : Library) (w : Surroundings) (request : Bytes) (s : Session)
    → s.closed ≡ true
    → ((query lib w request s).1 ≡ s) × ((query lib w request s).0.failure ≢ none)
unfolding query
query_closed lib w request s e = ground arith

-- Nothing that is done with a closed session changes it: a lost connection is never replaced, and
-- what was released is not released again.
pub run_closed :
    (lib : Library) (calls : List Call) (s : Session) → s.closed ≡ true → run lib calls s ≡ s
unfolding run close
run_closed lib [] s e = refl
run_closed lib (queries w request ∷ calls) s e =
    ap (run lib calls) (query_closed lib w request s e).0 ∙ run_closed lib calls s e
run_closed lib (closes ∷ calls) s e =
    let same : close s ≡ s = ground arith in ap (run lib calls) same ∙ run_closed lib calls s e

-- A failed exchange closes the session.
pub query_lost :
    (lib : Library) (w : Surroundings) (request : Bytes) (s : Session) {x : ExchangeError}
    → (query lib w request s).0.failure ≡ some (exchange_failed x)
    → (query lib w request s).1.closed ≡ true
unfolding query query_on after_dial exchange_on close
query_lost lib w request s e = ground arith
