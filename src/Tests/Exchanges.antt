-- ===== src/Tests/Exchanges.antt =====
-- The agent's side.
use winssh_pageant.Common.{
  ◌≤◌, ◌≡◌, ◌⊎◌, refl, true, false, none, some, [], ◌∷◌, ◌++◌, arith, Bytes, codes, has_prefix,
  contains_byte,
}
use winssh_pageant.Conn.{Conn, closed_pipe, fill, read_full, set_read_deadline, set_write_deadline}
use winssh_pageant.Conn.Reading.{stream}
use winssh_pageant.Text.Case.{is_ascii, to_lower}
use winssh_pageant.Wire.{validate_frame, validate_request, validate_response}
use winssh_pageant.Agent.Exchange.{
  exchange, exchange_reply, write_timeout, response_timeout, send, write_request, send_phase,
  reply_phase, reply_length, checked_reply,
}
use winssh_pageant.Agent.Exchange.Laws.{exchange_reply-ok}
use winssh_pageant.Agent.Exchange.Total.{Ready, exchange-total}
use winssh_pageant.Agent.Pipe.{local_pipe_name}
use winssh_pageant.Agent.Session.{Session, new_session, query, query_agent}
use winssh_pageant.Agent.Session.Invariant.{queries, closes, run, run-opens_once}
use winssh_pageant.Agent.Session.Answers.{IsSound, query-IsSound, query_agent-releases, query-total}
use winssh_pageant.Tests.Data.{lib, list_request, no_keys, pipe_name, ready_conn, calm}

ready : Ready list_request no_keys (7 ∷ []) ready_conn
ready = record {
  later_deadlines = [];
  deadlines = refl;
  accepts = ground arith;
  no_failure = ground arith;
  arrives = refl;
}

no_keys-valid : validate_response no_keys ≡ none
unfolding validate_response validate_frame
no_keys-valid = refl

exchange-total_example :
    ((exchange list_request ready_conn).0 ≡ record { reply = no_keys; failure = none })
    × (stream (exchange list_request ready_conn).1.incoming ≡ 7 ∷ [])
exchange-total_example = exchange-total list_request no_keys (7 ∷ []) ready_conn no_keys-valid ready

abbrev after_exchange : Conn
after_exchange = record {
  deadline_answers = [];
  write_answers = [];
  incoming = (7 ∷ [], none) ∷ [];
  sent = list_request;
  read_deadline = some 60;
  write_deadline = some 2;
}

exchange_reply-ok_example :
    (validate_response no_keys ≡ none)
    × (list_request ≡ [] ++ list_request)
    × (stream ready_conn.incoming ≡ no_keys ++ (7 ∷ []))
    × (some 2 ≡ some write_timeout)
    × (some 60 ≡ some response_timeout)
unfolding exchange_reply send_phase reply_phase write_request send reply_length checked_reply
    validate_response validate_frame fill read_full set_read_deadline set_write_deadline
exchange_reply-ok_example =
    exchange_reply-ok list_request ready_conn {reply = no_keys} {d = after_exchange} refl

pipe_name-local : local_pipe_name lib pipe_name ≡ true
unfolding is_ascii local_pipe_name to_lower has_prefix contains_byte
pipe_name-local = refl

list_request-valid : validate_request list_request ≡ none
unfolding validate_request validate_frame
list_request-valid = refl

abbrev idle : Session
idle = record { pipe_name = pipe_name; conn = none; closed = false; opened = 0; released = 0 }

query-total_example :
    (d : Conn) × ((query lib calm list_request idle).0 ≡ record { reply = no_keys; failure = none })
    × ((query lib calm list_request idle).1 ≡ record idle { conn = some d; opened = 1 })
    × (stream d.incoming ≡ 7 ∷ [])
query-total_example =
    query-total lib calm list_request no_keys (7 ∷ []) idle ready_conn list_request-valid
      pipe_name-local (refl, refl, refl, refl) refl refl refl no_keys-valid ready

query-IsSound_example : IsSound (query lib calm list_request idle).0
query-IsSound_example = query-IsSound lib calm list_request idle

run-opens_once_example :
    let s = run lib (queries calm list_request ∷ closes ∷ []) (new_session pipe_name) in
    (s.opened ≤ 1) × ((s.closed ≡ false) ⊎ ((s.conn ≡ none) × (s.released ≡ s.opened)))
run-opens_once_example = run-opens_once lib pipe_name (queries calm list_request ∷ closes ∷ [])

abbrev shut : Session
shut = record { pipe_name = pipe_name; conn = none; closed = true; opened = 1; released = 1 }

query_agent-releases_example :
    let s = (query_agent lib calm pipe_name list_request).1 in
    (s.conn ≡ none) × (s.released ≡ s.opened)
query_agent-releases_example = query_agent-releases lib calm pipe_name list_request

abbrev bind_request : Bytes
bind_request = 0 ∷ 0 ∷ 0 ∷ 29 ∷ 27 ∷ 0 ∷ 0 ∷ 0 ∷ 24 ∷ codes "session-bind@openssh.com"

-- An agent that closes its pipe while the request is sent.
abbrev broken_conn : Conn
broken_conn = record ready_conn { write_answers = (2, some closed_pipe) ∷ [] }

abbrev live : Session
live = record {
  pipe_name = pipe_name;
  conn = some broken_conn;
  closed = false;
  opened = 1;
  released = 0;
}
