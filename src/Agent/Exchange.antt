-- ===== src/Agent/Exchange.antt =====
-- `exchange` of openssh/agent.go: one request and one reply on a connection.
pub mod Sending
pub mod Laws
pub mod Total
use winssh_pageant.Common.{
  ℕ, suc, ◌≡◌, Bool, true, false, not, ◌||◌, Option, none, some, List, [], ◌∷◌, ◌++◌, ltb, ◌==◌,
  if◌then◌else◌, Bytes, be_u32, length, take, drop,
}
use winssh_pageant.Common.Results.{Result, ok, err}
use winssh_pageant.Conn.{
  IoError, closed_pipe, short_write, Conn, Io, ◌>>=◌, ◌>>◌, pure, fail, with_error,
  set_read_deadline, set_write_deadline, read_full,
}
use winssh_pageant.Wire.{FrameError, max_response_length, generic_fail_response, validate_response}

-- The operation that failed, as in the messages of `fail` and of the two checks on the reply.
pub data ExchangeError : Type 0 where
  set_write_deadline_failed write_failed set_read_deadline_failed : IoError → ExchangeError
  read_length_failed read_reply_failed : IoError → ExchangeError
  bad_reply_length : ℕ → ExchangeError
  bad_reply : FrameError → ExchangeError

-- `agentWriteTimeout` and `agentResponseTimeout`, in seconds.
abbrev pub write_timeout : ℕ
write_timeout = 2

abbrev pub response_timeout : ℕ
response_timeout = 60

-- The outcome of the write loop: its error, the answers left, and what went out.
pub record Sent : Type 0 where
  pub failure : Option IoError
  pub answers : List (ℕ × Option IoError)
  pub bytes : Bytes

-- One Write of a nonempty slice hands over its first bytes; the count is what the caller is told.
unfoldable pub send : Bytes → List (ℕ × Option IoError) → Bytes → Sent
send [] answers out = record { failure = none; answers = answers; bytes = out }
send (b ∷ bs) [] out = record { failure = some closed_pipe; answers = []; bytes = out }
send (b ∷ bs) ((n, some e) ∷ answers) out = record {
  failure = some e;
  answers = answers;
  bytes = out ++ take n (b ∷ bs);
}
send (b ∷ bs) ((n, none) ∷ answers) out =
    let rest = send (drop n (b ∷ bs)) answers (out ++ take n (b ∷ bs)) in
    if n == 0 || ltb (length (b ∷ bs)) n
    then record { failure = some short_write; answers = answers; bytes = out ++ take n (b ∷ bs) }
    else rest

-- `for remaining := request; len(remaining) > 0; { … }`
unfoldable pub write_request : Bytes → Io IoError (Unit {0})
unfolding send
write_request request c =
    let s = send request c.write_answers [] in
    let c' = record c { write_answers = s.answers; sent = c.sent ++ s.bytes } in
    elim s.failure [ none ↦ (ok tt, c') | some e ↦ (err e, c') ]

-- The length of the payload that the header announces, within its bounds.
unfoldable pub reply_length : Bytes → Io ExchangeError ℕ
reply_length header c =
    let n = be_u32 header in
    if n == 0 || ltb max_response_length n then (err (bad_reply_length n), c) else (ok n, c)

unfoldable pub checked_reply : Bytes → Io ExchangeError Bytes
checked_reply reply c = elim (validate_response reply) [
  | some e ↦ (err (bad_reply e), c)
  | none ↦ (ok reply, c)
]

-- The request goes out under one deadline, and another is set for the whole reply.
unfoldable pub send_phase : Bytes → Io ExchangeError (Unit {0})
send_phase request = do
  with_error set_write_deadline_failed (set_write_deadline (some write_timeout))
  with_error write_failed (write_request request)
  with_error set_read_deadline_failed (set_read_deadline (some response_timeout))

unfoldable pub reply_phase : Io ExchangeError Bytes
reply_phase = do
  header ← with_error read_length_failed (read_full 4)
  n ← reply_length header
  payload ← with_error read_reply_failed (read_full n)
  checked_reply (header ++ payload)

-- The reply or the first failure.
unfoldable pub exchange_reply : Bytes → Io ExchangeError Bytes
exchange_reply request = do send_phase request; reply_phase

-- Go's pair: every failure comes with the generic failure frame.
pub record Answer (E : Type 0) : Type 0 where
  pub reply : Bytes
  pub failure : Option E

abbrev pub answer_of : {E : Type 0} → Result E Bytes → Answer E
answer_of (ok reply) = record { reply = reply; failure = none }
answer_of (err e) = record { reply = generic_fail_response; failure = some e }

unfoldable pub exchange : Bytes → Conn → Answer ExchangeError × Conn
exchange request c = let (r, c') = exchange_reply request c in (answer_of r, c')
