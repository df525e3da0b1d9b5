-- ===== src/Agent/Exchange/Total.antt =====
-- An exchange with a peer that keeps the protocol ends with the peer's reply.
use winssh_pageant.Common.{
  ℕ, ◌≤◌, ◌≡◌, refl, sym, ap, ◌∙◌, Option, none, some, List, [], ◌∷◌, ◌++◌, arith, Bytes, be_u32,
  length, take, drop, take-append-drop, length-take_le, length-drop,
}
use mathlib.Core.List.{append_assoc}
use winssh_pageant.Common.Results.{ok}
use winssh_pageant.Conn.{Conn, IoError, set_read_deadline, set_write_deadline, read_full}
use winssh_pageant.Conn.Reading.{stream, NoFailure, fill-total}
use winssh_pageant.Wire.{validate_response, max_response_length}
use winssh_pageant.Wire.Frames.{validate_response_facts, validate_frame_facts}
use winssh_pageant.Agent.Exchange.{
  write_request, send_phase, reply_length, checked_reply, reply_phase, exchange_reply, exchange,
  send,
}
use winssh_pageant.Agent.Exchange.Sending.{Accepts, send-total}

-- The system sets both deadlines, every Write makes progress, and the bytes of `reply` arrive
-- without an error, in whatever pieces; `more` may come behind them.
pub record Ready (request reply more : Bytes) (c : Conn) : Type 0 where
  pub later_deadlines : List (Option IoError)
  pub deadlines : c.deadline_answers ≡ none ∷ none ∷ later_deadlines
  pub accepts : Accepts request c.write_answers
  pub no_failure : NoFailure c.incoming
  pub arrives : stream c.incoming ≡ reply ++ more

write_request-total :
    (request : Bytes) (c : Conn)
    → Accepts request c.write_answers
    → (d : Conn) × (write_request request c ≡ (ok tt, d))
      × (d.incoming ≡ c.incoming)
      × (d.deadline_answers ≡ c.deadline_answers)
unfolding write_request
write_request-total request c h =
    let s = send request c.write_answers [] in
    let e = send-total request c.write_answers [] h in
    (
      record c { write_answers = s.answers; sent = c.sent ++ s.bytes },
      ground (arith, e),
      refl,
      refl,
    )

send_phase-total :
    (request : Bytes) (c : Conn) (ds : List (Option IoError))
    → c.deadline_answers ≡ none ∷ none ∷ ds
    → Accepts request c.write_answers
    → (d : Conn) × (send_phase request c ≡ (ok tt, d)) × (d.incoming ≡ c.incoming)
unfolding send_phase set_write_deadline set_read_deadline
send_phase-total request c ds e h =
    let c1 : Conn = record c { deadline_answers = none ∷ ds; write_deadline = some 2 } in
    let (c2, run, i, rest) = write_request-total request c1 h in
    (record c2 { deadline_answers = ds; read_deadline = some 60 }, ground (arith, run), i)

-- The header of a valid reply announces its payload.
header_facts :
    (reply : Bytes)
    → validate_response reply ≡ none
    → (be_u32 (take 4 reply) ≡ length (drop 4 reply))
      × (1 ≤ length (drop 4 reply))
      × (length (drop 4 reply) ≤ max_response_length)
      × (length (take 4 reply) ≡ 4)
header_facts reply v =
    let facts =
      validate_frame_facts reply max_response_length (validate_response_facts reply v).0 in
    omega (arith, facts, length-drop 4 reply, length-take_le 4 reply)

read_full-total :
    (c : Conn) (want more : Bytes) (n : ℕ)
    → NoFailure c.incoming
    → stream c.incoming ≡ want ++ more
    → length want ≡ n
    → (d : Conn) × (read_full n c ≡ (ok want, d))
      × NoFailure d.incoming
      × (stream d.incoming ≡ more)
unfolding read_full
read_full-total c want more n h e l =
    let (rest, run, fine, left) = fill-total c.incoming [] want more n h e l in
    (record c { incoming = rest }, ground (arith, run), fine, left)

-- The two reads as the header directs them.
reply_phase_run :
    (c c1 c2 : Conn) (header payload : Bytes)
    → read_full 4 c ≡ (ok header, c1)
    → be_u32 header ≡ length payload
    → 1 ≤ length payload
    → length payload ≤ max_response_length
    → read_full (length payload) c1 ≡ (ok payload, c2)
    → validate_response (header ++ payload) ≡ none
    → reply_phase c ≡ (ok (header ++ payload), c2)
unfolding reply_phase reply_length checked_reply
reply_phase_run c c1 c2 header payload r1 n lo hi r2 v = ground (arith, r1, n, r2, v)

reply_phase-total :
    (c : Conn) (reply more : Bytes)
    → NoFailure c.incoming
    → stream c.incoming ≡ reply ++ more
    → validate_response reply ≡ none
    → (d : Conn) × (reply_phase c ≡ (ok reply, d)) × (stream d.incoming ≡ more)
reply_phase-total c reply more h e v =
    let (announced, lo, hi, four) = header_facts reply v in
    let whole = take-append-drop 4 reply in
    let split : stream c.incoming ≡ take 4 reply ++ (drop 4 reply ++ more) =
      e
      ∙ ap (λ (t : Bytes). t ++ more) (sym whole)
      ∙ append_assoc (take 4 reply) (drop 4 reply) more in
    let (c1, run1, h1, e1) =
      read_full-total c (take 4 reply) (drop 4 reply ++ more) 4 h split four in
    let (c2, run2, h2, e2) =
      read_full-total c1 (drop 4 reply) more (length (drop 4 reply)) h1 e1 refl in
    let run =
      reply_phase_run c c1 c2 (take 4 reply) (drop 4 reply) run1 announced lo hi run2
        (rw whole v) in
    (c2, run ∙ ap (λ (t : Bytes). (ok t, c2)) whole, e2)

-- With such a peer the exchange succeeds, its answer is that reply, and what comes behind the
-- reply is left for the next exchange.
pub exchange-total :
    (request reply more : Bytes) (c : Conn)
    → validate_response reply ≡ none
    → Ready request reply more c
    → ((exchange request c).0 ≡ record { reply = reply; failure = none })
      × (stream (exchange request c).1.incoming ≡ more)
unfolding exchange exchange_reply
exchange-total request reply more c v r =
    let (c1, run1, i) = send_phase-total request c r.later_deadlines r.deadlines r.accepts in
    let (d, run2, left) =
      reply_phase-total c1 reply more (rw i r.no_failure) (ap stream i ∙ r.arrives) v in
    (ground (arith, run1, run2), ground (arith, run1, run2))
