-- ===== src/Agent/Exchange/Laws.antt =====
-- What one exchange does to the connection.
use winssh_pageant.Common.{
  ℕ, ◌≡◌, refl, sym, ap, ◌∙◌, Option, none, some, [], ◌++◌, ◌⊎◌, inl, inr, arith, Bytes, be_u32,
  length,
}
use mathlib.Core.List.{append_assoc, append-nil}
use winssh_pageant.Common.Results.{Result, ok, err}
use winssh_pageant.Conn.{
  Conn, IoError, with_error, set_read_deadline, set_write_deadline, read_full, >>=-eq-ok,
  with_error-eq-ok,
}
use winssh_pageant.Conn.Reading.{stream, read_full-stream}
use winssh_pageant.Wire.{validate_response, generic_fail_response}
use winssh_pageant.Wire.Frames.{generic_fail_response-valid}
use winssh_pageant.Agent.Exchange.{
  ExchangeError, set_write_deadline_failed, write_failed, set_read_deadline_failed,
  read_length_failed, read_reply_failed, send, write_request, send_phase, reply_phase, reply_length,
  checked_reply, exchange_reply, exchange, answer_of, write_timeout, response_timeout,
}
use winssh_pageant.Agent.Exchange.Sending.{send-Prefix}

module _ (c : Conn) {d : Conn} where
  set_write_deadline-ok :
      (t : Option ℕ)
      → set_write_deadline t c ≡ (ok tt, d)
      → (d.sent ≡ c.sent) × (d.incoming ≡ c.incoming) × (d.write_deadline ≡ t)
  unfolding set_write_deadline
  set_write_deadline-ok t e = ground arith

  set_read_deadline-ok :
      (t : Option ℕ)
      → set_read_deadline t c ≡ (ok tt, d)
      → (d.sent ≡ c.sent)
        × (d.incoming ≡ c.incoming)
        × (d.write_deadline ≡ c.write_deadline)
        × (d.read_deadline ≡ t)
  unfolding set_read_deadline
  set_read_deadline-ok t e = ground arith

  -- A successful write step has sent the whole request.
  write_request-ok :
      (request : Bytes)
      → write_request request c ≡ (ok tt, d)
      → (d.sent ≡ c.sent ++ request)
        × (d.incoming ≡ c.incoming)
        × (d.write_deadline ≡ c.write_deadline)
  unfolding write_request
  write_request-ok request e =
      let (left, split, all) = send-Prefix request c.write_answers [] in
      ground (arith, append-nil (send request c.write_answers []).bytes)

  reply_length-ok :
      (header : Bytes) {n : ℕ} → reply_length header c ≡ (ok n, d) → (n ≡ be_u32 header) × (d ≡ c)
  unfolding reply_length
  reply_length-ok header e = ground arith

  checked_reply-ok :
      (reply : Bytes) {r : Bytes}
      → checked_reply reply c ≡ (ok r, d)
      → (validate_response reply ≡ none) × (r ≡ reply) × (d ≡ c)
  unfolding checked_reply
  checked_reply-ok reply e = ground arith

module _ (c : Conn) {d : Conn} where
  named_write_deadline-ok :
      with_error set_write_deadline_failed (set_write_deadline (some write_timeout)) c ≡ (ok tt, d)
      → (d.sent ≡ c.sent) × (d.incoming ≡ c.incoming) × (d.write_deadline ≡ some write_timeout)
  named_write_deadline-ok e =
      set_write_deadline-ok c (some write_timeout)
        (with_error-eq-ok set_write_deadline_failed (set_write_deadline (some write_timeout)) c e)

  named_read_deadline-ok :
      with_error set_read_deadline_failed (set_read_deadline (some response_timeout)) c ≡ (ok tt, d)
      → (d.sent ≡ c.sent)
        × (d.incoming ≡ c.incoming)
        × (d.write_deadline ≡ c.write_deadline)
        × (d.read_deadline ≡ some response_timeout)
  named_read_deadline-ok e =
      set_read_deadline-ok c (some response_timeout)
        (with_error-eq-ok set_read_deadline_failed (set_read_deadline (some response_timeout)) c e)

  named_write-ok :
      (request : Bytes)
      → with_error write_failed (write_request request) c ≡ (ok tt, d)
      → (d.sent ≡ c.sent ++ request)
        × (d.incoming ≡ c.incoming)
        × (d.write_deadline ≡ c.write_deadline)
  named_write-ok request e =
      write_request-ok c request (with_error-eq-ok write_failed (write_request request) c e)

  named_read-ok :
      (f : IoError → ExchangeError) (n : ℕ) {out : Bytes}
      → with_error f (read_full n) c ≡ (ok out, d)
      → (length out ≡ n)
        × (stream c.incoming ≡ out ++ stream d.incoming)
        × (d ≡ record c { incoming = d.incoming })
  named_read-ok f n e = read_full-stream n c (with_error-eq-ok f (read_full n) c e)

send_phase-ok :
    (request : Bytes) (c : Conn) {d : Conn}
    → send_phase request c ≡ (ok tt, d)
    → (d.sent ≡ c.sent ++ request)
      × (d.incoming ≡ c.incoming)
      × (d.write_deadline ≡ some write_timeout)
      × (d.read_deadline ≡ some response_timeout)
unfolding send_phase
send_phase-ok request c {d} e =
    let (_, c1, e1, f1) =
      >>=-eq-ok (with_error set_write_deadline_failed (set_write_deadline (some write_timeout))) _ c
        e in
    let (_, c2, e2, f2) = >>=-eq-ok (with_error write_failed (write_request request)) _ c1 f1 in
    let (s1, i1, w1) = named_write_deadline-ok c {d = c1} e1 in
    let (s2, i2, w2) = named_write-ok c1 {d = c2} request e2 in
    let (s3, i3, w3, r3) = named_read_deadline-ok c2 {d = d} f2 in
    (s3 ∙ s2 ∙ ap (λ (s : Bytes). s ++ request) s1, i3 ∙ i2 ∙ i1, w3 ∙ w2 ∙ w1, r3)

-- Two reads, one behind the other, take what they return together.
two_reads :
    (c c1 c2 c3 d : Conn) (header payload reply : Bytes)
    → stream c.incoming ≡ header ++ stream c1.incoming
    → c1 ≡ record c { incoming = c1.incoming }
    → c2 ≡ c1
    → stream c2.incoming ≡ payload ++ stream c3.incoming
    → c3 ≡ record c2 { incoming = c3.incoming }
    → reply ≡ header ++ payload
    → d ≡ c3
    → (stream c.incoming ≡ reply ++ stream d.incoming) × (d ≡ record c { incoming = d.incoming })
two_reads c c1 c2 c3 d header payload reply s1 k1 k2 s3 k3 r k4 = (
  s1
      ∙ ap (λ (t : Bytes). header ++ t)
          (ap (λ (x : Conn). stream x.incoming) (sym k2)
            ∙ s3
            ∙ ap (λ (x : Conn). payload ++ stream x.incoming) (sym k4))
      ∙ sym (append_assoc header payload (stream d.incoming))
      ∙ ap (λ (t : Bytes). t ++ stream d.incoming) (sym r),
  ground arith,
)

reply_phase-ok :
    (c : Conn) {reply : Bytes} {d : Conn}
    → reply_phase c ≡ (ok reply, d)
    → (validate_response reply ≡ none)
      × (stream c.incoming ≡ reply ++ stream d.incoming)
      × (d ≡ record c { incoming = d.incoming })
unfolding reply_phase
reply_phase-ok c {reply} {d} e =
    let (header, c1, e1, f1) = >>=-eq-ok (with_error read_length_failed (read_full 4)) _ c e in
    let (n, c2, e2, f2) = >>=-eq-ok (reply_length header) _ c1 f1 in
    let (payload, c3, e3, f3) = >>=-eq-ok (with_error read_reply_failed (read_full n)) _ c2 f2 in
    let (_, s1, k1) = named_read-ok c {d = c1} read_length_failed 4 e1 in
    let (_, k2) = reply_length-ok c1 {d = c2} header {n = n} e2 in
    let (_, s3, k3) = named_read-ok c2 {d = c3} read_reply_failed n e3 in
    let (v, r, k4) = checked_reply-ok c3 {d = d} (header ++ payload) {r = reply} f3 in
    let (split, kept) = two_reads c c1 c2 c3 d header payload reply s1 k1 k2 s3 k3 r k4 in
    (rw r v, split, kept)

-- A successful exchange has sent the whole request and taken exactly one reply from the input, a
-- valid one, with both deadlines set; what comes behind the reply is left there.
pub exchange_reply-ok :
    (request : Bytes) (c : Conn) {reply : Bytes} {d : Conn}
    → exchange_reply request c ≡ (ok reply, d)
    → (validate_response reply ≡ none)
      × (d.sent ≡ c.sent ++ request)
      × (stream c.incoming ≡ reply ++ stream d.incoming)
      × (d.write_deadline ≡ some write_timeout)
      × (d.read_deadline ≡ some response_timeout)
unfolding exchange_reply
exchange_reply-ok request c {reply} {d} e =
    let (_, c1, e1, f1) = >>=-eq-ok (send_phase request) _ c e in
    let (s1, i1, w1, r1) = send_phase-ok request c {d = c1} e1 in
    let (v, split, kept) = reply_phase-ok c1 {d = d} f1 in
    (
      v,
      ap (λ (x : Conn). x.sent) kept ∙ s1,
      ap stream (sym i1) ∙ split,
      ap (λ (x : Conn). x.write_deadline) kept ∙ w1,
      ap (λ (x : Conn). x.read_deadline) kept ∙ r1,
    )

-- What `exchange` answers is a valid frame, and beside an error it is the generic failure.
pub exchange-valid :
    (request : Bytes) (c : Conn)
    → let a = (exchange request c).0 in
      (validate_response a.reply ≡ none) × ((a.failure ≡ none) ⊎ (a.reply ≡ generic_fail_response))
unfolding exchange
exchange-valid request c = answer_valid (exchange_reply request c) refl
  where
    answer_valid :
        (r : Result ExchangeError Bytes × Conn)
        → exchange_reply request c ≡ r
        → (validate_response (answer_of r.0).reply ≡ none)
          × (((answer_of r.0).failure ≡ none) ⊎ ((answer_of r.0).reply ≡ generic_fail_response))
    answer_valid (ok reply, d) e = ((exchange_reply-ok request c {d = d} e).0, inl refl)
    answer_valid (err x, d) e = (generic_fail_response-valid.0, inr refl)
