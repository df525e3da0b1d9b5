-- ===== src/Bridge/Pipe/Reading.antt =====
-- Reading one request from a pipe client.
use winssh_pageant.Common.{
  ℕ, ◌-◌, ◌≤◌, ◌≡◌, refl, sym, ap, ◌∙◌, Option, none, some, ◌++◌, arith, Bytes, be_u32, length,
  length-append, take-append,
}
use mathlib.Core.List.{append_assoc}
use winssh_pageant.Common.Results.{Result, ok, err}
use winssh_pageant.Conn.{
  Conn, Io, continue, ◌>>=◌, >>=-eq-ok, with_error, with_error-eq-ok, set_read_deadline, read_full,
  pure,
}
use winssh_pageant.Conn.Reading.{stream, read_full-stream}
use winssh_pageant.Wire.{max_message_length, validate_request, validate_frame}
use winssh_pageant.Bridge.Pipe.{Stop, read_failed, request_length, read_request, client_timeout}

set_read_deadline_rest :
    (t : Option ℕ) (c : Conn) {u : Unit {0}} {d : Conn}
    → set_read_deadline t c ≡ (ok u, d)
    → (d.incoming ≡ c.incoming) × (d.sent ≡ c.sent) × (d.write_answers ≡ c.write_answers)
unfolding set_read_deadline
set_read_deadline_rest t c e = ground arith

request_length_facts :
    (prefix : Bytes) (c : Conn) {n : ℕ} {d : Conn}
    → request_length prefix c ≡ (ok n, d)
    → (d ≡ c) × (n ≡ be_u32 prefix) × (1 ≤ n) × (n ≤ max_message_length - 4)
unfolding request_length
request_length_facts prefix c e = ground arith

-- A prefix and a payload of the length that it announces are a valid request.
framed-valid :
    (prefix payload : Bytes)
    → length prefix ≡ 4
    → length payload ≡ be_u32 prefix
    → 1 ≤ be_u32 prefix
    → be_u32 prefix ≤ max_message_length - 4
    → validate_request (prefix ++ payload) ≡ none
unfolding validate_request validate_frame
framed-valid prefix payload four n lo hi =
    ground (arith, n, lo, hi, length-append prefix payload, take-append 4 prefix payload four)

pure-eq-ok :
    {E : Type 0} (a : Bytes) (c : Conn) {b : Bytes} {d : Conn}
    → pure {E = E} a c ≡ (ok b, d)
    → (b ≡ a) × (d ≡ c)
pure-eq-ok a c e = (cc, cc)

join :
    (first others payload request s0 s1 s2 s3 rest : Bytes)
    → s0 ≡ first ++ s1
    → s1 ≡ s2
    → s2 ≡ others ++ s3
    → s3 ≡ payload ++ rest
    → request ≡ (first ++ others) ++ payload
    → s0 ≡ request ++ rest
join first others payload request s0 s1 s2 s3 rest e1 e2 e3 e5 r =
    e1
    ∙ ap (λ (t : Bytes). first ++ t) (e2 ∙ e3 ∙ ap (λ (t : Bytes). others ++ t) e5)
    ∙ sym (append_assoc first others (payload ++ rest))
    ∙ sym (append_assoc (first ++ others) payload rest)
    ∙ ap (λ (t : Bytes). t ++ rest) (sym r)

-- What one turn takes from the input is a valid request, whole, and nothing else.
pub read_request-stream :
    (c : Conn) {request : Bytes} {d : Conn}
    → read_request c ≡ (ok request, d)
    → (validate_request request ≡ none)
      × (stream c.incoming ≡ request ++ stream d.incoming)
      × (d.sent ≡ c.sent)
unfolding read_request
read_request-stream c {request} {d} e =
    let (u0, c0, e0, k0) = >>=-eq-ok (with_error read_failed (set_read_deadline none)) _ c e in
    let (first, c1, e1, k1) = >>=-eq-ok (with_error read_failed (read_full 1)) _ c0 k0 in
    let (u2, c2, e2, k2) =
      >>=-eq-ok (with_error read_failed (set_read_deadline (some client_timeout))) _ c1 k1 in
    let (others, c3, e3, k3) = >>=-eq-ok (with_error read_failed (read_full 3)) _ c2 k2 in
    let (n, c4, e4, k4) = >>=-eq-ok (request_length (first ++ others)) _ c3 k3 in
    let (payload, c5, e5, k5) = >>=-eq-ok (with_error read_failed (read_full n)) _ c4 k4 in
    let (r, dd) = pure-eq-ok ((first ++ others) ++ payload) c5 k5 in
    let s0 =
      set_read_deadline_rest none c (with_error-eq-ok read_failed (set_read_deadline none) c e0) in
    let (l1, s1, t1) = read_full-stream 1 c0 (with_error-eq-ok read_failed (read_full 1) c0 e1) in
    let s2 =
      set_read_deadline_rest (some client_timeout) c1
        (with_error-eq-ok read_failed (set_read_deadline (some client_timeout)) c1 e2) in
    let (l3, s3, t3) = read_full-stream 3 c2 (with_error-eq-ok read_failed (read_full 3) c2 e3) in
    let (same, v, lo, hi) = request_length_facts (first ++ others) c3 e4 in
    let (l5, s5, t5) = read_full-stream n c4 (with_error-eq-ok read_failed (read_full n) c4 e5) in
    let valid =
      framed-valid (first ++ others) payload (omega (arith, length-append first others, l1, l3))
        (l5 ∙ v) (omega (arith, lo, v)) (omega (arith, hi, v)) in
    let whole =
      join first others payload request (stream c0.incoming) (stream c1.incoming)
        (stream c2.incoming) (stream c3.incoming) (stream d.incoming) s1 (ap stream (sym s2.0)) s3
        (ap (λ (k : Conn). stream k.incoming) (sym same)
          ∙ s5
          ∙ ap (λ (k : Conn). payload ++ stream k.incoming) (sym dd))
        r in
    (
      ap validate_request r ∙ valid,
      ap stream (sym s0.0) ∙ whole,
      ap (λ (k : Conn). k.sent) (dd ∙ t5)
          ∙ ap (λ (k : Conn). k.sent) (same ∙ t3)
          ∙ s2.1
          ∙ ap (λ (k : Conn). k.sent) t1
          ∙ s0.1,
    )

-- A step that sends nothing.
Keeps : {E A : Type 0} → Io E A → Type 0
Keeps m = (c : Conn) → (m c).1.sent ≡ c.sent

continue-sent :
    {E A B : Type 0} (f : A → Io E B) (r : Result E A × Conn)
    → ((a : A) → Keeps (f a))
    → (continue f r).1.sent ≡ r.1.sent
unfolding Keeps
continue-sent f (ok a, c) h = h a c
continue-sent f (err e, c) h = refl

>>=-Keeps :
    {E A B : Type 0} (m : Io E A) (f : A → Io E B)
    → Keeps m
    → ((a : A) → Keeps (f a))
    → Keeps (m >>= f)
unfolding Keeps
>>=-Keeps m f h k c = continue-sent f (m c) k ∙ h c

read_full-Keeps : (n : ℕ) → Keeps (with_error read_failed (read_full n))
unfolding Keeps read_full
read_full-Keeps n c = refl

set_read_deadline-Keeps : (t : Option ℕ) → Keeps (with_error read_failed (set_read_deadline t))
unfolding Keeps set_read_deadline
set_read_deadline-Keeps t c = refl

request_length-Keeps : (prefix : Bytes) → Keeps (request_length prefix)
unfolding Keeps request_length
request_length-Keeps prefix c = ground arith

pure-Keeps : (request : Bytes) → Keeps (pure {E = Stop} request)
unfolding Keeps
pure-Keeps request c = refl

read_request-Keeps : Keeps read_request
unfolding read_request
read_request-Keeps =
    let timed : Option ℕ → Io Stop (Unit {0}) = λ t. with_error read_failed (set_read_deadline t) in
    let part : ℕ → Io Stop Bytes = λ n. with_error read_failed (read_full n) in
    >>=-Keeps (timed none) _ (set_read_deadline-Keeps none) λ u0.
      >>=-Keeps (part 1) _ (read_full-Keeps 1) λ first.
        >>=-Keeps (timed (some client_timeout)) _ (set_read_deadline-Keeps (some client_timeout))
          λ u1. >>=-Keeps (part 3) _ (read_full-Keeps 3) λ others.
            >>=-Keeps (request_length (first ++ others)) _ (request_length-Keeps (first ++ others))
              λ n.
                >>=-Keeps (part n) _ (read_full-Keeps n)
                  λ payload. pure-Keeps ((first ++ others) ++ payload)

-- Reading sends nothing, also when it fails.
pub read_request-sent : (c : Conn) → (read_request c).1.sent ≡ c.sent
unfolding Keeps
read_request-sent = read_request-Keeps
