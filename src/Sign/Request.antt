-- ===== src/Sign/Request.antt =====
-- `ParseSignRequest` reads complete sign requests, and nothing else.
use winssh_pageant.Common.{
  ℕ, ◌^◌, ◌-◌, ◌≤◌, ◌<◌, ◌≡◌, refl, sym, ap, ◌∙◌, ◌↔◌, none, some, ◌∷◌, ◌++◌, ◌==◌, arith, Bytes,
  IsByte, All, length, drop,
}
use winssh_pageant.Common.Options.{>>=-eq-some, some_inj}
use winssh_pageant.Library.{Library}
use winssh_pageant.Keys.{public_key_type, fingerprint, sign_request}
use winssh_pageant.Wire.{validate_request, max_message_length, message_type}
use winssh_pageant.Wire.Frames.{validate_frame_iff, validate_request_payload}
use winssh_pageant.Wire.Strings.{put_string, take_string-put_string, length-put_string}
use winssh_pageant.Sign.{SignRequest, request_body, parse_sign_request, userauth_username}
use winssh_pageant.Sign.Steps.{string_step, guard_step}

-- The parts of a request: the key, the data to be signed and the flags.
pub record Parts : Type 0 where
  pub blob : Bytes
  pub signed : Bytes
  pub flags : Bytes

unfoldable pub put_body : Parts → Bytes
put_body p = put_string p.blob ++ (put_string p.signed ++ p.flags)

unfoldable pub put_request : Parts → Bytes
put_request p = put_string (sign_request ∷ put_body p)

-- What is reported of a request whose key has the given type.
abbrev pub report : Library → Parts → Bytes → SignRequest
report lib p key_type = record {
  key_type = key_type;
  fingerprint = fingerprint lib p.blob;
  username = userauth_username lib p.signed p.blob;
}

-- Four bytes of flags, and a key that names its type.
abbrev pub Reads : Library → Parts → SignRequest → Type 0
Reads lib p r =
    (length p.flags ≡ 4)
    × (key_type : Bytes) × (public_key_type p.blob ≡ some key_type)
    × (r ≡ report lib p key_type)

module _ (lib : Library) where
  request_body-Reads :
      (body : Bytes) {r : SignRequest}
      → All IsByte body
      → request_body lib body ≡ some r
      → (p : Parts) × (body ≡ put_body p) × Reads lib p r
  unfolding request_body put_body
  request_body-Reads body {r} h e =
      let (blob, r1, s1, _, h1, e1) = string_step body _ h e in
      let (signed, flags, s2, _, h2, e2) = string_step r1 _ h1 e1 in
      let (four, e3) = guard_step (length flags == 4) _ e2 in
      let (key_type, e4, e5) = >>=-eq-some (public_key_type blob) _ e3 in
      let p : Parts = record { blob = blob; signed = signed; flags = flags } in
      (
        p,
        s1 ∙ ap (λ (t : Bytes). put_string blob ++ t) s2,
        (ground arith, key_type, e4, sym (some_inj _ r e5)),
      )

  Reads-request_body :
      (p : Parts) {r : SignRequest}
      → length (put_body p) < 2 ^ 32
      → Reads lib p r
      → request_body lib (put_body p) ≡ some r
  unfolding request_body put_body
  Reads-request_body p {r} h (four, key_type, k, e) =
      let l1 = length-put_string p.blob (put_string p.signed ++ p.flags) in
      let l2 = length-put_string p.signed p.flags in
      rw (
        take_string-put_string p.blob (put_string p.signed ++ p.flags) (omega (arith, l1)),
        take_string-put_string p.signed p.flags (omega (arith, l1, l2)),
        four,
        k,
        e,
      )

  -- The reports of complete sign requests.
  abbrev pub Requests : Bytes → SignRequest → Type 0
  Requests frame r =
      (p : Parts) × (frame ≡ put_request p)
      × (length (sign_request ∷ put_body p) ≤ max_message_length - 4)
      × Reads lib p r

  parse_sign_request_checks :
      (frame : Bytes) {r : SignRequest}
      → parse_sign_request lib frame ≡ some r
      → (validate_request frame ≡ none)
        × (message_type frame ≡ sign_request)
        × (request_body lib (drop 5 frame) ≡ some r)
  unfolding parse_sign_request
  parse_sign_request_checks frame e = ground arith

  typed_request-Requests :
      (t : ℕ) (body : Bytes) {r : SignRequest}
      → All IsByte (put_string (t ∷ body))
      → length (t ∷ body) ≤ max_message_length - 4
      → message_type (put_string (t ∷ body)) ≡ sign_request
      → request_body lib (drop 5 (put_string (t ∷ body))) ≡ some r
      → Requests (put_string (t ∷ body)) r
  unfolding put_string put_request
  typed_request-Requests t body {r} h small m run =
      let (p, split, reads) = request_body-Reads body {r = r} h.1.1.1.1.1 run in
      (p, rw (m, split), omega (arith, ap length split), reads)

  parse_sign_request-Requests :
      (frame : Bytes) {r : SignRequest}
      → All IsByte frame
      → parse_sign_request lib frame ≡ some r
      → Requests frame r
  parse_sign_request-Requests frame {r} h e =
      let (v, m, run) = parse_sign_request_checks frame {r = r} e in
      let (t, body, split, small) = validate_request_payload frame h v in
      rw split (
        typed_request-Requests t body {r = r} (rw split at h) small (rw split at m)
          (rw split at run))

  put_request-checks :
      (p : Parts)
      → All IsByte (put_request p)
      → length (sign_request ∷ put_body p) ≤ max_message_length - 4
      → (validate_request (put_request p) ≡ none)
        × (message_type (put_request p) ≡ sign_request)
        × (drop 5 (put_request p) ≡ put_body p)
  unfolding validate_request put_request put_string
  put_request-checks p h fits = (
    (validate_frame_iff (put_request p) (max_message_length - 4) h (omega arith)).1
        (sign_request ∷ put_body p, (refl, omega arith, fits)),
    refl,
    refl,
  )

  Requests-parse_sign_request :
      (frame : Bytes) {r : SignRequest}
      → All IsByte frame
      → Requests frame r
      → parse_sign_request lib frame ≡ some r
  unfolding parse_sign_request
  Requests-parse_sign_request frame {r} h (p, e, fits, reads) =
      let (v, m, d) = put_request-checks p (rw e at h) fits in
      let small : length (put_body p) < 2 ^ 32 = omega arith in
      rw e (ground (arith, v, m, d, Reads-request_body p {r = r} small reads))

  -- On bytes, `ParseSignRequest` accepts exactly the complete sign requests within the limit of a
  -- request: a typed key, any data, four bytes of flags and nothing behind them. Its report is the
  -- key's type and fingerprint and the user name in the data.
  pub parse_sign_request_iff :
      (frame : Bytes) (r : SignRequest)
      → All IsByte frame
      → (parse_sign_request lib frame ≡ some r) ↔ Requests frame r
  parse_sign_request_iff frame r h =
      (parse_sign_request-Requests frame {r = r} h, Requests-parse_sign_request frame {r = r} h)
