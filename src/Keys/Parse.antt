-- ===== src/Keys/Parse.antt =====
-- `parse_keys` reads the replies of `identities_reply`, and nothing else.
use winssh_pageant.Common.{
  ℕ, zero, suc, ◌/◌, ◌^◌, ◌≤◌, ◌<◌, ◌≡◌, refl, sym, ap, ◌∙◌, ◌↔◌, not, Option, none, some, List, [],
  ◌∷◌, ◌++◌, ltb, ◌==◌, arith, Bytes, IsByte, All, put_u32, be_u32, be_u32-put_u32, length,
  length-append, take, drop, All-drop,
}
use mathlib.Core.List.{append_assoc, append-nil}
use winssh_pageant.Common.Options.{>>=-eq-some}
use winssh_pageant.Common.Results.{ok, require, or_err, >>=-eq-ok}
use winssh_pageant.Library.{Library}
use winssh_pageant.Keys.{
  Key, truncated_key, truncated_comment, malformed_type, invalid_count, trailing_data, key_of,
  public_key_type, read_keys, read_answer, parse_keys, identities_answer,
}
use winssh_pageant.Keys.Format.{
  put_keys, identities_reply, answer_payload, keys_of, length-put_keys,
}
use winssh_pageant.Wire.{take_string, validate_response, message_type, max_response_length}
use winssh_pageant.Wire.Frames.{
  validate_frame_iff, validate_response_intro, validate_response_payload,
}
use winssh_pageant.Wire.Strings.{
  put_u32-take, put_string, take_string_sound, take_string-put_string, take_string-All,
}

-- `or_err` succeeds with what it is given.
or_err-eq-ok {ℓ κ} :
    {E : Type ℓ} {A : Type κ} (o : Option A) (e : E) {a : A} → or_err o e ≡ ok a → o ≡ some a
or_err-eq-ok none e h = cc
or_err-eq-ok (some a) e h = cc

-- The strings of an entry fit four bytes of length if the whole does.
parts_fit :
    (blob comment more : Bytes)
    → length (put_string blob ++ (put_string comment ++ more)) < 2 ^ 32
    → (length blob < 2 ^ 32) × (length comment < 2 ^ 32) × (length more < 2 ^ 32)
unfolding put_string
parts_fit blob comment more h =
    omega (arith, length-append blob (put_string comment ++ more), length-append comment more)

nothing_left : (last : Bytes) → require (length last == 0) trailing_data ≡ ok tt → last ≡ []
nothing_left [] e = refl
nothing_left (x ∷ last) e = ground arith

frame_parts :
    (t : ℕ) (body : Bytes)
    → All IsByte (put_string (t ∷ body))
    → 9 ≤ length (put_string (t ∷ body))
    → message_type (put_string (t ∷ body)) ≡ identities_answer
    → All IsByte body × (4 ≤ length body) × (t ≡ identities_answer)
unfolding put_string
frame_parts t body h l m = (h.1.1.1.1.1, omega arith, m)

module _ (lib : Library) where
  -- What a successful round has read.
  abbrev Round : ℕ → Bytes → List Key × Bytes → Type 0
  Round count d r =
      (blob : Bytes) × (comment : Bytes) × (key_type : Bytes) × (rest : Bytes) × (next : Bytes)
      × (keys : List Key) × (take_string d ≡ some (blob, rest))
      × (take_string rest ≡ some (comment, next))
      × (public_key_type blob ≡ some key_type)
      × (read_keys lib count next ≡ ok (keys, r.1))
      × (r.0 ≡ key_of lib key_type blob comment ∷ keys)

  read_keys-Round :
      (count : ℕ) (d : Bytes) {r : List Key × Bytes}
      → read_keys lib (suc count) d ≡ ok r
      → Round count d r
  unfolding read_keys
  read_keys-Round count d {r} e =
      let ((blob, rest), e1, f1) = >>=-eq-ok (or_err (take_string d) truncated_key) _ e in
      let ((comment, next), e2, f2) =
        >>=-eq-ok (or_err (take_string rest) truncated_comment) _ f1 in
      let (key_type, e3, f3) = >>=-eq-ok (or_err (public_key_type blob) malformed_type) _ f2 in
      let ((keys, last), e4, f4) = >>=-eq-ok (read_keys lib count next) _ f3 in
      (
        blob,
        comment,
        key_type,
        rest,
        next,
        keys,
        or_err-eq-ok _ truncated_key e1,
        or_err-eq-ok _ truncated_comment e2,
        or_err-eq-ok _ malformed_type e3,
        ground arith,
        ground arith,
      )

  -- The entries that a successful loop has read.
  abbrev Entries : ℕ → Bytes → List Key × Bytes → Type 0
  Entries count d r =
      (es : List (Bytes × Bytes)) × (length es ≡ count)
      × (d ≡ put_keys es ++ r.1)
      × (keys_of lib es ≡ some r.0)

  read_keys-Entries :
      (count : ℕ) (d : Bytes) {r : List Key × Bytes}
      → All IsByte d
      → read_keys lib count d ≡ ok r
      → Entries count d r
  unfolding put_keys keys_of
  read_keys-Entries zero d h e =
      ([], refl, unfold read_keys in ground arith, unfold read_keys in ground arith)
  read_keys-Entries (suc count) d {r} h e =
      let (blob, comment, key_type, rest, next, keys, e1, e2, e3, e4, e5) =
        read_keys-Round count d e in
      let (hb, hr) = take_string-All d h e1 in
      let (hc, hn) = take_string-All rest hr e2 in
      let (es, n, split, ks) = read_keys-Entries count next {r = (keys, r.1)} hn e4 in
      (
        (blob, comment) ∷ es,
        ap suc n,
        take_string_sound d h e1
            ∙ rw (take_string_sound rest hr e2, split) (rw (append_assoc, append_assoc)),
        rw (e3, ks, e5),
      )

  read_keys-put_keys :
      (es : List (Bytes × Bytes)) (rest : Bytes) {keys : List Key}
      → keys_of lib es ≡ some keys
      → length (put_keys es) < 2 ^ 32
      → read_keys lib (length es) (put_keys es ++ rest) ≡ ok (keys, rest)
  unfolding read_keys put_keys keys_of
  read_keys-put_keys [] rest e h = ground arith
  read_keys-put_keys ((blob, comment) ∷ es) rest {keys} e h =
      let (key_type, e1, f1) = >>=-eq-some (public_key_type blob) _ e in
      let (ks, e2, f2) = >>=-eq-some (keys_of lib es) _ f1 in
      let (b, c, n) = parts_fit blob comment (put_keys es) h in
      rw
        (
          append_assoc (put_string blob) (put_string comment ++ put_keys es) rest,
          append_assoc (put_string comment) (put_keys es) rest,
          take_string-put_string blob (put_string comment ++ (put_keys es ++ rest)) b,
          take_string-put_string comment (put_keys es ++ rest) c,
          e1,
          read_keys-put_keys es rest e2 n,
        )
        (ground arith)

  -- The payload of a reply, as the checks of `parseKeys` see it.
  read_answer-payload :
      (es : List (Bytes × Bytes)) {keys : List Key}
      → keys_of lib es ≡ some keys
      → length (put_keys es) < 2 ^ 32
      → read_answer lib (identities_reply es) ≡ ok keys
  unfolding read_answer identities_reply put_string
  read_answer-payload es e h =
      let run = rw append-nil at (read_keys-put_keys es [] e h) in
      rw (be_u32-put_u32 (length es) [] (omega (arith, length-put_keys es)))
        (ground (arith, run, length-put_keys es))

  -- The reply that lists the entries, within the limit of the frame.
  abbrev pub Lists : Bytes → List Key → Type 0
  Lists reply keys =
      (es : List (Bytes × Bytes)) × (reply ≡ identities_reply es)
      × (length (answer_payload es) ≤ max_response_length)
      × (keys_of lib es ≡ some keys)

  answer_checks :
      (es : List (Bytes × Bytes))
      → All IsByte (identities_reply es)
      → length (answer_payload es) ≤ max_response_length
      → (validate_response (identities_reply es) ≡ none)
        × (message_type (identities_reply es) ≡ identities_answer)
        × (9 ≤ length (identities_reply es))
  unfolding identities_reply put_string
  answer_checks es h fits = (
    validate_response_intro (identities_reply es)
        ((validate_frame_iff (identities_reply es) max_response_length h (omega arith)).1
          (answer_payload es, (refl, omega arith, fits)))
        (omega arith),
    refl,
    omega arith,
  )

  parse_keys-reply :
      (reply : Bytes) {keys : List Key}
      → All IsByte reply
      → Lists reply keys
      → parse_keys lib reply ≡ ok keys
  unfolding parse_keys
  parse_keys-reply reply {keys} h (es, e, fits, ks) =
      let (v, t, l) = answer_checks es (rw e at h) fits in
      let small : length (put_keys es) < 2 ^ 32 = omega arith in
      rw e (ground (arith, v, t, l, read_answer-payload es {keys = keys} ks small))

  read_answer-Entries :
      (t : ℕ) (body : Bytes) {keys : List Key}
      → All IsByte body
      → 4 ≤ length body
      → read_answer lib (put_string (t ∷ body)) ≡ ok keys
      → (es : List (Bytes × Bytes)) × (body ≡ put_u32 (length es) ++ put_keys es)
        × (keys_of lib es ≡ some keys)
  unfolding read_answer put_string
  read_answer-Entries t body {keys} h l e =
      let count : ℕ = be_u32 (take 4 body) in
      let (_, e1, f1) =
        >>=-eq-ok (require (not (ltb (length (drop 4 body) / 8) count)) invalid_count) _ e in
      let ((ks, last), e2, f2) = >>=-eq-ok (read_keys lib count (drop 4 body)) _ f1 in
      let (_, e3, f3) = >>=-eq-ok (require (length last == 0) trailing_data) (λ _. ok ks) f2 in
      let (es, n, split, kk) =
        read_keys-Entries count (drop 4 body) (All-drop IsByte 4 body h) e2 in
      let done : last ≡ [] = nothing_left last e3 in
      (es, sym (put_u32-take body h l) ∙ rw (n, split, done) (rw append-nil), kk ∙ ground arith)

  parse_keys-checks :
      (reply : Bytes) {keys : List Key}
      → parse_keys lib reply ≡ ok keys
      → (validate_response reply ≡ none)
        × (message_type reply ≡ identities_answer)
        × (9 ≤ length reply)
        × (read_answer lib reply ≡ ok keys)
  unfolding parse_keys
  parse_keys-checks reply e = ground arith

  typed_answer-Lists :
      (t : ℕ) (body : Bytes) {keys : List Key}
      → All IsByte body
      → 4 ≤ length body
      → t ≡ identities_answer
      → length (t ∷ body) ≤ max_response_length
      → read_answer lib (put_string (t ∷ body)) ≡ ok keys
      → Lists (put_string (t ∷ body)) keys
  unfolding identities_reply
  typed_answer-Lists t body {keys} h l e small run =
      let (es, split, kk) = read_answer-Entries t body {keys = keys} h l run in
      (es, rw (e, split), omega (arith, ap length split), kk)

  parse_keys-Lists :
      (reply : Bytes) {keys : List Key}
      → All IsByte reply
      → parse_keys lib reply ≡ ok keys
      → Lists reply keys
  parse_keys-Lists reply {keys} h e =
      let (v, m, l, run) = parse_keys-checks reply e in
      let (t, body, frame, small) = validate_response_payload reply h v in
      let (hb, lb, mt) = frame_parts t body (rw frame at h) (rw frame at l) (rw frame at m) in
      rw frame (typed_answer-Lists t body {keys = keys} hb lb mt small (rw frame at run))

  -- On bytes, `parseKeys` accepts exactly the identities answers that fit the limit, count their
  -- entries rightly, end with the last of them and name the type of every blob; and it returns
  -- the metadata of those entries, in their order.
  pub parse_keys_iff :
      (reply : Bytes) (keys : List Key)
      → All IsByte reply
      → (parse_keys lib reply ≡ ok keys) ↔ Lists reply keys
  parse_keys_iff reply keys h =
      (parse_keys-Lists reply {keys = keys} h, parse_keys-reply reply {keys = keys} h)
