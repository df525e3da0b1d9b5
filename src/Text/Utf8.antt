-- ===== src/Text/Utf8.antt =====
-- UTF-8 as Go's `range` over a string and `strings.Builder.WriteRune` read and write it: an
-- invalid byte is decoded as U+FFFD, one byte wide. The standard library's bit masks are
-- subtractions here, which the tests on the bytes keep exact.
use winssh_pageant.Common.{
  ℕ, zero, suc, ◌+◌, ◌-◌, ◌*◌, ◌/◌, ◌%◌, ◌≤◌, ◌<◌, ◌≡◌, refl, ap, ◌∙◌, ◌⊎◌, inl, inr, Bool, ◌&&◌,
  ◌||◌, List, [], ◌∷◌, ◌++◌, ltb, leb, ◌==◌, if◌then◌else◌, Bytes, All, arith,
}

abbrev rune_error : ℕ
rune_error = 0xfffd

abbrev between : ℕ → ℕ → ℕ → Bool
between lo hi b = leb lo b && leb b hi

two : ℕ → Bytes → ℕ × ℕ
two a [] = (rune_error, 1)
two a (b ∷ rest) =
    if between 0x80 0xbf b then ((a - 0xc0) * 64 + (b - 0x80), 2) else (rune_error, 1)

-- No overlong forms and no surrogates.
three : ℕ → Bytes → ℕ × ℕ
three a [] = (rune_error, 1)
three a (b ∷ []) = (rune_error, 1)
three a (b ∷ c ∷ rest) =
    if between (if a == 0xe0 then 0xa0 else 0x80) (if a == 0xed then 0x9f else 0xbf) b
      && between 0x80 0xbf c
    then ((a - 0xe0) * 4096 + (b - 0x80) * 64 + (c - 0x80), 3)
    else (rune_error, 1)

four : ℕ → Bytes → ℕ × ℕ
four a [] = (rune_error, 1)
four a (b ∷ []) = (rune_error, 1)
four a (b ∷ c ∷ []) = (rune_error, 1)
four a (b ∷ c ∷ d ∷ rest) =
    if between (if a == 0xf0 then 0x90 else 0x80) (if a == 0xf4 then 0x8f else 0xbf) b
      && (between 0x80 0xbf c && between 0x80 0xbf d)
    then ((a - 0xf0) * 262144 + (b - 0x80) * 4096 + (c - 0x80) * 64 + (d - 0x80), 4)
    else (rune_error, 1)

-- `utf8.DecodeRune`: the rune and its width, from the first byte and what follows it.
unfoldable pub decode_rune : ℕ → Bytes → ℕ × ℕ
unfolding two three four
decode_rune a rest =
    if ltb a 0x80
    then (a, 1)
    else if ltb a 0xc2 || ltb 0xf4 a
    then (rune_error, 1)
    else if ltb a 0xe0
    then two a rest
    else if ltb a 0xf0
    then three a rest
    else four a rest

-- The bytes of a rune behind its first are skipped by the counter.
decode_from : ℕ → Bytes → List ℕ
decode_from skip [] = []
decode_from (suc skip) (a ∷ rest) = decode_from skip rest
decode_from zero (a ∷ rest) =
    let (r, width) = decode_rune a rest in r ∷ decode_from (width - 1) rest

unfoldable pub decode_runes : Bytes → List ℕ
unfolding decode_from decode_rune
decode_runes = decode_from 0

-- `utf8.AppendRune`
unfoldable pub encode_rune : ℕ → Bytes
encode_rune r =
    if ltb r 0x80
    then r ∷ []
    else if ltb r 0x800
    then (0xc0 + r / 64) ∷ (0x80 + r % 64) ∷ []
    else if between 0xd800 0xdfff r || ltb 0x10ffff r
    then 0xef ∷ 0xbf ∷ 0xbd ∷ []
    else if ltb r 0x10000
    then (0xe0 + r / 4096) ∷ (0x80 + r / 64 % 64) ∷ (0x80 + r % 64) ∷ []
    else (0xf0 + r / 262144) ∷ (0x80 + r / 4096 % 64) ∷ (0x80 + r / 64 % 64) ∷ (0x80 + r % 64) ∷ []

unfoldable pub encode_runes : List ℕ → Bytes
unfolding encode_rune
encode_runes [] = []
encode_runes (r ∷ rs) = encode_rune r ++ encode_runes rs

-- A Unicode scalar value: what UTF-8 can carry.
abbrev pub IsScalar : ℕ → Type 0
IsScalar r = (r < 0xd800) ⊎ ((0xe000 ≤ r) × (r < 0x110000))

decode_rune-IsScalar : (a : ℕ) (rest : Bytes) → IsScalar (decode_rune a rest).0
unfolding decode_rune
decode_rune-IsScalar a [] = ground arith
decode_rune-IsScalar a (b ∷ []) = ground arith
decode_rune-IsScalar a (b ∷ c ∷ []) = ground arith
decode_rune-IsScalar a (b ∷ c ∷ d ∷ rest) = ground arith

decode_from-IsScalar : (skip : ℕ) (s : Bytes) → All IsScalar (decode_from skip s)
unfolding decode_from
decode_from-IsScalar skip [] = tt
decode_from-IsScalar (suc skip) (a ∷ rest) = decode_from-IsScalar skip rest
decode_from-IsScalar zero (a ∷ rest) =
    (decode_rune-IsScalar a rest, decode_from-IsScalar ((decode_rune a rest).1 - 1) rest)

-- Decoding any bytes gives scalar values only.
pub decode_runes-IsScalar : (s : Bytes) → All IsScalar (decode_runes s)
unfolding decode_runes
decode_runes-IsScalar s = decode_from-IsScalar 0 s

module _ (r : ℕ) (rest : Bytes) where
  decode_rune-two :
      0x80 ≤ r → r < 0x800 → decode_rune (0xc0 + r / 64) ((0x80 + r % 64) ∷ rest) ≡ (r, 2)
  unfolding decode_rune
  decode_rune-two lo hi = ground arith

  decode_rune-three :
      0x800 ≤ r
      → r < 0x10000
      → IsScalar r
      → decode_rune (0xe0 + r / 4096) ((0x80 + r / 64 % 64) ∷ (0x80 + r % 64) ∷ rest) ≡ (r, 3)
  unfolding decode_rune
  decode_rune-three lo hi s = ground arith

  decode_rune-four :
      0x10000 ≤ r
      → r < 0x110000
      → decode_rune
          (0xf0 + r / 262144)
          ((0x80 + r / 4096 % 64) ∷ (0x80 + r / 64 % 64) ∷ (0x80 + r % 64) ∷ rest)
        ≡ (r, 4)
  unfolding decode_rune
  decode_rune-four lo hi = ground arith

  decode_rune-one : r < 0x80 → decode_rune r rest ≡ (r, 1)
  unfolding decode_rune
  decode_rune-one h = ground arith

-- The encoding of a scalar value by its width.
encode_rune-cases :
    (r : ℕ)
    → IsScalar r
    → ((r < 0x80) × (encode_rune r ≡ r ∷ []))
      ⊎ ((0x80 ≤ r) × (r < 0x800) × (encode_rune r ≡ (0xc0 + r / 64) ∷ (0x80 + r % 64) ∷ []))
      ⊎ ((0x800 ≤ r)
          × (r < 0x10000)
          × (encode_rune r ≡ (0xe0 + r / 4096) ∷ (0x80 + r / 64 % 64) ∷ (0x80 + r % 64) ∷ []))
      ⊎ ((0x10000 ≤ r)
          × (r < 0x110000)
          × (encode_rune r
              ≡ (0xf0 + r / 262144)
                ∷ (0x80 + r / 4096 % 64)
                ∷ (0x80 + r / 64 % 64)
                ∷ (0x80 + r % 64)
                ∷ []))
unfolding encode_rune
encode_rune-cases r h = ground arith

decode_from-encode_rune :
    (r : ℕ) (rest : Bytes)
    → IsScalar r
    → decode_from 0 (encode_rune r ++ rest) ≡ r ∷ decode_from 0 rest
unfolding decode_from
decode_from-encode_rune r rest h = elim (encode_rune-cases r h) [
  | inl (lo, e) ↦ rw (e, decode_rune-one r rest lo)
  | inr (inl (lo, hi, e)) ↦ rw (e, decode_rune-two r rest lo hi)
  | inr (inr (inl (lo, hi, e))) ↦ rw (e, decode_rune-three r rest lo hi h)
  | inr (inr (inr (lo, hi, e))) ↦ rw (e, decode_rune-four r rest lo hi)
]

-- Scalar values survive a round trip.
pub decode_runes-encode_runes :
    (rs : List ℕ) → All IsScalar rs → decode_runes (encode_runes rs) ≡ rs
unfolding decode_runes encode_runes
decode_runes-encode_runes [] h = refl
decode_runes-encode_runes (r ∷ rs) (hr, hrs) =
    decode_from-encode_rune r (encode_runes rs) hr ∙ ap (◌∷◌ r) (decode_runes-encode_runes rs hrs)
