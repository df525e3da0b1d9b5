-- ===== src/Wire/Strings.antt =====
-- `take_string` reads exactly the strings of RFC 4251: four bytes of length, then the bytes.
use winssh_pageant.Common.{
  ℕ, ◌+◌, ◌^◌, ◌≤◌, ◌<◌, ◌≡◌, refl, sym, ap, ◌∙◌, some, [], ◌∷◌, ◌++◌, arith, Bytes, IsByte, All,
  be_u32, put_u32, be_u32-put_u32, length, take, drop, take-append-drop, take-append, drop-append,
  length-append, length-drop, length-take_le, All-take, All-drop,
}
use winssh_pageant.Wire.{take_string}

-- The encoder that the agent and its clients use; the bridge itself only reads strings.
unfoldable pub put_string : Bytes → Bytes
put_string s = put_u32 (length s) ++ s

pub put_u32-be_u32 :
    (a b c d : ℕ) (rest : Bytes)
    → All IsByte (a ∷ b ∷ c ∷ d ∷ [])
    → put_u32 (be_u32 (a ∷ b ∷ c ∷ d ∷ rest)) ≡ a ∷ b ∷ c ∷ d ∷ []
put_u32-be_u32 a b c d rest (ha, (hb, (hc, (hd, _)))) = ground arith

pub put_u32-take :
    (xs : Bytes) → All IsByte xs → 4 ≤ length xs → put_u32 (be_u32 (take 4 xs)) ++ drop 4 xs ≡ xs
put_u32-take [] h l = absurd (omega arith)
put_u32-take (a ∷ []) h l = absurd (omega arith)
put_u32-take (a ∷ b ∷ []) h l = absurd (omega arith)
put_u32-take (a ∷ b ∷ c ∷ []) h l = absurd (omega arith)
put_u32-take (a ∷ b ∷ c ∷ d ∷ rest) (ha, (hb, (hc, (hd, hr)))) l =
    ap (λ (p : Bytes). p ++ rest) (put_u32-be_u32 a b c d [] (ha, (hb, (hc, (hd, tt)))))

-- A result splits the data behind the length, and the length is that of the string.
pub take_string_parts :
    (d : Bytes) {v rest : Bytes}
    → take_string d ≡ some (v, rest)
    → (4 ≤ length d) × (length v ≡ be_u32 (take 4 d)) × (drop 4 d ≡ v ++ rest)
unfolding take_string
take_string_parts d {v} {rest} e = ground (
  arith,
  take-append-drop (be_u32 (take 4 d)) (drop 4 d),
  length-take_le (be_u32 (take 4 d)) (drop 4 d),
  length-drop 4 d,
)

-- What `take_string` consumes and what it leaves add up to the data.
pub length-take_string :
    (d : Bytes) {v rest : Bytes}
    → take_string d ≡ some (v, rest)
    → length d ≡ 4 + length v + length rest
length-take_string d {v} {rest} e =
    let (l, _, split) = take_string_parts d e in
    omega (arith, ap length split, length-append v rest, length-drop 4 d)

-- On bytes, a result is the data's only reading: the data is its encoding and the rest.
pub take_string_sound :
    (d : Bytes) {v rest : Bytes}
    → All IsByte d
    → take_string d ≡ some (v, rest)
    → d ≡ put_string v ++ rest
unfolding put_string
take_string_sound d {v} {rest} h e =
    let (l, n, split) = take_string_parts d e in sym (put_u32-take d h l) ∙ rw (← n, split)

-- A string that was put in front of other bytes is taken off again, if its length fits in 32 bits.
pub take_string-put_string :
    (v rest : Bytes) → length v < 2 ^ 32 → take_string (put_string v ++ rest) ≡ some (v, rest)
unfolding take_string put_string
take_string-put_string v rest h = ground (
  arith,
  be_u32-put_u32 (length v) [] h,
  length-append v rest,
  take-append (length v) v rest refl,
  drop-append (length v) v rest refl,
)

-- Bytes stay bytes.
pub take_string-All :
    (d : Bytes) {v rest : Bytes}
    → All IsByte d
    → take_string d ≡ some (v, rest)
    → All IsByte v × All IsByte rest
unfolding take_string
take_string-All d h e = ground (
  arith,
  All-take IsByte (be_u32 (take 4 d)) (drop 4 d) (All-drop IsByte 4 d h),
  All-drop IsByte (be_u32 (take 4 d)) (drop 4 d) (All-drop IsByte 4 d h),
)

pub length-put_string :
    (v rest : Bytes) → length (put_string v ++ rest) ≡ 4 + length v + length rest
unfolding put_string
length-put_string v rest = omega (arith, length-append v rest)
