-- ===== src/Text/Base64.antt =====
-- `base64.RawStdEncoding`, in which a fingerprint shows a digest: the standard alphabet and no
-- padding.
use winssh_pageant.Common.{
  ℕ, ◌+◌, ◌-◌, ◌*◌, ◌/◌, ◌%◌, ◌<◌, ◌≡◌, refl, [], ◌∷◌, ltb, ◌==◌, if◌then◌else◌, Bytes, IsByte, All,
  arith, length,
}

symbol : ℕ → ℕ
symbol i =
    if ltb i 26
    then b'A' + i
    else if ltb i 52
    then b'a' + (i - 26)
    else if ltb i 62
    then b'0' + (i - 52)
    else if i == 62
    then b'+'
    else b'/'

unfoldable pub encode_base64 : Bytes → Bytes
unfolding symbol
encode_base64 [] = []
encode_base64 (a ∷ []) = symbol (a / 4) ∷ symbol (a % 4 * 16) ∷ []
encode_base64 (a ∷ b ∷ []) =
    symbol (a / 4) ∷ symbol (a % 4 * 16 + b / 16) ∷ symbol (b % 16 * 4) ∷ []
encode_base64 (a ∷ b ∷ c ∷ rest) =
    symbol (a / 4)
    ∷ symbol (a % 4 * 16 + b / 16)
    ∷ symbol (b % 16 * 4 + c / 64)
    ∷ symbol (c % 64)
    ∷ encode_base64 rest

symbol_inj : (i j : ℕ) → i < 64 → j < 64 → symbol i ≡ symbol j → i ≡ j
unfolding symbol
symbol_inj i j hi hj e = ground arith

-- A last group of one byte, one of two, and a group of three.
one_byte :
    (a b : ℕ)
    → IsByte a
    → IsByte b
    → symbol (a / 4) ≡ symbol (b / 4)
    → symbol (a % 4 * 16) ≡ symbol (b % 4 * 16)
    → a ≡ b
one_byte a b ha hb e f = omega (
  arith,
  symbol_inj _ _ (omega arith) (omega arith) e,
  symbol_inj _ _ (omega arith) (omega arith) f,
)

three_bytes :
    (a b c x y z : ℕ)
    → All IsByte (a ∷ b ∷ c ∷ [])
    → All IsByte (x ∷ y ∷ z ∷ [])
    → symbol (a / 4) ≡ symbol (x / 4)
    → symbol (a % 4 * 16 + b / 16) ≡ symbol (x % 4 * 16 + y / 16)
    → symbol (b % 16 * 4 + c / 64) ≡ symbol (y % 16 * 4 + z / 64)
    → symbol (c % 64) ≡ symbol (z % 64)
    → (a ≡ x) × (b ≡ y) × (c ≡ z)
three_bytes a b c x y z h k e f g i = omega (
  arith,
  symbol_inj _ _ (omega arith) (omega arith) e,
  symbol_inj _ _ (omega arith) (omega arith) f,
  symbol_inj _ _ (omega arith) (omega arith) g,
  symbol_inj _ _ (omega arith) (omega arith) i,
)

two_bytes :
    (a b x y : ℕ)
    → All IsByte (a ∷ b ∷ [])
    → All IsByte (x ∷ y ∷ [])
    → symbol (a / 4) ≡ symbol (x / 4)
    → symbol (a % 4 * 16 + b / 16) ≡ symbol (x % 4 * 16 + y / 16)
    → symbol (b % 16 * 4) ≡ symbol (y % 16 * 4)
    → (a ≡ x) × (b ≡ y)
two_bytes a b x y h k e f g = omega (
  arith,
  symbol_inj _ _ (omega arith) (omega arith) e,
  symbol_inj _ _ (omega arith) (omega arith) f,
  symbol_inj _ _ (omega arith) (omega arith) g,
)

-- Byte strings of one length with one text are the same.
pub encode_base64_inj :
    (xs ys : Bytes)
    → All IsByte xs
    → All IsByte ys
    → length xs ≡ length ys
    → encode_base64 xs ≡ encode_base64 ys
    → xs ≡ ys
unfolding encode_base64
encode_base64_inj [] [] hx hy l e = refl
encode_base64_inj [] (y ∷ ys) hx hy l e = absurd (omega arith)
encode_base64_inj (x ∷ xs) [] hx hy l e = absurd (omega arith)
encode_base64_inj (a ∷ []) (x ∷ []) hx hy l e = ground (arith, one_byte a x)
encode_base64_inj (a ∷ []) (x ∷ y ∷ ys) hx hy l e = absurd (omega arith)
encode_base64_inj (a ∷ b ∷ xs) (x ∷ []) hx hy l e = absurd (omega arith)
encode_base64_inj (a ∷ b ∷ []) (x ∷ y ∷ []) hx hy l e = ground (arith, two_bytes a b x y)
encode_base64_inj (a ∷ b ∷ []) (x ∷ y ∷ z ∷ ys) hx hy l e = absurd (omega arith)
encode_base64_inj (a ∷ b ∷ c ∷ xs) (x ∷ y ∷ []) hx hy l e = absurd (omega arith)
encode_base64_inj (a ∷ b ∷ c ∷ xs) (x ∷ y ∷ z ∷ ys) hx hy l e =
    ground (arith, three_bytes a b c x y z, encode_base64_inj xs ys hx.1.1.1 hy.1.1.1)
