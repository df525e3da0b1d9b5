-- ===== src/Common/Octets.antt =====
-- Byte strings as lists of numbers, the four-byte integers of the wire, and comparison.
use Prim.Native.Nat.{ℕ, ◌+◌, ◌*◌, ◌/◌, ◌%◌, ◌^◌, ◌<◌}
use Prim.Native.Char.{code}
use Prim.Native.String.{String}
use mathlib.Core.Path.{◌≡◌, refl}
use mathlib.Core.Bool.{Bool, true, false, ◌&&◌, ◌||◌}
use mathlib.Core.List.{List, [], ◌∷◌, ◌++◌}
use native.Mathlib.Omega.{arith}
use winssh_pageant.Common.Tests.{◌==◌}
use winssh_pageant.Common.Lists.{All}

abbrev pub Bytes : Type 0
Bytes = List ℕ

abbrev pub IsByte : ℕ → Type 0
IsByte b = b < 256

-- The bytes of an ASCII text.
abbrev pub codes : String → Bytes
codes String.[] = []
codes (String.◌∷◌ c s) = code c ∷ codes s

-- `binary.BigEndian.Uint32`. Every call in the source has checked the length before.
abbrev pub be_u32 : Bytes → ℕ
be_u32 (a ∷ b ∷ c ∷ d ∷ rest) = ((a * 256 + b) * 256 + c) * 256 + d
be_u32 _ = 0

-- `binary.BigEndian.PutUint32`.
abbrev pub put_u32 : ℕ → Bytes
put_u32 n = (n / 2 ^ 24 % 256) ∷ (n / 2 ^ 16 % 256) ∷ (n / 2 ^ 8 % 256) ∷ (n % 256) ∷ []

pub be_u32-put_u32 : (n : ℕ) (rest : Bytes) → n < 2 ^ 32 → be_u32 (put_u32 n ++ rest) ≡ n
be_u32-put_u32 n rest h = omega arith

pub be_u32_lt : (bs : Bytes) → All IsByte bs → be_u32 bs < 2 ^ 32
be_u32_lt [] h = omega arith
be_u32_lt (a ∷ []) h = omega arith
be_u32_lt (a ∷ b ∷ []) h = omega arith
be_u32_lt (a ∷ b ∷ c ∷ []) h = omega arith
be_u32_lt (a ∷ b ∷ c ∷ d ∷ rest) (ha, (hb, (hc, (hd, hr)))) = omega arith

unfoldable pub bytes_eq : Bytes → Bytes → Bool
bytes_eq [] [] = true
bytes_eq (x ∷ xs) (y ∷ ys) = x == y && bytes_eq xs ys
bytes_eq _ _ = false

pub bytes_eq→eq : (xs ys : Bytes) → bytes_eq xs ys ≡ true → xs ≡ ys
unfolding bytes_eq
bytes_eq→eq [] [] h = refl
bytes_eq→eq [] (y ∷ ys) h = ground arith
bytes_eq→eq (x ∷ xs) [] h = ground arith
bytes_eq→eq (x ∷ xs) (y ∷ ys) h = ground (arith, bytes_eq→eq xs ys)

pub bytes_eq_refl : (xs : Bytes) → bytes_eq xs xs ≡ true
unfolding bytes_eq
bytes_eq_refl [] = refl
bytes_eq_refl (x ∷ xs) = ground (arith, bytes_eq_refl xs)

-- `strings.HasPrefix` with the prefix first.
unfoldable pub has_prefix : Bytes → Bytes → Bool
has_prefix [] s = true
has_prefix (p ∷ ps) [] = false
has_prefix (p ∷ ps) (c ∷ cs) = p == c && has_prefix ps cs

-- `bytes.IndexByte(s, b) >= 0` and `strings.ContainsRune` at an ASCII character.
unfoldable pub contains_byte : ℕ → Bytes → Bool
contains_byte b [] = false
contains_byte b (c ∷ cs) = c == b || contains_byte b cs
