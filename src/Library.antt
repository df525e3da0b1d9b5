-- ===== src/Library.antt =====
-- What the program takes from the standard library and this development does not define: a table
-- of package unicode, the lower case of the characters outside ASCII, and SHA-256.
use winssh_pageant.Common.{ℕ, ◌≡◌, Bool, false, Bytes, IsByte, All, length}

pub record Library : Type 0 where
  -- the category Cf
  pub is_format : ℕ → Bool
  -- `unicode.ToLower`, which is asked outside ASCII only
  pub lower_rune : ℕ → ℕ
  -- `sha256.Sum256`
  pub sha256 : Bytes → Bytes

-- Documented facts: neither the space nor the ellipsis is a format character, and a digest has 32
-- bytes.
pub record IsLibrary (lib : Library) : Type 0 where
  pub space_plain : lib.is_format b' ' ≡ false
  pub ellipsis_plain : lib.is_format 0x2026 ≡ false
  pub digest_bytes : (s : Bytes) → All IsByte (lib.sha256 s)
  pub digest_length : (s : Bytes) → length (lib.sha256 s) ≡ 32
