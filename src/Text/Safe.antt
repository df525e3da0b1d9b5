-- ===== src/Text/Safe.antt =====
-- What reaches a native control or a notification.
use winssh_pageant.Common.{
  ℕ, zero, suc, ◌+◌, ◌≤◌, ◌≡◌, refl, ◌∙◌, false, ◌||◌, List, [], ◌∷◌, map, arith, Bytes, All,
  length, take,
}
use winssh_pageant.Library.{Library, IsLibrary}
use winssh_pageant.Text.{
  is_control, is_unsafe, display_runes, display_text, clean_rune, clean_ui_text,
}
use winssh_pageant.Text.Utf8.{
  decode_runes, IsScalar, decode_runes-IsScalar, decode_runes-encode_runes,
}

abbrev pub IsSafe : Library → ℕ → Type 0
IsSafe lib r = is_unsafe lib r ≡ false

module _ (lib : Library) where
  display_runes-IsScalar :
      (limit : ℕ) (rs : List ℕ) → All IsScalar rs → All IsScalar (display_runes lib limit rs)
  unfolding display_runes
  display_runes-IsScalar limit [] h = tt
  display_runes-IsScalar zero (r ∷ rs) h = omega arith
  display_runes-IsScalar (suc n) (r ∷ rs) (hr, hrs) =
      (ground arith, display_runes-IsScalar n rs hrs)

  display_runes-IsSafe :
      (limit : ℕ) (rs : List ℕ) → IsLibrary lib → All (IsSafe lib) (display_runes lib limit rs)
  unfolding display_runes
  display_runes-IsSafe limit [] h = tt
  display_runes-IsSafe zero (r ∷ rs) h = ground (arith, h.ellipsis_plain)
  display_runes-IsSafe (suc n) (r ∷ rs) h =
      (ground (arith, h.space_plain), display_runes-IsSafe n rs h)

  length-display_runes : (limit : ℕ) (rs : List ℕ) → length (display_runes lib limit rs) ≤ limit + 1
  unfolding display_runes
  length-display_runes limit [] = omega arith
  length-display_runes zero (r ∷ rs) = omega arith
  length-display_runes (suc n) (r ∷ rs) = omega (arith, length-display_runes n rs)

  display_runes_id :
      (limit : ℕ) (rs : List ℕ)
      → length rs ≤ limit
      → All (IsSafe lib) rs
      → display_runes lib limit rs ≡ rs
  unfolding display_runes
  display_runes_id limit [] h s = refl
  display_runes_id zero (r ∷ rs) h s = absurd (omega arith)
  display_runes_id (suc n) (r ∷ rs) h (hr, hrs) =
      ground (arith, display_runes_id n rs (omega arith) hrs)

  -- The text read back rune by rune is what the loop wrote.
  pub decode_runes-display_text :
      (value : Bytes) (limit : ℕ)
      → decode_runes (display_text lib value limit) ≡ display_runes lib limit (decode_runes value)
  unfolding display_text
  decode_runes-display_text value limit =
      decode_runes-encode_runes _
        (display_runes-IsScalar limit (decode_runes value) (decode_runes-IsScalar value))

  -- Whatever bytes a peer sends, the text shown for them has no control, format or separator
  -- character in it, and at most `limit` characters and an ellipsis.
  pub display_text-IsSafe :
      (value : Bytes) (limit : ℕ)
      → IsLibrary lib
      → All (IsSafe lib) (decode_runes (display_text lib value limit))
        × (length (decode_runes (display_text lib value limit)) ≤ limit + 1)
  display_text-IsSafe value limit h =
      rw (decode_runes-display_text value limit)
        (display_runes-IsSafe limit _ h, length-display_runes limit _)

  -- Text that is short and harmless is shown as it is.
  pub display_text_id :
      (value : Bytes) (limit : ℕ)
      → length (decode_runes value) ≤ limit
      → All (IsSafe lib) (decode_runes value)
      → decode_runes (display_text lib value limit) ≡ decode_runes value
  display_text_id value limit h s =
      decode_runes-display_text value limit ∙ display_runes_id limit _ h s

  abbrev pub IsClean : ℕ → Type 0
  IsClean r = (is_control r || lib.is_format r) ≡ false

  IsClean-All :
      (n : ℕ) (rs : List ℕ)
      → IsLibrary lib
      → All IsScalar rs
      → All IsClean (map (clean_rune lib) (take n rs))
        × All IsScalar (map (clean_rune lib) (take n rs))
        × (length (map (clean_rune lib) (take n rs)) ≤ n)
  IsClean-All zero rs h s = (tt, tt, omega arith)
  IsClean-All (suc n) [] h s = (tt, tt, omega arith)
  IsClean-All (suc n) (r ∷ rs) h (hr, hrs) =
      let (c, s, l) = IsClean-All n rs h hrs in
      ((ground (arith, h.space_plain), c), (ground arith, s), omega arith)

  -- A text that `cleanUIText` has cleaned has no control or format character, NUL included, and at
  -- most 2048 characters.
  pub clean_ui_text-IsClean :
      (value : Bytes)
      → IsLibrary lib
      → All IsClean (decode_runes (clean_ui_text lib value))
        × (length (decode_runes (clean_ui_text lib value)) ≤ 2048)
  unfolding clean_ui_text
  clean_ui_text-IsClean value h =
      let (c, s, l) = IsClean-All 2048 (decode_runes value) h (decode_runes-IsScalar value) in
      rw (decode_runes-encode_runes _ s) (c, l)
