-- ===== src/Desktop/Buffer.antt =====
-- `copyUIText` of pageant/desktop_windows.go, which fills a UTF-16 buffer of a window structure.
use winssh_pageant.Common.{
  ℕ, zero, suc, ◌+◌, ◌-◌, ◌/◌, ◌%◌, ◌≤◌, ◌≡◌, refl, ap, Bool, ◌&&◌, ◌||◌, List, [], ◌∷◌, ◌++◌, ltb,
  leb, if◌then◌else◌, arith, Bytes, length, take, get_or, length-append, length-take_le,
}
use winssh_pageant.Library.{Library}
use winssh_pageant.Text.{clean_ui_text}
use winssh_pageant.Text.Utf8.{decode_runes}

-- `utf16.Encode` on one rune: a surrogate code point or one out of range becomes U+FFFD.
unfoldable pub utf16_rune : ℕ → List ℕ
utf16_rune r =
    if ltb r 0xd800 || (leb 0xe000 r && ltb r 0x10000)
    then r ∷ []
    else if leb 0x10000 r && leb r 0x10ffff
    then (0xd800 + (r - 0x10000) / 0x400 % 0x400) ∷ (0xdc00 + (r - 0x10000) % 0x400) ∷ []
    else 0xfffd ∷ []

unfoldable pub utf16_encode : List ℕ → List ℕ
utf16_encode [] = []
utf16_encode (r ∷ rs) = utf16_rune r ++ utf16_encode rs

abbrev pub is_high : ℕ → Bool
is_high u = leb 0xd800 u && leb u 0xdbff

-- The units that fit, without a high surrogate that lost its other half.
unfoldable pub cut_units : ℕ → List ℕ → List ℕ
cut_units limit encoded =
    if ltb limit (length encoded)
    then (if ltb 0 limit && is_high (get_or encoded (limit - 1) 0)
        then take (limit - 1) encoded
        else take limit encoded)
    else encoded

-- `clear`
unfoldable pub zeros : ℕ → List ℕ
zeros zero = []
zeros (suc n) = 0 ∷ zeros n

-- The buffer afterwards, from its length.
unfoldable pub copy_ui_text : Library → ℕ → Bytes → List ℕ
copy_ui_text lib zero value = []
copy_ui_text lib (suc limit) value =
    let units = cut_units limit (utf16_encode (decode_runes (clean_ui_text lib value))) in
    units ++ zeros (suc limit - length units)

pub length-zeros : (n : ℕ) → length (zeros n) ≡ n
unfolding zeros
length-zeros zero = refl
length-zeros (suc n) = ap suc (length-zeros n)

length-cut_units : (limit : ℕ) (encoded : List ℕ) → length (cut_units limit encoded) ≤ limit
unfolding cut_units
length-cut_units limit encoded =
    ground (arith, length-take_le (limit - 1) encoded, length-take_le limit encoded)

-- The buffer keeps its length, and always ends with a terminating zero.
pub copy_ui_text_fits :
    (lib : Library) (limit : ℕ) (value : Bytes)
    → (units : List ℕ) × (copy_ui_text lib (suc limit) value
        ≡ units ++ zeros (suc limit - length units))
      × (length units ≤ limit)
      × (length (copy_ui_text lib (suc limit) value) ≡ suc limit)
unfolding copy_ui_text
copy_ui_text_fits lib limit value =
    let units = cut_units limit (utf16_encode (decode_runes (clean_ui_text lib value))) in
    let short = length-cut_units limit (utf16_encode (decode_runes (clean_ui_text lib value))) in
    (
      units,
      refl,
      short,
      omega (
        arith,
        short,
        length-append units (zeros (suc limit - length units)),
        length-zeros (suc limit - length units),
      ),
    )
