-- ===== src/Text.antt =====
-- Text for notifications and windows: `displayText` of openssh/keys.go and `cleanUIText` of
-- pageant/desktop_windows.go. A Go string is its bytes; `range` over a string and `[]rune` decode
-- UTF-8, which `Text.Utf8` models. The category tables of package unicode are a parameter.
pub mod Utf8
pub mod Base64
pub mod Case
pub mod Safe
use winssh_pageant.Common.{
  ℕ, zero, suc, ◌+◌, ◌-◌, ◌≤◌, ◌≡◌, Bool, true, false, ◌&&◌, ◌||◌, List, [], ◌∷◌, map, ltb, leb,
  ◌==◌, if◌then◌else◌, Bytes, All, take,
}
use winssh_pageant.Library.{Library}
use Utf8.{decode_runes, encode_runes}

-- `unicode.IsControl`: the category Cc.
abbrev pub is_control : ℕ → Bool
is_control r = ltb r 0x20 || (leb 0x7f r && ltb r 0xa0)

-- Control, format, line separator (Zl) and paragraph separator (Zp).
abbrev pub is_unsafe : Library → ℕ → Bool
is_unsafe lib r = is_control r || lib.is_format r || r == 0x2028 || r == 0x2029

-- The loop of `displayText`: the runes written, with the runes left before the limit as a counter.
unfoldable pub display_runes : Library → ℕ → List ℕ → List ℕ
display_runes lib limit [] = []
display_runes lib zero (r ∷ rs) = 0x2026 ∷ []
display_runes lib (suc n) (r ∷ rs) = (if is_unsafe lib r then b' ' else r) ∷ display_runes lib n rs

unfoldable pub display_text : Library → Bytes → ℕ → Bytes
display_text lib value limit = encode_runes (display_runes lib limit (decode_runes value))

-- `cleanUIText`: at most 2048 runes, with controls and format characters blanked.
abbrev pub clean_rune : Library → ℕ → ℕ
clean_rune lib r = if is_control r || lib.is_format r then b' ' else r

unfoldable pub clean_runes : Library → Bytes → List ℕ
clean_runes lib value = map (clean_rune lib) (take 2048 (decode_runes value))

unfoldable pub clean_ui_text : Library → Bytes → Bytes
unfolding clean_runes
clean_ui_text lib value = encode_runes (clean_runes lib value)
