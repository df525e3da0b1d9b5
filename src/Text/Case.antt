-- ===== src/Text/Case.antt =====
-- `strings.ToLower`: byte by byte on ASCII text, and otherwise rune by rune.
use winssh_pageant.Common.{ℕ, ◌+◌, Bool, true, ◌&&◌, [], ◌∷◌, map, ltb, leb, if◌then◌else◌, Bytes}
use winssh_pageant.Library.{Library}
use winssh_pageant.Text.Utf8.{decode_runes, encode_runes}

unfoldable pub is_ascii : Bytes → Bool
is_ascii [] = true
is_ascii (b ∷ bs) = ltb b 0x80 && is_ascii bs

abbrev pub lower_ascii : ℕ → ℕ
lower_ascii b = if leb b'A' b && leb b b'Z' then b + 32 else b

-- `unicode.ToLower`
abbrev pub lower : Library → ℕ → ℕ
lower lib r = if ltb r 0x80 then lower_ascii r else lib.lower_rune r

unfoldable pub to_lower : Library → Bytes → Bytes
unfolding is_ascii
to_lower lib s =
    if is_ascii s then map lower_ascii s else encode_runes (map (lower lib) (decode_runes s))
