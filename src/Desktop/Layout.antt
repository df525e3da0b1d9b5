-- ===== src/Desktop/Layout.antt =====
-- `scale` and the arithmetic of `layoutKeys` in pageant/desktop_windows.go, on int32 values as
-- their 32 bits.
use winssh_pageant.Common.{ℕ, ◌+◌, ◌-◌, ◌*◌, ◌/◌, ◌%◌, ◌||◌, ltb, leb, ◌==◌, if◌then◌else◌}

abbrev pub word : ℕ
word = 4294967296

abbrev pub half_word : ℕ
half_word = 2147483648

-- The quotient by 96, which Go rounds towards zero.
unfoldable pub quotient96 : ℕ → ℕ
quotient96 p = if ltb p half_word then p / 96 else (word - (word - p) / 96) % word

-- `value * int32(d.dpi) / 96`
unfoldable pub scale : ℕ → ℕ → ℕ
scale dpi value = quotient96 (value * (dpi % word) % word)

unfoldable pub sub32 : ℕ → ℕ → ℕ
sub32 a b = (a % word + (word - b % word)) % word

unfoldable pub add32 : ℕ → ℕ → ℕ
add32 a b = (a + b) % word

-- `max(w, 1)`
unfoldable pub at_least_one : ℕ → ℕ
at_least_one w = if w == 0 || leb half_word w then 1 else w

pub record Box : Type 0 where
  pub x : ℕ
  pub y : ℕ
  pub width : ℕ
  pub height : ℕ

-- The sizes that `layoutKeys` begins with.
pub record Sizes : Type 0 where
  pub pad : ℕ
  pub status : ℕ
  pub button : ℕ
  pub gap : ℕ
  pub button_width : ℕ
  pub two_buttons : ℕ

unfoldable pub sizes : ℕ → Sizes
sizes dpi = record {
  pad = scale dpi 12;
  status = scale dpi 32;
  button = scale dpi 28;
  gap = scale dpi 8;
  button_width = scale dpi 88;
  two_buttons = scale dpi 184;
}

unfoldable pub status_box : Sizes → ℕ → ℕ → Box
status_box z width height = record {
  x = z.pad;
  y = z.pad;
  width = at_least_one (sub32 width (add32 z.pad z.pad));
  height = at_least_one z.status;
}

unfoldable pub list_box : Sizes → ℕ → ℕ → Box
list_box z width height = record {
  x = z.pad;
  y = add32 (add32 z.pad z.status) z.gap;
  width = at_least_one (sub32 width (add32 z.pad z.pad));
  height = at_least_one (
      sub32 (sub32 (sub32 (sub32 height (add32 (add32 z.pad z.pad) z.pad)) z.status) z.gap)
        z.button);
}

unfoldable pub button_box : ℕ → Sizes → ℕ → ℕ → Box
button_box offset z width height = record {
  x = sub32 (sub32 width z.pad) offset;
  y = sub32 (sub32 height z.pad) z.button;
  width = at_least_one z.button_width;
  height = at_least_one z.button;
}
