-- ===== src/Desktop/Fits.antt =====
-- Where `layoutKeys` of pageant/desktop_windows.go places the controls.
use winssh_pageant.Common.{ℕ, ◌+◌, ◌*◌, ◌/◌, ◌≤◌, ◌≡◌}
use winssh_pageant.Desktop.Layout.{Box, Sizes}

abbrev IsExact : ℕ → Sizes → Type 0
IsExact dpi z =
    (z.pad ≡ 12 * dpi / 96)
    × (z.status ≡ 32 * dpi / 96)
    × (z.button ≡ 28 * dpi / 96)
    × (z.gap ≡ 8 * dpi / 96)
    × (z.button_width ≡ 88 * dpi / 96)
    × (z.two_buttons ≡ 184 * dpi / 96)

-- The boxes from top to bottom and from left to right.
pub record IsPlaced (pad gap width height : ℕ) (status list refresh close : Box) : Type 0 where
  pub over_list : status.y + status.height + gap ≡ list.y
  pub over_buttons : list.y + list.height + pad ≡ refresh.y
  pub to_bottom : refresh.y + refresh.height + pad ≡ height
  pub in_a_row : (refresh.y ≡ close.y) × (refresh.height ≡ close.height)
  pub list_across : (list.x ≡ pad) × (list.x + list.width + pad ≡ width)
  pub from_left : pad ≤ refresh.x
  pub beside : refresh.x + refresh.width ≤ close.x
  pub to_right : close.x + close.width + pad ≡ width
