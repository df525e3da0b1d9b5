-- ===== src/Desktop/Menu.antt =====
-- The menu of the tray icon: `showTrayMenu` of pageant/desktop_windows.go.
use winssh_pageant.Common.{
  ℕ, ◌+◌, ◌/◌, ◌%◌, Bool, not, ◌||◌, ◌&&◌, [], ltb, ◌==◌, if◌then◌else◌, codes,
}
use winssh_pageant.Common.Acts.{◌>>=◌, ◌>>◌, pure, gets, skip, when}
use winssh_pageant.Library.{Library}
use winssh_pageant.Text.{clean_ui_text}
use winssh_pageant.Desktop.State.{
  focus_icon, post, create_menu, append_menu, cursor_position, track_menu, destroy_menu, foreground,
  System, Desktop, Desk, desk, update, ask, tell,
}
use winssh_pageant.Desktop.Tray.{utf8}
use winssh_pageant.Desktop.Window.{show_keys}

-- `menuShowKeys`, `menuToggleNotes`, `menuExit`, and WM_CLOSE of internal/win/defs.go
abbrev pub menu_show_keys : ℕ
menu_show_keys = 1001

abbrev pub menu_toggle_notes : ℕ
menu_toggle_notes = 1002

abbrev pub menu_exit : ℕ
menu_exit = 1003

abbrev pub wm_close : ℕ
wm_close = 16

-- `int32(int16(v))` of the low 16 bits.
unfoldable pub sign_extend : ℕ → ℕ
sign_extend v = let low = v % 0x10000 in if ltb low 0x8000 then low else low + 0xffff0000

-- Both coordinates are -1.
abbrev pub is_nowhere : ℕ × ℕ → Bool
is_nowhere (x, y) = x == 0xffffffff && y == 0xffffffff

module _ (sys : System) (lib : Library) where
  -- The point in the message, if there is one.
  unfoldable pub anchor_point : Desktop → ℕ → ℕ × ℕ
  anchor_point d anchor =
      if d.tray_version4 && not (anchor == sys.all_ones)
      then (sign_extend anchor, sign_extend (anchor / 0x10000))
      else (0, 0)

  unfoldable pub menu_point : ℕ → Desk (ℕ × ℕ)
  unfolding anchor_point
  menu_point anchor = do
    d ← desk
    if not d.tray_version4 || is_nowhere (anchor_point d anchor)
        then (do tell sys cursor_position; gets (λ s. sys.cursor s.history))
        else pure (anchor_point d anchor)

  unfoldable pub fill_menu : ℕ → Desk (Unit {0})
  fill_menu menu = do
    tell sys (append_menu menu 0 menu_show_keys (clean_ui_text lib (utf8 "Show SSH &keys…")))
    d ← desk
    tell sys (
        append_menu menu (if d.notes_enabled then 8 else 0) menu_toggle_notes
          (clean_ui_text lib (codes "Signing &notifications")))
    tell sys (append_menu menu 0x800 0 [])
    tell sys (append_menu menu 0 menu_exit (clean_ui_text lib (codes "E&xit")))

  -- Behind TrackPopupMenu.
  unfoldable pub menu_selected : ℕ → Desk (Unit {0})
  menu_selected selected =
      if selected == menu_show_keys
      then show_keys sys lib
      else if selected == menu_exit
      then tell sys (post wm_close)
      else (do
        when (selected == menu_toggle_notes)
            (update (λ d. record d { notes_enabled = not d.notes_enabled }))
        tell sys focus_icon)

  unfoldable pub track : ℕ → ℕ × ℕ → Desk (Unit {0})
  track menu (x, y) = do
    selected ← ask sys (track_menu menu x y)
    tell sys (post 0)
    menu_selected selected
    tell sys (destroy_menu menu)

  unfoldable pub open_menu : ℕ → ℕ → Desk (Unit {0})
  unfolding track fill_menu menu_point
  open_menu anchor menu = do
    fill_menu menu
    point ← menu_point anchor
    d ← desk
    tell sys (foreground d.hwnd)
    track menu point

  unfoldable pub show_tray_menu : ℕ → Desk (Unit {0})
  unfolding open_menu
  show_tray_menu anchor = do
    menu ← ask sys create_menu
    if menu == 0 then skip else open_menu anchor menu
