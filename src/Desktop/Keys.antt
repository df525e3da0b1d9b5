-- ===== src/Desktop/Keys.antt =====
-- The window that lists keys: `showKeys`, `refreshKeys`, `displayKeys` and their helpers in
-- pageant/desktop_windows.go. Of the messages that Windows sends during a call, WM_NCDESTROY is
-- modelled, which destroying the window sends at once.
use winssh_pageant.Common.{
  ℕ, suc, ◌-◌, true, false, not, none, some, List, [], ◌∷◌, ◌++◌, ◌==◌, if◌then◌else◌, Bytes, codes,
  length,
}
use winssh_pageant.Common.Acts.{◌>>=◌, ◌>>◌, pure, gets, skip, when}
use winssh_pageant.Library.{Library}
use winssh_pageant.Text.{clean_ui_text}
use winssh_pageant.Keys.{Key}
use winssh_pageant.Client.{decimal}
use winssh_pageant.Desktop.State.{
  destroy_window, move_window, find_dpi, get_dpi, client_rect, create_font, delete_object, set_font,
  enable, set_text, clear_list, redraw, insert_item, set_item, post, System, KeyResult, Desktop,
  Desk, desk, update, ask, tell,
}
use winssh_pageant.Desktop.Layout.{scale, sub32, Box, sizes, status_box, list_box, button_box}
use winssh_pageant.Desktop.Tray.{utf8, keys_ready_message}

-- `keyRefresh` and `keyClose`
abbrev pub key_refresh : ℕ
key_refresh = 1

abbrev pub key_close : ℕ
key_close = 2

-- `case 0x82`: the window is gone, and with it what it used.
unfoldable pub forget_window : System → Desk (Unit {0})
forget_window sys = do
  d ← desk
  update (λ d. record d {
    key_window = 0;
    key_list = 0;
    key_status = 0;
    refresh_button = 0;
    close_button = 0;
  })
  when (not (d.font == 0)) (do tell sys (delete_object d.font); update (λ d. record d { font = 0 }))

unfoldable pub destroy_key_window : System → ℕ → Desk (Unit {0})
destroy_key_window sys w = do
  ok ← ask sys (destroy_window w)
  when (not (ok == 0)) (forget_window sys)

-- `windowDPI`
unfoldable pub window_dpi : System → Desk ℕ
window_dpi sys = do
  d ← desk
  found ← ask sys find_dpi
  if found == 0
      then pure 96
      else (do dpi ← ask sys (get_dpi d.key_window); pure (if dpi == 0 then 96 else dpi))

set_fonts : System → ℕ → Desktop → Desk (Unit {0})
set_fonts sys font d = do
  tell sys (set_font d.key_status font)
  tell sys (set_font d.key_list font)
  tell sys (set_font d.refresh_button font)
  tell sys (set_font d.close_button font)

-- The new font is set before the old one is deleted.
replace_font : System → ℕ → Desk (Unit {0})
unfolding set_fonts
replace_font sys font = do
  d ← desk
  update (λ d. record d { font = font })
  set_fonts sys font d
  when (not (d.font == 0)) (tell sys (delete_object d.font))

unfoldable pub update_font : System → Desk (Unit {0})
unfolding replace_font
update_font sys = do
  d ← desk
  font ← ask sys (create_font (sub32 0 (scale d.dpi 12)))
  when (not (font == 0)) (replace_font sys font)

move : System → ℕ → Box → Desk (Unit {0})
move sys w b = tell sys (move_window w b.x b.y b.width b.height)

place_controls : System → Desktop → ℕ × ℕ → Desk (Unit {0})
unfolding move
place_controls sys d (width, height) = do
  let z = sizes d.dpi
  move sys d.key_status (status_box z width height)
  move sys d.key_list (list_box z width height)
  move sys d.refresh_button (button_box z.two_buttons z width height)
  move sys d.close_button (button_box z.button_width z width height)

unfoldable pub layout_keys : System → Desk (Unit {0})
unfolding place_controls
layout_keys sys = do
  d ← desk
  if d.key_list == 0 then skip else (do
    tell sys (client_rect d.key_window)
    area ← gets (λ s. sys.client_area s.history)
    place_controls sys d area)

unfoldable pub show_row : System → Library → ℕ → ℕ → Key → Desk (Unit {0})
show_row sys lib list index k = do
  tell sys (insert_item list index (clean_ui_text lib k.key_type))
  tell sys (set_item list index 1 (clean_ui_text lib k.fingerprint))
  tell sys (set_item list index 2 (clean_ui_text lib k.comment))

-- The rows of the list, from `index` on.
unfoldable pub show_rows : System → Library → ℕ → ℕ → List Key → Desk (Unit {0})
show_rows sys lib list index [] = skip
show_rows sys lib list index (k ∷ ks) = do
  show_row sys lib list index k
  show_rows sys lib list (suc index) ks

unfoldable pub status_text : KeyResult → Bytes
status_text result =
    if result.failed
    then codes "OpenSSH agent unavailable. Check the agent service, then select Refresh."
    else if length result.keys == 0
    then codes "No SSH keys are loaded. Add a key with ssh-add, then select Refresh."
    else decimal (length result.keys)
      ++ codes " SSH key(s) available. Only public key details are shown."

module _ (sys : System) (lib : Library) where
  -- The list, without its old rows.
  unfoldable pub show_status : Desktop → KeyResult → Desk (Unit {0})
  show_status d result = do
    tell sys (enable d.refresh_button true)
    tell sys (clear_list d.key_list)
    tell sys (set_text d.key_status (clean_ui_text lib (status_text result)))

  unfoldable pub fill_list : Desktop → List Key → Desk (Unit {0})
  fill_list d keys = do
    tell sys (redraw d.key_list false)
    show_rows sys lib d.key_list 0 keys
    tell sys (redraw d.key_list true)
    layout_keys sys

  unfoldable pub display_keys : KeyResult → Desk (Unit {0})
  display_keys result = do
    d ← desk
    show_status d result
    when (not result.failed) (fill_list d result.keys)

  unfoldable pub start_load : Desktop → Desk (Unit {0})
  start_load d = do
    update (λ d. record d { loading_keys = true })
    tell sys (
        set_text d.key_status (clean_ui_text lib (utf8 "Loading SSH keys from the OpenSSH agent…")))
    tell sys (enable d.refresh_button false)
    tell sys (clear_list d.key_list)
    update (λ d. record d { loads = suc d.loads })

  unfoldable pub refresh_keys : Desk (Unit {0})
  unfolding start_load
  refresh_keys = do
    d ← desk
    if d.loading_keys then tell sys (enable d.refresh_button false) else start_load d

  unfoldable pub keep_result : KeyResult → Desk (Unit {0})
  keep_result result s = elim s.desktop.keys_ready [
    | some earlier ↦ (tt, s)
    | none ↦
        tell sys (post keys_ready_message)
          (record s { desktop = record s.desktop { keys_ready = some result } })
  ]

  -- The end of the goroutine, with the result of `ListKeys`.
  unfoldable pub load_ends : KeyResult → Desk (Unit {0})
  unfolding keep_result
  load_ends result = do
    update (λ d. record d { loads = d.loads - 1 })
    d ← desk
    if d.closed then skip else keep_result result

  -- `case wmKeysReady`
  unfoldable pub take_result : Desk (Unit {0})
  take_result s = elim s.desktop.keys_ready [
    | none ↦ (tt, s)
    | some result ↦
        when (not (s.desktop.key_window == 0)) (display_keys result)
          (record s { desktop = record s.desktop { keys_ready = none; loading_keys = false } })
  ]
