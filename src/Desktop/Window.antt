-- ===== src/Desktop/Window.antt =====
-- The window that lists keys is opened: `showKeys` of pageant/desktop_windows.go.
use winssh_pageant.Common.{ℕ, Bool, true, false, not, ◌||◌, ◌==◌, if◌then◌else◌, Bytes, codes}
use winssh_pageant.Common.Acts.{◌>>=◌, ◌>>◌, pure, skip, when}
use winssh_pageant.Library.{Library}
use winssh_pageant.Text.{clean_ui_text}
use winssh_pageant.Desktop.State.{
  init_controls, register_class, create_window, create_control, show_window, foreground, focus,
  resize_window, list_styles, insert_column, System, Desktop, Desk, desk, update, ask, tell,
}
use winssh_pageant.Desktop.Layout.{scale}
use winssh_pageant.Desktop.Tray.{utf8}
use winssh_pageant.Desktop.Keys.{
  key_refresh, key_close, destroy_key_window, window_dpi, update_font, layout_keys, refresh_keys,
}

module _ (sys : System) (lib : Library) where
  -- Whether the class of the window is registered, now or before.
  unfoldable pub register_key_class : Desktop → Desk Bool
  register_key_class d = do
    atom ← ask sys (register_class d.large_icon d.icon)
    update (λ d. record d { key_class = not (atom == 0) })
    pure (not (atom == 0))

  unfoldable pub key_class_ready : Desk Bool
  unfolding register_key_class
  key_class_ready = do
    d ← desk
    if d.key_class
        then pure true
        else (do ok ← ask sys init_controls; if ok == 0 then pure false else register_key_class d)

  unfoldable pub column : ℕ → ℕ → Bytes → Desk (Unit {0})
  column index width title = do
    d ← desk
    tell sys (insert_column d.key_list index (scale d.dpi width) (clean_ui_text lib title))

  unfoldable pub insert_columns : Desk (Unit {0})
  unfolding column
  insert_columns = do
    d ← desk
    tell sys (list_styles d.key_list)
    column 0 140 (codes "Type")
    column 1 380 (codes "SHA256 fingerprint")
    column 2 330 (codes "Comment")

  unfoldable pub present_window : Desk (Unit {0})
  present_window = do
    d ← desk
    tell sys (show_window d.key_window 5)
    tell sys (foreground d.key_window)
    tell sys (focus d.refresh_button)

  unfoldable pub finish_key_window : Desk (Unit {0})
  finish_key_window = do
    insert_columns
    update_font sys
    layout_keys sys
    present_window
    refresh_keys sys lib

  unfoldable pub control : Bytes → Bytes → ℕ → ℕ → Desk ℕ
  control class text style id = do
    d ← desk
    ask sys
        (create_control (clean_ui_text lib class) (clean_ui_text lib text) style d.key_window id)

  unfoldable pub create_controls : Desk (Unit {0})
  unfolding control
  create_controls = do
    status ← control (codes "STATIC") (utf8 "Loading SSH keys…") 0 0
    update (λ d. record d { key_status = status })
    list ← control (codes "SysListView32") (codes "SSH keys") 0x0081000d 100
    update (λ d. record d { key_list = list })
    refresh ← control (codes "BUTTON") (codes "&Refresh") 0x00010001 key_refresh
    update (λ d. record d { refresh_button = refresh })
    close ← control (codes "BUTTON") (codes "&Close") 0x00010000 key_close
    update (λ d. record d { close_button = close })

  unfoldable pub fit_window : Desk (Unit {0})
  fit_window = do
    dpi ← window_dpi sys
    update (λ d. record d { dpi = dpi })
    d ← desk
    when (not (d.dpi == 96))
        (tell sys (resize_window d.key_window (scale d.dpi 940) (scale d.dpi 420)))

  -- A window without one of its controls is destroyed again.
  unfoldable pub fill_window : Desk (Unit {0})
  unfolding finish_key_window create_controls fit_window
  fill_window = do
    fit_window
    create_controls
    d ← desk
    if d.key_status == 0 || d.key_list == 0 || d.refresh_button == 0 || d.close_button == 0
        then destroy_key_window sys d.key_window
        else finish_key_window

  unfoldable pub open_window : Desk (Unit {0})
  unfolding fill_window
  open_window = do
    w ← ask sys (create_window (clean_ui_text lib (utf8 "SSH keys — winssh-pageant")))
    update (λ d. record d { key_window = w })
    if w == 0 then skip else fill_window

  unfoldable pub restore_window : Desktop → Desk (Unit {0})
  restore_window d = do tell sys (show_window d.key_window 9); tell sys (foreground d.key_window)

  unfoldable pub show_keys : Desk (Unit {0})
  unfolding open_window restore_window
  show_keys = do
    d ← desk
    if not (d.key_window == 0)
        then restore_window d
        else (do ready ← key_class_ready; when ready open_window)
