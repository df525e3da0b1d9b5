-- ===== src/Desktop/Tray.antt =====
-- The tray icon: `addTrayIcon` and the queue of `notify` in pageant/desktop_windows.go.
use winssh_pageant.Common.{
  ℕ, ◌+◌, true, not, ◌||◌, ◌&&◌, [], ◌∷◌, ◌++◌, ltb, ◌==◌, if◌then◌else◌, Bytes, codes, length,
}
use winssh_pageant.Common.Acts.{◌>>=◌, ◌>>◌, skip, when}
use Prim.Native.String.{String}
use winssh_pageant.Library.{Library}
use winssh_pageant.Text.{clean_ui_text}
use winssh_pageant.Text.Utf8.{encode_runes}
use winssh_pageant.Desktop.Buffer.{copy_ui_text}
use winssh_pageant.Desktop.State.{
  add_icon, set_icon_version, show_info, set_timer, kill_timer, post, System, Notice, Desktop, Desk,
  desk, update, ask, tell,
}

-- `wmTrayIcon`, `wmTrayNotice`, `wmKeysReady` and `trayRetryTimer`
abbrev pub tray_icon : ℕ
tray_icon = 0x8000 + 51

abbrev pub tray_notice : ℕ
tray_notice = 0x8000 + 52

abbrev pub keys_ready_message : ℕ
keys_ready_message = 0x8000 + 53

abbrev pub tray_retry_timer : ℕ
tray_retry_timer = 51

-- A constant of the source, as its UTF-8.
unfoldable pub utf8 : String → Bytes
utf8 s = encode_runes (codes s)

-- The room in the channel of notifications.
abbrev pub capacity : ℕ
capacity = 16

module _ (sys : System) (lib : Library) where
  icon_attached : Desk (Unit {0})
  icon_attached = do
    update (λ d. record d { tray_added = true })
    tell sys kill_timer
    ok ← ask sys set_icon_version
    update (λ d. record d { tray_version4 = not (ok == 0) })

  unfoldable pub attach_icon : Desktop → Desk (Unit {0})
  unfolding icon_attached
  attach_icon d = do
    ok ← ask sys (add_icon d.icon (copy_ui_text lib 128 (utf8 "winssh-pageant — running")))
    if ok == 0 then tell sys set_timer else icon_attached

  unfoldable pub add_tray_icon : Desk (Unit {0})
  add_tray_icon = do d ← desk; if d.closed || d.tray_added then skip else attach_icon d

  -- Room in the queue, or the notification is dropped.
  unfoldable pub notify : Bytes → Bytes → Desk (Unit {0})
  notify title body = do
    d ← desk
    if d.closed || not (ltb (length d.notices) capacity) then skip else (do
      update (λ d. record d {
        notices =
            d.notices
            ++ (record { title = clean_ui_text lib title; body = clean_ui_text lib body } ∷ []);
      })
      tell sys (post tray_notice))

  show_notice : Notice → Desk (Unit {0})
  show_notice n = do
    d ← desk
    when (d.notes_enabled && d.tray_added)
        (tell sys (show_info (copy_ui_text lib 64 n.title) (copy_ui_text lib 256 n.body)))

  -- `case wmTrayNotice`
  unfoldable pub take_notice : Desk (Unit {0})
  unfolding show_notice
  take_notice s = elim s.desktop.notices [
    | [] ↦ (tt, s)
    | n ∷ rest ↦ show_notice n (record s { desktop = record s.desktop { notices = rest } })
  ]
