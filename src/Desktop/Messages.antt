-- ===== src/Desktop/Messages.antt =====
-- The message handlers, the start and the end of the desktop in pageant/desktop_windows.go. The
-- messages that Windows dispatches while the menu is open are steps of their own.

use winssh_pageant.Common.{
  suc, ℕ, ◌%◌, Bool, true, false, not, ◌||◌, ◌&&◌, Option, none, some, List, [], ◌∷◌, ◌==◌,
  if◌then◌else◌, Bytes,
}
use winssh_pageant.Common.Acts.{◌>>=◌, ◌>>◌, pure, gets, skip, when}
use winssh_pageant.Library.{Library}
use winssh_pageant.Desktop.State.{
  register_message, extract_icons, load_stock_icon, destroy_icon, delete_icon, kill_timer,
  unregister_class, place_window, dialog_message, System, KeyResult, Desktop, Screen, Desk, desk,
  update, ask, tell,
}
use winssh_pageant.Desktop.Layout.{scale, word}
use winssh_pageant.Desktop.Tray.{
  tray_icon, tray_notice, keys_ready_message, tray_retry_timer, add_tray_icon, take_notice, notify,
}
use winssh_pageant.Desktop.Keys.{
  key_refresh, key_close, refresh_keys, take_result, load_ends, layout_keys, update_font,
  destroy_key_window,
}
use winssh_pageant.Desktop.Window.{show_keys}
use winssh_pageant.Desktop.Menu.{show_tray_menu}

-- What a window procedure returns: a value, or that it leaves the message to Windows.
abbrev pub Handled : Type 0
Handled = Option ℕ

-- Explorer has started anew, and the icon, if it was there, went with the old one.
unfoldable pub lose_icon : Desktop → Desktop
lose_icon d = record d { tray_added = false; lost = if d.tray_added then suc d.lost else d.lost }

module _ (sys : System) (lib : Library) where
  -- `uint32(lParam)`, of which the version 4 of the icon uses the low half.
  unfoldable pub event_of : Desktop → ℕ → ℕ
  event_of d lp = if d.tray_version4 then lp % 0x10000 else lp % word

  -- `case wmTrayIcon`
  unfoldable pub tray_event : ℕ → ℕ → Desk (Unit {0})
  tray_event event anchor =
      if event == 0x7b || event == 0x205
      then show_tray_menu sys lib anchor
      else if event == 0x400 || event == 0x401 || event == 0x203
      then show_keys sys lib
      else skip

  unfoldable pub taskbar_created : Desk (Unit {0})
  unfolding lose_icon
  taskbar_created = do update lose_icon; add_tray_icon sys lib

  unfoldable pub done : Desk (Unit {0}) → Desk Handled
  done m = do m; pure (some 0)

  unfoldable pub own_message : ℕ → ℕ → ℕ → Desktop → Desk Handled
  unfolding done tray_event taskbar_created event_of
  own_message msg wp lp d =
      if msg == d.taskbar_ready
      then done taskbar_created
      else if msg == tray_icon
      then done (tray_event (event_of d lp) wp)
      else if msg == tray_notice
      then done (take_notice sys lib)
      else if msg == keys_ready_message
      then done (take_result sys lib)
      else if msg == 0x113 && wp == tray_retry_timer
      then done (add_tray_icon sys lib)
      else pure none

  -- `onMessage`
  unfoldable pub on_message : ℕ → ℕ → ℕ → ℕ → Desk Handled
  unfolding own_message
  on_message hwnd msg wp lp = do
    d ← desk
    if hwnd == d.hwnd then own_message msg wp lp d else pure none

  -- `case 0x2e0`; the rectangle that Windows suggests is an argument.
  unfoldable pub dpi_changed : ℕ → ℕ → ℕ → ℕ → ℕ → ℕ → Desk (Unit {0})
  dpi_changed hwnd wp x y width height = do
    update (λ d. record d { dpi = wp % 0x10000 })
    update_font sys
    tell sys (place_window hwnd x y width height)
    layout_keys sys

  unfoldable pub command : ℕ → ℕ → Desk (Unit {0})
  command hwnd id =
      if id == key_refresh
      then refresh_keys sys lib
      else when (id == key_close) (destroy_key_window sys hwnd)

  -- What `keysWndProc` is sent. WM_GETMINMAXINFO only answers: `smallest_size`.
  unfoldable pub keys_size : Desk Handled
  unfolding done
  keys_size = done (layout_keys sys)

  unfoldable pub keys_dpi : ℕ → ℕ → ℕ → ℕ → ℕ → ℕ → Desk Handled
  unfolding done dpi_changed
  keys_dpi hwnd wp x y width height = done (dpi_changed hwnd wp x y width height)

  unfoldable pub keys_command : ℕ → ℕ → Desk Handled
  unfolding done command
  keys_command hwnd wp = done (command hwnd (wp % 0x10000))

  unfoldable pub keys_close : ℕ → Desk Handled
  unfolding done
  keys_close hwnd = done (destroy_key_window sys hwnd)

  -- `close`; the state is marked before anything is given back.
  unfoldable pub hide_icon : Desktop → Desk (Unit {0})
  hide_icon d =
      when d.tray_added (do tell sys delete_icon; update (λ d. record d { tray_added = false }))

  unfoldable pub destroy_icons : Desktop → Desk (Unit {0})
  destroy_icons d = do
    when (not (d.owned_icon == 0)) (tell sys (destroy_icon d.owned_icon))
    when (not (d.owned_large == 0) && not (d.owned_large == d.owned_icon))
        (tell sys (destroy_icon d.owned_large))

  unfoldable pub give_back : Desktop → Desk (Unit {0})
  unfolding hide_icon destroy_icons
  give_back d = do
    update (λ d. record d { closed = true })
    tell sys kill_timer
    hide_icon d
    when (not (d.key_window == 0)) (destroy_key_window sys d.key_window)
    when d.key_class (tell sys unregister_class)
    destroy_icons d

  unfoldable pub close : Desk (Unit {0})
  unfolding give_back
  close = do d ← desk; if d.closed then skip else give_back d

  -- `newDesktop`, on a screen whose desktop has the zero values; `executable` is the path of the
  -- program, if Windows tells one without a NUL.
  unfoldable pub load_icons : Option Bytes → Desk (Unit {0})
  load_icons none = skip
  load_icons (some path) = do
    tell sys (extract_icons path)
    (large, small) ← gets (λ s. sys.icons s.history)
    update (λ d. record d {
      large_icon = large;
      icon = small;
      owned_icon = small;
      owned_large = large;
    })

  unfoldable pub stock_icon : Desk (Unit {0})
  stock_icon = do
    d ← desk
    when (d.icon == 0) (do stock ← ask sys load_stock_icon; update (λ d. record d { icon = stock }))
    update (λ d. record d { large_icon = if d.large_icon == 0 then d.icon else d.large_icon })

  -- Whether there is a desktop.
  unfoldable pub new_desktop : Option Bytes → Desk Bool
  unfolding load_icons stock_icon
  new_desktop executable = do
    load_icons executable
    stock_icon
    ready ← ask sys register_message
    if ready == 0 then (do close; pure false) else (do
      update (λ d. record d { taskbar_ready = ready % word })
      add_tray_icon sys lib
      pure true)

  -- `translateMessage`
  unfoldable pub translate_message : Desk Bool
  translate_message = do
    d ← desk
    if d.key_window == 0
        then pure false
        else (do handled ← ask sys (dialog_message d.key_window); pure (not (handled == 0)))

-- The answer to WM_GETMINMAXINFO.
unfoldable pub smallest_size : Desktop → ℕ × ℕ
smallest_size d = (scale d.dpi 560, scale d.dpi 280)

-- The desktop that `newDesktop` begins with.
unfoldable pub fresh_desktop : ℕ → Desktop
fresh_desktop hwnd = record {
  hwnd = hwnd;
  closed = false;
  notices = [];
  keys_ready = none;
  loads = 0;
  icon = 0;
  large_icon = 0;
  owned_icon = 0;
  owned_large = 0;
  tray_added = false;
  tray_version4 = false;
  taskbar_ready = 0;
  notes_enabled = true;
  key_window = 0;
  key_list = 0;
  key_status = 0;
  refresh_button = 0;
  close_button = 0;
  font = 0;
  dpi = 96;
  loading_keys = false;
  key_class = false;
  lost = 0;
}

-- What happens to a desktop: messages of the two windows, the calls of worker goroutines, the end
-- of a load, and `close`.
pub data Event : Type 0 where
  message : ℕ → ℕ → ℕ → ℕ → Event
  key_window_sized : Event
  key_window_moved : ℕ → ℕ → ℕ → ℕ → ℕ → ℕ → Event
  key_window_command : ℕ → ℕ → Event
  key_window_closed : ℕ → Event
  shows_keys : Event
  notifies : Bytes → Bytes → Event
  load_done : KeyResult → Event
  closes : Event

module _ (sys : System) (lib : Library) where
  -- The window of keys gets messages while it is there, and a goroutine ends if it is at work.
  unfoldable pub step : Event → Screen → Screen
  step (message hwnd msg wp lp) s = (on_message sys lib hwnd msg wp lp s).1
  step key_window_sized s = if s.desktop.key_window == 0 then s else (keys_size sys lib s).1
  step (key_window_moved hwnd wp x y width height) s =
      if s.desktop.key_window == 0 then s else (keys_dpi sys lib hwnd wp x y width height s).1
  step (key_window_command hwnd wp) s =
      if s.desktop.key_window == 0 then s else (keys_command sys lib hwnd wp s).1
  step (key_window_closed hwnd) s =
      if s.desktop.key_window == 0 then s else (keys_close sys lib hwnd s).1
  step shows_keys s = (show_keys sys lib s).1
  step (notifies title body) s = (notify sys lib title body s).1
  step (load_done result) s = if s.desktop.loads == 0 then s else (load_ends sys lib result s).1
  step closes s = (close sys lib s).1

  unfoldable pub run : List Event → Screen → Screen
  run [] s = s
  run (e ∷ es) s = run es (step e s)
