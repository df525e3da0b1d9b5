-- ===== src/Desktop/Sound/Steps.antt =====
-- Every event keeps the invariant.
use winssh_pageant.Common.{ℕ, ◌%◌, ◌≢◌, none, Option, arith, ◌==◌, ◌&&◌}
use winssh_pageant.Common.Acts.{Keeps, Keeps-bind, Keeps-if, Keeps-pure, pure, gets}
use winssh_pageant.Library.{Library}
use winssh_pageant.Desktop.State.{
  track_menu, foreground, post, create_menu, place_window, System, Desktop, Screen, desk, update,
  ask, tell, Desk,
}
use winssh_pageant.Desktop.Keys.{update_font}
use winssh_pageant.Desktop.Tray.{tray_icon, tray_notice, keys_ready_message, tray_retry_timer}
use winssh_pageant.Desktop.Messages.{
  Event, message, key_window_sized, key_window_moved, key_window_command, key_window_closed,
  shows_keys, notifies, load_done, closes, step, on_message, own_message, done, taskbar_created,
  lose_icon, tray_event, event_of, keys_size, keys_dpi, dpi_changed, keys_command, command,
  keys_close,
}
use winssh_pageant.Desktop.Menu.{
  show_tray_menu, open_menu, fill_menu, menu_point, track, menu_selected,
}
use winssh_pageant.Desktop.Sound.{IsSound}
use winssh_pageant.Desktop.Sound.Tray.{add_tray_icon-IsSound, notify-IsSound, take_notice-IsSound}
use winssh_pageant.Desktop.Sound.Closing.{close-IsSound}
use winssh_pageant.Desktop.Sound.Keys.{
  IsOpen, take_result-IsSound, show_keys-IsSound, update_font-IsOpen, layout_keys-IsSound,
  destroy_key_window-IsSound, refresh_keys-IsSound, load_ends-IsSound,
}

module _ {limit : Option ℕ} {font : ℕ} (sys : System) (lib : Library) where
  menu_selected-IsSound :
      (selected : ℕ) → Keeps (IsSound limit font) (menu_selected sys lib selected)
  unfolding menu_selected update tell pure
  menu_selected-IsSound selected = record {
    after = λ s h. ground (arith, (show_keys-IsSound sys lib).after s h);
  }

  fill_menu-IsSound : (menu : ℕ) → Keeps (IsSound limit font) (fill_menu sys lib menu)
  unfolding fill_menu desk tell
  fill_menu-IsSound menu = record { after = λ s h. ground arith }

  menu_point-IsSound : (anchor : ℕ) → Keeps (IsSound limit font) (menu_point sys lib anchor)
  unfolding menu_point desk gets tell pure
  menu_point-IsSound anchor = record { after = λ s h. ground arith }

  say-IsSound : (w : ℕ) → Keeps (IsSound limit font) (tell sys (foreground w))
  unfolding tell
  say-IsSound w = record { after = λ s h. ground arith }

  track-IsSound : (menu : ℕ) (point : ℕ × ℕ) → Keeps (IsSound limit font) (track sys lib menu point)
  unfolding track ask tell
  track-IsSound menu (x, y) = record {
    after = λ s h.
        let (selected, asked) = ask sys (track_menu menu x y) s in
        let posted = (tell sys (post 0) asked).1 in
        let sound : IsSound limit font posted = ground arith in
        ground (arith, (menu_selected-IsSound selected).after posted sound);
  }

  open_menu-IsSound : (anchor menu : ℕ) → Keeps (IsSound limit font) (open_menu sys lib anchor menu)
  unfolding open_menu desk
  open_menu-IsSound anchor menu =
      Keeps-bind (fill_menu sys lib menu) _ (fill_menu-IsSound menu) λ u.
        Keeps-bind (menu_point sys lib anchor) _ (menu_point-IsSound anchor) λ point. record {
          after = λ s h.
              (track-IsSound menu point).after (tell sys (foreground s.desktop.hwnd) s).1
                ((say-IsSound s.desktop.hwnd).after s h);
        }

  show_tray_menu-IsSound : (anchor : ℕ) → Keeps (IsSound limit font) (show_tray_menu sys lib anchor)
  unfolding show_tray_menu ask pure
  show_tray_menu-IsSound anchor = record {
    after = λ s h.
        let (menu, asked) = ask sys create_menu s in
        let sound : IsSound limit font asked = ground arith in
        ground (arith, sound, (open_menu-IsSound anchor menu).after asked sound);
  }

  tray_event-IsSound :
      (event anchor : ℕ) → Keeps (IsSound limit font) (tray_event sys lib event anchor)
  unfolding tray_event pure
  tray_event-IsSound event anchor = record {
    after = λ s h.
        ground
          (arith, (show_tray_menu-IsSound anchor).after s h, (show_keys-IsSound sys lib).after s h);
  }

  taskbar_created-IsSound : Keeps (IsSound limit font) (taskbar_created sys lib)
  unfolding taskbar_created lose_icon update
  taskbar_created-IsSound =
      Keeps-bind (update lose_icon) _ (record { after = λ s h. ground arith })
        λ u. add_tray_icon-IsSound sys lib

  done-IsSound :
      {m : Desk (Unit {0})}
      → Keeps (IsSound limit font) m
      → Keeps (IsSound limit font) (done sys lib m)
  unfolding done pure
  done-IsSound h = record { after = λ s. h.after s }

  own_message-IsSound :
      (msg wp lp : ℕ) (d : Desktop) → Keeps (IsSound limit font) (own_message sys lib msg wp lp d)
  unfolding own_message
  own_message-IsSound msg wp lp d =
      Keeps-if (msg == d.taskbar_ready) _ _ (λ e. done-IsSound taskbar_created-IsSound)
        λ e.
          Keeps-if (msg == tray_icon) _ _
            (λ f. done-IsSound (tray_event-IsSound (event_of sys lib d lp) wp))
            λ f.
              Keeps-if (msg == tray_notice) _ _ (λ g. done-IsSound (take_notice-IsSound sys lib))
                λ g.
                  Keeps-if (msg == keys_ready_message) _ _
                    (λ k. done-IsSound (take_result-IsSound sys lib))
                    λ k.
                      Keeps-if (msg == 0x113 && wp == tray_retry_timer) _ _
                        (λ l. done-IsSound (add_tray_icon-IsSound sys lib)) λ l. Keeps-pure none

  on_message-IsSound :
      (hwnd msg wp lp : ℕ) → Keeps (IsSound limit font) (on_message sys lib hwnd msg wp lp)
  unfolding on_message desk pure
  on_message-IsSound hwnd msg wp lp = record {
    after = λ s h. ground (arith, (own_message-IsSound msg wp lp s.desktop).after s h);
  }

  dpi_changed-IsSound :
      (hwnd wp x y width height : ℕ) (s : Screen)
      → IsSound limit font s
      → s.desktop.key_window ≢ 0
      → IsSound limit font (dpi_changed sys lib hwnd wp x y width height s).1
  unfolding dpi_changed update tell
  dpi_changed-IsSound hwnd wp x y width height s h there =
      let t : Screen = record s { desktop = record s.desktop { dpi = wp % 0x10000 } } in
      let sound : IsSound limit font t = ground arith in
      let opened : IsOpen limit font t = record { sound = sound; there = there } in
      let drawn = ((update_font-IsOpen sys).after t opened).sound in
      let u = (update_font sys t).1 in
      let v = (tell sys (place_window hwnd x y width height) u).1 in
      let placed : IsSound limit font v = ground (arith, drawn) in
      (layout_keys-IsSound sys).after v placed

  command-IsSound : (hwnd id : ℕ) → Keeps (IsSound limit font) (command sys lib hwnd id)
  unfolding command pure
  command-IsSound hwnd id = record {
    after = λ s h. ground (
      arith,
      (refresh_keys-IsSound sys lib).after s h,
      (destroy_key_window-IsSound sys hwnd).after s h,
    );
  }

  pub step-IsSound :
      (e : Event) (s : Screen) → IsSound limit font s → IsSound limit font (step sys lib e s)
  unfolding step keys_size keys_dpi keys_command keys_close done pure
  step-IsSound (message hwnd msg wp lp) s h = (on_message-IsSound hwnd msg wp lp).after s h
  step-IsSound key_window_sized s h = ground (arith, (layout_keys-IsSound sys).after s h)
  step-IsSound (key_window_moved hwnd wp x y width height) s h =
      ground (arith, dpi_changed-IsSound hwnd wp x y width height s h)
  step-IsSound (key_window_command hwnd wp) s h =
      ground (arith, (command-IsSound hwnd (wp % 0x10000)).after s h)
  step-IsSound (key_window_closed hwnd) s h =
      ground (arith, (destroy_key_window-IsSound sys hwnd).after s h)
  step-IsSound shows_keys s h = (show_keys-IsSound sys lib).after s h
  step-IsSound (notifies title body) s h = (notify-IsSound sys lib title body).after s h
  step-IsSound (load_done result) s h = ground (arith, load_ends-IsSound sys lib result s h)
  step-IsSound closes s h = (close-IsSound sys lib).after s h
