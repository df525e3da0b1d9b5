-- ===== src/Tests/Desktops.antt =====
-- Desktops.
use winssh_pageant.Common.{
  ◌<◌, ◌+◌, ◌++◌, ◌≤◌, ◌≡◌, ◌⊎◌, true, false, some, none, List, [], ◌∷◌, map, if◌then◌else◌, arith,
  Bytes, codes, length,
}
use winssh_pageant.Text.{clean_ui_text}
use winssh_pageant.Tests.Data.{lib}
use winssh_pageant.Runtime.Procs.{wnd_proc, wnd_proc-step, IsHandled, IsLifecycle}
use winssh_pageant.Desktop.State.{System, Screen, KeyResult, Notice, post}
use winssh_pageant.Desktop.Keys.{display_keys}
use winssh_pageant.Desktop.Tray.{notify, capacity}
use winssh_pageant.Desktop.Messages.{
  Event, shows_keys, notifies, load_done, key_window_closed, run, new_desktop, fresh_desktop, close,
}
use winssh_pageant.Desktop.Notices.{notify_queue}
use winssh_pageant.Desktop.Sound.{IsSound}
use winssh_pageant.Desktop.Life.{blank, run-IsSound}
use winssh_pageant.Desktop.Rows.{table, label, row_of, IsTold, display_keys-table}
use winssh_pageant.Tests.Hosts.{os}

-- Every call succeeds with 1.
abbrev system : System
system = record {
  answer = λ h c. 1;
  icons = λ h. (7, 8);
  cursor = λ h. (0, 0);
  client_area = λ h. (640, 480);
  all_ones = 0xffffffffffffffff;
}

abbrev result : KeyResult
result = record {
  keys =
      record { key_type = codes "ssh-ed25519"; fingerprint = codes "SHA256:x"; comment = [] } ∷ [];
  failed = false;
}

abbrev events : List Event
events = shows_keys ∷ load_done result ∷ notifies (codes "t") (codes "b") ∷ key_window_closed 1 ∷ []

abbrev path : Bytes
path = codes "C:\\bridge.exe"

run-IsSound_example :
    IsSound none 1 (run system lib events (new_desktop system lib (some path) (blank 5)).1)
run-IsSound_example = run-IsSound system lib (some path) 5 1 events

abbrev ended : Screen
ended =
    (close system lib (run system lib events (new_desktop system lib (some path) (blank 5)).1)).1

abbrev afterwards : Screen
afterwards = run system lib events ended

display_keys-table_example :
    let after = (display_keys system lib result (blank 5)).1.history in
    (table 0 after ≡ (if false then [] else map (row_of lib) result.keys))
    × IsTold lib result (label 0 after)
unfolding fresh_desktop
display_keys-table_example = display_keys-table system lib result (blank 5)

notify_queue_example :
    let after = (notify system lib (codes "t") (codes "b") (blank 5)).1 in
    (length after.desktop.notices ≤ capacity)
    × ((((blank 5).desktop.closed ≡ false)
          × (length (blank 5).desktop.notices < 16)
          × ((n : Notice) × (n.title ≡ clean_ui_text lib (codes "t"))
              × (n.body ≡ clean_ui_text lib (codes "b"))
              × (after.desktop
                  ≡ record (blank 5).desktop { notices = (blank 5).desktop.notices ++ (n ∷ []) }))
          × (after.history ≡ (post (0x8000 + 52), system.answer [] (post (0x8000 + 52))) ∷ []))
        ⊎ ((((blank 5).desktop.closed ≡ true) ⊎ (16 ≤ length (blank 5).desktop.notices))
            × (after ≡ blank 5)))
unfolding fresh_desktop
notify_queue_example = notify_queue system lib (codes "t") (codes "b") (blank 5) (omega arith)

abbrev sound_screen : Screen
sound_screen = run system lib events (new_desktop system lib (some path) (blank 5)).1

wnd_proc-step_example :
    let (r, site) =
      wnd_proc os system lib 5 0x8049 0 0 (record { screen = some sound_screen; trace = [] }) in
    let (early, bare) =
      wnd_proc os system lib 5 0x8049 0 0 (record { screen = none; trace = [] }) in
    IsHandled os system lib 5 0x8049 0 0 sound_screen [] r site
    × ((next : Screen) × (site.screen ≡ some next) × IsSound none 1 next)
    × (bare.screen ≡ none)
    × IsLifecycle os 5 0x8049 0 0 [] early bare.trace
wnd_proc-step_example =
    wnd_proc-step os system lib 5 0x8049 0 0 1 sound_screen []
      (run-IsSound system lib (some path) 5 1 events)
