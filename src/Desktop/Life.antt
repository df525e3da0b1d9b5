-- ===== src/Desktop/Life.antt =====
-- The life of a desktop: made by `newDesktop`, any events, `close`, any events.
use winssh_pageant.Common.{
  ℕ, ◌%◌, true, false, Option, none, List, [], ◌∷◌, ◌==◌, if◌then◌else◌, arith, Bytes,
}
use winssh_pageant.Common.Acts.{◌>>◌, Keeps, pure, gets}
use winssh_pageant.Library.{Library}
use winssh_pageant.Desktop.State.{System, Screen, desk, update, ask, tell, register_message}
use winssh_pageant.Desktop.Layout.{word}
use winssh_pageant.Desktop.Messages.{
  Event, step, run, new_desktop, fresh_desktop, load_icons, stock_icon, close,
}
use winssh_pageant.Desktop.Sound.{IsSound}
use winssh_pageant.Desktop.Tray.{add_tray_icon}
use winssh_pageant.Desktop.Sound.Tray.{add_tray_icon-IsSound}
use winssh_pageant.Desktop.Sound.Closing.{close-IsSound}
use winssh_pageant.Desktop.Sound.Steps.{step-IsSound}

-- Before `newDesktop`, on the window `hwnd`.
abbrev pub blank : ℕ → Screen
blank hwnd = record { desktop = fresh_desktop hwnd; history = [] }

module _ {font : ℕ} (sys : System) (lib : Library) where
  blank-IsSound : (hwnd : ℕ) → IsSound none font (blank hwnd)
  unfolding fresh_desktop
  blank-IsSound hwnd = ground arith

  load_icons-IsSound :
      (path : Option Bytes) (hwnd : ℕ) → IsSound none font (load_icons sys lib path (blank hwnd)).1
  unfolding load_icons fresh_desktop update gets tell pure
  load_icons-IsSound path hwnd = ground arith

  stock_icon-IsSound : Keeps (IsSound none font) (stock_icon sys lib)
  unfolding stock_icon desk update ask pure
  stock_icon-IsSound = record { after = λ s h. ground arith }

  register-IsSound : Keeps (IsSound none font) (ask sys register_message)
  unfolding ask
  register-IsSound = record { after = λ s h. ground arith }

  known-IsSound :
      (ready : ℕ)
      → Keeps (IsSound none font) (update (λ d. record d { taskbar_ready = ready % word }))
  unfolding update
  known-IsSound ready = record { after = λ s h. ground arith }

  ready-IsSound :
      (ready : ℕ) (s : Screen)
      → IsSound none font s
      → IsSound none font
          ((if ready == 0
              then close sys lib >> pure false
              else update (λ d. record d { taskbar_ready = ready % word })
                >> add_tray_icon sys lib
                >> pure true)
            s).1
  unfolding pure
  ready-IsSound ready s h =
      let known = (update (λ d. record d { taskbar_ready = ready % word }) s).1 in
      ground (
        arith,
        (close-IsSound sys lib).after s h,
        (add_tray_icon-IsSound sys lib).after known ((known-IsSound ready).after s h),
      )

  new_desktop-IsSound :
      (path : Option Bytes) (hwnd : ℕ) → IsSound none font (new_desktop sys lib path (blank hwnd)).1
  unfolding new_desktop
  new_desktop-IsSound path hwnd =
      let s = (stock_icon sys lib (load_icons sys lib path (blank hwnd)).1).1 in
      let h = stock_icon-IsSound.after _ (load_icons-IsSound path hwnd) in
      let (ready, asked) = ask sys register_message s in
      ready-IsSound ready asked (register-IsSound.after s h)

  steps-IsSound :
      {limit : Option ℕ} (es : List Event) (s : Screen)
      → IsSound limit font s
      → IsSound limit font (run sys lib es s)
  unfolding run
  steps-IsSound [] s h = h
  steps-IsSound (e ∷ es) s h = steps-IsSound es (step sys lib e s) (step-IsSound sys lib e s h)

-- Whatever Windows answers and whatever happens to a desktop behind `newDesktop`: each icon that
-- came into the tray was taken out of it by a call, went with an Explorer, or is the one that the
-- desktop knows of, and a closed desktop knows of none; at most 16 notifications wait, at most one
-- load of keys is at work or waits to be shown and only while the window says so, without a window
-- there are no controls and no font, each font made is deleted or is the one in use, handle by
-- handle, and the program's own icons are given back, each once, exactly when the desktop is
-- closed.
pub run-IsSound :
    (sys : System) (lib : Library) (path : Option Bytes) (hwnd font : ℕ) (es : List Event)
    → IsSound none font (run sys lib es (new_desktop sys lib path (blank hwnd)).1)
run-IsSound sys lib path hwnd font es =
    steps-IsSound sys lib es (new_desktop sys lib path (blank hwnd)).1
      (new_desktop-IsSound sys lib path hwnd)
