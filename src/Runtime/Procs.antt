-- ===== src/Runtime/Procs.antt =====
-- The window procedures of pageant/run_windows.go, and the thread of the window that programs
-- send requests to.
use winssh_pageant.Common.{
  ap, ℕ, zero, suc, ◌≡◌, ◌⊎◌, inl, inr, refl, Bool, true, false, not, ◌||◌, Option, none, some,
  ◌==◌, if◌then◌else◌, Bool-cases, Option-cases, arith, ◌≢◌,
}
use winssh_pageant.Common.Acts.{◌>>=◌, ◌>>◌, pure, when}
use winssh_pageant.Library.{Library}
use winssh_pageant.Host.{
  Os, Host, Trace, ask, tell, destroy_window, post_quit, default_proc, copy_data, lock_thread,
  unlock_thread, report_ready, watch_stop, end_watch, get_message, translate, dispatch,
}
use winssh_pageant.Control.{show_keys_message, wnd_class, wm_close}
use winssh_pageant.Runtime.{minus_one, make_window, cleanup}
use winssh_pageant.Desktop.State.{System, Screen}
use winssh_pageant.Desktop.Window.{show_keys}
use winssh_pageant.Desktop.Messages.{Handled, on_message, step, message, shows_keys}
use winssh_pageant.Desktop.Sound.{IsSound}
use winssh_pageant.Desktop.Sound.Steps.{step-IsSound}

-- `lifecycleWndProc`: WM_QUERYENDSESSION, WM_ENDSESSION, WM_CLOSE and WM_DESTROY.
unfoldable pub lifecycle_wnd_proc : Os → ℕ → ℕ → ℕ → ℕ → Host ℕ
lifecycle_wnd_proc os hwnd msg wp lp =
    if msg == 0x11
    then pure 1
    else if msg == 0x16
    then (do when (not (wp == 0)) (tell os post_quit); pure 0)
    else if msg == wm_close
    then (do tell os (destroy_window hwnd); pure 0)
    else if msg == 2
    then (do tell os post_quit; pure 0)
    else (do a ← ask os (default_proc hwnd msg wp lp); pure a.number)

-- `ipcWndProc`; what `handleCopyData` does is modelled in Bridge.CopyData.
unfoldable pub ipc_wnd_proc : Os → ℕ → ℕ → ℕ → ℕ → Host ℕ
ipc_wnd_proc os hwnd msg wp lp =
    if msg == 0x4a
    then (do a ← ask os (copy_data lp); pure a.number)
    else lifecycle_wnd_proc os hwnd msg wp lp

-- The desktop, if there is one yet, and the calls outside it.
pub record Site : Type 0 where
  pub screen : Option Screen
  pub trace : Trace

module _ (os : Os) (sys : System) (lib : Library) (hwnd msg wp lp : ℕ) where
  unfoldable pub left_over : Handled → Option Screen → Trace → ℕ × Site
  left_over (some r) screen t = (r, record { screen = screen; trace = t })
  left_over none screen t =
      let (r, t1) = lifecycle_wnd_proc os hwnd msg wp lp t in
      (r, record { screen = screen; trace = t1 })

  -- `wndProc`
  unfoldable pub on_screen : Option Screen → Trace → ℕ × Site
  unfolding left_over
  on_screen none t = left_over none none t
  on_screen (some s) t =
      if msg == show_keys_message
      then (0, record { screen = some (show_keys sys lib s).1; trace = t })
      else (let (handled, s1) = on_message sys lib hwnd msg wp lp s in
          left_over handled (some s1) t)

  unfoldable pub wnd_proc : Site → ℕ × Site
  unfolding on_screen
  wnd_proc site = on_screen site.screen site.trace

-- The loop of `runIPCWindow`, over at most so many messages: whether it has ended.
unfoldable pub ipc_loop : Os → ℕ → Host Bool
ipc_loop os zero t = (false, t)
ipc_loop os (suc fuel) t =
    let (got, t1) = ask os get_message t in
    let later = ipc_loop os fuel (tell os dispatch (tell os translate t1).1).1 in
    if got.number == 0 || got.number == minus_one then (true, t1) else later

-- Behind `createWindow`; the other goroutine waits for the stop or the end.
unfoldable pub serve_ipc : Os → ℕ → Option ℕ → Host Bool
serve_ipc os fuel none = do tell os (report_ready false); tell os unlock_thread; pure true
serve_ipc os fuel (some hwnd) = do
  tell os (report_ready true)
  tell os watch_stop
  ended ← ipc_loop os fuel
  when ended (do tell os end_watch; cleanup os wnd_class hwnd; tell os unlock_thread)
  pure ended

-- `runIPCWindow`
unfoldable pub run_ipc_window : Os → ℕ → Host Bool
run_ipc_window os fuel = do
  tell os lock_thread
  made ← make_window os wnd_class
  serve_ipc os fuel made

-- What `lifecycleWndProc` returns, and the calls behind it: an end of the session is agreed to; when
-- the session ends or the window goes, the loop of messages is asked to end; a request to close
-- destroys the window; Windows answers all else.
abbrev pub IsLifecycle : Os → ℕ → ℕ → ℕ → ℕ → Trace → ℕ → Trace → Type 0
IsLifecycle os hwnd msg wp lp t r after =
    let quits = (tell os post_quit t).1 in
    let (a, asked) = ask os (default_proc hwnd msg wp lp) t in
    ((msg ≡ 0x11) × (r ≡ 1) × (after ≡ t))
    ⊎ (((msg ≡ 0x16) × (r ≡ 0) × (((wp ≡ 0) × (after ≡ t)) ⊎ ((wp ≢ 0) × (after ≡ quits))))
        ⊎ (((msg ≡ 0x10) × (r ≡ 0) × (after ≡ (tell os (destroy_window hwnd) t).1))
            ⊎ (((msg ≡ 0x02) × (r ≡ 0) × (after ≡ quits))
                ⊎ ((msg ≢ 0x11)
                    × (msg ≢ 0x16)
                    × (msg ≢ 0x10)
                    × (msg ≢ 0x02)
                    × (r ≡ a.number)
                    × (after ≡ asked)))))

lifecycle_wnd_proc-IsLifecycle :
    (os : Os) (hwnd msg wp lp : ℕ) (t : Trace)
    → IsLifecycle os hwnd msg wp lp t
        (lifecycle_wnd_proc os hwnd msg wp lp t).0
        (lifecycle_wnd_proc os hwnd msg wp lp t).1
unfolding lifecycle_wnd_proc ask tell pure
lifecycle_wnd_proc-IsLifecycle os hwnd msg wp lp t = ground arith

-- What `wndProc` returns with the desktop `s`, and the site behind it.
abbrev pub IsHandled : Os → System → Library → ℕ → ℕ → ℕ → ℕ → Screen → Trace → ℕ → Site → Type 0
IsHandled os sys lib hwnd msg wp lp s t r site =
    let handled = (on_message sys lib hwnd msg wp lp s).0 in
    let next = step sys lib (message hwnd msg wp lp) s in
    ((msg ≡ 0x8049)
      × (r ≡ 0)
      × (site ≡ record { screen = some (step sys lib shows_keys s); trace = t }))
    ⊎ ((msg ≢ 0x8049)
        × (site.screen ≡ some next)
        × (((handled ≡ some r) × (site.trace ≡ t))
            ⊎ ((handled ≡ none) × IsLifecycle os hwnd msg wp lp t r site.trace)))

on_message-IsHandled :
    (os : Os) (sys : System) (lib : Library) (hwnd msg wp lp : ℕ) (s : Screen) (t : Trace)
    → msg ≢ 0x8049
    → let (handled, s1) = on_message sys lib hwnd msg wp lp s in
      let done = left_over os sys lib hwnd msg wp lp handled (some s1) t in
      IsHandled os sys lib hwnd msg wp lp s t done.0 done.1
unfolding left_over step
on_message-IsHandled os sys lib hwnd msg wp lp s t other =
    let life = lifecycle_wnd_proc-IsLifecycle os hwnd msg wp lp t in
    elim (Option-cases (on_message sys lib hwnd msg wp lp s).0) [
      | inl left ↦ inr (other, rw (left, left_over) refl, rw (left, left_over) (inr (refl, life)))
      | inr (a, taken) ↦
          inr (other, rw (taken, left_over) refl, rw (taken, left_over) (inl (refl, refl)))
    ]

-- With a desktop, the message 0x8049 to the bridge's window shows the keys and returns 0. Any other
-- goes to the desktop, whose answer is returned if it has one, with no call besides. What the
-- desktop leaves, and each message before there is one, is handled so: an end of the session is
-- agreed to; when the session ends or the window is destroyed, the loop of messages is asked to
-- end; a request to close destroys the window; and Windows answers all else. A sound desktop stays
-- sound.
pub wnd_proc-step :
    (os : Os) (sys : System) (lib : Library) (hwnd msg wp lp font : ℕ) (s : Screen) (t : Trace)
    → IsSound none font s
    → let (r, site) = wnd_proc os sys lib hwnd msg wp lp (record { screen = some s; trace = t }) in
      let (early, bare) =
        wnd_proc os sys lib hwnd msg wp lp (record { screen = none; trace = t }) in
      IsHandled os sys lib hwnd msg wp lp s t r site
      × ((next : Screen) × (site.screen ≡ some next) × IsSound none font next)
      × (bare.screen ≡ none)
      × IsLifecycle os hwnd msg wp lp t early bare.trace
unfolding wnd_proc on_screen left_over step
wnd_proc-step os sys lib hwnd msg wp lp font s t h =
    let (r, site) = wnd_proc os sys lib hwnd msg wp lp (record { screen = some s; trace = t }) in
    let handled : IsHandled os sys lib hwnd msg wp lp s t r site =
      elim (Bool-cases (msg == show_keys_message)) [
        | inl shows ↦
            inl (ground (arith, shows), rw (shows, wnd_proc) refl, rw (shows, wnd_proc) refl)
        | inr other ↦
            rw (other, wnd_proc)
              (on_message-IsHandled os sys lib hwnd msg wp lp s t (ground (arith, other)))
      ] in
    let sound : (next : Screen) × (site.screen ≡ some next) × IsSound none font next =
      elim handled [
        | inl (shows, zero_r, same) ↦ (
          step sys lib shows_keys s,
          ap (λ x. x.screen) same,
          step-IsSound sys lib shows_keys s h,
        )
        | inr (other, same, rest) ↦
            let next = step sys lib (message hwnd msg wp lp) s in
            (next, same, step-IsSound sys lib (message hwnd msg wp lp) s h)
      ] in
    (handled, sound, refl, lifecycle_wnd_proc-IsLifecycle os hwnd msg wp lp t)
