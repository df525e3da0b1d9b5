-- ===== src/Runtime/Ends.antt =====
-- `Run` gives back what it takes, in the reverse order.
use winssh_pageant.Common.{
  ℕ, ◌≡◌, ◌⊎◌, inl, inr, ◌∙◌, true, Option, none, some, List, ◌∷◌, ◌==◌, if◌then◌else◌, arith,
  Bytes, Bool-cases,
}
use winssh_pageant.Common.Options.{some_inj}
use winssh_pageant.Common.Acts.{pure, when}
use winssh_pageant.Host.{
  Os, Trace, ask, tell, window_process, open_process, find_window, fix_console, lock_thread,
  unlock_thread, security_descriptor, create_mutex, close_mutex, listen, close_connections,
  make_desktop, close_desktop, start_ipc, stop_ipc, start_proxy, show_keys,
}
use winssh_pageant.Host.Security.{get_user_sid, copy_valid_sid}
use winssh_pageant.Control.{
  match_token, match_path, path_seen, own_path_seen, own_user_seen, user_seen, settle,
  match_process, matching_process, ask_to_show, show_running_keys, control_class, wnd_class,
}
use winssh_pageant.Runtime.{
  running, Setting, make_window, cleanup, serve, with_ipc, with_desktop, in_window, with_window,
  with_connections, with_listener, first_instance, second_instance, with_error, with_mutex,
  with_sid, locked, with_defaults, run,
}
use winssh_pageant.Runtime.Nested.{
  Resource, thread, listener, class, desktop, ipc, mutex, window, held, IsNested, deferred-held,
  message_loop-held, cleanup-held, make_window-held,
}

module _ (os : Os) where
  get_user_sid-held : (t : Trace) → held (get_user_sid os t).1 ≡ held t
  unfolding get_user_sid copy_valid_sid ask pure held
  get_user_sid-held t = ground arith

  match_token-held : (g : ℕ) (t : Trace) → held (match_token os g t).1 ≡ held t
  unfolding match_token user_seen own_user_seen get_user_sid copy_valid_sid match_path path_seen
      own_path_seen ask tell pure held
  match_token-held g t = ground arith

  matching_process-held : (hwnd : ℕ) (t : Trace) → held (matching_process os hwnd t).1 ≡ held t
  unfolding matching_process match_process settle ask tell pure held
  matching_process-held hwnd t =
      let (a, t1) = ask os (window_process hwnd) t in
      let (process, t2) = ask os (open_process true a.number) t1 in
      ground (arith, match_token-held process.number t2)

  show_running_keys-held : (t : Trace) → held (show_running_keys os t).1 ≡ held t
  unfolding show_running_keys ask_to_show ask tell pure held
  show_running_keys-held t =
      let (found, t1) = ask os (find_window control_class) t in
      ground (arith, matching_process-held found.number t1)

module _ (os : Os) (p : Setting) (fuel : ℕ) where
  serve-IsNested : IsNested (serve os p fuel)
  unfolding serve tell pure held
  serve-IsNested = record {
    restored = λ t xs h.
        let t1 = (when p.pageant_pipe (tell os start_proxy) t).1 in
        let t2 = (when p.show_on_start (tell os show_keys) t1).1 in
        let same : held t2 ≡ held t = ground arith in
        inr (message_loop-held os fuel t2 ∙ (same ∙ h));
  }

  with_ipc-IsNested : IsNested (with_ipc os p fuel)
  unfolding with_ipc ask tell pure held
  with_ipc-IsNested = record {
    restored = λ t xs h.
        let (ready, t1) = ask os start_ipc t in
        let h1 : held t1 ≡ some (ipc ∷ xs) = ground (arith, h) in
        let nested =
          deferred-held (tell os stop_ipc) (serve os p fuel) t1 (ipc ∷ xs) xs h1 serve-IsNested
            (λ u b. ground (arith, b)) in
        ground (arith, h, nested);
  }

  with_desktop-IsNested : (hwnd : ℕ) → IsNested (with_desktop os p fuel hwnd)
  unfolding with_desktop ask tell pure held
  with_desktop-IsNested hwnd = record {
    restored = λ t xs h.
        let (made, t1) = ask os (make_desktop hwnd p.agent_pipe) t in
        elim (Bool-cases (made.number == 0)) [
          | inl failed ↦ ground (arith, h, failed)
          | inr there ↦
              let h1 : held t1 ≡ some (desktop ∷ xs) = ground (arith, h, there) in
              let nested =
                deferred-held (tell os close_desktop) (with_ipc os p fuel) t1 (desktop ∷ xs) xs h1
                  with_ipc-IsNested (λ u b. ground (arith, b)) in
              ground (arith, there, nested)
        ];
  }

  in_window-restored :
      (made : Option ℕ) (t : Trace) (xs : List Resource)
      → ((made ≡ none) × (held t ≡ some xs))
        ⊎ ((hwnd : ℕ) × (made ≡ some hwnd) × (held t ≡ some (window hwnd ∷ class ∷ xs)))
      → ((in_window os p fuel made t).0 ≡ running) ⊎ (held (in_window os p fuel made t).1 ≡ some xs)
  unfolding in_window pure
  in_window-restored none t xs (inl (e, h)) = inr h
  in_window-restored none t xs (inr (hwnd, e, h)) = cc
  in_window-restored (some g) t xs (inl (e, h)) = cc
  in_window-restored (some g) t xs (inr (hwnd, e, h)) =
      let same : g ≡ hwnd = some_inj g hwnd e in
      deferred-held (cleanup os control_class g) (with_desktop os p fuel g) t
        (window hwnd ∷ class ∷ xs) xs h (with_desktop-IsNested g)
        (λ u b. cleanup-held os control_class g xs u (rw same b))

  with_window-IsNested : IsNested (with_window os p fuel)
  unfolding with_window
  with_window-IsNested = record {
    restored = λ t xs h.
        let (made, t1) = make_window os control_class t in
        in_window-restored made t1 xs (make_window-held os control_class t xs h);
  }

  with_connections-restored :
      (t : Trace) (xs : List Resource)
      → held t ≡ some (if p.pageant_pipe then listener ∷ xs else xs)
      → ((with_connections os p fuel t).0 ≡ running)
        ⊎ (held (with_connections os p fuel t).1 ≡ some xs)
  unfolding with_connections tell held
  with_connections-restored t xs h =
      deferred-held (tell os (close_connections p.pageant_pipe)) (with_window os p fuel) t
        (if p.pageant_pipe then listener ∷ xs else xs) xs h with_window-IsNested
        (λ u b. ground (arith, b))

  with_listener-IsNested : IsNested (with_listener os p fuel)
  unfolding with_listener ask pure held
  with_listener-IsNested = record {
    restored = λ t xs h.
        let (l, t1) = ask os listen t in
        ground (arith, h, with_connections-restored t xs, with_connections-restored t1 xs);
  }

  first_instance-IsNested : IsNested (first_instance os p fuel)
  unfolding first_instance ask pure held
  first_instance-IsNested = record {
    restored = λ t xs h.
        let (found, t1) = ask os (find_window wnd_class) t in
        let h1 : held t1 ≡ some xs = h in
        ground (arith, h1, with_listener-IsNested.restored t1 xs h1);
  }

  second_instance-IsNested : IsNested (second_instance os p fuel)
  unfolding second_instance pure
  second_instance-IsNested = record {
    restored = λ t xs h. ground (arith, h, show_running_keys-held os t);
  }

  with_error-IsNested : (code : ℕ) → IsNested (with_error os p fuel code)
  unfolding with_error pure
  with_error-IsNested code = record {
    restored = λ t xs h. ground (
      arith,
      h,
      second_instance-IsNested.restored t xs h,
      first_instance-IsNested.restored t xs h,
    );
  }

  with_mutex-IsNested : (sid : Bytes) → IsNested (with_mutex os p fuel sid)
  unfolding with_mutex ask tell held
  with_mutex-IsNested sid = record {
    restored = λ t xs h.
        let (m, t1) = ask os (create_mutex sid) t in
        elim (Bool-cases (m.number == 0)) [
          | inl failed ↦
              let h1 : held t1 ≡ some xs = ground (arith, h, failed) in
              ground (arith, failed, (with_error-IsNested m.size).restored t1 xs h1)
          | inr there ↦
              let h1 : held t1 ≡ some (mutex m.number ∷ xs) = ground (arith, h, there) in
              let nested =
                deferred-held (tell os (close_mutex m.number)) (with_error os p fuel m.size) t1
                  (mutex m.number ∷ xs) xs h1 (with_error-IsNested m.size)
                  (λ u b. ground (arith, b)) in
              ground (arith, there, nested)
        ];
  }

  with_sid-IsNested : (sid : Option Bytes) → IsNested (with_sid os p fuel sid)
  unfolding with_sid ask pure held
  with_sid-IsNested none = record { restored = λ t xs h. inr h }
  with_sid-IsNested (some sid) = record {
    restored = λ t xs h.
        let (d, t1) = ask os (security_descriptor sid) t in
        let h1 : held t1 ≡ some xs = h in
        ground (arith, h1, (with_mutex-IsNested sid).restored t1 xs h1);
  }

  locked-IsNested : IsNested (locked os p fuel)
  unfolding locked
  locked-IsNested = record {
    restored = λ t xs h.
        let (sid, t1) = get_user_sid os t in
        (with_sid-IsNested sid).restored t1 xs (get_user_sid-held os t ∙ h);
  }

-- Behind calls that have given back nothing out of order, each run that ends, whether with an error
-- or not, has given back what it took: the thread, the mutex, the listener, the window class, the
-- window, the desktop and the other thread, each once, each only if it was taken, and in the
-- reverse order.
pub run-held :
    (os : Os) (p : Setting) (fuel : ℕ) (t : Trace) (xs : List Resource)
    → held t ≡ some xs
    → ((run os p fuel t).0 ≡ running) ⊎ (held (run os p fuel t).1 ≡ some xs)
unfolding run tell held
run-held os p fuel t xs h =
    let t1 = (tell os lock_thread (tell os fix_console t).1).1 in
    let h1 : held t1 ≡ some (thread ∷ xs) = ground (arith, h) in
    deferred-held (tell os unlock_thread) (locked os (with_defaults p) fuel) t1 (thread ∷ xs) xs h1
      (locked-IsNested os (with_defaults p) fuel) (λ u b. ground (arith, b))
