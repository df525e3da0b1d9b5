-- ===== src/Runtime/Total.antt =====
-- `Run` ends with the messages.
use winssh_pageant.Common.{
  ℕ, zero, suc, ◌+◌, ◌≤◌, ◌<◌, ◌≡◌, ◌≢◌, Option, none, some, [], ◌∷◌, arith, Bytes,
}
use winssh_pageant.Common.Acts.{pure, when}
use winssh_pageant.Host.{
  Os, Host, Trace, ask, tell, find_window, fix_console, lock_thread, unlock_thread,
  security_descriptor, create_mutex, close_mutex, listen, close_connections, make_desktop,
  close_desktop, start_ipc, stop_ipc, start_proxy, show_keys, get_message, dialog_message,
  translate, dispatch,
}
use winssh_pageant.Host.Security.{get_user_sid}
use winssh_pageant.Control.{control_class, wnd_class}
use winssh_pageant.Runtime.{
  Outcome, running, Setting, last_call, deferred, make_window, cleanup, message_loop, serve,
  with_ipc, with_desktop, in_window, with_window, with_connections, with_listener, first_instance,
  shown_there, second_instance, with_error, with_mutex, with_sid, locked, with_defaults, run,
}

-- How often a message was asked for.
abbrev pub messages : Trace → ℕ
messages [] = 0
messages ((get_message, a) ∷ t) = suc (messages t)
messages (other ∷ t) = messages t

record IsEnding (m : Host Outcome) : Type 0 where
  ends : (t : Trace) → (m t).0 ≢ running

deferred-IsEnding :
    (last : Host (Unit {0})) (body : Host Outcome) → IsEnding body → IsEnding (deferred last body)
unfolding deferred last_call pure
deferred-IsEnding last body h = record { ends = λ t. ground (arith, h.ends t) }

module _ (os : Os) (n : ℕ)
    (quits : (t : Trace) → n ≤ messages t → (os.answer t get_message).number ≡ 0) where
  message_loop-ends :
      (fuel : ℕ) (t : Trace)
      → fuel ≢ 0
      → n < messages t + fuel
      → (message_loop os fuel t).0 ≢ running
  unfolding message_loop ask tell
  message_loop-ends zero t some_left h = ground arith
  message_loop-ends (suc fuel) t some_left h =
      let (got, t1) = ask os get_message t in
      let (handled, t2) = ask os dialog_message t1 in
      let t3 = (tell os dispatch (tell os translate t2).1).1 in
      ground (arith, quits t, message_loop-ends fuel t2, message_loop-ends fuel t3)

  module _ (p : Setting) where
    serve-IsEnding : IsEnding (serve os p (suc n))
    unfolding serve
    serve-IsEnding = record {
      ends = λ t.
          let t1 = (when p.pageant_pipe (tell os start_proxy) t).1 in
          let t2 = (when p.show_on_start (tell os show_keys) t1).1 in
          message_loop-ends (suc n) t2 (omega arith) (omega arith);
    }

    with_ipc-IsEnding : IsEnding (with_ipc os p (suc n))
    unfolding with_ipc pure
    with_ipc-IsEnding = record {
      ends = λ t.
          let (ready, t1) = ask os start_ipc t in
          ground (arith, (deferred-IsEnding (tell os stop_ipc) _ serve-IsEnding).ends t1);
    }

    with_desktop-IsEnding : (hwnd : ℕ) → IsEnding (with_desktop os p (suc n) hwnd)
    unfolding with_desktop pure
    with_desktop-IsEnding hwnd = record {
      ends = λ t.
          let (made, t1) = ask os (make_desktop hwnd p.agent_pipe) t in
          ground (arith, (deferred-IsEnding (tell os close_desktop) _ with_ipc-IsEnding).ends t1);
    }

    in_window-IsEnding : (made : Option ℕ) → IsEnding (in_window os p (suc n) made)
    unfolding in_window pure
    in_window-IsEnding none = record { ends = λ t. ground arith }
    in_window-IsEnding (some hwnd) =
        deferred-IsEnding (cleanup os control_class hwnd) _ (with_desktop-IsEnding hwnd)

    with_connections-IsEnding : IsEnding (with_connections os p (suc n))
    unfolding with_connections with_window
    with_connections-IsEnding =
        deferred-IsEnding (tell os (close_connections p.pageant_pipe)) _ (record {
          ends = λ t.
              let (made, t1) = make_window os control_class t in (in_window-IsEnding made).ends t1;
        })

    first_instance-IsEnding : IsEnding (first_instance os p (suc n))
    unfolding first_instance with_listener pure
    first_instance-IsEnding = record {
      ends = λ t.
          let (found, t1) = ask os (find_window wnd_class) t in
          let (l, t2) = ask os listen t1 in
          ground (arith, with_connections-IsEnding.ends t1, with_connections-IsEnding.ends t2);
    }

    with_error-IsEnding : (code : ℕ) → IsEnding (with_error os p (suc n) code)
    unfolding with_error second_instance shown_there pure
    with_error-IsEnding code = record { ends = λ t. ground (arith, first_instance-IsEnding.ends t) }

    with_sid-IsEnding : (sid : Option Bytes) → IsEnding (with_sid os p (suc n) sid)
    unfolding with_sid with_mutex pure
    with_sid-IsEnding none = record { ends = λ t. ground arith }
    with_sid-IsEnding (some sid) = record {
      ends = λ t.
          let (d, t1) = ask os (security_descriptor sid) t in
          let (m, t2) = ask os (create_mutex sid) t1 in
          let body = with_error-IsEnding m.size in
          ground (
            arith,
            body.ends t2,
            (deferred-IsEnding (tell os (close_mutex m.number)) _ body).ends t2,
          );
    }

-- If the quit message comes after `n` messages at the latest, a run that may read `n + 1` returns.
pub run-ends :
    (os : Os) (p : Setting) (n : ℕ) (t : Trace)
    → ((u : Trace) → n ≤ messages u → (os.answer u get_message).number ≡ 0)
    → (run os p (suc n) t).0 ≢ running
unfolding run locked
run-ends os p n t quits =
    let t1 = (tell os lock_thread (tell os fix_console t).1).1 in
    let body : IsEnding (locked os (with_defaults p) (suc n)) = record {
      ends = λ u.
          let (sid, u1) = get_user_sid os u in
          (with_sid-IsEnding os n quits (with_defaults p) sid).ends u1;
    } in
    (deferred-IsEnding (tell os unlock_thread) (locked os (with_defaults p) (suc n)) body).ends t1
