-- ===== src/Runtime/Nested.antt =====
-- What `Run` holds at a time: a reading of its calls as a stack.
use winssh_pageant.Common.{
  ℕ, zero, suc, ◌≡◌, ◌⊎◌, inl, inr, refl, true, Option, none, some, List, [], ◌∷◌, ◌==◌, ==_refl,
  if◌then◌else◌, arith, Bytes, Bool-cases,
}
use winssh_pageant.Common.Acts.{pure}
use winssh_pageant.Host.{
  Os, Host, Trace, Deed, ask, tell, lock_thread, unlock_thread, create_mutex, close_mutex, listen,
  close_connections, register_class, unregister_class, create_window, destroy_window, make_desktop,
  close_desktop, start_ipc, stop_ipc, get_message, dialog_message, translate, dispatch,
}
use winssh_pageant.Runtime.{
  Outcome, running, returned, last_call, deferred, make_window, cleanup, message_loop,
}

pub data Resource : Type 0 where
  thread listener class desktop ipc : Resource
  mutex window : ℕ → Resource

-- What is held, the latest first; no value if something else than the latest was given back.
abbrev pub Held : Type 0
Held = Option (List Resource)

abbrev pub take_up : Resource → ℕ → Held → Held
take_up x ok none = none
take_up x ok (some xs) = if ok == 0 then some xs else some (x ∷ xs)

abbrev pub give_up : Deed → Held → Held
give_up unlock_thread (some (thread ∷ xs)) = some xs
give_up (close_connections true) (some (listener ∷ xs)) = some xs
give_up (unregister_class c) (some (class ∷ xs)) = some xs
give_up close_desktop (some (desktop ∷ xs)) = some xs
give_up stop_ipc (some (ipc ∷ xs)) = some xs
give_up (close_mutex h) (some (mutex g ∷ xs)) = if h == g then some xs else none
give_up (destroy_window h) (some (window g ∷ xs)) = if h == g then some xs else none
give_up other held = none

-- A call of the program.
abbrev pub hold : Deed → ℕ → Held → Held
hold lock_thread ok held = take_up thread 1 held
hold (create_mutex sid) ok held = take_up (mutex ok) ok held
hold listen ok held = take_up listener ok held
hold (register_class c) ok held = take_up class ok held
hold (create_window c) ok held = take_up (window ok) ok held
hold (make_desktop hwnd pipe) ok held = take_up desktop ok held
hold start_ipc ok held = take_up ipc 1 held
hold unlock_thread ok held = give_up unlock_thread held
hold (close_connections true) ok held = give_up (close_connections true) held
hold (unregister_class c) ok held = give_up (unregister_class c) held
hold close_desktop ok held = give_up close_desktop held
hold stop_ipc ok held = give_up stop_ipc held
hold (close_mutex h) ok held = give_up (close_mutex h) held
hold (destroy_window h) ok held = give_up (destroy_window h) held
hold other ok held = held

unfoldable pub held : Trace → Held
held [] = some []
held ((d, a) ∷ t) = hold d a.number (held t)

-- What was held before is held behind the step, unless the step is in its loop for ever.
pub record IsNested (m : Host Outcome) : Type 0 where
  pub restored :
      (t : Trace) (xs : List Resource)
      → held t ≡ some xs
      → ((m t).0 ≡ running) ⊎ (held (m t).1 ≡ some xs)

last_call-held :
    (last : Host (Unit {0})) (r : Outcome) (t : Trace) (xs : List Resource)
    → held (last t).1 ≡ some xs
    → ((last_call last r t).0 ≡ running) ⊎ (held (last_call last r t).1 ≡ some xs)
unfolding last_call pure
last_call-held last running t xs back = inl refl
last_call-held last (returned r) t xs back = inr back

-- A body that gives back what it takes, and what its deferred call gives back.
pub deferred-held :
    (last : Host (Unit {0})) (body : Host Outcome) (t : Trace) (ys xs : List Resource)
    → held t ≡ some ys
    → IsNested body
    → ((u : Trace) → held u ≡ some ys → held (last u).1 ≡ some xs)
    → ((deferred last body t).0 ≡ running) ⊎ (held (deferred last body t).1 ≡ some xs)
unfolding deferred last_call pure
deferred-held last body t ys xs h nested undo =
    let (r, t1) = body t in
    elim (nested.restored t ys h) [
      | inl loops ↦ inl (still r loops)
      | inr back ↦ last_call-held last r t1 xs (undo t1 back)
    ]
  where
    still : (r : Outcome) → r ≡ running → (last_call last r (body t).1).0 ≡ running
    still running e = refl
    still (returned r) e = cc

module _ (os : Os) where
  pub message_loop-held : (fuel : ℕ) (t : Trace) → held (message_loop os fuel t).1 ≡ held t
  unfolding message_loop ask tell held
  message_loop-held zero t = refl
  message_loop-held (suc fuel) t =
      let (got, t1) = ask os get_message t in
      let (handled, t2) = ask os dialog_message t1 in
      let t3 = (tell os dispatch (tell os translate t2).1).1 in
      ground (arith, message_loop-held fuel t2, message_loop-held fuel t3)

  pub cleanup-held :
      (c : Bytes) (hwnd : ℕ) (xs : List Resource) (u : Trace)
      → held u ≡ some (window hwnd ∷ class ∷ xs)
      → held (cleanup os c hwnd u).1 ≡ some xs
  unfolding cleanup tell held
  cleanup-held c hwnd xs u h = ground (arith, ==_refl hwnd)

  pub make_window-held :
      (c : Bytes) (t : Trace) (xs : List Resource)
      → held t ≡ some xs
      → (((make_window os c t).0 ≡ none) × (held (make_window os c t).1 ≡ some xs))
        ⊎ ((hwnd : ℕ) × ((make_window os c t).0 ≡ some hwnd)
            × (held (make_window os c t).1 ≡ some (window hwnd ∷ class ∷ xs)))
  unfolding make_window ask tell pure held
  make_window-held c t xs h =
      let (registered, t1) = ask os (register_class c) t in
      let (made, t2) = ask os (create_window c) t1 in
      elim (Bool-cases (registered.number == 0)) [
        | inl failed ↦ inl (rw (failed, make_window) refl, ground (arith, failed))
        | inr there ↦ elim (Bool-cases (made.number == 0)) [
          | inl failed ↦ inl (rw (there, make_window, failed) refl, ground (arith, failed, there))
          | inr shown ↦
              inr (made.number, rw (there, make_window, shown) refl, ground (arith, there, shown))
        ]
      ]
