-- ===== src/Control/Ends.antt =====
-- `matchingProcess`, `ExitRunning` and `ShowRunningKeys` as a whole.
use winssh_pageant.Common.{
  ℕ, suc, ◌+◌, ◌≡◌, refl, true, Option, none, some, List, [], ◌∷◌, ◌≢◌, ◌⊎◌, arith, Bytes, inl, inr,
  Bool-cases, ◌==◌,
}
use winssh_pageant.Common.Acts.{Keeps, pure}
use winssh_pageant.Host.{
  find_window, window_process, open_process, post_message, close_handle, wait, Host, Os, Trace, ask,
  tell, opened, closed,
}
use winssh_pageant.Host.Handles.{IsOpen, handed}
use winssh_pageant.Host.Security.{get_user_sid, copy_valid_sid}
use winssh_pageant.Control.{
  ExitError, Match, match_token, match_path, path_seen, own_path_seen, own_user_seen, user_seen,
  settle, match_process, matching_process, wait_for, stop, try_stop, try_class, or_else,
  try_classes, exit_running, ask_to_show, show_running_keys, control_class, wnd_class, wm_close,
  show_keys_message,
}
use winssh_pageant.Control.Safe.{
  IsMatched, process_of, handle_of, match_token-IsVerdict, matching_process-IsOpen, stop-IsOpen,
}

-- How many messages were posted, the last of them with its window, and the window found last.
abbrev pub posts : Trace → ℕ
posts [] = 0
posts ((post_message hwnd message, a) ∷ t) = suc (posts t)
posts (other ∷ t) = posts t

abbrev pub last_post : Trace → Option (ℕ × ℕ)
last_post [] = none
last_post ((post_message hwnd message, a) ∷ t) = some (hwnd, message)
last_post (other ∷ t) = last_post t

abbrev pub window_found : Trace → ℕ
window_found [] = 0
window_found ((find_window name, a) ∷ t) = a.number
window_found (other ∷ t) = window_found t

-- Nothing is posted; a handle is only returned of a matched process.
record IsChecked (os : Os) (n hwnd : ℕ) (r : Match) (t : Trace) : Type 0 where
  silent : posts t ≡ n
  verdict : (r ≡ none) ⊎ ((r ≡ some 0) ⊎ IsMatched os hwnd t)
  still : window_found t ≡ hwnd

-- One message at most is posted, which is this one, and only to the window found last, whose
-- process is matched.
pub record IsPolite (os : Os) (message n : ℕ) (t : Trace) : Type 0 where
  pub polite :
      (posts t ≡ n)
      ⊎ ((posts t ≡ suc n)
          × (last_post t ≡ some (window_found t, message))
          × IsMatched os (window_found t) t)

module _ (os : Os) (n : ℕ) where
  match_token-keeps :
      (g hwnd pid : ℕ) (t : Trace)
      → (posts (match_token os g t).1 ≡ posts t)
        × (window_found (match_token os g t).1 ≡ window_found t)
        × (process_of hwnd (match_token os g t).1 ≡ process_of hwnd t)
        × (handle_of pid (match_token os g t).1 ≡ handle_of pid t)
  unfolding match_token user_seen own_user_seen get_user_sid copy_valid_sid match_path path_seen
      own_path_seen ask tell pure
  match_token-keeps g hwnd pid t = (ground arith, ground arith, ground arith, ground arith)

  matching_process-IsChecked :
      (hwnd : ℕ) (t : Trace)
      → posts t ≡ n
      → window_found t ≡ hwnd
      → IsChecked os n hwnd (matching_process os hwnd t).0 (matching_process os hwnd t).1
  unfolding matching_process match_process settle ask tell pure
  matching_process-IsChecked hwnd t h found =
      let (a, t1) = ask os (window_process hwnd) t in
      let (process, t2) = ask os (open_process true a.number) t1 in
      let its : process_of hwnd t2 ≡ a.number = ground arith in
      let held : handle_of a.number t2 ≡ process.number = ground arith in
      ground (
        arith,
        its,
        held,
        match_token-keeps process.number hwnd a.number t2,
        match_token-IsVerdict os process.number t2,
      )

  stop-trace :
      (hwnd g : ℕ) (t : Trace)
      → let t1 = (ask os (post_message hwnd wm_close) t).1 in
        ((stop os hwnd g t).1 ≡ (tell os (close_handle g) t1).1)
        ⊎ ((stop os hwnd g t).1 ≡ (tell os (close_handle g) (ask os (wait g 10000) t1).1).1)
  unfolding stop wait_for ask tell pure
  stop-trace hwnd g t = ground arith

  stop-IsPolite :
      (hwnd g : ℕ) (t : Trace)
      → posts t ≡ n
      → window_found t ≡ hwnd
      → IsMatched os hwnd t
      → IsPolite os wm_close n (stop os hwnd g t).1
  unfolding ask tell
  stop-IsPolite hwnd g t silent found matched =
      let posted : suc (posts t) ≡ suc n = rw silent refl in
      let last : some (hwnd, wm_close) ≡ some (window_found t, wm_close) = rw found refl in
      let its : IsMatched os (window_found t) t = rw found matched in
      elim (stop-trace hwnd g t) [
        | inl failed ↦ rw failed (record { polite = inr (posted, last, its) })
        | inr waited ↦ rw waited (record { polite = inr (posted, last, its) })
      ]

  try_stop-IsPolite :
      (hwnd : ℕ) (r : Match) (t : Trace)
      → IsChecked os n hwnd r t
      → IsPolite os wm_close n (try_stop os hwnd r t).1
        × (((try_stop os hwnd r t).0 ≢ none) ⊎ (posts (try_stop os hwnd r t).1 ≡ n))
  unfolding try_stop pure
  try_stop-IsPolite hwnd none t h = (record { polite = inl h.silent }, inl λ e. cc)
  try_stop-IsPolite hwnd (some g) t h = elim (Bool-cases (g == 0)) [
    | inl other ↦ rw (other, try_stop) (record { polite = inl h.silent }, inr h.silent)
    | inr there ↦
        let matched : IsMatched os hwnd t = elim h.verdict [
          | inl e ↦ absurd cc
          | inr (inl e) ↦ absurd (ground (arith, e, there))
          | inr (inr m) ↦ m
        ] in
        rw (there, try_stop) (stop-IsPolite hwnd g t h.silent h.still matched, inl λ e. cc)
  ]

  try_class-IsPolite :
      (name : Bytes) (t : Trace)
      → posts t ≡ n
      → IsPolite os wm_close n (try_class os name t).1
        × (((try_class os name t).0 ≢ none) ⊎ (posts (try_class os name t).1 ≡ n))
  unfolding try_class ask pure
  try_class-IsPolite name t h =
      let (found, t1) = ask os (find_window name) t in
      let (r, t2) = matching_process os found.number t1 in
      ground (
        arith,
        matching_process-IsChecked found.number t1 h refl,
        try_stop-IsPolite found.number r t2,
      )

  or_else-IsPolite :
      (later : Host (Option ExitError)) (r : Option (Option ExitError)) (t : Trace)
      → IsPolite os wm_close n t
      → (r ≢ none) ⊎ (posts t ≡ n)
      → (posts t ≡ n → IsPolite os wm_close n (later t).1)
      → IsPolite os wm_close n (or_else os later r t).1
  unfolding or_else pure
  or_else-IsPolite later none t h (inl some_r) next = absurd (some_r refl)
  or_else-IsPolite later none t h (inr silent) next = next silent
  or_else-IsPolite later (some r) t h goes next = h

  try_classes-IsPolite :
      (names : List Bytes) (t : Trace)
      → posts t ≡ n
      → IsPolite os wm_close n (try_classes os names t).1
  unfolding try_classes pure
  try_classes-IsPolite [] t h = record { polite = inl h }
  try_classes-IsPolite (name ∷ names) t h =
      let (r, t1) = try_class os name t in
      let (polite, goes) = try_class-IsPolite name t h in
      or_else-IsPolite (try_classes os names) r t1 polite goes (try_classes-IsPolite names t1)

  shown-IsPolite :
      (t : Trace) → posts t ≡ n → IsPolite os show_keys_message n (show_running_keys os t).1
  unfolding show_running_keys ask_to_show ask tell pure
  shown-IsPolite t h =
      let (found, t1) = ask os (find_window control_class) t in
      ground (arith, matching_process-IsChecked found.number t1 h refl)

module _ (os : Os) (h m n : ℕ) where
  try_stop-IsOpen :
      (hwnd : ℕ) (r : Match) (t : Trace)
      → IsOpen h m (n + handed h r) t
      → IsOpen h m n (try_stop os hwnd r t).1
  unfolding try_stop pure
  try_stop-IsOpen hwnd none t b = ground arith
  try_stop-IsOpen hwnd (some g) t b = ground (arith, stop-IsOpen os h m n hwnd g t)

  try_class-IsOpen : (name : Bytes) → Keeps (IsOpen h m n) (try_class os name)
  unfolding try_class ask pure opened closed
  try_class-IsOpen name = record {
    after = λ t b.
        let (found, t1) = ask os (find_window name) t in
        let b1 : IsOpen h m n t1 = ground arith in
        let (r, t2) = matching_process os found.number t1 in
        ground (
          arith,
          b1,
          try_stop-IsOpen found.number r t2 (matching_process-IsOpen os h m n found.number t1 b1),
        );
  }

  try_classes-IsOpen : (names : List Bytes) → Keeps (IsOpen h m n) (try_classes os names)
  unfolding try_classes or_else pure
  try_classes-IsOpen [] = record { after = λ t b. b }
  try_classes-IsOpen (name ∷ names) = record {
    after = λ t b.
        let t1 = (try_class os name t).1 in
        let b1 = (try_class-IsOpen name).after t b in
        ground (arith, b1, (try_classes-IsOpen names).after t1 b1);
  }

  ask_to_show-IsOpen :
      (hwnd : ℕ) (r : Match) (t : Trace)
      → IsOpen h m (n + handed h r) t
      → IsOpen h m n (ask_to_show os hwnd r t).1
  unfolding ask_to_show ask tell pure opened closed
  ask_to_show-IsOpen hwnd none t b = ground arith
  ask_to_show-IsOpen hwnd (some g) t b = ground arith

  show_running_keys-IsOpen : Keeps (IsOpen h m n) (show_running_keys os)
  unfolding show_running_keys ask pure opened closed
  show_running_keys-IsOpen = record {
    after = λ t b.
        let (found, t1) = ask os (find_window control_class) t in
        let b1 : IsOpen h m n t1 = ground arith in
        let (r, t2) = matching_process os found.number t1 in
        ground (
          arith,
          b1,
          ask_to_show-IsOpen found.number r t2
              (matching_process-IsOpen os h m n found.number t1 b1),
        );
  }

-- `ExitRunning` closes every handle that it opens, on every path. It posts one message at most,
-- WM_CLOSE, and only to the window that it found last; for the process of that window, the handle of
-- that process and the token of that handle the system calls named the same user and the same
-- program as for this process.
pub exit_running-IsPolite :
    (os : Os) (h : ℕ) (t : Trace)
    → IsPolite os wm_close (posts t) (exit_running os t).1
      × (opened h (exit_running os t).1 + closed h t ≡ closed h (exit_running os t).1 + opened h t)
unfolding exit_running
exit_running-IsPolite os h t =
    let classes = control_class ∷ wnd_class ∷ [] in
    let start : IsOpen h (closed h t) (opened h t) t = ground arith in
    (
      try_classes-IsPolite os (posts t) classes t refl,
      ((try_classes-IsOpen os h (closed h t) (opened h t) classes).after t start).balance,
    )

-- So does `ShowRunningKeys`, with its message in place of WM_CLOSE.
pub show_running_keys-IsPolite :
    (os : Os) (h : ℕ) (t : Trace)
    → IsPolite os show_keys_message (posts t) (show_running_keys os t).1
      × (opened h (show_running_keys os t).1 + closed h t
          ≡ closed h (show_running_keys os t).1 + opened h t)
show_running_keys-IsPolite os h t =
    let start : IsOpen h (closed h t) (opened h t) t = ground arith in
    (
      shown-IsPolite os (posts t) t refl,
      ((show_running_keys-IsOpen os h (closed h t) (opened h t)).after t start).balance,
    )
