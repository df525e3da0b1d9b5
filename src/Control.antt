-- ===== src/Control.antt =====
-- Control of a running bridge: pageant/control_windows.go.
pub mod Safe
pub mod Ends
use winssh_pageant.Common.{
  ℕ, ◌+◌, Bool, true, false, not, Option, none, some, List, [], ◌∷◌, ◌==◌, if◌then◌else◌, Bytes,
  codes,
}
use winssh_pageant.Common.Acts.{◌>>=◌, ◌>>◌, pure}
use winssh_pageant.Host.{
  Os, Host, Deed, Answer, ask, tell, find_window, window_process, open_process, open_token,
  token_user, close_token, close_handle, image_name, own_path, post_message, wait,
}
use winssh_pageant.Host.Security.{get_user_sid}

-- The names of the window classes, `showKeysMessage` and WM_CLOSE.
abbrev pub control_class : Bytes
control_class = codes "WinSSHPageantBridge"

abbrev pub wnd_class : Bytes
wnd_class = codes "Pageant"

abbrev pub show_keys_message : ℕ
show_keys_message = 0x8000 + 73

abbrev pub wm_close : ℕ
wm_close = 16

-- What `ExitRunning` returns in place of nil.
pub data ExitError : Type 0 where
  not_matched request_failed wait_failed : ExitError
  still_running : ℕ → ExitError

-- 0 if the process is not ours, and no value for an error.
abbrev pub Match : Type 0
Match = Option ℕ

module _ (os : Os) where
  unfoldable pub own_path_seen : ℕ → Bytes → Option Bytes → Host Match
  own_path_seen h path none = pure none
  own_path_seen h path (some exe) = pure (some (if os.same_path exe path then h else 0))

  unfoldable pub path_seen : ℕ → Option Bytes → Host Match
  unfolding own_path_seen
  path_seen h none = pure none
  path_seen h (some path) = do a ← ask os own_path; own_path_seen h path a.text

  unfoldable pub match_path : ℕ → Host Match
  unfolding path_seen
  match_path h = do a ← ask os (image_name h); path_seen h a.text

  unfoldable pub own_user_seen : ℕ → Bytes → Option Bytes → Host Match
  unfolding match_path
  own_user_seen h user none = pure none
  own_user_seen h user (some ours) = if os.same_sid user ours then match_path h else pure (some 0)

  unfoldable pub user_seen : ℕ → Option Bytes → Host Match
  unfolding own_user_seen
  user_seen h none = pure none
  user_seen h (some user) = do ours ← get_user_sid os; own_user_seen h user ours

  -- From the token on, which a deferred call closes.
  unfoldable pub match_token : ℕ → Host Match
  unfolding user_seen
  match_token h = do
    token ← ask os (open_token h)
    if token.number == 0 then pure none else (do
      a ← ask os (token_user token.number)
      r ← user_seen h a.text
      tell os (close_token token.number)
      pure r)

  -- The deferred call: the handle stays open only if it is returned.
  unfoldable pub settle : ℕ → Match → Host Match
  settle h none = do tell os (close_handle h); pure none
  settle h (some kept) =
      if kept == 0 then (do tell os (close_handle h); pure (some 0)) else pure (some kept)

  unfoldable pub match_process : ℕ → Host Match
  unfolding match_token settle
  match_process pid = do
    process ← ask os (open_process true pid)
    if process.number == 0
        then pure none
        else (do r ← match_token process.number; settle process.number r)

  -- `matchingProcess`
  unfoldable pub matching_process : ℕ → Host Match
  unfolding match_process
  matching_process hwnd = do
    a ← ask os (window_process hwnd)
    if a.number == 0 then pure (some 0) else match_process a.number

  -- The process has been asked to exit.
  unfoldable pub wait_for : ℕ → Host (Option ExitError)
  wait_for h = do
    status ← ask os (wait h 10000)
    tell os (close_handle h)
    if status.number == 0xffffffff
        then pure (some wait_failed)
        else if status.number == 0
        then pure none
        else pure (some (still_running status.number))

  unfoldable pub stop : ℕ → ℕ → Host (Option ExitError)
  unfolding wait_for
  stop hwnd h = do
    posted ← ask os (post_message hwnd wm_close)
    if posted.number == 0
        then (do tell os (close_handle h); pure (some request_failed))
        else wait_for h

  -- No value if the loop goes on to the next class.
  unfoldable pub try_stop : ℕ → Match → Host (Option (Option ExitError))
  unfolding stop
  try_stop hwnd none = pure (some (some not_matched))
  try_stop hwnd (some h) = if h == 0 then pure none else (do r ← stop hwnd h; pure (some r))

  unfoldable pub try_class : Bytes → Host (Option (Option ExitError))
  unfolding try_stop
  try_class name = do
    found ← ask os (find_window name)
    if found.number == 0
        then pure none
        else (do r ← matching_process found.number; try_stop found.number r)

  unfoldable pub or_else :
      Host (Option ExitError) → Option (Option ExitError) → Host (Option ExitError)
  or_else later none = later
  or_else later (some r) = pure r

  unfoldable pub try_classes : List Bytes → Host (Option ExitError)
  unfolding or_else try_class
  try_classes [] = pure none
  try_classes (name ∷ names) = do r ← try_class name; or_else (try_classes names) r

  -- `ExitRunning`
  unfoldable pub exit_running : Host (Option ExitError)
  unfolding try_classes
  exit_running = try_classes (control_class ∷ wnd_class ∷ [])

  unfoldable pub ask_to_show : ℕ → Match → Host (Option Bool)
  ask_to_show hwnd none = pure none
  ask_to_show hwnd (some h) = if h == 0 then pure (some false) else (do
    posted ← ask os (post_message hwnd show_keys_message)
    tell os (close_handle h)
    if posted.number == 0 then pure none else pure (some true))

  -- `ShowRunningKeys`; no value is an error.
  unfoldable pub show_running_keys : Host (Option Bool)
  unfolding ask_to_show
  show_running_keys = do
    found ← ask os (find_window control_class)
    if found.number == 0
        then pure (some false)
        else (do r ← matching_process found.number; ask_to_show found.number r)
