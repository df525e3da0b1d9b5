-- ===== src/Host.antt =====
-- The calls of Windows outside the desktop, in the order they are made, and the handles they open.
-- What Windows answers is a function of the calls made so far and their answers.
pub mod Security
pub mod Handles
pub mod Console
use winssh_pageant.Common.{
  ℕ, ◌+◌, Bool, true, false, not, ◌&&◌, Option, none, some, List, [], ◌∷◌, ◌==◌, if◌then◌else◌,
  Bytes,
}
use winssh_pageant.Common.Acts.{Act, ◌>>=◌, ◌>>◌, pure, gets}

-- Most are calls of Windows. A call of the program's own that is modelled elsewhere is one deed:
-- `GetUserSID` reads `own_user`, `listen` is `newPageantListener`, `make_desktop` and
-- `close_desktop` are `newDesktop` and `close`, `start_ipc` is `runIPCWindow` up to its report and
-- `stop_ipc` the end of its stop channel, `start_proxy` is `pipeProxy`, `show_keys` is `showKeys`,
-- `copy_data` is `handleCopyData`, and `close_mutex` is the CloseHandle of the mutex.
pub data Deed : Type 0 where
  find_window : Bytes → Deed
  window_process : ℕ → Deed
  open_process : Bool → ℕ → Deed
  open_token : ℕ → Deed
  token_user : ℕ → Deed
  own_user : Deed
  copy_sid : Bytes → Deed
  security_info : ℕ → Deed
  owner : Deed
  close_token close_handle : ℕ → Deed
  image_name : ℕ → Deed
  own_path : Deed
  post_message : ℕ → ℕ → Deed
  wait : ℕ → ℕ → Deed
  message_box : Bytes → Deed
  pipe_process : Deed
  open_thread : ℕ → Deed
  thread_process : ℕ → Deed
  process_times : ℕ → Deed
  find_query : Deed
  query_size : ℕ → Deed
  query_line : ℕ → ℕ → Deed
  open_sessions : Deed
  session_names : ℕ → Deed
  open_session : ℕ → Bytes → Deed
  string_value : ℕ → Bytes → Deed
  number_value : ℕ → Bytes → Deed
  close_key : ℕ → Deed
  std_handle : Bool → Deed
  attach : Deed
  fix_console lock_thread unlock_thread : Deed
  security_descriptor create_mutex : Bytes → Deed
  close_mutex : ℕ → Deed
  listen : Deed
  close_connections : Bool → Deed
  register_class unregister_class create_window : Bytes → Deed
  destroy_window : ℕ → Deed
  make_desktop : ℕ → Bytes → Deed
  close_desktop start_ipc stop_ipc start_proxy show_keys : Deed
  get_message dialog_message translate dispatch : Deed
  post_quit print_version current_user : Deed
  protect_memory : Bytes → Deed
  listen_pipe : Bytes → Bytes → Deed
  default_proc : ℕ → ℕ → ℕ → ℕ → Deed
  copy_data : ℕ → Deed
  report_ready : Bool → Deed
  watch_stop end_watch : Deed
  table_size : ℕ → Deed
  table_rows : ℕ → ℕ → Deed

-- What a call returns and what it writes behind its pointers. A handle, or a success, is not 0;
-- a token is known by the answer of the call that opened it. No text is a failure.
pub record Answer : Type 0 where
  pub number : ℕ
  pub text : Option Bytes
  pub texts : List Bytes
  pub size : ℕ
  pub high : ℕ

abbrev pub Trace : Type 0
Trace = List (Deed × Answer)

-- Windows, and the functions of packages windows, strings and filepath that the source asks:
-- `IsValid` and `EqualSid` of identifiers, and `EqualFold` of two cleaned paths.
pub record Os : Type 0 where
  pub answer : Trace → Deed → Answer
  pub is_valid : Bytes → Bool
  pub same_sid : Bytes → Bytes → Bool
  pub same_path : Bytes → Bytes → Bool

abbrev pub Host : Type 0 → Type 0
Host A = Act Trace A

unfoldable pub ask : Os → Deed → Host Answer
ask os d t = let a = os.answer t d in (a, (d, a) ∷ t)

-- A call whose answer is not looked at.
unfoldable pub tell : Os → Deed → Host (Unit {0})
tell os d t = (tt, (d, os.answer t d) ∷ t)

-- How often a handle was opened, and closed. Keys of the registry and tokens are handles too.
abbrev pub opens : ℕ → Answer → ℕ
opens h a = if not (h == 0) && a.number == h then 1 else 0

abbrev pub closes : ℕ → ℕ → ℕ
closes h closed = if h == closed then 1 else 0

unfoldable pub opened : ℕ → Trace → ℕ
opened h [] = 0
opened h ((open_process waits pid, a) ∷ t) = opens h a + opened h t
opened h ((open_token process, a) ∷ t) = opens h a + opened h t
opened h ((open_thread id, a) ∷ t) = opens h a + opened h t
opened h ((open_sessions, a) ∷ t) = opens h a + opened h t
opened h ((open_session key name, a) ∷ t) = opens h a + opened h t
opened h (other ∷ t) = opened h t

unfoldable pub closed : ℕ → Trace → ℕ
closed h [] = 0
closed h ((close_handle g, a) ∷ t) = closes h g + closed h t
closed h ((close_token g, a) ∷ t) = closes h g + closed h t
closed h ((close_key g, a) ∷ t) = closes h g + closed h t
closed h (other ∷ t) = closed h t
