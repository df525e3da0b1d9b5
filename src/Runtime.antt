-- ===== src/Runtime.antt =====
-- `Run` and the window that the bridge waits on: pageant/run_windows.go. The desktop, the
-- listener, the connections and the other thread are single calls here; they are modelled in
-- Desktop, Bridge.Pipe, Bridge.Clients and in `run_ipc_window`.
pub mod Names
pub mod Procs
pub mod Nested
pub mod Ends
pub mod Total
use winssh_pageant.Common.{
  ℕ, zero, suc, Bool, true, false, not, Option, none, some, ◌==◌, if◌then◌else◌, Bytes, [], ◌∷◌,
}
use winssh_pageant.Options.{HandlerName, default_handler, default_ssh_agent_pipe}
use winssh_pageant.Common.Acts.{Act, ◌>>=◌, ◌>>◌, pure, skip, when}
use winssh_pageant.Host.{
  Os, Host, Trace, Deed, Answer, ask, tell, find_window, fix_console, lock_thread, unlock_thread,
  security_descriptor, create_mutex, close_mutex, listen, close_connections, register_class,
  unregister_class, create_window, destroy_window, make_desktop, close_desktop, start_ipc, stop_ipc,
  start_proxy, show_keys, get_message, dialog_message, translate, dispatch, report_ready,
  watch_stop, end_watch,
}
use winssh_pageant.Host.Security.{get_user_sid}
use winssh_pageant.Control.{control_class, wnd_class, show_running_keys}

pub data RunError : Type 0 where
  no_sid no_descriptor not_shown other_installation single_instance other_agent : RunError
  no_pipe no_window no_desktop no_ipc no_message : RunError

-- A run that has read all its messages is still in its loop.
pub data Outcome : Type 0 where
  running : Outcome
  returned : Option RunError → Outcome

-- `ERROR_ALREADY_EXISTS`, and the -1 of `GetMessage`
abbrev pub already_exists : ℕ
already_exists = 183

abbrev pub minus_one : ℕ
minus_one = 0xffffffff

-- A deferred call runs when the body returns.
unfoldable pub last_call : Host (Unit {0}) → Outcome → Host Outcome
last_call last running = pure running
last_call last (returned r) = do last; pure (returned r)

unfoldable pub deferred : Host (Unit {0}) → Host Outcome → Host Outcome
unfolding last_call
deferred last body = do r ← body; last_call last r

-- `ShowKeysOnStart`, `pageantPipe`, `PageantRequestHandler`, which may be nil, and `SSHAgentPipe`
pub record Setting : Type 0 where
  pub show_on_start : Bool
  pub pageant_pipe : Bool
  pub handler : Option HandlerName
  pub agent_pipe : Bytes

unfoldable pub handler_or_default : Option HandlerName → HandlerName
handler_or_default none = default_handler
handler_or_default (some handler) = handler

unfoldable pub pipe_or_default : Bytes → Bytes
pipe_or_default [] = default_ssh_agent_pipe
pipe_or_default (b ∷ bs) = b ∷ bs

-- The first lines of `Run`.
unfoldable pub with_defaults : Setting → Setting
unfolding handler_or_default pipe_or_default
with_defaults p = record p {
  handler = some (handler_or_default p.handler);
  agent_pipe = pipe_or_default p.agent_pipe;
}

module _ (os : Os) where
  -- `createWindow`
  unfoldable pub make_window : Bytes → Host (Option ℕ)
  make_window class = do
    registered ← ask os (register_class class)
    if registered.number == 0 then pure none else (do
      made ← ask os (create_window class)
      if made.number == 0
          then (do tell os (unregister_class class); pure none)
          else pure (some made.number))

  -- The function that it returns.
  unfoldable pub cleanup : Bytes → ℕ → Host (Unit {0})
  cleanup class hwnd = do tell os (destroy_window hwnd); tell os (unregister_class class)

  -- With at most so many messages.
  unfoldable pub message_loop : ℕ → Host Outcome
  message_loop zero t = (running, t)
  message_loop (suc fuel) t =
      let (got, t1) = ask os get_message t in
      let (handled, t2) = ask os dialog_message t1 in
      let later = message_loop fuel t2 in
      let sent = message_loop fuel (tell os dispatch (tell os translate t2).1).1 in
      if got.number == minus_one
      then (returned (some no_message), t1)
      else if got.number == 0
      then (returned none, t1)
      else if handled.number == 0
      then sent
      else later

module _ (os : Os) (p : Setting) (fuel : ℕ) where
  unfoldable pub serve : Host Outcome
  serve = do
    when p.pageant_pipe (tell os start_proxy)
    when p.show_on_start (tell os show_keys)
    message_loop os fuel

  unfoldable pub with_ipc : Host Outcome
  unfolding serve
  with_ipc = do
    ready ← ask os start_ipc
    if ready.number == 0
        then (do tell os stop_ipc; pure (returned (some no_ipc)))
        else deferred (tell os stop_ipc) serve

  unfoldable pub with_desktop : ℕ → Host Outcome
  unfolding with_ipc
  with_desktop hwnd = do
    made ← ask os (make_desktop hwnd p.agent_pipe)
    if made.number == 0
        then pure (returned (some no_desktop))
        else deferred (tell os close_desktop) with_ipc

  unfoldable pub in_window : Option ℕ → Host Outcome
  unfolding with_desktop
  in_window none = pure (returned (some no_window))
  in_window (some hwnd) = deferred (cleanup os control_class hwnd) (with_desktop hwnd)

  unfoldable pub with_window : Host Outcome
  unfolding in_window
  with_window = do made ← make_window os control_class; in_window made

  unfoldable pub with_connections : Host Outcome
  unfolding with_window
  with_connections = deferred (tell os (close_connections p.pageant_pipe)) with_window

  unfoldable pub with_listener : Host Outcome
  unfolding with_connections
  with_listener =
      if p.pageant_pipe
      then (do
        l ← ask os listen
        if l.number == 0 then pure (returned (some no_pipe)) else with_connections)
      else with_connections

  unfoldable pub first_instance : Host Outcome
  unfolding with_listener
  first_instance = do
    found ← ask os (find_window wnd_class)
    if found.number == 0 then with_listener else pure (returned (some other_agent))

  -- `ShowRunningKeys` has answered.
  unfoldable pub shown_there : Option Bool → Outcome
  shown_there none = returned (some not_shown)
  shown_there (some true) = returned none
  shown_there (some false) = returned (some other_installation)

  unfoldable pub second_instance : Host Outcome
  unfolding shown_there
  second_instance =
      if p.show_on_start
      then (do shown ← show_running_keys os; pure (shown_there shown))
      else pure (returned none)

  -- The error of `CreateMutex`, 0 for nil.
  unfoldable pub with_error : ℕ → Host Outcome
  unfolding first_instance second_instance
  with_error code =
      if code == already_exists
      then second_instance
      else if not (code == 0)
      then pure (returned (some single_instance))
      else first_instance

  unfoldable pub with_mutex : Bytes → Host Outcome
  unfolding with_error
  with_mutex sid = do
    mutex ← ask os (create_mutex sid)
    if mutex.number == 0
        then with_error mutex.size
        else deferred (tell os (close_mutex mutex.number)) (with_error mutex.size)

  unfoldable pub with_sid : Option Bytes → Host Outcome
  unfolding with_mutex
  with_sid none = pure (returned (some no_sid))
  with_sid (some sid) = do
    descriptor ← ask os (security_descriptor sid)
    if descriptor.number == 0 then pure (returned (some no_descriptor)) else with_mutex sid

  unfoldable pub locked : Host Outcome
  unfolding with_sid
  locked = do sid ← get_user_sid os; with_sid sid

-- `Run`, with at most so many messages.
unfoldable pub run : Os → Setting → ℕ → Host Outcome
unfolding locked with_defaults
run os p fuel = do
  tell os fix_console
  tell os lock_thread
  deferred (tell os unlock_thread) (locked os (with_defaults p) fuel)
