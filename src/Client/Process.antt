-- ===== src/Client/Process.antt =====
-- From a process to what is known of a client: `ownProcess`, `processStarted`,
-- `clientFromProcess`, `clientFromPipe` and `clientFromMapping` of pageant/client_windows.go.
pub mod Handles
pub mod Safe
use winssh_pageant.Common.{
  ℕ, zero, suc, ◌+◌, ◌-◌, ◌*◌, ◌%◌, Bool, true, false, not, ◌&&◌, ◌||◌, Option, none, some, List,
  [], ◌∷◌, ltb, leb, ◌==◌, if◌then◌else◌, Bytes, codes, bytes_eq, has_prefix, length, drop,
}
use winssh_pageant.Common.Acts.{◌>>=◌, ◌>>◌, pure}
use winssh_pageant.Text.Case.{to_lower}
use winssh_pageant.Client.{ConnectionTarget, ClientInfo, no_target}
use winssh_pageant.Client.CommandLine.{process_command_line}
use winssh_pageant.Client.Target.{is_empty}
use winssh_pageant.Client.Arguments.{parse_client_target}
use winssh_pageant.Client.Session.{Packages, resolve_putty_session}
use winssh_pageant.Host.{
  Os, Host, Deed, Answer, ask, tell, open_process, open_token, token_user, close_token,
  close_handle, image_name, process_times, open_thread, thread_process, pipe_process,
}
use winssh_pageant.Host.Security.{get_user_sid}

abbrev pub no_client : ClientInfo
no_client = record { pid = 0; name = []; inferred = false; started = 0; target = no_target }

abbrev pub both_same : (Bytes → Bytes → Bool) → Option Bytes → Option Bytes → Bool
both_same same (some user) (some ours) = same user ours
both_same same user ours = false

-- The bytes of `PageantRequest`.
abbrev pub prefix : Bytes
prefix = codes "PageantRequest"

-- A hexadecimal digit.
unfoldable pub hex_digit : ℕ → Option ℕ
hex_digit b =
    if leb b'0' b && leb b b'9'
    then some (b - b'0')
    else if leb b'a' b && leb b b'f'
    then some (b - b'a' + 10)
    else if leb b'A' b && leb b b'F'
    then some (b - b'A' + 10)
    else none

-- The test of each digit and `strconv.ParseUint`; 8 digits fit in 32 bits.
unfoldable pub hex_number : ℕ → Bytes → Option ℕ
hex_number n [] = some n
hex_number n (b ∷ bs) = elim (hex_digit b) [ none ↦ none | some d ↦ hex_number (16 * n + d) bs ]

unfoldable pub thread_of : Bytes → Option ℕ
thread_of name =
    if not (has_prefix prefix name) || not (length name == length prefix + 8)
    then none
    else hex_number 0 (drop (length prefix) name)

module _ (os : Os) where
  -- From the token on.
  unfoldable pub check_owner : ℕ → ℕ → Host (Option ℕ)
  check_owner process token = do
    user ← ask os (token_user token)
    ours ← get_user_sid os
    if both_same os.same_sid user.text ours
        then pure (some process)
        else (do tell os (close_handle process); pure none)

  unfoldable pub check_token : ℕ → Host (Option ℕ)
  unfolding check_owner
  check_token process = do
    token ← ask os (open_token process)
    if token.number == 0
        then (do tell os (close_handle process); pure none)
        else (do r ← check_owner process token.number; tell os (close_token token.number); pure r)

  -- `ownProcess`
  unfoldable pub own_process : ℕ → Host (Option ℕ)
  unfolding check_token
  own_process pid = if pid == 0 then pure none else (do
    process ← ask os (open_process false pid)
    if process.number == 0 then pure none else check_token process.number)

  -- The time of the start, from its two halves.
  unfoldable pub process_started : ℕ → Host ℕ
  process_started process = do
    a ← ask os (process_times process)
    pure (if a.number == 0 then 0 else a.high % 0x100000000 * 0x100000000 + a.size % 0x100000000)

module _ (os : Os) (pk : Packages) where
  abbrev pub is_known : Bytes → Bool
  is_known name =
      let lower = to_lower pk.library name in
      bytes_eq lower (codes "putty.exe")
      || bytes_eq lower (codes "plink.exe")
      || bytes_eq lower (codes "tortoisegitplink.exe")
      || bytes_eq lower (codes "ssh.exe")

  -- Behind `DecomposeCommandLine`; the first argument is the program.
  unfoldable pub target_of : Bytes → Option (List Bytes) → ConnectionTarget
  target_of name (some (program ∷ arg ∷ args)) =
      parse_client_target pk.library pk.parsers pk.equal_fold name (arg ∷ args)
  target_of name _ = no_target

  unfoldable pub find_target : Bytes → ℕ → Host ConnectionTarget
  unfolding target_of
  find_target name process = do
    line ← process_command_line os process
    if is_empty line
        then pure no_target
        else if is_empty (target_of name (pk.decompose line)).session
        then pure (target_of name (pk.decompose line))
        else resolve_putty_session os pk (target_of name (pk.decompose line))

  unfoldable pub known_target : Bytes → ℕ → Host ConnectionTarget
  unfolding find_target
  known_target name process = if is_known name then find_target name process else pure no_target

  unfoldable pub named_client : ℕ → ℕ → Bytes → Host ClientInfo
  unfolding known_target
  named_client pid process name = do
    started ← process_started os process
    target ← known_target name process
    pure (record { pid = pid; name = name; inferred = false; started = started; target = target })

  unfoldable pub image_client : ℕ → ℕ → ℕ → Option Bytes → Host ClientInfo
  unfolding named_client
  image_client pid process size none = pure no_client
  image_client pid process size (some path) =
      if size == 0 then pure no_client else named_client pid process (pk.base path)

  unfoldable pub describe : ℕ → ℕ → Host ClientInfo
  unfolding image_client
  describe pid process = do a ← ask os (image_name process); image_client pid process a.size a.text

  unfoldable pub owned_client : ℕ → Option ℕ → Host ClientInfo
  unfolding describe
  owned_client pid none = pure no_client
  owned_client pid (some process) = do
    client ← describe pid process
    tell os (close_handle process)
    pure client

  -- `clientFromProcess`
  unfoldable pub client_from_process : ℕ → Host ClientInfo
  unfolding owned_client
  client_from_process pid = do r ← own_process os pid; owned_client pid r

  -- `clientFromPipe`; the argument says whether the connection has a descriptor.
  unfoldable pub client_from_pipe : Bool → Host ClientInfo
  client_from_pipe false = pure no_client
  client_from_pipe true = do
    a ← ask os pipe_process
    if a.number == 0 then pure no_client else client_from_process (a.size % 0x100000000)

  unfoldable pub client_of_thread : ℕ → Host ClientInfo
  client_of_thread thread = do
    a ← ask os (thread_process thread)
    client ← client_from_process (a.number % 0x100000000)
    tell os (close_handle thread)
    pure (record client { inferred = true })

  unfoldable pub client_from_thread : Option ℕ → Host ClientInfo
  unfolding client_of_thread
  client_from_thread none = pure no_client
  client_from_thread (some tid) = if tid == 0 then pure no_client else (do
    thread ← ask os (open_thread tid)
    if thread.number == 0 then pure no_client else client_of_thread thread.number)

  -- `clientFromMapping`
  unfoldable pub client_from_mapping : Bytes → Host ClientInfo
  unfolding client_from_thread
  client_from_mapping name = client_from_thread (thread_of name)
