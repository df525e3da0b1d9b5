-- ===== src/Client/Session.antt =====
-- `resolvePuttySession` of pageant/client_windows.go, over the registry.
use winssh_pageant.Common.{
  ℕ, Bool, false, not, ◌&&◌, Option, none, some, List, [], ◌∷◌, ltb, ◌==◌, if◌then◌else◌, Bytes,
  codes, bytes_eq,
}
use winssh_pageant.Common.Acts.{◌>>=◌, ◌>>◌, pure}
use winssh_pageant.Library.{Library}
use winssh_pageant.Client.{ConnectionTarget, no_target}
use winssh_pageant.Client.CommandLine.{or_empty}
use winssh_pageant.Client.Target.{Parsers, is_empty, safe_target_field, safe_host}
use winssh_pageant.Host.{
  Os, Host, ask, tell, open_sessions, session_names, open_session, string_value, number_value,
  close_key,
}

-- What the source takes from other packages to know a client: the functions of net and net/url,
-- `strings.EqualFold`, `url.PathUnescape`, `filepath.Base`, `windows.DecomposeCommandLine` and
-- `net.IP.String`.
pub record Packages : Type 0 where
  pub library : Library
  pub parsers : Parsers
  pub equal_fold : Bytes → Bytes → Bool
  pub path_unescape : Bytes → Option Bytes
  pub base : Bytes → Bytes
  pub decompose : Bytes → Option (List Bytes)
  pub show_ip : Bytes → Bytes

abbrev pub is_text : Bytes → Option Bytes → Bool
is_text s none = false
is_text s (some t) = bytes_eq t s

-- The error of `GetStringValue` lets every protocol pass.
abbrev pub other_protocol : Option Bytes → Bool
other_protocol none = false
other_protocol (some protocol) = not (bytes_eq protocol (codes "ssh"))

module _ (os : Os) (pk : Packages) where
  unfoldable pub stored_host : ℕ → ConnectionTarget → Host ConnectionTarget
  stored_host session t =
      if is_empty t.host
      then (do
        a ← ask os (string_value session (codes "HostName"))
        pure (record t { host = safe_host pk.library pk.parsers (or_empty a.text) }))
      else pure t

  unfoldable pub stored_user : ℕ → ConnectionTarget → Host ConnectionTarget
  stored_user session t =
      if is_empty t.user
      then (do
        a ← ask os (string_value session (codes "UserName"))
        pure (record t { user = safe_target_field pk.library (or_empty a.text) }))
      else pure t

  -- A value of 0 is the failure of `GetIntegerValue`.
  unfoldable pub stored_port : ℕ → ConnectionTarget → Host ConnectionTarget
  stored_port session t =
      if t.port == 0
      then (do
        a ← ask os (number_value session (codes "PortNumber"))
        pure (
            if not (a.number == 0) && ltb 0 a.size && ltb a.size 65536
            then record t { port = a.size }
            else t))
      else pure t

  unfoldable pub stored_fields : ℕ → ConnectionTarget → Host ConnectionTarget
  unfolding stored_host stored_user stored_port
  stored_fields session target = do
    with_host ← stored_host session target
    with_user ← stored_user session with_host
    with_port ← stored_port session with_user
    pure (record with_port { source = codes "inferred PuTTY session" })

  unfoldable pub known_fields : Option Bytes → ℕ → ConnectionTarget → Host ConnectionTarget
  unfolding stored_fields
  known_fields protocol session target =
      if other_protocol protocol then pure no_target else stored_fields session target

  -- The deferred close is the last.
  unfoldable pub read_session : ℕ → ConnectionTarget → Host ConnectionTarget
  unfolding known_fields
  read_session session target = do
    protocol ← ask os (string_value session (codes "Protocol"))
    t ← known_fields protocol.text session target
    tell os (close_key session)
    pure t

  unfoldable pub open_found : ℕ → Bytes → ConnectionTarget → Host ConnectionTarget
  unfolding read_session
  open_found key name target = do
    session ← ask os (open_session key name)
    if session.number == 0 then pure target else read_session session.number target

  unfoldable pub find_session : ℕ → List Bytes → ConnectionTarget → Host ConnectionTarget
  unfolding open_found
  find_session key [] target = pure target
  find_session key (name ∷ names) target =
      if is_text target.session (pk.path_unescape name)
      then open_found key name target
      else find_session key names target

  -- With the names, unless reading them failed.
  unfoldable pub read_names : ℕ → ConnectionTarget → Host ConnectionTarget
  unfolding find_session
  read_names key target = do
    names ← ask os (session_names key)
    if names.number == 0 then pure target else find_session key names.texts target

  unfoldable pub resolve_putty_session : ConnectionTarget → Host ConnectionTarget
  unfolding read_names
  resolve_putty_session target = do
    key ← ask os open_sessions
    if key.number == 0
        then pure target
        else (do t ← read_names key.number target; tell os (close_key key.number); pure t)
