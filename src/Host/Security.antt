-- ===== src/Host/Security.antt =====
-- The security identifiers of internal/security/security.go. One is known by the text that
-- `String` makes of it, and a nil one is no value.
use winssh_pageant.Common.{Option, none, some, Bytes, ℕ, ◌==◌, if◌then◌else◌}
use winssh_pageant.Common.Acts.{◌>>=◌, pure}
use winssh_pageant.Host.{Os, Host, ask, own_user, copy_sid, security_info, owner}

module _ (os : Os) where
  -- `copyValidSID`
  unfoldable pub copy_valid_sid : Option Bytes → Host (Option Bytes)
  copy_valid_sid none = pure none
  copy_valid_sid (some sid) =
      if os.is_valid sid then (do a ← ask os (copy_sid sid); pure a.text) else pure none

  -- `GetUserSID`
  unfoldable pub get_user_sid : Host (Option Bytes)
  unfolding copy_valid_sid
  get_user_sid = do a ← ask os own_user; copy_valid_sid a.text

  -- `GetHandleSID`
  unfoldable pub get_handle_sid : ℕ → Host (Option Bytes)
  unfolding copy_valid_sid
  get_handle_sid h = do
    info ← ask os (security_info h)
    if info.number == 0 then pure none else (do a ← ask os owner; copy_valid_sid a.text)

  -- `GetDefaultSID`; the process is known by its pseudo-handle, ^0.
  unfoldable pub get_default_sid : Host (Option Bytes)
  unfolding get_handle_sid
  get_default_sid = get_handle_sid 0xffffffffffffffff
