-- ===== src/Client/Notice.antt =====
-- The notification of a signature: `notifySigning` and `signingNotice` of
-- pageant/client_windows.go. What the TCP tables say of the client is an argument.
pub mod Honest
use winssh_pageant.Common.{
  ℕ, Bool, true, false, not, ◌&&◌, ◌||◌, Option, none, some, List, [], ◌∷◌, ◌++◌, ◌==◌,
  if◌then◌else◌, Bytes, codes, length, contains_byte,
}
use winssh_pageant.Library.{Library}
use winssh_pageant.Wire.{FrameError, validate_response, message_type}
use winssh_pageant.Sign.{SignRequest, parse_sign_request}
use winssh_pageant.Client.{ConnectionTarget, no_target, ClientInfo, decimal, join_host_port}
use winssh_pageant.Client.Unique.{unique_tcp_target}
use winssh_pageant.Client.Target.{is_empty}

abbrev pub key_used : Bytes
key_used = codes "SSH key used"

abbrev pub key_failed : Bytes
key_failed = codes "SSH key request failed"

accepted : Option FrameError → Bool
accepted none = true
accepted (some e) = false

-- `openssh.ValidateResponse(response) == nil && response[4] == 14`
unfoldable pub is_signature : Bytes → Bool
unfolding accepted
is_signature response = accepted (validate_response response) && message_type response == 14

unfoldable pub app_line : ClientInfo → Bytes
app_line client =
    if is_empty client.name
    then codes "Application unavailable"
    else client.name
      ++ (codes " (PID "
          ++ (decimal client.pid
              ++ (codes ")" ++ (if client.inferred then codes " [inferred from mapping]" else []))))

-- The host with its port, or in brackets if it is a bare address with colons.
unfoldable pub host_text : ConnectionTarget → Bytes
host_text t =
    if not (t.port == 0) && not (t.port == 22)
    then join_host_port t.host t.port
    else if contains_byte b':' t.host
    then codes "[" ++ (t.host ++ codes "]")
    else t.host

unavailable : Bytes → Bytes
unavailable username =
    if is_empty username then codes "Target unavailable" else username ++ codes "@unknown host"

known_host : ConnectionTarget → Bytes
known_host t =
    (if is_empty t.user then host_text t else t.user ++ (codes "@" ++ host_text t))
    ++ (if is_empty t.source then [] else codes " [" ++ (t.source ++ codes "]"))

unfoldable pub where_line : Bytes → ConnectionTarget → Bytes
unfolding unavailable known_host
where_line username t = if is_empty t.host then unavailable username else known_host t

-- The title and the body.
unfoldable pub signing_notice : SignRequest → Bytes → ClientInfo → ConnectionTarget → Bytes × Bytes
signing_notice sign response client target = (
  if is_signature response then key_used else key_failed,
  app_line client
      ++ (codes "\n" ++ (where_line sign.username target ++ (codes "\n" ++ sign.fingerprint))),
)

-- What the system tells of the client's process now: whether it is the user's, when it started, and
-- its TCP tables.
pub record Process : Type 0 where
  pub is_own : Bool
  pub started_now : ℕ
  pub tables : List (Option (List ConnectionTarget))

observed : Process → ConnectionTarget → ConnectionTarget
observed process target = elim (unique_tcp_target process.tables) [
  | none ↦ target
  | some t ↦ record target { host = t.host; port = t.port; source = t.source }
]

-- The target that is named: none beside a signature that is no login.
unfoldable pub named_target : SignRequest → ClientInfo → Process → ConnectionTarget
unfolding observed
named_target sign client process =
    if is_empty sign.username
    then no_target
    else let target = record client.target { user = sign.username } in
      if is_empty target.host
        && not (client.pid == 0)
        && not (client.started == 0)
        && process.is_own
        && process.started_now == client.started
      then observed process target
      else target

-- `notifySigning`: the notification, if there is one.
unfoldable pub notify_signing :
    Library → Bool → Bytes → Bytes → ClientInfo → Process → Option (Bytes × Bytes)
notify_signing lib has_desktop request response client process =
    elim (parse_sign_request lib request) [
      | none ↦ none
      | some sign ↦
          if has_desktop
          then some (signing_notice sign response client (named_target sign client process))
          else none
    ]
