-- ===== src/Sign.antt =====
-- Sign requests: `ParseSignRequest` and `userauthUsername` of openssh/keys.go. An empty user name
-- is the source's answer for data that is no public-key userauth payload.
pub mod Format
mod Steps
pub mod SignedKey
pub mod Username
pub mod Request
use winssh_pageant.Common.{
  ℕ, ◌≡◌, Bool, true, false, not, ◌||◌, Option, none, some, [], ◌∷◌, ◌==◌, if◌then◌else◌, Bytes,
  codes, bytes_eq, length, drop,
}
use winssh_pageant.Common.Options.{◌>>=◌, ◌>>◌, guard}
use winssh_pageant.Library.{Library}
use winssh_pageant.Text.{display_text}
use winssh_pageant.Wire.{validate_request, message_type, take_string}
use winssh_pageant.Keys.{public_key_type, fingerprint, sign_request}

-- `SignRequest`
pub record SignRequest : Type 0 where
  pub key_type : Bytes
  pub fingerprint : Bytes
  pub username : Bytes

abbrev pub nonempty : Bytes → Bool
nonempty s = not (length s == 0)

-- `len(data) == 0 || data[0] != b` refuses; what follows the byte is returned.
unfoldable pub expect_byte : ℕ → Bytes → Option Bytes
expect_byte b [] = none
expect_byte b (c ∷ rest) = if c == b then some rest else none

-- The host key of the host-bound form must not be empty.
host_key : Bytes → Option Bytes
host_key data' = do (key, rest) ← take_string data'; guard (nonempty key); some rest

abbrev pub publickey : Bytes
publickey = codes "publickey"

abbrev pub hostbound_publickey : Bytes
hostbound_publickey = codes "publickey-hostbound-v00@openssh.com"

abbrev pub ssh_connection : Bytes
ssh_connection = codes "ssh-connection"

-- What follows the method's name: `true`, the algorithm, the key and the host key.
unfoldable pub signed_key : Bool → Bytes → Bytes → Option (Unit {0})
unfolding host_key
signed_key hostbound signing_key data' = do
  flagged ← expect_byte 1 data'
  (algorithm, after_algorithm) ← take_string flagged
  guard (nonempty algorithm)
  (key, after_key) ← take_string after_algorithm
  guard (bytes_eq key signing_key)
  last ← if hostbound then host_key after_key else some after_key
  guard (length last == 0)

-- What follows the user name: the service, the method and what was signed with the key.
unfoldable pub login_method : Bytes → Bytes → Option (Unit {0})
login_method signing_key data' = do
  (service, after_service) ← take_string data'
  guard (bytes_eq service ssh_connection)
  (method, after_method) ← take_string after_service
  guard (bytes_eq method publickey || bytes_eq method hostbound_publickey)
  signed_key (bytes_eq method hostbound_publickey) signing_key after_method

-- The user name of a well-formed payload, as it was sent.
unfoldable pub raw_username : Bytes → Bytes → Option Bytes
raw_username data' signing_key = do
  (session, after_session) ← take_string data'
  guard (nonempty session)
  typed ← expect_byte 50 after_session
  (username, after_username) ← take_string typed
  guard (nonempty username)
  login_method signing_key after_username
  some username

shown : Library → Option Bytes → Bytes
shown lib none = []
shown lib (some username) = display_text lib username 256

unfoldable pub userauth_username : Library → Bytes → Bytes → Bytes
unfolding shown
userauth_username lib data' signing_key = shown lib (raw_username data' signing_key)

-- The body of a sign request: the key, the data and the flags.
request_body : Library → Bytes → Option SignRequest
request_body lib body = do
  (blob, after_blob) ← take_string body
  (data', flags) ← take_string after_blob
  guard (length flags == 4)
  key_type ← public_key_type blob
  some (record {
    key_type = key_type;
    fingerprint = fingerprint lib blob;
    username = userauth_username lib data' blob;
  })

unfoldable pub parse_sign_request : Library → Bytes → Option SignRequest
unfolding request_body
parse_sign_request lib frame = elim (validate_request frame) [
  | some e ↦ none
  | none ↦
      if not (message_type frame == sign_request) then none else request_body lib (drop 5 frame)
]
