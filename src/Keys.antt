-- ===== src/Keys.antt =====
-- The key list of openssh/keys.go: `parseKeys`, `publicKeyType` and `fingerprint`.
pub mod Format
pub mod Parse
use winssh_pageant.Common.{
  ℕ, zero, suc, ◌+◌, ◌-◌, ◌/◌, ◌≡◌, Bool, true, false, not, ◌&&◌, ◌||◌, Option, none, some, List,
  [], ◌∷◌, ◌++◌, ltb, leb, ◌==◌, if◌then◌else◌, Bytes, codes, be_u32, length, take, drop,
}
use winssh_pageant.Common.Results.{Result, ok, err, ◌>>=◌, ◌>>◌, require, or_err}
use winssh_pageant.Library.{Library}
use winssh_pageant.Text.{display_text}
use winssh_pageant.Text.Base64.{encode_base64}
use winssh_pageant.Wire.{FrameError, validate_response, message_type, agent_fail, take_string}

-- `agentRequestIdentities`, `agentIdentitiesAnswer` and `agentSignRequest`.
abbrev pub request_identities : ℕ
request_identities = 11

abbrev pub identities_answer : ℕ
identities_answer = 12

abbrev pub sign_request : ℕ
sign_request = 13

-- Public metadata of a loaded key. The field is `Type` in the source.
pub record Key : Type 0 where
  pub key_type : Bytes
  pub fingerprint : Bytes
  pub comment : Bytes

pub data KeyError : Type 0 where
  invalid_key_list : FrameError → KeyError
  refused unexpected_reply invalid_count : KeyError
  truncated_key truncated_comment malformed_type trailing_data : KeyError

-- A visible ASCII character, by the loop's `b < 33 || b > 126`.
abbrev pub is_visible : ℕ → Bool
is_visible b = not (ltb b 33 || ltb 126 b)

all_visible : Bytes → Bool
all_visible [] = true
all_visible (b ∷ bs) = is_visible b && all_visible bs

checked_type : Option (Bytes × Bytes) → Option Bytes
unfolding all_visible
checked_type none = none
checked_type (some (key_type, rest)) =
    if length key_type == 0 || ltb 128 (length key_type) || length rest == 0
    then none
    else if all_visible key_type
    then some key_type
    else none

unfoldable pub public_key_type : Bytes → Option Bytes
unfolding checked_type
public_key_type blob = checked_type (take_string blob)

unfoldable pub fingerprint : Library → Bytes → Bytes
fingerprint lib blob = codes "SHA256:" ++ encode_base64 (lib.sha256 blob)

-- The metadata of one entry whose blob has the given type.
abbrev pub key_of : Library → Bytes → Bytes → Bytes → Key
key_of lib key_type blob comment = record {
  key_type = key_type;
  fingerprint = fingerprint lib blob;
  comment = display_text lib comment 1024;
}

-- `for range count`: the keys read and what is left of the reply.
unfoldable pub read_keys : Library → ℕ → Bytes → Result KeyError (List Key × Bytes)
read_keys lib zero remaining = ok ([], remaining)
read_keys lib (suc count) remaining = do
  (blob, rest) ← or_err (take_string remaining) truncated_key
  (comment, next) ← or_err (take_string rest) truncated_comment
  key_type ← or_err (public_key_type blob) malformed_type
  (keys, last) ← read_keys lib count next
  ok (key_of lib key_type blob comment ∷ keys, last)

-- What follows the checks on the frame: the count is tested before any key is read.
read_answer : Library → Bytes → Result KeyError (List Key)
unfolding read_keys
read_answer lib reply = do
  let count = be_u32 (take 4 (drop 5 reply))
  let remaining = drop 9 reply
  require (not (ltb (length remaining / 8) count)) invalid_count
  (keys, last) ← read_keys lib count remaining
  require (length last == 0) trailing_data
  ok keys

unfoldable pub parse_keys : Library → Bytes → Result KeyError (List Key)
unfolding read_answer
parse_keys lib reply = elim (validate_response reply) [
  | some e ↦ err (invalid_key_list e)
  | none ↦
      if message_type reply == agent_fail
      then err refused
      else if not (message_type reply == identities_answer) || ltb (length reply) 9
      then err unexpected_reply
      else read_answer lib reply
]
