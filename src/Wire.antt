-- ===== src/Wire.antt =====
-- Message framing of the agent protocol: the checks of openssh/agent.go on complete frames, and
-- `takeString` of openssh/keys.go, on which every parser stands. A byte slice is a list of
-- numbers; a Go `error` is an `Option`, with a constructor for each message.
pub mod Strings
pub mod Frames
use winssh_pageant.Common.{
  ℕ, ◌+◌, ◌-◌, ◌*◌, ◌^◌, ◌%◌, ◌≡◌, Bool, true, false, not, ◌&&◌, Option, none, some, [], ◌∷◌, ◌++◌,
  ltb, ◌==◌, if◌then◌else◌, Bytes, codes, be_u32, put_u32, bytes_eq, length, take, drop, get_or,
}

-- `AgentMaxMessageLength`, which includes the four bytes of the length.
abbrev pub max_message_length : ℕ
max_message_length = 2 ^ 14 - 1

-- `AgentMaxResponseLength`, which does not.
abbrev pub max_response_length : ℕ
max_response_length = 256 * 1024

-- `SSH_AGENT_FAIL`
abbrev pub agent_fail : ℕ
agent_fail = 5

-- `genericFailResponse`, and `agentFailure` of pageant/run_windows.go.
abbrev pub generic_fail_response : Bytes
generic_fail_response = 0 ∷ 0 ∷ 0 ∷ 1 ∷ agent_fail ∷ []

pub data FrameError : Type 0 where
  too_short too_long length_mismatch malformed_failure : FrameError

unfoldable pub validate_frame : Bytes → ℕ → Option FrameError
validate_frame frame max_payload =
    if ltb (length frame) 5
    then some too_short
    else if ltb max_payload (length frame - 4)
    then some too_long
    else if not (be_u32 (take 4 frame) == (length frame - 4) % 2 ^ 32)
    then some length_mismatch
    else none

unfoldable pub validate_request : Bytes → Option FrameError
validate_request frame = validate_frame frame (max_message_length - 4)

-- `frame[4]`. A validated frame has at least five bytes, so the default is never read there.
abbrev pub message_type : Bytes → ℕ
message_type frame = get_or frame 4 0

fail_shape : Bytes → Option FrameError
fail_shape frame =
    if message_type frame == agent_fail && not (length frame == 5)
    then some malformed_failure
    else none

unfoldable pub validate_response : Bytes → Option FrameError
unfolding fail_shape
validate_response frame = elim (validate_frame frame max_response_length) [
  | some e ↦ some e
  | none ↦ fail_shape frame
]

-- `takeString`: the string and what is left of the data. The two tests put both slices in range.
unfoldable pub take_string : Bytes → Option (Bytes × Bytes)
take_string data' =
    if ltb (length data') 4
    then none
    else let n = be_u32 (take 4 data') in
      if ltb (length data' - 4) n then none else some (take n (drop 4 data'), drop n (drop 4 data'))

name_is : Option (Bytes × Bytes) → Bytes → Bool
name_is none name = false
name_is (some (s, rest)) name = bytes_eq s name

-- `isSessionBind`, which is called on validated requests only.
unfoldable pub is_session_bind : Bytes → Bool
unfolding name_is
is_session_bind request =
    if not (message_type request == 27)
    then false
    else name_is (take_string (drop 5 request)) (codes "session-bind@openssh.com")
