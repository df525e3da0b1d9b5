-- ===== src/Wire/Frames.antt =====
-- What the frame checks of openssh/agent.go accept.
use winssh_pageant.Common.{
  ℕ, ◌+◌, ◌-◌, ◌^◌, ◌%◌, ◌≤◌, ◌<◌, ◌≡◌, ◌≢◌, refl, sym, ◌∙◌, none, [], ◌∷◌, ◌↔◌, arith, Bytes, All,
  IsByte, length, take, drop, length-drop, be_u32, be_u32-put_u32,
}
use winssh_pageant.Wire.{
  validate_frame, validate_request, validate_response, max_message_length, max_response_length,
  message_type, agent_fail, generic_fail_response,
}
use winssh_pageant.Wire.Strings.{put_string, put_u32-take}

-- The frame of a payload: it is laid out as a string is.
abbrev pub IsFrameOf : ℕ → Bytes → Bytes → Type 0
IsFrameOf max payload frame =
    (frame ≡ put_string payload) × (1 ≤ length payload) × (length payload ≤ max)

-- An accepted frame has a length and a type, fits the limit, and announces its own length.
pub validate_frame_facts :
    (frame : Bytes) (max : ℕ)
    → validate_frame frame max ≡ none
    → (5 ≤ length frame)
      × (length frame ≤ max + 4)
      × (be_u32 (take 4 frame) ≡ (length frame - 4) % 2 ^ 32)
unfolding validate_frame
validate_frame_facts frame max e = ground arith

-- `validateFrame` accepts the frames of nonempty payloads within the limit, and nothing else.
pub validate_frame_iff :
    (frame : Bytes) (max : ℕ)
    → All IsByte frame
    → max < 2 ^ 32
    → (validate_frame frame max ≡ none) ↔ ((payload : Bytes) × IsFrameOf max payload frame)
unfolding validate_frame put_string
validate_frame_iff frame max h small = (sound, complete)
  where
    sound : validate_frame frame max ≡ none → (payload : Bytes) × IsFrameOf max payload frame
    sound e =
        let (lo, hi, announced) = validate_frame_facts frame max e in
        let n : be_u32 (take 4 frame) ≡ length (drop 4 frame) =
          omega (arith, announced, length-drop 4 frame) in
        (
          drop 4 frame,
          (
            sym (put_u32-take frame h (omega arith)) ∙ rw n,
            omega (arith, length-drop 4 frame),
            omega (arith, length-drop 4 frame),
          ),
        )

    complete : (payload : Bytes) × IsFrameOf max payload frame → validate_frame frame max ≡ none
    complete (payload, (e, lo, hi)) = rw e (ground (arith, be_u32-put_u32 (length payload) []))

-- The reply that stands for every failure is itself a valid reply, and a refusal.
pub generic_fail_response-valid :
    (validate_response generic_fail_response ≡ none)
    × (message_type generic_fail_response ≡ agent_fail)
unfolding validate_response validate_frame
generic_fail_response-valid = (refl, refl)

pub validate_response_facts :
    (frame : Bytes)
    → validate_response frame ≡ none
    → (validate_frame frame max_response_length ≡ none)
      × (message_type frame ≡ agent_fail → length frame ≡ 5)
unfolding validate_response
validate_response_facts frame e = ground arith

pub validate_response_intro :
    (frame : Bytes)
    → validate_frame frame max_response_length ≡ none
    → message_type frame ≢ agent_fail
    → validate_response frame ≡ none
unfolding validate_response
validate_response_intro frame v t = ground arith

-- A payload that is not empty has a type, its first byte.
typed_payload :
    (max : ℕ) (payload : Bytes) {frame : Bytes}
    → IsFrameOf max payload frame
    → (t : ℕ) × (body : Bytes) × (frame ≡ put_string (t ∷ body)) × (length (t ∷ body) ≤ max)
typed_payload max [] (e, lo, hi) = absurd (omega arith)
typed_payload max (t ∷ body) (e, lo, hi) = (t, body, e, hi)

-- A valid reply is the frame of a type and a body.
pub validate_response_payload :
    (frame : Bytes)
    → All IsByte frame
    → validate_response frame ≡ none
    → (t : ℕ) × (body : Bytes) × (frame ≡ put_string (t ∷ body))
      × (length (t ∷ body) ≤ max_response_length)
validate_response_payload frame h v =
    let facts = validate_response_facts frame v in
    let (payload, f) = (validate_frame_iff frame max_response_length h (omega arith)).0 facts.0 in
    typed_payload max_response_length payload f

-- So is a valid request.
pub validate_request_payload :
    (frame : Bytes)
    → All IsByte frame
    → validate_request frame ≡ none
    → (t : ℕ) × (body : Bytes) × (frame ≡ put_string (t ∷ body))
      × (length (t ∷ body) ≤ max_message_length - 4)
unfolding validate_request
validate_request_payload frame h v =
    let (payload, f) = (validate_frame_iff frame (max_message_length - 4) h (omega arith)).0 v in
    typed_payload (max_message_length - 4) payload f
