-- ===== src/Tests/Frames.antt =====
-- Frames, strings, names and texts.
use winssh_pageant.Common.{
  ◌+◌, ◌≤◌, ◌≡◌, ◌↔◌, refl, none, some, [], ◌∷◌, ◌++◌, arith, Bytes, All, codes, length, has_prefix,
  contains_byte,
}
use winssh_pageant.Common.Results.{ok}
use winssh_pageant.Wire.{validate_frame, take_string}
use winssh_pageant.Wire.Strings.{put_string, take_string-put_string}
use winssh_pageant.Wire.Frames.{IsFrameOf, validate_frame_iff}
use winssh_pageant.Text.{display_text, clean_ui_text}
use winssh_pageant.Text.Utf8.{decode_runes}
use winssh_pageant.Text.Case.{is_ascii, to_lower}
use winssh_pageant.Text.Safe.{IsSafe, IsClean, display_text-IsSafe, clean_ui_text-IsClean}
use winssh_pageant.Keys.{parse_keys, fingerprint}
use winssh_pageant.Keys.Parse.{Lists, parse_keys_iff}
use winssh_pageant.Sign.{parse_sign_request, raw_username, SignRequest}
use winssh_pageant.Sign.Format.{put_userauth, put_login}
use winssh_pageant.Sign.Request.{Requests, parse_sign_request_iff}
use winssh_pageant.Sign.Username.{LogsIn, raw_username_iff}
use winssh_pageant.Agent.Pipe.{local_pipe_name, IsLocal, local_pipe_name-IsLocal}
use winssh_pageant.Tests.Data.{lib, lib-IsLibrary, list_request, no_keys, pipe_name}

validate_frame_iff_example :
    (validate_frame list_request 100 ≡ none)
    ↔ ((payload : Bytes) × IsFrameOf 100 payload list_request)
validate_frame_iff_example = validate_frame_iff list_request 100 (ground arith) (omega arith)

take_string-put_string_example :
    take_string (put_string (codes "ssh") ++ (1 ∷ [])) ≡ some (codes "ssh", 1 ∷ [])
take_string-put_string_example = take_string-put_string (codes "ssh") (1 ∷ []) (omega arith)

parse_keys_iff_example : (parse_keys lib no_keys ≡ ok []) ↔ Lists lib no_keys []
parse_keys_iff_example = parse_keys_iff lib no_keys [] (ground arith)

-- A sign request for a key of type `A` over one byte of data.
abbrev sign_frame : Bytes
sign_frame = put_string (
    13
    ∷ (put_string (0 ∷ 0 ∷ 0 ∷ 1 ∷ 65 ∷ 9 ∷ []) ++ (put_string (7 ∷ []) ++ (0 ∷ 0 ∷ 0 ∷ 0 ∷ []))))

abbrev sign_report : SignRequest
sign_report = record {
  key_type = codes "A";
  fingerprint = fingerprint lib (0 ∷ 0 ∷ 0 ∷ 1 ∷ 65 ∷ 9 ∷ []);
  username = [];
}

parse_sign_request_iff_example :
    (parse_sign_request lib sign_frame ≡ some sign_report) ↔ Requests lib sign_frame sign_report
unfolding put_string
parse_sign_request_iff_example = parse_sign_request_iff lib sign_frame sign_report (ground arith)

abbrev login : Bytes
login = put_userauth (record {
  session = 1 ∷ [];
  username = codes "me";
  algorithm = codes "A";
  key = 9 ∷ [];
  host_key = none;
})

raw_username_iff_example :
    (raw_username login (9 ∷ []) ≡ some (codes "me")) ↔ LogsIn (9 ∷ []) login (codes "me")
unfolding put_userauth put_login put_string
raw_username_iff_example = raw_username_iff login (9 ∷ []) (codes "me") (ground arith) (omega arith)

local_pipe_name-IsLocal_example : IsLocal pipe_name
unfolding is_ascii local_pipe_name to_lower has_prefix contains_byte
local_pipe_name-IsLocal_example = local_pipe_name-IsLocal lib pipe_name refl refl

display_text-IsSafe_example :
    All (IsSafe lib) (decode_runes (display_text lib (codes "a\nkey") 3))
    × (length (decode_runes (display_text lib (codes "a\nkey") 3)) ≤ 3 + 1)
display_text-IsSafe_example = display_text-IsSafe lib (codes "a\nkey") 3 lib-IsLibrary

clean_ui_text-IsClean_example :
    All (IsClean lib) (decode_runes (clean_ui_text lib (codes "two\nlines")))
    × (length (decode_runes (clean_ui_text lib (codes "two\nlines"))) ≤ 2048)
clean_ui_text-IsClean_example = clean_ui_text-IsClean lib (codes "two\nlines") lib-IsLibrary
