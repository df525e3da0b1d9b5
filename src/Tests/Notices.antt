-- ===== src/Tests/Notices.antt =====
-- Notifications, and what they say of a client.
use winssh_pageant.Common.{
  has_prefix, contains_byte, bytes_eq, ℕ, ◌-◌, ◌≤◌, ◌≡◌, ◌⊎◌, refl, true, false, none, some, List,
  [], ◌∷◌, ◌++◌, Bytes, codes, length, All, if◌then◌else◌,
}
use winssh_pageant.Wire.{validate_frame, validate_request, take_string}
use winssh_pageant.Keys.{public_key_type, fingerprint}
use winssh_pageant.Sign.{SignRequest, parse_sign_request, userauth_username, raw_username}
use winssh_pageant.Client.{ConnectionTarget, no_target, ClientInfo}
use winssh_pageant.Client.Table.{parse_tcp_table}
use winssh_pageant.Client.Table.Rows.{IsListed, parse_tcp_table-total}
use winssh_pageant.Client.Unique.{unique_tcp_target, key_of, insert, insert_all, collect}
use winssh_pageant.Client.Unique.Sound.{AllRead, unique_tcp_target_sound}
use winssh_pageant.Client.Target.{
  Parsers, parse_port, number_from, any_bad, before, contains_any, from_plain, parse_destination,
  safe_host, safe_target_field, split_at, trim_left, trim_right, with_host, with_user,
}
use winssh_pageant.Text.Utf8.{decode_rune, decode_runes}
use winssh_pageant.Text.Case.{is_ascii, to_lower}
use winssh_pageant.Client.Target.Safe.{IsShowable}
use winssh_pageant.Client.Arguments.{
  parse_client_target, scan, read_next, read_argument, read_option, is_infix, no_value,
  split_option, value_flags, apply_option, all_v, set_port, fields, read_destination, set_fields,
  set_named,
}
use winssh_pageant.Client.Arguments.Safe.{parse_client_target-IsShowable}
use winssh_pageant.Client.Notice.{
  key_used, key_failed, is_signature, app_line, Process, notify_signing,
}
use winssh_pageant.Client.Notice.Honest.{notify_signing_generic}
use winssh_pageant.Desktop.Buffer.{copy_ui_text, zeros, copy_ui_text_fits}
use winssh_pageant.Options.{
  Setting, new_with_options, with_ssh_pipe, with_pageant_pipe, new_with_options_last,
}
use winssh_pageant.Tests.Data.{lib, no_keys}

-- A table with one established connection of process 9, to port 22.
abbrev table : Bytes
table =
    1 ∷ 0 ∷ 0 ∷ 0 ∷ 5 ∷ 0 ∷ 0 ∷ 0 ∷ 10 ∷ 0 ∷ 0 ∷ 1 ∷ 4 ∷ 0 ∷ 0 ∷ 0 ∷ 10 ∷ 0 ∷ 0 ∷ 2 ∷ 0 ∷ 22 ∷ 0 ∷ 0
    ∷ 9 ∷ 0 ∷ 0 ∷ 0 ∷ []

parse_tcp_table-total_example :
    (parse_tcp_table (λ a. a) table 9 2 ≡ some none)
    ⊎ ((ts : List ConnectionTarget) × (parse_tcp_table (λ a. a) table 9 2 ≡ some (some ts))
        × All IsListed ts)
parse_tcp_table-total_example = parse_tcp_table-total (λ a. a) table 9 2

abbrev endpoint_a : ConnectionTarget
endpoint_a = record {
  user = [];
  host = codes "10.0.0.2";
  port = 22;
  source = codes "x";
  session = [];
}

unique_tcp_target_sound_example :
    All (AllRead (λ u. key_of endpoint_a ≡ key_of u)) (some (endpoint_a ∷ []) ∷ some [] ∷ [])
unfolding unique_tcp_target collect insert_all insert
unique_tcp_target_sound_example =
    unique_tcp_target_sound (some (endpoint_a ∷ []) ∷ some [] ∷ []) endpoint_a refl

abbrev parsers : Parsers
parsers = record { parse_url = λ s. none; is_ip = λ s. false }

-- `ssh.exe -l me -p2222 -o HostName=host -- me@other`, where names are compared as they stand.
abbrev arguments : List Bytes
arguments =
    codes "-l"
    ∷ codes "me"
    ∷ codes "-p2222"
    ∷ codes "-o"
    ∷ codes "HostName=host"
    ∷ codes "--"
    ∷ codes "me@other"
    ∷ []

parse_client_target-IsShowable_example :
    IsShowable lib parsers (parse_client_target lib parsers bytes_eq (codes "ssh.exe") arguments)
parse_client_target-IsShowable_example =
    parse_client_target-IsShowable lib parsers bytes_eq (codes "ssh.exe") arguments

arguments_read : parse_client_target lib parsers bytes_eq (codes "ssh.exe") arguments ≡ record {
  user = codes "me";
  host = codes "host";
  port = 2222;
  source = codes "inferred client arguments";
  session = [];
}
unfolding parse_client_target scan read_next read_argument read_option is_infix no_value
    split_option value_flags apply_option all_v set_port fields read_destination set_fields
    set_named parse_port number_from any_bad before contains_any from_plain parse_destination
    safe_host safe_target_field split_at trim_left trim_right with_host with_user has_prefix
    contains_byte bytes_eq decode_rune decode_runes is_ascii to_lower
arguments_read = refl

abbrev client : ClientInfo
client = record {
  pid = 9;
  name = codes "ssh.exe";
  inferred = false;
  started = 4;
  target = no_target;
}

abbrev process : Process
process = record { is_own = true; started_now = 4; tables = some (endpoint_a ∷ []) ∷ some [] ∷ [] }

abbrev sign_in : SignRequest
sign_in = record { key_type = codes "A"; fingerprint = codes "f"; username = codes "me" }

-- A generic signature over one byte, with a key of type `A`.
abbrev blob : Bytes
blob = 0 ∷ 0 ∷ 0 ∷ 1 ∷ 65 ∷ 9 ∷ []

abbrev sign_frame : Bytes
sign_frame =
    0 ∷ 0 ∷ 0 ∷ 20 ∷ 13 ∷ 0 ∷ 0 ∷ 0 ∷ 6 ∷ 0 ∷ 0 ∷ 0 ∷ 1 ∷ 65 ∷ 9 ∷ 0 ∷ 0 ∷ 0 ∷ 1 ∷ 7 ∷ 0 ∷ 0 ∷ 0 ∷ 0
    ∷ []

abbrev generic_sign : SignRequest
generic_sign = record { key_type = codes "A"; fingerprint = fingerprint lib blob; username = [] }

sign_frame-parses : parse_sign_request lib sign_frame ≡ some generic_sign
unfolding parse_sign_request validate_request validate_frame take_string public_key_type
    userauth_username raw_username
sign_frame-parses = refl

notify_signing_generic_example :
    notify_signing lib true sign_frame no_keys client process
    ≡ some (
      if is_signature no_keys then key_used else key_failed,
      app_line client ++ (codes "\nTarget unavailable\n" ++ generic_sign.fingerprint),
    )
notify_signing_generic_example =
    notify_signing_generic lib sign_frame no_keys client process {sign = generic_sign}
      sign_frame-parses refl

copy_ui_text_fits_example :
    (units : List ℕ) × (copy_ui_text lib 4 (codes "longer") ≡ units ++ zeros (4 - length units))
    × (length units ≤ 3)
    × (length (copy_ui_text lib 4 (codes "longer")) ≡ 4)
copy_ui_text_fits_example = copy_ui_text_fits lib 3 (codes "longer")

abbrev first_options : List (Setting ℕ)
first_options = with_pageant_pipe false ∷ []

new_with_options_last_example :
    (new_with_options (first_options ++ (with_ssh_pipe (codes "p") ∷ []))).1
    ≡ (with_ssh_pipe {E = ℕ} (codes "p") (new_with_options first_options).1).1
new_with_options_last_example = new_with_options_last first_options (with_ssh_pipe (codes "p"))
