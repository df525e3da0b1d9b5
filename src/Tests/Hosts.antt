-- ===== src/Tests/Hosts.antt =====
-- Calls of Windows.
use winssh_pageant.Common.{
  ◌+◌, ◌%◌, ◌≤◌, ◌≡◌, ◌≢◌, ◌⊎◌, refl, true, false, some, none, [], ◌∷◌, ◌++◌, Bytes, codes, length,
}
use winssh_pageant.Tests.Data.{lib}
use winssh_pageant.Host.{Os, Trace, Deed, Answer, get_message, opened, closed}
use winssh_pageant.Control.{exit_running, wm_close}
use winssh_pageant.Control.Ends.{IsPolite, exit_running-IsPolite}
use winssh_pageant.Client.Session.{Packages}
use winssh_pageant.Client.CommandLine.{text_slice, text_slice-fits, number_at}
use winssh_pageant.Client.Process.{client_from_pipe, client_from_mapping}
use winssh_pageant.Client.Process.Handles.{client_from-handles}
use winssh_pageant.Client.Process.Safe.{IsKnown, client_from-IsKnown}
use winssh_pageant.Client.Tables.{
  process_tcp_targets, IsModest, IsAnswer, reads, process_tcp_targets-IsAnswer,
}
use winssh_pageant.Runtime.{Setting, running, run}
use winssh_pageant.Runtime.Nested.{held}
use winssh_pageant.Runtime.Ends.{run-held}
use winssh_pageant.Runtime.Total.{run-ends}

-- No message comes but the last, and all other calls succeed.
abbrev answer : Trace → Deed → Answer
answer t get_message = record { number = 0; text = none; texts = []; size = 0; high = 0 }
answer t other = record {
  number = 1;
  text = some (codes "plink.exe");
  texts = codes "s" ∷ [];
  size = 22;
  high = 0;
}

abbrev pub os : Os
os = record {
  answer = answer;
  is_valid = λ sid. true;
  same_sid = λ a b. true;
  same_path = λ a b. true;
}

abbrev packages : Packages
packages = record {
  library = lib;
  parsers = record { parse_url = λ s. none; is_ip = λ s. false };
  equal_fold = λ a b. true;
  path_unescape = λ s. some s;
  base = λ s. s;
  decompose = λ s. some (s ∷ codes "host" ∷ []);
  show_ip = λ s. s;
}

exit_running-IsPolite_example :
    IsPolite os wm_close 0 (exit_running os []).1
    × (opened 1 (exit_running os []).1 + 0 ≡ closed 1 (exit_running os []).1 + 0)
unfolding opened closed
exit_running-IsPolite_example = exit_running-IsPolite os 1 []

client_from-handles_example :
    (opened 1 (client_from_pipe os packages true []).1 + 0
      ≡ closed 1 (client_from_pipe os packages true []).1 + 0)
    × (opened 1 (client_from_mapping os packages (codes "PageantRequest0000abcd") []).1 + 0
        ≡ closed 1 (client_from_mapping os packages (codes "PageantRequest0000abcd") []).1 + 0)
unfolding opened closed
client_from-handles_example =
    client_from-handles os packages 1 true (codes "PageantRequest0000abcd") []

client_from-IsKnown_example :
    IsKnown packages false (client_from_pipe os packages true []).0
    × IsKnown packages true (client_from_mapping os packages (codes "PageantRequest0000abcd") []).0
client_from-IsKnown_example =
    client_from-IsKnown os packages true (codes "PageantRequest0000abcd") []

-- A header, with the text of one unit behind it, at the address 256.
abbrev reply : Bytes
reply = 2 ∷ 0 ∷ 2 ∷ 0 ∷ 0 ∷ 0 ∷ 0 ∷ 0 ∷ 16 ∷ 1 ∷ 0 ∷ 0 ∷ 0 ∷ 0 ∷ 0 ∷ 0 ∷ 65 ∷ 0 ∷ []

text_slice-fits_example :
    (text_slice 256 reply ≡ none)
    ⊎ ((s : Bytes) × (text_slice 256 reply ≡ some s)
        × (length s ≡ number_at 0 2 reply)
        × (length s % 2 ≡ 0)
        × (length s ≤ number_at 2 2 reply)
        × ((before : Bytes) × (behind : Bytes) × (before ++ (s ++ behind) ≡ reply)
            × (256 + length before ≡ number_at 8 8 reply)))
text_slice-fits_example = text_slice-fits 256 reply

process_tcp_targets-IsAnswer_example :
    IsModest (process_tcp_targets os packages 1 2 []).1
    × (reads (process_tcp_targets os packages 1 2 []).1 ≤ 3)
    × IsAnswer (process_tcp_targets os packages 1 2 []).0
process_tcp_targets-IsAnswer_example = process_tcp_targets-IsAnswer os packages 1 2 [] tt

abbrev setting : Setting
setting = record { show_on_start = true; pageant_pipe = true; handler = none; agent_pipe = [] }

run-held_example : ((run os setting 1 []).0 ≡ running) ⊎ (held (run os setting 1 []).1 ≡ some [])
unfolding held
run-held_example = run-held os setting 1 [] [] refl

run-ends_example : (run os setting 1 []).0 ≢ running
run-ends_example = run-ends os setting 0 [] (λ u h. refl)
