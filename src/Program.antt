-- ===== src/Program.antt =====
-- `main` of main.go, over the flags that package flag reads.
use winssh_pageant.Common.{ℕ, [], Bool, true, false, not, Option, none, some, if◌then◌else◌, Bytes}
use winssh_pageant.Common.Acts.{◌>>=◌, ◌>>◌, pure}
use winssh_pageant.Host.{Os, Host, tell, message_box, print_version, fix_console}
use winssh_pageant.Control.{ExitError, exit_running, show_running_keys}
use winssh_pageant.Runtime.{Outcome, running, returned, run, Setting}
use winssh_pageant.Options.{Pageant, new_default_handler}

pub record Flags : Type 0 where
  pub ssh_pipe : Bytes
  pub no_pageant_pipe : Bool
  pub exit : Bool
  pub show_keys : Bool
  pub show_version : Bool

-- The exit code; no value while the program runs.
abbrev pub Code : Type 0
Code = Option ℕ

-- Neither error names a text here.
unfoldable pub exit_code : Option ExitError → Code
exit_code none = some 0
exit_code (some e) = some 1

-- The bridge, as `Run` reads it.
abbrev pub setting_of : Pageant → Setting
setting_of p = record {
  show_on_start = p.show_keys_on_start;
  pageant_pipe = p.pageant_pipe;
  handler = some p.request_handler;
  agent_pipe = p.ssh_agent_pipe;
}

module _ (os : Os) (flags : Flags) (fuel : ℕ) where
  unfoldable pub ended : Outcome → Host Code
  ended running = pure none
  ended (returned none) = pure (some 0)
  ended (returned (some e)) = do tell os (message_box []); pure (some 1)

  unfoldable pub configured : Pageant
  configured = record (new_default_handler flags.ssh_pipe (not flags.no_pageant_pipe)) {
    show_keys_on_start = flags.show_keys;
  }

  unfoldable pub start : Host Code
  unfolding ended configured
  start = do r ← run os (setting_of configured) fuel; ended r

  -- The keys of a running copy.
  unfoldable pub shown : Option Bool → Host Code
  unfolding start
  shown none = do tell os (message_box []); pure (some 1)
  shown (some true) = pure (some 0)
  shown (some false) = start

  unfoldable pub show_first : Host Code
  unfolding shown
  show_first = do r ← show_running_keys os; shown r

  unfoldable pub stop_running : Host Code
  stop_running = do r ← exit_running os; pure (exit_code r)

  unfoldable pub main : Host Code
  unfolding show_first stop_running
  main = do
    tell os fix_console
    if flags.show_version
        then (do tell os print_version; pure (some 0))
        else if flags.exit
        then stop_running
        else if flags.show_keys
        then show_first
        else start
