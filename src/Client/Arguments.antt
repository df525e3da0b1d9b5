-- ===== src/Client/Arguments.antt =====
-- `parseClientTarget` of pageant/client_windows.go, over the arguments behind the program's name.
-- `strings.EqualFold` is a parameter.
pub mod Safe
use winssh_pageant.Common.{
  ℕ, zero, suc, ◌+◌, ◌-◌, Bool, true, false, not, ◌&&◌, ◌||◌, Option, none, some, List, [], ◌∷◌,
  ◌++◌, ltb, ◌==◌, if◌then◌else◌, Bytes, codes, length, take, drop, get_or, has_prefix, bytes_eq,
}
use winssh_pageant.Library.{Library}
use winssh_pageant.Text.Utf8.{decode_rune}
use winssh_pageant.Text.Case.{to_lower}
use winssh_pageant.Client.{ConnectionTarget, no_target}
use winssh_pageant.Client.Target.{
  Parsers, is_space, is_empty, safe_target_field, safe_host, parse_port, parse_destination,
}

-- `strings.Contains` with the part first.
unfoldable pub is_infix : Bytes → Bytes → Bool
is_infix part [] = is_empty part
is_infix part (b ∷ bs) = has_prefix part (b ∷ bs) || is_infix part bs

-- `strings.FieldsFunc(value, …)`: each byte, with whether its rune separates fields.
marks : ℕ → Bool → Bytes → List (ℕ × Bool)
marks skip sep [] = []
marks (suc skip) sep (a ∷ rest) = (a, sep) ∷ marks skip sep rest
marks zero sep (a ∷ rest) =
    let (r, width) = decode_rune a rest in
    let parts = r == b'=' || is_space r in (a, parts) ∷ marks (width - 1) parts rest

gather : Bytes → List (ℕ × Bool) → List Bytes
gather current [] = if is_empty current then [] else current ∷ []
gather current ((a, false) ∷ ms) = gather (current ++ (a ∷ [])) ms
gather current ((a, true) ∷ ms) =
    let rest = gather [] ms in if is_empty current then rest else current ∷ rest

unfoldable pub fields : Bytes → List Bytes
unfolding marks gather
fields value = gather [] (marks 0 false value)

-- `strings.Trim(s, "v") == ""`
unfoldable pub all_v : Bytes → Bool
all_v [] = true
all_v (b ∷ bs) = b == b'v' && all_v bs

-- The two lists of options, with a blank around each.
unfoldable pub no_value : Bool → Bytes
no_value ssh =
    if ssh
    then codes " -4 -6 -A -a -C -f -G -g -K -k -M -N -n -q -s -T -t -V -v -X -x -Y -y "
    else codes
        " -ssh -2 -4 -6 -batch -agent -noagent -A -a -C -N -T -t -v -x -X -share -noshare -no-antispoof "

unfoldable pub value_flags : Bool → Bytes
value_flags ssh =
    if ssh
    then codes " -B -b -c -D -E -e -F -I -i -J -L -l -m -O -o -P -p -Q -R -S -W -w "
    else codes
        " -l -P -load -pw -pwfile -i -m -L -R -D -nc -proxycmd -hostkey -loghost -sercfg -sessionlog -sshlog -sshrawlog "

abbrev pub spaced : Bytes → Bytes
spaced option = codes " " ++ (option ++ codes " ")

-- ssh takes the value of `-l` and `-p` in the same argument as well.
unfoldable pub split_option : Bool → Bytes → Bytes × Bytes
split_option ssh arg =
    if ssh && ltb 2 (length arg) && (get_or arg 1 0 == b'l' || get_or arg 1 0 == b'p')
    then (take 2 arg, drop 2 arg)
    else (arg, [])

-- What one argument leads to: the answer, the next argument, the value of an option, or the
-- destination behind `--`.
pub data Next : Type 0 where
  answers : ConnectionTarget → Next
  reads : ConnectionTarget → Bool → Next
  awaits : Bytes → Next
  ends : Next

-- What the next argument is.
pub data Mode : Type 0 where
  plain last : Mode
  value_of : Bytes → Mode

unfoldable pub set_port : Bytes → ConnectionTarget → Option ConnectionTarget
set_port value t = elim (parse_port value) [ none ↦ none | some n ↦ some (record t { port = n }) ]

abbrev pub goes_on : Option ConnectionTarget → Bool → Next
goes_on none has_destination = answers no_target
goes_on (some t) has_destination = reads t has_destination

-- An option whose value is missing gives up.
abbrev pub at_end : Mode → ConnectionTarget → ConnectionTarget
at_end (value_of option) t = no_target
at_end plain t = t
at_end last t = t

module _ (lib : Library) (parsers : Parsers) where
  -- `-o name=value`
  unfoldable pub set_named : Bytes → Bytes → ConnectionTarget → Option ConnectionTarget
  set_named name value t =
      if bytes_eq name (codes "user")
      then some (record t { user = safe_target_field lib value })
      else if bytes_eq name (codes "hostname")
      then some (record t { host = safe_host lib parsers value })
      else if bytes_eq name (codes "port")
      then set_port value t
      else some t

  unfoldable pub set_fields : List Bytes → ConnectionTarget → Option ConnectionTarget
  set_fields (name ∷ value ∷ []) t = set_named (to_lower lib name) value t
  set_fields _ t = some t

  -- The switch over the options with a value; `none` gives up.
  unfoldable pub apply_option : Bool → Bytes → Bytes → ConnectionTarget → Option ConnectionTarget
  unfolding set_fields
  apply_option ssh option value t =
      if bytes_eq option (codes "-l")
      then some (record t { user = safe_target_field lib value })
      else if (ssh && bytes_eq option (codes "-p")) || (not ssh && bytes_eq option (codes "-P"))
      then set_port value t
      else if not ssh && bytes_eq option (codes "-load")
      then some (record t { session = value })
      else if ssh && bytes_eq option (codes "-o")
      then set_fields (fields value) t
      else some t

  unfoldable pub read_destination : Bool → Bytes → Bool → ConnectionTarget → Next
  read_destination putty_gui arg has_destination t =
      if has_destination
      then answers no_target
      else let t' = parse_destination lib parsers t arg in
        if putty_gui then reads t' true else answers t'

module _ (lib : Library) (parsers : Parsers) (ssh putty_gui : Bool) where
  unfoldable pub read_option : Bytes → Bool → ConnectionTarget → Next
  read_option arg has_destination t =
      let (option, attached) = split_option ssh arg in
      if (ssh && ltb 2 (length arg) && all_v (drop 1 arg))
        || is_infix (spaced option) (no_value ssh)
      then reads t has_destination
      else if not (is_infix (spaced option) (value_flags ssh))
      then answers no_target
      else if is_empty attached
      then awaits option
      else goes_on (apply_option lib parsers ssh option attached t) has_destination

  unfoldable pub read_argument : Bytes → Bool → ConnectionTarget → Next
  read_argument arg has_destination t =
      if bytes_eq arg (codes "--")
      then ends
      else if not (has_prefix (codes "-") arg)
      then read_destination lib parsers putty_gui arg has_destination t
      else read_option arg has_destination t

  -- What one argument leads to in each mode.
  unfoldable pub read_next : Mode → Bytes → Bool → ConnectionTarget → Next
  read_next plain arg has_destination t = read_argument arg has_destination t
  read_next last arg has_destination t = answers (parse_destination lib parsers t arg)
  read_next (value_of option) arg has_destination t =
      goes_on (apply_option lib parsers ssh option arg t) has_destination

  unfoldable pub scan : Mode → Bool → ConnectionTarget → List Bytes → ConnectionTarget
  scan mode has_destination t [] = at_end mode t
  scan mode has_destination t (arg ∷ args) = elim (read_next mode arg has_destination t) [
    | answers u ↦ u
    | reads u has ↦ scan plain has u args
    | awaits option ↦ scan (value_of option) has_destination t args
    | ends ↦ scan last has_destination t args
  ]

unfoldable pub parse_client_target :
    Library → Parsers → (Bytes → Bytes → Bool) → Bytes → List Bytes → ConnectionTarget
parse_client_target lib parsers equal_fold app args =
    let ssh = equal_fold app (codes "ssh.exe") in
    let putty_gui = equal_fold app (codes "putty.exe") in
    if not ssh
      && not putty_gui
      && not (equal_fold app (codes "plink.exe"))
      && not (equal_fold app (codes "tortoisegitplink.exe"))
    then no_target
    else scan lib parsers ssh putty_gui plain false
        (record no_target { source = codes "inferred client arguments" }) args
