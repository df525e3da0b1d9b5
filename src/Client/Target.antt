-- ===== src/Client/Target.antt =====
-- Where a client says it connects to: `safeTargetField`, `safeHost` and `parseDestination` of
-- pageant/client_windows.go. The URL parser and the IP parser of the standard library are
-- parameters.
pub mod Safe
use winssh_pageant.Common.{
  ℕ, zero, suc, ◌+◌, ◌-◌, ◌*◌, Bool, true, false, not, ◌&&◌, ◌||◌, Option, none, some, List, [],
  ◌∷◌, ltb, leb, ◌==◌, if◌then◌else◌, Bytes, codes, length, has_prefix, contains_byte, bytes_eq,
}
use winssh_pageant.Library.{Library}
use winssh_pageant.Text.{is_control}
use winssh_pageant.Text.Utf8.{decode_runes}
use winssh_pageant.Text.Case.{to_lower}
use winssh_pageant.Client.{ConnectionTarget}

-- What `url.Parse` tells of a URL that it accepts. `user` is the user name, and whether there is a
-- password behind it.
pub record Url : Type 0 where
  pub hostname : Bytes
  pub path : Bytes
  pub raw_query : Bytes
  pub fragment : Bytes
  pub user : Option (Bytes × Bool)
  pub port : Bytes

-- `url.Parse`, and whether `net.ParseIP` finds an address.
pub record Parsers : Type 0 where
  pub parse_url : Bytes → Option Url
  pub is_ip : Bytes → Bool

-- `unicode.IsSpace`
abbrev pub is_space : ℕ → Bool
is_space r =
    (leb 9 r && leb r 13)
    || r == 0x20
    || r == 0x85
    || r == 0xa0
    || r == 0x1680
    || (leb 0x2000 r && leb r 0x200a)
    || r == 0x2028
    || r == 0x2029
    || r == 0x202f
    || r == 0x205f
    || r == 0x3000

abbrev pub is_bad : Library → ℕ → Bool
is_bad lib r = is_space r || is_control r || lib.is_format r

unfoldable pub any_bad : Library → List ℕ → Bool
any_bad lib [] = false
any_bad lib (r ∷ rs) = is_bad lib r || any_bad lib rs

abbrev pub is_empty : Bytes → Bool
is_empty s = length s == 0

unfoldable pub safe_target_field : Library → Bytes → Bytes
safe_target_field lib value =
    if is_empty value || ltb 253 (length value)
    then []
    else if any_bad lib (decode_runes value)
    then []
    else value

-- `strings.ContainsAny(host, "/\\@\"'")`
unfoldable pub contains_any : Bytes → Bytes → Bool
contains_any [] s = false
contains_any (c ∷ cs) s = contains_byte c s || contains_any cs s

-- `strings.Split(host, "%")[0]`
unfoldable pub before : ℕ → Bytes → Bytes
before c [] = []
before c (b ∷ bs) = let rest = before c bs in if b == c then [] else b ∷ rest

unfoldable pub safe_host : Library → Parsers → Bytes → Bytes
safe_host lib parsers host =
    if is_empty (safe_target_field lib host)
      || contains_any (codes "/\\@\"'") host
      || has_prefix (codes "-") host
    then []
    else if contains_byte b':' host && not (parsers.is_ip (before b'%' host))
    then []
    else host

-- `strconv.ParseUint(s, 10, 16)`, where 0 is refused as well.
abbrev pub is_digit : ℕ → Bool
is_digit b = leb b'0' b && leb b b'9'

unfoldable pub number_from : ℕ → Bytes → Option ℕ
number_from n [] = some n
number_from n (b ∷ bs) =
    let rest = number_from (n * 10 + (b - b'0')) bs in if is_digit b then rest else none

in_range : Option ℕ → Option ℕ
in_range none = none
in_range (some n) = if n == 0 || ltb 65535 n then none else some n

unfoldable pub parse_port : Bytes → Option ℕ
unfolding in_range
parse_port s = if is_empty s then none else in_range (number_from 0 s)

abbrev pub or_else : Bytes → Bytes → Bytes
or_else known found = if is_empty known then found else known

unfoldable pub with_user : Library → Bytes → ConnectionTarget → ConnectionTarget
with_user lib user t = record t { user = or_else t.user (safe_target_field lib user) }

unfoldable pub with_host : Library → Parsers → Bytes → ConnectionTarget → ConnectionTarget
with_host lib parsers host t = record t { host = or_else t.host (safe_host lib parsers host) }

-- A port that cannot be read takes the host with it.
unfoldable pub with_port : Bytes → ConnectionTarget → ConnectionTarget
with_port text t = if is_empty text then t else elim (parse_port text) [
  | none ↦ record t { host = [] }
  | some port ↦ record t { port = if t.port == 0 then port else t.port }
]

abbrev pub is_plain : Url → Bool
is_plain u =
    not (is_empty u.hostname)
    && (is_empty u.path || bytes_eq u.path (codes "/"))
    && is_empty u.raw_query
    && is_empty u.fragment

unfoldable pub located : Library → Parsers → Url → ConnectionTarget → ConnectionTarget
located lib parsers u t = with_port u.port (with_host lib parsers u.hostname t)

unfoldable pub from_url : Library → Parsers → Url → ConnectionTarget → ConnectionTarget
from_url lib parsers u t = if not (is_plain u) then t else elim u.user [
  | none ↦ located lib parsers u t
  | some (name, has_password) ↦
      if has_password then t else located lib parsers u (with_user lib name t)
]

-- The text before the last `@`, if there is one, and what follows it.
unfoldable pub split_at : Bytes → Option Bytes × Bytes
split_at [] = (none, [])
split_at (b ∷ bs) =
    let (user, host) = split_at bs in
    elim user [
      | some u ↦ (some (b ∷ u), host)
      | none ↦ if b == b'@' then (some [], bs) else (none, b ∷ bs)
    ]

abbrev pub is_bracket : ℕ → Bool
is_bracket b = b == b'[' || b == b']'

-- `strings.Trim(value, "[]")`
unfoldable pub trim_left : Bytes → Bytes
trim_left [] = []
trim_left (b ∷ bs) = let rest = trim_left bs in if is_bracket b then rest else b ∷ bs

unfoldable pub trim_right : Bytes → Bytes
trim_right [] = []
trim_right (b ∷ bs) =
    let rest = trim_right bs in if is_empty rest && is_bracket b then [] else b ∷ rest

unfoldable pub from_plain : Library → Parsers → Bytes → ConnectionTarget → ConnectionTarget
from_plain lib parsers value t =
    let (user, host) = split_at value in
    let t' : ConnectionTarget = elim user [ none ↦ t | some u ↦ with_user lib u t ] in
    with_host lib parsers (trim_right (trim_left host)) t'

-- `parseDestination`
unfoldable pub parse_destination : Library → Parsers → ConnectionTarget → Bytes → ConnectionTarget
parse_destination lib parsers t value =
    if has_prefix (codes "ssh://") (to_lower lib value)
    then elim (parsers.parse_url value) [ none ↦ t | some u ↦ from_url lib parsers u t ]
    else from_plain lib parsers value t
