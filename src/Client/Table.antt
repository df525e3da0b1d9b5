-- ===== src/Client/Table.antt =====
-- `parseTCPTable` of pageant/client_windows.go, over the buffer that Windows fills. Go's slice
-- expressions panic out of range; here they are `none`, and so is a panic of the whole function.
-- `net.IP.String` is a parameter.
pub mod Rows
use winssh_pageant.Common.{
  ℕ, zero, suc, ◌+◌, ◌-◌, ◌*◌, ◌/◌, Bool, true, false, not, ◌&&◌, ◌||◌, Option, none, some, List,
  [], ◌∷◌, ◌++◌, ltb, leb, ◌==◌, if◌then◌else◌, Bytes, codes, length, take, drop,
}
use winssh_pageant.Common.Options.{◌>>=◌}
use winssh_pageant.Client.{ConnectionTarget, decimal}

-- `b[lo:hi]` of a slice that has no room behind its end.
unfoldable pub slice : ℕ → ℕ → Bytes → Option Bytes
slice lo hi b = if leb lo hi && leb hi (length b) then some (take (hi - lo) (drop lo b)) else none

-- `binary.LittleEndian.Uint32` and `binary.BigEndian.Uint16`, which panic on less.
abbrev pub le_u32 : Bytes → Option ℕ
le_u32 (a ∷ b ∷ c ∷ d ∷ rest) = some (a + 256 * (b + 256 * (c + 256 * d)))
le_u32 _ = none

abbrev pub be_u16 : Bytes → Option ℕ
be_u16 (a ∷ b ∷ rest) = some (a * 256 + b)
be_u16 _ = none

-- `windows.AF_INET` and `windows.AF_INET6`
abbrev pub af_inet : ℕ
af_inet = 2

abbrev pub af_inet6 : ℕ
af_inet6 = 23

-- `rowSize`, `stateOffset` and `pidOffset`
pub record Layout : Type 0 where
  pub row_size : ℕ
  pub state_offset : ℕ
  pub pid_offset : ℕ

abbrev pub inet_layout : Layout
inet_layout = record { row_size = 24; state_offset = 0; pid_offset = 20 }

abbrev pub inet6_layout : Layout
inet6_layout = record { row_size = 56; state_offset = 48; pid_offset = 52 }

unfoldable pub layout_of : ℕ → Option Layout
layout_of family =
    if family == af_inet6
    then some inet6_layout
    else if family == af_inet
    then some inet_layout
    else none

abbrev pub source : Bytes
source = codes "inferred network endpoint"

-- A target without a port is left out.
abbrev pub reachable : ConnectionTarget → List ConnectionTarget
reachable t = if t.port == 0 then [] else t ∷ []

module _ (show_ip : Bytes → Bytes) where
  -- The host and the port of a row.
  inet_endpoint : Bytes → Option (Bytes × ℕ)
  inet_endpoint row = do
    address ← slice 12 16 row
    port_bytes ← slice 16 18 row
    port ← be_u16 port_bytes
    some (show_ip address, port)

  inet6_endpoint : Bytes → Option (Bytes × ℕ)
  inet6_endpoint row = do
    address ← slice 24 40 row
    port_bytes ← slice 44 46 row
    port ← be_u16 port_bytes
    scope_bytes ← slice 40 44 row
    scope ← le_u32 scope_bytes
    some (scoped address scope, port)
    where
      scoped : Bytes → ℕ → Bytes
      scoped address scope =
          if scope == 0 then show_ip address else show_ip address ++ codes "%" ++ decimal scope

  unfoldable pub endpoint : ℕ → Bytes → Option (Bytes × ℕ)
  unfolding inet_endpoint inet6_endpoint
  endpoint family row = if family == af_inet then inet_endpoint row else inet6_endpoint row

  unfoldable pub reached : ℕ → Bytes → Option (List ConnectionTarget)
  reached family row = do
    (host, port) ← endpoint family row
    some (reachable (record { user = []; host = host; port = port; source = source; session = [] }))

  -- The targets of one row: none or one.
  unfoldable pub row_targets : ℕ → Layout → ℕ → Bytes → Option (List ConnectionTarget)
  unfolding reached
  row_targets family layout pid row = do
    state_bytes ← slice layout.state_offset (length row) row
    state ← le_u32 state_bytes
    pid_bytes ← slice layout.pid_offset (length row) row
    owner ← le_u32 pid_bytes
    if not (state == 5) || not (owner == pid) then some [] else reached family row

  -- The loop, from row `i` on, with the number of rows left.
  unfoldable pub table_rows : ℕ → Layout → ℕ → Bytes → ℕ → ℕ → Option (List ConnectionTarget)
  table_rows family layout pid buffer i zero = some []
  table_rows family layout pid buffer i (suc left) = do
    row ← slice (4 + i * layout.row_size) (4 + (i + 1) * layout.row_size) buffer
    here ← row_targets family layout pid row
    rest ← table_rows family layout pid buffer (i + 1) left
    some (here ++ rest)

  -- The inner `none` is the answer `nil, false`.
  unfoldable pub all_rows : ℕ → Layout → ℕ → Bytes → ℕ → Option (Option (List ConnectionTarget))
  all_rows family layout pid buffer count =
      if ltb ((length buffer - 4) / layout.row_size) count
      then some none
      else table_rows family layout pid buffer 0 count >>= λ targets. some (some targets)

  unfoldable pub counted_rows : ℕ → Layout → ℕ → Bytes → Option (Option (List ConnectionTarget))
  unfolding all_rows
  counted_rows family layout pid buffer =
      if ltb (length buffer) 4
      then some none
      else le_u32 buffer >>= all_rows family layout pid buffer

  unfoldable pub parse_tcp_table : Bytes → ℕ → ℕ → Option (Option (List ConnectionTarget))
  parse_tcp_table buffer pid family = elim (layout_of family) [
    | none ↦ some none
    | some layout ↦ counted_rows family layout pid buffer
  ]
