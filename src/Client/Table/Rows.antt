-- ===== src/Client/Table/Rows.antt =====
-- The table is read within its bounds, and the rows that count are those of the process.
use winssh_pageant.Common.{
  ℕ, zero, suc, ◌+◌, ◌-◌, ◌*◌, ◌/◌, ◌≤◌, ◌≡◌, ◌≢◌, false, refl, ap, ◌∙◌, ◌⊎◌, inl, inr, not, ◌||◌,
  Bool-cases, none, some, Option-cases, List, [], ◌∷◌, ◌++◌, ltb, ◌==◌, if◌then◌else◌, codes, arith,
  Bytes, All, All-append, length, take, drop, length-take_le, length-drop,
}
use winssh_pageant.Client.{ConnectionTarget, decimal}
use winssh_pageant.Client.Table.{
  slice, le_u32, be_u16, Layout, inet_layout, inet6_layout, layout_of, af_inet, af_inet6, source,
  reachable, reached, endpoint, row_targets, table_rows, all_rows, counted_rows, parse_tcp_table,
}

pub slice-total :
    (lo hi : ℕ) (b : Bytes)
    → lo ≤ hi
    → hi ≤ length b
    → (s : Bytes) × (slice lo hi b ≡ some s) × (length s ≡ hi - lo)
unfolding slice
slice-total lo hi b h k = (
  take (hi - lo) (drop lo b),
  ground arith,
  length-take_le (hi - lo) (drop lo b) (omega (arith, length-drop lo b)),
)

le_u32-total : (b : Bytes) → 4 ≤ length b → (n : ℕ) × (le_u32 b ≡ some n)
le_u32-total [] h = absurd (omega arith)
le_u32-total (x ∷ []) h = absurd (omega arith)
le_u32-total (x ∷ y ∷ []) h = absurd (omega arith)
le_u32-total (x ∷ y ∷ z ∷ []) h = absurd (omega arith)
le_u32-total (x ∷ y ∷ z ∷ w ∷ b) h = (_, refl)

be_u16-total : (b : Bytes) → 2 ≤ length b → (n : ℕ) × (be_u16 b ≡ some n)
be_u16-total [] h = absurd (omega arith)
be_u16-total (x ∷ []) h = absurd (omega arith)
be_u16-total (x ∷ y ∷ b) h = (_, refl)

-- What a target that is listed looks like.
abbrev pub IsListed : ConnectionTarget → Type 0
IsListed t = (t.port ≢ 0) × (t.source ≡ source) × (t.user ≡ [])

reachable-IsListed :
    (t : ConnectionTarget) → t.source ≡ source → t.user ≡ [] → All IsListed (reachable t)
reachable-IsListed t s u = elim (Bool-cases (t.port == 0)) [
  | inl no_port ↦ rw no_port tt
  | inr port ↦ rw port ((ground arith, s, u), tt)
]

-- A layout and its family.
abbrev pub Fits : ℕ → Layout → Type 0
Fits family layout =
    ((family ≡ af_inet) × (layout ≡ inet_layout)) ⊎ ((family ≡ af_inet6) × (layout ≡ inet6_layout))

layout_of-Fits :
    (family : ℕ) {layout : Layout} → layout_of family ≡ some layout → Fits family layout
unfolding layout_of
layout_of-Fits family e = ground arith

-- The two sizes, as numbers.
size_of :
    (family : ℕ) (layout : Layout)
    → Fits family layout
    → (layout.row_size ≡ 24) ⊎ (layout.row_size ≡ 56)
size_of family layout (inl (f, l)) = inl (ap (λ (x : Layout). x.row_size) l)
size_of family layout (inr (f, l)) = inr (ap (λ (x : Layout). x.row_size) l)

rows_fit :
    (size i left n : ℕ)
    → (size ≡ 24) ⊎ (size ≡ 56)
    → (i + suc left) * size + 4 ≤ n
    → (4 + i * size ≤ 4 + (i + 1) * size)
      × (4 + (i + 1) * size ≤ n)
      × ((4 + (i + 1) * size) - (4 + i * size) ≡ size)
      × ((i + 1 + left) * size + 4 ≤ n)
rows_fit size i left n (inl e) h = ground (arith, e)
rows_fit size i left n (inr e) h = ground (arith, e)

count_fits :
    (size count n : ℕ)
    → (size ≡ 24) ⊎ (size ≡ 56)
    → 4 ≤ n
    → ltb ((n - 4) / size) count ≡ false
    → (0 + count) * size + 4 ≤ n
count_fits size count n (inl e) four h = ground (arith, e)
count_fits size count n (inr e) four h = ground (arith, e)

module _ (show_ip : Bytes → Bytes) where
  endpoint-total_inet :
      (row : Bytes) → length row ≡ 24 → (t : Bytes × ℕ) × (endpoint show_ip af_inet row ≡ some t)
  unfolding endpoint
  endpoint-total_inet row h =
      let (address, e1, l1) = slice-total 12 16 row (omega arith) (omega arith) in
      let (bs, e2, l2) = slice-total 16 18 row (omega arith) (omega arith) in
      let (port, e3) = be_u16-total bs (omega (arith, l2)) in
      ((show_ip address, port), ground (arith, e1, e2, e3))

  endpoint-total_inet6 :
      (row : Bytes) → length row ≡ 56 → (t : Bytes × ℕ) × (endpoint show_ip af_inet6 row ≡ some t)
  unfolding endpoint
  endpoint-total_inet6 row h =
      let (address, e1, l1) = slice-total 24 40 row (omega arith) (omega arith) in
      let (bs, e2, l2) = slice-total 44 46 row (omega arith) (omega arith) in
      let (port, e3) = be_u16-total bs (omega (arith, l2)) in
      let (cs, e4, l4) = slice-total 40 44 row (omega arith) (omega arith) in
      let (scope, e5) = le_u32-total cs (omega (arith, l4)) in
      (
        (
          if scope == 0 then show_ip address else show_ip address ++ codes "%" ++ decimal scope,
          port,
        ),
        ground (arith, e1, e2, e3, e4, e5),
      )

  endpoint-total :
      (family : ℕ) (layout : Layout) (row : Bytes)
      → Fits family layout
      → length row ≡ layout.row_size
      → (t : Bytes × ℕ) × (endpoint show_ip family row ≡ some t)
  endpoint-total family layout row (inl (f, l)) h =
      rw f (endpoint-total_inet row (h ∙ ap (λ (x : Layout). x.row_size) l))
  endpoint-total family layout row (inr (f, l)) h =
      rw f (endpoint-total_inet6 row (h ∙ ap (λ (x : Layout). x.row_size) l))

  offsets :
      (family : ℕ) (layout : Layout)
      → Fits family layout
      → (layout.state_offset + 4 ≤ layout.row_size)
        × (layout.pid_offset + 4 ≤ layout.row_size)
        × (24 ≤ layout.row_size)
  offsets family layout f = ground (arith, f)

  -- The end of a row, from the two numbers that decide.
  decided :
      (family pid state owner : ℕ) (row host : Bytes) (port : ℕ)
      → endpoint show_ip family row ≡ some (host, port)
      → (ts : List ConnectionTarget) × ((if not (state == 5) || not (owner == pid)
            then some []
            else reached show_ip family row)
          ≡ some ts)
        × All IsListed ts
  unfolding reached
  decided family pid state owner row host port e =
      let t : ConnectionTarget = record {
        user = [];
        host = host;
        port = port;
        source = source;
        session = [];
      } in
      elim (Bool-cases (not (state == 5) || not (owner == pid))) [
        | inl other ↦ ([], rw other refl, tt)
        | inr ours ↦ (reachable t, ground (arith, ours, e), reachable-IsListed t refl refl)
      ]

  row_targets-total :
      (family pid : ℕ) (layout : Layout) (row : Bytes)
      → Fits family layout
      → length row ≡ layout.row_size
      → (ts : List ConnectionTarget) × (row_targets show_ip family layout pid row ≡ some ts)
        × All IsListed ts
  unfolding row_targets
  row_targets-total family pid layout row f h =
      let (o1, o2, o3) = offsets family layout f in
      let (ss, e1, l1) =
        slice-total layout.state_offset (length row) row (omega (arith, o1, h)) (omega arith) in
      let (state, e2) = le_u32-total ss (omega (arith, l1, o1, h)) in
      let (ps, e3, l3) =
        slice-total layout.pid_offset (length row) row (omega (arith, o2, h)) (omega arith) in
      let (owner, e4) = le_u32-total ps (omega (arith, l3, o2, h)) in
      let ((host, port), e5) = endpoint-total family layout row f h in
      let (ts, run, all) = decided family pid state owner row host port e5 in
      (ts, rw (e1, e2, e3, e4) run, all)

  table_rows-total :
      (family pid : ℕ) (layout : Layout) (buffer : Bytes) (i left : ℕ)
      → Fits family layout
      → (i + left) * layout.row_size + 4 ≤ length buffer
      → (ts : List ConnectionTarget) × (table_rows show_ip family layout pid buffer i left
          ≡ some ts)
        × All IsListed ts
  unfolding table_rows
  table_rows-total family pid layout buffer i zero f h = ([], refl, tt)
  table_rows-total family pid layout buffer i (suc left) f h =
      let size = layout.row_size in
      let (a, b, c, d) = rows_fit size i left (length buffer) (size_of family layout f) h in
      let (row, e1, l1) = slice-total (4 + i * size) (4 + (i + 1) * size) buffer a b in
      let (here, e2, h2) = row_targets-total family pid layout row f (l1 ∙ c) in
      let (rest, e3, h3) = table_rows-total family pid layout buffer (i + 1) left f d in
      (here ++ rest, ground (arith, e1, e2, e3), All-append IsListed here rest h2 h3)

  counted_rows-total :
      (family pid : ℕ) (layout : Layout) (buffer : Bytes)
      → Fits family layout
      → (counted_rows show_ip family layout pid buffer ≡ some none)
        ⊎ ((ts : List ConnectionTarget) × (counted_rows show_ip family layout pid buffer
              ≡ some (some ts))
            × All IsListed ts)
  unfolding counted_rows all_rows
  counted_rows-total family pid layout buffer f = elim (Bool-cases (ltb (length buffer) 4)) [
    | inl short ↦ inl (ground (arith, short))
    | inr long ↦
        let four : 4 ≤ length buffer = ground (arith, long) in
        let (count, e) = le_u32-total buffer four in
        elim (Bool-cases (ltb ((length buffer - 4) / layout.row_size) count)) [
          | inl over ↦ inl (ground (arith, long, e, over))
          | inr fits ↦
              let room =
                count_fits layout.row_size count (length buffer) (size_of family layout f) four
                  fits in
              let (ts, run, all) = table_rows-total family pid layout buffer 0 count f room in
              inr (ts, ground (arith, long, e, fits, run), all)
        ]
  ]

  -- Whatever Windows writes into the buffer, no slice is out of range, and a table that is accepted
  -- lists targets with a port and without a user only.
  pub parse_tcp_table-total :
      (buffer : Bytes) (pid family : ℕ)
      → (parse_tcp_table show_ip buffer pid family ≡ some none)
        ⊎ ((ts : List ConnectionTarget) × (parse_tcp_table show_ip buffer pid family
              ≡ some (some ts))
            × All IsListed ts)
  unfolding parse_tcp_table
  parse_tcp_table-total buffer pid family = elim (Option-cases (layout_of family)) [
    | inl other ↦ inl (rw (other, parse_tcp_table) refl)
    | inr (layout, e) ↦
        rw (e, parse_tcp_table)
          (counted_rows-total family pid layout buffer (layout_of-Fits family e))
  ]
