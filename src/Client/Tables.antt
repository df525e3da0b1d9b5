-- ===== src/Client/Tables.antt =====
-- `processTCPTargets` of pageant/client_windows.go: the table of connections is asked for its
-- size, and then, as it may grow, three times at most. An answer of 122 is
-- ERROR_INSUFFICIENT_BUFFER.
use winssh_pageant.Common.{
  ℕ, zero, suc, ◌+◌, ◌*◌, ◌≤◌, ◌≡◌, ◌⊎◌, inl, inr, refl, Bool, false, not, ◌||◌, Option, none, some,
  List, [], ◌∷◌, ltb, ◌==◌, if◌then◌else◌, arith, All, Bool-cases,
}
use winssh_pageant.Common.Acts.{◌>>=◌, pure}
use winssh_pageant.Client.{ConnectionTarget}
use winssh_pageant.Client.CommandLine.{filled, or_empty}
use winssh_pageant.Client.Table.{parse_tcp_table}
use winssh_pageant.Client.Table.Rows.{IsListed, parse_tcp_table-total}
use winssh_pageant.Client.Session.{Packages}
use winssh_pageant.Host.{Os, Host, Trace, ask, table_size, table_rows}

-- `maxTableBytes`
abbrev pub max_table_bytes : ℕ
max_table_bytes = 16 * 1024 * 1024

abbrev pub insufficient_buffer : ℕ
insufficient_buffer = 122

-- Without a value the code panics, and with `some none` it answers that it does not know.
abbrev pub Targets : Type 0
Targets = Option (Option (List ConnectionTarget))

abbrev pub is_odd_size : ℕ → Bool
is_odd_size size = ltb size 4 || ltb max_table_bytes size

module _ (os : Os) (pk : Packages) (pid family : ℕ) where
  unfoldable pub try_table : ℕ → ℕ → Host Targets
  try_table zero size t = (some none, t)
  try_table (suc attempts) size t =
      let (a, t1) = ask os (table_rows family size) t in
      let again = try_table attempts a.size t1 in
      if a.number == insufficient_buffer
      then (if is_odd_size a.size then (some none, t1) else again)
      else if not (a.number == 0)
      then (some none, t1)
      else (parse_tcp_table pk.show_ip (filled size (or_empty a.text)) pid family, t1)

  unfoldable pub process_tcp_targets : Host Targets
  process_tcp_targets = do
    a ← ask os (table_size family)
    if not (a.number == insufficient_buffer) || is_odd_size a.size
        then pure (some none)
        else try_table 3 a.size

-- Each buffer that was made for the table has room for the number of rows, and at most 16 MiB.
abbrev pub IsModest : Trace → Type 0
IsModest [] = Unit {0}
IsModest ((table_rows family size, a) ∷ t) = (4 ≤ size) × (size ≤ max_table_bytes) × IsModest t
IsModest (other ∷ t) = IsModest t

-- How often the table was read.
abbrev pub reads : Trace → ℕ
reads [] = 0
reads ((table_rows family size, a) ∷ t) = suc (reads t)
reads (other ∷ t) = reads t

-- What may come of a try: no panic, and targets with a port and without a user only.
abbrev pub IsAnswer : Targets → Type 0
IsAnswer r =
    (r ≡ some none) ⊎ ((ts : List ConnectionTarget) × (r ≡ some (some ts)) × All IsListed ts)

module _ (os : Os) (pk : Packages) (pid family : ℕ) where
  try_table-IsAnswer :
      (attempts size : ℕ) (t : Trace)
      → is_odd_size size ≡ false
      → IsModest t
      → IsModest (try_table os pk pid family attempts size t).1
        × (reads (try_table os pk pid family attempts size t).1 ≤ reads t + attempts)
        × IsAnswer (try_table os pk pid family attempts size t).0
  unfolding try_table ask
  try_table-IsAnswer zero size t fine h = (h, omega arith, inl refl)
  try_table-IsAnswer (suc attempts) size t fine h =
      let (a, t1) = ask os (table_rows family size) t in
      let h1 : IsModest t1 = (ground (arith, fine), ground (arith, fine), h) in
      let answer = parse_tcp_table-total pk.show_ip (filled size (or_empty a.text)) pid family in
      elim (Bool-cases (a.number == insufficient_buffer)) [
        | inl grown ↦ elim (Bool-cases (is_odd_size a.size)) [
          | inl odd ↦ rw (grown, try_table, odd) (h1, omega arith, inl refl)
          | inr again ↦
              let (modest, few, rest) = try_table-IsAnswer attempts a.size t1 again h1 in
              rw (grown, try_table, again) (modest, omega (arith, few), rest)
        ]
        | inr read ↦ elim (Bool-cases (not (a.number == 0))) [
          | inl failed ↦ rw (read, try_table, failed) (h1, omega arith, inl refl)
          | inr filled_in ↦ rw (read, try_table, filled_in) (h1, omega arith, answer)
        ]
      ]

-- If the buffers so far had such sizes, then however the table grows between the calls, it is read
-- three times at most, into buffers of 4 bytes to 16 MiB, no slice of a buffer is out of range, and
-- what comes of it are targets with a port and without a user only, or that nothing is known.
pub process_tcp_targets-IsAnswer :
    (os : Os) (pk : Packages) (pid family : ℕ) (t : Trace)
    → IsModest t
    → IsModest (process_tcp_targets os pk pid family t).1
      × (reads (process_tcp_targets os pk pid family t).1 ≤ reads t + 3)
      × IsAnswer (process_tcp_targets os pk pid family t).0
unfolding process_tcp_targets ask pure
process_tcp_targets-IsAnswer os pk pid family t h =
    let (a, t1) = ask os (table_size family) t in
    elim (Bool-cases (not (a.number == insufficient_buffer) || is_odd_size a.size)) [
      | inl bad ↦ rw (bad, process_tcp_targets) (h, omega arith, inl refl)
      | inr good ↦
          rw (good, process_tcp_targets)
            (try_table-IsAnswer os pk pid family 3 a.size t1 (ground (arith, good)) h)
    ]
