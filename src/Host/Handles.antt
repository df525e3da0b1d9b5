-- ===== src/Host/Handles.antt =====
-- The handles that are open.
use winssh_pageant.Common.{ℕ, ◌+◌, ◌≡◌, not, ◌&&◌, Option, none, some, ◌==◌, if◌then◌else◌}
use winssh_pageant.Host.{Trace, opened, closed}

-- The handle `h` has been opened `n` times, and closed `m` times, but for equally many of both.
pub record IsOpen (h m n : ℕ) (t : Trace) : Type 0 where
  pub balance : opened h t + m ≡ closed h t + n

-- How often a result is the handle `h`.
abbrev pub handed : ℕ → Option ℕ → ℕ
handed h none = 0
handed h (some g) = if not (h == 0) && g == h then 1 else 0
