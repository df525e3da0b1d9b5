-- ===== src/Host/Console.antt =====
-- The console of internal/win/consoleoutput.go. The standard streams are known by their handles;
-- true stands for the output and false for the errors.
use winssh_pageant.Common.{
  ℕ, suc, ◌≡◌, ◌⊎◌, Bool, true, false, not, ◌&&◌, [], ◌∷◌, ◌==◌, if◌then◌else◌, arith,
}
use winssh_pageant.Common.Acts.{◌>>=◌, pure}
use winssh_pageant.Host.{Os, Host, Trace, ask, std_handle, attach}

-- `consoleOnce` and `consoleError`, `os.Stdout` and `os.Stderr`.
pub record Console : Type 0 where
  pub fixed : Bool
  pub failed : Bool
  pub out : ℕ
  pub err_out : ℕ

-- `windows.InvalidHandle`
abbrev pub invalid_handle : ℕ
invalid_handle = 0xffffffffffffffff

abbrev pub is_handle : ℕ → Bool
is_handle h = not (h == 0) && not (h == invalid_handle)

-- The stream behind the second look at its handle.
abbrev pub renewed : ℕ → ℕ → ℕ
renewed old h = if is_handle h then h else old

module _ (os : Os) where
  -- `AttachConsole`: whether it fails. ERROR_INVALID_HANDLE is 6 and ERROR_ACCESS_DENIED is 5.
  unfoldable pub attach_console : Host Bool
  attach_console = do
    a ← ask os attach
    pure (a.number == 0 && not (a.size == 6) && not (a.size == 5))

  unfoldable pub attach_if : Bool → Host Bool
  unfolding attach_console
  attach_if needed = if needed then attach_console else pure false

  unfoldable pub renew : Bool → ℕ → ℕ → Host ℕ
  renew stream first old =
      if is_handle first
      then pure old
      else (do a ← ask os (std_handle stream); pure (renewed old a.number))

  unfoldable pub fix_streams : Console → Host Console
  unfolding attach_if renew
  fix_streams c = do
    out ← ask os (std_handle true)
    err_out ← ask os (std_handle false)
    failed ← attach_if (not (is_handle out.number) && not (is_handle err_out.number))
    new_out ← renew true out.number c.out
    new_err ← renew false err_out.number c.err_out
    pure (record { fixed = true; failed = failed; out = new_out; err_out = new_err })

  -- `FixConsoleIfNeeded`, which does its work once.
  unfoldable pub fix_console_if_needed : Console → Host Console
  unfolding fix_streams
  fix_console_if_needed c = if c.fixed then pure c else fix_streams c

-- How often a console was attached.
abbrev pub attaches : Trace → ℕ
attaches [] = 0
attaches ((attach, a) ∷ t) = suc (attaches t)
attaches (other ∷ t) = attaches t

-- An output whose handle is good is left as it was, so that redirected output stays redirected,
-- and no console is attached then; and a second call changes nothing and calls nothing.
pub fix_console_if_needed-once :
    (os : Os) (c : Console) (t : Trace)
    → let out = (os.answer t (std_handle true)).number in
      let (fixed, after) = fix_console_if_needed os c t in
      ((is_handle out ≡ false) ⊎ ((fixed.out ≡ c.out) × (attaches after ≡ attaches t)))
      × (fix_console_if_needed os fixed after ≡ (fixed, after))
unfolding fix_console_if_needed fix_streams attach_if attach_console renew ask pure
fix_console_if_needed-once os c t = ground arith
