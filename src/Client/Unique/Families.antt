-- ===== src/Client/Unique/Families.antt =====
-- The loop of `uniqueTCPTarget` of pageant/client_windows.go over the families AF_INET and AF_INET6
-- of Windows, with the calls of `processTCPTargets`.
use winssh_pageant.Common.{ℕ, ◌≡◌, refl, Option, none, some, List, [], ◌∷◌, inl, inr}
use winssh_pageant.Common.Acts.{◌>>=◌, pure}
use winssh_pageant.Host.{Os, Host, Trace}
use winssh_pageant.Client.{ConnectionTarget}
use winssh_pageant.Client.Session.{Packages}
use winssh_pageant.Client.Tables.{
  Targets, process_tcp_targets, IsModest, process_tcp_targets-IsAnswer,
}
use winssh_pageant.Client.Unique.{Endpoints, insert_all, collect, the_only, unique_tcp_target}

-- Without a value the code panics, and with `some none` a table cannot be read.
abbrev pub Read : Type 0
Read = Option (Option Endpoints)

abbrev pub families : List ℕ
families = 2 ∷ 23 ∷ []

-- `len(all) != 1`
abbrev pub picked : Read → Option (Option ConnectionTarget)
picked none = none
picked (some none) = some none
picked (some (some all)) = some (the_only all)

-- The entries of a family are assigned, and the loop goes on, or it returns.
unfoldable pub enter : (Endpoints → Host Read) → Targets → Endpoints → Host Read
enter later none all = pure none
enter later (some none) all = pure (some none)
enter later (some (some ts)) all = later (insert_all ts all)

module _ (os : Os) (pk : Packages) (pid : ℕ) where
  unfoldable pub read_families : List ℕ → Endpoints → Host Read
  unfolding enter
  read_families [] all = pure (some (some all))
  read_families (family ∷ later) all = do
    r ← process_tcp_targets os pk pid family
    enter (read_families later) r all

  -- `uniqueTCPTarget`
  unfoldable pub unique_target : Host (Option (Option ConnectionTarget))
  unfolding read_families
  unique_target = do r ← read_families families []; pure (picked r)

  -- The loop does not panic, and its result is that of some answers of the families.
  read_families-collect :
      (fs : List ℕ) (all : Endpoints) (t : Trace)
      → IsModest t
      → (answers : List (Option (List ConnectionTarget))) × ((read_families fs all t).0
          ≡ some (collect answers all))
  unfolding read_families enter collect pure
  read_families-collect [] all t h = ([], refl)
  read_families-collect (f ∷ fs) all t h =
      let (r, t1) = process_tcp_targets os pk pid f t in
      let (modest, few, answer) = process_tcp_targets-IsAnswer os pk pid f t h in
      elim answer [
        | inl unknown ↦ (none ∷ [], rw (unknown, read_families) refl)
        | inr (ts, known, listed) ↦
            let (rest, same) = read_families-collect fs (insert_all ts all) t1 modest in
            (some ts ∷ rest, rw (known, read_families) same)
      ]

  -- With buffers of fair sizes so far, `uniqueTCPTarget` does not panic, and answers what
  -- `unique_tcp_target` makes of some answers of the families.
  pub unique_target-unique_tcp_target :
      (t : Trace)
      → IsModest t
      → (answers : List (Option (List ConnectionTarget))) × ((unique_target t).0
          ≡ some (unique_tcp_target answers))
  unfolding unique_target unique_tcp_target pure
  unique_target-unique_tcp_target t h =
      let (answers, same) = read_families-collect families [] t h in
      (answers, rw same (picked_some (collect answers [])))
    where
      picked_some :
          (r : Option Endpoints)
          → picked (some r) ≡ some (elim r [ none ↦ none | some all ↦ the_only all ])
      picked_some none = refl
      picked_some (some all) = refl
