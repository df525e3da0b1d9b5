-- ===== src/Client/Unique.antt =====
-- `uniqueTCPTarget` of pageant/client_windows.go. What `processTCPTargets` answers for the two
-- families, which Families asks, is an argument. The map is an association list, where an assignment to a key that is
-- there replaces its value.
pub mod Sound
pub mod Families
use winssh_pageant.Common.{
  ℕ, ◌≡◌, refl, sym, ◌∙◌, Bool, true, false, Option, none, some, List, [], ◌∷◌, if◌then◌else◌,
  arith, Bytes, bytes_eq, All, Bool-cases, inl, inr, bytes_eq→eq,
}
use winssh_pageant.Client.{ConnectionTarget, join_host_port}

abbrev pub Endpoints : Type 0
Endpoints = List (Bytes × ConnectionTarget)

unfoldable pub insert : Bytes → ConnectionTarget → Endpoints → Endpoints
insert key t [] = (key, t) ∷ []
insert key t ((k, u) ∷ all) =
    let rest = insert key t all in if bytes_eq k key then (key, t) ∷ all else (k, u) ∷ rest

abbrev pub key_of : ConnectionTarget → Bytes
key_of t = join_host_port t.host t.port

unfoldable pub insert_all : List ConnectionTarget → Endpoints → Endpoints
insert_all [] all = all
insert_all (t ∷ ts) all = insert_all ts (insert (key_of t) t all)

-- The loop over the families; `none` is a family whose table cannot be read.
unfoldable pub collect : List (Option (List ConnectionTarget)) → Endpoints → Option Endpoints
collect [] all = some all
collect (none ∷ families) all = none
collect (some ts ∷ families) all = collect families (insert_all ts all)

abbrev pub the_only : Endpoints → Option ConnectionTarget
the_only ((key, t) ∷ []) = some t
the_only _ = none

unfoldable pub unique_tcp_target : List (Option (List ConnectionTarget)) → Option ConnectionTarget
unique_tcp_target families = elim (collect families []) [ none ↦ none | some all ↦ the_only all ]
