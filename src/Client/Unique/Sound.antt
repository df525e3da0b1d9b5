-- ===== src/Client/Unique/Sound.antt =====
-- A process with several endpoints has no unique one.
use winssh_pageant.Common.{
  ◌≡◌, refl, sym, ap, ◌∙◌, ◌⊎◌, inl, inr, Bool-cases, Option, none, some, Option-cases, List, [],
  ◌∷◌, arith, Bytes, bytes_eq, bytes_eq→eq, All,
}
use mathlib.Core.Path.{subst}
use winssh_pageant.Common.Options.{some_inj}
use winssh_pageant.Client.{ConnectionTarget}
use winssh_pageant.Client.Unique.{
  Endpoints, insert, key_of, insert_all, collect, the_only, unique_tcp_target,
}

-- A target stands at its own key.
abbrev pub IsKeyed : Bytes × ConnectionTarget → Type 0
IsKeyed (key, t) = key ≡ key_of t

HasKey : Bytes → Endpoints → Type 0
HasKey key [] = ⊥
HasKey key ((k, t) ∷ all) = (k ≡ key) ⊎ HasKey key all

insert-HasKey :
    (key : Bytes) (t : ConnectionTarget) (all : Endpoints) → HasKey key (insert key t all)
unfolding insert HasKey
insert-HasKey key t [] = inl refl
insert-HasKey key t ((k, u) ∷ all) = elim (Bool-cases (bytes_eq k key)) [
  | inl same ↦ rw (same, insert) (inl refl)
  | inr other ↦ rw (other, insert) (inr (insert-HasKey key t all))
]

insert-keeps :
    (key : Bytes) (t : ConnectionTarget) (all : Endpoints) (k : Bytes)
    → HasKey k all
    → HasKey k (insert key t all)
unfolding insert HasKey
insert-keeps key t [] k' h = absurd h
insert-keeps key t ((k, u) ∷ all) k' h = elim (Bool-cases (bytes_eq k key)) [
  | inl same ↦ elim h [
    | inl here ↦ rw (same, insert) (inl (sym (bytes_eq→eq k key same) ∙ here))
    | inr later ↦ rw (same, insert) (inr later)
  ]
  | inr other ↦ elim h [
    | inl here ↦ rw (other, insert) (inl here)
    | inr later ↦ rw (other, insert) (inr (insert-keeps key t all k' later))
  ]
]

insert-IsKeyed :
    (t : ConnectionTarget) (all : Endpoints)
    → All IsKeyed all
    → All IsKeyed (insert (key_of t) t all)
unfolding insert
insert-IsKeyed t [] h = (refl, tt)
insert-IsKeyed t ((k, u) ∷ all) (h, hs) = elim (Bool-cases (bytes_eq k (key_of t))) [
  | inl same ↦ rw (same, insert) (refl, hs)
  | inr other ↦ rw (other, insert) (h, insert-IsKeyed t all hs)
]

insert_all-keeps :
    (ts : List ConnectionTarget) (all : Endpoints) (k : Bytes)
    → HasKey k all
    → HasKey k (insert_all ts all)
unfolding insert_all
insert_all-keeps [] all k h = h
insert_all-keeps (t ∷ ts) all k h =
    insert_all-keeps ts (insert (key_of t) t all) k (insert-keeps (key_of t) t all k h)

insert_all-IsKeyed :
    (ts : List ConnectionTarget) (all : Endpoints)
    → All IsKeyed all
    → All IsKeyed (insert_all ts all)
unfolding insert_all
insert_all-IsKeyed [] all h = h
insert_all-IsKeyed (t ∷ ts) all h =
    insert_all-IsKeyed ts (insert (key_of t) t all) (insert-IsKeyed t all h)

insert_all-HasKey :
    (ts : List ConnectionTarget) (all : Endpoints)
    → All (λ t. HasKey (key_of t) (insert_all ts all)) ts
unfolding insert_all
insert_all-HasKey [] all = tt
insert_all-HasKey (t ∷ ts) all = (
  insert_all-keeps ts (insert (key_of t) t all) (key_of t) (insert-HasKey (key_of t) t all),
  insert_all-HasKey ts (insert (key_of t) t all),
)

collect-keeps :
    (families : List (Option (List ConnectionTarget))) (all : Endpoints) {final : Endpoints}
    (k : Bytes)
    → collect families all ≡ some final
    → HasKey k all
    → HasKey k final
unfolding collect
collect-keeps [] all {final} k e h = subst (HasKey k) (some_inj all final e) h
collect-keeps (none ∷ families) all k e h = absurd (cc)
collect-keeps (some ts ∷ families) all k e h =
    collect-keeps families (insert_all ts all) k e (insert_all-keeps ts all k h)

All-map :
    {P Q : ConnectionTarget → Type 0} (ts : List ConnectionTarget)
    → ((t : ConnectionTarget) → P t → Q t)
    → All P ts
    → All Q ts
All-map [] f h = tt
All-map (t ∷ ts) f (h, hs) = (f t h, All-map ts f hs)

-- Every family was read, and each of its targets satisfies `P`.
abbrev pub AllRead : (ConnectionTarget → Type 0) → Option (List ConnectionTarget) → Type 0
AllRead P family = (ts : List ConnectionTarget) × (family ≡ some ts) × All P ts

collect-AllRead :
    (families : List (Option (List ConnectionTarget))) (all : Endpoints) {final : Endpoints}
    → collect families all ≡ some final
    → All (AllRead (λ t. HasKey (key_of t) final)) families
unfolding collect
collect-AllRead [] all e = tt
collect-AllRead (none ∷ families) all e = absurd (cc)
collect-AllRead (some ts ∷ families) all {final} e = (
  (
    ts,
    refl,
    All-map ts (λ t h. collect-keeps families (insert_all ts all) (key_of t) e h)
        (insert_all-HasKey ts all),
  ),
  collect-AllRead families (insert_all ts all) e,
)

collect-IsKeyed :
    (families : List (Option (List ConnectionTarget))) (all : Endpoints) {final : Endpoints}
    → collect families all ≡ some final
    → All IsKeyed all
    → All IsKeyed final
unfolding collect
collect-IsKeyed [] all {final} e h = subst (All IsKeyed) (some_inj all final e) h
collect-IsKeyed (none ∷ families) all e h = absurd (cc)
collect-IsKeyed (some ts ∷ families) all e h =
    collect-IsKeyed families (insert_all ts all) e (insert_all-IsKeyed ts all h)

the_only_inv :
    (all : Endpoints) {t : ConnectionTarget}
    → the_only all ≡ some t
    → (key : Bytes) × (all ≡ (key, t) ∷ [])
the_only_inv [] e = absurd (cc)
the_only_inv ((key, u) ∷ []) {t} e =
    (key, ap (λ (v : ConnectionTarget). (key, v) ∷ []) (some_inj u t e))
the_only_inv (p ∷ q ∷ all) e = absurd (cc)

All-under :
    {P Q : ConnectionTarget → Type 0} (families : List (Option (List ConnectionTarget)))
    → ((t : ConnectionTarget) → P t → Q t)
    → All (AllRead P) families
    → All (AllRead Q) families
All-under [] f h = tt
All-under (family ∷ families) f ((ts, e, h), hs) =
    ((ts, e, All-map ts f h), All-under families f hs)

from_single :
    (families : List (Option (List ConnectionTarget))) (key : Bytes) (t : ConnectionTarget)
    → collect families [] ≡ some ((key, t) ∷ [])
    → All (AllRead (λ u. key_of t ≡ key_of u)) families
unfolding HasKey
from_single families key t e =
    let own : key ≡ key_of t = (collect-IsKeyed families [] e tt).0 in
    All-under families (λ u h. elim h [ inl same ↦ sym own ∙ same | inr later ↦ absurd later ])
      (collect-AllRead families [] e)

-- If an endpoint is reported, the tables of both families were read, and every connection of the
-- process that they list goes to that host and port.
pub unique_tcp_target_sound :
    (families : List (Option (List ConnectionTarget))) (t : ConnectionTarget)
    → unique_tcp_target families ≡ some t
    → All (AllRead (λ u. key_of t ≡ key_of u)) families
unfolding unique_tcp_target
unique_tcp_target_sound families t e = elim (Option-cases (collect families [])) [
  | inl unread ↦ absurd (ground (arith, unread, e))
  | inr (all, c) ↦
      let (key, single) = the_only_inv all {t = t} (ground (arith, c, e)) in
      from_single families key t (c ∙ ap some single)
]
