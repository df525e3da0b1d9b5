-- ===== src/Common/Acts.antt =====
-- Steps that read and change a state, and what such steps keep.
use mathlib.Core.Path.{◌≡◌, refl}
use mathlib.Core.Bool.{Bool, true, false}
use winssh_pageant.Common.Tests.{if◌then◌else◌}

abbrev pub Act : Type 0 → Type 0 → Type 0
Act S A = S → A × S

infixl 5 ◌>>=◌ ◌>>◌
abbrev pub ◌>>=◌ : {S A B : Type 0} → Act S A → (A → Act S B) → Act S B
◌>>=◌ m next s = let (a, t) = m s in next a t

abbrev pub ◌>>◌ : {S B : Type 0} → Act S (Unit {0}) → Act S B → Act S B
check >> later = check >>= λ done. later

unfoldable pub pure : {S A : Type 0} → A → Act S A
pure a s = (a, s)

unfoldable pub gets : {S A : Type 0} → (S → A) → Act S A
gets f s = (f s, s)

unfoldable pub change : {S : Type 0} → (S → S) → Act S (Unit {0})
change f s = (tt, f s)

abbrev pub skip : {S : Type 0} → Act S (Unit {0})
skip = pure tt

abbrev pub when : {S : Type 0} → Bool → Act S (Unit {0}) → Act S (Unit {0})
when b m = if b then m else skip

-- The predicate holds behind the step if it holds before.
pub record Keeps {S A : Type 0} (P : S → Type 0) (m : Act S A) : Type 0 where
  pub after : (s : S) → P s → P (m s).1

module _ {S A : Type 0} {P : S → Type 0} where
  pub Keeps-pure : (a : A) → Keeps P (pure a)
  unfolding pure
  Keeps-pure a = record { after = λ s p. p }

  pub Keeps-gets : (f : S → A) → Keeps P (gets f)
  unfolding gets
  Keeps-gets f = record { after = λ s p. p }

  pub Keeps-if :
      (b : Bool) (yes_step no_step : Act S A)
      → (b ≡ true → Keeps P yes_step)
      → (b ≡ false → Keeps P no_step)
      → Keeps P (if b then yes_step else no_step)
  Keeps-if false yes_step no_step on off = off refl
  Keeps-if true yes_step no_step on off = on refl

pub Keeps-change :
    {S : Type 0} {P : S → Type 0} (f : S → S) → ((s : S) → P s → P (f s)) → Keeps P (change f)
unfolding change
Keeps-change f h = record { after = h }

pub Keeps-bind :
    {S A B : Type 0} {P : S → Type 0} (m : Act S A) (next : A → Act S B)
    → Keeps P m
    → ((a : A) → Keeps P (next a))
    → Keeps P (m >>= next)
Keeps-bind m next first then_on = record {
  after = λ s p. (then_on (m s).0).after (m s).1 (first.after s p);
}

pub ruleset keeps_rules = (Keeps-pure, Keeps-gets, Keeps-if, Keeps-bind)
