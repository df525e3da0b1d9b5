-- ===== src/Common/Options.antt =====
-- A chain of steps that may fail without a message.
use mathlib.Core.Path.{◌≡◌, refl}
use mathlib.Core.Bool.{Bool, true, false}
use mathlib.Core.Option.{Option, none, some}

infixl 5 ◌>>=◌ ◌>>◌
abbrev pub ◌>>=◌ {ℓ κ} : {A : Type ℓ} {B : Type κ} → Option A → (A → Option B) → Option B
some value >>= next = next value
none >>= next = none

abbrev pub ◌>>◌ {ℓ} : {B : Type ℓ} → Option (Unit {0}) → Option B → Option B
check >> later = check >>= λ done. later

abbrev pub guard : Bool → Option (Unit {0})
guard false = none
guard true = some tt

pub >>=-eq-some {ℓ κ} :
    {A : Type ℓ} {B : Type κ} (first : Option A) (next : A → Option B) {last : B}
    → (first >>= next) ≡ some last
    → (value : A) × (first ≡ some value) × (next value ≡ some last)
>>=-eq-some (some value) next reached = (value, refl, reached)
>>=-eq-some none next reached = cc

pub some_inj {ℓ} : {A : Type ℓ} (a b : A) → some a ≡ some b → a ≡ b
some_inj a b e = cc
