-- ===== src/Sign/Steps.antt =====
-- One step of a parser that reads strings, taken apart when the whole has succeeded, and run when
-- its input is laid out as expected.
use winssh_pageant.Common.{
  ℕ, ◌≤◌, ◌≡◌, refl, Bool, true, false, Option, some, [], ◌∷◌, ◌++◌, ◌==◌, Bool-cases, inl, inr,
  arith, Bytes, IsByte, All, length,
}
use winssh_pageant.Common.Options.{◌>>=◌, ◌>>◌, guard, >>=-eq-some}
use winssh_pageant.Wire.{take_string}
use winssh_pageant.Wire.Strings.{put_string, take_string_sound, take_string-All}
use winssh_pageant.Sign.{expect_byte, nonempty}

pub string_step {ℓ} :
    {B : Type ℓ} (d : Bytes) (f : Bytes × Bytes → Option B) {b : B}
    → All IsByte d
    → (take_string d >>= f) ≡ some b
    → (v : Bytes) × (rest : Bytes) × (d ≡ put_string v ++ rest)
      × All IsByte v
      × All IsByte rest
      × (f (v, rest) ≡ some b)
string_step d f h e =
    let ((v, rest), e1, e2) = >>=-eq-some (take_string d) f e in
    let (hv, hr) = take_string-All d h e1 in (v, rest, take_string_sound d h e1, hv, hr, e2)

pub guard_step {ℓ} :
    {B : Type ℓ} (c : Bool) (k : Option B) {b : B}
    → (guard c >> k) ≡ some b
    → (c ≡ true) × (k ≡ some b)
guard_step true k e = (refl, e)
guard_step false k e = cc

pub expect_byte-step {ℓ} :
    {B : Type ℓ} (c : ℕ) (d : Bytes) (f : Bytes → Option B) {b : B}
    → All IsByte d
    → (expect_byte c d >>= f) ≡ some b
    → (rest : Bytes) × (d ≡ c ∷ rest) × All IsByte rest × (f rest ≡ some b)
unfolding expect_byte
expect_byte-step c [] f h e = cc
expect_byte-step c (x ∷ rest) f h e = elim (Bool-cases (x == c)) [
  | inl hit ↦ (rest, ground arith, h.1, rw hit at e)
  | inr miss ↦ ground arith
]

pub nonempty→le : (s : Bytes) → nonempty s ≡ true → 1 ≤ length s
nonempty→le s e = ground arith

pub le→nonempty : (s : Bytes) → 1 ≤ length s → nonempty s ≡ true
le→nonempty s h = ground arith

pub empty_eq-nil : (s : Bytes) → (length s == 0) ≡ true → s ≡ []
empty_eq-nil [] e = refl
empty_eq-nil (x ∷ s) e = ground arith

pub guard-true : (c : Bool) → guard c ≡ some tt → c ≡ true
guard-true true e = refl
guard-true false e = cc
