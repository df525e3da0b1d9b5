-- ===== src/Sign/SignedKey.antt =====
-- The part of a userauth payload behind the method's name.
use winssh_pageant.Common.{
  ◌^◌, ◌≤◌, ◌<◌, ◌≡◌, refl, sym, ap, ◌∙◌, Bool, true, false, Option, none, some, [], ◌∷◌, ◌++◌,
  ◌==◌, if◌then◌else◌, arith, Bytes, IsByte, All, length, bytes_eq, bytes_eq→eq, bytes_eq_refl,
}
use mathlib.Core.List.{append-nil}
use winssh_pageant.Common.Options.{>>=-eq-some}
use winssh_pageant.Wire.Strings.{length-put_string, put_string, take_string-put_string}
use winssh_pageant.Sign.{expect_byte, nonempty, host_key, signed_key}
use winssh_pageant.Sign.Format.{put_host_key}
use winssh_pageant.Sign.Steps.{
  string_step, guard_step, expect_byte-step, guard-true, nonempty→le, le→nonempty, empty_eq-nil,
}

-- The parts that may not be empty.
abbrev pub HasHostKey : Option Bytes → Type 0
HasHostKey none = Unit
HasHostKey (some host) = 1 ≤ length host

abbrev pub is_hostbound : Option Bytes → Bool
is_hostbound none = false
is_hostbound (some host) = true

-- What a successful `signed_key` has read.
abbrev pub SignedKey : Bool → Bytes → Bytes → Type 0
SignedKey hostbound key d =
    (algorithm : Bytes) × (host : Option Bytes) × (is_hostbound host ≡ hostbound)
    × (d ≡ 1 ∷ (put_string algorithm ++ (put_string key ++ put_host_key host)))
    × (1 ≤ length algorithm)
    × HasHostKey host

host_key_step :
    (d : Bytes) {rest : Bytes}
    → All IsByte d
    → host_key d ≡ some rest
    → (host : Bytes) × (d ≡ put_string host ++ rest) × (1 ≤ length host)
unfolding host_key
host_key_step d {rest} h e =
    let (host, last, split, _, _, e1) = string_step d _ h e in
    let (full, e2) = guard_step (nonempty host) (some last) e1 in
    (host, ground arith, nonempty→le host full)

-- The two forms of what stands behind the key.
last_step :
    (hostbound : Bool) (d : Bytes) {rest : Bytes}
    → All IsByte d
    → (if hostbound then host_key d else some d) ≡ some rest
    → rest ≡ []
    → (host : Option Bytes) × (is_hostbound host ≡ hostbound)
      × (d ≡ put_host_key host)
      × HasHostKey host
last_step true d h e nil =
    let (host, split, full) = host_key_step d h e in
    (some host, refl, split ∙ rw nil (append-nil (put_string host)), full)
last_step false d h e nil = (none, refl, ground arith, tt)

pub signed_key-SignedKey :
    (hostbound : Bool) (key d : Bytes)
    → All IsByte d
    → signed_key hostbound key d ≡ some tt
    → SignedKey hostbound key d
unfolding signed_key
signed_key-SignedKey hostbound key d h e =
    let (flagged, s1, h1, e1) = expect_byte-step 1 d _ h e in
    let (algorithm, more, s2, _, h2, e2) = string_step flagged _ h1 e1 in
    let (full, e3) = guard_step (nonempty algorithm) _ e2 in
    let (k, tail, s3, _, h3, e4) = string_step more _ h2 e3 in
    let (same, e5) = guard_step (bytes_eq k key) _ e4 in
    let (last, e6, e7) = >>=-eq-some (if hostbound then host_key tail else some tail) _ e5 in
    let none_left = empty_eq-nil last (guard-true (length last == 0) e7) in
    let (host, b, s4, full') = last_step hostbound tail h3 e6 none_left in
    (
      algorithm,
      host,
      b,
      cc (s1, s2, s3, s4, bytes_eq→eq k key same),
      nonempty→le algorithm full,
      full',
    )

parts_fit :
    (v w rest : Bytes)
    → length (1 ∷ (put_string v ++ (put_string w ++ rest))) < 2 ^ 32
    → (length v < 2 ^ 32) × (length w < 2 ^ 32) × (length rest < 2 ^ 32)
parts_fit v w rest h =
    omega (arith, length-put_string v (put_string w ++ rest), length-put_string w rest)

host_key-put_string :
    (host : Bytes) → 1 ≤ length host → length host < 2 ^ 32 → host_key (put_string host) ≡ some []
unfolding host_key
host_key-put_string host full h =
    rw (sym (append-nil (put_string host)), take_string-put_string host [] h, le→nonempty host full)

-- The same parts, each with a length that four bytes hold, are read.
pub SignedKey-signed_key :
    (algorithm key : Bytes) (host : Option Bytes)
    → length (1 ∷ (put_string algorithm ++ (put_string key ++ put_host_key host))) < 2 ^ 32
    → 1 ≤ length algorithm
    → HasHostKey host
    → signed_key
        (is_hostbound host)
        key
        (1 ∷ (put_string algorithm ++ (put_string key ++ put_host_key host)))
      ≡ some tt
unfolding signed_key expect_byte
SignedKey-signed_key algorithm key none h full f =
    let (a, k, n) = parts_fit algorithm key [] h in
    rw (
      take_string-put_string algorithm (put_string key ++ []) a,
      le→nonempty algorithm full,
      take_string-put_string key [] k,
      bytes_eq_refl key,
    )
SignedKey-signed_key algorithm key (some host) h full f =
    let (a, k, n) = parts_fit algorithm key (put_string host) h in
    rw (
      take_string-put_string algorithm (put_string key ++ put_string host) a,
      le→nonempty algorithm full,
      take_string-put_string key (put_string host) k,
      bytes_eq_refl key,
      host_key-put_string host f
          (omega (arith, n, length-put_string host [], ap length (append-nil (put_string host)))),
    )
