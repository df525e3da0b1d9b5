-- ===== src/Conn.antt =====
-- A connection as the program sees it: `net.Conn`, which go-winio implements over a named pipe,
-- and `io.ReadFull` on it. What the peer and the system answer is a script that is part of the
-- connection: one entry for each call of a deadline setter and of Write, and one for each piece
-- of data that arrives. A script that is used up answers as a closed pipe does. Nothing is
-- assumed of the scripts, so a theorem over all connections holds for all peers.
pub mod Reading
use winssh_pageant.Common.{
  ℕ, zero, suc, ◌-◌, ◌≡◌, refl, Bool, true, false, ◌||◌, Option, none, some, List, [], ◌∷◌, ◌++◌,
  ltb, leb, ◌==◌, if◌then◌else◌, Bytes, length, take, drop,
}
use winssh_pageant.Common.Results.{Result, ok, err}

pub data IoError : Type 0 where
  eof unexpected_eof timeout closed_pipe short_write access_denied : IoError

-- A deadline is the number of seconds from the call that set it; `none` waits for ever.
pub record Conn : Type 0 where
  pub deadline_answers : List (Option IoError)
  pub write_answers : List (ℕ × Option IoError)
  pub incoming : List (Bytes × Option IoError)
  pub sent : Bytes
  pub read_deadline : Option ℕ
  pub write_deadline : Option ℕ

-- A step on a connection that may fail.
abbrev pub Io {ℓ κ} : Type ℓ → Type κ → Type (ℓ ⊔ κ)
Io E A = Conn → Result E A × Conn

abbrev pub continue {ℓ κ μ} :
    {E : Type ℓ} {A : Type κ} {B : Type μ} → (A → Io E B) → Result E A × Conn → Result E B × Conn
continue f (ok a, c) = f a c
continue f (err e, c) = (err e, c)

infixl 5 ◌>>=◌ ◌>>◌
abbrev pub ◌>>=◌ {ℓ κ μ} : {E : Type ℓ} {A : Type κ} {B : Type μ} → Io E A → (A → Io E B) → Io E B
◌>>=◌ m f c = continue f (m c)

abbrev pub ◌>>◌ {ℓ κ} : {E : Type ℓ} {B : Type κ} → Io E (Unit {0}) → Io E B → Io E B
m >> k = m >>= λ _. k

abbrev pub pure {ℓ κ} : {E : Type ℓ} {A : Type κ} → A → Io E A
pure a c = (ok a, c)

abbrev pub fail {ℓ κ} : {E : Type ℓ} {A : Type κ} → E → Io E A
fail e c = (err e, c)

-- The next answer of a deadline setter.
deadline_answer : List (Option IoError) → Result IoError (Unit {0}) × List (Option IoError)
deadline_answer [] = (err closed_pipe, [])
deadline_answer (none ∷ rest) = (ok tt, rest)
deadline_answer (some e ∷ rest) = (err e, rest)

unfoldable pub set_read_deadline : Option ℕ → Io IoError (Unit {0})
unfolding deadline_answer
set_read_deadline d c =
    let (r, rest) = deadline_answer c.deadline_answers in
    (r, record c { deadline_answers = rest; read_deadline = d })

unfoldable pub set_write_deadline : Option ℕ → Io IoError (Unit {0})
unfolding deadline_answer
set_write_deadline d c =
    let (r, rest) = deadline_answer c.deadline_answers in
    (r, record c { deadline_answers = rest; write_deadline = d })

-- `io.ReadFull` reports an end of input behind the first byte as unexpected.
short_read : Bytes → IoError → IoError
short_read [] e = e
short_read (b ∷ got) eof = unexpected_eof
short_read (b ∷ got) e = e

-- The loop of `io.ReadFull`. One Read takes the next piece of data, or as much of it as is wanted.
unfoldable pub fill :
    Bytes → ℕ → List (Bytes × Option IoError) → Result IoError Bytes × List (Bytes × Option IoError)
unfolding short_read
fill got zero pieces = (ok got, pieces)
fill got (suc n) [] = (err (short_read got eof), [])
fill got (suc n) ((piece, e) ∷ pieces) = elim (leb (suc n) (length piece)) [
  | true ↦ (ok (got ++ take (suc n) piece), (drop (suc n) piece, e) ∷ pieces)
  | false ↦ elim e [
    | some x ↦ (err (short_read (got ++ piece) x), pieces)
    | none ↦ fill (got ++ piece) (suc n - length piece) pieces
  ]
]

unfoldable pub read_full : ℕ → Io IoError Bytes
unfolding fill
read_full n c = let (r, rest) = fill [] n c.incoming in (r, record c { incoming = rest })

-- The answer of a connection that was read from, with its error named for the caller.
abbrev pub map_err {ℓ κ μ} :
    {E : Type ℓ} {F : Type κ} {A : Type μ} → (E → F) → Result E A → Result F A
map_err f (ok a) = ok a
map_err f (err e) = err (f e)

abbrev pub with_error {ℓ κ μ} : {E : Type ℓ} {F : Type κ} {A : Type μ} → (E → F) → Io E A → Io F A
with_error f m c = let (r, c') = m c in (map_err f r, c')

continue-eq-ok {ℓ κ μ} :
    {E : Type ℓ} {A : Type κ} {B : Type μ} (f : A → Io E B) (r : Result E A × Conn) {b : B}
    {d : Conn}
    → continue f r ≡ (ok b, d)
    → (a : A) × (c' : Conn) × (r ≡ (ok a, c')) × (f a c' ≡ (ok b, d))
continue-eq-ok f (ok a, c) e = (a, c, refl, e)
continue-eq-ok f (err x, c) e = absurd (cc)

-- Inversion of a successful step.
pub >>=-eq-ok {ℓ κ μ} :
    {E : Type ℓ} {A : Type κ} {B : Type μ} (m : Io E A) (f : A → Io E B) (c : Conn) {b : B}
    {d : Conn}
    → (m >>= f) c ≡ (ok b, d)
    → (a : A) × (c' : Conn) × (m c ≡ (ok a, c')) × (f a c' ≡ (ok b, d))
>>=-eq-ok m f c {b} {d} e = continue-eq-ok f (m c) e

map_err-eq-ok {ℓ κ μ} :
    {E : Type ℓ} {F : Type κ} {A : Type μ} (f : E → F) (r : Result E A) {a : A}
    → map_err f r ≡ ok a
    → r ≡ ok a
map_err-eq-ok f (ok a) e = cc
map_err-eq-ok f (err x) e = absurd (cc)

pub with_error-eq-ok {ℓ κ μ} :
    {E : Type ℓ} {F : Type κ} {A : Type μ} (f : E → F) (m : Io E A) (c : Conn) {a : A} {d : Conn}
    → with_error f m c ≡ (ok a, d)
    → m c ≡ (ok a, d)
with_error-eq-ok f m c {a} {d} e = λ i. (map_err-eq-ok f (m c).0 {a = a} (λ j. (e j).0) i, (e i).1)
