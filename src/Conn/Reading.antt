-- ===== src/Conn/Reading.antt =====
-- What `io.ReadFull` takes from the input.
use winssh_pageant.Common.{
  ℕ, zero, suc, ◌-◌, ◌≤◌, ◌<◌, ◌≡◌, refl, sym, ap, ◌∙◌, false, Option, none, some, inl, inr,
  Bool-cases, List, [], ◌∷◌, ◌++◌, leb, arith, Bytes, length, take, drop, take-append-drop,
  length-take_le, length-append,
}
use mathlib.Core.List.{append_assoc, append-nil}
use winssh_pageant.Common.Results.{ok}
use winssh_pageant.Conn.{Conn, IoError, fill, read_full}

-- The bytes that are to arrive.
abbrev pub stream : List (Bytes × Option IoError) → Bytes
stream [] = []
stream ((piece, e) ∷ pieces) = piece ++ stream pieces

leb-false : (a b : ℕ) → leb a b ≡ false → b < a
leb-false a b e = ground arith

-- The last piece of a read.
fill-stream_enough :
    (n : ℕ) (piece : Bytes) (pieces : List (Bytes × Option IoError)) (x : Option IoError)
    (got out : Bytes) (rest : List (Bytes × Option IoError))
    → n ≤ length piece
    → (out ≡ got ++ take n piece) × (rest ≡ (drop n piece, x) ∷ pieces)
    → (new : Bytes) × (out ≡ got ++ new)
      × (length new ≡ n)
      × (piece ++ stream pieces ≡ new ++ stream rest)
fill-stream_enough n piece pieces x got out rest h (o, r) = (
  take n piece,
  o,
  length-take_le n piece h,
  rw (
    r,
    sym (append_assoc (take n piece) (drop n piece) (stream pieces)),
    take-append-drop n piece,
  ),
)

-- A full read takes exactly the wanted bytes from the front of the stream, in however many pieces
-- they arrive.
pub fill-stream :
    (pieces : List (Bytes × Option IoError)) (got : Bytes) (n : ℕ) {out : Bytes}
    {rest : List (Bytes × Option IoError)}
    → fill got n pieces ≡ (ok out, rest)
    → (new : Bytes) × (out ≡ got ++ new) × (length new ≡ n) × (stream pieces ≡ new ++ stream rest)
unfolding fill
fill-stream pieces got zero {out} {rest} e =
    ([], ground (arith, append-nil got), refl, ground arith)
fill-stream [] got (suc n) e = absurd (ground arith)
fill-stream ((piece, some x) ∷ pieces) got (suc n) {out} {rest} e =
    elim (Bool-cases (leb (suc n) (length piece))) [
      | inl enough ↦
          fill-stream_enough (suc n) piece pieces (some x) got out rest (ground arith)
            (ground arith)
      | inr more ↦ absurd (ground arith)
    ]
fill-stream ((piece, none) ∷ pieces) got (suc n) {out} {rest} e =
    elim (Bool-cases (leb (suc n) (length piece))) [
      | inl enough ↦
          fill-stream_enough (suc n) piece pieces none got out rest (ground arith) (ground arith)
      | inr more ↦
          let (new, o, l, split) =
            fill-stream pieces (got ++ piece) (suc n - length piece) {out = out} {rest = rest}
              (ground arith) in
          (
            piece ++ new,
            o ∙ append_assoc got piece new,
            omega (arith, l, length-append piece new, leb-false (suc n) (length piece) more),
            ap (λ (t : Bytes). piece ++ t) split ∙ sym (append_assoc piece new (stream rest)),
          )
    ]

-- The whole connection: `n` bytes leave the input, and nothing else changes.
pub read_full-stream :
    (n : ℕ) (c : Conn) {out : Bytes} {d : Conn}
    → read_full n c ≡ (ok out, d)
    → (length out ≡ n)
      × (stream c.incoming ≡ out ++ stream d.incoming)
      × (d ≡ record c { incoming = d.incoming })
unfolding read_full
read_full-stream n c {out} {d} e =
    let (new, o, l, split) =
      fill-stream c.incoming [] n {out = out} {rest = d.incoming} (ground arith) in
    (ap length o ∙ l, split ∙ ap (λ (t : Bytes). t ++ stream d.incoming) (sym o), ground arith)

-- The pieces that are to arrive bring no error.
abbrev pub NoFailure : List (Bytes × Option IoError) → Type 0
NoFailure [] = Unit
NoFailure ((piece, e) ∷ pieces) = (e ≡ none) × NoFailure pieces

-- Two ways to cut a list, at a place inside the first piece and at one behind it.
cut_inside :
    (want piece s more : Bytes)
    → piece ++ s ≡ want ++ more
    → length want ≤ length piece
    → (take (length want) piece ≡ want) × (drop (length want) piece ++ s ≡ more)
cut_inside [] piece s more e h = (refl, e)
cut_inside (w ∷ want) [] s more e h = absurd (omega arith)
cut_inside (w ∷ want) (b ∷ piece) s more e h = ground (arith, cut_inside want piece s more)

cut_behind :
    (piece want s more : Bytes)
    → piece ++ s ≡ want ++ more
    → length piece ≤ length want
    → (later : Bytes) × (want ≡ piece ++ later) × (s ≡ later ++ more)
cut_behind [] want s more e h = (want, refl, e)
cut_behind (b ∷ piece) [] s more e h = absurd (omega arith)
cut_behind (b ∷ piece) (w ∷ want) s more e h =
    let (later, e1, e2) = cut_behind piece want s more (ground arith) (omega arith) in
    (later, ground arith, e2)

-- A read ends well whenever the wanted bytes arrive without an error, in whatever pieces, and it
-- leaves what comes behind them.
pub fill-total :
    (pieces : List (Bytes × Option IoError)) (got want more : Bytes) (n : ℕ)
    → NoFailure pieces
    → stream pieces ≡ want ++ more
    → length want ≡ n
    → (rest : List (Bytes × Option IoError)) × (fill got n pieces ≡ (ok (got ++ want), rest))
      × NoFailure rest
      × (stream rest ≡ more)
unfolding fill
fill-total pieces got [] more zero h e l = (pieces, ground (arith, append-nil got), h, e)
fill-total pieces got (w ∷ want) more zero h e l = absurd (omega arith)
fill-total [] got [] more (suc n) h e l = absurd (omega arith)
fill-total [] got (w ∷ want) more (suc n) h e l = absurd (ground arith)
fill-total ((piece, x) ∷ pieces) got want more (suc n) h e l =
    elim (Bool-cases (leb (suc n) (length piece))) [
      | inl enough ↦
          let (front, back) = cut_inside want piece (stream pieces) more e (ground arith) in
          ((drop (suc n) piece, x) ∷ pieces, ground arith, h, ground arith)
      | inr short ↦
          let (later, w, s) = cut_behind piece want (stream pieces) more e (ground arith) in
          let (rest, run, fine, left) =
            fill-total pieces (got ++ piece) later more (suc n - length piece) h.1 s
              (omega (arith, l, ap length w, length-append piece later)) in
          (rest, ground (arith, append_assoc got piece later), fine, left)
    ]
