-- ===== src/Agent/Exchange/Sending.antt =====
-- What the write loop puts on the wire.
use winssh_pageant.Common.{
  ℕ, ◌≤◌, ◌≡◌, refl, ◌∙◌, ◌||◌, Option, none, some, List, [], ◌∷◌, ◌++◌, ltb, ◌==◌, inl, inr,
  Bool-cases, arith, Bytes, length, take, drop, take-append-drop,
}
use mathlib.Core.List.{append_assoc}
use winssh_pageant.Conn.{IoError}
use winssh_pageant.Agent.Exchange.{send}

cut : (out : Bytes) (n : ℕ) (bs : Bytes) → out ++ bs ≡ (out ++ take n bs) ++ drop n bs
cut out n bs = rw (append_assoc out (take n bs) (drop n bs), take-append-drop n bs)

-- Whatever the Write calls answer, what went out is a prefix of the request, and all of it if the
-- loop ended well: nothing is sent twice or out of order.
pub send-Prefix :
    (request : Bytes) (answers : List (ℕ × Option IoError)) (out : Bytes)
    → (left : Bytes) × (out ++ request ≡ (send request answers out).bytes ++ left)
      × ((send request answers out).failure ≡ none → left ≡ [])
unfolding send
send-Prefix [] answers out = ([], refl, λ _. refl)
send-Prefix (b ∷ bs) [] out = (b ∷ bs, refl, λ e. absurd (cc))
send-Prefix (b ∷ bs) ((n, some e) ∷ answers) out =
    (drop n (b ∷ bs), cut out n (b ∷ bs), λ x. absurd (cc))
send-Prefix (b ∷ bs) ((n, none) ∷ answers) out =
    elim (Bool-cases (n == 0 || ltb (length (b ∷ bs)) n)) [
      | inl refused ↦ rw (refused, send) (drop n (b ∷ bs), cut out n (b ∷ bs), λ x. absurd (cc))
      | inr taken ↦
          let (left, e, all) = send-Prefix (drop n (b ∷ bs)) answers (out ++ take n (b ∷ bs)) in
          rw (taken, send) (left, cut out n (b ∷ bs) ∙ e, all)
    ]

-- Each Write takes at least one of the bytes that are left, until none is.
abbrev pub Accepts : Bytes → List (ℕ × Option IoError) → Type 0
Accepts request [] = request ≡ []
Accepts [] ((n, e) ∷ answers) = Unit
Accepts (b ∷ bs) ((n, e) ∷ answers) =
    (e ≡ none) × (1 ≤ n) × (n ≤ length (b ∷ bs)) × Accepts (drop n (b ∷ bs)) answers

-- The loop ends well on every such peer, however it cuts the request.
pub send-total :
    (request : Bytes) (answers : List (ℕ × Option IoError)) (out : Bytes)
    → Accepts request answers
    → (send request answers out).failure ≡ none
unfolding send
send-total [] answers out h = refl
send-total (b ∷ bs) [] out h = absurd (cc)
send-total (b ∷ bs) ((n, e) ∷ answers) out (none_e, lo, hi, h) =
    let rest = send-total (drop n (b ∷ bs)) answers (out ++ take n (b ∷ bs)) h in
    rw none_e (ground (arith, rest))
