-- ===== src/Agent/Pipe.antt =====
-- `localPipeName` of openssh/agent.go: the guard on the name of the agent's pipe.
use winssh_pageant.Common.{
  ℕ, ◌≡◌, ◌⊎◌, inl, inr, Bool, true, false, not, ◌&&◌, ◌||◌, [], ◌∷◌, ltb, ◌++◌, ◌<◌, ◌≤◌, Bytes,
  codes, length, has_prefix, contains_byte, arith, map,
}
use winssh_pageant.Library.{Library}
use winssh_pageant.Text.Case.{to_lower, is_ascii, lower_ascii}

-- `\\.\pipe\` and `\\?\pipe\`
abbrev pub dot_prefix : Bytes
dot_prefix = b'\\' ∷ b'\\' ∷ b'.' ∷ b'\\' ∷ b'p' ∷ b'i' ∷ b'p' ∷ b'e' ∷ b'\\' ∷ []

abbrev pub query_prefix : Bytes
query_prefix = b'\\' ∷ b'\\' ∷ b'?' ∷ b'\\' ∷ b'p' ∷ b'i' ∷ b'p' ∷ b'e' ∷ b'\\' ∷ []

unfoldable pub local_pipe_name : Library → Bytes → Bool
local_pipe_name lib name =
    let lower = to_lower lib name in
    (has_prefix dot_prefix lower || has_prefix query_prefix lower)
    && ltb (length dot_prefix) (length name)
    && not (contains_byte 0 name)

-- A name of the local forms: the word `pipe` in any case, and something behind it.
abbrev pub IsLocal : Bytes → Type 0
IsLocal name =
    (mark : ℕ) × (word : Bytes) × (rest : Bytes) × (name
      ≡ b'\\' ∷ b'\\' ∷ mark ∷ b'\\' ∷ (word ++ (b'\\' ∷ rest)))
    × ((mark ≡ b'.') ⊎ (mark ≡ b'?'))
    × (map lower_ascii word ≡ codes "pipe")
    × (1 ≤ length rest)
    × (contains_byte 0 name ≡ false)

lower_ascii_fixed : (x k : ℕ) → lower_ascii x ≡ k → (k < b'a') ⊎ (b'z' < k) → x ≡ k
lower_ascii_fixed x k e h = ground arith

-- What a local prefix says of the characters in front.
prefix_chars :
    (a b c d p q r t z : ℕ) (rest : Bytes)
    → (has_prefix dot_prefix (a ∷ b ∷ c ∷ d ∷ p ∷ q ∷ r ∷ t ∷ z ∷ rest)
        || has_prefix query_prefix (a ∷ b ∷ c ∷ d ∷ p ∷ q ∷ r ∷ t ∷ z ∷ rest))
      ≡ true
    → (a ≡ b'\\')
      × (b ≡ b'\\')
      × (d ≡ b'\\')
      × (z ≡ b'\\')
      × ((c ≡ b'.') ⊎ (c ≡ b'?'))
      × (p ∷ q ∷ r ∷ t ∷ [] ≡ codes "pipe")
unfolding has_prefix
prefix_chars a b c d p q r t z rest e = ground arith

lower_chars :
    (a b c d z : ℕ)
    → (lower_ascii a ≡ b'\\')
      × (lower_ascii b ≡ b'\\')
      × (lower_ascii d ≡ b'\\')
      × (lower_ascii z ≡ b'\\')
      × ((lower_ascii c ≡ b'.') ⊎ (lower_ascii c ≡ b'?'))
    → (a ≡ b'\\') × (b ≡ b'\\') × (d ≡ b'\\') × (z ≡ b'\\') × ((c ≡ b'.') ⊎ (c ≡ b'?'))
lower_chars a b c d z (ea, eb, ed, ez, ec) = (
  lower_ascii_fixed a _ ea (inl (omega arith)),
  lower_ascii_fixed b _ eb (inl (omega arith)),
  lower_ascii_fixed d _ ed (inl (omega arith)),
  lower_ascii_fixed z _ ez (inl (omega arith)),
  mark ec,
)
  where
    mark : (lower_ascii c ≡ b'.') ⊎ (lower_ascii c ≡ b'?') → (c ≡ b'.') ⊎ (c ≡ b'?')
    mark (inl e) = inl (lower_ascii_fixed c _ e (inl (omega arith)))
    mark (inr e) = inr (lower_ascii_fixed c _ e (inl (omega arith)))

-- The tests of `local_pipe_name` on ASCII text.
ascii_tests :
    (lib : Library) (name : Bytes)
    → is_ascii name ≡ true
    → local_pipe_name lib name ≡ true
    → ((has_prefix dot_prefix (map lower_ascii name)
          || has_prefix query_prefix (map lower_ascii name))
        ≡ true)
      × (10 ≤ length name)
      × (contains_byte 0 name ≡ false)
unfolding local_pipe_name to_lower
ascii_tests lib name a e = ground arith

long_name-IsLocal :
    (name : Bytes)
    → (has_prefix dot_prefix (map lower_ascii name)
        || has_prefix query_prefix (map lower_ascii name))
      ≡ true
    → 10 ≤ length name
    → contains_byte 0 name ≡ false
    → IsLocal name
long_name-IsLocal (a ∷ b ∷ c ∷ d ∷ p ∷ q ∷ r ∷ t ∷ z ∷ rest) e l n =
    let (ea, eb, ed, ez, ec, word) =
      prefix_chars (lower_ascii a) (lower_ascii b) (lower_ascii c) (lower_ascii d) (lower_ascii p)
        (lower_ascii q) (lower_ascii r) (lower_ascii t) (lower_ascii z) (map lower_ascii rest) e in
    let (fa, fb, fd, fz, fc) = lower_chars a b c d z (ea, eb, ed, ez, ec) in
    (c, p ∷ q ∷ r ∷ t ∷ [], rest, rw (fa, fb, fd, fz), fc, word, omega arith, n)
long_name-IsLocal name e l n = absurd (omega arith)

-- An ASCII name that passes the guard is a name of the local forms: the name of a pipe on another
-- machine, which has a server's name for its third character and more, is refused.
pub local_pipe_name-IsLocal :
    (lib : Library) (name : Bytes)
    → is_ascii name ≡ true
    → local_pipe_name lib name ≡ true
    → IsLocal name
local_pipe_name-IsLocal lib name a e =
    let (p, l, n) = ascii_tests lib name a e in long_name-IsLocal name p l n
