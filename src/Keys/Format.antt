-- ===== src/Keys/Format.antt =====
-- An independent description of the reply that lists keys, and of the key blobs in it.
use winssh_pageant.Common.{
  ℕ, ◌*◌, ◌≤◌, ◌≡◌, refl, ◌↔◌, true, Option, some, List, [], ◌∷◌, ◌++◌, Option-cases, inl, inr,
  arith, Bytes, IsByte, All, put_u32, length, length-append,
}
use winssh_pageant.Common.Options.{◌>>=◌}
use winssh_pageant.Library.{Library}
use winssh_pageant.Keys.{Key, key_of, all_visible, checked_type, public_key_type, identities_answer}
use winssh_pageant.Wire.{take_string}
use winssh_pageant.Wire.Strings.{put_string, take_string_sound, take_string-put_string}

-- The entries of a list: a public key blob and its comment.
unfoldable pub put_keys : List (Bytes × Bytes) → Bytes
put_keys [] = []
put_keys ((blob, comment) ∷ es) = put_string blob ++ (put_string comment ++ put_keys es)

abbrev pub answer_payload : List (Bytes × Bytes) → Bytes
answer_payload es = identities_answer ∷ (put_u32 (length es) ++ put_keys es)

unfoldable pub identities_reply : List (Bytes × Bytes) → Bytes
identities_reply es = put_string (answer_payload es)

-- The metadata of the entries, if every blob names its type.
unfoldable pub keys_of : Library → List (Bytes × Bytes) → Option (List Key)
keys_of lib [] = some []
keys_of lib ((blob, comment) ∷ es) = do
  key_type ← public_key_type blob
  keys ← keys_of lib es
  some (key_of lib key_type blob comment ∷ keys)

pub length-put_keys : (es : List (Bytes × Bytes)) → 8 * length es ≤ length (put_keys es)
unfolding put_keys put_string
length-put_keys [] = omega arith
length-put_keys ((blob, comment) ∷ es) = omega (
  arith,
  length-append blob (put_string comment ++ put_keys es),
  length-append comment (put_keys es),
  length-put_keys es,
)

abbrev pub IsVisible : ℕ → Type 0
IsVisible b = (33 ≤ b) × (b ≤ 126)

all_visible-All : (s : Bytes) → all_visible s ≡ true → All IsVisible s
unfolding all_visible
all_visible-All [] h = tt
all_visible-All (b ∷ bs) h = ground (arith, all_visible-All bs)

All-all_visible : (s : Bytes) → All IsVisible s → all_visible s ≡ true
unfolding all_visible
All-all_visible [] h = refl
All-all_visible (b ∷ bs) h = ground (arith, All-all_visible bs h.1)

-- A type name, behind which a blob has the key itself.
abbrev pub IsTyped : Bytes → Bytes → Type 0
IsTyped key_type blob =
    (rest : Bytes) × (blob ≡ put_string key_type ++ rest)
    × (1 ≤ length rest)
    × (1 ≤ length key_type)
    × (length key_type ≤ 128)
    × All IsVisible key_type

-- `publicKeyType` answers for the blobs that begin with a visible name of 1 to 128 characters and
-- go on behind it, and for no others.
pub public_key_type_iff :
    (blob key_type : Bytes)
    → All IsByte blob
    → (public_key_type blob ≡ some key_type) ↔ IsTyped key_type blob
unfolding public_key_type
public_key_type_iff blob key_type h = (sound, complete)
  where
    sound : public_key_type blob ≡ some key_type → IsTyped key_type blob
    sound e = elim (Option-cases (take_string blob)) [
      | inl missing ↦ cc (rw missing at e)
      | inr ((v, rest), found) ↦
          let checked : checked_type (some (v, rest)) ≡ some key_type = rw found at e in
          (
            rest,
            ground (arith, take_string_sound blob h found),
            ground arith,
            ground arith,
            ground arith,
            ground (arith, all_visible-All v),
          )
    ]

    complete : IsTyped key_type blob → public_key_type blob ≡ some key_type
    complete (rest, e, r, lo, hi, v) =
        rw (e, take_string-put_string key_type rest (omega arith))
          (ground (arith, All-all_visible key_type v))
