-- ===== src/Client/Target/Safe.antt =====
-- What may stand in a destination.
use winssh_pageant.Common.{
  ℕ, ◌≤◌, ◌≡◌, refl, ◌⊎◌, inl, inr, true, false, not, ◌&&◌, ◌||◌, Bool-cases, some, Option-cases,
  List, [], ◌∷◌, ltb, arith, Bytes, codes, length, has_prefix, contains_byte, All,
}
use winssh_pageant.Library.{Library}
use winssh_pageant.Text.Utf8.{decode_runes}
use winssh_pageant.Text.Case.{to_lower}
use winssh_pageant.Client.{ConnectionTarget}
use winssh_pageant.Client.Target.{
  Url, Parsers, is_bad, any_bad, is_empty, is_plain, safe_target_field, contains_any, safe_host,
  before, parse_port, with_user, with_host, with_port, located, from_url, split_at, from_plain,
  trim_left, trim_right, parse_destination,
}

any_bad-false :
    (lib : Library) (rs : List ℕ) → any_bad lib rs ≡ false → All (λ r. is_bad lib r ≡ false) rs
unfolding any_bad
any_bad-false lib [] e = tt
any_bad-false lib (r ∷ rs) e = (ground arith, any_bad-false lib rs (ground arith))

-- Short, and without blanks, controls and format characters.
abbrev pub IsField : Library → Bytes → Type 0
IsField lib s = (length s ≤ 253) × All (λ r. is_bad lib r ≡ false) (decode_runes s)

-- Also without path, quote and user separators and without the look of an option, and an address
-- if it has a colon.
abbrev pub IsHost : Library → Parsers → Bytes → Type 0
IsHost lib parsers s =
    IsField lib s
    × (contains_any (codes "/\\@\"'") s ≡ false)
    × (has_prefix (codes "-") s ≡ false)
    × ((contains_byte b':' s ≡ false) ⊎ (parsers.is_ip (before b'%' s) ≡ true))

pub safe_target_field-IsField :
    (lib : Library) (value : Bytes)
    → (safe_target_field lib value ≡ [])
      ⊎ ((safe_target_field lib value ≡ value) × IsField lib value)
unfolding safe_target_field
safe_target_field-IsField lib value = elim (Bool-cases (is_empty value || ltb 253 (length value))) [
  | inl bad ↦ inl (rw (bad, safe_target_field) refl)
  | inr fits ↦ elim (Bool-cases (any_bad lib (decode_runes value))) [
    | inl bad ↦ inl (rw (fits, bad, safe_target_field) refl)
    | inr good ↦ inr (
      rw (fits, good, safe_target_field) refl,
      (ground (arith, fits), any_bad-false lib (decode_runes value) good),
    )
  ]
]

pub safe_host-IsHost :
    (lib : Library) (parsers : Parsers) (host : Bytes)
    → (safe_host lib parsers host ≡ []) ⊎ IsHost lib parsers (safe_host lib parsers host)
unfolding safe_host
safe_host-IsHost lib parsers host =
    let odd =
      is_empty (safe_target_field lib host)
      || contains_any (codes "/\\@\"'") host
      || has_prefix (codes "-") host in
    elim (Bool-cases odd) [
      | inl bad ↦ inl (rw (bad, safe_host) refl)
      | inr fine ↦
          elim (Bool-cases (contains_byte b':' host && not (parsers.is_ip (before b'%' host)))) [
            | inl bad ↦ inl (rw (fine, bad, safe_host) refl)
            | inr good ↦ inr (
                rw (fine, good, safe_host)
                  (
                    field_of host (ground (arith, fine)),
                    ground (arith, fine),
                    ground (arith, fine),
                    ground (arith, good),
                  ))
          ]
    ]
  where
    field_of : (s : Bytes) → is_empty (safe_target_field lib s) ≡ false → IsField lib s
    field_of s e = ground (arith, safe_target_field-IsField lib s)

-- A target that may be shown: every part is empty or well formed.
abbrev pub IsShowable : Library → Parsers → ConnectionTarget → Type 0
IsShowable lib parsers t =
    ((t.user ≡ []) ⊎ IsField lib t.user)
    × ((t.host ≡ []) ⊎ IsHost lib parsers t.host)
    × (t.port ≤ 65535)

pub parse_port_le : (s : Bytes) {n : ℕ} → parse_port s ≡ some n → (1 ≤ n) × (n ≤ 65535)
unfolding parse_port
parse_port_le s e = ground arith

pub IsField-or_empty :
    (lib : Library) (s : Bytes)
    → (safe_target_field lib s ≡ []) ⊎ IsField lib (safe_target_field lib s)
IsField-or_empty lib s = elim (safe_target_field-IsField lib s) [
  | inl none_left ↦ inl none_left
  | inr (same, field) ↦ inr (rw same field)
]

module _ (lib : Library) (parsers : Parsers) where
  with_user-IsShowable :
      (user : Bytes) (t : ConnectionTarget)
      → IsShowable lib parsers t
      → IsShowable lib parsers (with_user lib user t)
  unfolding with_user
  with_user-IsShowable user t (u, h, p) = elim (Bool-cases (is_empty t.user)) [
    | inl unknown ↦ (rw (unknown, with_user) (IsField-or_empty lib user), h, p)
    | inr known ↦ (rw (known, with_user) u, h, p)
  ]

  with_host-IsShowable :
      (host : Bytes) (t : ConnectionTarget)
      → IsShowable lib parsers t
      → IsShowable lib parsers (with_host lib parsers host t)
  unfolding with_host
  with_host-IsShowable host t (u, h, p) = elim (Bool-cases (is_empty t.host)) [
    | inl unknown ↦ (u, rw (unknown, with_host) (safe_host-IsHost lib parsers host), p)
    | inr known ↦ (u, rw (known, with_host) h, p)
  ]

  with_port-IsShowable :
      (text : Bytes) (t : ConnectionTarget)
      → IsShowable lib parsers t
      → IsShowable lib parsers (with_port text t)
  unfolding with_port
  with_port-IsShowable text t (u, h, p) = elim (Bool-cases (is_empty text)) [
    | inl absent ↦ rw (absent, with_port) (u, h, p)
    | inr given ↦ elim (Option-cases (parse_port text)) [
      | inl bad ↦ rw (given, bad, with_port) (u, inl refl, p)
      | inr (n, good) ↦ rw (given, good, with_port) (u, h, ground (arith, parse_port_le text good))
    ]
  ]

  located-IsShowable :
      (url : Url) (t : ConnectionTarget)
      → IsShowable lib parsers t
      → IsShowable lib parsers (located lib parsers url t)
  unfolding located
  located-IsShowable url t h =
      with_port-IsShowable url.port (with_host lib parsers url.hostname t)
        (with_host-IsShowable url.hostname t h)

  from_url-IsShowable :
      (url : Url) (t : ConnectionTarget)
      → IsShowable lib parsers t
      → IsShowable lib parsers (from_url lib parsers url t)
  unfolding from_url
  from_url-IsShowable url t h = elim (Bool-cases (not (is_plain url))) [
    | inl odd ↦ rw (odd, from_url) h
    | inr plain ↦ elim (Option-cases url.user) [
      | inl anybody ↦ rw (plain, anybody, from_url) (located-IsShowable url t h)
      | inr ((name, has_password), e) ↦ elim (Bool-cases has_password) [
        | inl secret ↦ rw (plain, e, secret, from_url) h
        | inr open_name ↦
            rw (plain, e, open_name, from_url)
              (located-IsShowable url (with_user lib name t) (with_user-IsShowable name t h))
      ]
    ]
  ]

  from_plain-IsShowable :
      (value : Bytes) (t : ConnectionTarget)
      → IsShowable lib parsers t
      → IsShowable lib parsers (from_plain lib parsers value t)
  unfolding from_plain
  from_plain-IsShowable value t h =
      let rest = trim_right (trim_left (split_at value).1) in
      elim (Option-cases (split_at value).0) [
        | inl anybody ↦ rw (anybody, from_plain) (with_host-IsShowable rest t h)
        | inr (user, e) ↦
            rw (e, from_plain)
              (with_host-IsShowable rest (with_user lib user t) (with_user-IsShowable user t h))
      ]

  -- Whatever the client's argument and the parsers answer, a destination adds only well-formed text
  -- to a target: no blank, control or format character and no separator reaches a notification.
  pub parse_destination-IsShowable :
      (value : Bytes) (t : ConnectionTarget)
      → IsShowable lib parsers t
      → IsShowable lib parsers (parse_destination lib parsers t value)
  unfolding parse_destination
  parse_destination-IsShowable value t h =
      elim (Bool-cases (has_prefix (codes "ssh://") (to_lower lib value))) [
        | inl scheme ↦ elim (Option-cases (parsers.parse_url value)) [
          | inl bad ↦ rw (scheme, bad, parse_destination) h
          | inr (url, good) ↦ rw (scheme, good, parse_destination) (from_url-IsShowable url t h)
        ]
        | inr plain ↦ rw (plain, parse_destination) (from_plain-IsShowable value t h)
      ]
