-- ===== src/Bridge/CopyData/Safe.antt =====
-- Which window messages are answered, and what an answer writes into the client's memory.
use winssh_pageant.Common.{
  ◌≢◌, ℕ, ◌+◌, ◌-◌, ◌≤◌, ◌≡◌, refl, ◌⊎◌, inl, inr, Bool, true, false, ◌||◌, Option, none, some,
  ◌++◌, ltb, arith, Bytes, be_u32, length, take, drop, get_or, contains_byte, length-take_le,
  Bool-cases, Option-cases,
}
use winssh_pageant.Wire.{max_message_length, validate_response}
use winssh_pageant.Wire.Frames.{generic_fail_response-valid}
use winssh_pageant.Bridge.Query.{Handler, query_using, query_using-valid}
use winssh_pageant.Bridge.CopyData.{
  CopyData, agent_copy_data_id, Mapping, copy_data_name, same_sid, fit, capped, answer_mapped,
  handle_copy_data,
}

-- A reply written over the front of a region, within the protocol's buffer.
abbrev pub IsAnswered : Bytes → Bytes → Type 0
IsAnswered before after =
    (reply : Bytes) × (validate_response reply ≡ none)
    × (length reply ≤ max_message_length)
    × (length reply ≤ length before)
    × (after ≡ reply ++ drop (length reply) before)

fit-valid :
    (room : ℕ) (reply : Bytes)
    → 5 ≤ room
    → validate_response reply ≡ none
    → (validate_response (fit room reply) ≡ none) × (length (fit room reply) ≤ room)
fit-valid room reply h v = ground (arith, generic_fail_response-valid.0)

capped_le : (n : ℕ) → 5 ≤ n → (5 ≤ capped n) × (capped n ≤ n) × (capped n ≤ max_message_length)
capped_le n h = ground arith

module _ {E S : Type 0} (has_desktop : Bool) (handler : Handler E S) where
  answer_mapped-region :
      (region : Bytes) (s : S)
      → 5 ≤ length region
      → let h = answer_mapped has_desktop handler region s in
        (h.region ≡ region) ⊎ IsAnswered region h.region
  unfolding answer_mapped
  answer_mapped-region region s h =
      let n = capped (length region) in
      let count = be_u32 (take 4 region) in
      let request = take (count + 4) region in
      let served = query_using has_desktop handler request s in
      let (lo, hi, top) = capped_le (length region) h in
      let (v, l) = fit-valid n served.reply lo (query_using-valid has_desktop handler request s) in
      elim (Bool-cases (ltb count 1 || ltb (n - 4) count)) [
        | inl refused ↦ inl (ground (arith, refused))
        | inr good ↦ inr (
          fit n served.reply,
          v,
          omega (arith, l, top),
          omega (arith, l, hi),
          ground (arith, good),
        )
      ]

  -- Whatever the message, the region and the handler, the client's memory stays as it was, or its
  -- front holds one valid reply, which fits the region and the buffer, and what lies behind stays.
  pub handle_copy_data-region :
      (cd : Option CopyData) (m : Mapping) (s : S)
      → let h = handle_copy_data has_desktop handler cd m s in
        (h.region ≡ m.region) ⊎ IsAnswered m.region h.region
  unfolding handle_copy_data
  handle_copy_data-region none m s = inl refl
  handle_copy_data-region (some cd) m s = elim (Option-cases (copy_data_name cd)) [
    | inl refused ↦ inl (ground (arith, refused))
    | inr (name, e) ↦ elim (Bool-cases (ltb (length m.region) 5)) [
      | inl short ↦ inl (ground (arith, e, short))
      | inr long ↦ ground (arith, e, answer_mapped-region m.region s)
    ]
  ]

  answer_mapped_facts :
      (region : Bytes) (s : S)
      → (answer_mapped has_desktop handler region s).answered ≡ true
      → let n = be_u32 (take 4 region) in
        (1 ≤ n)
        × (n ≤ max_message_length - 4)
        × (n + 4 ≤ length region)
        × ((answer_mapped has_desktop handler region s).served
            ≡ some (query_using has_desktop handler (take (n + 4) region) s))
  unfolding answer_mapped
  answer_mapped_facts region s e = ground arith

-- An accepted name has 2 to 260 bytes, is the memory's front, and ends with its only NUL.
pub copy_data_name_sound :
    (cd : CopyData) (memory : Bytes) {name : Bytes}
    → cd.lp_data ≡ some memory
    → cd.cb_data ≤ length memory
    → copy_data_name cd ≡ some name
    → (cd.dw_data ≡ agent_copy_data_id)
      × (name ≡ take cd.cb_data memory)
      × (2 ≤ length name)
      × (length name ≤ 260)
      × (get_or name (length name - 1) 0 ≡ 0)
      × (contains_byte 0 (take (length name - 1) name) ≡ false)
unfolding copy_data_name
copy_data_name_sound cd memory {name} p h e = ground (arith, p, length-take_le cd.cb_data memory h)

-- The message carries memory whose front is a name of 2 to 260 bytes with its only NUL at the end.
abbrev pub IsNamed : CopyData → Type 0
IsNamed cd =
    (cd.dw_data ≡ agent_copy_data_id)
    × (2 ≤ cd.cb_data)
    × (cd.cb_data ≤ 260)
    × ((memory : Bytes) × (cd.lp_data ≡ some memory)
        × (let name = take cd.cb_data memory in
            (get_or name (length name - 1) 0 ≡ 0)
            × (contains_byte 0 (take (length name - 1) name) ≡ false)))

copy_data_name-IsNamed : (cd : CopyData) (name : Bytes) → copy_data_name cd ≡ some name → IsNamed cd
unfolding copy_data_name
copy_data_name-IsNamed cd name e = elim (Option-cases cd.lp_data) [
  | inl null ↦ absurd (ground (arith, e, null))
  | inr (memory, there) ↦ (
    ground (arith, e, there),
    ground (arith, e, there),
    ground (arith, e, there),
    (memory, there, (ground (arith, e, there), ground (arith, e, there))),
  )
]

same_sid_owner :
    (a b : Option ℕ) → same_sid a b ≡ true → (owner : ℕ) × (a ≡ some owner) × (b ≡ some owner)
unfolding same_sid
same_sid_owner none b e = cc
same_sid_owner (some x) none e = cc
same_sid_owner (some x) (some y) e = (x, refl, ground (arith, e))

-- The message carries such a name, and its mapping opens, is the user's, and has a view of 5 bytes
-- or more, whose front is a frame of a fair length inside it.
abbrev pub IsAnswerable : CopyData → Mapping → Type 0
IsAnswerable cd m =
    let n = be_u32 (take 4 m.region) in
    IsNamed cd
    × (m.opens ≡ true)
    × ((owner : ℕ) × (m.owner_sid ≡ some owner) × (m.user_sid ≡ some owner))
    × (m.maps ≡ true)
    × (m.size_known ≡ true)
    × (1 ≤ n)
    × (n ≤ max_message_length - 4)
    × (n + 4 ≤ length m.region)

IsNamed-copy_data_name : (cd : CopyData) → IsNamed cd → copy_data_name cd ≢ none
unfolding copy_data_name
IsNamed-copy_data_name cd (id, few, many, (memory, there, (last, rest))) =
    ground (arith, id, few, many, there, last, rest)

owner-same_sid :
    (a b : Option ℕ) (owner : ℕ) → a ≡ some owner → b ≡ some owner → same_sid a b ≡ true
unfolding same_sid
owner-same_sid (some x) (some y) owner e f = ground (arith, e, f)
owner-same_sid none b owner e f = absurd cc
owner-same_sid (some x) none owner e f = absurd cc

module _ {E S : Type 0} (has_desktop : Bool) (handler : Handler E S) (cd : CopyData) (m : Mapping)
    (s : S) where
  answered-IsAnswerable :
      (handle_copy_data has_desktop handler (some cd) m s).answered ≡ true
      → IsAnswerable cd m
        × ((handle_copy_data has_desktop handler (some cd) m s).served
            ≡ some
                (query_using has_desktop handler (take (be_u32 (take 4 m.region) + 4) m.region) s))
  unfolding handle_copy_data
  answered-IsAnswerable e = elim (Option-cases (copy_data_name cd)) [
    | inl refused ↦ absurd (ground (arith, refused))
    | inr (name, named) ↦
        let same : same_sid m.owner_sid m.user_sid ≡ true = ground (arith, named) in
        let (least, most, within, served) =
          answer_mapped_facts has_desktop handler m.region s (ground (arith, named)) in
        (
          (
            copy_data_name-IsNamed cd name named,
            ground (arith, named),
            same_sid_owner m.owner_sid m.user_sid same,
            ground (arith, named),
            ground (arith, named),
            least,
            most,
            within,
          ),
          ground (arith, named, served),
        )
  ]

  IsAnswerable-answered :
      IsAnswerable cd m → (handle_copy_data has_desktop handler (some cd) m s).answered ≡ true
  unfolding handle_copy_data answer_mapped
  IsAnswerable-answered (named, opens, (owner, o, u), maps, known, least, most, within) =
      ground
        (arith, IsNamed-copy_data_name cd named, owner-same_sid m.owner_sid m.user_sid owner o u)

  unanswered :
      (handle_copy_data has_desktop handler (some cd) m s).answered ≡ false
      → ((handle_copy_data has_desktop handler (some cd) m s).region ≡ m.region)
        × ((handle_copy_data has_desktop handler (some cd) m s).served ≡ none)
  unfolding handle_copy_data answer_mapped
  unanswered e = ground (arith, e)

-- A message is answered exactly with the agent's identifier, memory, a name of 2 to 260 bytes whose
-- last byte is its only NUL, and a mapping that opens, that the user owns, of which a view and its
-- size are known, and whose front is a frame of the length that it announces, inside the region and
-- the buffer. That frame is then the request that `queryUsing` is asked once. A message that is not
-- answered asks nothing and leaves the memory as it was.
pub handle_copy_data_answered :
    {E S : Type 0} (has_desktop : Bool) (handler : Handler E S) (cd : CopyData) (m : Mapping)
    (s : S)
    → let h = handle_copy_data has_desktop handler (some cd) m s in
      ((h.answered ≡ true)
        × IsAnswerable cd m
        × (h.served
            ≡ some
                (query_using has_desktop handler (take (be_u32 (take 4 m.region) + 4) m.region) s)))
      ⊎ ((h.answered ≡ false) × (¬ IsAnswerable cd m) × (h.region ≡ m.region) × (h.served ≡ none))
handle_copy_data_answered has_desktop handler cd m s =
    elim (Bool-cases (handle_copy_data has_desktop handler (some cd) m s).answered) [
      | inl answers ↦
          let (fits, asked) = answered-IsAnswerable has_desktop handler cd m s answers in
          inl (answers, fits, asked)
      | inr ignores ↦ inr (
        ignores,
        (λ p.
            let answers = IsAnswerable-answered has_desktop handler cd m s p in
            absurd (ground (arith, answers, ignores))),
        (unanswered has_desktop handler cd m s ignores).0,
        (unanswered has_desktop handler cd m s ignores).1,
      )
    ]
