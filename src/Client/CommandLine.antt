-- ===== src/Client/CommandLine.antt =====
-- `processCommandLine` of pageant/client_windows.go, on a machine with pointers of 8 bytes. Windows
-- fills a buffer whose first 16 bytes are a UNICODE_STRING: the length and the room as 16 bits,
-- and at offset 8 a pointer to the text, which ought to lie in the same buffer.
use winssh_pageant.Common.{
  ℕ, zero, suc, ◌+◌, ◌-◌, ◌*◌, ◌%◌, ◌≤◌, ◌≡◌, refl, ap, ◌∙◌, ◌⊎◌, inl, inr, Bool, not, ◌&&◌, ◌||◌,
  Option, none, some, List, [], ◌∷◌, ◌++◌, ltb, leb, ◌==◌, if◌then◌else◌, arith, Bytes, length,
  take, drop, length-take_le, take-append-drop, length-drop, Bool-cases,
}
use winssh_pageant.Common.Acts.{◌>>=◌, pure}
use winssh_pageant.Text.Utf8.{encode_runes}
use winssh_pageant.Desktop.Buffer.{zeros}
use winssh_pageant.Host.{Os, Host, ask, find_query, query_size, query_line}

-- Little-endian numbers at the head of a slice.
unfoldable pub le_number : ℕ → Bytes → ℕ
le_number zero s = 0
le_number (suc width) [] = 0
le_number (suc width) (b ∷ s) = b + 256 * le_number width s

abbrev pub number_at : ℕ → ℕ → Bytes → ℕ
number_at offset width buffer = le_number width (drop offset buffer)

-- A buffer of this size behind a call that wrote the bytes.
unfoldable pub filled : ℕ → Bytes → Bytes
filled size written = take size (written ++ zeros size)

abbrev pub is_outside : ℕ → Bytes → Bool
is_outside start buffer =
    let size = number_at 0 2 buffer in
    let pointer = number_at 8 8 buffer in
    not (size % 2 == 0)
    || ltb (number_at 2 2 buffer) size
    || ltb pointer start
    || ltb (length buffer) (pointer - start)
    || ltb (length buffer - (pointer - start)) size

-- The text in the buffer at the address `start`, if it lies inside.
unfoldable pub text_slice : ℕ → Bytes → Option Bytes
text_slice start buffer =
    let size = number_at 0 2 buffer in
    if is_outside start buffer
    then none
    else some (take size (drop (number_at 8 8 buffer - start) buffer))

-- The units of `unsafe.Slice`, and `utf16.Decode`, which puts U+FFFD for a half of a pair.
unfoldable pub units : Bytes → List ℕ
units (low ∷ high ∷ s) = (low + 256 * high) ∷ units s
units _ = []

abbrev pub is_surrogate : ℕ → Bool
is_surrogate u = leb 0xd800 u && ltb u 0xe000

abbrev pub is_first : ℕ → Bool
is_first u = leb 0xd800 u && ltb u 0xdc00

abbrev pub is_second : ℕ → Bool
is_second u = leb 0xdc00 u && ltb u 0xe000

unfoldable pub utf16_decode : List ℕ → List ℕ
utf16_decode [] = []
utf16_decode (u ∷ []) = (if is_surrogate u then 0xfffd else u) ∷ []
utf16_decode (u ∷ v ∷ us) =
    let pair = ((u - 0xd800) * 0x400 + (v - 0xdc00) + 0x10000) ∷ utf16_decode us in
    let rest = utf16_decode (v ∷ us) in
    if is_first u && is_second v then pair else (if is_surrogate u then 0xfffd else u) ∷ rest

unfoldable pub command_text : Option Bytes → Bytes
command_text none = []
command_text (some s) = encode_runes (utf16_decode (units s))

abbrev pub or_empty : Option Bytes → Bytes
or_empty none = []
or_empty (some s) = s

module _ (os : Os) where
  -- The answer of 0 is STATUS_SUCCESS, and the buffer is at the address `high`.
  unfoldable pub query : ℕ → ℕ → Host Bytes
  query process required = do
    a ← ask os (query_line process required)
    pure (
        if not (a.number == 0)
        then []
        else command_text (text_slice a.high (filled required (or_empty a.text))))

  unfoldable pub sized_query : ℕ → Host Bytes
  unfolding query
  sized_query process = do
    a ← ask os (query_size process)
    if ltb (a.size % 0x100000000) 16 || ltb 131072 (a.size % 0x100000000)
        then pure []
        else query process (a.size % 0x100000000)

  -- `processCommandLine`
  unfoldable pub process_command_line : ℕ → Host Bytes
  unfolding sized_query
  process_command_line process = do
    found ← ask os find_query
    if found.number == 0 then pure [] else sized_query process

-- The text that is read from a reply lies in the buffer as a whole, and has the even length that
-- the reply states, which is within the room that it states; a reply whose text does not fit is
-- not read.
pub text_slice-fits :
    (start : ℕ) (buffer : Bytes)
    → (text_slice start buffer ≡ none)
      ⊎ ((s : Bytes) × (text_slice start buffer ≡ some s)
          × (length s ≡ number_at 0 2 buffer)
          × (length s % 2 ≡ 0)
          × (length s ≤ number_at 2 2 buffer)
          × ((before : Bytes) × (behind : Bytes) × (before ++ (s ++ behind) ≡ buffer)
              × (start + length before ≡ number_at 8 8 buffer)))
unfolding text_slice
text_slice-fits start buffer =
    let size = number_at 0 2 buffer in
    let offset = number_at 8 8 buffer - start in
    let tail = drop offset buffer in
    elim (Bool-cases (is_outside start buffer)) [
      | inl out ↦ inl (rw (out, text_slice) refl)
      | inr inside ↦
          let fits : length (take size tail) ≡ size =
            length-take_le size tail (ground (arith, inside, length-drop offset buffer)) in
          let whole : take offset buffer ++ (take size tail ++ drop size tail) ≡ buffer =
            ap (λ rest. take offset buffer ++ rest) (take-append-drop size tail)
            ∙ take-append-drop offset buffer in
          inr (
            take size tail,
            rw (inside, text_slice) refl,
            fits,
            ground (arith, inside, fits),
            ground (arith, inside, fits),
            (
              take offset buffer,
              drop size tail,
              whole,
              ground (arith, inside, length-take_le offset buffer (ground (arith, inside))),
            ),
          )
    ]
