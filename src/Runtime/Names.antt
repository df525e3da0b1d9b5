-- ===== src/Runtime/Names.antt =====
-- The name of the pipe: `capiObfuscateString`, `newPageantListener` and `listenUserPipe` of
-- pageant/run_windows.go.
use winssh_pageant.Common.{
  ℕ, ◌+◌, ◌*◌, ◌-◌, ◌/◌, ◌%◌, ◌<◌, ◌≤◌, ◌≡◌, refl, Option, none, some, [], ◌∷◌, ◌++◌, ltb, ◌==◌,
  if◌then◌else◌, arith, Bytes, codes, length, take, take-append, length-append,
}
use winssh_pageant.Common.Acts.{◌>>=◌, pure}
use winssh_pageant.Library.{Library}
use winssh_pageant.Desktop.Buffer.{zeros, length-zeros}
use winssh_pageant.Host.{Os, Host, ask, protect_memory, current_user, listen_pipe}
use winssh_pageant.Host.Security.{get_user_sid}
use winssh_pageant.Control.{wnd_class}

-- `make` and `copy`: zeros behind the name, to a whole number of blocks of 16.
unfoldable pub padded : Bytes → Bytes
padded name = name ++ zeros ((length name + 1 + 15) / 16 * 16 - length name)

abbrev pub nibble : ℕ → ℕ
nibble n = if ltb n 10 then b'0' + n else b'a' + (n - 10)

-- `hex.EncodeToString`
unfoldable pub hex : Bytes → Bytes
hex [] = []
hex (b ∷ bs) = nibble (b / 16) ∷ nibble (b % 16) ∷ hex bs

-- The part behind the last backslash.
unfoldable pub last_part : Bytes → Bytes → Bytes
last_part part [] = part
last_part part (b ∷ bs) = if b == b'\\' then last_part [] bs else last_part (part ++ (b ∷ [])) bs

unfoldable pub pipe_name : Bytes → Bytes → Bytes
pipe_name user hash = codes "\\\\.\\pipe\\pageant." ++ last_part [] user ++ codes "." ++ hash

-- Full access for the user, and for nobody else.
unfoldable pub descriptor : Bytes → Bytes
descriptor sid = codes "D:P(A;;GA;;;" ++ sid ++ codes ")"

unfoldable pub obfuscated : Library → Option Bytes → Option Bytes
obfuscated lib none = none
obfuscated lib (some hidden) = some (hex (lib.sha256 hidden))

module _ (os : Os) (lib : Library) where
  -- What CryptProtectMemory makes of the blocks is no value if it fails.
  unfoldable pub capi_obfuscate_string : Bytes → Host (Option Bytes)
  capi_obfuscate_string real_name = do
    a ← ask os (protect_memory (padded real_name))
    pure (obfuscated lib a.text)

  unfoldable pub listen_as : Bytes → Option Bytes → Host (Option ℕ)
  listen_as name none = pure none
  listen_as name (some sid) = do
    a ← ask os (listen_pipe name (descriptor sid))
    pure (if a.number == 0 then none else some a.number)

  unfoldable pub listen_user_pipe : Bytes → Host (Option ℕ)
  unfolding listen_as
  listen_user_pipe name = do sid ← get_user_sid os; listen_as name sid

  unfoldable pub listen_hashed : Bytes → Option Bytes → Host (Option ℕ)
  unfolding listen_user_pipe
  listen_hashed user none = pure none
  listen_hashed user (some hash) = listen_user_pipe (pipe_name user hash)

  unfoldable pub listen_for : Option Bytes → Host (Option ℕ)
  unfolding listen_hashed
  listen_for none = pure none
  listen_for (some user) = do hash ← capi_obfuscate_string wnd_class; listen_hashed user hash

  -- `newPageantListener`
  unfoldable pub new_pageant_listener : Host (Option ℕ)
  unfolding listen_for
  new_pageant_listener = do user ← ask os current_user; listen_for user.text

-- What is protected is the name with zeros behind it, one at least, in whole blocks of 16 bytes,
-- which CryptProtectMemory asks for.
pub padded-blocks :
    (name : Bytes)
    → (length (padded name) % 16 ≡ 0)
      × (length name < length (padded name))
      × (length (padded name) ≤ length name + 16)
      × (take (length name) (padded name) ≡ name)
unfolding padded
padded-blocks name =
    let added = zeros ((length name + 1 + 15) / 16 * 16 - length name) in
    let whole : length (padded name) ≡ length name + length added = length-append name added in
    let count = length-zeros ((length name + 1 + 15) / 16 * 16 - length name) in
    (
      omega (arith, whole, count),
      omega (arith, whole, count),
      omega (arith, whole, count),
      take-append (length name) name added refl,
    )
