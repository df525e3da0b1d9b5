-- ===== src/Sign/Username.antt =====
-- `userauthUsername` answers for the payloads of `put_userauth`, and for nothing else.
use winssh_pageant.Common.{
  ◌^◌, ◌≤◌, ◌<◌, ◌≡◌, refl, sym, ap, ◌∙◌, ◌↔◌, true, ◌||◌, Option, none, some, ◌∷◌, ◌++◌, arith,
  Bytes, IsByte, All, length, bytes_eq, bytes_eq→eq, bytes_eq_refl,
}
use winssh_pageant.Common.Options.{>>=-eq-some, some_inj}
use winssh_pageant.Wire.Strings.{put_string, take_string-put_string, length-put_string}
use winssh_pageant.Sign.{
  expect_byte, nonempty, login_method, raw_username, publickey, hostbound_publickey, ssh_connection,
}
use winssh_pageant.Sign.Format.{Userauth, method_of, put_signed_key, put_login, put_userauth}
use winssh_pageant.Sign.SignedKey.{
  HasHostKey, is_hostbound, signed_key-SignedKey, SignedKey-signed_key,
}
use winssh_pageant.Sign.Steps.{string_step, guard_step, expect_byte-step, nonempty→le, le→nonempty}

method_cases :
    (method : Bytes) (host : Option Bytes)
    → (bytes_eq method publickey || bytes_eq method hostbound_publickey) ≡ true
    → is_hostbound host ≡ bytes_eq method hostbound_publickey
    → method ≡ method_of host
method_cases method none e b =
    ground (arith, bytes_eq→eq method publickey, bytes_eq→eq method hostbound_publickey)
method_cases method (some host) e b = bytes_eq→eq method hostbound_publickey (sym b)

is_hostbound-method_of :
    (host : Option Bytes)
    → (bytes_eq (method_of host) hostbound_publickey ≡ is_hostbound host)
      × ((bytes_eq (method_of host) publickey || bytes_eq (method_of host) hostbound_publickey)
          ≡ true)
unfolding bytes_eq
is_hostbound-method_of none = (refl, refl)
is_hostbound-method_of (some host) = (refl, refl)

-- What a successful `login_method` has read.
abbrev Login : Bytes → Bytes → Type 0
Login key d =
    (algorithm : Bytes) × (host : Option Bytes) × (d ≡ put_login algorithm key host)
    × (1 ≤ length algorithm)
    × HasHostKey host

login_layout :
    (host : Option Bytes) (algorithm key : Bytes) {d r1 r2 service method : Bytes}
    → d ≡ put_string service ++ r1
    → service ≡ ssh_connection
    → r1 ≡ put_string method ++ r2
    → method ≡ method_of host
    → r2 ≡ put_signed_key algorithm key host
    → d ≡ put_login algorithm key host
unfolding put_login
login_layout host algorithm key a b c e f = cc

login_method-Login : (key d : Bytes) → All IsByte d → login_method key d ≡ some tt → Login key d
unfolding login_method
login_method-Login key d h e =
    let (service, r1, s1, _, h1, e1) = string_step d _ h e in
    let (connection, e2) = guard_step (bytes_eq service ssh_connection) _ e1 in
    let (method, r2, s2, _, h2, e3) = string_step r1 _ h1 e2 in
    let hostbound = bytes_eq method hostbound_publickey in
    let (known, e4) = guard_step (bytes_eq method publickey || hostbound) _ e3 in
    let (algorithm, host, b, s3, strong, hosted) = signed_key-SignedKey hostbound key r2 h2 e4 in
    (
      algorithm,
      host,
      login_layout host algorithm key s1 (bytes_eq→eq service ssh_connection connection) s2
          (method_cases method host known b) s3,
      strong,
      hosted,
    )

login_fits :
    (algorithm key : Bytes) (host : Option Bytes)
    → length (put_login algorithm key host) < 2 ^ 32
    → (length ssh_connection < 2 ^ 32)
      × (length (method_of host) < 2 ^ 32)
      × (length (put_signed_key algorithm key host) < 2 ^ 32)
unfolding put_login
login_fits algorithm key host h =
    let body = put_signed_key algorithm key host in
    omega (
      arith,
      length-put_string ssh_connection (put_string (method_of host) ++ body),
      length-put_string (method_of host) body,
    )

Login-login_method :
    (algorithm key : Bytes) (host : Option Bytes)
    → length (put_login algorithm key host) < 2 ^ 32
    → 1 ≤ length algorithm
    → HasHostKey host
    → login_method key (put_login algorithm key host) ≡ some tt
unfolding login_method put_login
Login-login_method algorithm key host h strong hosted =
    let (s, m, l) = login_fits algorithm key host h in
    let (bound, known) = is_hostbound-method_of host in
    let body = put_signed_key algorithm key host in
    rw (
      take_string-put_string ssh_connection (put_string (method_of host) ++ body) s,
      bytes_eq_refl ssh_connection,
      take_string-put_string (method_of host) body m,
      known,
      bound,
      SignedKey-signed_key algorithm key host l strong hosted,
    )

-- A payload that logs in with this key, all required parts present.
pub record IsUserauth (key : Bytes) (a : Userauth) : Type 0 where
  pub same_key : a.key ≡ key
  pub has_session : 1 ≤ length a.session
  pub has_username : 1 ≤ length a.username
  pub has_algorithm : 1 ≤ length a.algorithm
  pub has_host_key : HasHostKey a.host_key

-- The payload names the user `name`.
abbrev pub LogsIn : Bytes → Bytes → Bytes → Type 0
LogsIn key d name = (a : Userauth) × (d ≡ put_userauth a) × (a.username ≡ name) × IsUserauth key a

userauth_layout :
    (session username algorithm key : Bytes) (host : Option Bytes) {d r1 r2 r3 : Bytes}
    → d ≡ put_string session ++ r1
    → r1 ≡ 50 ∷ r2
    → r2 ≡ put_string username ++ r3
    → r3 ≡ put_login algorithm key host
    → d ≡ put_string session ++ (50 ∷ (put_string username ++ put_login algorithm key host))
userauth_layout session username algorithm key host a b c e = cc

raw_username-LogsIn :
    (d key : Bytes) {name : Bytes}
    → All IsByte d
    → raw_username d key ≡ some name
    → LogsIn key d name
unfolding raw_username put_userauth
raw_username-LogsIn d key {name} h e =
    let (session, r1, s1, _, h1, e1) = string_step d _ h e in
    let (full, e2) = guard_step (nonempty session) _ e1 in
    let (r2, s2, h2, e3) = expect_byte-step 50 r1 _ h1 e2 in
    let (username, r3, s3, _, h3, e4) = string_step r2 _ h2 e3 in
    let (named, e5) = guard_step (nonempty username) _ e4 in
    let (_, e6, e7) = >>=-eq-some (login_method key r3) (λ _. some username) e5 in
    let (algorithm, host, s4, strong, hosted) = login_method-Login key r3 h3 e6 in
    (
      record {
        session = session;
        username = username;
        algorithm = algorithm;
        key = key;
        host_key = host;
      },
      userauth_layout session username algorithm key host s1 s2 s3 s4,
      some_inj username name e7,
      record {
        same_key = refl;
        has_session = nonempty→le session full;
        has_username = nonempty→le username named;
        has_algorithm = strong;
        has_host_key = hosted;
      },
    )

LogsIn-raw_username :
    (a : Userauth) (key : Bytes)
    → length (put_userauth a) < 2 ^ 32
    → IsUserauth key a
    → raw_username (put_userauth a) key ≡ some a.username
unfolding raw_username put_userauth expect_byte
LogsIn-raw_username a key h valid =
    let login = put_login a.algorithm a.key a.host_key in
    let l1 = length-put_string a.session (50 ∷ (put_string a.username ++ login)) in
    let l2 = length-put_string a.username login in
    let run =
      Login-login_method a.algorithm a.key a.host_key (omega (arith, l1, l2)) valid.has_algorithm
        valid.has_host_key in
    rw (
      take_string-put_string a.session (50 ∷ (put_string a.username ++ login)) (omega (arith, l1)),
      le→nonempty a.session valid.has_session,
      take_string-put_string a.username login (omega (arith, l1, l2)),
      le→nonempty a.username valid.has_username,
      ← valid.same_key,
      run,
    )

-- `userauthUsername` finds a user name exactly in the public-key userauth payloads, plain and
-- host-bound, that are signed with the key at hand and have no empty part, and the name is theirs.
pub raw_username_iff :
    (d key name : Bytes)
    → All IsByte d
    → length d < 2 ^ 32
    → (raw_username d key ≡ some name) ↔ LogsIn key d name
raw_username_iff d key name h small = (raw_username-LogsIn d key {name = name} h, complete)
  where
    complete : LogsIn key d name → raw_username d key ≡ some name
    complete (a, e, n, valid) = rw e (LogsIn-raw_username a key (rw e at small) valid ∙ ap some n)
