-- ===== src/Client.antt =====
-- What pageant/client_windows.go knows of a client: the data, and the texts that are made of it.
pub mod Table
pub mod Unique
pub mod Target
pub mod Arguments
pub mod Notice
pub mod CommandLine
pub mod Session
pub mod Process
pub mod Tables
use winssh_pageant.Common.{
  ℕ, zero, suc, ◌+◌, ◌/◌, ◌%◌, Bool, List, [], ◌∷◌, ◌++◌, ltb, if◌then◌else◌, Bytes, codes,
  contains_byte,
}

-- `connectionTarget`; a port of 0 and an empty text stand for nothing known.
pub record ConnectionTarget : Type 0 where
  pub user : Bytes
  pub host : Bytes
  pub port : ℕ
  pub source : Bytes
  pub session : Bytes

abbrev pub no_target : ConnectionTarget
no_target = record { user = []; host = []; port = 0; source = []; session = [] }

-- `clientInfo`
pub record ClientInfo : Type 0 where
  pub pid : ℕ
  pub name : Bytes
  pub inferred : Bool
  pub started : ℕ
  pub target : ConnectionTarget

-- `strconv.Itoa` and `strconv.FormatUint` in base 10; twenty digits hold every 64-bit number.
digits : ℕ → ℕ → Bytes → Bytes
digits zero n later = later
digits (suc fuel) n later =
    let here = (b'0' + n % 10) ∷ later in
    let rest = digits fuel (n / 10) here in if ltb n 10 then here else rest

unfoldable pub decimal : ℕ → Bytes
unfolding digits
decimal n = digits 20 n []

-- `net.JoinHostPort` at a port number.
unfoldable pub join_host_port : Bytes → ℕ → Bytes
join_host_port host port =
    if contains_byte b':' host
    then codes "[" ++ host ++ codes "]:" ++ decimal port
    else host ++ codes ":" ++ decimal port
