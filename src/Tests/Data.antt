-- ===== src/Tests/Data.antt =====
-- Data for the runs.
use winssh_pageant.Common.{ℕ, suc, refl, false, none, [], ◌∷◌, ◌++◌, arith, Bytes, codes}
use winssh_pageant.Common.Results.{ok}
use winssh_pageant.Conn.{Conn}
use winssh_pageant.Library.{Library, IsLibrary}
use winssh_pageant.Agent.Session.{Surroundings}
use winssh_pageant.Bridge.Query.{Handler}

-- Thirty-two bytes.
abbrev pub digest : Bytes
digest = codes "an arbitrary digest of 32 bytes!"

abbrev pub lib : Library
lib = record { is_format = λ r. false; lower_rune = λ r. r; sha256 = λ s. digest }

pub lib-IsLibrary : IsLibrary lib
lib-IsLibrary = record {
  space_plain = refl;
  ellipsis_plain = refl;
  digest_bytes = λ s. omega arith;
  digest_length = λ s. refl;
}

-- The list request, and an answer without keys.
abbrev pub list_request : Bytes
list_request = 0 ∷ 0 ∷ 0 ∷ 1 ∷ 11 ∷ []

abbrev pub no_keys : Bytes
no_keys = 0 ∷ 0 ∷ 0 ∷ 5 ∷ 12 ∷ 0 ∷ 0 ∷ 0 ∷ 0 ∷ []

abbrev pub pipe_name : Bytes
pipe_name = codes "\\\\.\\PIPE\\agent"

-- A connection over which the answer arrives in two pieces, with one byte behind it.
abbrev pub ready_conn : Conn
ready_conn = record {
  deadline_answers = none ∷ none ∷ [];
  write_answers = (2, none) ∷ (3, none) ∷ [];
  incoming = (0 ∷ 0 ∷ [], none) ∷ (0 ∷ 5 ∷ 12 ∷ 0 ∷ 0 ∷ 0 ∷ 0 ∷ 7 ∷ [], none) ∷ [];
  sent = [];
  read_deadline = none;
  write_deadline = none;
}

abbrev pub calm : Surroundings
calm = record { dial = ok ready_conn; closed_in_dial = false; closed_in_exchange = false }

-- A handler that counts the requests and answers that there are no keys.
abbrev pub counting : Handler ℕ ℕ
counting request n = (record { reply = no_keys; failure = none }, suc n)

-- A client that sends the list request and the start of another.
abbrev pub client_conn : Conn
client_conn = record {
  deadline_answers = none ∷ none ∷ none ∷ none ∷ [];
  write_answers = (4, none) ∷ (5, none) ∷ [];
  incoming = (list_request ++ (0 ∷ 0 ∷ []), none) ∷ [];
  sent = [];
  read_deadline = none;
  write_deadline = none;
}
