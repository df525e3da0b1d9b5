-- ===== src/Sign/Format.antt =====
-- An independent description of the data that a client has signed to log in: RFC 4252 section 7,
-- and the host-bound form of OpenSSH.
use winssh_pageant.Common.{Option, none, some, [], ◌∷◌, ◌++◌, Bytes}
use winssh_pageant.Wire.Strings.{put_string}
use winssh_pageant.Sign.{ssh_connection, publickey, hostbound_publickey}

pub record Userauth : Type 0 where
  pub session : Bytes
  pub username : Bytes
  pub algorithm : Bytes
  pub key : Bytes
  pub host_key : Option Bytes

abbrev pub method_of : Option Bytes → Bytes
method_of none = publickey
method_of (some host) = hostbound_publickey

abbrev pub put_host_key : Option Bytes → Bytes
put_host_key none = []
put_host_key (some host) = put_string host

-- Behind the method's name.
abbrev pub put_signed_key : Bytes → Bytes → Option Bytes → Bytes
put_signed_key algorithm key host =
    1 ∷ (put_string algorithm ++ (put_string key ++ put_host_key host))

-- Behind the user name.
unfoldable pub put_login : Bytes → Bytes → Option Bytes → Bytes
put_login algorithm key host =
    put_string ssh_connection ++ (put_string (method_of host) ++ put_signed_key algorithm key host)

unfoldable pub put_userauth : Userauth → Bytes
put_userauth a =
    put_string a.session ++ (50 ∷ (put_string a.username ++ put_login a.algorithm a.key a.host_key))
