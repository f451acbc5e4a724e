-- ===== src/BeginRequest/Line.antt =====
-- The texts of the request line and of the addresses: `WToUtf8`, `SockAddrToIp`, `SockAddrToPort`,
-- `VerbToString` and `VersionToString` (src/ModSecurityIIS.cpp).
use mod_security_iis.Prelude.{
  ℕ, ◌/◌, ◌%◌, Bool, true, not, ◌&&◌, Option, none, some, List, [], ◌∷◌, ◌++◌, ◌==◌, if◌then◌else◌,
  take,
}
use mod_security_iis.System.{Bytes}
use mod_security_iis.Text.{byte_at, a_to_utf8, codes, to_string}

-- WideCharToMultiByte of UTF-16 units into UTF-8; empty when it fails.
abbrev pub Utf8 : Type 0
Utf8 = List ℕ → Bytes

-- `none` is a null pointer; `w` is the memory that the pointer shows.
unfoldable pub w_to_utf8 : Utf8 → Option (List ℕ) → ℕ → Bytes
w_to_utf8 utf8 none n = []
w_to_utf8 utf8 (some w) n =
    if n == 0 then [] else if not (n % 2 == 0) then [] else utf8 (take (n / 2) w)

-- `SOCKADDR`: the port in host order, and what GetNameInfoA prints of it (`none` when it fails); an
-- IPv6 one with the sixteen bytes of its address.
pub data SockAddr : Type 0 where
  af_inet : ℕ → Option Bytes → SockAddr
  af_inet6 : Bytes → ℕ → Option Bytes → SockAddr
  af_other : Option Bytes → SockAddr

abbrev pub all_zero : Bytes → Bool
all_zero [] = true
all_zero (c ∷ s) = c == 0 && all_zero s

-- IN6_IS_ADDR_V4MAPPED
abbrev pub is_v4_mapped : Bytes → Bool
is_v4_mapped b = all_zero (take 10 b) && byte_at b 10 == 255 && byte_at b 11 == 255

abbrev pub or_empty : Option Bytes → Bytes
or_empty none = []
or_empty (some s) = s

-- "%u.%u.%u.%u" of the last four bytes
abbrev pub dotted : Bytes → Bytes
dotted b =
    to_string (byte_at b 12)
    ++ b'.' ∷ to_string (byte_at b 13)
    ++ b'.' ∷ to_string (byte_at b 14)
    ++ b'.' ∷ to_string (byte_at b 15)

unfoldable pub sock_addr_to_ip : Option SockAddr → Bytes
sock_addr_to_ip none = []
sock_addr_to_ip (some (af_inet port name)) = or_empty name
sock_addr_to_ip (some (af_inet6 address port name)) =
    if is_v4_mapped address then dotted address else or_empty name
sock_addr_to_ip (some (af_other name)) = or_empty name

unfoldable pub sock_addr_to_port : Option SockAddr → ℕ
sock_addr_to_port none = 0
sock_addr_to_port (some (af_inet port name)) = port
sock_addr_to_port (some (af_inet6 address port name)) = port
sock_addr_to_port (some (af_other name)) = 0

-- `HTTP_VERB`: `unknown` carries pUnknownVerb and its length, and `unnamed` is any other value that
-- the source does not name.
pub data Verb : Type 0 where
  options get head post put delete trace track connect move copy : Verb
  propfind proppatch mkcol lock unlock search : Verb
  unknown : Option Bytes → ℕ → Verb
  unnamed : Verb

abbrev pub or_invalid : Bytes → Bytes
or_invalid [] = codes "INVALID"
or_invalid (c ∷ s) = c ∷ s

unfoldable pub verb_to_string : Verb → Bytes
verb_to_string options = codes "OPTIONS"
verb_to_string get = codes "GET"
verb_to_string head = codes "HEAD"
verb_to_string post = codes "POST"
verb_to_string put = codes "PUT"
verb_to_string delete = codes "DELETE"
verb_to_string trace = codes "TRACE"
verb_to_string track = codes "TRACK"
verb_to_string connect = codes "CONNECT"
verb_to_string move = codes "MOVE"
verb_to_string copy = codes "COPY"
verb_to_string propfind = codes "PROPFIND"
verb_to_string proppatch = codes "PROPPATCH"
verb_to_string mkcol = codes "MKCOL"
verb_to_string lock = codes "LOCK"
verb_to_string unlock = codes "UNLOCK"
verb_to_string search = codes "SEARCH"
verb_to_string (unknown s n) = or_invalid (a_to_utf8 s n)
verb_to_string unnamed = codes "INVALID"

-- `HTTP_VERSION`, its major and minor number.
unfoldable pub version_to_string : ℕ × ℕ → Bytes
version_to_string (major, minor) =
    if major == 0 && minor == 9
    then codes "0.9"
    else if major == 1 && minor == 0
    then codes "1.0"
    else if major == 1 && minor == 1
    then codes "1.1"
    else if major == 2 && minor == 0
    then codes "2.0"
    else if major == 3 && minor == 0
    then codes "3.0"
    else to_string major
