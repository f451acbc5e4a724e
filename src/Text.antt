-- ===== src/Text.antt =====
-- The byte helpers of src/ModSecurityIIS.cpp: `AToUtf8`, and the whole-number reading by
-- `std::from_chars` that the settings and the Content-Length share.
pub mod Numbers
pub mod Copies
pub mod Printing
use Prim.Native.Char.{code}
use Prim.Native.String.{String}
use mod_security_iis.Prelude.{
  ℕ, zero, suc, ◌+◌, ◌-◌, ◌*◌, ◌/◌, ◌%◌, ◌^◌, Bool, true, false, ◌&&◌, Option, none, some, List, [],
  ◌∷◌, leb, ltb, ◌==◌, if◌then◌else◌, take, is_empty,
}
use mod_security_iis.System.{Bytes}

-- a[i], with 0 past the end.
abbrev pub byte_at : Bytes → ℕ → ℕ
byte_at [] i = 0
byte_at (c ∷ s) zero = c
byte_at (c ∷ s) (suc i) = byte_at s i

abbrev pub trimmed_length : Bytes → ℕ → ℕ
trimmed_length a n = if byte_at a (n - 1) == 0 then n - 1 else n

-- `none` is a null pointer; `a` is the memory that the pointer shows.
unfoldable pub a_to_utf8 : Option Bytes → ℕ → Bytes
a_to_utf8 none n = []
a_to_utf8 (some a) n =
    if n == 0 then [] else if trimmed_length a n == 0 then [] else take (trimmed_length a n) a

-- What a callee sees of a `c_str()`: the bytes before the first NUL.
unfoldable pub c_string : Bytes → Bytes
c_string [] = []
c_string (c ∷ s) = if c == 0 then [] else c ∷ c_string s

-- The code points of a text, which are its bytes where it is ASCII.
abbrev pub codes : String → Bytes
codes String.[] = []
codes (String.◌∷◌ c s) = code c ∷ codes s

-- The decimal digits of a number, as `std::to_string` and `%Iu` print them; the fuel is at least
-- the number of digits.
unfoldable pub print_digits : ℕ → ℕ → Bytes → Bytes
print_digits zero n rest = rest
print_digits (suc fuel) n rest =
    let more = print_digits fuel (n / 10) ((b'0' + n % 10) ∷ rest) in
    if n / 10 == 0 then (b'0' + n % 10) ∷ rest else more

unfoldable pub to_string : ℕ → Bytes
unfolding print_digits
to_string n = print_digits 20 n []

abbrev pub is_digit : ℕ → Bool
is_digit c = leb b'0' c && leb c b'9'

-- The longest run of digits: its value, and what follows it.
abbrev pub read_digits : ℕ → Bytes → ℕ × Bytes
read_digits v [] = (v, [])
read_digits v (c ∷ s) = if is_digit c then read_digits (v * 10 + (c - b'0')) s else (v, c ∷ s)

-- `std::from_chars` into an `unsigned long long`: `none` when `ec` is set.
abbrev pub from_chars : Bytes → Option (ℕ × Bytes)
from_chars [] = none
from_chars (c ∷ s) =
    if is_digit c
    then (if ltb (read_digits 0 (c ∷ s)).0 (2 ^ 64) then some (read_digits 0 (c ∷ s)) else none)
    else none

abbrev pub accept_whole : Option (ℕ × Bytes) → Option ℕ
accept_whole none = none
accept_whole (some (x, rest)) = if is_empty rest && ltb 0 x then some x else none

-- `res.ec == std::errc() && res.ptr == end && x > 0`
unfoldable pub whole_number : Bytes → Option ℕ
whole_number s = accept_whole (from_chars s)
