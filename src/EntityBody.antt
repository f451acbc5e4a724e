-- ===== src/EntityBody.antt =====
-- `GetEntityBodyInfo` (src/ModSecurityIIS.cpp): what a request declares about its body.
pub mod Laws
use mod_security_iis.Prelude.{
  ℕ, ◌-◌, Bool, true, false, ◌||◌, Option, none, some, leb, ◌==◌, if◌then◌else◌, take,
}
use mod_security_iis.System.{Bytes, HttpRequest, RawValue, content_length}
use mod_security_iis.Text.{whole_number}

pub record EntityBodyInfo : Type 0 where
  pub has_body : Bool
  pub length : ℕ

abbrev pub no_body : EntityBodyInfo
no_body = record { has_body = false; length = 0 }

-- The header value is copied into 32 bytes with a terminating NUL.
abbrev pub copied_length : ℕ → ℕ
copied_length n = if leb 32 n then 32 - 1 else n

abbrev pub declared_info : Option ℕ → EntityBodyInfo
declared_info none = no_body
declared_info (some x) = record { has_body = true; length = x }

abbrev pub content_length_info : Option Bytes → ℕ → EntityBodyInfo
content_length_info none n = no_body
content_length_info (some s) n =
    if n == 0 then no_body else declared_info (whole_number (take (copied_length n) s))

unfoldable pub get_entity_body_info : Option HttpRequest → EntityBodyInfo
get_entity_body_info none = no_body
get_entity_body_info (some req) =
    let cl = req.known_headers content_length in
    if req.more_entity_body
    then record { has_body = true; length = 0 }
    else content_length_info cl.raw_value cl.raw_value_length
