-- ===== src/EntityBody/Laws.antt =====
-- What the answer of `GetEntityBodyInfo` tells, and where it reads less than the whole header.
use mod_security_iis.Prelude.{
  ℕ, ◌≤◌, ◌<◌, ◌≡◌, ◌↔◌, refl, inl, inr, true, false, Option, none, some, arith, take, Bool-cases,
}
use mod_security_iis.System.{Bytes, HttpRequest, content_length}
use mod_security_iis.Text.{whole_number}
use mod_security_iis.Text.Numbers.{whole_number_iff, IsDecimal}
use mod_security_iis.EntityBody.{
  declared_info, copied_length, content_length_info, get_entity_body_info,
}

module _ (req : HttpRequest) (s : Bytes) (n : ℕ) (more : req.more_entity_body ≡ false)
    (cl : req.known_headers content_length
      ≡ record { raw_value = some s; raw_value_length = n }) where
  info-eq :
      0 < n
      → get_entity_body_info (some req) ≡ declared_info (whole_number (take (copied_length n) s))
  unfolding get_entity_body_info
  info-eq p = rw (more, cl) (ground arith)

declared_info_iff :
    (o : Option ℕ) (x : ℕ)
    → (declared_info o ≡ record { has_body = true; length = x }) ↔ (o ≡ some x)
declared_info_iff none x = (λ h. cc, λ h. cc)
declared_info_iff (some y) x = (λ h. ground arith, λ h. ground arith)

-- A request with a Content-Length value of 1 to 31 bytes, all of whose body has arrived with the
-- headers, declares a body of length x exactly when that value spells the positive 64-bit number x.
pub get_entity_body_info_iff :
    (req : HttpRequest) (s : Bytes) (n x : ℕ)
    → req.more_entity_body ≡ false
    → req.known_headers content_length ≡ record { raw_value = some s; raw_value_length = n }
    → 0 < n
    → n < 32
    → (get_entity_body_info (some req) ≡ record { has_body = true; length = x })
      ↔ IsDecimal (take n s) x
get_entity_body_info_iff req s n x more cl p q =
    let short : copied_length n ≡ n = ground arith in
    let whole = whole_number_iff (take n s) x in
    let declared = declared_info_iff (whole_number (take n s)) x in
    rw (info-eq req s n more cl p, short) (λ h. whole.0 (declared.0 h), λ h. declared.1 (whole.1 h))

-- A Content-Length value of 32 bytes or more is judged by its first 31 bytes alone: if these spell
-- a positive number, a body of that length is declared, whatever follows them.
pub get_entity_body_info-long :
    (req : HttpRequest) (s : Bytes) (n x : ℕ)
    → req.more_entity_body ≡ false
    → req.known_headers content_length ≡ record { raw_value = some s; raw_value_length = n }
    → 32 ≤ n
    → IsDecimal (take 31 s) x
    → get_entity_body_info (some req) ≡ record { has_body = true; length = x }
get_entity_body_info-long req s n x more cl p h =
    let cut : copied_length n ≡ 31 = ground arith in
    rw (info-eq req s n more cl (omega arith), cut)
      ((declared_info_iff (whole_number (take 31 s)) x).1 ((whole_number_iff (take 31 s) x).1 h))

declared_has_body :
    (o : Option Bytes) (n : ℕ)
    → 0 < (content_length_info o n).length
    → (content_length_info o n).has_body ≡ true
declared_has_body none n h = absurd (omega arith)
declared_has_body (some s) n h = ground arith

-- A length is declared only together with a body, and never while more of the body is to come.
pub get_entity_body_info_declared :
    (r : Option HttpRequest)
    → 0 < (get_entity_body_info r).length
    → ((get_entity_body_info r).has_body ≡ true)
      × ((req : HttpRequest) × (r ≡ some req) × (req.more_entity_body ≡ false))
unfolding get_entity_body_info
get_entity_body_info_declared none h = absurd (omega arith)
get_entity_body_info_declared (some req) h =
    let cl = req.known_headers content_length in
    elim (Bool-cases req.more_entity_body) [
      | inl more ↦ absurd (ground arith)
      | inr all ↦ (
        rw all (declared_has_body cl.raw_value cl.raw_value_length (rw all at h)),
        (req, refl, all),
      )
    ]
