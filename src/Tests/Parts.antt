-- ===== src/Tests/Parts.antt =====
-- The cache of rule sets, the log throttle, the settings and the byte helpers.
use mod_security_iis.Prelude.{
  ℕ, zero, suc, ◌≡◌, ◌≤◌, ◌+◌, ◌-◌, refl, ◌↔◌, true, false, some, [], ◌∷◌, arith, take, length,
}
use mod_security_iis.System.{Bytes, KnownHeader, RawValue, HttpRequest, content_length}
use mod_security_iis.Text.{codes}
use mod_security_iis.Text.Numbers.{AllDigits, IsDecimal}
use mod_security_iis.EntityBody.{get_entity_body_info}
use mod_security_iis.EntityBody.Laws.{get_entity_body_info_iff, get_entity_body_info-long}
use mod_security_iis.Throttle.{initial, max_logs_per_second}
use mod_security_iis.Throttle.Laws.{written, written_burst}
use mod_security_iis.RulesCache.{CachedRules, Cache, FileTime, loaded, find, get_rules, same_path}
use mod_security_iis.RulesCache.Laws.{get_rules-stale}
use mod_security_iis.Tests.{no_headers}

abbrev old_time : FileTime
old_time = record { low_date_time = 1; high_date_time = 0 }

abbrev new_time : FileTime
new_time = record { low_date_time = 2; high_date_time = 0 }

abbrev rules_file : Bytes
rules_file = codes "a.conf"

abbrev entry : CachedRules
entry = record { rules = 7; mtime = old_time }

abbrev cache : Cache
cache = (rules_file, entry) ∷ []

entry_found : find rules_file cache ≡ some entry
unfolding find same_path
entry_found = refl

get_rules-stale_example :
    (get_rules cache cache rules_file (some new_time) (loaded 8)).0.rules ≡ some 7
get_rules-stale_example =
    get_rules-stale cache rules_file (some new_time) (loaded 8) entry entry_found

written_burst_example :
    written initial (1000 ∷ 1500 ∷ []) ≤ (max_logs_per_second - 0) + max_logs_per_second
written_burst_example =
    written_burst 1000 initial (1000 ∷ 1500 ∷ []) (omega arith) (omega arith)
      (omega arith, omega arith, (omega arith, omega arith, tt)) (omega arith, (omega arith, tt))
      (omega arith)

-- A request whose Content-Length has the given value.
abbrev headers_with : Bytes → KnownHeader → RawValue
headers_with s content_length = record { raw_value = some s; raw_value_length = length s }
headers_with s h = no_headers h

abbrev request_with : Bytes → HttpRequest
request_with s = record { more_entity_body = false; known_headers = headers_with s }

get_entity_body_info_iff_example :
    (get_entity_body_info (some (request_with (codes "42")))
      ≡ record { has_body = true; length = 42 })
    ↔ IsDecimal (take 2 (codes "42")) 42
get_entity_body_info_iff_example =
    get_entity_body_info_iff (request_with (codes "42")) (codes "42") 2 42 refl refl (omega arith)
      (omega arith)

-- Thirty-one digits, and then no digit.
abbrev long_value : Bytes
long_value = codes "0000000000000000000000000000042x"

-- Leading zeros.
abbrev zeros : ℕ → Bytes → Bytes
zeros zero s = s
zeros (suc n) s = b'0' ∷ zeros n s

zeros-AllDigits : (n : ℕ) (s : Bytes) → AllDigits s → AllDigits (zeros n s)
zeros-AllDigits zero s h = h
zeros-AllDigits (suc n) s h = (refl, zeros-AllDigits n s h)

long_value-IsDecimal : IsDecimal (take 31 long_value) 42
long_value-IsDecimal =
    ((λ h. cc), zeros-AllDigits 29 (codes "42") (refl, (refl, tt)), refl, omega arith, omega arith)

get_entity_body_info-long_example :
    get_entity_body_info (some (request_with long_value)) ≡ record { has_body = true; length = 42 }
get_entity_body_info-long_example =
    get_entity_body_info-long (request_with long_value) long_value 32 42 refl refl (omega arith)
      long_value-IsDecimal
