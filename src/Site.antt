-- ===== src/Site.antt =====
-- A request of a site whose configuration and rule sets come from the module's own caches:
-- `OnBeginRequest` (src/ModSecurityIIS.cpp) with `GetConfig` (src/moduleconfig.cpp) and `getRules`
-- (src/connector.cpp).
pub mod Protection
pub mod Process
use mod_security_iis.Prelude.{ℕ, Option, none, some}
use mod_security_iis.System.{Bytes, Env, Status, M}
use mod_security_iis.ModuleConfig.{SiteConfig, Step, failed, exception, done, Metadata, get_config}
use mod_security_iis.RulesCache.{FileTime, Cache, Loading, Answer, call_rules}
use mod_security_iis.BeginRequest.{Arrival, RulesAnswer, threw, got, on_begin_request}

-- What the two caches hold as the request comes, with what the administration, the file system and
-- the loader answer when they are asked; getRules finds `first` and `second` at its critical
-- sections.
pub record Caches : Type 0 where
  pub metadata : Metadata
  pub held : Option SiteConfig
  pub first : Cache
  pub second : Cache
  pub time : Bytes → Option FileTime
  pub load : Bytes → Loading

-- `if (FAILED(hr))`
abbrev pub config_given : Step SiteConfig → Option SiteConfig
config_given (failed hr) = none
config_given exception = none
config_given (done c) = some c

abbrev pub config_of : Caches → Option SiteConfig
config_of s = config_given (get_config s.metadata s.held).0

-- An exception of getRules, or the rule set.
abbrev pub answer_of : Option Answer → RulesAnswer
answer_of none = threw
answer_of (some a) = got a.rules

abbrev pub rules_got : Caches → Bytes → RulesAnswer
rules_got s file = answer_of (call_rules s.first s.second file (s.time file) (s.load file)).0

-- The cache of rule sets after the request asked for a file.
abbrev pub rules_after : Caches → Bytes → Cache
rules_after s file = (call_rules s.first s.second file (s.time file) (s.load file)).1

-- The request as the handler meets it.
abbrev pub met : Caches → Arrival → Arrival
met s a = record a { config = config_of s; rules_answer = rules_got s }

unfoldable pub begin_at_site : Env → Caches → Arrival → M Status
begin_at_site e s a = on_begin_request e (some (met s a))
