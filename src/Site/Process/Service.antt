-- ===== src/Site/Process/Service.antt =====
-- The requests of a process go on under one configuration, judged by one rule set of each file.
use mod_security_iis.Prelude.{ℕ, ◌≡◌, ◌⊎◌, true, some}
use mod_security_iis.System.{HttpRequest}
use mod_security_iis.ModuleConfig.{SiteConfig}
use mod_security_iis.ModuleConfig.Threads as Configs
use mod_security_iis.RulesCache.Calls.{book}
use mod_security_iis.RulesCache.Threads as Rules
use mod_security_iis.BeginRequest.Verdict.{is_off, InspectedBy}
use mod_security_iis.Site.Protection.{rules_file}
use mod_security_iis.Site.Process.{Begun, Process}

-- The engine was told the whole head of the request under the rule set `n`, judged it, ran its body
-- phase, and let it go on.
abbrev pub JudgedBy : ℕ → SiteConfig → HttpRequest → Begun → Type 0
JudgedBy n c req x = InspectedBy n c x.env x.arrival req x.world

-- The request's site is switched off, or its rule set judged it: the one that the cache has.
abbrev pub IsServed : Process → SiteConfig → HttpRequest → Begun → Type 0
IsServed p c req x =
    (is_off c ≡ true)
    ⊎ ((n : ℕ) × (book p.server.cache (rules_file x.arrival c) ≡ some n) × JudgedBy n c req x)
