-- ===== src/BeginRequest/Refusal.antt =====
-- Which requests `OnBeginRequest` refuses for want of rules.
use mod_security_iis.Prelude.{
  ◌≡◌, ◌⊎◌, inl, inr, true, false, Option, none, some, arith, Bool-cases,
}
use mod_security_iis.System.{Env, World, Status, rq_finish_request, Result, ok}
use mod_security_iis.System.Views.{wire_status}
use mod_security_iis.Settings.{config_fail_closed}
use mod_security_iis.ModuleConfig.{SiteConfig}
use mod_security_iis.BeginRequest.{
  Arrival, RulesAnswer, threw, got, fail_by_policy, config_noted, rules_noted, log_config_failed,
  log_rules_failed, with_rules, with_config, begin_request, on_begin_request,
}
use mod_security_iis.BeginRequest.Verdict.{rules_of, is_off, HasNoRules}

-- The outcome of the fail-closed policy.
abbrev Refused : Env → World → Result Status × World → Type 0
Refused e w (r, w') =
    (r ≡ ok rq_finish_request)
    × (w'.rsc ≡ w.rsc)
    × (w'.stored ≡ w.stored)
    × (e.has_response ≡ true → wire_status w'.trace ≡ some 500)

fail_by_policy-Refused :
    (e : Env) (a : Arrival) (w : World)
    → config_fail_closed e ≡ true
    → Refused e w (fail_by_policy e a w)
unfolding fail_by_policy
fail_by_policy-Refused e a w closed = rw closed (ground arith)

noted-Refused :
    (e : Env) (x : Result Status × World) (w : World)
    → (Refused e (config_noted w) x → Refused e w x) × (Refused e (rules_noted w) x → Refused e w x)
noted-Refused e x w = (λ h. ground arith, λ h. ground arith)

with_rules-Refused :
    (e : Env) (a : Arrival) (c : SiteConfig) (r : RulesAnswer) (w : World)
    → config_fail_closed e ≡ true
    → r ≡ got none
    → Refused e w (with_rules e a c r w)
unfolding with_rules log_rules_failed
with_rules-Refused e a c threw w closed missing = absurd (ground arith)
with_rules-Refused e a c (got (some n)) w closed missing = absurd (ground arith)
with_rules-Refused e a c (got none) w closed missing =
    (noted-Refused e (fail_by_policy e a (rules_noted w)) w).1
      (fail_by_policy-Refused e a (rules_noted w) closed)

with_config-Refused :
    (e : Env) (a : Arrival) (c : Option SiteConfig) (w : World)
    → config_fail_closed e ≡ true
    → (c ≡ none)
      ⊎ ((d : SiteConfig) × (c ≡ some d) × (is_off d ≡ false) × (rules_of a d ≡ got none))
    → Refused e w (with_config e a c w)
unfolding with_config log_config_failed
with_config-Refused e a none w closed missing =
    (noted-Refused e (fail_by_policy e a (config_noted w)) w).0
      (fail_by_policy-Refused e a (config_noted w) closed)
with_config-Refused e a (some c) w closed (inl absent) = absurd (ground arith)
with_config-Refused e a (some c) w closed (inr (d, same, on, missing)) =
    let on_c : is_off c ≡ false = ground arith in
    let missing_c : rules_of a c ≡ got none = ground arith in
    rw on_c (with_rules-Refused e a c (rules_of a c) w closed missing_c)

begin_request-Refused :
    (e : Env) (a : Arrival) (w : World)
    → e.has_request w.trace ≡ true
    → HasNoRules a
    → config_fail_closed e ≡ true
    → Refused e w (begin_request e a w)
unfolding begin_request
begin_request-Refused e a w has missing closed =
    let refusal = with_config-Refused e a a.config w closed missing in
    elim (Bool-cases (e.has_request w.trace)) [
      | inl there ↦ rw there refusal
      | inr absent ↦ absurd (ground arith)
    ]

-- Without a configuration, or without a rule set for a site where the module is on, and unless
-- the operator opted out, a request that IIS has is finished, with the status 500 where IIS has a
-- response; its context stays as it was, with no transaction opened.
pub on_begin_request-closed :
    (e : Env) (a : Arrival) (w : World)
    → e.has_request w.trace ≡ true
    → HasNoRules a
    → config_fail_closed e ≡ true
    → let (r, w') = on_begin_request e (some a) w in
      (r ≡ ok rq_finish_request)
      × (w'.rsc ≡ w.rsc)
      × (w'.stored ≡ w.stored)
      × (e.has_response ≡ true → wire_status w'.trace ≡ some 500)
unfolding on_begin_request
on_begin_request-closed e a w has missing closed =
    ground (arith, begin_request-Refused e a w has missing closed)
