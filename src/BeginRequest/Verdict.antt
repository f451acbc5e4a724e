-- ===== src/BeginRequest/Verdict.antt =====
-- Which requests `OnBeginRequest` lets go on.
use mathlib.Core.Path.{subst}
use mod_security_iis.Prelude.{
  ℕ, suc, ◌*◌, ◌≡◌, refl, ◌⊎◌, inl, inr, Bool, true, false, not, ◌||◌, Option, none, some, ◌∷◌,
  arith, Bool-cases, Option-cases,
}
use mod_security_iis.System.{
  Env, World, HttpRequest, RequestStoredContext, rq_continue, ok, new_transaction,
  read_intervention, brs_idle,
}
use mod_security_iis.Settings.{config_fail_closed, body_reads_async}
use mod_security_iis.Intervention.{apply_intervention}
use mod_security_iis.Body.{begin_body_read}
use mod_security_iis.BeginRequest.Total.{abandon_lem, feed_request-Calm}
use mod_security_iis.BeginRequest.Presented.{presented, feed_request-presented}
use mod_security_iis.Body.Runs.{begin_body_read-runs}
use mod_security_iis.System.Views.{request_phases}
use mod_security_iis.Intervention.Apply.{
  is_blocking, apply_intervention-passes, apply_intervention_frame,
}
use mod_security_iis.ModuleConfig.{SiteConfig}
use mod_security_iis.BeginRequest.{
  Arrival, RulesAnswer, threw, got, Installed, installed, already_assigned, refused, fail_by_policy,
  config_noted, rules_noted, log_config_failed, log_rules_failed, feed_request, judge_headers,
  inspect_request, install, context_for, set_context, open_context, with_rules, with_config,
  begin_request, on_begin_request, null_or_empty, units, w_to_utf8,
}

-- How getRules answers for the configured file.
abbrev pub rules_of : Arrival → SiteConfig → RulesAnswer
rules_of a c = a.rules_answer (w_to_utf8 a.utf8 c.path (units c.path * 2))

-- The module is off for the site, or has no file of rules.
abbrev pub is_off : SiteConfig → Bool
is_off c = not c.is_enabled || null_or_empty c.path

-- The module has no rules to apply: no configuration, or none that loads.
abbrev pub HasNoRules : Arrival → Type 0
HasNoRules a =
    (a.config ≡ none)
    ⊎ ((c : SiteConfig) × (a.config ≡ some c) × (is_off c ≡ false) × (rules_of a c ≡ got none))

-- The reasons to let a request go on uninspected.
abbrev pub PassesThrough : Env → Arrival → Type 0
PassesThrough e a =
    (HasNoRules a × (config_fail_closed e ≡ false))
    ⊎ ((c : SiteConfig) × (a.config ≡ some c) × (is_off c ≡ true))
    ⊎ (a.set_module_context ≡ already_assigned)
    ⊎ (e.raw_request ≡ none)

-- The world in which the engine first sees the request.
abbrev pub tracked : SiteConfig → ℕ → World → World
tracked c n w = record w { rsc = context_for c n; trace = new_transaction ∷ w.trace; stored = true }

-- The engine then reported nothing disruptive, and the body phase after it ran the engine's
-- request-body phase once and let the request go on.
abbrev pub JudgedFine : Env → World → Type 0
JudgedFine e w =
    let w' = (apply_intervention e true w).1 in
    (is_blocking (e.intervention (read_intervention ∷ w.trace)) ≡ false)
    × ((begin_body_read (body_reads_async e) e w').0 ≡ ok rq_continue)
    × (request_phases (begin_body_read (body_reads_async e) e w').1.trace
        ≡ suc (request_phases w'.trace))

-- The engine was told the connection, the URI and all the headers, that they are complete, and let
-- the request go on.
abbrev pub InspectedBy : ℕ → SiteConfig → Env → Arrival → HttpRequest → World → Type 0
InspectedBy n c e a req w =
    let w' = (feed_request e a req (tracked c n w)).1 in
    (w'.trace ≡ presented a req (new_transaction ∷ w.trace)) × JudgedFine e w'

abbrev pub Inspected : Env → Arrival → World → Type 0
Inspected e a w =
    (c : SiteConfig) × (n : ℕ) × (req : HttpRequest) × (a.config ≡ some c)
    × (rules_of a c ≡ got (some n))
    × (e.raw_request ≡ some req)
    × InspectedBy n c e a req w

judge_headers-continue :
    (e : Env) (w : World)
    → w.rsc.tx ≡ true
    → w.rsc.body_read_state ≡ brs_idle
    → (judge_headers e w).0 ≡ ok rq_continue
    → JudgedFine e w
unfolding judge_headers
judge_headers-continue e w opened idle h =
    let w' = (apply_intervention e true w).1 in
    ground (
      arith,
      apply_intervention-passes e true w,
      apply_intervention_frame e true w,
      begin_body_read-runs (body_reads_async e) e w',
    )

inspect_request-continue :
    (e : Env) (a : Arrival) (req : HttpRequest) (c : SiteConfig) (n : ℕ) (w : World)
    → (inspect_request e a (some req) (tracked c n w)).0 ≡ ok rq_continue
    → InspectedBy n c e a req w
unfolding inspect_request
inspect_request-continue e a req c n w h =
    let w₁ = tracked c n w in
    let w' = (feed_request e a req w₁).1 in
    let calm = feed_request-Calm e a req w₁ in
    ground (arith, calm, feed_request-presented e a req w₁, judge_headers-continue e w')

install-continue :
    (e : Env) (a : Arrival) (before : RequestStoredContext) (i : Installed) (w : World)
    → (install e a before i w).0 ≡ ok rq_continue
    → (i ≡ already_assigned)
      ⊎ ((i ≡ installed)
          × ((inspect_request e a e.raw_request (record w { stored = true })).0 ≡ ok rq_continue))
unfolding install
install-continue e a before installed w h = inr (refl, h)
install-continue e a before already_assigned w h = inl refl
install-continue e a before refused w h = absurd (ground (arith, abandon_lem e before w))

open_context-continue :
    (e : Env) (a : Arrival) (c : SiteConfig) (n : ℕ) (w : World)
    → (open_context e a c n w).0 ≡ ok rq_continue
    → (a.set_module_context ≡ already_assigned)
      ⊎ ((inspect_request e a e.raw_request (tracked c n w)).0 ≡ ok rq_continue)
unfolding open_context set_context
open_context-continue e a c n w h =
    let w₁ = record w { rsc = context_for c n; trace = new_transaction ∷ w.trace } in
    ground (arith, install-continue e a w.rsc a.set_module_context w₁)

fail_by_policy-continue :
    (e : Env) (a : Arrival) (w : World)
    → (fail_by_policy e a w).0 ≡ ok rq_continue
    → config_fail_closed e ≡ false
unfolding fail_by_policy
fail_by_policy-continue e a w h = ground arith

-- With rules, the request was inspected or there was no way to.
rules-continue :
    (e : Env) (a : Arrival) (c : SiteConfig) (n : ℕ) (w : World)
    → a.config ≡ some c
    → rules_of a c ≡ got (some n)
    → (open_context e a c n w).0 ≡ ok rq_continue
    → PassesThrough e a ⊎ Inspected e a w
rules-continue e a c n w known found h = elim (open_context-continue e a c n w h) [
  | inl taken ↦ inl (inr (inr (inl taken)))
  | inr went ↦ elim (Option-cases e.raw_request) [
    | inl no_request ↦ inl (inr (inr (inr no_request)))
    | inr (req, raw) ↦
        let fine =
          inspect_request-continue e a req c n w
            (subst (λ r. (inspect_request e a r (tracked c n w)).0 ≡ ok rq_continue) raw went) in
        inr (c, n, req, known, found, raw, fine)
  ]
]

with_rules-continue :
    (e : Env) (a : Arrival) (c : SiteConfig) (r : RulesAnswer) (w : World)
    → a.config ≡ some c
    → is_off c ≡ false
    → rules_of a c ≡ r
    → (with_rules e a c r w).0 ≡ ok rq_continue
    → PassesThrough e a ⊎ Inspected e a w
unfolding with_rules log_rules_failed
with_rules-continue e a c threw w known on found h = absurd (ground arith)
with_rules-continue e a c (got none) w known on found h =
    inl (inl (inr (c, known, on, found), fail_by_policy-continue e a (rules_noted w) h))
with_rules-continue e a c (got (some n)) w known on found h = rules-continue e a c n w known found h

with_config-continue :
    (e : Env) (a : Arrival) (c : Option SiteConfig) (w : World)
    → a.config ≡ c
    → (with_config e a c w).0 ≡ ok rq_continue
    → PassesThrough e a ⊎ Inspected e a w
unfolding with_config log_config_failed
with_config-continue e a none w known h =
    inl (inl (inl known, fail_by_policy-continue e a (config_noted w) h))
with_config-continue e a (some c) w known h = elim (Bool-cases (is_off c)) [
  | inl off ↦ inl (inr (inl (c, known, off)))
  | inr on ↦ with_rules-continue e a c (rules_of a c) w known on refl (rw on at h)
]

pub on_begin_request-continue :
    (e : Env) (a : Arrival) (w : World)
    → (on_begin_request e (some a) w).0 ≡ ok rq_continue
    → PassesThrough e a ⊎ Inspected e a w
unfolding on_begin_request begin_request
on_begin_request-continue e a w h = with_config-continue e a a.config w refl (ground arith)
