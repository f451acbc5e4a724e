-- ===== src/Life/Begins.antt =====
-- How a request's life begins: what `OnBeginRequest` leaves.
use mod_security_iis.Prelude.{
  ℕ, suc, ◌+◌, ◌*◌, ◌≤◌, ◌≡◌, refl, inl, inr, true, false, Option, none, some, ◌∷◌, arith,
  Bool-cases,
}
use mod_security_iis.System.{Env, World, HttpRequest, RequestStoredContext, ok, new_transaction}
use mod_security_iis.System.Views.{response_phases, loggings, openings}
use mod_security_iis.Settings.{body_reads_async}
use mod_security_iis.Intervention.{apply_intervention, finish_request}
use mod_security_iis.ModuleConfig.{SiteConfig}
use mod_security_iis.BeginRequest.{
  Arrival, RulesAnswer, threw, got, Installed, installed, already_assigned, refused, fail_by_policy,
  log_config_failed, log_rules_failed, feed_request, judge_headers, inspect_request, abandon,
  install, context_for, set_context, open_context, with_rules, with_config, begin_request,
  on_begin_request, w_to_utf8, units,
}
use mod_security_iis.BeginRequest.Total.{feed_request-Calm}
use mod_security_iis.Life.Spec.{bit}
use mod_security_iis.Life.Books.{KeepsResponse, apply_intervention-Steady}
use mod_security_iis.Life.Reads.{begin_body_read-KeepsResponse}

judge_headers-KeepsResponse : (e : Env) (w : World) → KeepsResponse w (judge_headers e w).1
unfolding judge_headers
judge_headers-KeepsResponse e w = ground (
  arith,
  apply_intervention-Steady e true w,
  begin_body_read-KeepsResponse (body_reads_async e) e (apply_intervention e true w).1,
)

inspect_request-KeepsResponse :
    (e : Env) (a : Arrival) (r : Option HttpRequest) (w : World)
    → KeepsResponse w (inspect_request e a r w).1
unfolding inspect_request
inspect_request-KeepsResponse e a none w = ground arith
inspect_request-KeepsResponse e a (some req) w =
    ground
      (arith, feed_request-Calm e a req w, judge_headers-KeepsResponse e (feed_request e a req w).1)

-- What a begin leaves of a request that had no transaction: at most one was opened, and it was
-- finalized unless it is still open; no response was judged.
pub record Begins (w : World) (w' : World) : Type 0 where
  pub opened : openings w'.trace ≤ suc (openings w.trace)
  pub closes : loggings w'.trace + bit w'.rsc.tx ≤ suc (loggings w.trace)
  pub runs : response_phases w'.trace ≡ response_phases w.trace
  pub unjudged : w.rsc.response_body_evaluated ≡ false → w'.rsc.response_body_evaluated ≡ false

-- What follows once the transaction was created.
record Opened (w : World) (w' : World) : Type 0 where
  opened : openings w'.trace ≡ openings w.trace
  closes : loggings w'.trace + bit w'.rsc.tx ≤ suc (loggings w.trace)
  runs : response_phases w'.trace ≡ response_phases w.trace
  unjudged : w.rsc.response_body_evaluated ≡ false → w'.rsc.response_body_evaluated ≡ false

abandon-Begins :
    (e : Env) (before : RequestStoredContext) (w : World)
    → before.tx ≡ false
    → let w' = (abandon e before w).1 in
      ((abandon e before w).0 ≡ ok tt)
      × (loggings w'.trace ≤ loggings w.trace + bit w.rsc.tx)
      × (response_phases w'.trace ≡ response_phases w.trace)
      × (w'.rsc ≡ before)
      × (openings w'.trace ≡ openings w.trace)
unfolding abandon finish_request
abandon-Begins e before w h = ground arith

install-Opened :
    (e : Env) (a : Arrival) (c : SiteConfig) (n : ℕ) (before : RequestStoredContext) (i : Installed)
    (w : World)
    → before.tx ≡ false
    → w.rsc ≡ context_for c n
    → Opened (record w { rsc = before }) (install e a before i w).1
unfolding install
install-Opened e a c n before installed w h fresh =
    ground (arith, inspect_request-KeepsResponse e a e.raw_request (record w { stored = true }))
install-Opened e a c n before already_assigned w h fresh =
    ground (arith, abandon-Begins e before w h)
install-Opened e a c n before refused w h fresh = ground (arith, abandon-Begins e before w h)

open_context-Begins :
    (e : Env) (a : Arrival) (c : SiteConfig) (n : ℕ) (w : World)
    → w.rsc.tx ≡ false
    → Begins w (open_context e a c n w).1
unfolding open_context set_context
open_context-Begins e a c n w h =
    let w₁ = record w { rsc = context_for c n; trace = new_transaction ∷ w.trace } in
    ground (arith, install-Opened e a c n w.rsc a.set_module_context w₁ h refl)

with_rules-Begins :
    (e : Env) (a : Arrival) (c : SiteConfig) (r : RulesAnswer) (w : World)
    → w.rsc.tx ≡ false
    → Begins w (with_rules e a c r w).1
unfolding with_rules fail_by_policy log_rules_failed
with_rules-Begins e a c threw w h = ground arith
with_rules-Begins e a c (got none) w h = ground arith
with_rules-Begins e a c (got (some n)) w h = open_context-Begins e a c n w h

with_config-Begins :
    (e : Env) (a : Arrival) (c : Option SiteConfig) (w : World)
    → w.rsc.tx ≡ false
    → Begins w (with_config e a c w).1
unfolding with_config fail_by_policy log_config_failed
with_config-Begins e a none w h = ground arith
with_config-Begins e a (some c) w h = ground (
  arith,
  with_rules-Begins e a c (a.rules_answer (w_to_utf8 a.utf8 c.path (units c.path * 2))) w h,
)

begin_request-Begins :
    (e : Env) (a : Arrival) (w : World) → w.rsc.tx ≡ false → Begins w (begin_request e a w).1
unfolding begin_request
begin_request-Begins e a w h = elim (Bool-cases (e.has_request w.trace)) [
  | inl has ↦ rw has (with_config-Begins e a a.config w h)
  | inr has_not ↦ rw has_not (ground arith)
]

pub on_begin_request-Begins :
    (e : Env) (a : Option Arrival) (w : World)
    → w.rsc.tx ≡ false
    → Begins w (on_begin_request e a w).1
unfolding on_begin_request
on_begin_request-Begins e none w h = ground arith
on_begin_request-Begins e (some a) w h = ground (arith, begin_request-Begins e a w h)
