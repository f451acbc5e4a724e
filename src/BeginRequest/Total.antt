-- ===== src/BeginRequest/Total.antt =====
-- Every way through `OnBeginRequest` ends with a status, and runs phase 2 at most once.
use Prim.Native.String.{String}
use mod_security_iis.Prelude.{
  ℕ, ◌*◌, ◌≡◌, ◌≢◌, refl, inl, inr, true, Option, none, some, List, [], ◌∷◌, arith, Bool-cases,
  Option-cases,
}
use mod_security_iis.System.{
  Env, World, KnownHeader, RawValue, UnknownHeader, HttpRequest, RequestStoredContext, brs_idle,
  Result, ok, raised, stuck, M, ◌>>=◌, new_transaction, process_connection, process_uri,
  add_request_header,
}
use mod_security_iis.System.Views.{
  request_phases, header_phases, response_phases, loggings, openings,
}
use mod_security_iis.Text.{c_string}
use mod_security_iis.Settings.{body_reads_async}
use mod_security_iis.Intervention.{apply_intervention, finish_request}
use mod_security_iis.Intervention.Apply.{apply_intervention_frame}
use mod_security_iis.Body.Loops.{Ends}
use mod_security_iis.Body.Phase.{begin_body_read-Ends}
use mod_security_iis.BeginRequest.Headers.{
  request_headers_table, feed_request_header, feed_request_known, feed_request_unknown, seen,
}
use mod_security_iis.ModuleConfig.{SiteConfig}
use mod_security_iis.BeginRequest.{
  Arrival, RulesAnswer, threw, got, Installed, installed, already_assigned, refused, fail_by_policy,
  config_noted, rules_noted, log_config_failed, log_rules_failed, feed_request, judge_headers,
  inspect_request, abandon, install, context_for, set_context, open_context, with_rules,
  with_config, begin_request, on_begin_request, sock_addr_to_ip, sock_addr_to_port, request_uri,
  w_to_utf8, units, verb_to_string, version_to_string,
}

-- A step that keeps to the headers: no phase of a body, no read, no finalization.
abbrev pub Calm : {A : Type 0} → World → Result A × World → Type 0
Calm w (r, w') =
    (r ≢ stuck)
    × (request_phases w'.trace ≡ request_phases w.trace)
    × (w'.rsc.body_read_state ≡ w.rsc.body_read_state)
    × (w'.rsc.tx ≡ w.rsc.tx)
    × (loggings w'.trace ≡ loggings w.trace)
    × (response_phases w'.trace ≡ response_phases w.trace)
    × (w'.rsc.response_body_evaluated ≡ w.rsc.response_body_evaluated)
    × (w'.stored ≡ w.stored)
    × (w'.rsc.response_headers_fed ≡ w.rsc.response_headers_fed)
    × (header_phases w'.trace ≡ header_phases w.trace)
    × (openings w'.trace ≡ openings w.trace)

Calm-bind :
    {A B : Type 0} (w : World) (x : Result A × World) (f : A → M B)
    → Calm w x
    → ((a : A) → Calm x.1 (f a x.1))
    → Calm w (((λ (v : World). x) >>= f) w)
Calm-bind w (ok a, v) f g rest = ground (arith, rest a)
Calm-bind w (raised, v) f g rest = ground arith
Calm-bind w (stuck, v) f g rest = absurd (g.0 refl)

feed_request_header-Calm :
    (e : Env) (name : String) (v : RawValue) (w : World)
    → Calm w (feed_request_header e name v.raw_value v.raw_value_length w)
feed_request_header-Calm e name v w = elim (Option-cases v.raw_value) [
  | inl absent ↦ ground arith
  | inr (s, present) ↦ ground arith
]

feed_request_known-Calm :
    (e : Env) (table : List (KnownHeader × String)) (headers : KnownHeader → RawValue) (w : World)
    → Calm w (feed_request_known e table headers w)
unfolding feed_request_known
feed_request_known-Calm e [] headers w = ground arith
feed_request_known-Calm e ((id, name) ∷ table) headers w =
    let x = feed_request_header e name (headers id).raw_value (headers id).raw_value_length w in
    Calm-bind w x (λ _. feed_request_known e table headers)
      (feed_request_header-Calm e name (headers id) w)
      (λ _. feed_request_known-Calm e table headers x.1)

feed_request_unknown-Calm :
    (e : Env) (headers : List UnknownHeader) (w : World) → Calm w (feed_request_unknown e headers w)
unfolding feed_request_unknown
feed_request_unknown-Calm e [] w = ground arith
feed_request_unknown-Calm e (h ∷ headers) w =
    let t = add_request_header (seen h.name) (seen h.value) ∷ w.trace in
    ground (arith, feed_request_unknown-Calm e headers (record w { trace = t }))

-- The worlds between the steps of `feed_request`.
abbrev pub connected : Arrival → World → World
connected a w = record w {
  rsc = record (w.rsc) { protocol = version_to_string a.version };
  trace =
      process_connection (c_string (sock_addr_to_ip a.remote_address))
        (sock_addr_to_port a.remote_address) (c_string (sock_addr_to_ip a.local_address))
        (sock_addr_to_port a.local_address)
      ∷ w.trace;
}

abbrev pub located : Arrival → World → World
located a w = record w {
  trace =
      process_uri (c_string (request_uri a)) (c_string (verb_to_string a.verb))
        (c_string (version_to_string a.version))
      ∷ w.trace;
}

-- The engine sees the request without its body phase, and the reads are not begun.
pub feed_request-Calm :
    (e : Env) (a : Arrival) (req : HttpRequest) (w : World) → Calm w (feed_request e a req w)
unfolding feed_request
feed_request-Calm e a req w =
    let w₂ = located a (connected a w) in
    let w₃ = (feed_request_known e request_headers_table req.known_headers w₂).1 in
    ground (
      arith,
      feed_request_known-Calm e request_headers_table req.known_headers w₂,
      feed_request_unknown-Calm e a.unknown_headers w₃,
    )

judge_headers-Ends :
    (e : Env) (w : World)
    → w.rsc.body_read_state ≡ brs_idle
    → Ends (judge_headers e w).0 w (judge_headers e w).1
unfolding judge_headers
judge_headers-Ends e w idle = ground (
  arith,
  apply_intervention_frame e true w,
  begin_body_read-Ends (body_reads_async e) e (apply_intervention e true w).1,
)

inspect_request-Ends :
    (e : Env) (a : Arrival) (r : Option HttpRequest) (w : World)
    → w.rsc.body_read_state ≡ brs_idle
    → Ends (inspect_request e a r w).0 w (inspect_request e a r w).1
unfolding inspect_request
inspect_request-Ends e a none w idle = ground arith
inspect_request-Ends e a (some req) w idle =
    ground (arith, feed_request-Calm e a req w, judge_headers-Ends e (feed_request e a req w).1)

finish_request-phases :
    (e : Env) (w : World)
    → let (r, w') = finish_request e w in
      (r ≡ ok tt) × (request_phases w'.trace ≡ request_phases w.trace) × (w'.stored ≡ w.stored)
unfolding finish_request
finish_request-phases e w = ground arith

-- A context that IIS did not take leaves the request's own as it was.
pub abandon_lem :
    (e : Env) (before : RequestStoredContext) (w : World)
    → let (r, w') = abandon e before w in
      (r ≡ ok tt)
      × (w'.rsc ≡ before)
      × (request_phases w'.trace ≡ request_phases w.trace)
      × (w'.stored ≡ w.stored)
unfolding abandon
abandon_lem e before w =
    ground (arith, finish_request-phases e w, finish_request-phases e (finish_request e w).1)

install-Ends :
    (e : Env) (a : Arrival) (before : RequestStoredContext) (i : Installed) (w : World)
    → w.rsc.body_read_state ≡ brs_idle
    → before.body_read_state ≡ brs_idle
    → Ends (install e a before i w).0 w (install e a before i w).1
unfolding install
install-Ends e a before installed w idle free =
    inspect_request-Ends e a e.raw_request (record w { stored = true }) idle
install-Ends e a before already_assigned w idle free = ground (arith, abandon_lem e before w)
install-Ends e a before refused w idle free = ground (arith, abandon_lem e before w)

open_context-Ends :
    (e : Env) (a : Arrival) (c : SiteConfig) (n : ℕ) (w : World)
    → w.rsc.body_read_state ≡ brs_idle
    → Ends (open_context e a c n w).0 w (open_context e a c n w).1
unfolding open_context set_context
open_context-Ends e a c n w idle =
    let w₁ = record w { trace = new_transaction ∷ w.trace } in
    ground (
      arith,
      install-Ends e a w.rsc a.set_module_context (record w₁ { rsc = context_for c n }) refl idle,
    )

fail_by_policy-Ends :
    (e : Env) (a : Arrival) (w : World)
    → w.rsc.body_read_state ≡ brs_idle
    → Ends (fail_by_policy e a w).0 w (fail_by_policy e a w).1
unfolding fail_by_policy
fail_by_policy-Ends e a w idle = ground arith

noted_frame :
    (w : World)
    → (request_phases (config_noted w).trace ≡ request_phases w.trace)
      × ((config_noted w).rsc ≡ w.rsc)
      × (request_phases (rules_noted w).trace ≡ request_phases w.trace)
      × ((rules_noted w).rsc ≡ w.rsc)
noted_frame w = ground arith

with_rules-Ends :
    (e : Env) (a : Arrival) (c : SiteConfig) (r : RulesAnswer) (w : World)
    → w.rsc.body_read_state ≡ brs_idle
    → Ends (with_rules e a c r w).0 w (with_rules e a c r w).1
unfolding with_rules log_rules_failed
with_rules-Ends e a c threw w idle = ground arith
with_rules-Ends e a c (got none) w idle =
    ground (arith, noted_frame w, fail_by_policy-Ends e a (rules_noted w))
with_rules-Ends e a c (got (some n)) w idle = open_context-Ends e a c n w idle

with_config-Ends :
    (e : Env) (a : Arrival) (c : Option SiteConfig) (w : World)
    → w.rsc.body_read_state ≡ brs_idle
    → Ends (with_config e a c w).0 w (with_config e a c w).1
unfolding with_config log_config_failed
with_config-Ends e a none w idle =
    ground (arith, noted_frame w, fail_by_policy-Ends e a (config_noted w))
with_config-Ends e a (some c) w idle = ground (
  arith,
  with_rules-Ends e a c (a.rules_answer (w_to_utf8 a.utf8 c.path (units c.path * 2))) w idle,
)

begin_request-Ends :
    (e : Env) (a : Arrival) (w : World)
    → w.rsc.body_read_state ≡ brs_idle
    → Ends (begin_request e a w).0 w (begin_request e a w).1
unfolding begin_request
begin_request-Ends e a w idle = elim (Bool-cases (e.has_request w.trace)) [
  | inl has ↦ rw has (with_config-Ends e a a.config w idle)
  | inr has_not ↦ rw has_not (ground arith)
]

pub on_begin_request-Ends :
    (e : Env) (a : Option Arrival) (w : World)
    → w.rsc.body_read_state ≡ brs_idle
    → let (r, w') = on_begin_request e a w in Ends r w w' × (r ≢ raised)
unfolding on_begin_request
on_begin_request-Ends e none w idle = ground arith
on_begin_request-Ends e (some a) w idle = ground (arith, begin_request-Ends e a w idle)
