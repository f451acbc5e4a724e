-- ===== src/Response/Detection.antt =====
-- Where the responses may not be blocked, none is replaced.
use mod_security_iis.Prelude.{◌≡◌, ◌≢◌, inl, inr, true, false, ◌∷◌, arith, Option-cases}
use mod_security_iis.System.{HttpResponse, Env, World, ok, process_response_body, read_intervention}
use mod_security_iis.System.Views.{wire_status, handled}
use mod_security_iis.Intervention.{apply_intervention}
use mod_security_iis.Response.{inspect_phase, mode_b}

apply_intervention-detects :
    (e : Env) (w : World)
    → let (r, w') = apply_intervention e false w in
      (r ≢ ok true)
      × (w'.rsc ≡ w.rsc)
      × (wire_status w'.trace ≡ wire_status w.trace)
      × (handled w'.trace ≡ handled w.trace)
unfolding apply_intervention
apply_intervention-detects e w =
    elim (Option-cases (e.intervention (read_intervention ∷ w.trace))) [
      | inl absent ↦ ground arith
      | inr (it, found) ↦ ground arith
    ]

-- The world in which mode B asks for the verdict.
abbrev evaluated_world : World → World
evaluated_world w = record w {
  rsc = record (w.rsc) { response_body_evaluated = true };
  trace = process_response_body ∷ w.trace;
}

-- Mode B only detects: whatever the engine reports or throws, it sets no status, does not mark the
-- request handled, and leaves its transaction and rules open.
pub mode_b-detects :
    (e : Env) (r : HttpResponse) (w : World)
    → let w' = (mode_b e r w).1 in
      (wire_status w'.trace ≡ wire_status w.trace)
      × (handled w'.trace ≡ handled w.trace)
      × (w'.rsc.tx ≡ w.rsc.tx)
      × (w'.rsc.rules ≡ w.rsc.rules)
unfolding mode_b inspect_phase
mode_b-detects e r w = ground (arith, apply_intervention-detects e (evaluated_world w))
