-- ===== src/Response/Frames.antt =====
-- What the parts of `OnSendResponse` leave alone.
use Prim.Native.String.{String}
use mod_security_iis.Prelude.{
  ℕ, suc, ◌≤◌, ◌≡◌, inl, inr, true, false, List, [], ◌∷◌, arith, Option-cases,
}
use mod_security_iis.System.{
  KnownHeader, RawValue, UnknownHeader, HttpResponse, Env, World, process_response_headers,
  process_response_body, add_response_header,
}
use mod_security_iis.System.Views.{response_phases}
use mod_security_iis.Intervention.{response_body_blocking_enabled}
use mod_security_iis.Intervention.Apply.{apply_intervention_frame}
use mod_security_iis.ResponseChunks.Frames.{Quiet, Quiet-bind}
use mod_security_iis.Response.Headers.{
  response_headers_table, feed_header, feed_known, feed_unknown, copied,
}
use mod_security_iis.Response.{
  header_phase, protocol_of, pin_length, pinned, block_phase, inspect_phase, mode_a, mode_b,
}

feed_header-Quiet :
    (e : Env) (name : String) (v : RawValue) (w : World)
    → Quiet w (feed_header e name v.raw_value v.raw_value_length w).1
feed_header-Quiet e name v w = elim (Option-cases v.raw_value) [
  | inl absent ↦ ground arith
  | inr (s, present) ↦ ground arith
]

pub feed_known-Quiet :
    (e : Env) (table : List (KnownHeader × String)) (headers : KnownHeader → RawValue) (w : World)
    → Quiet w (feed_known e table headers w).1
unfolding feed_known
feed_known-Quiet e [] headers w = ground arith
feed_known-Quiet e ((id, name) ∷ table) headers w =
    let x = feed_header e name (headers id).raw_value (headers id).raw_value_length w in
    Quiet-bind w x (λ _. feed_known e table headers) (feed_header-Quiet e name (headers id) w)
      (λ _. feed_known-Quiet e table headers x.1)

pub feed_unknown-Quiet :
    (e : Env) (headers : List UnknownHeader) (w : World) → Quiet w (feed_unknown e headers w).1
unfolding feed_unknown
feed_unknown-Quiet e [] w = ground arith
feed_unknown-Quiet e (h ∷ headers) w =
    let t = add_response_header (copied h.name) (copied h.value) ∷ w.trace in
    ground (arith, feed_unknown-Quiet e headers (record w { trace = t }))

-- The header phase runs no phase 4, and keeps what the body phases look at.
pub header_phase_frame :
    (e : Env) (r : HttpResponse) (w : World)
    → let w' = (header_phase e r w).1 in
      (response_phases w'.trace ≡ response_phases w.trace)
      × (w'.rsc.response_body_evaluated ≡ w.rsc.response_body_evaluated)
unfolding header_phase
header_phase_frame e r w =
    let w₁ = (feed_known e response_headers_table r.response_headers w).1 in
    let w₂ = (feed_unknown e r.unknown_headers w₁).1 in
    let w₃ = record w₂ {
      trace = process_response_headers r.status_code (protocol_of w.rsc.protocol) ∷ w₂.trace;
    } in
    ground (
      arith,
      feed_known-Quiet e response_headers_table r.response_headers w,
      feed_unknown-Quiet e r.unknown_headers w₁,
      apply_intervention_frame e (response_body_blocking_enabled e w₃) w₃,
    )

-- How phase 4 relates to the flag that guards it, over a run from w to w'.
pub record Guarded (w : World) (w' : World) : Type 0 where
  pub stays :
      w.rsc.response_body_evaluated ≡ true
      → (w'.rsc.response_body_evaluated ≡ true)
        × (response_phases w'.trace ≡ response_phases w.trace)
  pub once : response_phases w'.trace ≤ suc (response_phases w.trace)
  pub marked :
      w'.rsc.response_body_evaluated ≡ false → response_phases w'.trace ≡ response_phases w.trace

-- The world in which phase 4 is judged.
abbrev evaluated_world : World → World
evaluated_world w = record w {
  rsc = record (w.rsc) { response_body_evaluated = true };
  trace = process_response_body ∷ w.trace;
}

pub mode_a-Guarded : (e : Env) (r : HttpResponse) (n : ℕ) (w : World) → Guarded w (mode_a e r n w).1
unfolding mode_a block_phase pin_length
mode_a-Guarded e r n w =
    ground (arith, apply_intervention_frame e true (evaluated_world (pinned e r n w)))

pub mode_b-Guarded : (e : Env) (r : HttpResponse) (w : World) → Guarded w (mode_b e r w).1
unfolding mode_b inspect_phase
mode_b-Guarded e r w = ground (arith, apply_intervention_frame e false (evaluated_world w))
