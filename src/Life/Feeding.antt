-- ===== src/Life/Feeding.antt =====
-- The header phase of one notification, where nothing is thrown.
use Prim.Native.String.{String}
use mod_security_iis.Prelude.{
  ap, suc, ◌≤◌, ◌≡◌, ◌≢◌, refl, inl, inr, Bool, true, false, some, List, [], ◌∷◌, arith,
  Option-cases,
}
use mod_security_iis.System.{
  HttpResponse, KnownHeader, RawValue, UnknownHeader, Env, Trace, World, Result, ok, raised, stuck,
  process_response_headers, add_response_header, read_intervention, clear, on_response,
  set_request_handled, update_status_code, Intervention, RequestStoredContext,
}
use mod_security_iis.System.Views.{header_phases}
use mod_security_iis.Text.{codes, c_string, a_to_utf8}
use mod_security_iis.Intervention.{
  answer, apply_intervention, disrupt, finish_request, url_of, pos_part,
  response_body_blocking_enabled,
}
use mod_security_iis.Intervention.Apply.{
  final_status, apply_intervention_frame, apply_intervention-drops,
}
use mod_security_iis.Response.Headers.{
  response_headers_table, feed_header, feed_known, feed_unknown, copied,
}
use mod_security_iis.Response.{protocol_of, header_phase}
use mod_security_iis.Response.Frames.{feed_known-Quiet, feed_unknown-Quiet}
use mod_security_iis.Life.Books.{answer_books}

-- The engine and the allocator throw nothing.
abbrev pub Unfailing : Env → Type 0
Unfailing e = (t : Trace) → e.raises t ≡ false

feed_header-ok :
    (e : Env) (name : String) (v : RawValue) (w : World)
    → Unfailing e
    → (feed_header e name v.raw_value v.raw_value_length w).0 ≡ ok tt
feed_header-ok e name v w calm = elim (Option-cases v.raw_value) [
  | inl absent ↦ ground arith
  | inr (s, present) ↦ ground (
    arith,
    calm (
        add_response_header (codes name) (c_string (a_to_utf8 (some s) v.raw_value_length))
        ∷ w.trace),
  )
]

feed_known-ok :
    (e : Env) (table : List (KnownHeader × String)) (headers : KnownHeader → RawValue) (w : World)
    → Unfailing e
    → (feed_known e table headers w).0 ≡ ok tt
unfolding feed_known
feed_known-ok e [] headers w calm = refl
feed_known-ok e ((id, name) ∷ table) headers w calm =
    let x = feed_header e name (headers id).raw_value (headers id).raw_value_length w in
    ground
      (arith, feed_header-ok e name (headers id) w calm, feed_known-ok e table headers x.1 calm)

feed_unknown-ok :
    (e : Env) (headers : List UnknownHeader) (w : World)
    → Unfailing e
    → (feed_unknown e headers w).0 ≡ ok tt
unfolding feed_unknown
feed_unknown-ok e [] w calm = refl
feed_unknown-ok e (h ∷ headers) w calm =
    let t = add_response_header (copied h.name) (copied h.value) ∷ w.trace in
    ground (arith, calm t, feed_unknown-ok e headers (record w { trace = t }) calm)

finish_request_headers :
    (e : Env) (w : World)
    → let (r, w') = finish_request e w in
      (r ≡ ok tt)
      × (header_phases w'.trace ≡ header_phases w.trace)
      × (w'.rsc.response_headers_fed ≡ w.rsc.response_headers_fed)
unfolding finish_request
finish_request_headers e w = ground arith

-- What applying an intervention leaves of the header phase.
disrupt_headers :
    (e : Env) (it : Intervention) (w : World)
    → Unfailing e
    → let (r, w') = disrupt e it w in
      (r ≢ raised)
      × (header_phases w'.trace ≡ header_phases w.trace)
      × (w'.rsc.response_headers_fed ≡ w.rsc.response_headers_fed)
unfolding disrupt
disrupt_headers e it w calm =
    let w₁ = record w { trace = on_response e clear ∷ w.trace } in
    let w₂ = (answer (url_of it) (pos_part it.status) w₁).1 in
    let final = final_status (url_of it) (pos_part it.status) in
    let w₃ = record w₂ { trace = set_request_handled ∷ update_status_code final ∷ w₂.trace } in
    ground (
      arith,
      calm (update_status_code final ∷ w₂.trace),
      answer_books (url_of it) (pos_part it.status) w₁,
      finish_request_headers e w₃,
    )

apply_intervention_headers :
    (e : Env) (b : Bool) (w : World)
    → Unfailing e
    → let (r, w') = apply_intervention e b w in
      (r ≢ raised)
      × (header_phases w'.trace ≡ header_phases w.trace)
      × (w'.rsc.response_headers_fed ≡ w.rsc.response_headers_fed)
unfolding apply_intervention
apply_intervention_headers e b w calm =
    let t = read_intervention ∷ w.trace in
    elim (Option-cases (e.intervention t)) [
      | inl absent ↦ ground (arith, calm t)
      | inr (it, found) ↦ ground (arith, calm t, disrupt_headers e it (record w { trace = t }) calm)
    ]

apply_intervention_closes :
    (e : Env) (b : Bool) (w : World)
    → (apply_intervention e b w).0 ≡ ok true
    → (apply_intervention e b w).1.rsc.tx ≡ false
apply_intervention_closes e b w h =
    ap (λ (r : RequestStoredContext). r.tx) (apply_intervention-drops e b w h)

-- The header phase runs phase 3 at most once, and has then gone through or replaced the response.
pub record Feeds (x : Result Bool × World) (w : World) : Type 0 where
  pub ends : (x.0 ≢ raised) × (x.0 ≢ stuck)
  pub at_most : header_phases x.1.trace ≤ suc (header_phases w.trace)
  pub stays :
      w.rsc.response_headers_fed ≡ true
      → (x.1.rsc.response_headers_fed ≡ true) × (header_phases x.1.trace ≡ header_phases w.trace)
  pub passed : x.0 ≡ ok false → x.1.rsc.response_headers_fed ≡ true
  pub replaced : x.0 ≡ ok true → x.1.rsc.tx ≡ false

pub header_phase-Feeds :
    (e : Env) (r : HttpResponse) (w : World) → Unfailing e → Feeds (header_phase e r w) w
unfolding header_phase
header_phase-Feeds e r w calm =
    let w₁ = (feed_known e response_headers_table r.response_headers w).1 in
    let w₂ = (feed_unknown e r.unknown_headers w₁).1 in
    let t = process_response_headers r.status_code (protocol_of w.rsc.protocol) ∷ w₂.trace in
    let w₃ = record w₂ { trace = t } in
    let b = response_body_blocking_enabled e w₃ in
    ground (
      arith,
      feed_known-Quiet e response_headers_table r.response_headers w,
      feed_known-ok e response_headers_table r.response_headers w calm,
      feed_unknown-Quiet e r.unknown_headers w₁,
      feed_unknown-ok e r.unknown_headers w₁ calm,
      calm t,
      apply_intervention_headers e b w₃ calm,
      apply_intervention_closes e b w₃,
      (apply_intervention_frame e b w₃).0,
    )
