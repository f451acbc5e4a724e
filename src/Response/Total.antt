-- ===== src/Response/Total.antt =====
-- Every notification of a response ends with a status.
use Prim.Native.String.{String}
use mod_security_iis.Prelude.{
  ℕ, ◌≢◌, refl, inl, inr, Bool, true, false, Option, none, some, List, [], ◌∷◌, ◌&&◌, arith,
  Option-cases, Bool-cases, if◌then◌else◌,
}
use mod_security_iis.System.{
  HttpResponse, KnownHeader, RawValue, UnknownHeader, Env, World, Status, rq_continue, rq_pending,
  rq_finish_request, Result, ok, raised, stuck, M, pure, ◌>>=◌, ◌>>◌, catch, note, log_event,
  exception_in, in_send_response, process_response_headers, process_response_body,
  add_response_header,
}
use mod_security_iis.Intervention.{response_body_blocking_enabled}
use mod_security_iis.Intervention.Apply.{apply_intervention_frame}
use mod_security_iis.ResponseChunks.{inspect_chunks}
use mod_security_iis.ResponseChunks.Cap.{AllSound, inspect_chunks_cap}
use mod_security_iis.Response.Headers.{
  response_headers_table, feed_header, feed_known, feed_unknown, copied,
}
use mod_security_iis.Response.{
  protocol_of, header_phase, pin_length, pinned, block_phase, inspect_phase, mode_a, mode_b,
  body_phases, response_phase, exception_policy, on_send_response,
}

-- A run whose parts end, ends.
ends-bind :
    {A B : Type 0} (w : World) (x : Result A × World) (f : A → M B)
    → x.0 ≢ stuck
    → ((a : A) → (f a x.1).0 ≢ stuck)
    → (((λ (v : World). x) >>= f) w).0 ≢ stuck
ends-bind w (ok a, v) f h rest = rest a
ends-bind w (raised, v) f h rest = λ p. cc
ends-bind w (stuck, v) f h rest = absurd (h refl)

feed_header_ends :
    (e : Env) (name : String) (v : RawValue) (w : World)
    → (feed_header e name v.raw_value v.raw_value_length w).0 ≢ stuck
feed_header_ends e name v w = elim (Option-cases v.raw_value) [
  | inl absent ↦ ground arith
  | inr (s, present) ↦ ground arith
]

feed_known_ends :
    (e : Env) (table : List (KnownHeader × String)) (headers : KnownHeader → RawValue) (w : World)
    → (feed_known e table headers w).0 ≢ stuck
unfolding feed_known
feed_known_ends e [] headers w = ground arith
feed_known_ends e ((id, name) ∷ table) headers w =
    let x = feed_header e name (headers id).raw_value (headers id).raw_value_length w in
    ends-bind w x (λ _. feed_known e table headers) (feed_header_ends e name (headers id) w)
      (λ _. feed_known_ends e table headers x.1)

feed_unknown_ends :
    (e : Env) (headers : List UnknownHeader) (w : World) → (feed_unknown e headers w).0 ≢ stuck
unfolding feed_unknown
feed_unknown_ends e [] w = ground arith
feed_unknown_ends e (h ∷ headers) w =
    let t = add_response_header (copied h.name) (copied h.value) ∷ w.trace in
    ground (arith, feed_unknown_ends e headers (record w { trace = t }))

header_phase_ends : (e : Env) (r : HttpResponse) (w : World) → (header_phase e r w).0 ≢ stuck
unfolding header_phase
header_phase_ends e r w =
    let w₁ = (feed_known e response_headers_table r.response_headers w).1 in
    let w₂ = (feed_unknown e r.unknown_headers w₁).1 in
    let w₃ = record w₂ {
      trace = process_response_headers r.status_code (protocol_of w.rsc.protocol) ∷ w₂.trace;
    } in
    ground (
      arith,
      feed_known_ends e response_headers_table r.response_headers w,
      feed_unknown_ends e r.unknown_headers w₁,
      apply_intervention_frame e (response_body_blocking_enabled e w₃) w₃,
    )

-- The world in which phase 4 is judged.
abbrev evaluated_world : World → World
evaluated_world w = record w {
  rsc = record (w.rsc) { response_body_evaluated = true };
  trace = process_response_body ∷ w.trace;
}

mode_a_ends : (e : Env) (r : HttpResponse) (n : ℕ) (w : World) → (mode_a e r n w).0 ≢ stuck
unfolding mode_a block_phase pin_length
mode_a_ends e r n w =
    ground (arith, apply_intervention_frame e true (evaluated_world (pinned e r n w)))

mode_b_ends : (e : Env) (r : HttpResponse) (w : World) → (mode_b e r w).0 ≢ stuck
unfolding mode_b inspect_phase
mode_b_ends e r w = ground (arith, apply_intervention_frame e false (evaluated_world w))

inspect_chunks_ends :
    (e : Env) (r : HttpResponse) (w : World)
    → AllSound r.entity_chunks
    → (inspect_chunks e r.entity_chunks 0 w).0 ≢ stuck
inspect_chunks_ends e r w sound = ground (arith, inspect_chunks_cap e r.entity_chunks 0 w sound)

-- What follows the chunk loop.
modes : Env → HttpResponse → ℕ → M Status
modes e r inspected = do
  replaced ← mode_a e r inspected
  if replaced then pure rq_finish_request else (mode_b e r >> pure rq_continue)

-- A status that lets the pipeline go on or finishes it, or an exception.
abbrev Settles : Result Status → Type 0
Settles r = (r ≢ stuck) × (r ≢ ok rq_pending)

Settles-bind :
    {A : Type 0} (w : World) (x : Result A × World) (f : A → M Status)
    → x.0 ≢ stuck
    → ((a : A) → Settles (f a x.1).0)
    → Settles (((λ (v : World). x) >>= f) w).0
Settles-bind w (ok a, v) f h rest = rest a
Settles-bind w (raised, v) f h rest = ground arith
Settles-bind w (stuck, v) f h rest = absurd (h refl)

modes_settle : (e : Env) (r : HttpResponse) (n : ℕ) (w : World) → Settles (modes e r n w).0
unfolding modes
modes_settle e r n w = ground (arith, mode_a_ends e r n w, mode_b_ends e r (mode_a e r n w).1)

body_phases-Settles :
    (e : Env) (r : HttpResponse) (w : World)
    → AllSound r.entity_chunks
    → Settles (body_phases e r w).0
unfolding body_phases modes
body_phases-Settles e r w sound =
    let x = inspect_chunks e r.entity_chunks 0 w in
    Settles-bind w x (modes e r) (inspect_chunks_ends e r w sound) (λ n. modes_settle e r n x.1)

response_phase-Settles :
    (e : Env) (r : HttpResponse) (w : World)
    → AllSound r.entity_chunks
    → Settles (response_phase e r w).0
unfolding response_phase
response_phase-Settles e r w sound =
    Settles-bind w (header_phase e r w)
      (λ replaced. if replaced then pure rq_finish_request else body_phases e r)
      (header_phase_ends e r w) (rest (header_phase e r w).1)
  where
    rest :
        (v : World) (replaced : Bool)
        → Settles ((if replaced then pure rq_finish_request else body_phases e r) v).0
    rest v true = ground arith
    rest v false = body_phases-Settles e r v sound

-- The files of a response are sound.
abbrev pub SoundResponse : Option HttpResponse → Type 0
SoundResponse none = Unit
SoundResponse (some r) = AllSound r.entity_chunks

caught-Settles :
    (x : Result Status × World)
    → Settles x.0
    → let y =
        catch
          (λ (v : World). x)
          (note (log_event (exception_in in_send_response)) >> exception_policy)
          x.1 in
      Settles y.0 × (y.0 ≢ raised)
unfolding exception_policy
caught-Settles (ok s, v) h = ground arith
caught-Settles (raised, v) h = ground arith
caught-Settles (stuck, v) h = absurd (h.0 refl)

-- Where the files of its chunks deliver no more than is asked of them and each file range is all
-- the rest of its file (BYTE_RANGE_TO_EOF) or a positive LONGLONG, so below 2 ^ 63, every notification of a
-- response ends with a status that is not pending, in every environment: no exception of the engine
-- leaves the handler, and no loop over chunks or files is left unfinished.
pub on_send_response_total :
    (e : Env) (r : Option HttpResponse) (w : World)
    → SoundResponse r
    → let s = (on_send_response e r w).0 in (s ≢ raised) × (s ≢ stuck) × (s ≢ ok rq_pending)
unfolding on_send_response
on_send_response_total e none w sound = ground arith
on_send_response_total e (some r) w sound = elim (Bool-cases (w.stored && w.rsc.tx)) [
  | inl tracked ↦
      let caught = caught-Settles (response_phase e r w) (response_phase-Settles e r w sound) in
      rw tracked (caught.1, caught.0.0, caught.0.1)
  | inr untracked ↦ rw untracked (ground arith)
]
