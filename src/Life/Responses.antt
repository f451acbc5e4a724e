-- ===== src/Life/Responses.antt =====
-- The response side of a request's life: what inspecting a response keeps.
use Prim.Native.String.{String}
use mod_security_iis.Prelude.{
  ℕ, zero, suc, ◌+◌, ◌≡◌, refl, ◌⊎◌, inl, inr, Bool, true, false, ◌&&◌, Option, none, some, List,
  [], ◌∷◌, arith, Option-cases, Bool-cases, if◌then◌else◌, min, length,
}
use mod_security_iis.System.{
  HttpResponse, KnownHeader, RawValue, UnknownHeader, FileHandle, DataChunk, from_memory,
  from_file_handle, other, Env, World, Status, rq_continue, rq_finish_request, Result, M, ◌>>=◌,
  ◌>>◌, pure, catch, note, log_event, exception_in, in_send_response, append_response_body,
  duplicate_handle, process_response_headers, process_response_body, add_response_header,
}
use mod_security_iis.Settings.{max_inspect_body_bytes}
use mod_security_iis.Intervention.{response_body_blocking_enabled}
use mod_security_iis.ResponseChunks.{
  sub64, add64, file_take, file_buf_size, read_range, range_length, read_from,
  append_response_file_chunk, inspect_chunk, inspect_chunks,
}
use mod_security_iis.Response.Headers.{
  response_headers_table, feed_header, feed_known, feed_unknown, copied,
}
use mod_security_iis.Response.{
  protocol_of, header_phase, pin_length, pinned, block_phase, inspect_phase, mode_a, mode_b,
  body_phases, response_phase, exception_policy, on_send_response,
}
use mod_security_iis.Response.Frames.{Guarded}
use mod_security_iis.Response.Phases.{on_send_response-Guarded}
use mod_security_iis.Life.Spec.{Accounts, Judges}
use mod_security_iis.Life.Books.{
  view, KeepsRequest, KeepsRequest-trans, bind-keeps, catch-keeps, apply_intervention-Steady,
}

KeepsRequest-refl : (w : World) → KeepsRequest w w
KeepsRequest-refl w = ground arith

-- One part after another.
after :
    {A B : Type 0} (w : World) (x : Result A × World) (f : A → M B)
    → KeepsRequest w x.1
    → ((a : A) → KeepsRequest x.1 (f a x.1).1)
    → KeepsRequest w (((λ (v : World). x) >>= f) w).1
after = bind-keeps KeepsRequest KeepsRequest-trans

read_range-KeepsRequest :
    (fuel : ℕ) (e : Env) (h : FileHandle) (offset n k : ℕ) (w : World)
    → KeepsRequest w (read_range fuel e h offset n k w).1
unfolding read_range
read_range-KeepsRequest zero e h offset n k w = ground arith
read_range-KeepsRequest (suc fuel) e h offset n k w =
    elim (Option-cases (h.read_file offset (min n file_buf_size))) [
      | inl failed ↦ ground arith
      | inr ([], got) ↦ ground arith
      | inr (c ∷ s, got) ↦ ground (
        arith,
        read_range-KeepsRequest fuel e h (offset + length (c ∷ s)) (sub64 n (length (c ∷ s)))
            (add64 k (length (c ∷ s)))
            (record w { trace = append_response_body (c ∷ s) ∷ w.trace }),
      )
    ]

read_from-KeepsRequest :
    (e : Env) (h : FileHandle) (start n : ℕ) (w : World)
    → KeepsRequest w (read_from e h start n w).1
unfolding read_from
read_from-KeepsRequest e h start n w =
    let m = range_length h start n in ground (arith, read_range-KeepsRequest m e h start m 0 w)

append_response_file_chunk-KeepsRequest :
    (e : Env) (h : FileHandle) (start n : ℕ) (w : World)
    → KeepsRequest w (append_response_file_chunk e h start n w).1
unfolding append_response_file_chunk
append_response_file_chunk-KeepsRequest e h start n w =
    ground
      (arith, read_from-KeepsRequest e h start n (record w { trace = duplicate_handle ∷ w.trace }))

inspect_chunk-KeepsRequest :
    (e : Env) (c : DataChunk) (k : ℕ) (w : World) → KeepsRequest w (inspect_chunk e c k w).1
unfolding inspect_chunk
inspect_chunk-KeepsRequest e (from_memory s) k w = ground arith
inspect_chunk-KeepsRequest e (from_file_handle h start n) k w = ground (
  arith,
  append_response_file_chunk-KeepsRequest e h start (file_take (max_inspect_body_bytes e) k n) w,
)
inspect_chunk-KeepsRequest e other k w = ground arith

inspect_chunks-KeepsRequest :
    (e : Env) (cs : List DataChunk) (k : ℕ) (w : World) → KeepsRequest w (inspect_chunks e cs k w).1
unfolding inspect_chunks
inspect_chunks-KeepsRequest e [] k w = ground arith
inspect_chunks-KeepsRequest e (c ∷ cs) k w =
    after w (inspect_chunk e c k w) (inspect_chunks e cs) (inspect_chunk-KeepsRequest e c k w)
      (λ m. inspect_chunks-KeepsRequest e cs m (inspect_chunk e c k w).1)

feed_header-KeepsRequest :
    (e : Env) (name : String) (v : RawValue) (w : World)
    → KeepsRequest w (feed_header e name v.raw_value v.raw_value_length w).1
feed_header-KeepsRequest e name v w = elim (Option-cases v.raw_value) [
  | inl absent ↦ ground arith
  | inr (s, present) ↦ ground arith
]

feed_known-KeepsRequest :
    (e : Env) (table : List (KnownHeader × String)) (headers : KnownHeader → RawValue) (w : World)
    → KeepsRequest w (feed_known e table headers w).1
unfolding feed_known
feed_known-KeepsRequest e [] headers w = ground arith
feed_known-KeepsRequest e ((id, name) ∷ table) headers w =
    let x = feed_header e name (headers id).raw_value (headers id).raw_value_length w in
    after w x (λ _. feed_known e table headers) (feed_header-KeepsRequest e name (headers id) w)
      (λ _. feed_known-KeepsRequest e table headers x.1)

feed_unknown-KeepsRequest :
    (e : Env) (headers : List UnknownHeader) (w : World)
    → KeepsRequest w (feed_unknown e headers w).1
unfolding feed_unknown
feed_unknown-KeepsRequest e [] w = ground arith
feed_unknown-KeepsRequest e (h ∷ headers) w =
    let t = add_response_header (copied h.name) (copied h.value) ∷ w.trace in
    ground (arith, feed_unknown-KeepsRequest e headers (record w { trace = t }))

header_phase-KeepsRequest :
    (e : Env) (r : HttpResponse) (w : World) → KeepsRequest w (header_phase e r w).1
unfolding header_phase
header_phase-KeepsRequest e r w =
    let w₁ = (feed_known e response_headers_table r.response_headers w).1 in
    let w₂ = (feed_unknown e r.unknown_headers w₁).1 in
    let w₃ = record w₂ {
      trace = process_response_headers r.status_code (protocol_of w.rsc.protocol) ∷ w₂.trace;
    } in
    ground (
      arith,
      feed_known-KeepsRequest e response_headers_table r.response_headers w,
      feed_unknown-KeepsRequest e r.unknown_headers w₁,
      apply_intervention-Steady e (response_body_blocking_enabled e w₃) w₃,
    )

-- The world in which phase 4 is judged.
abbrev evaluated_world : World → World
evaluated_world w = record w {
  rsc = record (w.rsc) { response_body_evaluated = true };
  trace = process_response_body ∷ w.trace;
}

mode_a-KeepsRequest :
    (e : Env) (r : HttpResponse) (n : ℕ) (w : World) → KeepsRequest w (mode_a e r n w).1
unfolding mode_a block_phase pin_length
mode_a-KeepsRequest e r n w =
    ground (arith, apply_intervention-Steady e true (evaluated_world (pinned e r n w)))

mode_b-KeepsRequest : (e : Env) (r : HttpResponse) (w : World) → KeepsRequest w (mode_b e r w).1
unfolding mode_b inspect_phase
mode_b-KeepsRequest e r w = ground (arith, apply_intervention-Steady e false (evaluated_world w))

-- After mode A.
then_b : Env → HttpResponse → Bool → M Status
then_b e r replaced = if replaced then pure rq_finish_request else (mode_b e r >> pure rq_continue)

then_b-KeepsRequest :
    (e : Env) (r : HttpResponse) (replaced : Bool) (w : World)
    → KeepsRequest w (then_b e r replaced w).1
unfolding then_b
then_b-KeepsRequest e r true w = KeepsRequest-refl w
then_b-KeepsRequest e r false w =
    after w (mode_b e r w) (λ _. pure rq_continue) (mode_b-KeepsRequest e r w)
      (λ _. KeepsRequest-refl (mode_b e r w).1)

pub body_phases-KeepsRequest :
    (e : Env) (r : HttpResponse) (w : World) → KeepsRequest w (body_phases e r w).1
unfolding body_phases then_b
body_phases-KeepsRequest e r w =
    let x = inspect_chunks e r.entity_chunks 0 w in
    after w x (λ n. mode_a e r n >>= then_b e r) (inspect_chunks-KeepsRequest e r.entity_chunks 0 w)
      (λ n.
        after x.1 (mode_a e r n x.1) (then_b e r) (mode_a-KeepsRequest e r n x.1)
          (λ replaced. then_b-KeepsRequest e r replaced (mode_a e r n x.1).1))

response_phase-KeepsRequest :
    (e : Env) (r : HttpResponse) (w : World) → KeepsRequest w (response_phase e r w).1
unfolding response_phase
response_phase-KeepsRequest e r w =
    after w (header_phase e r w)
      (λ replaced. if replaced then pure rq_finish_request else body_phases e r)
      (header_phase-KeepsRequest e r w) (rest (header_phase e r w).1)
  where
    rest :
        (v : World) (replaced : Bool)
        → KeepsRequest v ((if replaced then pure rq_finish_request else body_phases e r) v).1
    rest v true = KeepsRequest-refl v
    rest v false = body_phases-KeepsRequest e r v

-- The exception handler of `OnSendResponse`.
abbrev pub on_exception : M Status
on_exception = note (log_event (exception_in in_send_response)) >> exception_policy

on_exception-KeepsRequest : (w : World) → KeepsRequest w (on_exception w).1
unfolding exception_policy
on_exception-KeepsRequest w = ground arith

response_phase-caught :
    (e : Env) (r : HttpResponse) (w : World)
    → KeepsRequest w (catch (response_phase e r) on_exception w).1
response_phase-caught e r w =
    catch-keeps KeepsRequest KeepsRequest-trans w (response_phase e r w) on_exception
      (response_phase-KeepsRequest e r w) (on_exception-KeepsRequest (response_phase e r w).1)

-- What a notification keeps is what the machine's judgement keeps.
moves-Judges :
    (w w' : World)
    → KeepsRequest w w'
    → Guarded w w'
    → Accounts (view w) (view w') × Judges (view w) (view w')
moves-Judges w w' k g = ground (arith, g.stays, g.marked)

-- A notification is ignored, or judges a response of an open request.
pub on_send_response-moves :
    (e : Env) (r : Option HttpResponse) (w : World)
    → let w' = (on_send_response e r w).1 in
      (w' ≡ w) ⊎ ((w.rsc.tx ≡ true) × Accounts (view w) (view w') × Judges (view w) (view w'))
unfolding on_send_response
on_send_response-moves e none w = inl refl
on_send_response-moves e (some r) w = elim (Bool-cases (w.stored && w.rsc.tx)) [
  | inl tracked ↦
      let w' = (on_send_response e (some r) w).1 in
      let keeps : KeepsRequest w w' = rw tracked (response_phase-caught e r w) in
      let moved = moves-Judges w w' keeps (on_send_response-Guarded e (some r) w) in
      inr (ground arith, moved.0, moved.1)
  | inr untracked ↦ inl (rw untracked refl)
]
