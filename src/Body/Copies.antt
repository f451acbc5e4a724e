-- ===== src/Body/Copies.antt =====
-- Where the cap leaves room, no memory is overrun by the body: the memcpy of the drained body and
-- its DWORD size agree.
use mod_security_iis.Prelude.{
  ℕ, zero, suc, ◌+◌, ◌^◌, ◌≤◌, ◌<◌, ◌≡◌, ◌∙◌, refl, inl, inr, Bool, ◌&&◌, Option, none, some, arith,
  length, length-append, Bool-cases, List, [], ◌∷◌, ltb, ltb→lt,
}
use mod_security_iis.System.{Env, World, Chunk, ok, brs_idle, brs_done}
use mod_security_iis.System.Views.{overruns}
use mod_security_iis.Settings.{max_inspect_body_bytes, body_reads_async}
use mod_security_iis.Settings.Laws.{max_inspect_body_bytes_bounds}
use mod_security_iis.EntityBody.{get_entity_body_info}
use mod_security_iis.FinishBody.Copies.{finish_body_read-fits}
use mod_security_iis.Body.{
  body_read_chunk_size, end_body, cap_noted, log_cap, judge_chunk, consume_body_chunk, pump_loop,
  pump_fuel, pump_body_read, prepare_reads, start_reads, begin_body_read, begin_body_phase,
  continue_body, on_async_completion, is_read_pending,
}
use mod_security_iis.Body.Chunks.{
  consume_body_chunk-none, appended, WantsMore, append_chunk-none, append_chunk-some,
}
use mod_security_iis.Body.Loops.{go_on, inline_read_idle, pump_loop-inline, pump_loop-pending}
use mod_security_iis.Body.Completions.{deliver}
use mod_security_iis.Body.Phase.{idled}
use mod_security_iis.Body.Bounds.{
  Fits, AllFit, Bounded, begin_body_phase-Bounded, on_async_completion-Bounded,
}

end_body-overruns :
    (e : Env) (w : World)
    → length w.rsc.body < 2 ^ 32
    → overruns (end_body e w).1.trace ≡ overruns w.trace
unfolding end_body
end_body-overruns e w h = ground (
  arith,
  finish_body_read-fits e (record w { rsc = record (w.rsc) { body_read_state = brs_done } }) h,
)

judge_chunk-overruns :
    (e : Env) (c : Chunk) (w : World)
    → length w.rsc.body < 2 ^ 32
    → overruns (judge_chunk e c w).1.trace ≡ overruns w.trace
unfolding judge_chunk log_cap
judge_chunk-overruns e c w h =
    ground (arith, end_body-overruns e w, end_body-overruns e (cap_noted w))

consume_body_chunk-overruns :
    (e : Env) (c : Chunk) (w : World)
    → length w.rsc.body + length c.bytes < 2 ^ 32
    → overruns (consume_body_chunk e c w).1.trace ≡ overruns w.trace
unfolding consume_body_chunk
consume_body_chunk-overruns e c w h = elim (Bool-cases (ltb 0 (length c.bytes))) [
  | inl more ↦ ground (
    arith,
    append_chunk-some e c w (ltb→lt 0 (length c.bytes) more),
    judge_chunk-overruns e c (appended c w),
    length-append w.rsc.body c.bytes,
  )
  | inr empty ↦ ground (arith, append_chunk-none e c w, judge_chunk-overruns e c w)
]

prepare_reads_frame :
    (e : Env) (n : ℕ) (w : World)
    → let w' = (prepare_reads e n w).1 in
      (w'.rsc.body_read_state ≡ w.rsc.body_read_state)
      × (w'.rsc.body ≡ w.rsc.body)
      × (overruns w'.trace ≡ overruns w.trace)
unfolding prepare_reads
prepare_reads_frame e n w = ground arith

go_on-overruns :
    (async : Bool) (fuel : ℕ) (e : Env) (c : Chunk) (w : World)
    → length w.rsc.body + length c.bytes < 2 ^ 32
    → let x = consume_body_chunk e c w in
      (x.0 ≡ ok none → overruns (pump_loop async fuel e x.1).1.trace ≡ overruns x.1.trace)
      → overruns (go_on async fuel e x).1.trace ≡ overruns w.trace
go_on-overruns async fuel e c w room rest = ground (arith, consume_body_chunk-overruns e c w room)

pump_loop-zero : (async : Bool) (e : Env) (w : World) → (pump_loop async zero e w).1 ≡ w
unfolding pump_loop
pump_loop-zero async e w = refl

module _ (e : Env) (fits : (n : ℕ) → Fits (e.read n).chunk)
    (small : max_inspect_body_bytes e + body_read_chunk_size ≤ 2 ^ 32) where
  pump_loop-overruns :
      (async : Bool) (fuel : ℕ) (w : World)
      → length w.rsc.body < max_inspect_body_bytes e
      → w.rsc.body_read_state ≡ brs_idle
      → overruns (pump_loop async fuel e w).1.trace ≡ overruns w.trace
  pump_loop-overruns async zero w room idle = rw (pump_loop-zero async e w) refl
  pump_loop-overruns async (suc fuel) w room idle =
      elim (Bool-cases (async && (e.read w.reads).pending)) [
        | inl pends ↦ rw (pump_loop-pending async fuel e w pends) refl
        | inr inline ↦
            rw (pump_loop-inline async fuel e w inline, inline_read_idle async w idle)
              (go_on-overruns async fuel e c w₁ (omega (arith, fits w.reads, small, room)) (λ more.
                let (same, wants) = consume_body_chunk-none e c w₁ more in
                rw same (pump_loop-overruns async fuel (appended c w₁) (below wants) idle)))
      ]
    where
      c : Chunk
      c = (e.read w.reads).chunk

      w₁ : World
      w₁ = record w { reads = suc w.reads }

      below : WantsMore e c w₁ → length (appended c w₁).rsc.body < max_inspect_body_bytes e
      below wants = omega (arith, wants.below_cap, length-append w.rsc.body c.bytes)

  pump_body_read-overruns :
      (async : Bool) (w : World)
      → length w.rsc.body < max_inspect_body_bytes e
      → w.rsc.body_read_state ≡ brs_idle
      → overruns (pump_body_read async e w).1.trace ≡ overruns w.trace
  unfolding pump_body_read
  pump_body_read-overruns async w room idle =
      let below : length w.rsc.body < 2 ^ 32 = omega (arith, small, room) in
      ground (
        arith,
        pump_loop-overruns async (pump_fuel e) w room idle,
        finish_body_read-fits e (record w { rsc = record (w.rsc) { body_read_state = brs_done } })
            below,
      )

  begin_body_phase-overruns :
      (w : World)
      → length w.rsc.body < max_inspect_body_bytes e
      → w.rsc.body_read_state ≡ brs_idle
      → overruns (begin_body_phase e w).1.trace ≡ overruns w.trace
  unfolding begin_body_phase begin_body_read start_reads
  begin_body_phase-overruns w room idle =
      let n = (get_entity_body_info e.raw_request).length in
      let below : length w.rsc.body < 2 ^ 32 = omega (arith, small, room) in
      ground (
        arith,
        prepare_reads_frame e n w,
        pump_body_read-overruns (body_reads_async e) (prepare_reads e n w).1,
        finish_body_read-fits e w below,
      )

  on_async_completion-overruns :
      (c : Chunk) (w : World)
      → Fits c
      → Bounded e w
      → overruns (on_async_completion e (some c) w).1.trace ≡ overruns w.trace
  unfolding on_async_completion continue_body
  on_async_completion-overruns c w fit bounded =
      elim (Bool-cases (is_read_pending w.rsc.body_read_state)) [
        | inl pending ↦
            let room : length w.rsc.body < max_inspect_body_bytes e = ground (arith, bounded.1) in
            let below : length w.rsc.body + length c.bytes < 2 ^ 32 =
              omega (arith, small, room, fit) in
            ground (
              arith,
              consume_body_chunk-overruns e c (idled w) below,
              consume_body_chunk-none e c (idled w),
              length-append w.rsc.body c.bytes,
              pump_body_read-overruns (body_reads_async e) (appended c (idled w)),
            )
        | inr free ↦ ground (arith, free)
      ]

  deliver-overruns :
      (cs : List (Option Chunk)) (w : World)
      → AllFit cs
      → Bounded e w
      → overruns (deliver e cs w).trace ≡ overruns w.trace
  unfolding on_async_completion
  deliver-overruns [] w fit h = refl
  deliver-overruns (none ∷ cs) w fit h = deliver-overruns cs w fit h
  deliver-overruns (some c ∷ cs) w fit h =
      deliver-overruns cs (on_async_completion e (some c) w).1 fit.1
        (on_async_completion-Bounded e fits c w fit.0 h)
      ∙ on_async_completion-overruns c w fit.0 h

-- If no read delivers more than its 64 KiB buffer, and the inspection cap is at least 64 KiB below
-- 4 GiB: for a request that started with an empty body and no read begun, whatever completions are
-- delivered, the body is never copied into memory smaller than itself.
pub body_never_overruns :
    (e : Env)
    → ((n : ℕ) → Fits (e.read n).chunk)
    → max_inspect_body_bytes e + body_read_chunk_size ≤ 2 ^ 32
    → (cs : List (Option Chunk)) → AllFit cs
    → (w : World) → w.rsc.body ≡ []
    → w.rsc.body_read_state ≡ brs_idle
    → overruns (deliver e cs (begin_body_phase e w).1).trace ≡ overruns w.trace
body_never_overruns e fits small cs fit w fresh idle =
    let room : length w.rsc.body < max_inspect_body_bytes e =
      rw fresh (max_inspect_body_bytes_bounds e).0 in
    deliver-overruns e fits small cs (begin_body_phase e w).1 fit
      (begin_body_phase-Bounded e fits w room idle)
    ∙ begin_body_phase-overruns e fits small w room idle
