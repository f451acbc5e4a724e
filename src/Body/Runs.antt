-- ===== src/Body/Runs.antt =====
-- A body phase that lets the request go on has run phase 2.
use mod_security_iis.Prelude.{
  ℕ, zero, suc, ◌≡◌, ◌∙◌, ap, inl, inr, Bool, true, ◌&&◌, none, some, arith, length, Bool-cases,
  ltb, ltb→lt,
}
use mod_security_iis.System.{Env, World, Chunk, rq_continue, ok, brs_idle, brs_done}
use mod_security_iis.System.Views.{request_phases}
use mod_security_iis.EntityBody.{get_entity_body_info}
use mod_security_iis.FinishBody.{finish_body_read, restore_and_feed}
use mod_security_iis.FinishBody.Laws.{
  restore_and_feed-some, restore_and_feed-cases, restore_trace-phases,
}
use mod_security_iis.Intervention.Apply.{apply_intervention_frame}
use mod_security_iis.Body.{
  end_body, cap_noted, log_cap, judge_chunk, consume_body_chunk, pump_loop, pump_fuel,
  pump_body_read, prepare_reads, start_reads, begin_body_read,
}
use mod_security_iis.Body.Chunks.{
  consume_body_chunk-none, appended, append_chunk-none, append_chunk-some,
}
use mod_security_iis.Body.Loops.{go_on, inline_read_idle, pump_loop-inline, pump_loop-pending}

finish_body_read-runs :
    (e : Env) (w : World)
    → (finish_body_read e w).0 ≡ ok rq_continue
    → request_phases (finish_body_read e w).1.trace ≡ suc (request_phases w.trace)
unfolding finish_body_read
finish_body_read-runs e w h = elim (restore_and_feed-cases e w) [
  | inl ended ↦ absurd (ground arith)
  | inr (failed, ran) ↦
      let w₁ = (restore_and_feed e w).1 in
      ground (
        arith,
        restore_and_feed-some e w failed ran,
        restore_trace-phases e w,
        apply_intervention_frame e true w₁,
      )
]

end_body-runs :
    (e : Env) (w : World)
    → (end_body e w).0 ≡ ok (some rq_continue)
    → request_phases (end_body e w).1.trace ≡ suc (request_phases w.trace)
unfolding end_body
end_body-runs e w h = ground (
  arith,
  finish_body_read-runs e (record w { rsc = record (w.rsc) { body_read_state = brs_done } }),
)

judge_chunk-runs :
    (e : Env) (c : Chunk) (w : World)
    → (judge_chunk e c w).0 ≡ ok (some rq_continue)
    → request_phases (judge_chunk e c w).1.trace ≡ suc (request_phases w.trace)
unfolding judge_chunk log_cap
judge_chunk-runs e c w h = ground (arith, end_body-runs e w, end_body-runs e (cap_noted w))

consume_body_chunk-runs :
    (e : Env) (c : Chunk) (w : World)
    → (consume_body_chunk e c w).0 ≡ ok (some rq_continue)
    → request_phases (consume_body_chunk e c w).1.trace ≡ suc (request_phases w.trace)
unfolding consume_body_chunk
consume_body_chunk-runs e c w h = elim (Bool-cases (ltb 0 (length c.bytes))) [
  | inl more ↦ ground (
    arith,
    append_chunk-some e c w (ltb→lt 0 (length c.bytes) more),
    judge_chunk-runs e c (appended c w),
  )
  | inr empty ↦ ground (arith, append_chunk-none e c w, judge_chunk-runs e c w)
]

go_on-runs :
    (async : Bool) (fuel : ℕ) (e : Env) (c : Chunk) (w : World)
    → let x = consume_body_chunk e c w in
      (x.0 ≡ ok none
        → (pump_loop async fuel e x.1).0 ≡ ok rq_continue
        → request_phases (pump_loop async fuel e x.1).1.trace ≡ suc (request_phases x.1.trace))
      → (go_on async fuel e x).0 ≡ ok rq_continue
      → request_phases (go_on async fuel e x).1.trace ≡ suc (request_phases w.trace)
go_on-runs async fuel e c w rest h =
    ground (arith, consume_body_chunk-runs e c w, consume_body_chunk-none e c w)

pump_loop-none :
    (async : Bool) (e : Env) (w : World) → ¬ ((pump_loop async zero e w).0 ≡ ok rq_continue)
unfolding pump_loop
pump_loop-none async e w h = ground arith

pump_loop-runs :
    (async : Bool) (fuel : ℕ) (e : Env) (w : World)
    → w.rsc.body_read_state ≡ brs_idle
    → (pump_loop async fuel e w).0 ≡ ok rq_continue
    → request_phases (pump_loop async fuel e w).1.trace ≡ suc (request_phases w.trace)
pump_loop-runs async zero e w idle h = absurd (pump_loop-none async e w h)
pump_loop-runs async (suc fuel) e w idle h = elim (Bool-cases (async && (e.read w.reads).pending)) [
  | inl pends ↦ absurd (ground (arith, pump_loop-pending async fuel e w pends))
  | inr inline ↦
      let same =
        pump_loop-inline async fuel e w inline
        ∙ ap (λ v. go_on async fuel e (consume_body_chunk e c v)) (inline_read_idle async w idle) in
      rw same (
        go_on-runs async fuel e c w₁
          (λ more.
            let (same, wants) = consume_body_chunk-none e c w₁ more in
            rw same (pump_loop-runs async fuel e (appended c w₁) idle))
          (rw same at h))
]
  where
    c : Chunk
    c = (e.read w.reads).chunk

    w₁ : World
    w₁ = record w { reads = suc w.reads }

pump_body_read-runs :
    (async : Bool) (e : Env) (w : World)
    → w.rsc.body_read_state ≡ brs_idle
    → (pump_body_read async e w).0 ≡ ok rq_continue
    → request_phases (pump_body_read async e w).1.trace ≡ suc (request_phases w.trace)
unfolding pump_body_read
pump_body_read-runs async e w idle h = ground (
  arith,
  pump_loop-runs async (pump_fuel e) e w idle,
  finish_body_read-runs e (record w { rsc = record (w.rsc) { body_read_state = brs_done } }),
)

prepare_reads_frame :
    (e : Env) (n : ℕ) (w : World)
    → let w' = (prepare_reads e n w).1 in
      (w'.rsc.body_read_state ≡ w.rsc.body_read_state)
      × (request_phases w'.trace ≡ request_phases w.trace)
unfolding prepare_reads
prepare_reads_frame e n w = ground arith

-- From a context with no read begun, BeginBodyRead lets the request go on only when the engine's
-- request-body phase ran, once.
pub begin_body_read-runs :
    (async : Bool) (e : Env) (w : World)
    → w.rsc.body_read_state ≡ brs_idle
    → (begin_body_read async e w).0 ≡ ok rq_continue
    → request_phases (begin_body_read async e w).1.trace ≡ suc (request_phases w.trace)
unfolding begin_body_read start_reads
begin_body_read-runs async e w idle h =
    let n = (get_entity_body_info e.raw_request).length in
    ground (
      arith,
      prepare_reads_frame e n w,
      pump_body_read-runs async e (prepare_reads e n w).1,
      finish_body_read-runs e w,
    )
