-- ===== src/Body/Bounds.antt =====
-- The memory that a request's body takes.
use mod_security_iis.Prelude.{
  ℕ, zero, suc, ◌+◌, ◌≤◌, ◌<◌, ◌≡◌, refl, inl, inr, Bool, ◌&&◌, Option, none, some, arith, length,
  length-append, Bool-cases, List, [], ◌∷◌,
}
use mod_security_iis.System.{Env, World, Chunk, ok, brs_idle, brs_done, brs_read_pending}
use mod_security_iis.Settings.{max_inspect_body_bytes, body_reads_async}
use mod_security_iis.Settings.Laws.{max_inspect_body_bytes_bounds}
use mod_security_iis.EntityBody.{get_entity_body_info}
use mod_security_iis.FinishBody.{finish_body_read}
use mod_security_iis.FinishBody.Verdict.{finish_body_read_total}
use mod_security_iis.Body.{
  body_read_chunk_size, consume_body_chunk, pump_loop, pump_fuel, pump_body_read, prepare_reads,
  start_reads, begin_body_read, begin_body_phase, continue_body, on_async_completion,
}
use mod_security_iis.Body.Chunks.{
  consume_body_chunk-none, consume_body_chunk_total, appended, WantsMore,
}
use mod_security_iis.Body.Loops.{go_on, inline_read_idle, pump_loop-inline, pump_loop-pending}
use mod_security_iis.Body.Completions.{deliver}
use mod_security_iis.Body.Phase.{idled}

-- ReadEntityBody writes no more than the size of the buffer it is given.
abbrev pub Fits : Chunk → Type 0
Fits c = length c.bytes ≤ body_read_chunk_size

-- The body is below the cap while more is to be read, and else at most one chunk above it.
abbrev pub Bounded : Env → World → Type 0
Bounded e w =
    (length w.rsc.body < max_inspect_body_bytes e + body_read_chunk_size)
    × (w.rsc.body_read_state ≡ brs_read_pending → length w.rsc.body < max_inspect_body_bytes e)

-- All the completions that are delivered fit too.
abbrev pub AllFit : List (Option Chunk) → Type 0
AllFit [] = Unit
AllFit (none ∷ cs) = AllFit cs
AllFit (some c ∷ cs) = Fits c × AllFit cs

prepare_reads_body :
    (e : Env) (n : ℕ) (w : World)
    → let w' = (prepare_reads e n w).1 in
      (w'.rsc.body_read_state ≡ w.rsc.body_read_state) × (w'.rsc.body ≡ w.rsc.body)
unfolding prepare_reads
prepare_reads_body e n w = ground arith

go_on-Bounded :
    (async : Bool) (fuel : ℕ) (e : Env) (c : Chunk) (w : World)
    → Fits c
    → length w.rsc.body < max_inspect_body_bytes e
    → w.rsc.body_read_state ≡ brs_idle
    → let x = consume_body_chunk e c w in
      (x.0 ≡ ok none → Bounded e (pump_loop async fuel e x.1).1)
      → Bounded e (go_on async fuel e x).1
go_on-Bounded async fuel e c w fit room idle rest = ground (arith, consume_body_chunk_total e c w)

pump_loop-zero : (async : Bool) (e : Env) (w : World) → (pump_loop async zero e w).1 ≡ w
unfolding pump_loop
pump_loop-zero async e w = refl

finish_body_read-Bounded :
    (e : Env) (w : World)
    → length w.rsc.body < max_inspect_body_bytes e
    → Bounded e (finish_body_read e w).1
finish_body_read-Bounded e w room = ground (arith, finish_body_read_total e w)

module _ (e : Env) (fits : (n : ℕ) → Fits (e.read n).chunk) where
  pump_loop-Bounded :
      (async : Bool) (fuel : ℕ) (w : World)
      → length w.rsc.body < max_inspect_body_bytes e
      → w.rsc.body_read_state ≡ brs_idle
      → Bounded e (pump_loop async fuel e w).1
  pump_loop-Bounded async zero w room idle = rw (pump_loop-zero async e w) (ground arith)
  pump_loop-Bounded async (suc fuel) w room idle =
      elim (Bool-cases (async && (e.read w.reads).pending)) [
        | inl pends ↦ rw (pump_loop-pending async fuel e w pends) (omega arith, λ p. room)
        | inr inline ↦
            rw (pump_loop-inline async fuel e w inline, inline_read_idle async w idle)
              (go_on-Bounded async fuel e c w₁ (fits w.reads) room idle (λ more.
                let (same, wants) = consume_body_chunk-none e c w₁ more in
                rw same (pump_loop-Bounded async fuel (appended c w₁) (below wants) idle)))
      ]
    where
      c : Chunk
      c = (e.read w.reads).chunk

      w₁ : World
      w₁ = record w { reads = suc w.reads }

      below : WantsMore e c w₁ → length (appended c w₁).rsc.body < max_inspect_body_bytes e
      below wants = omega (arith, wants.below_cap, length-append w.rsc.body c.bytes)

  pump_body_read-Bounded :
      (async : Bool) (w : World)
      → length w.rsc.body < max_inspect_body_bytes e
      → w.rsc.body_read_state ≡ brs_idle
      → Bounded e (pump_body_read async e w).1
  unfolding pump_body_read
  pump_body_read-Bounded async w room idle = ground (
    arith,
    pump_loop-Bounded async (pump_fuel e) w room idle,
    finish_body_read-Bounded e (record w { rsc = record (w.rsc) { body_read_state = brs_done } })
        room,
  )

  pub begin_body_phase-Bounded :
      (w : World)
      → length w.rsc.body < max_inspect_body_bytes e
      → w.rsc.body_read_state ≡ brs_idle
      → Bounded e (begin_body_phase e w).1
  unfolding begin_body_phase begin_body_read start_reads
  begin_body_phase-Bounded w room idle =
      let n = (get_entity_body_info e.raw_request).length in
      ground (
        arith,
        prepare_reads_body e n w,
        pump_body_read-Bounded (body_reads_async e) (prepare_reads e n w).1,
        finish_body_read-Bounded e w room,
      )

  pub on_async_completion-Bounded :
      (c : Chunk) (w : World)
      → Fits c
      → Bounded e w
      → Bounded e (on_async_completion e (some c) w).1
  unfolding on_async_completion continue_body
  on_async_completion-Bounded c w fit bounded =
      let x = consume_body_chunk e c (idled w) in
      ground (
        arith,
        bounded.1,
        consume_body_chunk_total e c (idled w),
        consume_body_chunk-none e c (idled w),
        length-append w.rsc.body c.bytes,
        pump_body_read-Bounded (body_reads_async e) (appended c (idled w)),
      )

  deliver-Bounded :
      (cs : List (Option Chunk)) (w : World) → AllFit cs → Bounded e w → Bounded e (deliver e cs w)
  unfolding on_async_completion
  deliver-Bounded [] w fit h = h
  deliver-Bounded (none ∷ cs) w fit h = deliver-Bounded cs w fit h
  deliver-Bounded (some c ∷ cs) w fit h =
      deliver-Bounded cs (on_async_completion e (some c) w).1 fit.1
        (on_async_completion-Bounded c w fit.0 h)

-- If no read delivers more than its 64 KiB buffer, a request that started with an empty body never
-- holds 64 KiB more than the inspection cap, whatever completions are delivered.
pub body_bound :
    (e : Env)
    → ((n : ℕ) → Fits (e.read n).chunk)
    → (cs : List (Option Chunk)) → AllFit cs
    → (w : World) → w.rsc.body ≡ []
    → w.rsc.body_read_state ≡ brs_idle
    → length (deliver e cs (begin_body_phase e w).1).rsc.body
      < max_inspect_body_bytes e + body_read_chunk_size
body_bound e fits cs fit w fresh idle =
    (deliver-Bounded e fits cs (begin_body_phase e w).1 fit
      (begin_body_phase-Bounded e fits w (rw fresh (max_inspect_body_bytes_bounds e).0) idle)).0
