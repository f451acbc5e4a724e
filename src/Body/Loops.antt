-- ===== src/Body/Loops.antt =====
-- The read loop ends in every environment, and runs the body phase at most once.
use mod_security_iis.Prelude.{
  ℕ, zero, suc, ◌+◌, ◌≤◌, ◌<◌, ◌≡◌, ◌≢◌, refl, inl, inr, Bool, true, false, ◌&&◌, Option, none,
  some, arith, length, length-append, Bool-cases,
}
use mod_security_iis.System.{
  Env, World, Chunk, Status, rq_pending, ok, raised, stuck, brs_idle, brs_read_pending, Result,
}
use mod_security_iis.System.Views.{request_phases}
use mod_security_iis.Settings.{max_inspect_body_bytes}
use mod_security_iis.Body.{consume_body_chunk, read_entity_body, pump_loop}
use mod_security_iis.Body.Chunks.{
  consume_body_chunk-none, consume_body_chunk_total, appended, WantsMore,
}

-- The world in which the chunk of an inline read is consumed.
abbrev pub inline_read : Bool → World → World
inline_read true w = record w {
  rsc = record (w.rsc) { body_read_state = brs_idle };
  reads = suc w.reads;
}
inline_read false w = record w { reads = suc w.reads }

-- How a run of reads may leave a world: not stuck, phase 2 at most once more, and a read pending
-- just when it returns so, with phase 2 not run yet.
abbrev pub Ends : Result Status → World → World → Type 0
Ends r w w' =
    (r ≢ stuck)
    × (request_phases w'.trace ≤ suc (request_phases w.trace))
    × (w'.rsc.body_read_state ≡ brs_read_pending
        → (r ≡ ok rq_pending) × (request_phases w'.trace ≡ request_phases w.trace))
    × (r ≡ ok rq_pending → w'.rsc.body_read_state ≡ brs_read_pending)

-- What follows a consumed chunk.
abbrev pub go_on : Bool → ℕ → Env → Result (Option Status) × World → Result Status × World
go_on async fuel e (ok (some s), w) = (ok s, w)
go_on async fuel e (ok none, w) = pump_loop async fuel e w
go_on async fuel e (raised, w) = (raised, w)
go_on async fuel e (stuck, w) = (stuck, w)

pub pump_loop-inline :
    (async : Bool) (fuel : ℕ) (e : Env) (w : World)
    → (async && (e.read w.reads).pending) ≡ false
    → pump_loop async (suc fuel) e w
      ≡ go_on async fuel e (consume_body_chunk e (e.read w.reads).chunk (inline_read async w))
unfolding pump_loop read_entity_body
pump_loop-inline true fuel e w h = ground arith
pump_loop-inline false fuel e w h = ground arith

pub pump_loop-pending :
    (async : Bool) (fuel : ℕ) (e : Env) (w : World)
    → (async && (e.read w.reads).pending) ≡ true
    → pump_loop async (suc fuel) e w ≡ (
      ok rq_pending,
      record w { rsc = record (w.rsc) { body_read_state = brs_read_pending }; reads = suc w.reads },
    )
unfolding pump_loop read_entity_body
pump_loop-pending true fuel e w h = ground arith
pump_loop-pending false fuel e w h = cc

pub inline_read_idle :
    (async : Bool) (w : World)
    → w.rsc.body_read_state ≡ brs_idle
    → inline_read async w ≡ record w { reads = suc w.reads }
inline_read_idle true w h = rw (← h)
inline_read_idle false w h = refl

-- One round, with the rest of the loop given.
pub go_on-Ends :
    (async : Bool) (fuel : ℕ) (e : Env) (c : Chunk) (w : World)
    → w.rsc.body_read_state ≡ brs_idle
    → let x = consume_body_chunk e c w in
      ((x.0 ≡ ok none) → Ends (pump_loop async fuel e x.1).0 x.1 (pump_loop async fuel e x.1).1)
      → Ends (go_on async fuel e x).0 w (go_on async fuel e x).1
go_on-Ends async fuel e c w idle rest =
    ground (arith, consume_body_chunk-none e c w, consume_body_chunk_total e c w)

-- With fuel beyond the room that is left below the cap the loop ends.
pub pump_loop-Ends :
    (async : Bool) (fuel : ℕ) (e : Env) (w : World)
    → 0 < fuel
    → max_inspect_body_bytes e < fuel + length w.rsc.body
    → w.rsc.body_read_state ≡ brs_idle
    → Ends (pump_loop async fuel e w).0 w (pump_loop async fuel e w).1
pump_loop-Ends async zero e w p m idle = absurd (omega arith)
pump_loop-Ends async (suc fuel) e w p m idle =
    elim (Bool-cases (async && (e.read w.reads).pending)) [
      | inl pends ↦ rw (pump_loop-pending async fuel e w pends) (ground arith)
      | inr inline ↦
          rw (pump_loop-inline async fuel e w inline, inline_read_idle async w idle)
            (go_on-Ends async fuel e c w₁ idle (λ more.
              let (same, wants) = consume_body_chunk-none e c w₁ more in
              rw same
                (pump_loop-Ends async fuel e (appended c w₁) (room wants) (closer wants) idle)))
    ]
  where
    c : Chunk
    c = (e.read w.reads).chunk

    w₁ : World
    w₁ = record w { reads = suc w.reads }

    room : WantsMore e c w₁ → 0 < fuel
    room wants = omega (arith, wants.not_empty, wants.below_cap)

    closer : WantsMore e c w₁ → max_inspect_body_bytes e < fuel + length (appended c w₁).rsc.body
    closer wants = omega (arith, wants.not_empty, wants.below_cap, length-append w.rsc.body c.bytes)
