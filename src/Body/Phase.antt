-- ===== src/Body/Phase.antt =====
-- The body phase of a request, from `BeginBodyRead` through any completions that IIS multicasts.
use mod_security_iis.Prelude.{ℕ, ◌≡◌, ◌≢◌, Bool, arith}
use mod_security_iis.System.{Env, World, Chunk, raised, stuck, brs_idle, brs_done, brs_read_pending}
use mod_security_iis.System.Views.{request_phases}
use mod_security_iis.Settings.{body_reads_async}
use mod_security_iis.EntityBody.{get_entity_body_info}
use mod_security_iis.FinishBody.{finish_body_read}
use mod_security_iis.FinishBody.Verdict.{finish_body_read_total}
use mod_security_iis.Body.{
  consume_body_chunk, pump_fuel, pump_body_read, prepare_reads, start_reads, begin_body_read,
  begin_body_phase, continue_body,
}
use mod_security_iis.Body.Chunks.{consume_body_chunk-none, consume_body_chunk_total}
use mod_security_iis.Body.Loops.{Ends, pump_loop-Ends}

finish_body_read-Ends :
    (e : Env) (w : World)
    → w.rsc.body_read_state ≢ brs_read_pending
    → Ends (finish_body_read e w).0 w (finish_body_read e w).1
finish_body_read-Ends e w free = ground (arith, finish_body_read_total e w)

done : World → World
done w = record w { rsc = record (w.rsc) { body_read_state = brs_done } }

pub pump_body_read-Ends :
    (async : Bool) (e : Env) (w : World)
    → w.rsc.body_read_state ≡ brs_idle
    → Ends (pump_body_read async e w).0 w (pump_body_read async e w).1
unfolding pump_body_read done
pump_body_read-Ends async e w idle = ground (
  arith,
  pump_loop-Ends async (pump_fuel e) e w (omega arith) (omega arith) idle,
  finish_body_read-Ends e (done w),
)

pub continue_body-Ends :
    (async : Bool) (e : Env) (c : Chunk) (w : World)
    → w.rsc.body_read_state ≡ brs_idle
    → Ends (continue_body async e c w).0 w (continue_body async e c w).1
unfolding continue_body
continue_body-Ends async e c w idle = ground (
  arith,
  consume_body_chunk-none e c w,
  consume_body_chunk_total e c w,
  pump_body_read-Ends async e (consume_body_chunk e c w).1,
)

prepare_reads_frame :
    (e : Env) (n : ℕ) (w : World)
    → let (r, w') = prepare_reads e n w in
      (r ≢ stuck)
      × (w'.rsc.body_read_state ≡ w.rsc.body_read_state)
      × (request_phases w'.trace ≡ request_phases w.trace)
unfolding prepare_reads
prepare_reads_frame e n w = ground arith

start_reads-Ends :
    (async : Bool) (e : Env) (n : ℕ) (w : World)
    → w.rsc.body_read_state ≡ brs_idle
    → Ends (start_reads async e n w).0 w (start_reads async e n w).1
unfolding start_reads
start_reads-Ends async e n w idle =
    ground (arith, prepare_reads_frame e n w, pump_body_read-Ends async e (prepare_reads e n w).1)

pub begin_body_read-Ends :
    (async : Bool) (e : Env) (w : World)
    → w.rsc.body_read_state ≡ brs_idle
    → Ends (begin_body_read async e w).0 w (begin_body_read async e w).1
unfolding begin_body_read
begin_body_read-Ends async e w idle = ground (
  arith,
  start_reads-Ends async e (get_entity_body_info e.raw_request).length w idle,
  finish_body_read-Ends e w,
)

-- The world in which a claimed completion is consumed.
abbrev pub idled : World → World
idled w = record w { rsc = record (w.rsc) { body_read_state = brs_idle } }

-- With no read begun, the body phase returns in every environment a status to IIS: its reads come to an end, and no
-- exception leaves it. Phase 2 ran at most once, and a read is pending just when the status says so.
pub begin_body_phase_total :
    (e : Env) (w : World)
    → w.rsc.body_read_state ≡ brs_idle
    → let (r, w') = begin_body_phase e w in Ends r w w' × (r ≢ raised)
unfolding begin_body_phase
begin_body_phase_total e w idle = ground (arith, begin_body_read-Ends (body_reads_async e) e w idle)
