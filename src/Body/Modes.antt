-- ===== src/Body/Modes.antt =====
-- The asynchronous reads do what the synchronous ones do, however IIS splits them into inline and
-- pended reads.
use mod_security_iis.Prelude.{
  ℕ, zero, suc, ◌-◌, ◌≤◌, ◌≡◌, ◌≢◌, ◌∙◌, refl, inl, inr, true, false, Option, none, some, arith,
  Bool-cases,
}
use mod_security_iis.System.{
  Env, World, Chunk, Status, rq_continue, rq_pending, rq_finish_request, Result, ok, raised, stuck,
  brs_idle, brs_read_pending, Trace,
}
use mod_security_iis.Settings.{body_reads_async}
use mod_security_iis.EntityBody.{get_entity_body_info}
use mod_security_iis.FinishBody.{finish_body_read}
use mod_security_iis.FinishBody.Verdict.{finish_body_read_total}
use mod_security_iis.Body.{
  consume_body_chunk, pump_loop, pump_fuel, pump_body_read, prepare_reads, start_reads,
  begin_body_read, continue_body, on_async_completion,
}
use mod_security_iis.Body.Chunks.{consume_body_chunk-none, consume_body_chunk_total, appended}
use mod_security_iis.Body.Loops.{go_on, inline_read_idle, pump_loop-inline, pump_loop-pending}
use mod_security_iis.Body.Phase.{idled}

-- IIS completes each pended read with the chunk that it was to deliver, and the module is entered
-- again for it, until a status other than pending comes back.
pub settle : ℕ → Env → Result Status × World → Result Status × World
settle zero e x = x
settle (suc n) e (ok rq_pending, w) =
    settle n e (on_async_completion e (some (e.read (w.reads - 1)).chunk) w)
settle (suc n) e x = x

settle_ok :
    (n : ℕ) (e : Env) (s : Status) (w : World) → s ≢ rq_pending → settle n e (ok s, w) ≡ (ok s, w)
unfolding settle
settle_ok zero e s w h = refl
settle_ok (suc n) e rq_pending w h = absurd (h refl)
settle_ok (suc n) e rq_continue w h = refl
settle_ok (suc n) e rq_finish_request w h = refl

-- A pended read and its completion are together the inline read.
claim :
    (e : Env) (c : Chunk) (w : World)
    → w.stored ≡ true
    → w.rsc.tx ≡ true
    → w.rsc.body_read_state ≡ brs_read_pending
    → body_reads_async e ≡ true
    → (s : Status) → (continue_body true e c (idled w)).0 ≡ ok s
    → on_async_completion e (some c) w ≡ continue_body true e c (idled w)
unfolding on_async_completion
claim e c w stored tx pending mode s h = ground arith

-- What settles with a status had not thrown.
settle-eq-ok :
    (n : ℕ) (e : Env) (x : Result Status × World) (s : Status) (w' : World)
    → settle n e x ≡ (ok s, w')
    → (r : Status) × (x.0 ≡ ok r)
unfolding settle
settle-eq-ok zero e (ok r, w) s w' h = (r, refl)
settle-eq-ok zero e (raised, w) s w' h = absurd (ground arith)
settle-eq-ok zero e (stuck, w) s w' h = absurd (ground arith)
settle-eq-ok (suc n) e (ok r, w) s w' h = (r, refl)
settle-eq-ok (suc n) e (raised, w) s w' h = absurd (ground arith)
settle-eq-ok (suc n) e (stuck, w) s w' h = absurd (ground arith)

-- After one consumed chunk, with the agreement of the rest given.
go_on_agree :
    (n f g : ℕ) (e : Env) (x : Result (Option Status) × World) (s : Status) (w' : World)
    → x.0 ≢ ok (some rq_pending)
    → (x.0 ≡ ok none
        → pump_loop false f e x.1 ≡ (ok s, w')
        → settle n e (pump_loop true g e x.1) ≡ (ok s, w'))
    → go_on false f e x ≡ (ok s, w')
    → settle n e (go_on true g e x) ≡ (ok s, w')
go_on_agree n f g e (ok (some t), v) s w' settled rest h =
    settle_ok n e t v (λ p. settled (cc p)) ∙ h
go_on_agree n f g e (ok none, v) s w' settled rest h = rest refl h
go_on_agree n f g e (raised, v) s w' settled rest h = absurd (ground arith)
go_on_agree n f g e (stuck, v) s w' settled rest h = absurd (ground arith)

continue_body-go_on :
    (e : Env) (c : Chunk) (w : World)
    → ((t : Trace) → e.has_request t ≡ true)
    → continue_body true e c w ≡ go_on true (pump_fuel e) e (consume_body_chunk e c w)
unfolding continue_body pump_body_read
continue_body-go_on e c w has = ground (arith, has (consume_body_chunk e c w).1.trace)

-- The world in which a read is left pending.
abbrev pended : World → World
pended w = record w {
  rsc = record (w.rsc) { body_read_state = brs_read_pending };
  reads = suc w.reads;
}

settle_pending :
    (n : ℕ) (e : Env) (w : World) (k : ℕ)
    → w.reads ≡ suc k
    → settle (suc n) e (ok rq_pending, w)
      ≡ settle n e (on_async_completion e (some (e.read k).chunk) w)
unfolding settle
settle_pending n e w k h = let back : w.reads - 1 ≡ k = omega arith in rw back

no_fuel :
    (e : Env) (w : World) (s : Status) (w' : World) → ¬ (pump_loop false zero e w ≡ (ok s, w'))
unfolding pump_loop
no_fuel e w s w' h = ground arith

module _ (e : Env) (mode : body_reads_async e ≡ true)
    (has : (t : Trace) → e.has_request t ≡ true) where
  -- The completion of a pended read, where the inline read would settle.
  completed :
      (n : ℕ) (w : World) (s : Status) (w' : World)
      → w.rsc.body_read_state ≡ brs_read_pending
      → w.stored ≡ true
      → w.rsc.tx ≡ true
      → (c : Chunk)
      → settle n e (go_on true (pump_fuel e) e (consume_body_chunk e c (idled w))) ≡ (ok s, w')
      → settle n e (on_async_completion e (some c) w) ≡ (ok s, w')
  completed n w s w' pending stored tx c h =
      let same = continue_body-go_on e c (idled w) has in
      let (r, ran) = settle-eq-ok n e _ s w' h in
      rw (claim e c w stored tx pending mode r (rw same ran), same) h

  -- From a world between two reads, the asynchronous loop with its completions ends as the
  -- synchronous loop does.
  agree :
      (f g n : ℕ) (w : World) (s : Status) (w' : World)
      → w.rsc.body_read_state ≡ brs_idle
      → w.stored ≡ true
      → w.rsc.tx ≡ true
      → f ≤ g
      → g ≤ pump_fuel e
      → f ≤ n
      → pump_loop false f e w ≡ (ok s, w')
      → settle n e (pump_loop true g e w) ≡ (ok s, w')
  agree zero g n w s w' idle stored tx fg gp fn h = absurd (no_fuel e w s w' h)
  agree (suc f) zero n w s w' idle stored tx fg gp fn h = absurd (omega arith)
  agree (suc f) (suc g) zero w s w' idle stored tx fg gp fn h = absurd (omega arith)
  agree (suc f) (suc g) (suc n) w s w' idle stored tx fg gp fn h =
      elim (Bool-cases (e.read w.reads).pending) [
        | inl pends ↦
            rw (pump_loop-pending true g e w pends, settle_pending n e (pended w) w.reads refl)
              (completed n (pended w) s w' refl stored tx c (
                rw (inline_read_idle true w idle) (
                  go_on_agree n f (pump_fuel e) e (consume_body_chunk e c w₁) s w' never_pends
                    (λ more rest.
                      let (same, wants) = consume_body_chunk-none e c w₁ more in
                      rw same (
                        agree f (pump_fuel e) n (appended c w₁) s w' idle stored tx (omega arith)
                          (omega arith) (omega arith) (rw same at rest)))
                    synchronous)))
        | inr inline ↦
            rw (pump_loop-inline true g e w inline, inline_read_idle true w idle)
              (go_on_agree (suc n) f g e (consume_body_chunk e c w₁) s w' never_pends
                (λ more rest.
                  let (same, wants) = consume_body_chunk-none e c w₁ more in
                  rw same (
                    agree f g (suc n) (appended c w₁) s w' idle stored tx (omega arith)
                      (omega arith) (omega arith) (rw same at rest)))
                synchronous)
      ]
    where
      c : Chunk
      c = (e.read w.reads).chunk

      w₁ : World
      w₁ = record w { reads = suc w.reads }

      never_pends : (consume_body_chunk e c w₁).0 ≢ ok (some rq_pending)
      never_pends = (consume_body_chunk_total e c w₁).1

      synchronous : go_on false f e (consume_body_chunk e c w₁) ≡ (ok s, w')
      synchronous = rw (← pump_loop-inline false f e w refl) h

finish_settles :
    (n : ℕ) (e : Env) (w : World) (s : Status) (w' : World)
    → finish_body_read e w ≡ (ok s, w')
    → settle n e (finish_body_read e w) ≡ (ok s, w')
finish_settles n e w s w' h =
    rw h (settle_ok n e s w' (λ p. ground (arith, finish_body_read_total e w)))

prepare_reads_keeps :
    (e : Env) (n : ℕ) (w : World)
    → let w' = (prepare_reads e n w).1 in
      (w'.rsc.body_read_state ≡ w.rsc.body_read_state)
      × (w'.stored ≡ w.stored)
      × (w'.rsc.tx ≡ w.rsc.tx)
unfolding prepare_reads
prepare_reads_keeps e n w = ground arith

module _ (e : Env) (mode : body_reads_async e ≡ true) (has : (t : Trace) → e.has_request t ≡ true)
    (w : World) (idle : w.rsc.body_read_state ≡ brs_idle) (stored : w.stored ≡ true)
    (tx : w.rsc.tx ≡ true) where
  start_reads_modes :
      (n : ℕ) (s : Status) (w' : World)
      → start_reads false e n w ≡ (ok s, w')
      → settle (pump_fuel e) e (start_reads true e n w) ≡ (ok s, w')
  unfolding start_reads pump_body_read
  start_reads_modes n s w' h =
      let keeps = prepare_reads_keeps e n w in
      let w₁ = (prepare_reads e n w).1 in
      ground
        (arith, has w₁.trace, agree e mode has (pump_fuel e) (pump_fuel e) (pump_fuel e) w₁ s w')

  -- In asynchronous mode, for a stored context with an open transaction and no read begun, and
  -- while IIS has the request: when the synchronous reads would end the body with a status and
  -- a world, the asynchronous reads, each pended one followed by its completion, end it with
  -- the same status and the same world, whichever of them IIS left pending. So the same body
  -- went back to IIS and to the engine, by the same calls in the same order.
  pub begin_body_read_modes :
      (s : Status) (w' : World)
      → begin_body_read false e w ≡ (ok s, w')
      → settle (pump_fuel e) e (begin_body_read true e w) ≡ (ok s, w')
  unfolding begin_body_read
  begin_body_read_modes s w' h = ground (
    arith,
    start_reads_modes (get_entity_body_info e.raw_request).length s w',
    finish_settles (pump_fuel e) e w s w',
  )
