-- ===== src/Body/Completions.antt =====
-- Any completions that follow `BeginBodyRead`: IIS multicasts foreign ones to the module too.
use mod_security_iis.Prelude.{
  ℕ, suc, ◌≤◌, ◌≡◌, ◌≢◌, refl, true, Option, none, some, List, [], ◌∷◌, arith,
}
use mod_security_iis.System.{
  Env, World, Chunk, rq_continue, rq_pending, ok, brs_idle, brs_read_pending,
}
use mod_security_iis.System.Views.{request_phases}
use mod_security_iis.Settings.{body_reads_async}
use mod_security_iis.Body.{on_async_completion, begin_body_phase}
use mod_security_iis.Body.Phase.{idled, continue_body-Ends, begin_body_phase_total}

-- The completions one after the other, each handled to its end.
abbrev pub deliver : Env → List (Option Chunk) → World → World
deliver e [] w = w
deliver e (c ∷ cs) w = deliver e cs (on_async_completion e c w).1

-- With n phases before the request's own: its phase has run at most once, and not yet while a read
-- is pending.
abbrev Once : ℕ → World → Type 0
Once n w =
    (request_phases w.trace ≤ suc n)
    × (w.rsc.body_read_state ≡ brs_read_pending → request_phases w.trace ≡ n)

on_async_completion-Once :
    (n : ℕ) (e : Env) (c : Option Chunk) (w : World)
    → Once n w
    → Once n (on_async_completion e c w).1
unfolding on_async_completion
on_async_completion-Once n e none w h = h
on_async_completion-Once n e (some c) w h =
    ground (arith, h.1, continue_body-Ends (body_reads_async e) e c (idled w) refl)

deliver-Once :
    (n : ℕ) (e : Env) (cs : List (Option Chunk)) (w : World) → Once n w → Once n (deliver e cs w)
deliver-Once n e [] w h = h
deliver-Once n e (c ∷ cs) w h =
    deliver-Once n e cs (on_async_completion e c w).1 (on_async_completion-Once n e c w h)

-- However many completions, own or foreign, are delivered after a body phase that began with no
-- read, the engine's request-body
-- phase runs at most once.
pub deliver_once :
    (e : Env) (cs : List (Option Chunk)) (w : World)
    → w.rsc.body_read_state ≡ brs_idle
    → request_phases (deliver e cs (begin_body_phase e w).1).trace ≤ suc (request_phases w.trace)
deliver_once e cs w idle =
    let start = begin_body_phase_total e w idle in
    (deliver-Once (request_phases w.trace) e cs (begin_body_phase e w).1
      (ground (arith, start), ground (arith, start))).0

ignored :
    (e : Env) (c : Option Chunk) (w : World)
    → w.rsc.body_read_state ≢ brs_read_pending
    → on_async_completion e c w ≡ (ok rq_continue, w)
unfolding on_async_completion
ignored e none w free = refl
ignored e (some c) w free = ground arith

deliver_ignored :
    (e : Env) (cs : List (Option Chunk)) (w : World)
    → w.rsc.body_read_state ≢ brs_read_pending
    → deliver e cs w ≡ w
deliver_ignored e [] w free = refl
deliver_ignored e (c ∷ cs) w free = rw (ignored e c w free) (deliver_ignored e cs w free)

-- Once a body phase that began with no read has returned anything but pending, late and foreign completions change
-- nothing at all.
deliver_late :
    (e : Env) (cs : List (Option Chunk)) (w : World)
    → w.rsc.body_read_state ≡ brs_idle
    → (begin_body_phase e w).0 ≢ ok rq_pending
    → deliver e cs (begin_body_phase e w).1 ≡ (begin_body_phase e w).1
deliver_late e cs w idle settled =
    deliver_ignored e cs (begin_body_phase e w).1
      (λ p. ground (arith, begin_body_phase_total e w idle))

not_pending_after :
    (e : Env) (c : Chunk) (w : World)
    → (on_async_completion e (some c) w).0 ≢ ok rq_pending
    → w.stored ≡ true
    → w.rsc.tx ≡ true
    → (on_async_completion e (some c) w).1.rsc.body_read_state ≢ brs_read_pending
unfolding on_async_completion
not_pending_after e c w settled stored tx p =
    ground (arith, continue_body-Ends (body_reads_async e) e c (idled w) refl)

-- For a stored context with an open transaction, of one pending read a single completion is
-- claimed: when the claimed one settles the body, a
-- duplicate of it or any other that follows is ignored.
deliver_claimed :
    (e : Env) (c : Chunk) (cs : List (Option Chunk)) (w : World)
    → (on_async_completion e (some c) w).0 ≢ ok rq_pending
    → w.stored ≡ true
    → w.rsc.tx ≡ true
    → deliver e (some c ∷ cs) w ≡ (on_async_completion e (some c) w).1
deliver_claimed e c cs w settled stored tx =
    deliver_ignored e cs (on_async_completion e (some c) w).1
      (not_pending_after e c w settled stored tx)
