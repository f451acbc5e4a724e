-- ===== src/Life/Refines.antt =====
-- The handlers implement the abstract machine.
use mod_security_iis.Prelude.{
  ap, suc, ◌+◌, ◌≤◌, ◌≡◌, refl, inl, inr, false, Option, List, [], ◌∷◌, arith,
}
use mod_security_iis.System.{Env, World, brs_idle}
use mod_security_iis.System.Views.{
  request_phases, response_phases, header_phases, loggings, openings,
}
use mod_security_iis.Intervention.{finish_request}
use mod_security_iis.BeginRequest.{Arrival, on_begin_request}
use mod_security_iis.BeginRequest.Total.{on_begin_request-Ends}
use mod_security_iis.Life.{
  Event, completed, sends, post_end, cleanup, cleanup_stored_context, on_post_end_request, step,
  run,
}
use mod_security_iis.Life.Spec.{
  View, bit, Accounts, Rests, Move, answer, judge, close, rest, Reach, here, next, Reach-Safe,
}
use mod_security_iis.Life.Books.{view}
use mod_security_iis.Life.Reads.{on_async_completion-moves}
use mod_security_iis.Life.Responses.{on_send_response-moves}
use mod_security_iis.Life.Begins.{on_begin_request-Begins}

cleanup-close :
    (e : Env) (w : World)
    → let w' = (cleanup_stored_context e w).1 in
      (w'.rsc.tx ≡ false) × Accounts (view w) (view w') × Rests (view w) (view w')
unfolding cleanup_stored_context finish_request
cleanup-close e w = (ground arith, ground arith, ground arith)

-- Every notification of a request is a move of the abstract machine.
pub step-Move : (e : Env) (ev : Event) (w : World) → Move (view w) (view (step e ev w))
unfolding step on_post_end_request
step-Move e (completed c) w = elim (on_async_completion-moves e c w) [
  | inl same ↦ rest (ap view same)
  | inr (is_open, reading, accounts, reads) ↦ answer is_open reading accounts reads
]
step-Move e (sends r) w = elim (on_send_response-moves e r w) [
  | inl same ↦ rest (ap view same)
  | inr (is_open, accounts, judges) ↦ judge is_open accounts judges
]
step-Move e post_end w = rest refl
step-Move e cleanup w = let (shut, accounts, rests) = cleanup-close e w in close shut accounts rests

run-Reach_from :
    (e : Env) (evs : List Event) (v : View) (w : World)
    → Reach v (view w)
    → Reach v (view (run e evs w))
unfolding run
run-Reach_from e [] v w r = r
run-Reach_from e (ev ∷ evs) v w r = run-Reach_from e evs v (step e ev w) (next r (step-Move e ev w))

-- The handlers refine the abstract machine: whatever notifications reach the module, in whatever
-- order, the view of the request after them is one that the machine reaches from the view before.
pub run-Reach : (e : Env) (evs : List Event) (w : World) → Reach (view w) (view (run e evs w))
run-Reach e evs w = run-Reach_from e evs (view w) w here

-- A request that comes without a transaction or a read has at most one transaction created for it,
-- which is finalized at most once; phase 2 and phase 4 run for it at most once each. This
-- holds after every sequence of completions, own or foreign, of responses and of cleanups.
pub run_once :
    (e : Env) (a : Option Arrival) (evs : List Event) (w : World)
    → w.rsc.tx ≡ false
    → w.rsc.body_read_state ≡ brs_idle
    → let w' = run e evs (on_begin_request e a w).1 in
      (openings w'.trace ≤ suc (openings w.trace))
      × (loggings w'.trace + bit w'.rsc.tx ≤ suc (loggings w.trace))
      × (request_phases w'.trace ≤ suc (request_phases w.trace))
      × (response_phases w'.trace ≤ suc (response_phases w.trace))
run_once e a evs w closed idle =
    let w₁ = (on_begin_request e a w).1 in
    ground (
      arith,
      on_begin_request-Begins e a w closed,
      on_begin_request-Ends e a w idle,
      Reach-Safe (run-Reach e evs w₁),
    )

-- When IIS releases the context in the end, no transaction is open any more, and processLogging
-- was called for the one that was open exactly once, however the notifications before came and
-- whatever the engine threw.
pub run-cleanup :
    (e : Env) (evs : List Event) (w : World)
    → let w' = step e cleanup (run e evs w) in
      (w'.rsc.tx ≡ false) × (loggings w'.trace ≡ loggings w.trace + bit w.rsc.tx)
unfolding step
run-cleanup e evs w = ground (arith, cleanup-close e (run e evs w), Reach-Safe (run-Reach e evs w))

-- Once the transaction of a request is closed, by a block or by the release of its context, no
-- notification runs phase 2, 3 or 4 for it, creates a transaction or finalizes one.
pub run_closed :
    (e : Env) (evs : List Event) (w : World)
    → w.rsc.tx ≡ false
    → let w' = run e evs w in
      (w'.rsc.tx ≡ false)
      × (openings w'.trace ≡ openings w.trace)
      × (loggings w'.trace ≡ loggings w.trace)
      × (request_phases w'.trace ≡ request_phases w.trace)
      × (header_phases w'.trace ≡ header_phases w.trace)
      × (response_phases w'.trace ≡ response_phases w.trace)
run_closed e evs w closed = ground (arith, Reach-Safe (run-Reach e evs w))
