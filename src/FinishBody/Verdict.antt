-- ===== src/FinishBody/Verdict.antt =====
-- The status that `FinishBodyRead` returns: no request goes on uninspected, or with a body that
-- was not handed back.
use mod_security_iis.Prelude.{
  suc, ◌≤◌, ◌≡◌, ◌≢◌, ◌<◌, ◌^◌, take_all, length, ◌⊎◌, inl, inr, true, false, none, ◌∷◌, arith,
  if◌then◌else◌, is_empty, ◌&&◌,
}
use mod_security_iis.System.{
  Env, World, rq_continue, rq_pending, rq_finish_request, ok, stuck, read_intervention,
}
use mod_security_iis.System.Views.{request_phases}
use mod_security_iis.Intervention.Apply.{
  is_blocking, apply_intervention-passes, apply_intervention_frame,
}
use mod_security_iis.FinishBody.{restore_and_feed, finish_body_read}
use mod_security_iis.FinishBody.Laws.{
  inspected, forwarded, fed, allocated, restore_body_lem, reinserted, FeedRaises, feed_body_raised,
  after_restore, restore_and_feed-some, restore_and_feed_total, restore_and_feed-cases,
}

-- A request that IIS has and whose body is below 4 GiB goes on to its handler only if its whole drained body was
-- copied into memory of just its size and inserted into the request again, and
-- the engine was given that body up to the cap, ran its body phase on it, and, where the
-- transaction is open, then reported no disruptive intervention; then nothing of the context has changed.
pub finish_body_read-continue :
    (e : Env) (w : World)
    → e.has_request w.trace ≡ true
    → length w.rsc.body < 2 ^ 32
    → (finish_body_read e w).0 ≡ ok rq_continue
    → let t = fed (inspected e w) (forwarded w.rsc.body w.trace) in
      ((finish_body_read e w).1
        ≡ record w { trace = (if w.rsc.tx then read_intervention ∷ t else t) })
      × ((w.rsc.tx && is_blocking (e.intervention (read_intervention ∷ t))) ≡ false)
      × ((is_empty w.rsc.body ≡ true)
          ⊎ ((e.allocate_ok (allocated w) ≡ true)
              × ((e.insert_result (reinserted w)).failed ≡ false)))
unfolding finish_body_read
finish_body_read-continue e w has fits h = elim (restore_and_feed-cases e w) [
  | inl ended ↦ absurd (ground arith)
  | inr (failed, ran) ↦
      let w₁ = (restore_and_feed e w).1 in
      ground (
        arith,
        restore_and_feed-some e w failed ran,
        apply_intervention-passes e true w₁,
        take_all (length w.rsc.body) w.rsc.body (omega arith),
      )
]

-- The verdict leaves no loop unfinished and never pends, runs phase 2 at most once, and keeps the
-- context but for the transaction and the rules.
pub finish_body_read_total :
    (e : Env) (w : World)
    → let (r, w') = finish_body_read e w in
      (r ≢ stuck)
      × (r ≢ ok rq_pending)
      × (request_phases w'.trace ≤ suc (request_phases w.trace))
      × ((w'.rsc ≡ w.rsc) ⊎ (w'.rsc ≡ record (w.rsc) { tx = false; rules = none }))
      × (w' ≡ record w { rsc = w'.rsc; trace = w'.trace })
unfolding finish_body_read
finish_body_read_total e w =
    let w₁ = (restore_and_feed e w).1 in
    ground (arith, restore_and_feed_total e w, apply_intervention_frame e true w₁)

-- An exception of the engine while it is fed ends the request.
pub finish_body_read-raised :
    (e : Env) (w : World)
    → FeedRaises e (after_restore e w)
    → (finish_body_read e w).0 ≡ ok rq_finish_request
unfolding finish_body_read restore_and_feed
finish_body_read-raised e w h =
    ground (arith, restore_body_lem e w, feed_body_raised e (after_restore e w) h)
