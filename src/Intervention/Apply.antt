-- ===== src/Intervention/Apply.antt =====
-- What `ApplyIntervention` does on each of its ways out.
use mod_security_iis.Prelude.{
  ℕ, suc, ◌%◌, ◌^◌, ◌<◌, ◌≡◌, ◌≢◌, ◌↔◌, ◌∙◌, ap, ◌⊎◌, inl, inr, Bool, true, false, none, some, ◌∷◌,
  arith, ◌&&◌, Option, Option-cases, [], if◌then◌else◌,
}
use mod_security_iis.System.{
  Bytes, Env, World, Result, Intervention, ok, stuck, read_intervention, clear, on_response,
  update_status_code, set_request_handled, Trace,
}
use mod_security_iis.System.Views.{
  wire_status, told_status, handled, clearings, request_phases, response_phases, overruns,
}
use mod_security_iis.Intervention.Laws.{finish_request_lem}
use mod_security_iis.Intervention.{
  block_status, keeps_flavor, url_of, answer, finish_request, apply_intervention, disrupt, pos_part,
}

-- finalStatus
abbrev pub final_status : Bytes → ℕ → ℕ
final_status [] s = block_status s
final_status (c ∷ url) s = if keeps_flavor s then s else 302

-- What the answer leaves before the engine is told.
answer_lem :
    (u : Bytes) (s : ℕ) (w : World)
    → let (r, w') = answer u s w in
      (r ≡ ok (final_status u s))
      × (w'.rsc ≡ w.rsc)
      × (handled w'.trace ≡ handled w.trace)
      × (clearings w'.trace ≡ clearings w.trace)
      × (wire_status w'.trace ≡ some (final_status u s % 2 ^ 16))
      × (0 < final_status u s)
unfolding answer
answer_lem [] s w = ground arith
answer_lem (c ∷ url) s w = ground arith

answer_frame :
    (u : Bytes) (s : ℕ) (w : World)
    → let (r, w') = answer u s w in
      (r ≡ ok (final_status u s))
      × (w' ≡ record w { trace = w'.trace })
      × (request_phases w'.trace ≡ request_phases w.trace)
      × (response_phases w'.trace ≡ response_phases w.trace)
      × (overruns w'.trace ≡ overruns w.trace)
unfolding answer
answer_frame [] s w = ground arith
answer_frame (c ∷ url) s w = ground arith

module _ (e : Env) (it : Intervention) (w : World) where
  abbrev told : ℕ
  told = final_status (url_of it) (pos_part it.status)

  disrupt_blocks :
      (disrupt e it w).0 ≡ ok true
      → let w' = (disrupt e it w).1 in
        (w'.rsc ≡ record (w.rsc) { tx = false; rules = none })
        × (handled w'.trace ≡ suc (handled w.trace))
        × (e.has_response ≡ true → clearings w'.trace ≡ suc (clearings w.trace))
        × (told_status w'.trace ≡ some told)
        × (wire_status w'.trace ≡ some (told % 2 ^ 16))
        × (0 < told)
  unfolding disrupt finish_request
  disrupt_blocks h = ground (
    arith,
    answer_lem (url_of it) (pos_part it.status)
        (record w { trace = on_response e clear ∷ w.trace }),
  )

disrupt_calm :
    (e : Env) (it : Intervention) (w : World)
    → ((t : Trace) → e.raises t ≡ false)
    → (disrupt e it w).0 ≡ ok true
unfolding disrupt
disrupt_calm e it w calm =
    let w₁ = record w { trace = on_response e clear ∷ w.trace } in
    let final = final_status (url_of it) (pos_part it.status) in
    let w₂ = (answer (url_of it) (pos_part it.status) w₁).1 in
    let t = update_status_code final ∷ w₂.trace in
    ground (
      arith,
      answer_lem (url_of it) (pos_part it.status) w₁,
      calm t,
      finish_request_lem e (record w₂ { trace = set_request_handled ∷ t }),
    )

blocked :
    (e : Env) (can_block : Bool) (w : World)
    → (apply_intervention e can_block w).0 ≡ ok true
    → (it : Intervention) × (e.intervention (read_intervention ∷ w.trace) ≡ some it)
      × ((disrupt e it (record w { trace = read_intervention ∷ w.trace })).0 ≡ ok true)
      × ((apply_intervention e can_block w).1
          ≡ (disrupt e it (record w { trace = read_intervention ∷ w.trace })).1)
unfolding apply_intervention
blocked e b w h = elim (Option-cases (e.intervention (read_intervention ∷ w.trace))) [
  | inl absent ↦ absurd (ground arith)
  | inr (it, found) ↦ (it, found, ground arith, ground arith)
]

-- A blocked request has no transaction and no rules any more.
pub apply_intervention-drops :
    (e : Env) (can_block : Bool) (w : World)
    → (apply_intervention e can_block w).0 ≡ ok true
    → (apply_intervention e can_block w).1.rsc ≡ record (w.rsc) { tx = false; rules = none }
apply_intervention-drops e b w h =
    let (it, found, ran, same) = blocked e b w h in
    ap (λ (v : World). v.rsc) same
    ∙ (disrupt_blocks e it (record w { trace = read_intervention ∷ w.trace }) ran).0

-- Where IIS has a response and a request is to be finished, its response was cleared once and
-- answered with one positive status (as the USHORT of SetStatus), the engine was told that same
-- status, the request was marked handled once, and the transaction and rules were dropped with
-- nothing else in the context changed.
pub apply_intervention-blocks :
    (e : Env) (can_block : Bool) (w : World)
    → e.has_response ≡ true
    → (apply_intervention e can_block w).0 ≡ ok true
    → let w' = (apply_intervention e can_block w).1 in
      (w'.rsc ≡ record (w.rsc) { tx = false; rules = none })
      × (handled w'.trace ≡ suc (handled w.trace))
      × (clearings w'.trace ≡ suc (clearings w.trace))
      × ((s : ℕ) × (told_status w'.trace ≡ some s)
          × (wire_status w'.trace ≡ some (s % 2 ^ 16))
          × (0 < s))
apply_intervention-blocks e b w has h =
    let (it, found, ran, same) = blocked e b w h in
    let w₁ = record w { trace = read_intervention ∷ w.trace } in
    let facts = disrupt_blocks e it w₁ ran in
    (
      apply_intervention-drops e b w h,
      ground (arith, same, facts),
      ground (arith, same, facts),
      (
        told e it w₁,
        ground (arith, same, facts),
        ground (arith, same, facts),
        ground (arith, same, facts),
      ),
    )

-- The engine reports an intervention that is disruptive.
abbrev pub is_blocking : Option Intervention → Bool
is_blocking none = false
is_blocking (some it) = it.disruptive

-- When a request is to go on, the response and the context are as they were: the intervention was
-- read at most, and not even that without a transaction; and it is not one to block by.
pub apply_intervention-passes :
    (e : Env) (can_block : Bool) (w : World)
    → (apply_intervention e can_block w).0 ≡ ok false
    → ((apply_intervention e can_block w).1
        ≡ (if w.rsc.tx then record w { trace = read_intervention ∷ w.trace } else w))
      × ((w.rsc.tx && (is_blocking (e.intervention (read_intervention ∷ w.trace)) && can_block))
          ≡ false)
unfolding apply_intervention disrupt
apply_intervention-passes e b w h =
    elim (Option-cases (e.intervention (read_intervention ∷ w.trace))) [
      | inl absent ↦ ground arith
      | inr (it, found) ↦ ground arith
    ]

-- Where the engine does not throw, a request is finished exactly when its transaction is open, the
-- engine reports an intervention, that is disruptive, and blocking is allowed.
pub apply_intervention_iff :
    (e : Env) (can_block : Bool) (w : World)
    → ((t : Trace) → e.raises t ≡ false)
    → ((apply_intervention e can_block w).0 ≡ ok true)
      ↔ (w.rsc.tx ≡ true)
        × ((it : Intervention) × (e.intervention (read_intervention ∷ w.trace) ≡ some it)
            × (it.disruptive ≡ true))
        × (can_block ≡ true)
unfolding apply_intervention
apply_intervention_iff e b w calm =
    elim (Option-cases (e.intervention (read_intervention ∷ w.trace))) [
      | inl absent ↦ (λ h. absurd (ground (arith, calm asked)), λ h. absurd (ground arith))
      | inr (it, found) ↦ (
        λ h. (
          ground (arith, calm asked),
          (it, found, ground (arith, calm asked)),
          ground (arith, calm asked),
        ),
        λ h. ground (arith, calm asked, disrupt_calm e it w₁ calm),
      )
    ]
  where
    asked : Trace
    asked = read_intervention ∷ w.trace

    w₁ : World
    w₁ = record w { trace = asked }

-- What every way through leaves alone.
abbrev IsFramed : World → Result Bool × World → Type 0
IsFramed w (r, w') =
    (r ≢ stuck)
    × ((w'.rsc ≡ w.rsc) ⊎ (w'.rsc ≡ record (w.rsc) { tx = false; rules = none }))
    × (request_phases w'.trace ≡ request_phases w.trace)
    × (response_phases w'.trace ≡ response_phases w.trace)
    × (w' ≡ record w { rsc = w'.rsc; trace = w'.trace })
    × (overruns w'.trace ≡ overruns w.trace)

on_response-phases :
    (e : Env) (t : Trace)
    → (request_phases (on_response e clear ∷ t) ≡ request_phases t)
      × (response_phases (on_response e clear ∷ t) ≡ response_phases t)
      × (overruns (on_response e clear ∷ t) ≡ overruns t)
on_response-phases e t = ground arith

disrupt_frame : (e : Env) (it : Intervention) (w : World) → IsFramed w (disrupt e it w)
unfolding disrupt finish_request
disrupt_frame e it w =
    let w₁ = record w { trace = on_response e clear ∷ w.trace } in
    ground (arith, on_response-phases e w.trace, answer_frame (url_of it) (pos_part it.status) w₁)

-- Whatever way it ends, the context keeps all but its transaction and rules, no phase runs, no
-- memory is overrun and no loop is left unfinished.
pub apply_intervention_frame :
    (e : Env) (can_block : Bool) (w : World)
    → let (r, w') = apply_intervention e can_block w in
      (r ≢ stuck)
      × ((w'.rsc ≡ w.rsc) ⊎ (w'.rsc ≡ record (w.rsc) { tx = false; rules = none }))
      × (request_phases w'.trace ≡ request_phases w.trace)
      × (response_phases w'.trace ≡ response_phases w.trace)
      × (w' ≡ record w { rsc = w'.rsc; trace = w'.trace })
      × (overruns w'.trace ≡ overruns w.trace)
unfolding apply_intervention
apply_intervention_frame e b w =
    elim (Option-cases (e.intervention (read_intervention ∷ w.trace))) [
      | inl absent ↦ ground arith
      | inr (it, found) ↦
          ground (arith, disrupt_frame e it (record w { trace = read_intervention ∷ w.trace }))
    ]
