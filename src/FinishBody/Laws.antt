-- ===== src/FinishBody/Laws.antt =====
-- What `FinishBodyRead` hands over, and that it lets no request go on uninspected.
use mod_security_iis.Prelude.{
  ℕ, zero, suc, ◌≤◌, ◌≡◌, ◌≢◌, refl, ◌⊎◌, inl, inr, Bool, true, false, not, ◌&&◌, Option, none,
  some, [], ◌∷◌, min, ltb, is_empty, arith, length, take, if◌then◌else◌,
}
use mod_security_iis.System.{
  Bytes, Env, World, Trace, Result, ok, raised, stuck, allocate_request_memory, insert_entity_body,
  copy_memory, dword, append_request_body, process_request_body, log_event,
  insert_entity_body_failed, allocate_failed,
}
use mod_security_iis.System.Views.{request_phases}
use mod_security_iis.Settings.{max_inspect_body_bytes}
use mod_security_iis.FinishBody.{
  Restore, insert_failed, restored, restore_body, feed_body, restore_and_feed,
}

-- The bytes that the engine inspects.
abbrev pub inspected : Env → World → Bytes
inspected e w = take (min (length w.rsc.body) (max_inspect_body_bytes e)) w.rsc.body

-- The calls by which an unhindered request body reaches IIS, and then those by which it reaches the engine.
abbrev pub forwarded : Bytes → Trace → Trace
forwarded body t =
    if is_empty body
    then t
    else insert_entity_body body
      ∷ copy_memory (length body) (length body)
      ∷ allocate_request_memory (length body)
      ∷ t

abbrev pub fed : Bytes → Trace → Trace
fed s t =
    if is_empty s
    then process_request_body ∷ t
    else process_request_body ∷ append_request_body s ∷ t

is_empty-take : (n : ℕ) (s : Bytes) → n ≤ length s → is_empty (take n s) ≡ not (ltb 0 n)
is_empty-take zero s h = refl
is_empty-take (suc n) [] h = absurd (omega arith)
is_empty-take (suc n) (c ∷ s) h = ground arith

feed_body_lem :
    (e : Env) (w : World)
    → ((feed_body e w).0 ≡ raised)
      ⊎ (feed_body e w ≡ (ok tt, record w { trace = fed (inspected e w) w.trace }))
unfolding feed_body
feed_body_lem e w = ground (
  arith,
  is_empty-take (min (length w.rsc.body) (max_inspect_body_bytes e)) w.rsc.body (omega arith),
)

-- The engine throws while it is fed: at its first call, or at the second.
abbrev pub FeedRaises : Env → World → Type 0
FeedRaises e w =
    ((is_empty (inspected e w) ≡ false)
      × (e.raises (append_request_body (inspected e w) ∷ w.trace) ≡ true))
    ⊎ (e.raises (fed (inspected e w) w.trace) ≡ true)

pub feed_body_raised : (e : Env) (w : World) → FeedRaises e w → (feed_body e w).0 ≡ raised
unfolding feed_body
feed_body_raised e w h = ground (
  arith,
  is_empty-take (min (length w.rsc.body) (max_inspect_body_bytes e)) w.rsc.body (omega arith),
)

-- Feeding ran phase 2 at most once, and changes the trace alone.
feed_body_phases :
    (e : Env) (w : World)
    → ((feed_body e w).1 ≡ record w { trace = (feed_body e w).1.trace })
      × (request_phases (feed_body e w).1.trace ≤ suc (request_phases w.trace))
      × ((feed_body e w).0 ≢ stuck)
unfolding feed_body
feed_body_phases e w = ground arith

-- Where the body is to be restored, and what became of it.
abbrev pub restores : Env → World → Bool
restores e w = e.has_request w.trace && not (is_empty w.rsc.body)

abbrev pub allocated : World → Trace
allocated w = allocate_request_memory (dword (length w.rsc.body)) ∷ w.trace

abbrev pub reinserted : World → Trace
reinserted w =
    insert_entity_body (take (dword (length w.rsc.body)) w.rsc.body)
    ∷ copy_memory (dword (length w.rsc.body)) (length w.rsc.body)
    ∷ allocated w

abbrev pub restore_result : Env → World → Restore
restore_result e w =
    if restores e w
    then (if e.allocate_ok (allocated w)
        then (if (e.insert_result (reinserted w)).failed then insert_failed else restored false)
        else restored true)
    else restored false

abbrev pub restore_trace : Env → World → Trace
restore_trace e w =
    if restores e w
    then (if e.allocate_ok (allocated w)
        then (if (e.insert_result (reinserted w)).failed
            then log_event insert_entity_body_failed ∷ reinserted w
            else reinserted w)
        else log_event allocate_failed ∷ allocated w)
    else w.trace

pub restore_body_lem :
    (e : Env) (w : World)
    → restore_body e w ≡ (ok (restore_result e w), record w { trace = restore_trace e w })
unfolding restore_body
restore_body_lem e w = ground arith

-- The world that the engine is fed in.
abbrev pub after_restore : Env → World → World
after_restore e w = record w { trace = restore_trace e w }

-- When the try block runs through, the body was handed over unless its memory was refused, and
-- the engine was fed.
pub restore_and_feed-some :
    (e : Env) (w : World) (failed : Bool)
    → (restore_and_feed e w).0 ≡ ok (some failed)
    → (restore_result e w ≡ restored failed)
      × ((restore_and_feed e w).1 ≡ record w { trace = fed (inspected e w) (restore_trace e w) })
unfolding restore_and_feed
restore_and_feed-some e w failed h =
    ground (arith, restore_body_lem e w, feed_body_lem e (after_restore e w))

pub restore_trace-phases :
    (e : Env) (w : World) → request_phases (restore_trace e w) ≡ request_phases w.trace
restore_trace-phases e w = ground arith

-- The try block never lets an exception through, keeps the context, and runs phase 2 at most once.
pub restore_and_feed_total :
    (e : Env) (w : World)
    → let (r, w') = restore_and_feed e w in
      (r ≢ raised)
      × (r ≢ stuck)
      × (w' ≡ record w { trace = w'.trace })
      × (request_phases w'.trace ≤ suc (request_phases w.trace))
unfolding restore_and_feed
restore_and_feed_total e w =
    ground (
      arith,
      restore_body_lem e w,
      restore_trace-phases e w,
      feed_body_phases e (after_restore e w),
    )

Result-cases :
    (r : Result (Option Bool))
    → r ≢ raised
    → r ≢ stuck
    → (r ≡ ok none) ⊎ ((failed : Bool) × (r ≡ ok (some failed)))
Result-cases (ok none) p q = inl refl
Result-cases (ok (some failed)) p q = inr (failed, refl)
Result-cases raised p q = absurd (p refl)
Result-cases stuck p q = absurd (q refl)

pub restore_and_feed-cases :
    (e : Env) (w : World)
    → ((restore_and_feed e w).0 ≡ ok none)
      ⊎ ((failed : Bool) × ((restore_and_feed e w).0 ≡ ok (some failed)))
restore_and_feed-cases e w =
    let total = restore_and_feed_total e w in Result-cases (restore_and_feed e w).0 total.0 total.1
