-- ===== src/Body/Pointers.antt =====
-- `BeginBodyRead` makes no call on a null response where IIS has one.
use mod_security_iis.Prelude.{
  ℕ, zero, suc, ◌≡◌, ◌∙◌, ap, refl, inl, inr, Bool, true, false, ◌&&◌, Option, none, some, [], ◌∷◌,
  arith, Bool-cases, Option-cases, count_if, length, ltb, ltb→lt,
}
use mod_security_iis.System.{
  Bytes, Env, World, Trace, Call, null_dereference, clear, set_status, on_response, Chunk,
  Intervention, brs_done, Result, Status, ok, raised, stuck, read_intervention,
}
use mod_security_iis.EntityBody.{get_entity_body_info}
use mod_security_iis.Intervention.{
  apply_intervention, answer, disrupt, finish_request, pos_part, url_of,
}
use mod_security_iis.FinishBody.{
  restore_body, feed_body, restore_and_feed, finish_body_read, rule_on,
}
use mod_security_iis.FinishBody.Laws.{restore_and_feed-cases}
use mod_security_iis.Body.{
  end_body, cap_noted, log_cap, judge_chunk, consume_body_chunk, pump_loop, pump_fuel,
  pump_body_read, prepare_reads, start_reads, begin_body_read,
}
use mod_security_iis.Body.Chunks.{appended, append_chunk-none, append_chunk-some}
use mod_security_iis.Body.Loops.{go_on, inline_read, pump_loop-inline, pump_loop-pending}

abbrev is_null : Call → Bool
is_null null_dereference = true
is_null _ = false

-- How often a member was called on a null pointer.
abbrev pub nulls : Trace → ℕ
nulls = count_if is_null

-- It made no such call.
abbrev pub IsSafe : {A : Type 0} → World → Result A × World → Type 0
IsSafe w x = nulls x.1.trace ≡ nulls w.trace

on_response-nulls :
    (e : Env) (t : Trace)
    → e.has_response ≡ true
    → (nulls (on_response e clear ∷ t) ≡ nulls t)
      × (nulls (on_response e (set_status 500 "Internal Server Error") ∷ t) ≡ nulls t)
on_response-nulls e t has = ground (arith, has)

answer-IsSafe : (u : Bytes) (s : ℕ) (w : World) → IsSafe w (answer u s w)
unfolding answer
answer-IsSafe [] s w = ground arith
answer-IsSafe (c ∷ u) s w = ground arith

feed_body-IsSafe : (e : Env) (w : World) → IsSafe w (feed_body e w)
unfolding feed_body
feed_body-IsSafe e w = ground arith

restore_body-IsSafe : (e : Env) (w : World) → IsSafe w (restore_body e w)
unfolding restore_body
restore_body-IsSafe e w = ground arith

restore_and_feed-IsSafe : (e : Env) (w : World) → IsSafe w (restore_and_feed e w)
unfolding restore_and_feed
restore_and_feed-IsSafe e w =
    ground (arith, restore_body-IsSafe e w, feed_body-IsSafe e (restore_body e w).1)

module _ (e : Env) (has : e.has_response ≡ true) where
  disrupt-IsSafe : (it : Intervention) (w : World) → IsSafe w (disrupt e it w)
  unfolding disrupt finish_request
  disrupt-IsSafe it w =
      let w₁ = record w { trace = on_response e clear ∷ w.trace } in
      ground
        (arith, on_response-nulls e w.trace has, answer-IsSafe (url_of it) (pos_part it.status) w₁)

  pub apply_intervention-IsSafe : (b : Bool) (w : World) → IsSafe w (apply_intervention e b w)
  unfolding apply_intervention
  apply_intervention-IsSafe b w =
      elim (Option-cases (e.intervention (read_intervention ∷ w.trace))) [
        | inl absent ↦ ground arith
        | inr (it, found) ↦
            ground (arith, disrupt-IsSafe it (record w { trace = read_intervention ∷ w.trace }))
      ]

  rule_on-IsSafe : (failed : Bool) (w : World) → IsSafe w (rule_on e failed w)
  rule_on-IsSafe failed w = ground (
    arith,
    apply_intervention-IsSafe true w,
    on_response-nulls e (apply_intervention e true w).1.trace has,
  )

  finish_body_read-IsSafe : (w : World) → IsSafe w (finish_body_read e w)
  unfolding finish_body_read
  finish_body_read-IsSafe w = elim (restore_and_feed-cases e w) [
    | inl ended ↦ ground (arith, restore_and_feed-IsSafe e w)
    | inr (failed, ran) ↦
        ground (arith, restore_and_feed-IsSafe e w, rule_on-IsSafe failed (restore_and_feed e w).1)
  ]

  end_body-IsSafe : (w : World) → IsSafe w (end_body e w)
  unfolding end_body
  end_body-IsSafe w = ground (
    arith,
    finish_body_read-IsSafe (record w { rsc = record (w.rsc) { body_read_state = brs_done } }),
  )

  judge_chunk-IsSafe : (c : Chunk) (w : World) → IsSafe w (judge_chunk e c w)
  unfolding judge_chunk log_cap
  judge_chunk-IsSafe c w = ground (arith, end_body-IsSafe w, end_body-IsSafe (cap_noted w))

  consume_body_chunk-IsSafe : (c : Chunk) (w : World) → IsSafe w (consume_body_chunk e c w)
  unfolding consume_body_chunk
  consume_body_chunk-IsSafe c w = elim (Bool-cases (ltb 0 (length c.bytes))) [
    | inl more ↦ ground (
      arith,
      append_chunk-some e c w (ltb→lt 0 (length c.bytes) more),
      judge_chunk-IsSafe c (appended c w),
    )
    | inr empty ↦ ground (arith, append_chunk-none e c w, judge_chunk-IsSafe c w)
  ]

  go_on-IsSafe :
      (async : Bool) (fuel : ℕ) (x : Result (Option Status) × World)
      → ((w : World) → IsSafe w (pump_loop async fuel e w))
      → IsSafe x.1 (go_on async fuel e x)
  go_on-IsSafe async fuel (ok none, w) rest = rest w
  go_on-IsSafe async fuel (ok (some s), w) rest = refl
  go_on-IsSafe async fuel (raised, w) rest = refl
  go_on-IsSafe async fuel (stuck, w) rest = refl

  inline_read-trace : (async : Bool) (w : World) → (inline_read async w).trace ≡ w.trace
  inline_read-trace true w = refl
  inline_read-trace false w = refl

  pump_loop-zero-IsSafe : (async : Bool) (w : World) → IsSafe w (pump_loop async zero e w)
  unfolding pump_loop
  pump_loop-zero-IsSafe async w = refl

  pump_loop-IsSafe : (async : Bool) (fuel : ℕ) (w : World) → IsSafe w (pump_loop async fuel e w)
  pump_loop-IsSafe async zero w = pump_loop-zero-IsSafe async w
  pump_loop-IsSafe async (suc fuel) w = elim (Bool-cases (async && (e.read w.reads).pending)) [
    | inl pends ↦ rw (pump_loop-pending async fuel e w pends) refl
    | inr inline ↦
        let w₁ = inline_read async w in
        let x = consume_body_chunk e (e.read w.reads).chunk w₁ in
        let whole : nulls (go_on async fuel e x).1.trace ≡ nulls w₁.trace =
          go_on-IsSafe async fuel x (pump_loop-IsSafe async fuel)
          ∙ consume_body_chunk-IsSafe (e.read w.reads).chunk w₁ in
        rw (pump_loop-inline async fuel e w inline) (whole ∙ ap nulls (inline_read-trace async w))
  ]

  pump_body_read-IsSafe : (async : Bool) (w : World) → IsSafe w (pump_body_read async e w)
  unfolding pump_body_read
  pump_body_read-IsSafe async w = ground (
    arith,
    pump_loop-IsSafe async (pump_fuel e) w,
    finish_body_read-IsSafe (record w { rsc = record (w.rsc) { body_read_state = brs_done } }),
  )

  prepare_reads-IsSafe : (n : ℕ) (w : World) → IsSafe w (prepare_reads e n w)
  unfolding prepare_reads
  prepare_reads-IsSafe n w = ground arith

  start_reads-IsSafe : (async : Bool) (n : ℕ) (w : World) → IsSafe w (start_reads async e n w)
  unfolding start_reads
  start_reads-IsSafe async n w =
      ground (arith, prepare_reads-IsSafe n w, pump_body_read-IsSafe async (prepare_reads e n w).1)

  pub begin_body_read-IsSafe : (async : Bool) (w : World) → IsSafe w (begin_body_read async e w)
  unfolding begin_body_read
  begin_body_read-IsSafe async w = ground (
    arith,
    start_reads-IsSafe async (get_entity_body_info e.raw_request).length w,
    finish_body_read-IsSafe w,
  )
