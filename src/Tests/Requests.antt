-- ===== src/Tests/Requests.antt =====
-- Requests with a body.
use mod_security_iis.Prelude.{
  ◌&&◌, ◌∙◌, ap, leb, ◌≤◌, ◌^◌, ℕ, zero, suc, ◌≡◌, ◌<◌, refl, ◌⊎◌, inr, true, false, none, some,
  List, [], ◌∷◌, arith, length, is_empty, Option, ◌+◌,
}
use mod_security_iis.System.{
  World, Chunk, rq_continue, rq_finish_request, ok, brs_read_pending, read_intervention,
}
use mod_security_iis.Text.{whole_number}
use mod_security_iis.Settings.{
  max_inspect_body_bytes, configured_inspect_bytes, body_reads_async, body_reads_async_from,
}
use mod_security_iis.EntityBody.{get_entity_body_info}
use mod_security_iis.Intervention.{apply_intervention}
use mod_security_iis.Intervention.Apply.{is_blocking}
use mod_security_iis.FinishBody.{restore_body, feed_body, restore_and_feed, finish_body_read}
use mod_security_iis.FinishBody.Laws.{
  inspected, forwarded, fed, allocated, reinserted, after_restore, FeedRaises,
}
use mod_security_iis.FinishBody.Verdict.{finish_body_read-continue, finish_body_read-raised}
use mod_security_iis.Body.{
  end_body, log_cap, append_chunk, judge_chunk, consume_body_chunk, read_entity_body, pump_loop,
  pump_fuel, pump_body_read, prepare_reads, start_reads, begin_body_read, begin_body_phase,
  body_read_chunk_size,
}
use mod_security_iis.Body.Chunks.{WantsMore, appended, consume_body_chunk-none}
use mod_security_iis.Body.Completions.{deliver}
use mod_security_iis.Body.Modes.{settle, begin_body_read_modes}
use mod_security_iis.System.Views.{overruns}
use mod_security_iis.FinishBody.Copies.{overrun_of, finish_body_read-overruns}
use mod_security_iis.Body.Copies.{body_never_overruns}
use mod_security_iis.Body.Bounds.{Fits, body_bound}
use mod_security_iis.Tests.{calm_env, throwing_env, opened, drained, first_chunk, last_chunk}

-- The world that the synchronous reads leave.
abbrev after_sync : World
after_sync = (begin_body_read false calm_env opened).1

sync_goes_on : begin_body_read false calm_env opened ≡ (ok rq_continue, after_sync)
unfolding begin_body_read start_reads prepare_reads pump_body_read pump_loop read_entity_body
    consume_body_chunk append_chunk judge_chunk log_cap end_body finish_body_read restore_and_feed
    restore_body feed_body apply_intervention get_entity_body_info max_inspect_body_bytes
    configured_inspect_bytes whole_number
sync_goes_on = refl

reads_pend : body_reads_async calm_env ≡ true
unfolding body_reads_async body_reads_async_from
reads_pend = refl

begin_body_read_modes_example :
    settle (pump_fuel calm_env) calm_env (begin_body_read true calm_env opened)
    ≡ (ok rq_continue, after_sync)
begin_body_read_modes_example =
    begin_body_read_modes calm_env reads_pend (λ t. refl) opened refl refl refl rq_continue
      after_sync sync_goes_on

drained_goes_on : (finish_body_read calm_env drained).0 ≡ ok rq_continue
unfolding finish_body_read restore_and_feed restore_body feed_body apply_intervention
    max_inspect_body_bytes configured_inspect_bytes whole_number
drained_goes_on = refl

finish_body_read-continue_example :
    ((finish_body_read calm_env drained).1 ≡ record drained {
      trace =
          read_intervention
          ∷ fed (inspected calm_env drained) (forwarded drained.rsc.body drained.trace);
    })
    × ((drained.rsc.tx
          && is_blocking (
              calm_env.intervention (
                read_intervention
                ∷ fed (inspected calm_env drained) (forwarded drained.rsc.body drained.trace))))
        ≡ false)
    × ((is_empty drained.rsc.body ≡ true)
        ⊎ ((calm_env.allocate_ok (allocated drained) ≡ true)
            × ((calm_env.insert_result (reinserted drained)).failed ≡ false)))
finish_body_read-continue_example =
    finish_body_read-continue calm_env drained refl (omega arith) drained_goes_on

engine_throws : FeedRaises throwing_env (after_restore throwing_env drained)
unfolding max_inspect_body_bytes configured_inspect_bytes whole_number
engine_throws = inr refl

finish_body_read-raised_example : (finish_body_read throwing_env drained).0 ≡ ok rq_finish_request
finish_body_read-raised_example = finish_body_read-raised throwing_env drained engine_throws

-- The completions of the two pended reads, with a foreign one between.
abbrev completions : List (Option Chunk)
completions = some first_chunk ∷ none ∷ some last_chunk ∷ []

-- The last read is pending.
abbrev pending : World
pending = record drained { rsc = record (drained.rsc) { body_read_state = brs_read_pending } }

replies_fit : (n : ℕ) → Fits (calm_env.read n).chunk
replies_fit zero = omega arith
replies_fit (suc zero) = omega arith
replies_fit (suc (suc n)) = omega arith

body_bound_example :
    length (deliver calm_env completions (begin_body_phase calm_env opened).1).rsc.body
    < max_inspect_body_bytes calm_env + body_read_chunk_size
body_bound_example =
    body_bound calm_env replies_fit completions (omega arith, (omega arith, tt)) opened refl refl

cap_leaves_room : max_inspect_body_bytes calm_env + body_read_chunk_size ≤ 2 ^ 32
unfolding max_inspect_body_bytes configured_inspect_bytes whole_number
cap_leaves_room = omega arith

body_never_overruns_example :
    overruns (deliver calm_env completions (begin_body_phase calm_env opened).1).trace ≡ 0
body_never_overruns_example =
    body_never_overruns calm_env replies_fit cap_leaves_room completions
      (omega arith, (omega arith, tt)) opened refl refl

-- A body of 4 GiB.
unfoldable many : ℕ → List ℕ
many zero = []
many (suc n) = 0 ∷ many n

length-many : (n : ℕ) → length (many n) ≡ n
unfolding many
length-many zero = refl
length-many (suc n) = ap suc (length-many n)

abbrev huge : World
huge = record opened { rsc = record (opened.rsc) { body = many (2 ^ 32) } }

is_empty-long : (s : List ℕ) → 0 < length s → is_empty s ≡ false
is_empty-long [] h = absurd (omega arith)
is_empty-long (c ∷ s) h = refl

finish_body_read-overruns_example :
    overruns (finish_body_read calm_env huge).1.trace
    ≡ overrun_of calm_env huge + overruns huge.trace
finish_body_read-overruns_example = finish_body_read-overruns calm_env huge

memory_is_overrun : overruns (finish_body_read calm_env huge).1.trace ≡ 1
memory_is_overrun =
    let size = length-many (2 ^ 32) in
    let some_bytes : is_empty (many (2 ^ 32)) ≡ false =
      is_empty-long (many (2 ^ 32)) (omega (arith, size)) in
    let big : leb (2 ^ 32) (length (many (2 ^ 32))) ≡ true = ground (arith, size) in
    finish_body_read-overruns calm_env huge ∙ rw (some_bytes, big) refl

first_asks_on : (consume_body_chunk calm_env first_chunk opened).0 ≡ ok none
unfolding consume_body_chunk append_chunk judge_chunk max_inspect_body_bytes
    configured_inspect_bytes whole_number
first_asks_on = refl

consume_body_chunk-none_example :
    ((consume_body_chunk calm_env first_chunk opened).1 ≡ appended first_chunk opened)
    × WantsMore calm_env first_chunk opened
consume_body_chunk-none_example = consume_body_chunk-none calm_env first_chunk opened first_asks_on
