-- ===== src/Life/Reads.antt =====
-- The body side of a request's life: what reading and finishing the body keep.
use mod_security_iis.Prelude.{
  ℕ, zero, suc, ◌≡◌, refl, ◌⊎◌, inl, inr, Bool, true, false, ◌&&◌, Option, none, some, arith,
  Bool-cases,
}
use mod_security_iis.System.{
  Env, World, Chunk, Status, brs_done, Result, ok, raised, stuck, M, ◌>>=◌,
}
use mod_security_iis.System.Views.{response_phases, loggings}
use mod_security_iis.Settings.{body_reads_async}
use mod_security_iis.EntityBody.{get_entity_body_info}
use mod_security_iis.FinishBody.{feed_body, restore_and_feed, rule_on, finish_body_read}
use mod_security_iis.FinishBody.Laws.{restore_trace, restore_body_lem, after_restore}
use mod_security_iis.Body.{
  append_chunk, judge_chunk, end_body, log_cap, cap_noted, consume_body_chunk, pump_loop, pump_fuel,
  pump_body_read, prepare_reads, start_reads, begin_body_read, continue_body, on_async_completion,
  is_read_pending,
}
use mod_security_iis.Body.Phase.{idled, continue_body-Ends}
use mod_security_iis.Body.Loops.{go_on, inline_read, pump_loop-inline, pump_loop-pending}
use mod_security_iis.Life.Spec.{Accounts, Reads}
use mod_security_iis.Life.Books.{
  view, KeepsResponse, KeepsResponse-trans, bind-keeps, apply_intervention-Steady,
}

KeepsResponse-refl : (w : World) → KeepsResponse w w
KeepsResponse-refl w = ground arith

-- One part after another.
after :
    {A B : Type 0} (w : World) (x : Result A × World) (f : A → M B)
    → KeepsResponse w x.1
    → ((a : A) → KeepsResponse x.1 (f a x.1).1)
    → KeepsResponse w (((λ (v : World). x) >>= f) w).1
after = bind-keeps KeepsResponse KeepsResponse-trans

restore_trace-books :
    (e : Env) (w : World)
    → (loggings (restore_trace e w) ≡ loggings w.trace)
      × (response_phases (restore_trace e w) ≡ response_phases w.trace)
restore_trace-books e w = ground arith

feed_body-KeepsResponse : (e : Env) (w : World) → KeepsResponse w (feed_body e w).1
unfolding feed_body
feed_body-KeepsResponse e w = ground arith

restore_and_feed-KeepsResponse : (e : Env) (w : World) → KeepsResponse w (restore_and_feed e w).1
unfolding restore_and_feed
restore_and_feed-KeepsResponse e w = ground (
  arith,
  restore_body_lem e w,
  restore_trace-books e w,
  feed_body-KeepsResponse e (after_restore e w),
)

rule_on-KeepsResponse :
    (e : Env) (failed : Bool) (w : World) → KeepsResponse w (rule_on e failed w).1
rule_on-KeepsResponse e failed w = ground (arith, apply_intervention-Steady e true w)

pub finish_body_read-KeepsResponse :
    (e : Env) (w : World) → KeepsResponse w (finish_body_read e w).1
unfolding finish_body_read
finish_body_read-KeepsResponse e w =
    let w₁ = (restore_and_feed e w).1 in
    ground (
      arith,
      restore_and_feed-KeepsResponse e w,
      rule_on-KeepsResponse e true w₁,
      rule_on-KeepsResponse e false w₁,
    )

done : World → World
done w = record w { rsc = record (w.rsc) { body_read_state = brs_done } }

end_body-KeepsResponse : (e : Env) (w : World) → KeepsResponse w (end_body e w).1
unfolding end_body done
end_body-KeepsResponse e w = ground (arith, finish_body_read-KeepsResponse e (done w))

judge_chunk-KeepsResponse :
    (e : Env) (c : Chunk) (w : World) → KeepsResponse w (judge_chunk e c w).1
unfolding judge_chunk log_cap
judge_chunk-KeepsResponse e c w =
    ground (arith, end_body-KeepsResponse e w, end_body-KeepsResponse e (cap_noted w))

append_chunk-KeepsResponse :
    (e : Env) (c : Chunk) (w : World) → KeepsResponse w (append_chunk e c w).1
unfolding append_chunk
append_chunk-KeepsResponse e c w = ground arith

consume_body_chunk-KeepsResponse :
    (e : Env) (c : Chunk) (w : World) → KeepsResponse w (consume_body_chunk e c w).1
unfolding consume_body_chunk
consume_body_chunk-KeepsResponse e c w =
    after w (append_chunk e c w) (λ _. judge_chunk e c) (append_chunk-KeepsResponse e c w)
      (λ _. judge_chunk-KeepsResponse e c (append_chunk e c w).1)

go_on-KeepsResponse :
    (async : Bool) (fuel : ℕ) (e : Env) (x : Result (Option Status) × World)
    → KeepsResponse x.1 (pump_loop async fuel e x.1).1
    → KeepsResponse x.1 (go_on async fuel e x).1
go_on-KeepsResponse async fuel e (ok (some s), w) h = KeepsResponse-refl w
go_on-KeepsResponse async fuel e (ok none, w) h = h
go_on-KeepsResponse async fuel e (raised, w) h = KeepsResponse-refl w
go_on-KeepsResponse async fuel e (stuck, w) h = KeepsResponse-refl w

inline_read-KeepsResponse : (async : Bool) (w : World) → KeepsResponse w (inline_read async w)
inline_read-KeepsResponse true w = ground arith
inline_read-KeepsResponse false w = ground arith

pump_loop-KeepsResponse :
    (async : Bool) (fuel : ℕ) (e : Env) (w : World) → KeepsResponse w (pump_loop async fuel e w).1
unfolding pump_loop
pump_loop-KeepsResponse async zero e w = KeepsResponse-refl w
pump_loop-KeepsResponse async (suc fuel) e w =
    elim (Bool-cases (async && (e.read w.reads).pending)) [
      | inl pends ↦ rw (pump_loop-pending async fuel e w pends) (ground arith)
      | inr inline ↦
          let w₁ = inline_read async w in
          let x = consume_body_chunk e (e.read w.reads).chunk w₁ in
          rw (pump_loop-inline async fuel e w inline) (
            KeepsResponse-trans w w₁ _ (inline_read-KeepsResponse async w) (
              KeepsResponse-trans w₁ x.1 _
                (consume_body_chunk-KeepsResponse e (e.read w.reads).chunk w₁)
                (go_on-KeepsResponse async fuel e x (pump_loop-KeepsResponse async fuel e x.1))))
    ]

pump_body_read-KeepsResponse :
    (async : Bool) (e : Env) (w : World) → KeepsResponse w (pump_body_read async e w).1
unfolding pump_body_read done
pump_body_read-KeepsResponse async e w = ground (
  arith,
  pump_loop-KeepsResponse async (pump_fuel e) e w,
  finish_body_read-KeepsResponse e (done w),
)

pub begin_body_read-KeepsResponse :
    (async : Bool) (e : Env) (w : World) → KeepsResponse w (begin_body_read async e w).1
unfolding begin_body_read start_reads prepare_reads
begin_body_read-KeepsResponse async e w =
    let n = (get_entity_body_info e.raw_request).length in
    ground (
      arith,
      pump_body_read-KeepsResponse async e (prepare_reads e n w).1,
      finish_body_read-KeepsResponse e w,
    )

continue_body-KeepsResponse :
    (async : Bool) (e : Env) (c : Chunk) (w : World) → KeepsResponse w (continue_body async e c w).1
unfolding continue_body
continue_body-KeepsResponse async e c w = ground (
  arith,
  consume_body_chunk-KeepsResponse e c w,
  pump_body_read-KeepsResponse async e (consume_body_chunk e c w).1,
)

-- Of a claimed completion.
claimed-Reads :
    (e : Env) (c : Chunk) (w : World)
    → is_read_pending w.rsc.body_read_state ≡ true
    → let w' = (continue_body (body_reads_async e) e c (idled w)).1 in
      Accounts (view w) (view w') × Reads (view w) (view w')
claimed-Reads e c w reading =
    let async = body_reads_async e in
    ground (
      arith,
      continue_body-Ends async e c (idled w) refl,
      continue_body-KeepsResponse async e c (idled w),
    )

-- A completion is ignored, or answers the read of an open request.
pub on_async_completion-moves :
    (e : Env) (c : Option Chunk) (w : World)
    → let w' = (on_async_completion e c w).1 in
      (w' ≡ w)
      ⊎ ((w.rsc.tx ≡ true)
          × (is_read_pending w.rsc.body_read_state ≡ true)
          × Accounts (view w) (view w')
          × Reads (view w) (view w'))
unfolding on_async_completion
on_async_completion-moves e none w = inl refl
on_async_completion-moves e (some c) w =
    elim (Bool-cases (w.stored && w.rsc.tx && is_read_pending w.rsc.body_read_state)) [
      | inl claimed ↦
          let reading : is_read_pending w.rsc.body_read_state ≡ true = ground arith in
          inr (
            ground arith,
            reading,
            ground (arith, claimed-Reads e c w reading),
            ground (arith, claimed-Reads e c w reading),
          )
      | inr ignored ↦ inl (rw ignored refl)
    ]
