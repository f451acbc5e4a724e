-- ===== src/Body/Chunks.antt =====
-- One chunk: when `ConsumeBodyChunk` asks for the next read, and how it ends the body.
use mod_security_iis.Prelude.{
  suc, ◌+◌, ◌≤◌, ◌<◌, ◌≡◌, ◌≢◌, ◌⊎◌, inl, inr, true, false, none, some, ◌∷◌, ◌++◌, arith, length,
  length-append, Bool-cases, ltb, ltb→lt, if◌then◌else◌,
}
use mod_security_iis.System.{
  Env, World, Chunk, rq_pending, ok, raised, stuck, insert_body, brs_done,
}
use mod_security_iis.System.Views.{request_phases}
use mod_security_iis.Settings.{max_inspect_body_bytes}
use mod_security_iis.FinishBody.Verdict.{finish_body_read_total}
use mod_security_iis.Body.{
  is_eof, has_declared, is_capped, end_body, cap_noted, log_cap, append_chunk, judge_chunk,
  consume_body_chunk, error_handle_eof,
}

-- The world after a chunk was appended.
abbrev pub appended : Chunk → World → World
appended c w = record w {
  rsc = record (w.rsc) { body = w.rsc.body ++ c.bytes };
  trace = insert_body c.bytes ∷ w.trace;
}

-- The next read is asked for only after a chunk of at least one byte, with no error, was appended,
-- while the body is below both the declared length and the cap.
pub record WantsMore (e : Env) (c : Chunk) (w : World) : Type 0 where
  pub not_empty : 0 < length c.bytes
  pub not_eof : c.hr.code ≢ error_handle_eof
  pub not_failed : c.hr.failed ≡ false
  pub below_declared :
      (w.rsc.declared_body_length ≡ 0)
      ⊎ (length w.rsc.body + length c.bytes < w.rsc.declared_body_length)
  pub below_cap : length w.rsc.body + length c.bytes < max_inspect_body_bytes e

pub append_chunk-none :
    (e : Env) (c : Chunk) (w : World) → length c.bytes ≡ 0 → append_chunk e c w ≡ (ok tt, w)
unfolding append_chunk
append_chunk-none e c w z = rw z

pub append_chunk-some :
    (e : Env) (c : Chunk) (w : World)
    → 0 < length c.bytes
    → append_chunk e c w ≡ (
        if e.raises (insert_body c.bytes ∷ w.trace)
        then (raised, record w { trace = insert_body c.bytes ∷ w.trace })
        else (ok tt, appended c w))
unfolding append_chunk
append_chunk-some e c w p =
    let more : ltb 0 (length c.bytes) ≡ true = ground arith in rw more (ground arith)

end_body-none : (e : Env) (w : World) → (end_body e w).0 ≢ ok none
unfolding end_body
end_body-none e w h = ground arith

-- The chunk ends the body, whatever it appended.
judge_chunk-none :
    (e : Env) (c : Chunk) (w : World)
    → (judge_chunk e c w).0 ≡ ok none
    → ((judge_chunk e c w).1 ≡ w)
      × (is_eof c ≡ false)
      × (c.hr.failed ≡ false)
      × (has_declared w ≡ false)
      × (is_capped e w ≡ false)
unfolding judge_chunk log_cap
judge_chunk-none e c w h = ground (arith, end_body-none e w, end_body-none e (cap_noted w))

-- When another read is asked for, the chunk had at least one byte and no error, the body with it is
-- below the cap and below the declared length where one was declared, and nothing changed but that
-- the body has the chunk's bytes at its end, and the trace their insertion.
pub consume_body_chunk-none :
    (e : Env) (c : Chunk) (w : World)
    → (consume_body_chunk e c w).0 ≡ ok none
    → ((consume_body_chunk e c w).1 ≡ appended c w) × WantsMore e c w
unfolding consume_body_chunk
consume_body_chunk-none e c w h = elim (Bool-cases (ltb 0 (length c.bytes))) [
  | inl more ↦ ground (
    arith,
    append_chunk-some e c w (ltb→lt 0 (length c.bytes) more),
    judge_chunk-none e c (appended c w),
    length-append w.rsc.body c.bytes,
  )
  | inr empty ↦ ground (arith, append_chunk-none e c w, judge_chunk-none e c w)
]

-- A chunk that wants more asks for another read, unless its bytes cannot be stored.
consume_body_chunk-more :
    (e : Env) (c : Chunk) (w : World)
    → WantsMore e c w
    → e.raises (insert_body c.bytes ∷ w.trace) ≡ false
    → consume_body_chunk e c w ≡ (ok none, appended c w)
unfolding consume_body_chunk judge_chunk
consume_body_chunk-more e c w h calm =
    ground (arith, append_chunk-some e c w h.not_empty, length-append w.rsc.body c.bytes)

-- Ending the body marks it done and is the verdict of `FinishBodyRead` on what was read: it never
-- asks for another read, never pends, leaves no loop unfinished, and runs phase 2 at most once.
pub end_body_total :
    (e : Env) (w : World)
    → let (r, w') = end_body e w in
      (r ≢ stuck)
      × (r ≢ ok none)
      × (r ≢ ok (some rq_pending))
      × (request_phases w'.trace ≤ suc (request_phases w.trace))
      × (w'.rsc.body_read_state ≡ brs_done)
      × (w'.rsc.body ≡ w.rsc.body)
      × (w'.reads ≡ w.reads)
      × (w'.stored ≡ w.stored)
unfolding end_body
end_body_total e w = ground (
  arith,
  finish_body_read_total e (record w { rsc = record (w.rsc) { body_read_state = brs_done } }),
)

cap_noted_frame :
    (w : World)
    → (request_phases (cap_noted w).trace ≡ request_phases w.trace)
      × ((cap_noted w).rsc ≡ w.rsc)
      × ((cap_noted w).reads ≡ w.reads)
      × ((cap_noted w).stored ≡ w.stored)
cap_noted_frame w = ground arith

judge_chunk_total :
    (e : Env) (c : Chunk) (w : World)
    → let (r, w') = judge_chunk e c w in
      (r ≢ stuck)
      × (r ≢ ok (some rq_pending))
      × (request_phases w'.trace ≤ suc (request_phases w.trace))
      × ((r ≡ ok none) ⊎ (w'.rsc.body_read_state ≡ brs_done))
      × (w'.rsc.body ≡ w.rsc.body)
      × (w'.reads ≡ w.reads)
      × (w'.stored ≡ w.stored)
unfolding judge_chunk log_cap
judge_chunk_total e c w =
    ground (arith, end_body_total e w, end_body_total e (cap_noted w), cap_noted_frame w)

-- One chunk, however it ends.
pub consume_body_chunk_total :
    (e : Env) (c : Chunk) (w : World)
    → let (r, w') = consume_body_chunk e c w in
      (r ≢ stuck)
      × (r ≢ ok (some rq_pending))
      × (request_phases w'.trace ≤ suc (request_phases w.trace))
      × ((request_phases w'.trace ≡ request_phases w.trace) ⊎ (w'.rsc.body_read_state ≡ brs_done))
      × ((w'.rsc.body_read_state ≡ w.rsc.body_read_state) ⊎ (w'.rsc.body_read_state ≡ brs_done))
      × (length w'.rsc.body ≤ length w.rsc.body + length c.bytes)
      × (w'.reads ≡ w.reads)
      × (w'.stored ≡ w.stored)
unfolding consume_body_chunk
consume_body_chunk_total e c w = elim (Bool-cases (ltb 0 (length c.bytes))) [
  | inl more ↦ ground (
    arith,
    append_chunk-some e c w (ltb→lt 0 (length c.bytes) more),
    judge_chunk_total e c (appended c w),
    judge_chunk-none e c (appended c w),
    length-append w.rsc.body c.bytes,
  )
  | inr empty ↦
      ground (arith, append_chunk-none e c w, judge_chunk_total e c w, judge_chunk-none e c w)
]
