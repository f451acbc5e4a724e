-- ===== src/FinishBody.antt =====
-- `FinishBodyRead` (src/ModSecurityIIS.cpp): the drained body goes back to IIS and to the engine.
pub mod Laws
pub mod Verdict
pub mod Copies
use mod_security_iis.Prelude.{
  ℕ, zero, suc, ◌+◌, ◌*◌, ◌%◌, ◌^◌, Bool, true, false, not, ◌&&◌, ◌||◌, Option, none, some, [], ◌∷◌,
  ◌++◌, min, leb, ltb, ◌==◌, if◌then◌else◌, is_empty, length, take,
}
use mod_security_iis.System.{
  Bytes, HResult, Chunk, Env, Call, Site, in_finish_body_read, in_async_completion, exception_in,
  log_event, inspection_cap, insert_entity_body_failed, allocate_failed, append_request_body,
  process_request_body, allocate_request_memory, insert_entity_body, copy_memory, dword, set_status,
  on_response, resize_read_buf, reserve_body, insert_body, RequestStoredContext, BodyReadState,
  brs_idle, brs_read_pending, brs_done, Status, rq_continue, rq_pending, rq_finish_request, World,
  Result, ok, raised, stuck, M, ⊤, pure, gets, catch, ◌>>=◌, ◌>>◌, modify, note, call, when,
  set_body_read_state,
}
use mod_security_iis.Settings.{max_inspect_body_bytes, body_reads_async}
use mod_security_iis.Intervention.{apply_intervention}

-- How the try block of `FinishBodyRead` ended: by an early return, or with restoreFailed.
pub data Restore : Type 0 where
  insert_failed : Restore
  restored : Bool → Restore

-- The body goes back to IIS. Returns `restored true` when the memory for it was refused.
abbrev pub inserted : HResult → M Restore
inserted hr =
    if hr.failed
    then (note (log_event insert_entity_body_failed) >> pure insert_failed)
    else pure (restored false)

abbrev pub hand_over : Env → Bytes → Bool → M Restore
hand_over e body true = do
  note (copy_memory (dword (length body)) (length body))
  note (insert_entity_body (take (dword (length body)) body))
  inserted (← gets (λ w. e.insert_result w.trace))
hand_over e body false = do note (log_event allocate_failed); pure (restored true)

unfoldable pub restore_body : Env → M Restore
restore_body e = do
  has ← gets (λ w. e.has_request w.trace)
  body ← gets (λ w. w.rsc.body)
  if has && not (is_empty body)
      then (do
        note (allocate_request_memory (dword (length body)))
        hand_over e body (← gets (λ w. e.allocate_ok w.trace)))
      else pure (restored false)

-- `appendRequestBody` up to the cap, then `processRequestBody`.
unfoldable pub feed_body : Env → M ⊤
feed_body e = do
  body ← gets (λ w. w.rsc.body)
  when (ltb 0 (min (length body) (max_inspect_body_bytes e)))
      (call e (append_request_body (take (min (length body) (max_inspect_body_bytes e)) body)))
  call e process_request_body

-- What follows the try block.
abbrev pub rule_on : Env → Bool → M Status
rule_on e restore_failed = do
  blocked ← apply_intervention e true
  if blocked
      then pure rq_finish_request
      else (if restore_failed
          then (note (on_response e (set_status 500 "Internal Server Error"))
              >> pure rq_finish_request)
          else pure rq_continue)

-- Whether the try block ran through, with restoreFailed.
unfoldable pub restore_and_feed : Env → M (Option Bool)
restore_and_feed e =
    catch
      (do
        r ← restore_body e
        elim r [
          | insert_failed ↦ pure none
          | restored failed ↦ (feed_body e >> pure (some failed))
        ])
      (note (log_event (exception_in in_finish_body_read)) >> pure none)

unfoldable pub finish_body_read : Env → M Status
finish_body_read e = do
  r ← restore_and_feed e
  elim r [ none ↦ pure rq_finish_request | some failed ↦ rule_on e failed ]
