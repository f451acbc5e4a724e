-- ===== src/Intervention.antt =====
-- `ApplyIntervention`, `responseBodyBlockingEnabled` (src/ModSecurityIIS.cpp) and
-- `REQUEST_STORED_CONTEXT::FinishRequest` (src/ModSecurityIIS.h).
pub mod Reasons
pub mod Laws
pub mod Apply
use mod_security_iis.Prelude.{
  ℕ, ◌%◌, ◌^◌, Bool, true, false, not, ◌&&◌, Option, none, some, [], ◌∷◌, leb, ◌==◌, if◌then◌else◌,
  is_empty,
}
use mod_security_iis.System.{
  Bytes, ℤ, pos, negsuc, Intervention, Env, Call, read_intervention, update_status_code,
  process_logging, delete_transaction, set_request_handled, clear, on_response, redirect,
  set_status, log_event, finalize_failed, RequestStoredContext, World, Result, ok, raised, M, ⊤,
  pure, gets, catch, ◌>>=◌, ◌>>◌, modify, note, call, when,
}
use Reasons.{standard_reason}

-- `noexcept`: an exception of the engine is caught, logged, and the transaction dropped unfreed.
unfoldable pub finish_request : Env → M ⊤
finish_request e = do
  tx ← gets (λ w. w.rsc.tx)
  when tx (do
    catch (do call e process_logging; note delete_transaction) (note (log_event finalize_failed))
    modify (λ r. record r { tx = false }))
  modify (λ r. record r { rules = none })

-- `tx->intervention(&it)`
abbrev ask : Env → M (Option Intervention)
ask e = do call e read_intervention; gets (λ w. e.intervention w.trace)

-- An `int` as far as it is positive.
abbrev pub pos_part : ℤ → ℕ
pos_part (pos n) = n
pos_part (negsuc n) = 0

abbrev pub url_of : Intervention → Bytes
url_of it = elim it.url [ none ↦ [] | some s ↦ s ]

abbrev pub keeps_flavor : ℕ → Bool
keeps_flavor s = leb 301 s && leb s 308 && not (s == 302)

abbrev pub block_status : ℕ → ℕ
block_status s = if s == 0 then 403 else s

-- `SetStatus((USHORT)status, StandardReason(status))`
abbrev pub set_status_of : ℕ → Call
set_status_of s = set_status (s % 2 ^ 16) (standard_reason s)

-- Answers with the redirect or the status, and returns finalStatus.
unfoldable pub answer : Bytes → ℕ → M ℕ
answer [] s = do note (set_status_of (block_status s)); pure (block_status s)
answer (c ∷ url) s = do
  note (redirect (c ∷ url))
  when (keeps_flavor s) (note (set_status_of s))
  pure (if keeps_flavor s then s else 302)

unfoldable pub disrupt : Env → Intervention → M Bool
disrupt e it = do
  note (on_response e clear)
  final ← answer (url_of it) (pos_part it.status)
  call e (update_status_code final)
  note set_request_handled
  finish_request e
  pure true

abbrev pub honor : Env → Bool → Option Intervention → M Bool
honor e can_block none = pure false
honor e can_block (some it) = if it.disruptive && can_block then disrupt e it else pure false

-- Returns whether the request is to be finished.
unfoldable pub apply_intervention : Env → Bool → M Bool
apply_intervention e can_block = do
  tx ← gets (λ w. w.rsc.tx)
  if tx then (do honor e can_block (← ask e)) else pure false

abbrev pub access_on : Env → Option ℕ → Bool
access_on e none = false
access_on e (some r) = e.response_body_access r

unfoldable pub response_body_blocking_enabled : Env → World → Bool
response_body_blocking_enabled e w =
    w.rsc.tx
    && (w.rsc.response_body_block && (access_on e w.rsc.rules && e.rule_engine_enabled w.trace))
