-- ===== src/Intervention/Laws.antt =====
-- What `FinishRequest` leaves, and when response bodies may be blocked.
use mod_security_iis.Prelude.{
  ℕ, ◌≡◌, ◌↔◌, true, false, none, some, ◌∷◌, arith, Option-cases, inl, inr,
}
use mod_security_iis.System.{
  Env, World, ok, process_logging, delete_transaction, log_event, finalize_failed,
}
use mod_security_iis.Intervention.{finish_request, response_body_blocking_enabled}

-- Finalizing a request never throws, drops the transaction and the rules, and leaves the rest of
-- the request's state; an open transaction is logged exactly once and is freed unless the logging
-- throws, and without one nothing is called.
pub finish_request_lem :
    (e : Env) (w : World)
    → let (r, w') = finish_request e w in
      (r ≡ ok tt)
      × (w'.rsc ≡ record (w.rsc) { tx = false; rules = none })
      × (w'.trace ≡ (elim w.rsc.tx [
        | false ↦ w.trace
        | true ↦ elim (e.raises (process_logging ∷ w.trace)) [
          | false ↦ delete_transaction ∷ process_logging ∷ w.trace
          | true ↦ log_event finalize_failed ∷ process_logging ∷ w.trace
        ]
      ]))
unfolding finish_request
finish_request_lem e w = ground arith

-- Finalizing twice, as CleanupStoredContext and the destructor do, is finalizing once.
pub finish_request_idem :
    (e : Env) (w : World) → let w' = (finish_request e w).1 in finish_request e w' ≡ (ok tt, w')
unfolding finish_request
finish_request_idem e w = ground arith

-- Response bodies may be blocked exactly when the transaction is open, the IIS switch is on, the
-- rule set has SecResponseBodyAccess On, and the rule engine is Enabled.
pub response_body_blocking_enabled_iff :
    (e : Env) (w : World)
    → (response_body_blocking_enabled e w ≡ true)
      ↔ (w.rsc.tx ≡ true)
        × (w.rsc.response_body_block ≡ true)
        × ((r : ℕ) × (w.rsc.rules ≡ some r) × (e.response_body_access r ≡ true))
        × (e.rule_engine_enabled w.trace ≡ true)
unfolding response_body_blocking_enabled
response_body_blocking_enabled_iff e w = elim (Option-cases w.rsc.rules) [
  | inl absent ↦ (λ h. absurd (ground arith), λ h. absurd (ground arith))
  | inr (r, known) ↦
      (λ h. (ground arith, ground arith, (r, known, ground arith), ground arith), λ h. ground arith)
]
