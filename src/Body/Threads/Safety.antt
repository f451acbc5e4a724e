-- ===== src/Body/Threads/Safety.antt =====
-- However the threads interleave, one at a time has the request, and the body phase ends as the
-- synchronous loop ends it.
use mathlib.Core.Path.{subst}
use mod_security_iis.Prelude.{
  ℕ, ◌≡◌, ◌≢◌, ◌∙◌, sym, inl, inr, true, false, none, some, arith, Bool-cases, ◌==◌,
}
use mod_security_iis.System.{Env, World, Status, Trace, Result}
use mod_security_iis.Body.{pump_loop, pump_fuel}
use mod_security_iis.Body.Threads.{
  Shared, Pc, away, entering, publishing, issuing, leaving, resetting, consuming, claiming, Machine,
  Reach,
}
use mod_security_iis.Body.Threads.Rounds.{Rounds-pump_loop, pump_loop-one, Tracked}
use mod_security_iis.Body.Threads.Owner.{IsAway, IsLate, Ended}
use mod_security_iis.Body.Threads.Invariant.{Inv, owned, awaiting, ended, IsAway-IsLate, Reach-Inv}

-- The thread is in PumpBodyRead or ConsumeBodyChunk and has still to touch the stored context, the
-- body or the read buffer. One whose read has pended (`leaving`) has only to return from
-- PumpBodyRead and touches none of them any more.
abbrev pub IsUsing : Pc → Type 0
IsUsing entering = Unit
IsUsing publishing = Unit
IsUsing issuing = Unit
IsUsing (resetting c) = Unit
IsUsing (consuming b c) = Unit
IsUsing p = ⊥

IsLate-IsUsing : (p : Pc) → IsLate p → IsUsing p → ⊥
IsLate-IsUsing away a h = absurd h
IsLate-IsUsing leaving a h = absurd h
IsLate-IsUsing entering a h = absurd a
IsLate-IsUsing publishing a h = absurd a
IsLate-IsUsing issuing a h = absurd a
IsLate-IsUsing (resetting c) a h = absurd a
IsLate-IsUsing (consuming b c) a h = absurd a
IsLate-IsUsing (claiming c) a h = absurd h

alone : (pc : ℕ → Pc) {k : ℕ} (i : ℕ) → ((j : ℕ) → j ≢ k → IsAway (pc j)) → IsUsing (pc i) → i ≡ k
alone pc {k} i others runs = elim (Bool-cases (i == k)) [
  | inl same ↦ ground arith
  | inr other ↦
      let away = others i (λ same. ground arith) in
      absurd (IsLate-IsUsing (pc i) (IsAway-IsLate (pc i) away) runs)
]

Inv-exclusive :
    {e : Env} {w : World} {s : Shared} {pc : ℕ → Pc} (i j : ℕ)
    → Inv e w s pc
    → IsUsing (pc i)
    → IsUsing (pc j)
    → (i ≡ j) × (s.outstanding ≡ none)
Inv-exclusive {pc} i j (owned k out going knows others) a b =
    (alone pc i others a ∙ sym (alone pc j others b), out)
Inv-exclusive {pc} i j (awaiting c out going pends all) a b =
    absurd (IsLate-IsUsing (pc i) (IsAway-IsLate (pc i) (all i)) a)
Inv-exclusive {pc} i j (ended r out shut done all) a b = absurd (IsLate-IsUsing (pc i) (all i) a)

Inv-settled :
    {e : Env} {w : World} {s : Shared} {pc : ℕ → Pc} (r : Result Status)
    → Inv e w s pc
    → s.settled ≡ some r
    → Ended e w r s.world
Inv-settled r (owned k out going knows others) h = absurd (ground arith)
Inv-settled r (awaiting c out going pends all) h = absurd (ground arith)
Inv-settled {e} {w} {s} r (ended q out shut done all) h =
    let q≡r : q ≡ r = ground arith in subst (λ x. Ended e w x s.world) q≡r done

module _ {e : Env} {w : World} (has : (t : Trace) → e.has_request t ≡ true)
    (tracked : Tracked w) where
  -- While IIS has the request, and for a stored context with an open transaction and no read
  -- begun, where completions of other modules come only after the body phase: however the reading
  -- thread, the completions and the other threads interleave, no two threads are at once in
  -- PumpBodyRead or ConsumeBodyChunk with an access of the stored context, the body or the read
  -- buffer still to come, and none is while a read is outstanding. A thread whose read has
  -- pended has only to return from PumpBodyRead, and may be there beside another one. So the
  -- read buffer and the body have one user at a time.
  pub Reach-exclusive :
      {m : Machine} (i j : ℕ)
      → Reach e w m
      → IsUsing (m.pc i)
      → IsUsing (m.pc j)
      → (i ≡ j) × (m.shared.outstanding ≡ none)
  Reach-exclusive i j reach = Inv-exclusive i j (Reach-Inv e w has tracked reach)

  -- While IIS has the request, and for a stored context with an open transaction and no read
  -- begun, where completions of other modules come only after the body phase: when the body phase
  -- has ended, by whichever interleaving, its result and the request's world are those of the loop
  -- that reads everything synchronously on one thread.
  pub Reach-pump_loop :
      {m : Machine} (r : Result Status)
      → Reach e w m
      → m.shared.settled ≡ some r
      → pump_loop false (pump_fuel e) e w ≡ (r, m.shared.world)
  Reach-pump_loop {m} r reach shut =
      let done = Inv-settled r (Reach-Inv e w has tracked reach) shut in
      let (f, same) = Rounds-pump_loop 1 done.rounds in
      pump_loop-one f e w (r, m.shared.world) tracked.idle (same ∙ done.last) done.not_stuck
