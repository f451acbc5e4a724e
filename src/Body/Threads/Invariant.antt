-- ===== src/Body/Threads/Invariant.antt =====
-- One thread at a time has the request: the invariant of the machine and its steps.
use mathlib.Core.Path.{subst}
use mod_security_iis.Prelude.{
  ℕ, ◌≡◌, ◌≢◌, sym, refl, inl, inr, true, none, some, arith, Bool-cases, ◌==◌,
}
use mod_security_iis.System.{Chunk, Env, World, Status, Trace, Result}
use mod_security_iis.Body.Threads.{
  Shared, Pc, away, claiming, Move, Machine, update, pick, complete, foreign, first_pc, Reach, here,
  later,
}
use mod_security_iis.Body.Threads.Rounds.{head, Tracked}
use mod_security_iis.Body.Threads.Owner.{
  IsAway, IsAway-cases, IsLate, Pends, Knows, Ended, away-moves, late-moves, Next, keeps, waits,
  settles, owner-moves,
}

-- One thread has the request, or none has and IIS is to complete its read, or the body is over.
pub data Inv (e : Env) (w : World) (s : Shared) (pc : ℕ → Pc) : Type 0 where
  owned :
      (k : ℕ)
      → s.outstanding ≡ none
      → s.settled ≡ none
      → Knows e w s.world (pc k)
      → ((j : ℕ) → j ≢ k → IsAway (pc j))
      → Inv e w s pc
  awaiting :
      (c : Chunk)
      → s.outstanding ≡ some c
      → s.settled ≡ none
      → Pends e w c s.world
      → ((j : ℕ) → IsAway (pc j))
      → Inv e w s pc
  ended :
      (r : Result Status)
      → s.outstanding ≡ none
      → s.settled ≡ some r
      → Ended e w r s.world
      → ((j : ℕ) → IsLate (pc j))
      → Inv e w s pc

pub update-hit : (pc : ℕ → Pc) (i : ℕ) (p : Pc) → update pc i p i ≡ p
update-hit pc i p = ground arith

pub update-each :
    (Q : ℕ → Pc → Type 0) (pc : ℕ → Pc) (i : ℕ) (p : Pc)
    → Q i p
    → ((j : ℕ) → j ≢ i → Q j (pc j))
    → (j : ℕ) → Q j (update pc i p j)
update-each Q pc i p new old j = elim (Bool-cases (i == j)) [
  | inl same ↦
      let i≡j : i ≡ j = ground arith in
      subst (Q j) (sym (ground arith)) (subst (λ k. Q k p) i≡j new)
  | inr other ↦ subst (Q j) (sym (ground arith)) (old j (λ same. ground arith))
]

pub IsAway-IsLate : (p : Pc) → IsAway p → IsLate p
IsAway-IsLate p a = elim (IsAway-cases p a) [
  | inl gone ↦ subst IsLate (sym gone) tt
  | inr left ↦ subst IsLate (sym left) tt
]

module _ (e : Env) (w : World) (has : (t : Trace) → e.has_request t ≡ true)
    (tracked : Tracked w) where
  -- The thread that has the request moves.
  owner-Inv :
      (s t : Shared) (pc : ℕ → Pc) (k : ℕ) (q : Pc)
      → ((j : ℕ) → j ≢ k → IsAway (pc j))
      → Next e w t q
      → Inv e w t (update pc k q)
  owner-Inv s t pc k q others (keeps out going knows) =
      owned k out going (subst (Knows e w t.world) (sym (update-hit pc k q)) knows)
        (update-each (λ j p. j ≢ k → IsAway p) pc k q (λ h. absurd (h refl)) (λ j h. others j))
  owner-Inv s t pc k q others (waits c a out going pends) =
      awaiting c out going pends (update-each (λ j. IsAway) pc k q a others)
  owner-Inv s t pc k q others (settles r a out shut done) =
      ended r out shut done
        (update-each (λ j. IsLate) pc k q a (λ j h. IsAway-IsLate (pc j) (others j h)))

  pick-Inv :
      (s t : Shared) (pc : ℕ → Pc) (i : ℕ) (q : Pc)
      → Inv e w s pc
      → Move e s (pc i) t q
      → Inv e w t (update pc i q)
  pick-Inv s t pc i q (owned k out going knows others) move = elim (Bool-cases (i == k)) [
    | inl same ↦
        let i≡k : i ≡ k = ground arith in
        owner-Inv s t pc i q (subst (λ n. (j : ℕ) → j ≢ n → IsAway (pc j)) (sym i≡k) others) (
          owner-moves e w has tracked out going move
            (subst (λ n. Knows e w s.world (pc n)) (sym i≡k) knows))
    | inr other ↦
        let i≢k : i ≢ k = λ same. ground arith in
        let (t≡s, q≡away) = away-moves (others i i≢k) move in
        rw (t≡s, q≡away)
          (owned k out going
            (update-each (λ j p. j ≡ k → Knows e w s.world p) pc i away (λ h. absurd (i≢k h))
              (λ j h same. subst (λ n. Knows e w s.world (pc n)) (sym same) knows) k refl)
            (update-each (λ j p. j ≢ k → IsAway p) pc i away (λ h. tt) (λ j h. others j)))
  ]
  pick-Inv s t pc i q (awaiting c out going pends all) move =
      let (t≡s, q≡away) = away-moves (all i) move in
      rw (t≡s, q≡away)
        (awaiting c out going pends (update-each (λ j. IsAway) pc i away tt (λ j h. all j)))
  pick-Inv s t pc i q (ended r out shut done all) move =
      let (t≡s, q≡away) = late-moves done.claimed (all i) move in
      rw (t≡s, q≡away)
        (ended r out shut done (update-each (λ j. IsLate) pc i away tt (λ j h. all j)))

  complete-Inv :
      (s : Shared) (pc : ℕ → Pc) (i : ℕ) (c : Chunk)
      → Inv e w s pc
      → s.outstanding ≡ some c
      → Inv e w (record s { outstanding = none }) (update pc i (claiming c))
  complete-Inv s pc i c (owned k out going knows others) h = absurd (ground arith)
  complete-Inv s pc i c (awaiting d out going pends all) h =
      let d≡c : d ≡ c = ground arith in
      owned i refl going
        (subst (Knows e w s.world) (sym (update-hit pc i (claiming c)))
          (subst (λ x. Pends e w x s.world) d≡c pends))
        (update-each (λ j p. j ≢ i → IsAway p) pc i (claiming c) (λ h. absurd (h refl))
          (λ j h h'. all j))
  complete-Inv s pc i c (ended r out shut done all) h = absurd (ground arith)

  foreign-Inv :
      (s : Shared) (pc : ℕ → Pc) (i : ℕ) (c : Chunk) (r : Result Status)
      → Inv e w s pc
      → s.settled ≡ some r
      → Inv e w s (update pc i (claiming c))
  foreign-Inv s pc i c r (owned k out going knows others) h = absurd (ground arith)
  foreign-Inv s pc i c r (awaiting d out going pends all) h = absurd (ground arith)
  foreign-Inv s pc i c r (ended q out shut done all) h =
      ended q out shut done (update-each (λ j. IsLate) pc i (claiming c) tt (λ j h'. all j))

  pub Reach-Inv : {m : Machine} → Reach e w m → Inv e w m.shared m.pc
  Reach-Inv here = owned 0 refl refl head (λ j h. subst IsAway (sym (not_first j h)) tt)
    where
      not_first : (j : ℕ) → j ≢ 0 → first_pc j ≡ away
      not_first j h = ground arith
  Reach-Inv (later {m} r (pick i move)) = pick-Inv m.shared _ m.pc i _ (Reach-Inv r) move
  Reach-Inv (later {m} r (complete i {c} free out)) =
      complete-Inv m.shared m.pc i c (Reach-Inv r) out
  Reach-Inv (later {m} r (foreign i c v free shut)) =
      foreign-Inv m.shared m.pc i c v (Reach-Inv r) shut
