-- ===== src/Body/Threads/Owner.antt =====
-- One thread at a time has the request: the invariant of the machine.
use mod_security_iis.Prelude.{
  ℕ, ◌≡◌, ◌≢◌, ◌∙◌, sym, ap, refl, ◌⊎◌, inl, inr, Bool, true, false, Option, none, some, arith,
}
use mod_security_iis.System.{
  Chunk, Env, World, Status, Trace, Result, ok, raised, stuck, brs_idle, brs_read_pending,
}
use mod_security_iis.Body.{consume_body_chunk, pump_loop, is_read_pending}
use mod_security_iis.Body.Chunks.{consume_body_chunk_total}
use mod_security_iis.Body.Loops.{go_on, pump_loop-inline}
use mod_security_iis.Body.Threads.{
  Shared, Pc, away, entering, publishing, issuing, leaving, resetting, consuming, claiming,
  with_state, counted, after_chunk, Move, enter, give_up, publish, pend, inline, leave, reset,
  ask_more, end, throw, claim, ignore,
}
use mod_security_iis.Body.Threads.Rounds.{chunk_of, Rounds, round, Tracked, Rounds-Tracked}

-- The thread has nothing of the request any more.
abbrev pub IsAway : Pc → Type 0
IsAway away = Unit
IsAway leaving = Unit
IsAway p = ⊥

-- So is a thread with a completion, once the body phase has ended.
abbrev pub IsLate : Pc → Type 0
IsLate (claiming c) = Unit
IsLate p = IsAway p

-- The read of the world `v` has pended, and its completion brings `c`.
pub record Pends (e : Env) (w : World) (c : Chunk) (u : World) : Type 0 where
  pub v : World
  pub rounds : Rounds e w v
  pub world : u ≡ with_state brs_read_pending (counted v)
  pub chunk : c ≡ chunk_of e v

-- What a thread that has the request knows of the shared world.
abbrev pub Knows : Env → World → World → Pc → Type 0
Knows e w u entering = Rounds e w u
Knows e w u publishing = Rounds e w u
Knows e w u issuing = (v : World) × Rounds e w v × (u ≡ with_state brs_read_pending v)
Knows e w u (resetting c) = Pends e w c u
Knows e w u (consuming b c) = (v : World) × Rounds e w v × (u ≡ counted v) × (c ≡ chunk_of e v)
Knows e w u (claiming c) = Pends e w c u
Knows e w u p = ⊥

-- The body phase has ended as the synchronous loop ends it.
pub record Ended (e : Env) (w : World) (r : Result Status) (u : World) : Type 0 where
  pub v : World
  pub rounds : Rounds e w v
  pub last : pump_loop false 1 e v ≡ (r, u)
  pub not_stuck : r ≢ stuck
  pub claimed : is_read_pending u.rsc.body_read_state ≡ false

pub IsAway-cases : (p : Pc) → IsAway p → (p ≡ away) ⊎ (p ≡ leaving)
IsAway-cases away a = inl refl
IsAway-cases leaving a = inr refl
IsAway-cases entering a = absurd a
IsAway-cases publishing a = absurd a
IsAway-cases issuing a = absurd a
IsAway-cases (resetting c) a = absurd a
IsAway-cases (consuming b c) a = absurd a
IsAway-cases (claiming c) a = absurd a

-- A thread that has nothing only leaves.
pub away-moves :
    {e : Env} {s t : Shared} {p q : Pc} → IsAway p → Move e s p t q → (t ≡ s) × (q ≡ away)
away-moves a (enter h) = absurd a
away-moves a (give_up h) = absurd a
away-moves a publish = absurd a
away-moves a (pend h) = absurd a
away-moves a (inline h) = absurd a
away-moves a leave = (refl, refl)
away-moves a reset = absurd a
away-moves a (ask_more h) = absurd a
away-moves a (end h) = absurd a
away-moves a (throw h) = absurd a
away-moves a (claim h) = absurd a
away-moves a (ignore h) = absurd a

-- After the body phase a completion is ignored.
pub late-moves :
    {e : Env} {s t : Shared} {p q : Pc}
    → is_read_pending s.world.rsc.body_read_state ≡ false
    → IsLate p
    → Move e s p t q
    → (t ≡ s) × (q ≡ away)
late-moves free a (enter h) = absurd a
late-moves free a (give_up h) = absurd a
late-moves free a publish = absurd a
late-moves free a (pend h) = absurd a
late-moves free a (inline h) = absurd a
late-moves free a leave = (refl, refl)
late-moves free a reset = absurd a
late-moves free a (ask_more h) = absurd a
late-moves free a (end h) = absurd a
late-moves free a (throw h) = absurd a
late-moves free a (claim h) = absurd (ground arith)
late-moves free a (ignore h) = (refl, refl)

-- What the move of the thread that has the request leads to: it has it still, it waits for IIS, or
-- the body phase is over.
pub data Next (e : Env) (w : World) (t : Shared) (q : Pc) : Type 0 where
  keeps : t.outstanding ≡ none → t.settled ≡ none → Knows e w t.world q → Next e w t q
  waits :
      (c : Chunk)
      → IsAway q
      → t.outstanding ≡ some c
      → t.settled ≡ none
      → Pends e w c t.world
      → Next e w t q
  settles :
      (r : Result Status)
      → IsLate q
      → t.outstanding ≡ none
      → t.settled ≡ some r
      → Ended e w r t.world
      → Next e w t q

-- A chunk that did not ask for more ended the body phase.
consumed-Ended :
    {e : Env} {w : World} (v : World) {u : World} {r : Result (Option Status)} (q : Result Status)
    → v.rsc.body_read_state ≡ brs_idle
    → Rounds e w v
    → consume_body_chunk e (chunk_of e v) (counted v) ≡ (r, u)
    → ((f : ℕ) → go_on false f e (r, u) ≡ (q, u))
    → q ≢ stuck
    → r ≢ ok none
    → Ended e w q u
consumed-Ended {e} v q idle rounds ran ends not_stuck no_more = record {
  v = v;
  rounds = rounds;
  last = pump_loop-inline false 0 e v refl ∙ ap (go_on false 0 e) ran ∙ ends 0;
  not_stuck = not_stuck;
  claimed = ground (arith, ran, consume_body_chunk_total e (chunk_of e v) (counted v));
}

module _ (e : Env) (w : World) (has : (t : Trace) → e.has_request t ≡ true)
    (tracked : Tracked w) where
  after_consumed : (b : Bool) (u : World) → Rounds e w u → Knows e w u (after_chunk b)
  after_consumed true u r = r
  after_consumed false u r = r

  -- A read that was pended is consumed as an inline one.
  reclaimed :
      (b : Bool) {c : Chunk} {u : World}
      → Pends e w c u
      → Knows e w (with_state brs_idle u) (consuming b c)
  reclaimed b {c} {u} k = (k.v, k.rounds, same, k.chunk)
    where
      same : with_state brs_idle u ≡ counted k.v
      same =
          let idle = (Rounds-Tracked k.rounds tracked).idle in
          ap (with_state brs_idle) k.world ∙ ap (λ b. with_state b (counted k.v)) (sym idle)

  pub owner-moves :
      {s t : Shared} {p q : Pc}
      → s.outstanding ≡ none
      → s.settled ≡ none
      → Move e s p t q
      → Knows e w s.world p
      → Next e w t q
  owner-moves {s} out settled (enter h) k = keeps out settled k
  owner-moves {s} out settled (give_up h) k = absurd (ground (arith, has s.world.trace))
  owner-moves {s} out settled publish k = keeps out settled (s.world, k, refl)
  owner-moves {s} out settled (pend h) (v, r, u) =
      waits (e.read s.world.reads).chunk tt refl settled
        (record { v = v; rounds = r; world = ap counted u; chunk = ap (chunk_of e) u })
  owner-moves {s} out settled (inline h) (v, r, u) =
      keeps out settled
        (record { v = v; rounds = r; world = ap counted u; chunk = ap (chunk_of e) u })
  owner-moves out settled leave k = absurd k
  owner-moves out settled reset k = keeps out settled (reclaimed false k)
  owner-moves {s} out settled (ask_more {b} h) (v, r, u, c) =
      keeps out settled (after_consumed b _ (round r (rw (u, c) at h)))
  owner-moves {s} out settled (end {t} h) (v, r, u, c) = settles (ok t) tt out refl (
      consumed-Ended v (ok t) (Rounds-Tracked r tracked).idle r (rw (u, c) at h) (λ f. refl)
        (λ p. ground arith) (λ p. ground arith))
  owner-moves {s} out settled (throw h) (v, r, u, c) = settles raised tt out refl (
      consumed-Ended v raised (Rounds-Tracked r tracked).idle r (rw (u, c) at h) (λ f. refl)
        (λ p. ground arith) (λ p. ground arith))
  owner-moves out settled (claim h) k = keeps out settled (reclaimed true k)
  owner-moves out settled (ignore h) k =
      absurd (ground (arith, k.world, Rounds-Tracked k.rounds tracked))
