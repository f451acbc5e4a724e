-- ===== src/Body/Threads/Liveness.antt =====
-- No completion is lost: from wherever the threads stand, the body phase can be brought to its end.
use mathlib.Core.Path.{subst}
use mod_security_iis.Prelude.{
  ℕ, zero, suc, ◌+◌, ◌*◌, ◌-◌, ◌<◌, ◌≡◌, ◌≢◌, ◌∙◌, sym, ap, refl, inl, inr, Bool, true, false,
  Option, none, some, arith, Bool-cases, length, length-append,
}
use mod_security_iis.System.{Chunk, Env, World, Status, Trace, Result, ok, raised, stuck}
use mod_security_iis.Settings.{max_inspect_body_bytes}
use mod_security_iis.Body.{consume_body_chunk}
use mod_security_iis.Body.Chunks.{consume_body_chunk-none, consume_body_chunk_total}
use mod_security_iis.Body.Threads.{
  Shared, Pc, away, entering, publishing, issuing, leaving, resetting, consuming, claiming,
  after_chunk, Move, enter, publish, pend, inline, leave, reset, ask_more, end, throw, claim,
  Machine, update, Step, pick, complete, Reach,
}
use mod_security_iis.Body.Threads.Rounds.{Tracked, Rounds-Tracked}
use mod_security_iis.Body.Threads.Owner.{
  IsAway, IsAway-cases, Knows, Next, keeps, waits, settles, owner-moves,
}
use mod_security_iis.Body.Threads.Invariant.{
  Inv, owned, awaiting, ended, update-hit, update-each, Reach-Inv,
}

-- Moves to the next read.
rank : Pc → ℕ
rank entering = 7
rank publishing = 6
rank issuing = 5
rank leaving = 4
rank away = 3
rank (claiming c) = 2
rank (resetting c) = 2
rank (consuming b c) = 1

-- Each further read adds a byte to a body below the cap.
cost : Env → World → Pc → ℕ
cost e u p = 10 * (max_inspect_body_bytes e - length u.rsc.body) + rank p

-- A move that ends the body phase, or costs something.
record Progress (e : Env) (s : Shared) (p : Pc) : Type 0 where
  t : Shared
  q : Pc
  move : Move e s p t q
  cheaper : t.settled ≡ none → cost e t.world q < cost e s.world p

after_chunk-rank : (b : Bool) → rank (after_chunk b) < 8
unfolding rank
after_chunk-rank true = ground arith
after_chunk-rank false = ground arith

consuming-Progress :
    (e : Env) (s : Shared) (b : Bool) (c : Chunk) (r : Result (Option Status)) (u : World)
    → consume_body_chunk e c s.world ≡ (r, u)
    → Progress e s (consuming b c)
unfolding cost rank
consuming-Progress e s b c (ok none) u ran = record {
  t = record s { world = u };
  q = after_chunk b;
  move = ask_more ran;
  cheaper = λ going.
      let (same, wants) = consume_body_chunk-none e c s.world (ap (λ x. x.0) ran) in
      let size : length u.rsc.body ≡ length s.world.rsc.body + length c.bytes =
        ap (λ (v : World). length v.rsc.body) (sym (ap (λ x. x.1) ran) ∙ same)
        ∙ length-append s.world.rsc.body c.bytes in
      omega (arith, size, wants.not_empty, wants.below_cap, after_chunk-rank b);
}
consuming-Progress e s b c (ok (some t)) u ran = record {
  t = record s { world = u; settled = some (ok t) };
  q = away;
  move = end ran;
  cheaper = λ going. absurd (ground arith);
}
consuming-Progress e s b c raised u ran = record {
  t = record s { world = u; settled = some raised };
  q = away;
  move = throw ran;
  cheaper = λ going. absurd (ground arith);
}
consuming-Progress e s b c stuck u ran =
    absurd ((consume_body_chunk_total e c s.world).0 (ap (λ x. x.0) ran))

-- Steps from one machine to another.
pub data After (e : Env) : Machine → Machine → Type 0 where
  nothing : {m : Machine} → After e m m
  next : {m n o : Machine} → Step e m n → After e n o → After e m o

-- The body phase can be brought to its end.
pub record Settles (e : Env) (m : Machine) : Type 0 where
  pub last : Machine
  pub result : Result Status
  pub steps : After e m last
  pub ends : last.shared.settled ≡ some result

first-Settles : {e : Env} {m n : Machine} → Step e m n → Settles e n → Settles e m
first-Settles step s = record {
  last = s.last;
  result = s.result;
  steps = next step s.steps;
  ends = s.ends;
}

update-IsAway :
    (pc : ℕ → Pc) (k : ℕ) (p : Pc)
    → ((j : ℕ) → j ≢ k → IsAway (pc j))
    → (j : ℕ) → j ≢ k
    → IsAway (update pc k p j)
update-IsAway pc k p others =
    update-each (λ j x. j ≢ k → IsAway x) pc k p (λ h. absurd (h refl)) (λ j h h'. others j h')

module _ (e : Env) (w : World) (has : (t : Trace) → e.has_request t ≡ true)
    (tracked : Tracked w) where
  progress : (s : Shared) (p : Pc) → Knows e w s.world p → Progress e s p
  unfolding cost rank
  progress s entering k = record {
    t = s;
    q = publishing;
    move = enter (has s.world.trace);
    cheaper = λ going. omega arith;
  }
  progress s publishing k = record {
    t = _;
    q = issuing;
    move = publish;
    cheaper = λ going. ground arith;
  }
  progress s issuing k = elim (Bool-cases (e.read s.world.reads).pending) [
    | inl pends ↦ record { t = _; q = leaving; move = pend pends; cheaper = λ going. ground arith }
    | inr now ↦ record {
      t = _;
      q = resetting _;
      move = inline now;
      cheaper = λ going. ground arith;
    }
  ]
  progress s (resetting c) k = record {
    t = _;
    q = consuming false c;
    move = reset;
    cheaper = λ going. ground arith;
  }
  progress s (consuming b c) k =
      let (r, u) = consume_body_chunk e c s.world in consuming-Progress e s b c r u refl
  progress s (claiming c) k = record {
    t = _;
    q = consuming true c;
    move = claim (ground (arith, k.world, Rounds-Tracked k.rounds tracked));
    cheaper = λ going. ground arith;
  }
  progress s leaving k = absurd k
  progress s away k = absurd k

  run :
      (n : ℕ) (t : Shared) (pc : ℕ → Pc) (k : ℕ) (q : Pc)
      → pc k ≡ q
      → ((j : ℕ) → j ≢ k → IsAway (pc j))
      → Next e w t q
      → (t.settled ≡ none → cost e t.world q < n)
      → Settles e (record { shared = t; pc = pc })
  unfolding cost rank
  run n t pc k q at_q others (settles r a out shut done) bound = record {
    last = record { shared = t; pc = pc };
    result = r;
    steps = nothing;
    ends = shut;
  }
  run zero t pc k q at_q others (keeps out going knows) bound = absurd (omega (arith, bound going))
  run (suc n) t pc k q at_q others (keeps out going knows) bound =
      let g = progress t q knows in
      first-Settles (pick k (subst (λ p. Move e t p g.t g.q) (sym at_q) g.move)) (
        run n g.t (update pc k g.q) k g.q (update-hit pc k g.q) (update-IsAway pc k g.q others)
          (owner-moves e w has tracked out going g.move knows)
          (λ going'. omega (arith, g.cheaper going', bound going)))
  run zero t pc k q at_q others (waits c a out going pends) bound =
      absurd (omega (arith, bound going))
  run (suc n) t pc k q at_q others (waits c a out going pends) bound = elim (IsAway-cases q a) [
    | inl gone ↦ first-Settles (complete k (at_q ∙ gone) out) (
        run n (record t { outstanding = none }) (update pc k (claiming c)) k (claiming c)
          (update-hit pc k (claiming c)) (update-IsAway pc k (claiming c) others)
          (keeps refl going pends) (λ going'. omega (arith, bound going, ap rank gone)))
    | inr left ↦ first-Settles (pick k (subst (λ p. Move e t p t away) (sym (at_q ∙ left)) leave)) (
        run n t (update pc k away) k away (update-hit pc k away) (update-IsAway pc k away others)
          (waits c tt out going pends) (λ going'. omega (arith, bound going, ap rank left)))
  ]

  Inv-Settles :
      {s : Shared} {pc : ℕ → Pc} → Inv e w s pc → Settles e (record { shared = s; pc = pc })
  Inv-Settles {s} {pc} (owned k out going knows others) =
      run (suc (cost e s.world (pc k))) s pc k (pc k) refl others (keeps out going knows)
        (λ h. omega arith)
  Inv-Settles {s} {pc} (awaiting c out going pends all) =
      run (suc (cost e s.world (pc 0))) s pc 0 (pc 0) refl (λ j h. all j)
        (waits c (all 0) out going pends) (λ h. omega arith)
  Inv-Settles {s} {pc} (ended r out shut done all) = record {
    last = record { shared = s; pc = pc };
    result = r;
    steps = nothing;
    ends = shut;
  }

-- While IIS has the request, and for a stored context with an open transaction and no read begun,
-- where completions of other modules come only after the body phase: wherever the threads stand,
-- some further steps bring the body phase to its end. So in no state that they reach is the
-- completion of a read lost, however soon it was delivered.
pub Reach-Settles :
    {e : Env} {w : World} {m : Machine}
    → ((t : Trace) → e.has_request t ≡ true)
    → Tracked w
    → Reach e w m
    → Settles e m
Reach-Settles has tracked reach = Inv-Settles _ _ has tracked (Reach-Inv _ _ has tracked reach)
