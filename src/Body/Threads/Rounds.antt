-- ===== src/Body/Threads/Rounds.antt =====
-- The rounds of the synchronous loop, and that its fuel does not matter once it is enough.
use mod_security_iis.Prelude.{
  ℕ, zero, suc, ◌+◌, ◌-◌, ◌≡◌, ◌≢◌, ◌∙◌, sym, ap, refl, inl, inr, true, false, Option, none, some,
  arith, leb, Bool-cases,
}
use mod_security_iis.System.{Chunk, Env, World, Status, Result, ok, raised, stuck, brs_idle}
use mod_security_iis.Body.{consume_body_chunk, pump_loop, pump_fuel}
use mod_security_iis.Body.Chunks.{consume_body_chunk-none}
use mod_security_iis.Body.Loops.{go_on, pump_loop-inline, pump_loop-Ends}
use mod_security_iis.Body.Threads.{counted}

-- One synchronous read, consumed.
abbrev pub chunk_of : Env → World → Chunk
chunk_of e v = (e.read v.reads).chunk

-- The worlds between two reads of the synchronous loop that began in `w`.
pub data Rounds (e : Env) (w : World) : World → Type 0 where
  head : Rounds e w w
  round :
      {v u : World}
      → Rounds e w v
      → consume_body_chunk e (chunk_of e v) (counted v) ≡ (ok none, u)
      → Rounds e w u

-- What the rounds leave alone.
pub record Tracked (w : World) : Type 0 where
  pub idle : w.rsc.body_read_state ≡ brs_idle
  pub stored : w.stored ≡ true
  pub tx : w.rsc.tx ≡ true

pub Rounds-Tracked : {e : Env} {w v : World} → Rounds e w v → Tracked w → Tracked v
Rounds-Tracked head t = t
Rounds-Tracked {e} (round {v} r more) t =
    let t' = Rounds-Tracked r t in
    let same = (consume_body_chunk-none e (chunk_of e v) (counted v) (ap (λ x. x.0) more)).0 in
    ground (arith, same, more, t')

-- A round is one unit of fuel.
pub Rounds-pump_loop :
    {e : Env} {w v : World} (f : ℕ)
    → Rounds e w v
    → (g : ℕ) × (pump_loop false g e w ≡ pump_loop false f e v)
Rounds-pump_loop f head = (f, refl)
Rounds-pump_loop {e} f (round {v} r more) =
    let (g, same) = Rounds-pump_loop (suc f) r in
    (g, same ∙ pump_loop-inline false f e v refl ∙ ap (go_on false f e) more)

go_on-more :
    (f : ℕ) (e : Env) (x : Result (Option Status) × World)
    → (x.0 ≡ ok none
        → (pump_loop false f e x.1).0 ≢ stuck
        → pump_loop false (suc f) e x.1 ≡ pump_loop false f e x.1)
    → (go_on false f e x).0 ≢ stuck
    → go_on false (suc f) e x ≡ go_on false f e x
go_on-more f e (ok none, v) rest h = rest refl h
go_on-more f e (ok (some s), v) rest h = refl
go_on-more f e (raised, v) rest h = refl
go_on-more f e (stuck, v) rest h = refl

pump_loop-zero : (e : Env) (w : World) → (pump_loop false zero e w).0 ≡ stuck
unfolding pump_loop
pump_loop-zero e w = refl

pump_loop-suc :
    (f : ℕ) (e : Env) (w : World)
    → (pump_loop false f e w).0 ≢ stuck
    → pump_loop false (suc f) e w ≡ pump_loop false f e w
pump_loop-suc zero e w h = absurd (h (pump_loop-zero e w))
pump_loop-suc (suc f) e w h =
    let x = consume_body_chunk e (chunk_of e w) (counted w) in
    rw (pump_loop-inline false (suc f) e w refl, pump_loop-inline false f e w refl)
      (go_on-more f e x (λ more. pump_loop-suc f e x.1)
        (λ p. h (ap (λ y. y.0) (pump_loop-inline false f e w refl) ∙ p)))

pump_loop-add :
    (k f n : ℕ) (e : Env) (w : World)
    → n ≡ k + f
    → (pump_loop false f e w).0 ≢ stuck
    → pump_loop false n e w ≡ pump_loop false f e w
pump_loop-add zero f n e w sum h =
    let same : n ≡ f = omega (arith, sum) in ap (λ m. pump_loop false m e w) same
pump_loop-add (suc k) f n e w sum h =
    let ih = pump_loop-add k f (k + f) e w refl h in
    let same : n ≡ suc (k + f) = omega (arith, sum) in
    ap (λ m. pump_loop false m e w) same
    ∙ pump_loop-suc (k + f) e w (λ p. h (ap (λ y. y.0) (sym ih) ∙ p))
    ∙ ih

-- With enough fuel the loop ends in one way.
pub pump_loop-one :
    (f : ℕ) (e : Env) (w : World) (x : Result Status × World)
    → w.rsc.body_read_state ≡ brs_idle
    → pump_loop false f e w ≡ x
    → x.0 ≢ stuck
    → pump_loop false (pump_fuel e) e w ≡ x
pump_loop-one f e w x idle ran ends = elim (Bool-cases (leb f n)) [
  | inl below ↦
      pump_loop-add (n - f) f n e w (ground arith) (λ p. ends (ap (λ y. y.0) (sym ran) ∙ p)) ∙ ran
  | inr above ↦ sym (pump_loop-add (f - n) n f e w (ground arith) enough) ∙ ran
]
  where
    n : ℕ
    n = pump_fuel e

    enough : (pump_loop false n e w).0 ≢ stuck
    enough = (pump_loop-Ends false n e w (omega arith) (omega arith) idle).0
