-- ===== src/Host/Orderly.antt =====
-- Steps that keep the event sources in order.
use mod_security_iis.Prelude.{◌∙◌, sym, Bool, true, false}
use mod_security_iis.System.{Result, ok, raised, stuck, ◌>>=◌}
use mod_security_iis.Host.{Host, H}
use mod_security_iis.Host.Sources.{Safe, Sound, Tidy, Idle, Still, Still-Sound, Still-Tidy}

-- The ends of a step that count: all of them, or its returns alone.
abbrev pub Counts : {A : Type 0} → Bool → Result A → Type 0
Counts true r = Unit
Counts false (ok a) = Unit
Counts false r = ⊥

-- A step keeps the handles sound; and in order, at every end that counts.
pub record Orderly {A : Type 0} (all : Bool) (x : Result A × Host) (h : Host) : Type 0 where
  pub sound : Sound x.1
  pub orderly : Counts all x.0 → Idle h × Tidy h → Idle x.1 × Tidy x.1

pub Still-Orderly :
    {A : Type 0} (all : Bool) (x : Result A × Host) (h : Host)
    → Still h x.1
    → (Safe h.trace → Safe x.1.trace)
    → Sound h
    → Orderly all x h
Still-Orderly all x h still safe v = record {
  sound = Still-Sound still safe v;
  orderly = λ p (i, t). (λ q. still.event_log ∙ i (sym still.created ∙ q), Still-Tidy still t);
}

-- A step that ends at once.
pub pure-Orderly :
    {A : Type 0} (all : Bool) (r : Result A) (h : Host) → Sound h → Orderly all (r, h) h
pure-Orderly all r h v = record { sound = v; orderly = λ p t. t }

ok-Counts : {A : Type 0} (all : Bool) (a : A) → Counts all (ok a)
ok-Counts true a = tt
ok-Counts false a = tt

-- An exception or a loop without end passes on, whatever would have been returned.
raised-Counts : (A B : Type 0) (all : Bool) → Counts {A = B} all raised → Counts {A = A} all raised
raised-Counts A B true c = tt
raised-Counts A B false c = c

stuck-Counts : (A B : Type 0) (all : Bool) → Counts {A = B} all stuck → Counts {A = A} all stuck
stuck-Counts A B true c = tt
stuck-Counts A B false c = c

pub Orderly-bind :
    {A B : Type 0} (all : Bool) (x : Result A × Host) (f : A → H B) (h : Host)
    → Orderly all x h
    → ((a : A) → Sound x.1 → Orderly all (f a x.1) x.1)
    → Orderly all (((λ (v : Host). x) >>= f) h) h
Orderly-bind all (ok a, u) f h o next =
    let o' = next a o.sound in
    record { sound = o'.sound; orderly = λ p t. o'.orderly p (o.orderly (ok-Counts all a) t) }
Orderly-bind {A} {B} all (raised, u) f h o next = record {
  sound = o.sound;
  orderly = λ p. o.orderly (raised-Counts A B all p);
}
Orderly-bind {A} {B} all (stuck, u) f h o next = record {
  sound = o.sound;
  orderly = λ p. o.orderly (stuck-Counts A B all p);
}
