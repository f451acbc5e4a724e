-- ===== src/Host/Making.antt =====
-- The event source of a new module.
use mathlib.Core.Path.{subst}
use mod_security_iis.Prelude.{
  ap, ◌⊎◌, ℕ, ◌≡◌, ◌≢◌, sym, ◌∙◌, Option, none, some, ◌∷◌, arith, Bool-cases, inl, inr,
}
use mod_security_iis.System.{Result, ok}
use mod_security_iis.Host.{
  HostEnv, Host, Module, engine, construct, new_module, allocate_module, register_event_source,
  next_source,
}
use mod_security_iis.Host.Sources.{Safe, Sound, Tidy, Still, Still-Sound, Still-Tidy, engine-Still}

-- The state in which the constructor asks for the engine.
abbrev sourced : HostEnv → Host → Host
sourced e h = record h {
  trace = register_event_source (next_source e h.trace) ∷ h.trace;
  event_log = next_source e h.trace;
}

sourced-Sound : (e : HostEnv) (h : Host) → h.created ≡ none → Sound h → Sound (sourced e h)
sourced-Sound e h nothing v = record {
  safe = ground (arith, v.safe);
  fresh = λ k p. ground (arith, p, v.fresh k);
  shared = λ k p. ground (arith, p);
  held = λ m p. absurd (cc (nothing, p));
}

sourced-Tidy : (e : HostEnv) (h : Host) → h.event_log ≡ none → Tidy h → Tidy (sourced e h)
sourced-Tidy e h unset v k p = ground (arith, p, unset, v k)

construct_lem :
    (e : HostEnv) (h : Host)
    → let (r, h') = construct e h in
      (h' ≡ (engine e (sourced e h)).1) × ((m : Module) → r ≡ ok m → m.event_log ≡ h'.event_log)
unfolding construct
construct_lem e h = ground (arith, (engine-Still e (sourced e h)).0.event_log)

-- A new module has the handle that g_hEventLog then is.
pub record Made (r : Result (Option Module)) (h : Host) (h' : Host) : Type 0 where
  pub sound : Sound h'
  pub created : h'.created ≡ none
  pub handle : (m : Module) → r ≡ ok (some m) → m.event_log ≡ h'.event_log
  pub refused : r ≡ ok none → h'.event_log ≡ h.event_log
  pub tidy : h.event_log ≡ none → Tidy h → Tidy h'

constructed-Sound :
    (e : HostEnv) (h : Host)
    → h.created ≡ none
    → Sound h
    → let h' = (construct e h).1 in
      Sound h' × (h'.created ≡ none) × (h.event_log ≡ none → Tidy h → Tidy h')
constructed-Sound e h nothing v =
    subst (λ (g : Host). Sound g × (g.created ≡ none) × (h.event_log ≡ none → Tidy h → Tidy g))
      (sym (construct_lem e h).0)
      (
        Still-Sound still.0 still.1 (sourced-Sound e h nothing v),
        still.0.created ∙ nothing,
        λ unset t. Still-Tidy still.0 (sourced-Tidy e h unset t),
      )
  where
    still :
        Still (sourced e h) (engine e (sourced e h)).1
        × (Safe (sourced e h).trace → Safe (engine e (sourced e h)).1.trace)
    still = engine-Still e (sourced e h)

-- The state after the allocation.
abbrev allocated : HostEnv → Host → Host
allocated e h = record h { trace = allocate_module (e.memory h.trace) ∷ h.trace }

pub allocated-Still : (e : HostEnv) (h : Host) → Still h (allocated e h)
allocated-Still e h = ground arith

new_module_lem :
    (e : HostEnv) (h : Host)
    → let r = (new_module e h).0 in
      let h' = (new_module e h).1 in
      let x = construct e (allocated e h) in
      ((h' ≡ x.1) × ((m : Module) → r ≡ ok (some m) → x.0 ≡ ok m) × (r ≢ ok none))
      ⊎ ((r ≡ ok none) × (h' ≡ allocated e h))
unfolding new_module
new_module_lem e h = elim (Bool-cases (e.memory h.trace)) [
  | inl granted ↦ inl (ground (arith, granted))
  | inr short ↦ inr (ground (arith, short))
]

pub new_module-Made :
    (e : HostEnv) (h : Host)
    → h.created ≡ none
    → Sound h
    → Made (new_module e h).0 h (new_module e h).1
new_module-Made e h nothing v = elim (new_module_lem e h) [
  | inl (same, given, some_) ↦
      let (sound, still_none, tidy) = constructed-Sound e a nothing sound_a in
      record {
        sound = subst Sound (sym same) sound;
        created = ap created_of same ∙ still_none;
        handle = λ m p. (construct_lem e a).1 m (given m p) ∙ ap log_of (sym same);
        refused = λ p. absurd (some_ p);
        tidy = λ unset t. subst Tidy (sym same) (tidy unset (Still-Tidy still t));
      }
  | inr (refused, same) ↦ record {
    sound = subst Sound (sym same) sound_a;
    created = ap created_of same ∙ nothing;
    handle = λ m p. absurd (cc (refused, p));
    refused = λ p. ap log_of same;
    tidy = λ unset t. subst Tidy (sym same) (Still-Tidy still t);
  }
]
  where
    a : Host
    a = allocated e h

    still : Still h a
    still = allocated-Still e h

    sound_a : Sound a
    sound_a = Still-Sound still (λ s. s) v

    created_of : Host → Option Module
    created_of g = g.created

    log_of : Host → Option ℕ
    log_of g = g.event_log
