-- ===== src/Host/Sources.antt =====
-- The handles of the event log, from the registration of the module to `Terminate`.
use mod_security_iis.Prelude.{
  ℕ, ◌≡◌, ◌<◌, ◌==◌, ◌&&◌, ◌||◌, sym, ◌∙◌, Bool, true, false, not, Option, none, some, [], ◌∷◌,
  arith, Bool-cases, Option-cases, inl, inr,
}
use mod_security_iis.System.{Bytes}
use mod_security_iis.Host.{
  HostTrace, HostEnv, Host, Module, Category, engine, write_event_viewer_log, register_event_source,
  deregister_event_source, report_event, sources, announce,
}

-- Whether a handle was got and not closed since.
abbrev pub is_open : ℕ → HostTrace → Bool
is_open k [] = false
is_open k (register_event_source (some j) ∷ t) = k == j || is_open k t
is_open k (deregister_event_source j ∷ t) = not (k == j) && is_open k t
is_open k (_ ∷ t) = is_open k t

-- Every report and every closing is through a handle that is open then.
abbrev pub Safe : HostTrace → Type 0
Safe [] = Unit
Safe (report_event k c s ∷ t) = (is_open k t ≡ true) × Safe t
Safe (deregister_event_source k ∷ t) = (is_open k t ≡ true) × Safe t
Safe (_ ∷ t) = Safe t

-- g_hEventLog is open, the module holds it, and handles are not handed out twice.
pub record Sound (h : Host) : Type 0 where
  pub safe : Safe h.trace
  pub fresh : (k : ℕ) → is_open k h.trace ≡ true → k < sources h.trace
  pub shared : (k : ℕ) → h.event_log ≡ some k → is_open k h.trace ≡ true
  pub held : (m : Module) → h.created ≡ some m → m.event_log ≡ h.event_log

-- Nothing is open but g_hEventLog.
abbrev pub Tidy : Host → Type 0
Tidy h = (k : ℕ) → is_open k h.trace ≡ true → h.event_log ≡ some k

-- g_hEventLog is the module's.
abbrev pub Idle : Host → Type 0
Idle h = h.created ≡ none → h.event_log ≡ none

-- Nothing was opened or closed.
pub record Still (h : Host) (h' : Host) : Type 0 where
  pub opened : (k : ℕ) → is_open k h'.trace ≡ is_open k h.trace
  pub asked : sources h'.trace ≡ sources h.trace
  pub event_log : h'.event_log ≡ h.event_log
  pub created : h'.created ≡ h.created

pub Still-Sound : {h h' : Host} → Still h h' → (Safe h.trace → Safe h'.trace) → Sound h → Sound h'
Still-Sound s safe v = record {
  safe = safe v.safe;
  fresh = λ k p. ground (arith, s.asked, v.fresh k (sym (s.opened k) ∙ p));
  shared = λ k p. s.opened k ∙ v.shared k (sym s.event_log ∙ p);
  held = λ m p. v.held m (sym s.created ∙ p) ∙ sym s.event_log;
}

pub Still-Tidy : {h h' : Host} → Still h h' → Tidy h → Tidy h'
Still-Tidy s t k p = s.event_log ∙ t k (sym (s.opened k) ∙ p)

pub engine-Still :
    (e : HostEnv) (h : Host) → Still h (engine e h).1 × (Safe h.trace → Safe (engine e h).1.trace)
unfolding engine
engine-Still e h = ground arith

pub write_event_viewer_log-Still :
    (s : Option Bytes) (c : Category) (h : Host) → Still h (write_event_viewer_log s c h).1
unfolding write_event_viewer_log
write_event_viewer_log-Still none c h = ground arith
write_event_viewer_log-Still (some s) c h = ground arith

write_event_viewer_log-Safe :
    (s : Option Bytes) (c : Category) (h : Host)
    → Sound h
    → Safe (write_event_viewer_log s c h).1.trace
unfolding write_event_viewer_log
write_event_viewer_log-Safe none c h v = v.safe
write_event_viewer_log-Safe (some s) c h v = elim (Option-cases h.event_log) [
  | inl closed ↦ ground (arith, closed, v.safe)
  | inr (k, is_set) ↦ ground (arith, is_set, v.safe, v.shared k is_set)
]

pub write_event_viewer_log-Sound :
    (s : Option Bytes) (c : Category) (h : Host) → Sound h → Sound (write_event_viewer_log s c h).1
write_event_viewer_log-Sound s c h v =
    Still-Sound (write_event_viewer_log-Still s c h) (λ safe. write_event_viewer_log-Safe s c h v) v

-- The handle that is asked for next is not open.
next-closed : (h : Host) → Sound h → is_open (sources h.trace) h.trace ≡ false
next-closed h v = elim (Bool-cases (is_open (sources h.trace) h.trace)) [
  | inl is_in ↦ absurd (omega (arith, v.fresh (sources h.trace) is_in))
  | inr closed ↦ closed
]

pub announce_fields :
    (e : HostEnv) (h : Host)
    → ((announce e h).1.event_log ≡ h.event_log) × ((announce e h).1.created ≡ h.created)
unfolding announce
announce_fields e h = ground arith

pub announce-Sound : (e : HostEnv) (h : Host) → Sound h → Sound (announce e h).1
unfolding announce
announce-Sound e h v =
    let (log, made) = announce_fields e h in
    let closed = next-closed h v in
    record {
      safe = ground (arith, v.safe, closed);
      fresh = λ k p. ground (arith, p, v.fresh k);
      shared = λ k p.
          let q = sym log ∙ p in ground (arith, closed, v.shared k q, v.fresh k (v.shared k q));
      held = λ m p. v.held m (sym made ∙ p) ∙ sym log;
    }

pub announce-opened :
    (e : HostEnv) (h : Host) (k : ℕ)
    → Sound h
    → is_open k (announce e h).1.trace ≡ is_open k h.trace
unfolding announce
announce-opened e h k v = ground (arith, next-closed h v)
