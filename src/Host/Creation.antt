-- ===== src/Host/Creation.antt =====
-- `GetHttpModule`: one module for the life of the factory.
use mathlib.Core.List.{Memᴰ}
use mathlib.Core.List.Memᴰ.{not-nil}
use mathlib.Core.Path.{subst}
use mod_security_iis.Prelude.{
  ℕ, ◌≡◌, ◌≢◌, sym, refl, ap, Bool, true, false, Option, none, some, List, [], ◌∷◌, arith,
  Option-cases, inl, inr,
}
use mod_security_iis.System.{Bytes, Result, ok, raised, stuck, pure, ◌>>=◌, ◌>>◌}
use mod_security_iis.Host.{
  HostEnv, Host, Module, Category, H, s_ok, engine, next_source, allocate_module,
  register_event_source, construct, new_module, get_http_module, write_event_viewer_log,
}

-- What reaches the module's code between its registration and `Terminate`: IIS asks for the module,
-- and a line is written to the event log.
pub data HostEvent : Type 0 where
  asks : Bool → HostEvent
  logs : Option Bytes → Category → HostEvent

abbrev pub noted : Option Module → List Module → List Module
noted none ms = ms
noted (some m) ms = m ∷ ms

unfoldable pub happens : HostEnv → HostEvent → H (Option Module)
happens e (asks has_out) = do r ← get_http_module e has_out; pure r.1
happens e (logs message category) = do write_event_viewer_log message category; pure none

-- The modules that IIS is given.
unfoldable pub serves : HostEnv → List HostEvent → H (List Module)
serves e [] = pure []
serves e (ev ∷ evs) = do o ← happens e ev; ms ← serves e evs; pure (noted o ms)

engine_keeps :
    (e : HostEnv) (h : Host)
    → let h' = (engine e h).1 in
      ((engine e h).0 ≢ stuck)
      × (h'.created ≡ h.created)
      × (h'.event_log ≡ h.event_log)
      × (h'.locked ≡ h.locked)
unfolding engine
engine_keeps e h = ground arith

-- A call of GetHttpModule: what the factory has, it keeps and gives; and the critical section is
-- left whenever the call returns.
pub record Gives (r : Result (ℕ × Option Module)) (h : Host) (h' : Host) : Type 0 where
  pub ends : r ≢ stuck
  pub keeps : (m : Module) → h.created ≡ some m → h'.created ≡ some m
  pub gives : (hr : ℕ) (m : Module) → r ≡ ok (hr, some m) → (hr ≡ s_ok) × (h'.created ≡ some m)
  pub refuses : (hr : ℕ) → r ≡ ok (hr, none) → (hr ≢ s_ok) × (h'.created ≡ h.created)
  pub leaves : r ≢ raised → h.locked ≡ false → h'.locked ≡ false

construct_keeps :
    (e : HostEnv) (h : Host)
    → let h' = (construct e h).1 in
      ((construct e h).0 ≢ stuck) × (h'.created ≡ h.created) × (h'.locked ≡ h.locked)
unfolding construct
construct_keeps e h =
    let t = register_event_source (next_source e h.trace) ∷ h.trace in
    ground (arith, engine_keeps e (record h { trace = t; event_log = next_source e h.trace }))

new_module_keeps :
    (e : HostEnv) (h : Host)
    → let h' = (new_module e h).1 in
      ((new_module e h).0 ≢ stuck) × (h'.created ≡ h.created) × (h'.locked ≡ h.locked)
unfolding new_module
new_module_keeps e h =
    ground
      (arith, construct_keeps e (record h { trace = allocate_module (e.memory h.trace) ∷ h.trace }))

get_http_module-Gives :
    (e : HostEnv) (b : Bool) (h : Host)
    → Gives (get_http_module e b h).0 h (get_http_module e b h).1
unfolding get_http_module
get_http_module-Gives e false h = ground arith
get_http_module-Gives e true h = elim (Option-cases h.created) [
  | inl nothing ↦ ground (arith, nothing, new_module_keeps e (record h { locked = true }))
  | inr (m, there) ↦ ground (arith, there)
]

write_event_viewer_log_keeps :
    (s : Option Bytes) (c : Category) (h : Host)
    → ((write_event_viewer_log s c h).0 ≡ ok tt)
      × ((write_event_viewer_log s c h).1.created ≡ h.created)
unfolding write_event_viewer_log
write_event_viewer_log_keeps none c h = ground arith
write_event_viewer_log_keeps (some s) c h = ground arith

-- What one event gives is what the factory has then, and what it had.
record Happens (x : Result (Option Module) × Host) (h : Host) : Type 0 where
  ends : x.0 ≢ stuck
  keeps : (m : Module) → h.created ≡ some m → x.1.created ≡ some m
  gives : (m : Module) → x.0 ≡ ok (some m) → x.1.created ≡ some m

asked-Happens :
    (y : Result (ℕ × Option Module) × Host) (h : Host)
    → Gives y.0 h y.1
    → Happens (((λ (v : Host). y) >>= λ r. pure r.1) h) h
asked-Happens (ok (hr, some m), v) h a =
    let given = a.gives hr m refl in
    record { ends = λ p. cc; keeps = a.keeps; gives = λ m' p. cc (given.1, p) }
asked-Happens (ok (hr, none), v) h a = record {
  ends = λ p. cc;
  keeps = a.keeps;
  gives = λ m' p. absurd (cc p);
}
asked-Happens (raised, v) h a = record {
  ends = λ p. cc;
  keeps = a.keeps;
  gives = λ m' p. absurd (cc p);
}
asked-Happens (stuck, v) h a = absurd (a.ends refl)

happens-Happens : (e : HostEnv) (ev : HostEvent) (h : Host) → Happens (happens e ev h) h
unfolding happens
happens-Happens e (asks b) h = asked-Happens (get_http_module e b h) h (get_http_module-Gives e b h)
happens-Happens e (logs s c) h = ground (arith, write_event_viewer_log_keeps s c h)

-- What a history gives is all what the factory has at its end.
pub record OneModule (x : Result (List Module) × Host) (h : Host) : Type 0 where
  pub ends : x.0 ≢ stuck
  pub keeps : (m : Module) → h.created ≡ some m → x.1.created ≡ some m
  pub same : (ms : List Module) (m : Module) → x.0 ≡ ok ms → Memᴰ m ms → x.1.created ≡ some m

ok-injective : (ms ns : List Module) → ok ms ≡ ok ns → ms ≡ ns
ok-injective ms ns p = cc p

noted_then :
    (o : Option Module) (y : Result (List Module) × Host) (h : Host)
    → ((m : Module) → o ≡ some m → h.created ≡ some m)
    → OneModule y h
    → OneModule (((λ (v : Host). y) >>= λ ms. pure (noted o ms)) h) h
noted_then none (ok ms, v) h given a = a
noted_then (some m) (ok ms, v) h given a = record {
  ends = λ p. cc;
  keeps = a.keeps;
  same = λ ns n p i. elim (subst (Memᴰ n) (sym (ok-injective (m ∷ ms) ns p)) i) [
    | Memᴰ.head here ↦ rw here (a.keeps m (given m refl))
    | Memᴰ.tail later ↦ a.same ms n refl later
  ];
}
noted_then o (raised, v) h given a = record {
  ends = λ p. cc;
  keeps = a.keeps;
  same = λ ms n p i. absurd (cc p);
}
noted_then o (stuck, v) h given a = absurd (a.ends refl)

happened_then :
    (e : HostEnv) (evs : List HostEvent) (x : Result (Option Module) × Host) (h : Host)
    → ((v : Host) → OneModule (serves e evs v) v)
    → Happens x h
    → OneModule (((λ (v : Host). x) >>= λ o. serves e evs >>= λ ms. pure (noted o ms)) h) h
happened_then e evs (ok o, v) h rest a =
    let b = noted_then o (serves e evs v) v (λ m p. a.gives m (ap ok p)) (rest v) in
    record { ends = b.ends; keeps = λ m p. b.keeps m (a.keeps m p); same = b.same }
happened_then e evs (raised, v) h rest a = record {
  ends = λ p. cc;
  keeps = a.keeps;
  same = λ ms m p i. absurd (cc p);
}
happened_then e evs (stuck, v) h rest a = absurd (a.ends refl)

serves-OneModule : (e : HostEnv) (evs : List HostEvent) (h : Host) → OneModule (serves e evs h) h
unfolding serves
serves-OneModule e [] h = record {
  ends = λ p. cc;
  keeps = λ m p. p;
  same = λ ms m p i. absurd (not-nil (subst (Memᴰ m) (sym (ok-injective [] ms p)) i));
}
serves-OneModule e (ev ∷ evs) h =
    happened_then e evs (happens e ev h) h (serves-OneModule e evs) (happens-Happens e ev h)

-- However often IIS asks the factory for the module, and whatever was refused in between, it is
-- given the same module every time, which is the one that `Terminate` will delete.
pub serves_one :
    (e : HostEnv) (evs : List HostEvent) (h : Host) (ms : List Module) (m m' : Module)
    → (serves e evs h).0 ≡ ok ms
    → Memᴰ m ms
    → Memᴰ m' ms
    → (m ≡ m') × ((serves e evs h).1.created ≡ some m)
serves_one e evs h ms m m' p i i' =
    let one = serves-OneModule e evs h in
    let q = one.same ms m p i in let q' = one.same ms m' p i' in (cc (q, q'), q)
