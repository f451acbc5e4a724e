-- ===== src/Host/Lifetime.antt =====
-- The event sources over the lifetime of the module, from its registration to `Terminate`.
use mathlib.Core.Path.{subst}
use mod_security_iis.Prelude.{
  ℕ, ◌≡◌, sym, refl, true, false, Option, none, some, List, arith, Bool-cases, inl, inr,
  if◌then◌else◌,
}
use mod_security_iis.System.{Result, ok, raised, stuck, pure, ◌>>=◌, ◌>>◌}
use mod_security_iis.Host.{
  HostTrace, HostEnv, Host, Module, H, new_host, terminate, delete_kept, makes, delete_factory,
  register_module, failed,
}
use mod_security_iis.Host.Creation.{HostEvent, serves}
use mod_security_iis.Host.Registered.{register_module-Orderly}
use mod_security_iis.Host.Orderly.{Counts, Orderly}
use mod_security_iis.Host.Sources.{is_open, Safe, Sound, Tidy, Idle}
use mod_security_iis.Host.Serving.{serves-Orderly}

-- Nothing is left open.
pub record Shut (h : Host) : Type 0 where
  pub event_log : h.event_log ≡ none
  pub created : h.created ≡ none
  pub closed : (k : ℕ) → is_open k h.trace ≡ false

none_open :
    (t : HostTrace) (l : Option ℕ)
    → l ≡ none
    → ((k : ℕ) → is_open k t ≡ true → l ≡ some k)
    → (k : ℕ) → is_open k t ≡ false
none_open t l unset only k = elim (Bool-cases (is_open k t)) [
  | inl is_in ↦ absurd (cc (unset, only k is_in))
  | inr closed ↦ closed
]

-- What `Terminate` does, told what the factory has.
abbrev ending : Option Module → Host → Host
ending o h = ((delete_kept o >> makes delete_factory) h).1

ending-Shut :
    (o : Option Module) (h : Host)
    → h.created ≡ o
    → Sound h
    → Safe (ending o h).trace × (Idle h × Tidy h → Shut (ending o h))
ending-Shut none h nothing v = (
  v.safe,
  λ (i, t). record {
    event_log = i nothing;
    created = nothing;
    closed = none_open h.trace h.event_log (i nothing) t;
  },
)
ending-Shut (some m) h there v = go m.event_log (v.held m there)
  where
    go :
        (l : Option ℕ)
        → l ≡ h.event_log
        → let h' = ending (some (record { name = m.name; event_log = l })) h in
          Safe h'.trace × (Idle h × Tidy h → Shut h')
    go none same = (
      v.safe,
      λ (i, t). record {
        event_log = sym same;
        created = refl;
        closed = none_open h.trace h.event_log (sym same) t;
      },
    )
    go (some k) same = (
      (v.shared k (sym same), v.safe),
      λ (i, t). record {
        event_log = refl;
        created = refl;
        closed = λ j. ground (arith, t j, same);
      },
    )

terminate-Shut :
    (h : Host) → Sound h → Safe (terminate h).1.trace × (Idle h × Tidy h → Shut (terminate h).1)
unfolding terminate
terminate-Shut h v = ending-Shut h.created h refl v

-- The module's code in a worker process: it is registered, serves, and is terminated. It gives the
-- modules that IIS was given, and `none` when it was not registered.
unfoldable pub lifetime : HostEnv → Option ℕ → Option ℕ → List HostEvent → H (Option (List Module))
lifetime e info server evs = do
  hr ← register_module e info server
  λ h. if failed hr then (ok none, h) else (serves e evs >>= λ ms. terminate >> pure (some ms)) h

ended :
    (ms : Option (List Module)) (o : Option Module) (h : Host)
    → (delete_kept o >> makes delete_factory >> pure ms) h ≡ (ok ms, ending o h)
ended ms none h = refl
ended ms (some m) h = go m.event_log
  where
    go :
        (l : Option ℕ)
        → let o : Option Module = some (record { name = m.name; event_log = l }) in
          (delete_kept o >> makes delete_factory >> pure ms) h ≡ (ok ms, ending o h)
    go none = refl
    go (some k) = refl

terminate_then :
    (ms : Option (List Module)) (h : Host) → (terminate >> pure ms) h ≡ (ok ms, (terminate h).1)
unfolding terminate
terminate_then ms h = ended ms h.created h

served-Shut :
    (y : Result (List Module) × Host) (h : Host)
    → Sound y.1
    → (Counts false y.0 → Idle y.1 × Tidy y.1)
    → let z = ((λ (v : Host). y) >>= λ ms. terminate >> pure (some ms)) h in
      Safe z.1.trace × ((ms : List Module) → z.0 ≡ ok (some ms) → Shut z.1)
served-Shut (ok ms, u) h v t =
    let (safe, shut) = terminate-Shut u v in
    subst
      (λ (z : Result (Option (List Module)) × Host).
        Safe z.1.trace × ((ns : List Module) → z.0 ≡ ok (some ns) → Shut z.1))
      (sym (terminate_then (some ms) u)) (safe, λ ns p. shut (t tt))
served-Shut (raised, u) h v t = (v.safe, λ ms p. absurd (cc p))
served-Shut (stuck, u) h v t = (v.safe, λ ms p. absurd (cc p))

new_host-Sound : Sound new_host
new_host-Sound = record {
  safe = tt;
  fresh = λ k p. absurd (cc p);
  shared = λ k p. absurd (cc p);
  held = λ m p. absurd (cc p);
}

registered-Safe :
    (e : HostEnv) (evs : List HostEvent) (y : Result ℕ × Host)
    → Orderly true y new_host
    → let z =
        ((λ (v : Host). y) >>= λ hr h.
        if failed hr then (ok none, h) else (serves e evs >>= λ ms. terminate >> pure (some ms)) h)
          new_host in
      Safe z.1.trace × ((ms : List Module) → z.0 ≡ ok (some ms) → Shut z.1)
registered-Safe e evs (ok hr, u) o = elim (Bool-cases (failed hr)) [
  | inl bad ↦ rw bad (o.sound.safe, λ ms p. absurd (cc p))
  | inr good ↦
      let s = serves-Orderly e evs u o.sound in
      let t = o.orderly tt (λ p. refl, λ k p. absurd (cc p)) in
      rw good (served-Shut (serves e evs u) u s.sound (λ c. s.orderly c t))
]
registered-Safe e evs (raised, u) o = (o.sound.safe, λ ms p. absurd (cc p))
registered-Safe e evs (stuck, u) o = (o.sound.safe, λ ms p. absurd (cc p))

-- From the start of the process on, whatever IIS asks for and whatever throws, every line is written
-- and every handle closed through an event source that is open then; and once the module was
-- registered and terminated, no event source is open any more, and no module is left.
pub lifetime-Safe :
    (e : HostEnv) (info server : Option ℕ) (evs : List HostEvent)
    → let (r, h') = lifetime e info server evs new_host in
      Safe h'.trace × ((ms : List Module) → r ≡ ok (some ms) → Shut h')
unfolding lifetime
lifetime-Safe e info server evs =
    registered-Safe e evs (register_module e info server new_host)
      (register_module-Orderly e info server new_host new_host-Sound)
