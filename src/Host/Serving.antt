-- ===== src/Host/Serving.antt =====
-- The event sources while IIS asks for the module.
use mod_security_iis.Prelude.{
  ◌≡◌, ◌∙◌, refl, Bool, true, false, Option, none, some, List, [], ◌∷◌, arith,
}
use mod_security_iis.System.{Result, ok, raised, stuck, pure, ◌>>=◌}
use mod_security_iis.Host.{
  HostEnv, Host, Module, keep_module, give_module, write_event_viewer_log, new_module,
  get_http_module,
}
use mod_security_iis.Host.Creation.{HostEvent, asks, logs, happens, serves, noted}
use mod_security_iis.Host.Orderly.{Orderly, pure-Orderly, Still-Orderly, Orderly-bind}
use mod_security_iis.Host.Making.{Made, new_module-Made}
use mod_security_iis.Host.Sources.{
  Sound, Still, Still-Sound, write_event_viewer_log-Still, write_event_viewer_log-Sound,
}

locked-Still : (b : Bool) (h : Host) → Still h (record h { locked = b })
locked-Still b h = ground arith

Made-Orderly :
    (y : Result (Option Module) × Host) (h : Host)
    → h.created ≡ none
    → Made y.0 h y.1
    → Orderly false (((λ (v : Host). y) >>= keep_module) h) h
Made-Orderly (ok none, u) h nothing a = record {
  sound = Still-Sound (locked-Still false u) (λ s. s) a.sound;
  orderly = λ p (i, t). (λ q. a.refused refl ∙ i nothing, a.tidy (i nothing) t);
}
Made-Orderly (ok (some m), u) h nothing a = record {
  sound = record {
    safe = a.sound.safe;
    fresh = a.sound.fresh;
    shared = a.sound.shared;
    held = λ m' p. cc (a.handle m refl, p);
  };
  orderly = λ p (i, t). (λ q. absurd (cc q), a.tidy (i nothing) t);
}
Made-Orderly (raised, u) h nothing a = record { sound = a.sound; orderly = λ p. absurd p }
Made-Orderly (stuck, u) h nothing a = record { sound = a.sound; orderly = λ p. absurd p }

give_module-Orderly :
    (e : HostEnv) (o : Option Module) (h : Host)
    → h.created ≡ o
    → Sound h
    → Orderly false (give_module e o h) h
give_module-Orderly e (some m) h there v = Still-Orderly false _ h (locked-Still false h) (λ s. s) v
give_module-Orderly e none h nothing v =
    Made-Orderly (new_module e h) h nothing (new_module-Made e h nothing v)

get_http_module-Orderly :
    (e : HostEnv) (b : Bool) (h : Host) → Sound h → Orderly false (get_http_module e b h) h
unfolding get_http_module
get_http_module-Orderly e false h v = pure-Orderly false _ _ v
get_http_module-Orderly e true h v =
    let l = record h { locked = true } in
    let still = locked-Still true h in
    let o = give_module-Orderly e h.created l refl (Still-Sound still (λ s. s) v) in
    record { sound = o.sound; orderly = λ p t. o.orderly p t }

happens-Orderly :
    (e : HostEnv) (ev : HostEvent) (h : Host) → Sound h → Orderly false (happens e ev h) h
unfolding happens
happens-Orderly e (asks b) h v =
    Orderly-bind false (get_http_module e b h) (λ r. pure r.1) h (get_http_module-Orderly e b h v)
      (λ r w. pure-Orderly false _ _ w)
happens-Orderly e (logs s c) h v =
    Orderly-bind false (write_event_viewer_log s c h) (λ u. pure none) h
      (Still-Orderly false (write_event_viewer_log s c h) h (write_event_viewer_log-Still s c h)
        (λ safe. (write_event_viewer_log-Sound s c h v).safe) v)
      (λ r w. pure-Orderly false _ _ w)

pub serves-Orderly :
    (e : HostEnv) (evs : List HostEvent) (h : Host) → Sound h → Orderly false (serves e evs h) h
unfolding serves
serves-Orderly e [] h v = pure-Orderly false _ _ v
serves-Orderly e (ev ∷ evs) h v =
    Orderly-bind false (happens e ev h) (λ o. serves e evs >>= λ ms. pure (noted o ms)) h
      (happens-Orderly e ev h v)
      (λ o w.
        let u = (happens e ev h).1 in
        Orderly-bind false (serves e evs u) (λ ms. pure (noted o ms)) u (serves-Orderly e evs u w)
          (λ ms z. pure-Orderly false _ _ z))
