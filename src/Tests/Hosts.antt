-- ===== src/Tests/Hosts.antt =====
-- A worker process that registers the module, asks for it twice, and ends.
use mathlib.Core.List.{Memᴰ}
use mod_security_iis.Prelude.{◌≡◌, refl, true, false, none, some, List, [], ◌∷◌}
use mod_security_iis.System.{ok}
use mod_security_iis.Text.{codes}
use mod_security_iis.Host.{
  HostEnv, Module, new_host, information_type, register_module, register_factory,
  register_notifications, prioritize, announce, delete_owned, get_http_module, new_module,
  construct, engine, write_event_viewer_log, terminate,
}
use mod_security_iis.Host.Registration.{Owns, register_module-Owns}
use mod_security_iis.Host.Creation.{HostEvent, asks, logs, happens, serves, serves_one}
use mod_security_iis.Host.Sources.{Safe}
use mod_security_iis.Host.Lifetime.{Shut, lifetime, lifetime-Safe}

-- Windows, IIS and the engine refuse nothing.
abbrev willing : HostEnv
willing = record {
  memory = λ t. true;
  has_source = λ t. true;
  throws = λ t. false;
  hresult = λ t. 0;
  what = λ t. none;
  version = codes "1.0";
}

-- IIS does not accept the factory.
abbrev refusing : HostEnv
refusing = record willing { hresult = λ t. 0x80004005 }

register_module-Owns_example :
    Owns
      (register_module refusing (some 1) (some 2) new_host).0
      new_host
      (register_module refusing (some 1) (some 2) new_host).1
register_module-Owns_example = register_module-Owns refusing (some 1) (some 2) new_host refl

abbrev requests : List HostEvent
requests = asks true ∷ logs (some (codes "line")) information_type ∷ asks false ∷ asks true ∷ []

abbrev the_module : Module
the_module = record { name = 1; event_log = some 0 }

given_twice : (serves willing requests new_host).0 ≡ ok (the_module ∷ the_module ∷ [])
unfolding serves happens get_http_module new_module construct engine write_event_viewer_log
given_twice = refl

serves_one_example :
    (the_module ≡ the_module) × ((serves willing requests new_host).1.created ≡ some the_module)
serves_one_example =
    serves_one willing requests new_host (the_module ∷ the_module ∷ []) the_module the_module
      given_twice (Memᴰ.head refl) (Memᴰ.tail (Memᴰ.head refl))

-- The handle of the announcement was another.
abbrev later_module : Module
later_module = record { name = 1; event_log = some 1 }

ends_well :
    (lifetime willing (some 1) (some 2) requests new_host).0
    ≡ ok (some (later_module ∷ later_module ∷ []))
unfolding lifetime register_module register_factory register_notifications prioritize announce
    delete_owned serves happens get_http_module new_module construct engine write_event_viewer_log
    terminate
ends_well = refl

lifetime-Safe_example :
    let (r, h') = lifetime willing (some 1) (some 2) requests new_host in
    Safe h'.trace × ((ms : List Module) → r ≡ ok (some ms) → Shut h')
lifetime-Safe_example = lifetime-Safe willing (some 1) (some 2) requests
