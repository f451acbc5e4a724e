-- ===== src/ModuleConfig/Laws.antt =====
-- What `GetConfig` returns.
use mathlib.Core.Path.{subst}
use mod_security_iis.Prelude.{
  ℕ, ◌≡◌, ◌≢◌, ◌∙◌, ap, sym, refl, ◌⊎◌, inl, inr, Bool, true, false, Option, none, some, List,
  arith, ◌==◌, ==→eq, if◌then◌else◌,
}
use mod_security_iis.Text.{c_string}
use mod_security_iis.ModuleConfig.{
  SiteConfig, initial_config, Property, holds, unnamed, null_property, unreadable, unchecked,
  excepted, Step, and_then, failed, exception, done, property_value, variant_true,
  get_boolean_property_value, get_string_property_value, Section, AdminSection, section,
  section_failed, null_section, read_rest, read_section, initialize, Stored, kept, taken, refused,
  Metadata, store_config, new_config, get_config,
}

new_config-held :
    (st : Stored) (s : Step SiteConfig) (c : SiteConfig)
    → (new_config st s).0 ≡ done c
    → (new_config st s).1 ≡ some c
unfolding new_config store_config
new_config-held st (failed hr) c h = absurd (ground arith)
new_config-held st exception c h = absurd (ground arith)
new_config-held kept (done d) c h = ground arith
new_config-held (taken d) (done d') c h = ground arith
new_config-held (refused hr) (done d) c h = absurd (ground arith)

get_config-held :
    (m : Metadata) (held : Option SiteConfig) (c : SiteConfig)
    → (get_config m held).0 ≡ done c
    → (get_config m held).1 ≡ some c
unfolding get_config
get_config-held m (some d) c h = ground arith
get_config-held m none c h =
    ground (arith, new_config-held m.set_module_context (initialize m.admin) c)

found_again :
    (m : Metadata) (c : SiteConfig)
    → m.has_container ≡ true
    → get_config m (some c) ≡ (done c, some c)
unfolding get_config
found_again m c has = ground arith

-- A returned configuration is the one that the container then holds, and every later call with a
-- container returns it again, whatever the administration would say by then.
get_config-cached :
    (m later : Metadata) (held : Option SiteConfig) (c : SiteConfig)
    → (get_config m held).0 ≡ done c
    → later.has_container ≡ true
    → ((get_config m held).1 ≡ some c) × (get_config later (get_config m held).1 ≡ (done c, some c))
get_config-cached m later held c h has =
    let stays : (get_config m held).1 ≡ some c = get_config-held m held c h in
    (stays, ap (get_config later) stays ∙ found_again later c has)

property_value-done :
    {A : Type 0} (p : Property A) (a : A) → property_value p ≡ done a → p ≡ holds a
property_value-done (unnamed hr) a h = absurd (ground arith)
property_value-done null_property a h = absurd (ground arith)
property_value-done (unreadable hr) a h = absurd (ground arith)
property_value-done (unchecked hr) a h = absurd (ground arith)
property_value-done excepted a h = absurd (ground arith)
property_value-done (holds b) a h = ground arith

and_then-done :
    {A B : Type 0} (x : Step A) (f : A → Step B) (b : B)
    → and_then x f ≡ done b
    → (a : A) × (x ≡ done a) × (f a ≡ done b)
and_then-done (failed hr) f b h = absurd (ground arith)
and_then-done exception f b h = absurd (ground arith)
and_then-done (done a) f b h = (a, refl, h)

boolean-done :
    (p : Property ℕ) (b : Bool)
    → get_boolean_property_value p ≡ done b
    → (v : ℕ) × (p ≡ holds v) × (b ≡ (v == variant_true))
unfolding get_boolean_property_value
boolean-done p b h =
    let (v, found, same) = and_then-done (property_value p) _ b h in
    (v, property_value-done p v found, ground arith)

string-done :
    (allocated : Bool) (p : Property (List ℕ)) (s : List ℕ)
    → get_string_property_value allocated p ≡ done s
    → (f : List ℕ) × (p ≡ holds f) × (s ≡ c_string f)
unfolding get_string_property_value
string-done allocated p s h =
    let (f, found, same) = and_then-done (property_value p) _ s h in
    (f, property_value-done p f found, ground arith)

-- A configuration that says just what a section says: nothing but that the module is off, or the
-- two other properties too.
abbrev pub Reads : Section → SiteConfig → Type 0
Reads s c =
    ((v : ℕ) × (s.enabled ≡ holds v) × (v ≢ variant_true) × (c ≡ initial_config))
    ⊎ ((s.enabled ≡ holds variant_true)
        × ((v : ℕ) × (f : List ℕ) × (s.response_body_block ≡ holds v)
            × (s.config_file ≡ holds f)
            × (c ≡ record {
              is_enabled = true;
              path = some (c_string f);
              response_body_block = v == variant_true;
            })))

read_rest-done :
    (s : Section) (d c : SiteConfig)
    → read_rest s d ≡ done c
    → (v : ℕ) × (f : List ℕ) × (s.response_body_block ≡ holds v)
      × (s.config_file ≡ holds f)
      × (c ≡ record d { response_body_block = v == variant_true; path = some (c_string f) })
unfolding read_rest
read_rest-done s d c h =
    let (b, block, rest) = and_then-done (get_boolean_property_value s.response_body_block) _ c h in
    let (f, file, same) =
      and_then-done (get_string_property_value s.string_allocated s.config_file) _ c rest in
    let (v, found, is_b) = boolean-done s.response_body_block b block in
    let (g, file_found, is_f) = string-done s.string_allocated s.config_file f file in
    (v, g, found, file_found, ground arith)

read_section-done :
    (s : Section) (b : Bool) (c : SiteConfig)
    → get_boolean_property_value s.enabled ≡ done b
    → (if b then read_rest s (record initial_config { is_enabled = true }) else done initial_config)
      ≡ done c
    → Reads s c
read_section-done s true c on h =
    let (v, found, same) = boolean-done s.enabled true on in
    let is_true : v ≡ variant_true = ==→eq v variant_true (sym same) in
    inr (rw (← is_true) found, read_rest-done s (record initial_config { is_enabled = true }) c h)
read_section-done s false c on h =
    let (v, found, same) = boolean-done s.enabled false on in
    inl (v, found, ground arith, ground arith)

initialize-done :
    (o : Option AdminSection) (c : SiteConfig)
    → initialize o ≡ done c
    → (s : Section) × (o ≡ some (section s)) × Reads s c
unfolding initialize read_section
initialize-done none c h = absurd (ground arith)
initialize-done (some (section_failed hr)) c h = absurd (ground arith)
initialize-done (some null_section) c h = absurd (ground arith)
initialize-done (some (section s)) c h =
    let (b, on, rest) = and_then-done (get_boolean_property_value s.enabled) _ c h in
    (s, refl, read_section-done s b c on rest)

new_config-kept :
    (x : Step SiteConfig) (c : SiteConfig) → (new_config kept x).0 ≡ done c → x ≡ done c
unfolding new_config store_config
new_config-kept (failed hr) c h = absurd (ground arith)
new_config-kept exception c h = absurd (ground arith)
new_config-kept (done d) c h = h

get_config-new :
    (m : Metadata) (c : SiteConfig)
    → (get_config m none).0 ≡ done c
    → (new_config m.set_module_context (initialize m.admin)).0 ≡ done c
unfolding get_config
get_config-new m c h = ground arith

-- A configuration that GetConfig reads and stores itself says just what the site's section says:
-- no failure and no exception of a property passes for a value, and no part is read after a switch
-- that is off.
pub get_config-Reads :
    (m : Metadata) (c : SiteConfig)
    → m.set_module_context ≡ kept
    → (get_config m none).0 ≡ done c
    → (s : Section) × (m.admin ≡ some (section s)) × Reads s c
get_config-Reads m c ours h = initialize-done m.admin c (
    new_config-kept (initialize m.admin) c
      (subst (λ st. (new_config st (initialize m.admin)).0 ≡ done c) ours (get_config-new m c h)))
