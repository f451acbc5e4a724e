-- ===== src/ModuleConfig.antt =====
-- `MODSECURITY_STORED_CONTEXT` (src/moduleconfig.h, src/moduleconfig.cpp): the configuration of a
-- site, read from its <system.webServer/ModSecurity> section and cached by IIS.
pub mod Laws
pub mod Threads
use mod_security_iis.Prelude.{ℕ, Bool, true, false, Option, none, some, List, ◌==◌, if◌then◌else◌}
use mod_security_iis.Text.{c_string}

-- `path` is GetPath(), up to its terminating NUL.
pub record SiteConfig : Type 0 where
  pub is_enabled : Bool
  pub path : Option (List ℕ)
  pub response_body_block : Bool

-- The constructor.
abbrev pub initial_config : SiteConfig
initial_config = record { is_enabled = false; path = none; response_body_block = false }

-- A failed HRESULT, by its number.
abbrev pub e_unexpected : ℕ
e_unexpected = 0x8000FFFF

abbrev pub e_outofmemory : ℕ
e_outofmemory = 0x8007000E

-- How the three calls on a property of a section end: GetPropertyByName, get_Value and
-- get_Exception.
pub data Property (A : Type 0) : Type 0 where
  unnamed : ℕ → Property A
  null_property : Property A
  unreadable : ℕ → Property A
  unchecked : ℕ → Property A
  excepted : Property A
  holds : A → Property A

-- How a step ends: with a failed HRESULT, with an exception object, or with a value.
pub data Step (A : Type 0) : Type 0 where
  failed : ℕ → Step A
  exception : Step A
  done : A → Step A

-- `if (FAILED(hr)) goto Failure; if (pPropertyException != NULL) ... goto Failure;`
abbrev pub and_then : {A B : Type 0} → Step A → (A → Step B) → Step B
and_then (failed hr) f = failed hr
and_then exception f = exception
and_then (done a) f = f a

abbrev pub property_value : {A : Type 0} → Property A → Step A
property_value (unnamed hr) = failed hr
property_value null_property = failed e_unexpected
property_value (unreadable hr) = failed hr
property_value (unchecked hr) = failed hr
property_value excepted = exception
property_value (holds a) = done a

-- VARIANT_TRUE
abbrev pub variant_true : ℕ
variant_true = 0xFFFF

unfoldable pub get_boolean_property_value : Property ℕ → Step Bool
get_boolean_property_value p = and_then (property_value p) (λ v. done (v == variant_true))

-- The copy of a BSTR, when its memory is granted. `wcsncpy` stops at a NUL and fills up with NULs.
unfoldable pub get_string_property_value : Bool → Property (List ℕ) → Step (List ℕ)
get_string_property_value allocated p =
    and_then (property_value p) (λ s. if allocated then done (c_string s) else failed e_outofmemory)

-- The administration section of a URL path.
pub record Section : Type 0 where
  pub enabled : Property ℕ
  pub response_body_block : Property ℕ
  pub config_file : Property (List ℕ)
  pub string_allocated : Bool

-- GetAdminSection: a failed HRESULT, NULL, or the section.
pub data AdminSection : Type 0 where
  section_failed : ℕ → AdminSection
  null_section : AdminSection
  section : Section → AdminSection

unfoldable pub read_rest : Section → SiteConfig → Step SiteConfig
read_rest s c = and_then (get_boolean_property_value s.response_body_block) (λ block.
    and_then (get_string_property_value s.string_allocated s.config_file)
      (λ file. done (record c { response_body_block = block; path = some file })))

unfoldable pub read_section : Section → Step SiteConfig
read_section s = and_then (get_boolean_property_value s.enabled) (λ enabled.
    if enabled
    then read_rest s (record initial_config { is_enabled = true })
    else done initial_config)

-- `Initialize` of a new object. `none` is a null administration manager.
unfoldable pub initialize : Option AdminSection → Step SiteConfig
initialize none = failed e_unexpected
initialize (some (section_failed hr)) = failed hr
initialize (some null_section) = failed e_unexpected
initialize (some (section s)) = read_section s

-- How SetModuleContext of the container ends: taken with the configuration that another thread
-- stored meanwhile.
pub data Stored : Type 0 where
  kept : Stored
  taken : SiteConfig → Stored
  refused : ℕ → Stored

-- What GetConfig meets: whether the metadata has a container, whether the object is granted, the
-- administration, and the container's answer.
pub record Metadata : Type 0 where
  pub has_container : Bool
  pub object_allocated : Bool
  pub admin : Option AdminSection
  pub set_module_context : Stored

-- The returned configuration, or the failed HRESULT, and what the container holds then.
abbrev pub Reply : Type 0
Reply = Step SiteConfig × Option SiteConfig

unfoldable pub store_config : Stored → SiteConfig → Reply
store_config kept c = (done c, some c)
store_config (taken d) c = (done d, some d)
store_config (refused hr) c = (failed hr, none)

unfoldable pub new_config : Stored → Step SiteConfig → Reply
new_config st (failed hr) = (failed e_unexpected, none)
new_config st exception = (failed e_unexpected, none)
new_config st (done c) = store_config st c

-- `GetConfig`, with what the container holds.
unfoldable pub get_config : Metadata → Option SiteConfig → Reply
get_config m (some c) = (if m.has_container then done c else failed e_unexpected, some c)
get_config m none =
    if m.has_container
    then (if m.object_allocated
        then new_config m.set_module_context (initialize m.admin)
        else (failed e_outofmemory, none))
    else (failed e_unexpected, none)
