-- ===== src/ModuleConfig/Threads.antt =====
-- `GetConfig` by many threads: between the look into the container and SetModuleContext of one
-- call, other calls may store a configuration.
pub mod Agreement
use mathlib.Core.List.{Memᴰ}
use mod_security_iis.Prelude.{
  ℕ, ◌≡◌, ◌∙◌, sym, ap, ◌⊎◌, inl, inr, Option, none, some, List, [], ◌∷◌, arith, Bool-cases,
}
use mod_security_iis.ModuleConfig.{
  SiteConfig, Section, AdminSection, section, Step, failed, exception, done, Stored, kept, taken,
  refused, Metadata, initialize, new_config, store_config, get_config,
}
use mod_security_iis.ModuleConfig.Laws.{Reads, get_config-Reads}

-- How SetModuleContext answers, by what the container holds: it takes the first configuration,
-- and says ERROR_ALREADY_ASSIGNED to a second one, unless it fails otherwise.
pub data Answers : Option SiteConfig → Stored → Type 0 where
  stores : Answers none kept
  assigned : {d : SiteConfig} → Answers (some d) (taken d)
  refuses : {o : Option SiteConfig} (hr : ℕ) → Answers o (refused hr)

-- The container of a configuration path for one life: from empty until IIS discards what it holds,
-- as it does when the configuration changes, after which another one begins. What it holds, everything that it held before, and for
-- the calls so far, what the administration said and the configurations returned.
pub record Container : Type 0 where
  pub held : Option SiteConfig
  pub past : List (Option SiteConfig)
  pub said : List (Option AdminSection)
  pub returned : List SiteConfig

abbrev pub noted : Step SiteConfig → List SiteConfig → List SiteConfig
noted (done c) cs = c ∷ cs
noted _ cs = cs

-- What the container holds after a call that found `first` in it: the call stores nothing when it
-- has found a configuration or has none to store.
abbrev pub left : Option SiteConfig → Option SiteConfig → Option SiteConfig → Option SiteConfig
left (some c) present stored = present
left none present none = present
left none present (some c) = some c

abbrev pub served : Container → Option SiteConfig → Metadata → Container
served k first m =
    let (r, stored) = get_config m first in
    record {
      held = left first k.held stored;
      past = k.held ∷ k.past;
      said = m.admin ∷ k.said;
      returned = noted r k.returned;
    }

-- A call may have found anything that the container held since its start.
pub data Serve (k : Container) : Container → Type 0 where
  serve :
      (first : Option SiteConfig) (m : Metadata)
      → Memᴰ first (k.held ∷ k.past)
      → Answers k.held m.set_module_context
      → Serve k (served k first m)

abbrev pub empty_container : Container
empty_container = record { held = none; past = []; said = []; returned = [] }

pub data Reach : Container → Type 0 where
  start : Reach empty_container
  later : {k l : Container} → Reach k → Serve k l → Reach l

-- A configuration that some call read from the administration.
abbrev pub WasRead : Container → SiteConfig → Type 0
WasRead k c = (s : Section) × Memᴰ (some (section s)) k.said × Reads s c
