-- ===== src/ModuleConfig/Threads/Agreement.antt =====
-- All calls of GetConfig for one path agree.
use mathlib.Core.List.{Memᴰ}
use mod_security_iis.Prelude.{
  ℕ, ◌≡◌, ◌∙◌, sym, ap, ◌⊎◌, inl, inr, Option, none, some, List, ◌∷◌, arith, Bool-cases,
}
use mod_security_iis.ModuleConfig.{
  SiteConfig, Section, section, Step, failed, exception, done, Stored, kept, taken, refused,
  Metadata, initialize, new_config, store_config, get_config,
}
use mod_security_iis.ModuleConfig.Laws.{Reads, get_config-Reads}
use mod_security_iis.ModuleConfig.Threads.{
  Answers, stores, assigned, refuses, Container, noted, left, served, serve, Reach, start, later,
  WasRead,
}

-- Nothing that was held is lost, and everything returned is held and was read.
record IsContainer (k : Container) : Type 0 where
  keeps : (c : SiteConfig) → Memᴰ (some c) k.past → k.held ≡ some c
  has : (c : SiteConfig) → Memᴰ c k.returned → k.held ≡ some c
  read : (c : SiteConfig) → k.held ≡ some c → WasRead k c

-- What a reply of a call that found the container empty may be.
abbrev Fits : Option SiteConfig → Stored → Step SiteConfig × Option SiteConfig → Type 0
Fits present st (r, stored) =
    (c : SiteConfig)
    → (present ≡ some c → left none present stored ≡ some c)
      × (r ≡ done c → left none present stored ≡ some c)
      × (left none present stored ≡ some c → (present ≡ some c) ⊎ ((st ≡ kept) × (r ≡ done c)))

nothing-Fits :
    (present : Option SiteConfig) (st : Stored) (hr : ℕ) → Fits present st (failed hr, none)
nothing-Fits none st hr c = ground arith
nothing-Fits (some d) st hr c = ground arith

store_config-Fits :
    (present : Option SiteConfig) (st : Stored) (c : SiteConfig)
    → Answers present st
    → Fits present st (store_config st c)
unfolding store_config
store_config-Fits none kept c stores d = ground arith
store_config-Fits (some e) (taken e') c assigned d = ground arith
store_config-Fits (some e) kept c a d = elim a [ ]
store_config-Fits none (taken e) c a d = elim a [ ]
store_config-Fits o (refused hr) c (refuses hr') d = nothing-Fits o (refused hr) hr d

new_config-Fits :
    (present : Option SiteConfig) (st : Stored) (x : Step SiteConfig)
    → Answers present st
    → Fits present st (new_config st x)
unfolding new_config
new_config-Fits present st (failed hr) a = nothing-Fits present st _
new_config-Fits present st exception a = nothing-Fits present st _
new_config-Fits present st (done c) a = store_config-Fits present st c a

get_config-Fits :
    (m : Metadata) (present : Option SiteConfig)
    → Answers present m.set_module_context
    → Fits present m.set_module_context (get_config m none)
unfolding get_config
get_config-Fits m present a = elim (Bool-cases m.has_container) [
  | inr alone ↦ rw alone (nothing-Fits present m.set_module_context _)
  | inl has ↦ elim (Bool-cases m.object_allocated) [
    | inr refused_object ↦ rw (has, refused_object) (nothing-Fits present m.set_module_context _)
    | inl object ↦
        rw (has, object) (new_config-Fits present m.set_module_context (initialize m.admin) a)
  ]
]

-- A call that found a configuration.
found-done : (m : Metadata) (f c : SiteConfig) → (get_config m (some f)).0 ≡ done c → c ≡ f
unfolding get_config
found-done m f c h = ground arith

since :
    (k : Container)
    → IsContainer k
    → (c : SiteConfig) → Memᴰ (some c) (k.held ∷ k.past)
    → k.held ≡ some c
since k v c (Memᴰ.head here) = sym here
since k v c (Memᴰ.tail before) = v.keeps c before

-- What one call does to what is held.
record Served (k l : Container) (m : Metadata) (r : Step SiteConfig) : Type 0 where
  grows : (c : SiteConfig) → k.held ≡ some c → l.held ≡ some c
  gives : (c : SiteConfig) → r ≡ done c → l.held ≡ some c
  reads :
      (c : SiteConfig)
      → l.held ≡ some c
      → (k.held ≡ some c) ⊎ ((s : Section) × (m.admin ≡ some (section s)) × Reads s c)

served-Served :
    (k : Container) (first : Option SiteConfig) (m : Metadata)
    → IsContainer k
    → Memᴰ first (k.held ∷ k.past)
    → Answers k.held m.set_module_context
    → Served k (served k first m) m (get_config m first).0
served-Served k (some f) m v found a = record {
  grows = λ c h. h;
  gives = λ c h. since k v f found ∙ ap some (sym (found-done m f c h));
  reads = λ c. inl;
}
served-Served k none m v found a = record {
  grows = λ c. (get_config-Fits m k.held a c).0;
  gives = λ c. (get_config-Fits m k.held a c).1;
  reads = λ c h. elim ((get_config-Fits m k.held a c).2 h) [
    | inl held ↦ inl held
    | inr (ours, ran) ↦ inr (get_config-Reads m c ours ran)
  ];
}

noted-has :
    (r : Step SiteConfig) (cs : List SiteConfig) (held : Option SiteConfig) (c : SiteConfig)
    → (r ≡ done c → held ≡ some c)
    → (Memᴰ c cs → held ≡ some c)
    → Memᴰ c (noted r cs)
    → held ≡ some c
noted-has (failed hr) cs held c now before m = before m
noted-has exception cs held c now before m = before m
noted-has (done d) cs held c now before (Memᴰ.head same) = now (ap done (sym same))
noted-has (done d) cs held c now before (Memᴰ.tail m) = before m

served-IsContainer :
    (k : Container) (first : Option SiteConfig) (m : Metadata)
    → IsContainer k
    → Memᴰ first (k.held ∷ k.past)
    → Answers k.held m.set_module_context
    → IsContainer (served k first m)
served-IsContainer k first m v found a = record {
  keeps = λ c before. call.grows c (since k v c before);
  has = λ c.
      noted-has (get_config m first).0 k.returned (served k first m).held c (call.gives c)
        (λ before. call.grows c (v.has c before));
  read = λ c h. elim (call.reads c h) [
    | inl held ↦ let (s, told, reads) = v.read c held in (s, Memᴰ.tail told, reads)
    | inr (s, told, reads) ↦ (s, Memᴰ.head (sym told), reads)
  ];
}
  where
    call : Served k (served k first m) m (get_config m first).0
    call = served-Served k first m v found a

Reach-IsContainer : {k : Container} → Reach k → IsContainer k
Reach-IsContainer start = record {
  keeps = λ c m. elim m [ ];
  has = λ c m. elim m [ ];
  read = λ c h. absurd (ground arith);
}
Reach-IsContainer (later r (serve first m found a)) =
    served-IsContainer _ first m (Reach-IsContainer r) found a

-- In one life of the container of a configuration path, that is until IIS discards what it holds,
-- as it does when the configuration changes, and however the calls of GetConfig interleave, with a
-- container that answers SetModuleContext by what it holds: all calls that return a configuration return the same
-- one, it is the one that the container holds, and it says just what the administration's section
-- said to one of the calls.
pub Reach-one_config :
    {k : Container} (c d : SiteConfig)
    → Reach k
    → Memᴰ c k.returned
    → Memᴰ d k.returned
    → (c ≡ d) × (k.held ≡ some c) × WasRead k c
Reach-one_config c d reach mc md =
    let v = Reach-IsContainer reach in
    let hc = v.has c mc in let hd = v.has d md in (ground (arith, hc, hd), hc, v.read c hc)
