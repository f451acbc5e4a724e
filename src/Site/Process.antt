-- ===== src/Site/Process.antt =====
-- A worker process that serves one configuration path: the calls of `GetConfig` and the requests'
-- calls of `getRules` interleave over the containers of the path and the one cache of rule sets.
pub mod Books
pub mod Service
use mathlib.Core.List.{Memᴰ}
use mathlib.Core.Path.{subst}
use mod_security_iis.Prelude.{
  ℕ, ◌≡◌, ◌∙◌, refl, sym, ap, ◌⊎◌, inl, inr, Bool, true, false, Option, none, some, List, [], ◌∷◌,
  arith, Bool-cases, if◌then◌else◌, ◌==◌,
}
use mod_security_iis.System.{Bytes, Env, World, HttpRequest, rq_continue, ok}
use mod_security_iis.Settings.{config_fail_closed}
use mod_security_iis.ModuleConfig.{SiteConfig, failed, exception, done, Metadata, get_config}
use mod_security_iis.ModuleConfig.Threads as Configs
use mod_security_iis.RulesCache.{
  FileSystem, get_rules_file_time, Cache, Loading, Answer, call_rules,
}
use mod_security_iis.Site.{answer_of}
use mod_security_iis.RulesCache.Calls.{book}
use mod_security_iis.RulesCache.Threads as Rules
use mod_security_iis.BeginRequest.{Arrival, got, installed, feed_request, on_begin_request}
use mod_security_iis.BeginRequest.Verdict.{
  rules_of, is_off, PassesThrough, Inspected, tracked, JudgedFine, on_begin_request-continue,
}
use mod_security_iis.Site.Protection.{rules_file}

-- A request as OnBeginRequest met it, with the number of the container that its metadata has.
pub record Begun : Type 0 where
  pub generation : ℕ
  pub env : Env
  pub arrival : Arrival
  pub world : World

-- What the process keeps, and the requests so far. IIS discards the stored configuration when the
-- site's configuration changes; the requests after that meet another container, so the containers
-- are numbered. Requests of the old ones may still be under way.
pub record Process : Type 0 where
  pub containers : ℕ → Configs.Container
  pub server : Rules.Server
  pub begun : List Begun

-- What GetConfig gave to a request: nothing, or what one of its calls returned.
abbrev pub WasGiven : Process → ℕ → Option SiteConfig → Type 0
WasGiven p g none = Unit
WasGiven p g (some c) = Memᴰ c (p.containers g).returned

-- What the file system and the loader answer when getRules asks.
pub record Files : Type 0 where
  pub system : FileSystem
  pub load : Bytes → Loading

-- The rule set of a file, for a call whose first critical section found the cache `first`.
abbrev pub rules_for : Cache → Cache → Files → Bytes → Option Answer
rules_for first now fs file =
    (call_rules first now file (get_rules_file_time fs.system file) (fs.load file)).0

abbrev pub met_by : Process → Arrival → Option SiteConfig → Cache → Files → Arrival
met_by p a o first fs = record a {
  config = o;
  rules_answer = λ file. answer_of (rules_for first p.server.cache fs file);
}

-- The cache of rule sets after the request: OnBeginRequest asks for rules where the module is on.
abbrev pub asked : Process → Arrival → Option SiteConfig → Cache → Files → Rules.Server
asked p a none first fs = p.server
asked p a (some c) first fs =
    let file = rules_file a c in
    if is_off c
    then p.server
    else Rules.served p.server first file (get_rules_file_time fs.system file) (fs.load file)

abbrev pub configured : Process → ℕ → Configs.Container → Process
configured p g k = record p { containers = λ j. if g == j then k else p.containers j }

abbrev pub begins :
    Process → ℕ → Env → Arrival → World → Option SiteConfig → Cache → Files → Process
begins p g e a w o first fs = record p {
  server = asked p a o first fs;
  begun = record { generation = g; env = e; arrival = met_by p a o first fs; world = w } ∷ p.begun;
}

-- One call of GetConfig, or one request with what an earlier call gave it.
pub data Step (p : Process) : Process → Type 0 where
  configure :
      (g : ℕ) {k : Configs.Container} → Configs.Serve (p.containers g) k → Step p (configured p g k)
  begin :
      (g : ℕ) (e : Env) (a : Arrival) (w : World) (o : Option SiteConfig) (first : Cache)
      (fs : Files)
      → WasGiven p g o
      → Memᴰ first (p.server.cache ∷ p.server.past)
      → Step p (begins p g e a w o first fs)

abbrev pub idle_process : Process
idle_process = record {
  containers = λ g. Configs.empty_container;
  server = Rules.fresh;
  begun = [];
}

pub data Reach : Process → Type 0 where
  start : Reach idle_process
  later : {p q : Process} → Reach p → Step p q → Reach q
