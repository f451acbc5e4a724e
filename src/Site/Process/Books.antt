-- ===== src/Site/Process/Books.antt =====
-- What the requests of a process were given stays in its books.
use mathlib.Core.List.{Memᴰ}
use mathlib.Core.Path.{subst}
use mod_security_iis.Prelude.{
  ℕ, ◌==◌, ◌≡◌, refl, sym, ap, inl, inr, false, Option, none, some, List, ◌∷◌, arith, Bool-cases,
}
use mod_security_iis.System.{Bytes}
use mod_security_iis.ModuleConfig
use mod_security_iis.ModuleConfig.{SiteConfig, failed, exception, done, Metadata, get_config}
use mod_security_iis.ModuleConfig.Threads as Configs
use mod_security_iis.RulesCache.{get_rules_file_time, Cache}
use mod_security_iis.RulesCache.Threads as Rules
use mod_security_iis.BeginRequest.{Arrival, got}
use mod_security_iis.BeginRequest.Verdict.{rules_of, is_off}
use mod_security_iis.Site.Protection.{rules_file, answer_of-got}
use mod_security_iis.RulesCache.{rules_of_answer}
use mod_security_iis.Site.Process.{
  Begun, Process, WasGiven, Files, rules_for, asked, configured, begins, Step, configure, begin,
  Reach, start, later,
}

-- What a request was given stays in the books of the process.
pub record Answered (k : Configs.Container) (s : Rules.Server) (x : Begun) : Type 0 where
  pub config : (c : SiteConfig) → x.arrival.config ≡ some c → Memᴰ c k.returned
  pub rules :
      (c : SiteConfig) (n : ℕ)
      → x.arrival.config ≡ some c
      → is_off c ≡ false
      → rules_of x.arrival c ≡ got (some n)
      → Memᴰ (rules_file x.arrival c, n) s.answers

pub record IsProcess (p : Process) : Type 0 where
  pub container : (g : ℕ) → Configs.Reach (p.containers g)
  pub server : Rules.Reach p.server
  pub answered : (x : Begun) → Memᴰ x p.begun → Answered (p.containers x.generation) p.server x

-- The books only grow.
noted-config :
    (r : ModuleConfig.Step SiteConfig) (cs : List SiteConfig) (c : SiteConfig)
    → Memᴰ c cs
    → Memᴰ c (Configs.noted r cs)
noted-config (failed hr) cs c m = m
noted-config exception cs c m = m
noted-config (done d) cs c m = Memᴰ.tail m

noted-rules :
    (file : Bytes) (o : Option ℕ) (answers : List (Bytes × ℕ)) (x : Bytes × ℕ)
    → Memᴰ x answers
    → Memᴰ x (Rules.noted file o answers)
noted-rules file none answers x m = m
noted-rules file (some n) answers x m = Memᴰ.tail m

asked-grows :
    (p : Process) (a : Arrival) (o : Option SiteConfig) (first : Cache) (fs : Files) (x : Bytes × ℕ)
    → Memᴰ x p.server.answers
    → Memᴰ x (asked p a o first fs).answers
asked-grows p a none first fs x m = m
asked-grows p a (some c) first fs x m = elim (Bool-cases (is_off c)) [
  | inl off ↦ rw off m
  | inr on ↦ rw on (
      noted-rules (rules_file a c)
        (rules_of_answer (rules_for first p.server.cache fs (rules_file a c))) p.server.answers x m)
]

asked-Reach :
    (p : Process) (a : Arrival) (o : Option SiteConfig) (first : Cache) (fs : Files)
    → Memᴰ first (p.server.cache ∷ p.server.past)
    → Rules.Reach p.server
    → Rules.Reach (asked p a o first fs)
asked-Reach p a none first fs found r = r
asked-Reach p a (some c) first fs found r = elim (Bool-cases (is_off c)) [
  | inl off ↦ rw off r
  | inr on ↦ rw on (
      Rules.later r (
        Rules.serve first (rules_file a c) (get_rules_file_time fs.system (rules_file a c))
          (fs.load (rules_file a c)) found refl))
]

given :
    (p : Process) (g : ℕ) (o : Option SiteConfig) (c : SiteConfig)
    → WasGiven p g o
    → o ≡ some c
    → Memᴰ c (p.containers g).returned
given p g none c was h = absurd (ground arith)
given p g (some d) c was h =
    let d≡c : d ≡ c = ground arith in subst (λ x. Memᴰ x (p.containers g).returned) d≡c was

noted-new :
    (file : Bytes) (o : Option ℕ) (answers : List (Bytes × ℕ)) (n : ℕ)
    → o ≡ some n
    → Memᴰ (file, n) (Rules.noted file o answers)
noted-new file none answers n h = absurd (ground arith)
noted-new file (some m) answers n h =
    let n≡m : n ≡ m = ground arith in Memᴰ.head (ap (λ k. (file, k)) n≡m)

asked-new :
    (p : Process) (a : Arrival) (o : Option SiteConfig) (first : Cache) (fs : Files)
    (c : SiteConfig) (n : ℕ)
    → o ≡ some c
    → is_off c ≡ false
    → rules_of_answer (rules_for first p.server.cache fs (rules_file a c)) ≡ some n
    → Memᴰ (rules_file a c, n) (asked p a o first fs).answers
asked-new p a none first fs c n h on rules = absurd (ground arith)
asked-new p a (some d) first fs c n h on rules =
    let c≡d : c ≡ d = ground arith in
    subst (λ x. Memᴰ (rules_file a c, n) (asked p a (some x) first fs).answers) c≡d
      (rw on (noted-new (rules_file a c) _ p.server.answers n rules))

Answered-grows :
    {k l : Configs.Container} {s t : Rules.Server} {x : Begun}
    → ((c : SiteConfig) → Memᴰ c k.returned → Memᴰ c l.returned)
    → ((y : Bytes × ℕ) → Memᴰ y s.answers → Memᴰ y t.answers)
    → Answered k s x
    → Answered l t x
Answered-grows configs rules v = record {
  config = λ c h. configs c (v.config c h);
  rules = λ c n h on r. rules _ (v.rules c n h on r);
}

configured-Reach :
    (p : Process) (g : ℕ) (k : Configs.Container)
    → ((j : ℕ) → Configs.Reach (p.containers j))
    → Configs.Reach k
    → (j : ℕ) → Configs.Reach ((configured p g k).containers j)
configured-Reach p g k before now j = elim (Bool-cases (g == j)) [
  | inl same ↦ subst Configs.Reach (sym (ground arith)) now
  | inr other ↦ subst Configs.Reach (sym (ground arith)) (before j)
]

configured-grows :
    (p : Process) (g : ℕ) (k : Configs.Container)
    → ((c : SiteConfig) → Memᴰ c (p.containers g).returned → Memᴰ c k.returned)
    → (j : ℕ) (c : SiteConfig) → Memᴰ c (p.containers j).returned
    → Memᴰ c ((configured p g k).containers j).returned
configured-grows p g k more j c m = elim (Bool-cases (g == j)) [
  | inl same ↦
      let j≡g : j ≡ g = ground arith in
      let here : (configured p g k).containers j ≡ k = ground arith in
      subst (λ (l : Configs.Container). Memᴰ c l.returned) (sym here)
        (more c (subst (λ i. Memᴰ c (p.containers i).returned) j≡g m))
  | inr other ↦
      let there : (configured p g k).containers j ≡ p.containers j = ground arith in
      subst (λ (l : Configs.Container). Memᴰ c l.returned) (sym there) m
]

Step-IsProcess : {p q : Process} → IsProcess p → Step p q → IsProcess q
Step-IsProcess {p} v (configure g {k} (Configs.serve first m found a)) = record {
  container =
      configured-Reach p g k v.container
        (Configs.later (v.container g) (Configs.serve first m found a));
  server = v.server;
  answered = λ x before.
      Answered-grows
        (configured-grows p g k
          (λ c. noted-config (get_config m first).0 (p.containers g).returned c) x.generation)
        (λ y h. h) (v.answered x before);
}
Step-IsProcess {p} v (begin g e a w o first fs was found) = record {
  container = v.container;
  server = asked-Reach p a o first fs found v.server;
  answered = each;
}
  where
    each :
        (x : Begun)
        → Memᴰ x (begins p g e a w o first fs).begun
        → Answered (p.containers x.generation) (asked p a o first fs) x
    each x (Memᴰ.head same) =
        subst (λ (y : Begun). Answered (p.containers y.generation) (asked p a o first fs) y)
          (sym same)
          (record {
            config = λ c. given p g o c was;
            rules = λ c n h on r.
                asked-new p a o first fs c n h on
                  (answer_of-got (rules_for first p.server.cache fs (rules_file a c)) n r);
          })
    each x (Memᴰ.tail before) =
        Answered-grows (λ c m. m) (asked-grows p a o first fs) (v.answered x before)

pub Reach-IsProcess : {p : Process} → Reach p → IsProcess p
Reach-IsProcess start = record {
  container = λ g. Configs.start;
  server = Rules.start;
  answered = λ x m. elim m [ ];
}
Reach-IsProcess (later r step) = Step-IsProcess (Reach-IsProcess r) step
