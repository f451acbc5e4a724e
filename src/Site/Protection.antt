-- ===== src/Site/Protection.antt =====
-- What the module's caches mean for a request.
use mathlib.Core.Path.{subst}
use mod_security_iis.Prelude.{
  ℕ, ◌*◌, ◌≡◌, ◌∙◌, refl, sym, ap, ◌⊎◌, inl, inr, true, false, Option, none, some,
}
use mod_security_iis.System.{
  Bytes, Env, World, HttpRequest, rq_continue, rq_finish_request, Result, Status, ok, catch, note,
  pure, ◌>>◌, log_event, exception_in, in_begin_request,
}
use mod_security_iis.Settings.{config_fail_closed}
use mod_security_iis.ModuleConfig.{SiteConfig}
use mod_security_iis.RulesCache.{
  CachedRules, Cache, Load, Answer, find, get_rules, ends, call_rules, rules_of_answer,
}
use mod_security_iis.RulesCache.Exceptions.{call_rules-has, call_rules-ends}
use mod_security_iis.RulesCache.Calls.{
  Book, Serves, gives, refuses, Grows, book, rules_in, get_rules-Serves,
}
use mod_security_iis.BeginRequest.{
  Arrival, got, installed, open_context, on_begin_request, begin_request, with_config, with_rules,
  units, w_to_utf8,
}
use mod_security_iis.BeginRequest.Verdict.{
  rules_of, is_off, PassesThrough, InspectedBy, on_begin_request-continue,
}
use mod_security_iis.Site.{Caches, config_of, answer_of, rules_after, met, begin_at_site}

-- The file of rules that a request asks for.
abbrev pub rules_file : Arrival → SiteConfig → Bytes
rules_file a c = w_to_utf8 a.utf8 c.path (units c.path * 2)

-- The module is off for the site.
abbrev pub Unprotected : Caches → Type 0
Unprotected s = (c : SiteConfig) × (config_of s ≡ some c) × (is_off c ≡ true)

-- The engine judged the request by the rule set that the cache has for the site's file, and let
-- it go on.
abbrev pub Protected : Env → Caches → Arrival → HttpRequest → World → Type 0
Protected e s a req w =
    (c : SiteConfig) × (n : ℕ) × (config_of s ≡ some c)
    × (book (rules_after s (rules_file a c)) (rules_file a c) ≡ some n)
    × InspectedBy n c e (met s a) req w

pub answer_of-got :
    (o : Option Answer) (n : ℕ) → answer_of o ≡ got (some n) → rules_of_answer o ≡ some n
answer_of-got none n p = absurd (cc p)
answer_of-got (some a) n p = cc p

passes-Unprotected :
    (e : Env) (s : Caches) (a : Arrival) (req : HttpRequest)
    → config_fail_closed e ≡ true
    → a.set_module_context ≡ installed
    → e.raw_request ≡ some req
    → PassesThrough e (met s a)
    → Unprotected s
passes-Unprotected e s a req closed ours raw (inl (missing, opened)) = absurd (cc (closed, opened))
passes-Unprotected e s a req closed ours raw (inr (inl off)) = off
passes-Unprotected e s a req closed ours raw (inr (inr (inl taken))) = absurd (cc (ours, taken))
passes-Unprotected e s a req closed ours raw (inr (inr (inr gone))) = absurd (cc (raw, gone))

-- Unless the operator opted out of failing closed, a request that IIS has in raw form and whose
-- context it takes goes on only where its site's configuration switches the module off or names
-- no file, or after the engine judged it by the rule set that the cache has for the site's file.
-- Other threads may have added files to the cache between the critical sections of getRules.
begin_at_site-protects :
    (e : Env) (s : Caches) (a : Arrival) (req : HttpRequest) (w : World)
    → Grows s.first s.second
    → config_fail_closed e ≡ true
    → a.set_module_context ≡ installed
    → e.raw_request ≡ some req
    → (begin_at_site e s a w).0 ≡ ok rq_continue
    → Unprotected s ⊎ Protected e s a req w
unfolding begin_at_site
begin_at_site-protects e s a req w grows closed ours raw h =
    elim (on_begin_request-continue e (met s a) w h) [
      | inl passes ↦ inl (passes-Unprotected e s a req closed ours raw passes)
      | inr (c, n, req', config, rules, raw', judged) ↦
          let same : req' ≡ req = cc (raw, raw') in
          inr (
            c,
            n,
            config,
            known c n rules,
            subst (λ r. InspectedBy n c e (met s a) r w) same judged,
          )
    ]
  where
    known :
        (c : SiteConfig) (n : ℕ)
        → rules_of (met s a) c ≡ got (some n)
        → book (rules_after s (rules_file a c)) (rules_file a c) ≡ some n
    known c n rules =
        let file = rules_file a c in
        call_rules-has s.first s.second file (s.time file) (s.load file) n grows
          (answer_of-got (call_rules s.first s.second file (s.time file) (s.load file)).0 n rules)

Serves-cached :
    (file : Bytes) (b b' : Book) (o : Option ℕ) (n : ℕ)
    → Serves file b b' o
    → b file ≡ some n
    → o ≡ some n
Serves-cached file b b' (some r) n (gives r' known others same) p = ap some (sym (same n p))
Serves-cached file b b' none n (refuses unknown same) p = absurd (cc (unknown, p))

begin_request-opens :
    (e : Env) (a : Arrival) (c : SiteConfig) (n : ℕ) (w : World)
    → e.has_request w.trace ≡ true
    → a.config ≡ some c
    → is_off c ≡ false
    → rules_of a c ≡ got (some n)
    → begin_request e a w ≡ open_context e a c n w
unfolding begin_request with_config with_rules
begin_request-opens e a c n w has config on found = rw (has, config, on, found) refl

-- A file of rules that the cache knows is not the reason to refuse a request, unless getRules
-- throws. Where getRules comes to its end, IIS has the request and the module is on for the site,
-- the handler opens the request with the rule set that the cache has, also when the file has
-- changed, is gone, or does not load any more. Other threads may have added files to the cache
-- between the critical sections of getRules.
pub begin_at_site-cached :
    (e : Env) (s : Caches) (a : Arrival) (c : SiteConfig) (entry : CachedRules) (load : Load)
    (w : World)
    → Grows s.first s.second
    → s.load (rules_file a c) ≡ ends load
    → config_of s ≡ some c
    → is_off c ≡ false
    → find (rules_file a c) s.second ≡ some entry
    → e.has_request w.trace ≡ true
    → begin_at_site e s a w
      ≡ catch
          (open_context e (met s a) c entry.rules)
          (note (log_event (exception_in in_begin_request)) >> pure rq_finish_request)
          w
unfolding begin_at_site on_begin_request
begin_at_site-cached e s a c entry load w grows loads config on present has =
    let file = rules_file a c in
    let (answer, cache) = get_rules s.first s.second file (s.time file) load in
    let given : answer.rules ≡ some entry.rules =
      Serves-cached file (book s.second) (book cache) answer.rules entry.rules
        (get_rules-Serves s.first s.second file (s.time file) load grows) (ap rules_in present) in
    let ran : call_rules s.first s.second file (s.time file) (s.load file) ≡ (some answer, cache) =
      ap (call_rules s.first s.second file (s.time file)) loads
      ∙ call_rules-ends s.first s.second file (s.time file) load in
    ap
      (λ (x : Result Status × World).
        catch (λ (v : World). x)
          (note (log_event (exception_in in_begin_request)) >> pure rq_finish_request) w)
      (begin_request-opens e (met s a) c entry.rules w has config on
        (ap (λ (x : Option Answer × Cache). answer_of x.0) ran ∙ ap got given))
