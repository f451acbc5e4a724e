-- ===== src/RulesCache/Exceptions.antt =====
-- Calls of `getRules` that an exception may end.
use mathlib.Core.Path.{subst}
use mod_security_iis.Prelude.{
  ◌≡◌, sym, refl, ◌⊎◌, inl, inr, ℕ, Option, none, some, [], arith, Option-cases,
}
use mod_security_iis.System.{Bytes}
use mod_security_iis.RulesCache.{
  FileTime, Cache, Load, parse_error, Answer, find, fast_path, get_rules, Loading, ends,
  throws_early, throws, call_rules, rules_of_answer,
}
use mod_security_iis.RulesCache.Laws.{get_rules-keeps}
use mod_security_iis.RulesCache.Calls.{book, Grows, Serves-has, get_rules-Serves}

call_rules-early :
    (first second : Cache) (file : Bytes) (time : Option FileTime)
    → call_rules first second file time throws_early ≡ (none, second)
unfolding call_rules
call_rules-early first second file time = refl

pub call_rules-ends :
    (first second : Cache) (file : Bytes) (time : Option FileTime) (load : Load)
    → let (a, cache) = get_rules first second file time load in
      call_rules first second file time (ends load) ≡ (some a, cache)
unfolding call_rules
call_rules-ends first second file time load = refl

-- An exception either ends the call with the cache as it was, or does not come, since the first
-- critical section answers.
call_rules-throws :
    (first second : Cache) (file : Bytes) (time : Option FileTime)
    → let (a, cache) = get_rules first second file time (parse_error []) in
      (call_rules first second file time throws ≡ (none, second))
      ⊎ (call_rules first second file time throws ≡ (some a, cache))
unfolding call_rules get_rules
call_rules-throws first second file time = elim (Option-cases (fast_path first file time)) [
  | inl missed ↦ inl (ground arith)
  | inr (r, hit) ↦ inr (ground arith)
]

-- A call either throws and leaves the cache alone, or does what `get_rules` does with some load.
pub call_rules-cases :
    (first second : Cache) (file : Bytes) (time : Option FileTime) (loading : Loading)
    → (call_rules first second file time loading ≡ (none, second))
      ⊎ ((load : Load) × (call_rules first second file time loading
            ≡ (let (a, cache) = get_rules first second file time load in (some a, cache))))
call_rules-cases first second file time (ends load) =
    inr (load, call_rules-ends first second file time load)
call_rules-cases first second file time throws_early = inl (call_rules-early first second file time)
call_rules-cases first second file time throws = elim (call_rules-throws first second file time) [
  | inl none_given ↦ inl none_given
  | inr answers ↦ inr (parse_error [], answers)
]

-- The rules that a call returns are what the cache then has.
pub call_rules-has :
    (first second : Cache) (file : Bytes) (time : Option FileTime) (loading : Loading) (r : ℕ)
    → Grows first second
    → let (a, cache) = call_rules first second file time loading in
      rules_of_answer a ≡ some r → book cache file ≡ some r
call_rules-has first second file time loading r grows h =
    elim (call_rules-cases first second file time loading) [
      | inl threw ↦ absurd (ground arith)
      | inr (load, same) ↦
          subst
            (λ (x : Option Answer × Cache). rules_of_answer x.0 ≡ some r → book x.1 file ≡ some r)
            (sym same)
            (Serves-has file (book second) (book (get_rules first second file time load).1)
              (get_rules first second file time load).0.rules r
              (get_rules-Serves first second file time load grows))
            h
    ]

pub call_rules-Grows :
    (first second : Cache) (file : Bytes) (time : Option FileTime) (loading : Loading)
    → Grows second (call_rules first second file time loading).1
call_rules-Grows first second file time loading f entry h =
    elim (call_rules-cases first second file time loading) [
      | inl threw ↦ subst (λ (x : Option Answer × Cache). find f x.1 ≡ some entry) (sym threw) h
      | inr (load, same) ↦
          subst (λ (x : Option Answer × Cache). find f x.1 ≡ some entry) (sym same)
            (get_rules-keeps first second file f time load entry h)
    ]
