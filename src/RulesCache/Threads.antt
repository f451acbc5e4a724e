-- ===== src/RulesCache/Threads.antt =====
-- Calls of `getRules` by many threads, as steps of a server.
use mathlib.Core.List.{Memᴰ}
use mathlib.Core.Path.{subst}
use mod_security_iis.Prelude.{
  ◌≡◌, sym, ap, refl, inl, inr, ℕ, Option, none, some, List, [], ◌∷◌, arith, Option-cases,
}
use mod_security_iis.System.{Bytes}
use mod_security_iis.RulesCache.{FileTime, Cache, Loading, find, call_rules, rules_of_answer}
use mod_security_iis.RulesCache.Exceptions.{call_rules-has, call_rules-Grows}
use mod_security_iis.RulesCache.Calls.{Book, book, Grows}

-- The process: the cache, every cache before it, and the rule sets that calls returned for files.
pub record Server : Type 0 where
  pub cache : Cache
  pub past : List Cache
  pub answers : List (Bytes × ℕ)

abbrev pub noted : Bytes → Option ℕ → List (Bytes × ℕ) → List (Bytes × ℕ)
noted file none answers = answers
noted file (some r) answers = (file, r) ∷ answers

-- The server after a call whose first critical section found the cache `first`.
abbrev pub served : Server → Cache → Bytes → Option FileTime → Loading → Server
served s first file time load =
    let (a, c) = call_rules first s.cache file time load in
    record {
      cache = c;
      past = s.cache ∷ s.past;
      answers = noted file (rules_of_answer a) s.answers;
    }

-- Threads interleave freely: a call may have found any cache since the process started.
pub data Step (s : Server) (t : Server) : Type 0 where
  serve :
      (first : Cache) (file : Bytes) (time : Option FileTime) (load : Loading)
      → Memᴰ first (s.cache ∷ s.past)
      → t ≡ served s first file time load
      → Step s t

abbrev pub fresh : Server
fresh = record { cache = []; past = []; answers = [] }

pub data Reach : Server → Type 0 where
  start : Reach fresh
  later : {s t : Server} → Reach s → Step s t → Reach t

-- Every cache of the past has grown into the present one, which has every answer.
pub record IsServer (s : Server) : Type 0 where
  pub grows : (c : Cache) → Memᴰ c s.past → Grows c s.cache
  pub has : (file : Bytes) (r : ℕ) → Memᴰ (file, r) s.answers → book s.cache file ≡ some r

Grows-book :
    (first second : Cache) (f : Bytes) (r : ℕ)
    → Grows first second
    → book first f ≡ some r
    → book second f ≡ some r
Grows-book first second f r grows h = elim (Option-cases (find f first)) [
  | inl absent ↦ absurd (ground arith)
  | inr (entry, present) ↦ ground (arith, grows f entry present)
]

-- The caches of the past and the present one.
since : (s : Server) → IsServer s → (c : Cache) → Memᴰ c (s.cache ∷ s.past) → Grows c s.cache
since s v c (Memᴰ.head here) f entry h = subst (λ d. find f d ≡ some entry) here h
since s v c (Memᴰ.tail before) f entry h = v.grows c before f entry h

noted-has :
    (b : Book) (file f : Bytes) (o : Option ℕ) (r : ℕ) (answers : List (Bytes × ℕ))
    → ((n : ℕ) → o ≡ some n → b file ≡ some n)
    → ((g : Bytes) (n : ℕ) → Memᴰ (g, n) answers → b g ≡ some n)
    → Memᴰ (f, r) (noted file o answers)
    → b f ≡ some r
noted-has b file f none r answers now before m = before f r m
noted-has b file f (some n) r answers now before (Memᴰ.head same) =
    rw (ap (λ (p : Bytes × ℕ). p.0) same, ap (λ (p : Bytes × ℕ). p.1) same) (now n refl)
noted-has b file f (some n) r answers now before (Memᴰ.tail m) = before f r m

served-IsServer :
    (s : Server) (first : Cache) (file : Bytes) (time : Option FileTime) (load : Loading)
    → Memᴰ first (s.cache ∷ s.past)
    → IsServer s
    → IsServer (served s first file time load)
served-IsServer s first file time load m v = record {
  grows = λ c m' f entry h.
      call_rules-Grows first s.cache file time load f entry (since s v c m' f entry h);
  has = λ f r.
      noted-has (book c) file f (rules_of_answer (call_rules first s.cache file time load).0) r
        s.answers (λ n. call_rules-has first s.cache file time load n (since s v first m))
        (λ g n m'.
          Grows-book s.cache c g n (call_rules-Grows first s.cache file time load) (v.has g n m'));
}
  where
    c : Cache
    c = (call_rules first s.cache file time load).1

pub Reach-IsServer : {s : Server} → Reach s → IsServer s
Reach-IsServer start = record {
  grows = λ c m. absurd (none_in m);
  has = λ f r m. absurd (none_in m);
}
  where
    none_in : {A : Type 0} {a : A} → Memᴰ a [] → ⊥
    none_in m = elim m [ ]
Reach-IsServer (later r (serve first file time load m same)) =
    subst IsServer (sym same) (served-IsServer _ first file time load m (Reach-IsServer r))

-- However calls of many threads interleave, and whichever of them throw, all that return a rule set for a file return the same
-- one, for the life of the process.
pub Reach-agree :
    {s : Server} (file : Bytes) (r r' : ℕ)
    → Reach s
    → Memᴰ (file, r) s.answers
    → Memᴰ (file, r') s.answers
    → r ≡ r'
Reach-agree file r r' reach m m' =
    let v = Reach-IsServer reach in
    let e = v.has file r m in let e' = v.has file r' m' in ground (arith, e, e')
