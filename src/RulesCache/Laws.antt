-- ===== src/RulesCache/Laws.antt =====
-- A rule set, once cached, stays for the life of the process.
use mod_security_iis.Prelude.{
  ◌≡◌, refl, inl, inr, ◌↔◌, true, false, Option, none, some, [], ◌∷◌, arith, if◌then◌else◌,
  Option-cases, Bool-cases,
}
use mod_security_iis.System.{Bytes}
use mod_security_iis.RulesCache.{
  FileTime, CachedRules, Cache, Load, stamp, loaded, parse_error, same_path, find, insert,
  fast_path, store, get_rules,
}

pub same_path_refl : (s : Bytes) → same_path s s ≡ true
unfolding same_path
same_path_refl [] = refl
same_path_refl (c ∷ s) = ground (arith, same_path_refl s)

pub same_path-eq : (s t : Bytes) → same_path s t ≡ true → s ≡ t
unfolding same_path
same_path-eq [] [] h = refl
same_path-eq [] (d ∷ t) h = cc
same_path-eq (c ∷ s) [] h = cc
same_path-eq (c ∷ s) (d ∷ t) h = ground (arith, same_path-eq s t)

-- Inserting one path changes the entry of that path alone.
pub find-insert :
    (file other : Bytes) (entry : CachedRules) (cache : Cache)
    → find other (insert file entry cache)
      ≡ (if same_path other file then some entry else find other cache)
unfolding find insert
find-insert file other entry [] = refl
find-insert file other entry ((f, old) ∷ cache) = elim (Bool-cases (same_path file f)) [
  | inl here ↦ rw (same_path-eq file f here, same_path_refl f) (ground arith)
  | inr there ↦ ground (arith, find-insert file other entry cache, differ)
]
  where
    differ : same_path other f ≡ true → same_path other file ≡ true → same_path file f ≡ true
    differ p q =
        let a : other ≡ f = same_path-eq other f p in
        let b : other ≡ file = same_path-eq other file q in rw (← b, a) (same_path_refl f)

store-keeps :
    (cache : Cache) (file other : Bytes) (time : Option FileTime) (load : Load)
    (entry : CachedRules)
    → find other cache ≡ some entry
    → find other (store cache file time load).1 ≡ some entry
unfolding store
store-keeps cache file other time (parse_error message) entry h = h
store-keeps cache file other time (loaded r) entry h = elim (Option-cases (find file cache)) [
  | inl absent ↦
      let new : CachedRules = record { rules = r; mtime = stamp time } in
      rw absent (rw (find-insert file other new cache) (ground (arith, apart absent)))
  | inr (old, present) ↦ rw present h
]
  where
    apart : find file cache ≡ none → same_path other file ≡ false
    apart absent = elim (Bool-cases (same_path other file)) [
      | inl same ↦ absurd (ground (arith, same_path-eq other file same))
      | inr differ ↦ differ
    ]

-- A file that is in the cache keeps its entry, over every call for any file, whatever the file's
-- time and whether or not it loads again.
pub get_rules-keeps :
    (first second : Cache) (file other : Bytes) (time : Option FileTime) (load : Load)
    (entry : CachedRules)
    → find other second ≡ some entry
    → find other (get_rules first second file time load).1 ≡ some entry
unfolding get_rules
get_rules-keeps first second file other time load entry h =
    ground (arith, store-keeps second file other time load entry h)

-- A call for a file that is in the cache, which no other call changes meanwhile, returns the
-- cached rule set: a file that changed on disk and loads again is not taken over.
pub get_rules-stale :
    (cache : Cache) (file : Bytes) (time : Option FileTime) (load : Load) (entry : CachedRules)
    → find file cache ≡ some entry
    → (get_rules cache cache file time load).0.rules ≡ some entry.rules
unfolding get_rules store fast_path
get_rules-stale cache file none load entry h = ground arith
get_rules-stale cache file (some t) (loaded r) entry h = ground arith
get_rules-stale cache file (some t) (parse_error m) entry h = ground arith

-- No rule set is returned exactly when the first critical section finds no entry to use, the second
-- finds no entry of the file at all, and the file does not parse.
pub get_rules-none :
    (first second : Cache) (file : Bytes) (time : Option FileTime) (load : Load)
    → ((get_rules first second file time load).0.rules ≡ none) ↔ (
        (fast_path first file time ≡ none)
        × (find file second ≡ none)
        × ((message : Bytes) × (load ≡ parse_error message)))
unfolding get_rules store
get_rules-none first second file time (loaded r) =
    (λ h. absurd (ground arith), λ h. absurd (ground arith))
get_rules-none first second file time (parse_error m) =
    (λ h. (ground arith, ground arith, (m, refl)), λ h. ground arith)
