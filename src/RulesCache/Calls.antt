-- ===== src/RulesCache/Calls.antt =====
-- One call of `getRules` among those of other threads: it finds the cache twice, at its two critical
-- sections, and other calls may change it in between.
use mod_security_iis.Prelude.{
  ◌≡◌, ◌∙◌, refl, inl, inr, ℕ, false, Option, none, some, arith, Option-cases, Bool-cases,
}
use mod_security_iis.System.{Bytes}
use mod_security_iis.RulesCache.{
  FileTime, CachedRules, Cache, Load, answered, stamp, loaded, parse_error, same_path, find, insert,
  fast_path, store, get_rules,
}
use mod_security_iis.RulesCache.Laws.{same_path_refl, same_path-eq, find-insert}

-- The specification: a book in which a file's rules are written once.
abbrev pub Book : Type 0
Book = Bytes → Option ℕ

abbrev pub rules_in : Option CachedRules → Option ℕ
rules_in none = none
rules_in (some entry) = some entry.rules

abbrev pub book : Cache → Book
book cache file = rules_in (find file cache)

-- What one call does to the book: it gives what the book then says of its file, and writes no
-- other file, nor over anything; or it gives nothing, for a file that the book does not know.
pub data Serves (file : Bytes) (b : Book) (b' : Book) : Option ℕ → Type 0 where
  gives :
      (r : ℕ)
      → b' file ≡ some r
      → ((f : Bytes) → (f ≡ file → ⊥) → b' f ≡ b f)
      → ((s : ℕ) → b file ≡ some s → s ≡ r)
      → Serves file b b' (some r)
  refuses : b file ≡ none → b' ≡ b → Serves file b b' none

-- The book only grew between the two critical sections.
abbrev pub Grows : Cache → Cache → Type 0
Grows first second =
    (f : Bytes) (entry : CachedRules) → find f first ≡ some entry → find f second ≡ some entry

fast_path-some :
    (cache : Cache) (file : Bytes) (time : Option FileTime) (r : ℕ)
    → fast_path cache file time ≡ some r
    → (entry : CachedRules) × (find file cache ≡ some entry) × (entry.rules ≡ r)
unfolding fast_path
fast_path-some cache file time r h = elim (Option-cases (find file cache)) [
  | inl absent ↦ absurd (ground arith)
  | inr (entry, present) ↦ (entry, present, ground arith)
]

same_path-ne : (f file : Bytes) → (f ≡ file → ⊥) → same_path f file ≡ false
same_path-ne f file differ = elim (Bool-cases (same_path f file)) [
  | inl same ↦ absurd (differ (same_path-eq f file same))
  | inr other ↦ other
]

-- A new entry.
insert-Serves :
    (cache : Cache) (file : Bytes) (entry : CachedRules)
    → find file cache ≡ none
    → Serves file (book cache) (book (insert file entry cache)) (some entry.rules)
insert-Serves cache file entry absent =
    gives entry.rules (rw (find-insert file file entry cache, same_path_refl file) refl)
      (λ f differ. rw (find-insert file f entry cache, same_path-ne f file differ) refl)
      (λ s h. absurd (ground arith))

-- An entry that is there.
found-Serves :
    (cache : Cache) (file : Bytes) (entry : CachedRules)
    → find file cache ≡ some entry
    → Serves file (book cache) (book cache) (some entry.rules)
found-Serves cache file entry present =
    gives entry.rules (rw present refl) (λ f differ. refl) (λ s h. ground arith)

store-Serves :
    (cache : Cache) (file : Bytes) (time : Option FileTime) (load : Load)
    → let (a, c) = store cache file time load in Serves file (book cache) (book c) a.rules
unfolding store
store-Serves cache file time (loaded r) = elim (Option-cases (find file cache)) [
  | inl absent ↦
      let new : CachedRules = record { rules = r; mtime = stamp time } in
      rw absent (insert-Serves cache file new absent)
  | inr (entry, present) ↦ rw present (found-Serves cache file entry present)
]
store-Serves cache file time (parse_error m) = elim (Option-cases (find file cache)) [
  | inl absent ↦ rw absent (refuses (rw absent refl) refl)
  | inr (entry, present) ↦ rw present (found-Serves cache file entry present)
]

get_rules-missed :
    (first second : Cache) (file : Bytes) (time : Option FileTime) (load : Load)
    → fast_path first file time ≡ none
    → get_rules first second file time load ≡ store second file time load
unfolding get_rules
get_rules-missed first second file time load missed = ground arith

get_rules-hit :
    (first second : Cache) (file : Bytes) (time : Option FileTime) (load : Load) (r : ℕ)
    → fast_path first file time ≡ some r
    → get_rules first second file time load ≡ (answered r, second)
unfolding get_rules
get_rules-hit first second file time load r hit = ground arith

-- A call of getRules, between whose critical sections other calls at most added files to the
-- cache, implements the book in which the rules of a file are written once: what it returns is
-- what the book then says of its file, and it writes nothing but a file that the book did not
-- know.
pub get_rules-Serves :
    (first second : Cache) (file : Bytes) (time : Option FileTime) (load : Load)
    → Grows first second
    → let (a, c) = get_rules first second file time load in
      Serves file (book second) (book c) a.rules
get_rules-Serves first second file time load grows =
    elim (Option-cases (fast_path first file time)) [
      | inl missed ↦
          rw (get_rules-missed first second file time load missed)
            (store-Serves second file time load)
      | inr (r, hit) ↦
          let (entry, present, same) = fast_path-some first file time r hit in
          rw (get_rules-hit first second file time load r hit, ← same)
            (found-Serves second file entry (grows file entry present))
    ]

-- What a call returns is what the cache then has.
pub Serves-has :
    (file : Bytes) (b b' : Book) (o : Option ℕ) (r : ℕ)
    → Serves file b b' o
    → o ≡ some r
    → b' file ≡ some r
Serves-has file b b' (some s) r (gives s' known others same) h = known ∙ h
Serves-has file b b' none r (refuses unknown same) h = absurd (ground arith)
