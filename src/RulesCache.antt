-- ===== src/RulesCache.antt =====
-- `iis::getRules` (src/connector.cpp): the rule sets, cached by the path of their file.
pub mod Laws
pub mod Calls
pub mod Exceptions
pub mod Threads
use mod_security_iis.Prelude.{
  ℕ, Bool, true, false, ◌&&◌, Option, none, some, List, [], ◌∷◌, ◌==◌, if◌then◌else◌,
}
use mod_security_iis.System.{Bytes}
use mod_security_iis.Text.{c_string}

pub record FileTime : Type 0 where
  pub low_date_time : ℕ
  pub high_date_time : ℕ

-- What Windows says of a path: the wide characters that MultiByteToWideChar needs for it, and the
-- last write that GetFileAttributesExW finds.
pub record FileSystem : Type 0 where
  pub wide_length : Bytes → ℕ
  pub last_write_time : Bytes → Option FileTime

-- `GetRulesFileTime`: `none` when the file cannot be examined.
abbrev pub get_rules_file_time : FileSystem → Bytes → Option FileTime
get_rules_file_time fs file =
    if fs.wide_length (c_string file) == 0 then none else fs.last_write_time (c_string file)

-- A rule set is named by a number.
pub record CachedRules : Type 0 where
  pub rules : ℕ
  pub mtime : FileTime

-- Paths are compared byte by byte.
unfoldable pub same_path : Bytes → Bytes → Bool
same_path [] [] = true
same_path (c ∷ s) (d ∷ t) = c == d && same_path s t
same_path _ _ = false

abbrev pub Cache : Type 0
Cache = List (Bytes × CachedRules)

-- `g_rulesCache.find`
unfoldable pub find : Bytes → Cache → Option CachedRules
find file [] = none
find file ((f, entry) ∷ cache) = if same_path file f then some entry else find file cache

-- `g_rulesCache[file] = entry`
unfoldable pub insert : Bytes → CachedRules → Cache → Cache
insert file entry [] = (file, entry) ∷ []
insert file entry ((f, old) ∷ cache) =
    if same_path file f then (f, entry) ∷ cache else (f, old) ∷ insert file entry cache

-- `loadFromUri`: a new rule set, or the parser's error.
pub data Load : Type 0 where
  loaded : ℕ → Load
  parse_error : Bytes → Load

-- What a call returns: the rule set (`none` for nullptr), `*err` when it was set, and whether the
-- failed reload was logged.
pub record Answer : Type 0 where
  pub rules : Option ℕ
  pub err : Option Bytes
  pub logged : Bool

abbrev pub answered : ℕ → Answer
answered r = record { rules = some r; err = none; logged = false }

-- The file is as it was loaded, or cannot be examined.
abbrev pub is_fresh : CachedRules → Option FileTime → Bool
is_fresh entry none = true
is_fresh entry (some t) =
    entry.mtime.low_date_time == t.low_date_time && entry.mtime.high_date_time == t.high_date_time

abbrev pub fresh_entry : Option CachedRules → Option FileTime → Option ℕ
fresh_entry none time = none
fresh_entry (some entry) time = if is_fresh entry time then some entry.rules else none

-- The first critical section.
unfoldable pub fast_path : Cache → Bytes → Option FileTime → Option ℕ
fast_path cache file time = fresh_entry (find file cache) time

abbrev pub stamp : Option FileTime → FileTime
stamp none = record { low_date_time = 0; high_date_time = 0 }
stamp (some t) = t

abbrev pub keep_old : Option CachedRules → Bytes → Answer
keep_old none message = record { rules = none; err = some message; logged = false }
keep_old (some entry) message = record {
  rules = some entry.rules;
  err = some message;
  logged = true;
}

abbrev pub keep_or_insert :
    Option CachedRules → Cache → Bytes → Option FileTime → ℕ → Answer × Cache
keep_or_insert (some entry) cache file time r = (answered entry.rules, cache)
keep_or_insert none cache file time r =
    (answered r, insert file (record { rules = r; mtime = stamp time }) cache)

-- The second critical section, after the load.
unfoldable pub store : Cache → Bytes → Option FileTime → Load → Answer × Cache
store cache file time (parse_error message) = (keep_old (find file cache) message, cache)
store cache file time (loaded r) = keep_or_insert (find file cache) cache file time r

-- One call that no exception ends. Other threads may change the cache between its two critical sections, so the call
-- takes the cache as each of them finds it.
unfoldable pub get_rules : Cache → Cache → Bytes → Option FileTime → Load → Answer × Cache
get_rules first second file time load = elim (fast_path first file time) [
  | some r ↦ (answered r, second)
  | none ↦ store second file time load
]

-- How a call goes: to its end, with what the loader says; or into an exception, before the first
-- critical section (of GetRulesFileTime), or after it (of make_shared, of loadFromUri, or as the new
-- entry is made), unless the first critical section answers.
pub data Loading : Type 0 where
  ends : Load → Loading
  throws_early : Loading
  throws : Loading

-- One call, `none` for an exception, which leaves the cache as it is.
unfoldable pub call_rules :
    Cache → Cache → Bytes → Option FileTime → Loading → Option Answer × Cache
call_rules first second file time (ends load) =
    let (a, cache) = get_rules first second file time load in (some a, cache)
call_rules first second file time throws_early = (none, second)
call_rules first second file time throws = elim (fast_path first file time) [
  | some r ↦ (some (answered r), second)
  | none ↦ (none, second)
]

abbrev pub rules_of_answer : Option Answer → Option ℕ
rules_of_answer none = none
rules_of_answer (some a) = a.rules
