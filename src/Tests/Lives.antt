-- ===== src/Tests/Lives.antt =====
-- The life of a request that is blocked by nothing, and calls of getRules that interleave.
use mathlib.Core.List.{Memᴰ}
use mod_security_iis.Prelude.{
  ℕ, suc, ◌≡◌, ◌≢◌, ◌≤◌, ◌+◌, refl, true, false, none, some, List, [], ◌∷◌, Option, length,
}
use mod_security_iis.System.{
  Bytes, World, new_context, set_content_length, ok, raised, stuck, rq_pending,
}
use mod_security_iis.System.Views.{
  request_phases, header_phases, response_phases, loggings, openings,
}
use mod_security_iis.Text.{codes, whole_number}
use mod_security_iis.Settings.{max_inspect_body_bytes, configured_inspect_bytes}
use mod_security_iis.Response.{on_send_response, pin_length, pins_length}
use mod_security_iis.Response.Pinned.{pin_length-whole_number}
use mod_security_iis.Response.Total.{on_send_response_total}
use mod_security_iis.BeginRequest.{on_begin_request}
use mod_security_iis.Life.{Event, completed, sends, post_end, cleanup, step, run}
use mod_security_iis.Life.Spec.{bit, Reach}
use mod_security_iis.Life.Books.{view}
use mod_security_iis.Life.Refines.{run-Reach, run_once, run-cleanup, run_closed}
use mod_security_iis.RulesCache.{
  Cache, FileTime, loaded, ends, call_rules, find, same_path, get_rules, fast_path, store, insert,
}
use mod_security_iis.RulesCache.Calls.{book, Grows, Serves, get_rules-Serves}
use mod_security_iis.RulesCache.Threads.{Server, served, fresh, serve, start, later, Reach-agree}
use mod_security_iis.Tests.{calm_env, throwing_env, opened, first_chunk, last_chunk, page}
use mod_security_iis.Tests.Begins.{arrival}
use mod_security_iis.Tests.Responses.{page-AllSound}

-- Two completions of the request's reads, a foreign one, the response twice, and the release.
abbrev events : List Event
events =
    completed (some first_chunk)
    ∷ completed none
    ∷ completed (some last_chunk)
    ∷ sends (some page)
    ∷ sends (some page)
    ∷ post_end
    ∷ cleanup
    ∷ []

run-Reach_example : Reach (view opened) (view (run calm_env events opened))
run-Reach_example = run-Reach calm_env events opened

-- The world before a request begins.
abbrev arriving : World
arriving = record opened { rsc = new_context; stored = false }

run_once_example :
    let w' = run throwing_env events (on_begin_request throwing_env (some arrival) arriving).1 in
    (openings w'.trace ≤ suc (openings arriving.trace))
    × (loggings w'.trace + bit w'.rsc.tx ≤ suc (loggings arriving.trace))
    × (request_phases w'.trace ≤ suc (request_phases arriving.trace))
    × (response_phases w'.trace ≤ suc (response_phases arriving.trace))
run_once_example = run_once throwing_env (some arrival) events arriving refl refl

run-cleanup_example :
    let w' = step calm_env cleanup (run calm_env events opened) in
    (w'.rsc.tx ≡ false) × (loggings w'.trace ≡ loggings opened.trace + bit opened.rsc.tx)
run-cleanup_example = run-cleanup calm_env events opened

run_closed_example :
    let w' = run calm_env events arriving in
    (w'.rsc.tx ≡ false)
    × (openings w'.trace ≡ openings arriving.trace)
    × (loggings w'.trace ≡ loggings arriving.trace)
    × (request_phases w'.trace ≡ request_phases arriving.trace)
    × (header_phases w'.trace ≡ header_phases arriving.trace)
    × (response_phases w'.trace ≡ response_phases arriving.trace)
run_closed_example = run_closed calm_env events arriving refl

on_send_response_total_example :
    let s = (on_send_response throwing_env (some page) opened).0 in
    (s ≢ raised) × (s ≢ stuck) × (s ≢ ok rq_pending)
on_send_response_total_example =
    on_send_response_total throwing_env (some page) opened page-AllSound

pins_three : pins_length calm_env page 3 ≡ true
unfolding max_inspect_body_bytes configured_inspect_bytes whole_number
pins_three = refl

pin_length-whole_number_example :
    (s : Bytes) × ((pin_length calm_env page 3 opened).1.trace
      ≡ set_content_length s ∷ opened.trace)
    × (length s ≤ 19)
    × (whole_number s ≡ some 3)
pin_length-whole_number_example = pin_length-whole_number calm_env page 3 opened pins_three

abbrev a_file : Bytes
a_file = codes "a.conf"

abbrev b_file : Bytes
b_file = codes "b.conf"

abbrev time : ℕ → Option FileTime
time n = some (record { low_date_time = n; high_date_time = 0 })

abbrev other_cache : Cache
other_cache =
    (b_file, record { rules = 7; mtime = record { low_date_time = 1; high_date_time = 0 } }) ∷ []

from_nothing : Grows [] other_cache
unfolding find
from_nothing f entry h = cc

-- Between the two critical sections of a call for one file, another thread stored another file.
get_rules-Serves_example :
    Serves a_file
      (book other_cache)
      (book (get_rules [] other_cache a_file (time 2) (loaded 8)).1)
      (get_rules [] other_cache a_file (time 2) (loaded 8)).0.rules
get_rules-Serves_example = get_rules-Serves [] other_cache a_file (time 2) (loaded 8) from_nothing

-- Two calls that both began with an empty cache, loaded the file, and met at the second critical
-- section.
abbrev server₁ : Server
server₁ = served fresh [] a_file (time 1) (ends (loaded 1))

abbrev server₂ : Server
server₂ = served server₁ [] a_file (time 2) (ends (loaded 2))

both_answered : server₂.answers ≡ (a_file, 1) ∷ (a_file, 1) ∷ []
unfolding call_rules get_rules fast_path store find same_path insert
both_answered = refl

first_answered : server₁.answers ≡ (a_file, 1) ∷ []
unfolding call_rules get_rules fast_path store find same_path insert
first_answered = refl

newest : Memᴰ (a_file, 1) server₂.answers
newest = rw both_answered (Memᴰ.head refl)

oldest : Memᴰ (a_file, 1) server₂.answers
oldest = rw both_answered (Memᴰ.tail (Memᴰ.head refl))

Reach-agree_example : ◌≡◌ {A = ℕ} 1 1
Reach-agree_example =
    Reach-agree a_file 1 1
      (later (later start (serve [] a_file (time 1) (ends (loaded 1)) (Memᴰ.head refl) refl))
        (serve [] a_file (time 2) (ends (loaded 2)) (Memᴰ.tail (Memᴰ.head refl)) refl))
      newest oldest
