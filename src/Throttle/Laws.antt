-- ===== src/Throttle/Laws.antt =====
-- How many lines the callback writes.
use mod_security_iis.Prelude.{
  ℕ, suc, ◌+◌, ◌-◌, ◌^◌, ◌≤◌, ◌<◌, ◌≡◌, List, [], ◌∷◌, arith, if◌then◌else◌,
}
use mod_security_iis.Throttle.{
  Throttle, elapsed, max_logs_per_second, open_window, server_log_callback,
}

-- The lines written of those that come at the given tick counts.
pub written : Throttle → List ℕ → ℕ
written s [] = 0
written s (now ∷ later) =
    let (s', logged) = server_log_callback s now in
    if logged then suc (written s' later) else written s' later

-- The tick counts lie in a range.
abbrev pub Within : ℕ → ℕ → List ℕ → Type 0
Within lo hi [] = Unit
Within lo hi (t ∷ ts) = (lo ≤ t) × (t < hi) × Within lo hi ts

-- Each is at least the one before, as GetTickCount64 gives them.
abbrev pub IsNondecreasing : ℕ → List ℕ → Type 0
IsNondecreasing last [] = Unit
IsNondecreasing last (t ∷ ts) = (last ≤ t) × IsNondecreasing t ts

elapsed_lem : (now start : ℕ) → start ≤ now → now < 2 ^ 64 → elapsed now start ≡ now - start
elapsed_lem now start h lt = omega arith

-- Inside one window.
written-window :
    (s : Throttle) (ts : List ℕ)
    → s.log_count ≤ max_logs_per_second
    → Within s.log_window_start (s.log_window_start + 1000) ts
    → Within 0 (2 ^ 64) ts
    → written s ts ≤ max_logs_per_second - s.log_count
unfolding written server_log_callback open_window
written-window s [] c h b = omega arith
written-window s (t ∷ ts) c h b = ground (
  arith,
  elapsed_lem t s.log_window_start h.0 b.1,
  written-window s ts c h.2 b.2,
  written-window (record s { log_count = s.log_count + 1 }) ts,
)

IsNondecreasing-weaken :
    (a b : ℕ) (ts : List ℕ) → a ≤ b → IsNondecreasing b ts → IsNondecreasing a ts
IsNondecreasing-weaken a b [] le h = tt
IsNondecreasing-weaken a b (t ∷ ts) le h = (omega arith, h.1)

-- What comes after t, and less than a second after a, is in the window of t.
Within-later :
    (a t : ℕ) (ts : List ℕ)
    → a ≤ t
    → Within a (a + 1000) ts
    → IsNondecreasing t ts
    → Within t (t + 1000) ts
Within-later a t [] le h sorted = tt
Within-later a t (u ∷ ts) le h sorted = (
  omega arith,
  omega arith,
  Within-later a t ts le h.2 (IsNondecreasing-weaken t u ts sorted.0 sorted.1),
)

Within-widen : (a b : ℕ) (ts : List ℕ) → b ≤ 2 ^ 64 → Within a b ts → Within 0 (2 ^ 64) ts
Within-widen a b [] le h = tt
Within-widen a b (t ∷ ts) le h = (omega arith, omega arith, Within-widen a b ts le h.2)

-- The first line of a new window, and what follows it.
written_reset :
    (a t : ℕ) (ts : List ℕ)
    → a ≤ t
    → t < a + 1000
    → Within a (a + 1000) ts
    → IsNondecreasing t ts
    → a + 1000 ≤ 2 ^ 64
    → (n : ℕ) → n ≤ 1
    → written (record { log_window_start = t; log_count = n }) ts ≤ max_logs_per_second - n
written_reset a t ts le lt h sorted b n p =
    written-window (record { log_window_start = t; log_count = n }) ts (omega arith)
      (Within-later a t ts le h sorted) (Within-widen a (a + 1000) ts b h)

-- From any state whose window has begun and whose count is at most 100, of the lines that come in
-- order of time within less than a second, and before the tick count wraps, no more are written
-- than what is left of the old window and one whole new one, 200 at most.
pub written_burst :
    (a : ℕ) (s : Throttle) (ts : List ℕ)
    → s.log_window_start ≤ a
    → s.log_count ≤ max_logs_per_second
    → Within a (a + 1000) ts
    → IsNondecreasing a ts
    → a + 1000 ≤ 2 ^ 64
    → written s ts ≤ (max_logs_per_second - s.log_count) + max_logs_per_second
unfolding written server_log_callback open_window
written_burst a s [] started c h sorted b = omega arith
written_burst a s (t ∷ ts) started c h sorted b =
    let rest = IsNondecreasing-weaken a t ts sorted.0 sorted.1 in
    ground (
      arith,
      written_reset a t ts sorted.0 h.1 h.2 sorted.1 b 1 (omega arith),
      written_burst a s ts started c h.2 rest b,
      written_burst a (record s { log_count = s.log_count + 1 }) ts started,
    )
