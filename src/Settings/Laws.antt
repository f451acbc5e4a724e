-- ===== src/Settings/Laws.antt =====
-- The inspection cap is a positive DWORD, and caching changes no answer.
use mod_security_iis.Prelude.{ℕ, ◌≤◌, ◌<◌, ◌≡◌, ◌⊎◌, inl, inr, arith, min, take, Option-cases}
use mod_security_iis.System.{Env, Variable}
use mod_security_iis.Text.{whole_number}
use mod_security_iis.Text.Numbers.{whole_number_iff, IsDecimal}
use mod_security_iis.Settings.{
  dword_max, configured_inspect_bytes, max_inspect_body_bytes, body_reads_async_from,
  default_inspect_bytes, body_reads_async,
}

configured_pos : (v : Variable) → 0 < configured_inspect_bytes v
unfolding configured_inspect_bytes
configured_pos v = elim (Option-cases (whole_number (take v.n v.buf))) [
  | inl e ↦ ground arith
  | inr (x, e) ↦ ground (arith, (whole_number_iff (take v.n v.buf) x).0 e)
]

-- In every environment the cap is positive and fits in the DWORD of InsertEntityBody.
pub max_inspect_body_bytes_bounds :
    (e : Env) → (0 < max_inspect_body_bytes e) × (max_inspect_body_bytes e ≤ dword_max)
unfolding max_inspect_body_bytes
max_inspect_body_bytes_bounds e = ground (arith, configured_pos e.variables.max_inspect_body_bytes)

-- A value of at most 31 bytes that spells a positive 64-bit number sets the cap to that number,
-- clamped to a DWORD.
max_inspect_body_bytes-set :
    (e : Env) (x : ℕ)
    → let v = e.variables.max_inspect_body_bytes in
      0 < v.n → v.n < 32 → IsDecimal (take v.n v.buf) x → max_inspect_body_bytes e ≡ min x dword_max
unfolding max_inspect_body_bytes
max_inspect_body_bytes-set e x p q h =
    let v = e.variables.max_inspect_body_bytes in
    ground (arith, (whole_number_iff (take v.n v.buf) x).1 h)

-- Any other value leaves the cap at 1 MiB: one that is absent or does not fit in 31 bytes, and one
-- that does not spell a positive 64-bit number.
max_inspect_body_bytes-default :
    (e : Env)
    → let v = e.variables.max_inspect_body_bytes in
      (v.n ≡ 0) ⊎ (32 ≤ v.n) ⊎ ((x : ℕ) → ¬ IsDecimal (take v.n v.buf) x)
      → max_inspect_body_bytes e ≡ default_inspect_bytes
unfolding max_inspect_body_bytes
max_inspect_body_bytes-default e (inl absent) = ground arith
max_inspect_body_bytes-default e (inr (inl long)) = ground arith
max_inspect_body_bytes-default e (inr (inr bad)) =
    let v = e.variables.max_inspect_body_bytes in
    elim (Option-cases (whole_number (take v.n v.buf))) [
      | inl none_read ↦ ground arith
      | inr (x, read) ↦ absurd (bad x ((whole_number_iff (take v.n v.buf) x).0 read))
    ]

-- Whichever call fills the cached state, later calls give the same answer and keep the state.
pub body_reads_async-cached :
    (e : Env)
    → let (a, st) = body_reads_async_from 0 e in
      (a ≡ body_reads_async e) × (body_reads_async_from st e ≡ (a, st))
unfolding body_reads_async
body_reads_async-cached e = ground arith
