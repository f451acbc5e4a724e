-- ===== src/Response/Pinned.antt =====
-- The Content-Length that mode A sets.
use mod_security_iis.Prelude.{ℕ, ◌≤◌, ◌<◌, ◌≡◌, ap, true, some, ◌∷◌, arith, take_all, length}
use mod_security_iis.System.{Bytes, HttpResponse, Env, World, set_content_length}
use mod_security_iis.Text.{to_string, whole_number}
use mod_security_iis.Text.Printing.{whole_number-to_string, to_string-length}
use mod_security_iis.Settings.{max_inspect_body_bytes}
use mod_security_iis.Settings.Laws.{max_inspect_body_bytes_bounds}
use mod_security_iis.Response.{pins_length, pin_length}

-- When mode A pins the length of the bytes that it inspected, the header value that it sets is not
-- cut off, and is read as a whole number as just that length.
pub pin_length-whole_number :
    (e : Env) (r : HttpResponse) (n : ℕ) (w : World)
    → pins_length e r n ≡ true
    → (s : Bytes) × ((pin_length e r n w).1.trace ≡ set_content_length s ∷ w.trace)
      × (length s ≤ 19)
      × (whole_number s ≡ some n)
unfolding pin_length
pin_length-whole_number e r n w pins =
    let cap = max_inspect_body_bytes_bounds e in
    let positive : 0 < n = ground arith in
    let below : n < max_inspect_body_bytes e = ground arith in
    let short = to_string-length n (omega arith) in
    let whole = take_all 19 (to_string n) short in
    (
      to_string n,
      rw pins (ap (λ s. set_content_length s ∷ w.trace) whole),
      short,
      whole_number-to_string n positive (omega arith),
    )
