-- ===== src/FinishBody/Copies.antt =====
-- The memory that `FinishBodyRead` copies the body into.
use mod_security_iis.Prelude.{
  ℕ, leb, ◌&&◌, ◌+◌, if◌then◌else◌, ◌^◌, ◌<◌, ◌≡◌, arith, length, ltb, true,
}
use mod_security_iis.System.{Env, World, dword}
use mod_security_iis.System.Views.{overruns}
use mod_security_iis.Intervention.Apply.{apply_intervention_frame}
use mod_security_iis.FinishBody.{feed_body, restore_and_feed, finish_body_read}
use mod_security_iis.FinishBody.Laws.{
  restores, allocated, restore_body_lem, restore_trace, after_restore,
}

-- What the memcpy adds.
abbrev pub overrun_of : Env → World → ℕ
overrun_of e w =
    if restores e w && (e.allocate_ok (allocated w) && leb (2 ^ 32) (length w.rsc.body))
    then 1
    else 0

-- A DWORD is less than the number just from 4 GiB on.
dword-ltb : (n : ℕ) → ltb (dword n) n ≡ leb (2 ^ 32) n
dword-ltb n = ground arith

restore_trace-overruns :
    (e : Env) (w : World) → overruns (restore_trace e w) ≡ overrun_of e w + overruns w.trace
restore_trace-overruns e w = ground (arith, dword-ltb (length w.rsc.body))

feed_body-overruns : (e : Env) (w : World) → overruns (feed_body e w).1.trace ≡ overruns w.trace
unfolding feed_body
feed_body-overruns e w = ground arith

restore_and_feed-overruns :
    (e : Env) (w : World) → overruns (restore_and_feed e w).1.trace ≡ overruns (restore_trace e w)
unfolding restore_and_feed
restore_and_feed-overruns e w =
    ground (arith, restore_body_lem e w, feed_body-overruns e (after_restore e w))

-- However FinishBodyRead ends, it overruns memory once or not at all, and once just where IIS has
-- the request, its memory was granted, and the body has 4 GiB or more: then the DWORD that was
-- allocated is less than the size that is copied.
pub finish_body_read-overruns :
    (e : Env) (w : World)
    → overruns (finish_body_read e w).1.trace ≡ overrun_of e w + overruns w.trace
unfolding finish_body_read
finish_body_read-overruns e w =
    let w₁ = (restore_and_feed e w).1 in
    ground (
      arith,
      restore_and_feed-overruns e w,
      restore_trace-overruns e w,
      apply_intervention_frame e true w₁,
    )

-- A body below 4 GiB is copied into memory that holds it.
pub finish_body_read-fits :
    (e : Env) (w : World)
    → length w.rsc.body < 2 ^ 32
    → overruns (finish_body_read e w).1.trace ≡ overruns w.trace
finish_body_read-fits e w h = ground (arith, finish_body_read-overruns e w)
