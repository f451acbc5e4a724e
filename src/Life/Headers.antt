-- ===== src/Life/Headers.antt =====
-- The response headers over all the notifications of one request.
use mod_security_iis.Prelude.{
  ap, ◌∙◌, suc, ◌≤◌, ◌≡◌, refl, ◌⊎◌, inl, inr, Bool, true, false, ◌&&◌, Option, none, some, List,
  [], ◌∷◌, arith, Bool-cases, if◌then◌else◌,
}
use mod_security_iis.System.{
  HttpResponse, Env, Trace, World, Result, Status, ok, raised, stuck, rq_finish_request, catch,
  ◌>>=◌, pure,
}
use mod_security_iis.System.Views.{header_phases}
use mod_security_iis.Response.{
  header_phase, response_phase, body_phases, exception_policy, on_send_response,
}
use mod_security_iis.Response.Phases.{send_all}
use mod_security_iis.Life.Responses.{body_phases-KeepsRequest, on_exception}
use mod_security_iis.Life.Feeding.{Unfailing, Feeds, header_phase-Feeds}

-- How phase 3 relates to the flag that guards it, over a run in which nothing is thrown.
pub record Once (w : World) (w' : World) : Type 0 where
  pub at_most : header_phases w'.trace ≤ suc (header_phases w.trace)
  pub stays :
      w.rsc.response_headers_fed ≡ true
      → (w'.rsc.response_headers_fed ≡ true) × (header_phases w'.trace ≡ header_phases w.trace)
  pub marked :
      (header_phases w'.trace ≡ header_phases w.trace)
      ⊎ (w'.rsc.response_headers_fed ≡ true)
      ⊎ (w'.rsc.tx ≡ false)

-- The rest of a notification, once the header phase is over.
fed-Once :
    (e : Env) (r : HttpResponse) (x : Result Bool × World) (w : World)
    → Feeds x w
    → let y =
        ((λ (v : World). x) >>= λ replaced.
        if replaced then pure rq_finish_request else body_phases e r)
          w in
      Once w y.1
fed-Once e r (ok true, v) w a = ground (arith, a.at_most, a.stays, a.replaced refl)
fed-Once e r (ok false, v) w a =
    ground (arith, a.at_most, a.stays, a.passed refl, (body_phases-KeepsRequest e r v).books)
fed-Once e r (raised, v) w a = absurd (a.ends.0 refl)
fed-Once e r (stuck, v) w a = absurd (a.ends.1 refl)

on_exception_same :
    (w : World)
    → ((on_exception w).1.rsc ≡ w.rsc)
      × (header_phases (on_exception w).1.trace ≡ header_phases w.trace)
unfolding exception_policy
on_exception_same w = ground arith

caught-Once :
    (x : Result Status × World) (w : World)
    → Once w x.1
    → Once w (catch (λ (v : World). x) on_exception w).1
caught-Once (ok s, v) w o = o
caught-Once (raised, v) w o = ground (arith, o.at_most, o.stays, o.marked, on_exception_same v)
caught-Once (stuck, v) w o = o

Once-trans : (u v w : World) → Once u v → (v.rsc.tx ≡ false → w ≡ v) → Once v w → Once u w
Once-trans u v w a still b = elim a.marked [
  | inl same ↦ ground (arith, same, a.stays, b.at_most, b.stays, b.marked)
  | inr (inl fed) ↦ ground (arith, fed, a.at_most, a.stays, b.stays fed)
  | inr (inr closed) ↦ rw (still closed) a
]

on_send_response-Once :
    (e : Env) (r : Option HttpResponse) (w : World)
    → Unfailing e
    → Once w (on_send_response e r w).1 × (w.rsc.tx ≡ false → (on_send_response e r w).1 ≡ w)
unfolding on_send_response response_phase
on_send_response-Once e none w calm = ground arith
on_send_response-Once e (some r) w calm = elim (Bool-cases (w.stored && w.rsc.tx)) [
  | inl tracked ↦ (
    rw tracked (
        caught-Once (response_phase e r w) w
          (fed-Once e r (header_phase e r w) w (header_phase-Feeds e r w calm))),
    λ closed. ground (arith, tracked, closed),
  )
  | inr untracked ↦ rw untracked (ground arith, λ closed. refl)
]

send_all-closed :
    (e : Env) (rs : List (Option HttpResponse)) (w : World)
    → Unfailing e
    → w.rsc.tx ≡ false
    → send_all e rs w ≡ w
send_all-closed e [] w calm closed = refl
send_all-closed e (r ∷ rs) w calm closed =
    let same = (on_send_response-Once e r w calm).1 closed in
    ap (send_all e rs) same ∙ send_all-closed e rs w calm closed

send_all-Once :
    (e : Env) (rs : List (Option HttpResponse)) (w : World) → Unfailing e → Once w (send_all e rs w)
send_all-Once e [] w calm = ground arith
send_all-Once e (r ∷ rs) w calm =
    let v = (on_send_response e r w).1 in
    Once-trans w v (send_all e rs v) (on_send_response-Once e r w calm).0
      (λ closed. send_all-closed e rs v calm closed) (send_all-Once e rs v calm)

-- Where nothing is thrown, however often RQ_SEND_RESPONSE fires for a request, phase 3 runs at
-- most once, and not at all once the response headers were fed.
pub send_all-feeds_once :
    (e : Env) (rs : List (Option HttpResponse)) (w : World)
    → ((t : Trace) → e.raises t ≡ false)
    → (header_phases (send_all e rs w).trace ≤ suc (header_phases w.trace))
      × (w.rsc.response_headers_fed ≡ true
          → header_phases (send_all e rs w).trace ≡ header_phases w.trace)
send_all-feeds_once e rs w calm =
    let o = send_all-Once e rs w calm in (o.at_most, λ p. (o.stays p).1)
