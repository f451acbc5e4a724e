-- ===== src/Response/Phases.antt =====
-- The response-body phase over all the notifications of one request.
use mod_security_iis.Prelude.{
  suc, ◌≤◌, ◌≡◌, refl, inl, inr, Bool, true, false, Option, none, some, List, [], ◌∷◌, arith,
  Bool-cases, if◌then◌else◌, ◌&&◌,
}
use mod_security_iis.System.{
  HttpResponse, Env, World, Call, Status, rq_continue, rq_finish_request, Result, ok, raised, stuck,
  M, pure, ◌>>=◌, ◌>>◌, exception_in, in_send_response, log_event, note, catch,
}
use mod_security_iis.System.Views.{response_phases, is_response_phase}
use mod_security_iis.ResponseChunks.{inspect_chunks}
use mod_security_iis.ResponseChunks.Frames.{inspect_chunks-Quiet}
use mod_security_iis.Response.{
  header_phase, mode_a, mode_b, body_phases, response_phase, exception_policy, on_send_response,
}
use mod_security_iis.Response.Frames.{Guarded, header_phase_frame, mode_a-Guarded, mode_b-Guarded}

Guarded-trans : {u v w : World} → Guarded u v → Guarded v w → Guarded u w
Guarded-trans {u} {v} {w} g h = record {
  stays = λ p. ground (arith, g.stays p, h.stays);
  once = elim (Bool-cases v.rsc.response_body_evaluated) [
    | inl done ↦ ground (arith, g.once, h.stays done)
    | inr not_done ↦ ground (arith, g.marked not_done, h.once)
  ];
  marked = λ p. elim (Bool-cases v.rsc.response_body_evaluated) [
    | inl done ↦ absurd (ground (arith, h.stays done))
    | inr not_done ↦ ground (arith, g.marked not_done, h.marked p)
  ];
}

Guarded-bind :
    {A B : Type 0} (w : World) (x : Result A × World) (f : A → M B)
    → Guarded w x.1
    → ((a : A) → Guarded x.1 (f a x.1).1)
    → Guarded w (((λ (v : World). x) >>= f) w).1
Guarded-bind w (ok a, v) f g rest = Guarded-trans g (rest a)
Guarded-bind w (raised, v) f g rest = g
Guarded-bind w (stuck, v) f g rest = g

Guarded-refl : (w : World) → Guarded w w
Guarded-refl w = ground arith

-- After mode A.
then_b : Env → HttpResponse → Bool → M Status
then_b e r replaced = if replaced then pure rq_finish_request else (mode_b e r >> pure rq_continue)

then_b-Guarded :
    (e : Env) (r : HttpResponse) (replaced : Bool) (w : World) → Guarded w (then_b e r replaced w).1
unfolding then_b
then_b-Guarded e r true w = Guarded-refl w
then_b-Guarded e r false w =
    Guarded-bind w (mode_b e r w) (λ _. pure rq_continue) (mode_b-Guarded e r w)
      (λ _. Guarded-refl (mode_b e r w).1)

chunks-Guarded :
    (e : Env) (r : HttpResponse) (w : World) → Guarded w (inspect_chunks e r.entity_chunks 0 w).1
chunks-Guarded e r w = ground (arith, inspect_chunks-Quiet e r.entity_chunks 0 w)

body_phases-Guarded : (e : Env) (r : HttpResponse) (w : World) → Guarded w (body_phases e r w).1
unfolding body_phases then_b
body_phases-Guarded e r w =
    let x = inspect_chunks e r.entity_chunks 0 w in
    Guarded-bind w x (λ n. mode_a e r n >>= then_b e r) (chunks-Guarded e r w)
      (λ n.
        Guarded-bind x.1 (mode_a e r n x.1) (then_b e r) (mode_a-Guarded e r n x.1)
          (λ replaced. then_b-Guarded e r replaced (mode_a e r n x.1).1))

header_phase-Guarded : (e : Env) (r : HttpResponse) (w : World) → Guarded w (header_phase e r w).1
header_phase-Guarded e r w = ground (arith, header_phase_frame e r w)

response_phase-Guarded :
    (e : Env) (r : HttpResponse) (w : World) → Guarded w (response_phase e r w).1
unfolding response_phase
response_phase-Guarded e r w =
    Guarded-bind w (header_phase e r w)
      (λ replaced. if replaced then pure rq_finish_request else body_phases e r)
      (header_phase-Guarded e r w) (rest (header_phase e r w).1)
  where
    rest :
        (v : World) (replaced : Bool)
        → Guarded v ((if replaced then pure rq_finish_request else body_phases e r) v).1
    rest v true = Guarded-refl v
    rest v false = body_phases-Guarded e r v

-- The log entry and the policy after an exception.
exception_policy-Guarded :
    (v : World) (c : Call)
    → is_response_phase c ≡ false
    → Guarded v (exception_policy (record v { trace = c ∷ v.trace })).1
unfolding exception_policy
exception_policy-Guarded v c quiet = ground arith

-- The exception handler of `OnSendResponse`.
abbrev on_exception : M Status
on_exception = note (log_event (exception_in in_send_response)) >> exception_policy

abbrev handled : Env → HttpResponse → World → Result Status × World
handled e r w = catch (response_phase e r) on_exception w

caught :
    (w : World) (x : Result Status × World)
    → Guarded w x.1
    → Guarded w (catch (λ (v : World). x) on_exception w).1
caught w (ok s, v) g = g
caught w (raised, v) g =
    Guarded-trans g (exception_policy-Guarded v (log_event (exception_in in_send_response)) refl)
caught w (stuck, v) g = g

-- One notification, whatever it carries and whatever throws, runs phase 4 at most once, never
-- again once the flag is set, and sets the flag when it runs it.
pub on_send_response-Guarded :
    (e : Env) (r : Option HttpResponse) (w : World) → Guarded w (on_send_response e r w).1
unfolding on_send_response
on_send_response-Guarded e none w = Guarded-refl w
on_send_response-Guarded e (some r) w = tracked (w.stored && w.rsc.tx)
  where
    tracked : (b : Bool) → Guarded w ((if b then handled e r w else (ok rq_continue, w)).1)
    tracked true = caught w (response_phase e r w) (response_phase-Guarded e r w)
    tracked false = Guarded-refl w

-- The notifications of one request, the oldest first.
abbrev pub send_all : Env → List (Option HttpResponse) → World → World
send_all e [] w = w
send_all e (r ∷ rs) w = send_all e rs (on_send_response e r w).1

send_all-Guarded :
    (e : Env) (rs : List (Option HttpResponse)) (w : World) → Guarded w (send_all e rs w)
send_all-Guarded e [] w = Guarded-refl w
send_all-Guarded e (r ∷ rs) w =
    Guarded-trans (on_send_response-Guarded e r w)
      (send_all-Guarded e rs (on_send_response e r w).1)

-- However often RQ_SEND_RESPONSE fires for a request, whatever the responses hold and whatever the
-- engine throws, phase 4 runs at most once, and not at all once it was evaluated.
pub send_all_once :
    (e : Env) (rs : List (Option HttpResponse)) (w : World)
    → (response_phases (send_all e rs w).trace ≤ suc (response_phases w.trace))
      × (w.rsc.response_body_evaluated ≡ true
          → response_phases (send_all e rs w).trace ≡ response_phases w.trace)
send_all_once e rs w = let g = send_all-Guarded e rs w in (g.once, λ p. (g.stays p).1)
