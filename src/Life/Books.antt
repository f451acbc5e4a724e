-- ===== src/Life/Books.antt =====
-- How the calls that handlers share keep the books: verdicts and finalization.
use mod_security_iis.Prelude.{
  true, ℕ, ◌+◌, ◌≡◌, inl, inr, Bool, false, [], ◌∷◌, arith, Option-cases,
}
use mod_security_iis.System.{
  Bytes, Env, World, Intervention, Result, ok, raised, stuck, M, ◌>>=◌, catch, read_intervention,
  clear, on_response, update_status_code, set_request_handled,
}
use mod_security_iis.System.Views.{
  header_phases, request_phases, response_phases, loggings, openings,
}
use mod_security_iis.Intervention.{
  answer, disrupt, finish_request, apply_intervention, url_of, pos_part,
}
use mod_security_iis.Intervention.Apply.{final_status}
use mod_security_iis.Body.{is_read_pending}
use mod_security_iis.Life.Spec.{View, Rests, bit}

abbrev pub view : World → View
view w = record {
  is_open = w.rsc.tx;
  is_reading = is_read_pending w.rsc.body_read_state;
  is_judged = w.rsc.response_body_evaluated;
  request_runs = request_phases w.trace;
  response_runs = response_phases w.trace;
  header_runs = header_phases w.trace;
  openings = openings w.trace;
  finals = loggings w.trace;
}

-- What every part of a handler keeps.
pub record Keeps (w : World) (w' : World) : Type 0 where
  pub balance : loggings w'.trace + bit w'.rsc.tx ≡ loggings w.trace + bit w.rsc.tx
  pub shut : w.rsc.tx ≡ false → w'.rsc.tx ≡ false
  pub opened : openings w'.trace ≡ openings w.trace
  pub held : w'.stored ≡ w.stored
  pub fed :
      w.rsc.response_headers_fed ≡ true
      → (w'.rsc.response_headers_fed ≡ true) × (header_phases w'.trace ≡ header_phases w.trace)

-- What the parts that run no phase keep.
pub record Steady (w : World) (w' : World) : Type 0 where
  pub books : Keeps w w'
  pub rests : Rests (view w) (view w')

-- What the parts that read the request body keep.
pub record KeepsResponse (w : World) (w' : World) : Type 0 where
  pub books : Keeps w w'
  pub judged : w'.rsc.response_body_evaluated ≡ w.rsc.response_body_evaluated
  pub runs : response_phases w'.trace ≡ response_phases w.trace
  pub headers : header_phases w'.trace ≡ header_phases w.trace

-- What the parts that judge the response keep.
pub record KeepsRequest (w : World) (w' : World) : Type 0 where
  pub books : Keeps w w'
  pub reading : is_read_pending w'.rsc.body_read_state ≡ is_read_pending w.rsc.body_read_state
  pub runs : request_phases w'.trace ≡ request_phases w.trace

pub Keeps-trans : (u v w : World) → Keeps u v → Keeps v w → Keeps u w
Keeps-trans u v w g h = ground arith

pub KeepsResponse-trans :
    (u v w : World) → KeepsResponse u v → KeepsResponse v w → KeepsResponse u w
KeepsResponse-trans u v w g h = ground arith

pub KeepsRequest-trans : (u v w : World) → KeepsRequest u v → KeepsRequest v w → KeepsRequest u w
KeepsRequest-trans u v w g h = ground arith

-- A relation that each part of a run keeps is kept by the run.
module _ (R : World → World → Type 0) (trans : (u v w : World) → R u v → R v w → R u w)
    {A B : Type 0} where
  pub bind-keeps :
      (w : World) (x : Result A × World) (f : A → M B)
      → R w x.1
      → ((a : A) → R x.1 (f a x.1).1)
      → R w (((λ (v : World). x) >>= f) w).1
  bind-keeps w (ok a, v) f g rest = trans w v (f a v).1 g (rest a)
  bind-keeps w (raised, v) f g rest = g
  bind-keeps w (stuck, v) f g rest = g

module _ (R : World → World → Type 0) (trans : (u v w : World) → R u v → R v w → R u w)
    {A : Type 0} where
  pub catch-keeps :
      (w : World) (x : Result A × World) (h : M A)
      → R w x.1
      → R x.1 (h x.1).1
      → R w (catch (λ (v : World). x) h w).1
  catch-keeps w (ok a, v) h g rest = g
  catch-keeps w (raised, v) h g rest = trans w v (h v).1 g rest
  catch-keeps w (stuck, v) h g rest = g

pub finish_request-Steady : (e : Env) (w : World) → Steady w (finish_request e w).1
unfolding finish_request
finish_request-Steady e w = ground arith

pub answer_books :
    (u : Bytes) (s : ℕ) (w : World)
    → let (r, w') = answer u s w in
      (r ≡ ok (final_status u s))
      × (w' ≡ record w { trace = w'.trace })
      × (request_phases w'.trace ≡ request_phases w.trace)
      × (response_phases w'.trace ≡ response_phases w.trace)
      × (header_phases w'.trace ≡ header_phases w.trace)
      × (loggings w'.trace ≡ loggings w.trace)
      × (openings w'.trace ≡ openings w.trace)
unfolding answer
answer_books [] s w = ground arith
answer_books (c ∷ url) s w = ground arith

disrupt-Steady : (e : Env) (it : Intervention) (w : World) → Steady w (disrupt e it w).1
unfolding disrupt
disrupt-Steady e it w =
    let w₁ = record w { trace = on_response e clear ∷ w.trace } in
    let (r, w₂) = answer (url_of it) (pos_part it.status) w₁ in
    let final = final_status (url_of it) (pos_part it.status) in
    let w₃ = record w₂ { trace = set_request_handled ∷ update_status_code final ∷ w₂.trace } in
    ground (arith, answer_books (url_of it) (pos_part it.status) w₁, finish_request-Steady e w₃)

pub apply_intervention-Steady :
    (e : Env) (can_block : Bool) (w : World) → Steady w (apply_intervention e can_block w).1
unfolding apply_intervention
apply_intervention-Steady e b w =
    elim (Option-cases (e.intervention (read_intervention ∷ w.trace))) [
      | inl absent ↦ ground arith
      | inr (it, found) ↦
          ground (arith, disrupt-Steady e it (record w { trace = read_intervention ∷ w.trace }))
    ]
