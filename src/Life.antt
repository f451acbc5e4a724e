-- ===== src/Life.antt =====
-- The life of a request: its notifications, one after the other, until IIS releases its context
-- (`OnPostEndRequest` of src/ModSecurityIIS.cpp, `CleanupStoredContext` of src/ModSecurityIIS.h).
pub mod Spec
pub mod Books
pub mod Reads
pub mod Responses
pub mod Begins
pub mod Refines
pub mod Feeding
pub mod Headers
use mod_security_iis.Prelude.{Bool, true, false, Option, List, [], ◌∷◌, if◌then◌else◌}
use mod_security_iis.System.{
  Chunk, HttpResponse, Env, World, Status, rq_continue, ok, M, ⊤, ◌>>=◌, ◌>>◌, Result, raised,
  stuck,
}
use mod_security_iis.Intervention.{finish_request}
use mod_security_iis.Body.{on_async_completion}
use mod_security_iis.Response.{on_send_response}

-- The response phases live in `OnSendResponse`.
unfoldable pub on_post_end_request : M Status
on_post_end_request w = (ok rq_continue, w)

-- `CleanupStoredContext`: the context is finished there, and again in its destructor.
unfoldable pub cleanup_stored_context : Env → M ⊤
cleanup_stored_context e = do
  finish_request e
  finish_request e
  λ w. (ok tt, record w { stored = false })

-- What reaches the module after RQ_BEGIN_REQUEST: a completion, one of the request's own or of
-- another module; RQ_SEND_RESPONSE; the end of the request; and the release of the context.
pub data Event : Type 0 where
  completed : Option Chunk → Event
  sends : Option HttpResponse → Event
  post_end : Event
  cleanup : Event

unfoldable pub step : Env → Event → World → World
step e (completed c) w = (on_async_completion e c w).1
step e (sends r) w = (on_send_response e r w).1
step e post_end w = (on_post_end_request w).1
step e cleanup w = (cleanup_stored_context e w).1

unfoldable pub run : Env → List Event → World → World
run e [] w = w
run e (ev ∷ evs) w = run e evs (step e ev w)
