-- ===== src/Response.antt =====
-- `OnSendResponse` and `SendResponseExceptionPolicy` (src/ModSecurityIIS.cpp).
pub mod Headers
pub mod Frames
pub mod Phases
pub mod Detection
pub mod Pinned
pub mod Total
pub use Headers.{response_headers_table, feed_known, feed_unknown}
use Prim.Native.String.{String}
use mod_security_iis.Prelude.{
  ℕ, ◌%◌, ◌^◌, Bool, true, false, not, ◌&&◌, ◌||◌, Option, none, some, List, [], ◌∷◌, ◌++◌, ltb,
  if◌then◌else◌, is_empty, take,
}
use mod_security_iis.System.{
  Bytes, HttpResponse, Env, process_response_headers, process_response_body, set_content_length,
  set_status, log_event, exception_in, in_send_response, Status, rq_continue, rq_finish_request,
  RequestStoredContext, World, Result, ok, raised, stuck, M, ⊤, pure, gets, catch, ◌>>=◌, ◌>>◌,
  modify, note, call, when,
}
use mod_security_iis.Text.{codes, to_string}
use mod_security_iis.Settings.{max_inspect_body_bytes}
use mod_security_iis.Intervention.{apply_intervention, response_body_blocking_enabled}
use mod_security_iis.ResponseChunks.{inspect_chunks}

-- `respStatus` and the full protocol.
abbrev pub protocol_of : Bytes → Bytes
protocol_of [] = codes "HTTP/1.1"
protocol_of (c ∷ s) = codes "HTTP/" ++ c ∷ s

abbrev pub headers_fed : M ⊤
headers_fed = modify (λ r. record r { response_headers_fed = true })

abbrev pub body_evaluated : M ⊤
body_evaluated = modify (λ r. record r { response_body_evaluated = true })

-- The header phase, run until it has gone through once. Returns whether the response was replaced.
unfoldable pub header_phase : Env → HttpResponse → M Bool
header_phase e r w =
    if w.rsc.response_headers_fed
    then (ok false, w)
    else (do
      feed_known e response_headers_table r.response_headers
      feed_unknown e r.unknown_headers
      call e (process_response_headers r.status_code (protocol_of w.rsc.protocol))
      can_block ← gets (response_body_blocking_enabled e)
      blocked ← apply_intervention e can_block
      when (not blocked) headers_fed
      pure blocked)
        w

-- Whether the Content-Length of the inspected bytes is to be set.
abbrev pub pins_length : Env → HttpResponse → ℕ → Bool
pins_length e r inspected =
    ltb 0 inspected
    && r.headers_being_sent
    && ltb inspected (max_inspect_body_bytes e)
    && not r.has_content_length

-- `SetHeader` of the length as printed into 20 characters with their NUL.
abbrev pub pinned : Env → HttpResponse → ℕ → World → World
pinned e r inspected w =
    if pins_length e r inspected
    then record w { trace = set_content_length (take 19 (to_string inspected)) ∷ w.trace }
    else w

unfoldable pub pin_length : Env → HttpResponse → ℕ → M ⊤
pin_length e r inspected w = (ok tt, pinned e r inspected w)

-- Mode A on a complete body. Returns whether the response was replaced.
unfoldable pub block_phase : Env → HttpResponse → ℕ → M Bool
block_phase e r inspected = do
  pin_length e r inspected
  body_evaluated
  call e process_response_body
  apply_intervention e true

-- Mode B.
unfoldable pub inspect_phase : Env → M ⊤
inspect_phase e = do
  body_evaluated
  call e process_response_body
  apply_intervention e false
  pure tt

-- The first of the two tests after the chunk loop.
unfoldable pub mode_a : Env → HttpResponse → ℕ → M Bool
mode_a e r inspected w =
    if response_body_blocking_enabled e w && not w.rsc.response_body_evaluated
    then (if r.more_data
        then (ok false, record w { rsc = record (w.rsc) { response_body_block = false } })
        else block_phase e r inspected w)
    else (ok false, w)

-- The second.
unfoldable pub mode_b : Env → HttpResponse → M ⊤
mode_b e r w =
    if not (response_body_blocking_enabled e w)
      && not w.rsc.response_body_evaluated
      && not r.more_data
    then inspect_phase e w
    else (ok tt, w)

unfoldable pub body_phases : Env → HttpResponse → M Status
body_phases e r = do
  inspected ← inspect_chunks e r.entity_chunks 0
  replaced ← mode_a e r inspected
  if replaced then pure rq_finish_request else (mode_b e r >> pure rq_continue)

unfoldable pub response_phase : Env → HttpResponse → M Status
response_phase e r = do
  replaced ← header_phase e r
  if replaced then pure rq_finish_request else body_phases e r

-- After an exception: a response of which no phase has gone through is stopped.
unfoldable pub exception_policy : M Status
exception_policy w =
    if w.rsc.tx && not w.rsc.response_headers_fed && not w.rsc.response_body_evaluated
    then (note (set_status 500 "Internal Server Error") >> pure rq_finish_request) w
    else (ok rq_continue, w)

-- `none` is a response with no raw view.
unfoldable pub on_send_response : Env → Option HttpResponse → M Status
on_send_response e none w = (ok rq_continue, w)
on_send_response e (some r) w =
    if w.stored && w.rsc.tx
    then catch (response_phase e r)
        (note (log_event (exception_in in_send_response)) >> exception_policy) w
    else (ok rq_continue, w)
