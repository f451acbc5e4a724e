-- ===== src/BeginRequest.antt =====
-- `OnBeginRequest` (src/ModSecurityIIS.cpp) as a whole.
mod Line
mod Headers
pub mod Total
pub mod Presented
pub mod Verdict
pub mod Refusal
pub mod Pointers
unfoldable pub use Line.*
unfoldable pub use Headers.{request_headers_table, feed_request_known, feed_request_unknown}
use mod_security_iis.Prelude.{
  ℕ, ◌+◌, ◌-◌, ◌*◌, Bool, true, false, not, ◌&&◌, ◌||◌, Option, none, some, List, [], ◌∷◌, ◌++◌,
  leb, ltb, ◌==◌, if◌then◌else◌, length, is_empty,
}
use mod_security_iis.System.{
  Bytes, RawValue, HttpRequest, UnknownHeader, Env, process_connection, process_uri,
  process_request_headers, new_transaction, delete_transaction, set_status, log_event, exception_in,
  in_begin_request, config_failed, rules_failed, RequestStoredContext, new_context, Status,
  rq_continue, rq_finish_request, World, ok, raised, stuck, M, ⊤, pure, gets, catch, ◌>>=◌, ◌>>◌,
  modify, note, call, when,
}
use mod_security_iis.ModuleConfig.{SiteConfig}
use mod_security_iis.Text.{a_to_utf8, c_string, codes}
use mod_security_iis.Settings.{config_fail_closed, body_reads_async}
use mod_security_iis.Intervention.{finish_request, apply_intervention}
use mod_security_iis.Body.{begin_body_read}

-- How getRules ended: by an exception, or with a rule set (`none` for nullptr).
pub data RulesAnswer : Type 0 where
  threw : RulesAnswer
  got : Option ℕ → RulesAnswer

-- How `SetModuleContext` ended: refused is any failure but ERROR_ALREADY_ASSIGNED.
pub data Installed : Type 0 where
  installed already_assigned refused : Installed

-- `CookedUrl`: the absolute path and the query string with its question mark, with their lengths
-- in bytes.
pub record CookedUrl : Type 0 where
  pub abs_path : Option (List ℕ)
  pub abs_path_length : ℕ
  pub query_string : List ℕ
  pub query_string_length : ℕ

-- What the handler meets when a request begins, apart from the raw request of `Env`; `config` is
-- what GetConfig gives, `none` when it fails.
pub record Arrival : Type 0 where
  pub utf8 : Utf8
  pub config : Option SiteConfig
  pub rules_answer : Bytes → RulesAnswer
  pub transaction_allocated : Bool
  pub context_allocated : Bool
  pub set_module_context : Installed
  pub remote_address : Option SockAddr
  pub local_address : Option SockAddr
  pub raw_url : RawValue
  pub cooked_url : CookedUrl
  pub verb : Verb
  pub version : ℕ × ℕ
  pub unknown_headers : List UnknownHeader

abbrev pub null_or_empty : Option (List ℕ) → Bool
null_or_empty none = true
null_or_empty (some w) = is_empty w

abbrev pub units : Option (List ℕ) → ℕ
units none = 0
units (some w) = length w

-- The two failures that are answered by the fail-closed policy.
unfoldable pub fail_by_policy : Env → Arrival → M Status
fail_by_policy e a =
    if config_fail_closed e
    then (when e.has_response (note (set_status 500 "Internal Server Error"))
        >> pure rq_finish_request)
    else pure rq_continue

-- One event of each kind for the life of the process.
abbrev pub config_noted : World → World
config_noted w =
    if w.config_fail_logged
    then w
    else record w { config_fail_logged = true; trace = log_event config_failed ∷ w.trace }

abbrev pub rules_noted : World → World
rules_noted w =
    if w.rules_fail_logged
    then w
    else record w { rules_fail_logged = true; trace = log_event rules_failed ∷ w.trace }

unfoldable pub log_config_failed : M ⊤
log_config_failed w = (ok tt, config_noted w)

unfoldable pub log_rules_failed : M ⊤
log_rules_failed w = (ok tt, rules_noted w)

abbrev pub query_of : Arrival → Bytes
query_of a =
    let u = a.cooked_url in
    if leb 2 u.query_string_length
    then b'?' ∷ w_to_utf8 a.utf8 (some (tail u.query_string)) (u.query_string_length - 2)
    else []
  where
    tail : List ℕ → List ℕ
    tail [] = []
    tail (c ∷ s) = s

abbrev pub cooked_uri : Arrival → Bytes
cooked_uri a = w_to_utf8 a.utf8 a.cooked_url.abs_path a.cooked_url.abs_path_length ++ query_of a

-- The raw URL, or else the cooked one.
abbrev pub uri_from : Option Bytes → Arrival → Bytes
uri_from none a = cooked_uri a
uri_from (some s) a = a_to_utf8 (some s) a.raw_url.raw_value_length

abbrev pub request_uri : Arrival → Bytes
request_uri a = uri_from a.raw_url.raw_value a

-- Connection, URI and headers, up to `processRequestHeaders`.
unfoldable pub feed_request : Env → Arrival → HttpRequest → M ⊤
feed_request e a req = do
  call e (
      process_connection (c_string (sock_addr_to_ip a.remote_address))
        (sock_addr_to_port a.remote_address) (c_string (sock_addr_to_ip a.local_address))
        (sock_addr_to_port a.local_address))
  modify (λ r. record r { protocol = version_to_string a.version })
  call e (
      process_uri (c_string (request_uri a)) (c_string (verb_to_string a.verb))
        (c_string (version_to_string a.version)))
  feed_request_known e request_headers_table req.known_headers
  feed_request_unknown e a.unknown_headers
  call e process_request_headers

unfoldable pub judge_headers : Env → M Status
judge_headers e = do
  blocked ← apply_intervention e true
  if blocked then pure rq_finish_request else begin_body_read (body_reads_async e) e

-- What follows the installation of the context. `none` is a null raw request.
unfoldable pub inspect_request : Env → Arrival → Option HttpRequest → M Status
inspect_request e a none = pure rq_continue
inspect_request e a (some req) = do feed_request e a req; judge_headers e

-- `CleanupStoredContext` of a context that IIS did not take: finished there and in the destructor.
-- The request keeps whatever context it had.
unfoldable pub abandon : Env → RequestStoredContext → M ⊤
abandon e before = do finish_request e; finish_request e; modify (λ r. before)

unfoldable pub install : Env → Arrival → RequestStoredContext → Installed → M Status
install e a before installed w = inspect_request e a e.raw_request (record w { stored = true })
install e a before already_assigned w = (abandon e before >> pure rq_continue) w
install e a before refused w = (abandon e before >> pure rq_finish_request) w

-- The context of a new request.
abbrev pub context_for : SiteConfig → ℕ → RequestStoredContext
context_for c r = record new_context {
  tx = true;
  rules = some r;
  response_body_block = c.response_body_block;
}

unfoldable pub set_context : Env → Arrival → SiteConfig → ℕ → M Status
set_context e a c r w = install e a w.rsc a.set_module_context (record w { rsc = context_for c r })

unfoldable pub open_context : Env → Arrival → SiteConfig → ℕ → M Status
open_context e a c r =
    if a.transaction_allocated
    then call e new_transaction
      >> (if a.context_allocated
          then set_context e a c r
          else (note delete_transaction >> pure rq_finish_request))
    else pure rq_finish_request

unfoldable pub with_rules : Env → Arrival → SiteConfig → RulesAnswer → M Status
with_rules e a c threw w = (raised, w)
with_rules e a c (got none) w = (log_rules_failed >> fail_by_policy e a) w
with_rules e a c (got (some r)) w = open_context e a c r w

unfoldable pub with_config : Env → Arrival → Option SiteConfig → M Status
with_config e a none w = (log_config_failed >> fail_by_policy e a) w
with_config e a (some c) w =
    if not c.is_enabled || null_or_empty c.path
    then (ok rq_continue, w)
    else with_rules e a c (a.rules_answer (w_to_utf8 a.utf8 c.path (units c.path * 2))) w

-- The do block of the handler.
unfoldable pub begin_request : Env → Arrival → M Status
begin_request e a w =
    if e.has_request w.trace then with_config e a a.config w else (ok rq_finish_request, w)

-- `none` is a null context.
unfoldable pub on_begin_request : Env → Option Arrival → M Status
on_begin_request e none w = (ok rq_finish_request, w)
on_begin_request e (some a) w =
    catch (begin_request e a)
      (note (log_event (exception_in in_begin_request)) >> pure rq_finish_request) w
