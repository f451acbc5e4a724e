-- ===== src/Host/Calls.antt =====
-- What the process asks of Windows, of IIS and of libModSecurity as the module comes and goes.
use mod_security_iis.Prelude.{
  ℕ, Bool, true, false, Option, none, some, List, [], ◌∷◌, count_if, if◌then◌else◌,
}
use mod_security_iis.System.{Bytes, ok, raised, ⊤, Stateful}

-- EVENTLOG_ERROR_TYPE and EVENTLOG_INFORMATION_TYPE
pub data Category : Type 0 where
  error_type information_type : Category

-- The calls, with what was answered. An event source is named by its number.
pub data HostCall : Type 0 where
  create_engine set_connector_information set_server_log_cb : HostCall
  exception_thrown : HostCall
  register_event_source : Option ℕ → HostCall
  deregister_event_source : ℕ → HostCall
  report_event : ℕ → Category → Bytes → HostCall
  allocate_module : Bool → HostCall
  delete_module : ℕ → HostCall
  allocate_factory : Bool → HostCall
  delete_factory : HostCall
  -- IHttpModuleRegistrationInfo, with the HRESULT: SetRequestNotifications, then
  -- SetPriorityForRequestNotification of RQ_BEGIN_REQUEST (PRIORITY_ALIAS_FIRST) and of
  -- RQ_SEND_RESPONSE (PRIORITY_ALIAS_LAST)
  set_request_notifications : ℕ → HostCall
  prioritize_begin_request : ℕ → HostCall
  prioritize_send_response : ℕ → HostCall

-- The newest first.
abbrev pub HostTrace : Type 0
HostTrace = List HostCall

-- What the calls so far make of the next one: whether memory is granted, whether Windows has an
-- event source, whether the call throws, and the HRESULT; `what` is that of the exception, `none`
-- where it is not a std::exception. MODSECURITYIIS_VERSION comes from the build.
pub record HostEnv : Type 0 where
  pub memory : HostTrace → Bool
  pub has_source : HostTrace → Bool
  pub throws : HostTrace → Bool
  pub hresult : HostTrace → ℕ
  pub what : HostTrace → Option Bytes
  pub version : Bytes

-- CMyHttpModule: a number that no other has, and m_hEventLog.
pub record Module : Type 0 where
  pub name : ℕ
  pub event_log : Option ℕ

-- `engine` tells whether g_engine is set; `event_log` is g_hEventLog; `created` and `locked` are
-- m_pModule and m_csLock of the factory; `owned` tells whether the unique_ptr of RegisterModule has
-- the factory.
pub record Host : Type 0 where
  pub engine : Bool
  pub event_log : Option ℕ
  pub module_context : Option ℕ
  pub http_server : Option ℕ
  pub created : Option Module
  pub locked : Bool
  pub owned : Bool
  pub trace : HostTrace

-- As the process starts.
abbrev pub new_host : Host
new_host = record {
  engine = false;
  event_log = none;
  module_context = none;
  http_server = none;
  created = none;
  locked = false;
  owned = false;
  trace = [];
}

abbrev pub H : Type 0 → Type 0
H = Stateful Host

abbrev pub s_ok : ℕ
s_ok = 0

abbrev pub e_unexpected : ℕ
e_unexpected = 0x8000FFFF

-- HRESULT_FROM_WIN32 of ERROR_INVALID_PARAMETER and of ERROR_NOT_ENOUGH_MEMORY
abbrev pub invalid_parameter : ℕ
invalid_parameter = 0x80070057

abbrev pub not_enough_memory : ℕ
not_enough_memory = 0x80070008

abbrev pub is_source : HostCall → Bool
is_source (register_event_source r) = true
is_source _ = false

abbrev pub is_module : HostCall → Bool
is_module (allocate_module r) = true
is_module _ = false

-- How many event sources were asked for.
abbrev pub sources : HostTrace → ℕ
sources = count_if is_source

-- How many modules were asked for.
abbrev pub modules : HostTrace → ℕ
modules = count_if is_module

abbrev pub makes : HostCall → H ⊤
makes c h = (ok tt, record h { trace = c ∷ h.trace })

-- A call that may throw.
abbrev pub attempts : HostEnv → HostCall → H ⊤
attempts e c h =
    if e.throws h.trace
    then (raised, record h { trace = exception_thrown ∷ h.trace })
    else (ok tt, record h { trace = c ∷ h.trace })

-- `new (std::nothrow)`
abbrev pub grants : HostEnv → (Bool → HostCall) → H Bool
grants e c h =
    let granted = e.memory h.trace in (ok granted, record h { trace = c granted ∷ h.trace })

-- A call of IIS that answers an HRESULT.
abbrev pub answers : HostEnv → (ℕ → HostCall) → H ℕ
answers e c h =
    if e.throws h.trace
    then (raised, record h { trace = exception_thrown ∷ h.trace })
    else (ok (e.hresult h.trace), record h { trace = c (e.hresult h.trace) ∷ h.trace })

abbrev pub next_source : HostEnv → HostTrace → Option ℕ
next_source e t = if e.has_source t then some (sources t) else none

-- `RegisterEventSourceA`: a handle that was not in use, or NULL.
abbrev pub register_source : HostEnv → H (Option ℕ)
register_source e h =
    let source = next_source e h.trace in
    (ok source, record h { trace = register_event_source source ∷ h.trace })
