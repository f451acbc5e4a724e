-- ===== src/Host.antt =====
-- The module in the worker process: RegisterModule and CMyHttpModule of src/ModSecurityIIS.cpp, its
-- factory (src/mymodulefactory.h), the engine and the event log (src/connector.cpp).
mod Calls
pub mod Registration
pub mod Creation
pub mod Sources
pub mod Making
pub mod Orderly
pub mod Registered
pub mod Serving
pub mod Lifetime
pub use Calls.*
use mod_security_iis.Prelude.{
  ℕ, Bool, true, false, not, Option, none, some, List, [], ◌∷◌, ◌++◌, take, leb, ◌^◌, if◌then◌else◌,
}
use mod_security_iis.System.{
  Bytes, Result, ok, raised, stuck, ⊤, Stateful, pure, gets, catch, when, ◌>>=◌, ◌>>◌,
}
use mod_security_iis.Text.{codes}

-- `iis::WriteEventViewerLog`; `none` is a null pointer.
unfoldable pub write_event_viewer_log : Option Bytes → Category → H ⊤
write_event_viewer_log none category h = (ok tt, h)
write_event_viewer_log (some message) category h = elim h.event_log [
  | none ↦ (ok tt, h)
  | some handle ↦ makes (report_event handle category message) h
]

-- `CMyHttpModule::WriteEventViewerLog`, with what ReportEventA would return. It has no caller.
unfoldable write_notification : Bool → Module → Option Bytes → Category → H Bool
write_notification reported m none category = pure false
write_notification reported m (some message) category = elim m.event_log [
  | none ↦ pure false
  | some handle ↦ (makes (report_event handle category message) >> pure reported)
]

abbrev pub or_else : Option Bytes → Bytes → Bytes
or_else none s = s
or_else (some t) s = t

-- `ReportException`: what fits into 512 characters with their NUL.
unfoldable pub report_exception : Option Bytes → Option Bytes → H ⊤
report_exception place what =
    let text =
      codes "ModSecurityIIS: unexpected exception in "
      ++ or_else place (codes "?")
      ++ codes ": "
      ++ or_else what (codes "unknown error") in
    write_event_viewer_log (some (take 511 text)) error_type

-- `iis::engine`
unfoldable pub engine : HostEnv → H ⊤
engine e = do
  there ← gets (λ h. h.engine)
  when (not there) (do
    attempts e create_engine
    λ h. (ok tt, record h { engine = true })
    attempts e set_connector_information
    attempts e set_server_log_cb)

-- The constructor of CMyHttpModule.
unfoldable pub construct : HostEnv → H Module
construct e = do
  source ← register_source e
  λ h. (ok tt, record h { event_log = source })
  engine e
  name ← gets (λ h. modules h.trace)
  pure (record { name = name; event_log = source })

-- `new (std::nothrow) CMyHttpModule()`. An exception of the constructor passes on.
unfoldable pub new_module : HostEnv → H (Option Module)
new_module e = do
  granted ← grants e allocate_module
  if granted then (do m ← construct e; pure (some m)) else pure none

-- `EnterCriticalSection` and `LeaveCriticalSection`
abbrev pub lock : Bool → H ⊤
lock b h = (ok tt, record h { locked = b })

abbrev pub keep_module : Option Module → H (ℕ × Option Module)
keep_module none = do lock false; pure (not_enough_memory, none)
keep_module (some m) = do
  λ h. (ok tt, record h { created = some m })
  lock false
  pure (s_ok, some m)

abbrev pub give_module : HostEnv → Option Module → H (ℕ × Option Module)
give_module e (some m) = do lock false; pure (s_ok, some m)
give_module e none = do keep_module (← new_module e)

-- `GetHttpModule`, told whether ppModule is set: its HRESULT, and what it writes there.
unfoldable pub get_http_module : HostEnv → Bool → H (ℕ × Option Module)
get_http_module e false = pure (invalid_parameter, none)
get_http_module e true = do lock true; give_module e (← gets (λ h. h.created))

-- The destructor.
abbrev pub close_source : Option ℕ → H ⊤
close_source none = pure tt
close_source (some handle) = do
  makes (deregister_event_source handle)
  λ h. (ok tt, record h { event_log = none })

abbrev pub delete_kept : Option Module → H ⊤
delete_kept none = pure tt
delete_kept (some m) = do
  close_source m.event_log
  makes (delete_module m.name)
  λ h. (ok tt, record h { created = none })

-- `Terminate`
unfoldable pub terminate : H ⊤
terminate = do delete_kept (← gets (λ h. h.created)); makes delete_factory

-- The entry that names the version, through a handle of its own.
unfoldable pub announce : HostEnv → H ⊤
announce e = do
  source ← register_source e
  elim source [
    | none ↦ pure tt
    | some handle ↦ do
      makes (
          report_event handle information_type
            (codes "ModSecurityIIS " ++ e.version ++ codes " registered"))
      makes (deregister_event_source handle)
  ]

-- FAILED(hr)
abbrev pub failed : ℕ → Bool
failed hr = leb (2 ^ 31) hr

-- `if (FAILED(hr)) return hr;`
abbrev pub unless_failed : H ℕ → H ℕ → H ℕ
unless_failed m k = m >>= λ hr h. if failed hr then (ok hr, h) else k h

-- The std::unique_ptr `factory`: set, or released.
abbrev pub own : Bool → H ⊤
own b h = (ok tt, record h { owned = b })

unfoldable pub prioritize : HostEnv → H ℕ
prioritize e =
    unless_failed (answers e prioritize_begin_request)
      (unless_failed (answers e prioritize_send_response) (announce e >> pure s_ok))

-- The requests to IIS. From SetRequestNotifications on, the factory is its own.
unfoldable pub register_notifications : HostEnv → H ℕ
register_notifications e =
    unless_failed (answers e set_request_notifications) (own false >> prioritize e)

-- The try block.
unfoldable pub register_factory : HostEnv → H ℕ
register_factory e = do
  granted ← grants e allocate_factory
  if granted then (own true >> register_notifications e) else pure not_enough_memory

-- What the unique_ptr does as the function returns.
unfoldable pub delete_owned : H ⊤
delete_owned h = (if h.owned then makes delete_factory >> own false else pure tt) h

-- `RegisterModule`, with what GetId() answers and the server, `none` for null pointers.
unfoldable pub register_module : HostEnv → Option ℕ → Option ℕ → H ℕ
register_module e (some id) (some server) = do
  λ h. (ok tt, record h { module_context = some id; http_server = some server })
  hr ← catch (register_factory e) (λ h.
      (report_exception (some (codes "RegisterModule")) (e.what h.trace) >> pure e_unexpected) h)
  delete_owned
  pure hr
register_module e _ _ = pure invalid_parameter
