-- ===== src/Lib.antt =====
-- ModSecurityIIS, an IIS module that runs libModSecurity on the requests and responses of a site.
--
-- The program and the files that model it. `OnBeginRequest` opens a transaction for a request and
-- drains its entity body; `OnAsyncCompletion` goes on with a body whose read was pending;
-- `OnSendResponse` inspects the response headers and body. After each phase `ApplyIntervention`
-- asks the engine for its verdict.
--   System        what IIS, Windows and libModSecurity are asked for, as a trace of calls; the
--                 per-request state `REQUEST_STORED_CONTEXT` (src/ModSecurityIIS.h) as the record
--                 `RequestStoredContext`; and the monad of state and exceptions of the handlers
--   Text          AToUtf8, the std::from_chars reading of a whole number, and decimal printing
--   Settings      GetMaxInspectBodyBytes, ConfigFailClosed and BodyReadsAsync
--   EntityBody    EntityBodyInfo and GetEntityBodyInfo
--   Intervention  ApplyIntervention, StandardReason, responseBodyBlockingEnabled, FinishRequest
--   FinishBody    FinishBodyRead
--   Body          BeginBodyRead, PumpBodyRead, ConsumeBodyChunk, OnAsyncCompletion; Body.Threads has
--                 the accesses of PumpBodyRead and OnAsyncCompletion as moves of threads
--   BeginRequest  OnBeginRequest, with WToUtf8, SockAddrToIp, SockAddrToPort, VerbToString and
--                 VersionToString
--   ResponseChunks  AppendResponseFileChunk and the chunk loop of OnSendResponse
--   Response      OnSendResponse and SendResponseExceptionPolicy
--   Life          OnPostEndRequest and CleanupStoredContext (src/ModSecurityIIS.h); all notifications
--                 of a request in any order, against the abstract machine of Life/Spec
--   RulesCache    getRules and GetRulesFileTime (src/connector.cpp), and calls of many threads
--   Throttle      ServerLogCallback (src/connector.cpp)
--   ModuleConfig  MODSECURITY_STORED_CONTEXT (src/moduleconfig.cpp), whose GetConfig answers
--                 OnBeginRequest, and calls of many threads
--   Site          OnBeginRequest with what GetConfig and getRules give from their caches;
--                 Site.Process, a worker process of many requests for one configuration path
--   Host          RegisterModule, CMyHttpModule's constructor and destructor, ReportException, the
--                 factory (src/mymodulefactory.h), engine and WriteEventViewerLog
--                 (src/connector.cpp)
--   DebugTrace    IisTraceEnabled and IisTrace
--   Tests         example environments, and the results at concrete inputs
-- Where no file is named, the functions are those of src/ModSecurityIIS.cpp.
--
-- How the code is read. A handler is a function of a `World`: the request's context, the calls made
-- so far (the newest first), whether IIS holds the context, the number of reads issued, and the
-- statics s_capLogged, s_configFailLogged and s_rulesFailLogged. It ends with a value, with an
-- exception, or `stuck`, when fuel runs out. Calls of code that is not in the repository are entries
-- of the trace, answered by an `Env`, a function of the calls so far, which also says which
-- calls throw. The answer to each ReadEntityBody is given by its number, the same whether it is
-- delivered inline or with a completion. The handlers' calls of IisTrace, which only write a debug
-- file, are left out of them. A rule set is a number; a transaction is present or absent.
-- The module is the 64-bit one: size_t and ULONGLONG wrap at 2 ^ 64, a DWORD at 2 ^ 32 and a USHORT
-- at 2 ^ 16, written out where a value can reach them.
--
-- ApplyIntervention and FinishBodyRead call members of GetResponse() without a test. Where IIS has
-- no response, such a call is `null_dereference` in the trace; the process crashes there, so what
-- the model makes of the rest of that handler stands for nothing.
--
-- Fuel. The read loop of PumpBodyRead has one unit more than the inspection cap, since each
-- round but the last adds a byte to a body below the cap; the ReadFile loop has the length of
-- its range, since each round but the last reads a byte of it.
--
-- Not modelled: the release of COM objects and strings, the handles of the critical
-- sections, and the scripts and build files. libModSecurity is a submodule whose code is not here.
--
-- Threads. A handler of a request runs alone but for its body reads, whose completions IIS may
-- deliver before the thread that issued the read has left: Body.Threads has the accesses of
-- PumpBodyRead and OnAsyncCompletion to what they share as moves of threads, in any interleaving;
-- elsewhere completions come as a sequence. As threads, completions of other modules come only once
-- the body phase has ended, which OnAsyncCompletion relies on: one that came in between, while a
-- read answered inline has not reset its state, would be claimed.
-- GetConfig and getRules, which many threads call, take the container and the cache as each access
-- finds them, and their calls interleave as steps; IIS answers SetModuleContext by what the
-- container holds. IIS discards what a container holds when the configuration changes, and the next
-- calls find an empty one: a container of the model stands for one such life, and Site.Process
-- numbers them, each request with the container that it found. A call of getRules whose load
-- throws leaves the cache as it is and throws to OnBeginRequest. GetHttpModule runs inside its
-- critical section, so its calls, and the lines that are written between them, come one after the other. IisTrace is called on one thread after another.
pub mod DebugTrace
pub mod Prelude
pub mod System
pub mod Text
pub mod Settings
pub mod EntityBody
pub mod Intervention
pub mod FinishBody
pub mod Body
pub mod ModuleConfig
pub mod BeginRequest
pub mod Throttle
pub mod RulesCache
pub mod ResponseChunks
pub mod Response
pub mod Host
pub mod Life
pub mod Site
pub mod Tests
