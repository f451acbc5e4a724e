-- ===== src/System/Calls.antt =====
-- What the module asks of IIS, of Windows and of libModSecurity, and what these answer. Their code
-- is not part of the repository, so an `Env` is a parameter of all that uses it.
use Prim.Native.String.{String}
use mod_security_iis.Prelude.{ℕ, ◌%◌, ◌^◌, Bool, Option, List, if◌then◌else◌}

abbrev pub Bytes : Type 0
Bytes = List ℕ

-- The cast to a DWORD.
abbrev pub dword : ℕ → ℕ
dword n = n % 2 ^ 32

-- An HRESULT as the source looks at it: FAILED(hr) and HRESULT_CODE(hr).
pub record HResult : Type 0 where
  pub failed : Bool
  pub code : ℕ

-- The signed `int` of an engine status: `negsuc n` is -(n + 1).
pub data ℤ : Type 0 where
  pos : ℕ → ℤ
  negsuc : ℕ → ℤ

-- The fields of `modsecurity::ModSecurityIntervention` that are read; `url` is `none` for a null
-- pointer.
pub record Intervention : Type 0 where
  pub disruptive : Bool
  pub status : ℤ
  pub url : Option Bytes

-- The handler that an exception is reported for.
pub data Site : Type 0 where
  in_finish_body_read in_begin_request in_async_completion in_send_response : Site

-- The event log entries, one for each message of the source.
pub data Message : Type 0 where
  inspection_cap insert_entity_body_failed allocate_failed finalize_failed : Message
  exception_in : Site → Message
  config_failed rules_failed : Message

-- The calls whose order matters.
pub data Call : Type 0 where
  -- modsecurity::Transaction
  new_transaction : Call
  process_connection : Bytes → ℕ → Bytes → ℕ → Call
  process_uri : Bytes → Bytes → Bytes → Call
  add_request_header : Bytes → Bytes → Call
  process_request_headers : Call
  append_request_body : Bytes → Call
  process_request_body : Call
  add_response_header : Bytes → Bytes → Call
  process_response_headers : ℕ → Bytes → Call
  append_response_body : Bytes → Call
  process_response_body : Call
  read_intervention : Call
  update_status_code : ℕ → Call
  process_logging : Call
  delete_transaction : Call
  -- IHttpRequest and IHttpContext
  allocate_request_memory : ℕ → Call
  -- memcpy into memory of the first size of the second many bytes
  copy_memory : ℕ → ℕ → Call
  insert_entity_body : Bytes → Call
  set_request_handled : Call
  -- IHttpResponse
  clear : Call
  -- a member called on a null pointer: the worker process ends there, and what the trace has after
  -- it does not come about
  null_dereference : Call
  redirect : Bytes → Call
  set_status : ℕ → String → Call
  set_content_length : Bytes → Call
  -- the private handle of a file chunk
  duplicate_handle : Call
  close_handle : Call
  -- the std::vector operations that can throw std::bad_alloc
  resize_read_buf : ℕ → Call
  reserve_body : ℕ → Call
  insert_body : Bytes → Call
  -- the Application event log
  log_event : Message → Call

-- The calls so far, the newest first.
abbrev pub Trace : Type 0
Trace = List Call

-- One answered `ReadEntityBody`: the bytes that it put in the buffer and its HRESULT. A read that
-- pends delivers the same two with its completion.
pub record Chunk : Type 0 where
  pub bytes : Bytes
  pub hr : HResult

pub record ReadReply : Type 0 where
  pub pending : Bool
  pub chunk : Chunk

-- What `GetEnvironmentVariableA` returns and what it leaves in the zeroed buffer.
pub record Variable : Type 0 where
  pub n : ℕ
  pub buf : Bytes

pub record Variables : Type 0 where
  pub body_async : Variable
  pub max_inspect_body_bytes : Variable
  pub fail_closed : Variable

-- The known headers of http.sys that the module copies, requests first.
pub data KnownHeader : Type 0 where
  cache_control connection date keep_alive pragma trailer transfer_encoding upgrade : KnownHeader
  via warning allow content_length content_type content_encoding : KnownHeader
  content_language content_location content_md5 content_range expires last_modified : KnownHeader
  accept accept_charset accept_encoding accept_language authorization cookie expect : KnownHeader
  from_header host if_match if_modified_since if_none_match if_range : KnownHeader
  if_unmodified_since max_forwards proxy_authorization referer range te translate : KnownHeader
  user_agent : KnownHeader
  accept_ranges age etag location proxy_authenticate retry_after server : KnownHeader
  set_cookie vary www_authenticate : KnownHeader

-- `pRawValue` (`none` when null) and `RawValueLength` of a header.
pub record RawValue : Type 0 where
  pub raw_value : Option Bytes
  pub raw_value_length : ℕ

-- The parts of `HTTP_REQUEST` that tell of its body: HTTP_REQUEST_FLAG_MORE_ENTITY_BODY_EXISTS,
-- and the known headers.
pub record HttpRequest : Type 0 where
  pub more_entity_body : Bool
  pub known_headers : KnownHeader → RawValue

-- A file handle of a response chunk: whether it can be duplicated, whether the copy can be moved
-- to an offset, its size (`none` when it cannot be read), and what ReadFile of so many bytes at an
-- offset delivers (`none` when it fails).
pub record FileHandle : Type 0 where
  pub duplicates : Bool
  pub seeks : ℕ → Bool
  pub size : Option ℕ
  pub read_file : ℕ → ℕ → Option Bytes

-- `HTTP_DATA_CHUNK`: `other` is any type that the source does not name.
pub data DataChunk : Type 0 where
  from_memory : Bytes → DataChunk
  from_file_handle : FileHandle → ℕ → ℕ → DataChunk
  other : DataChunk

pub record UnknownHeader : Type 0 where
  pub name : RawValue
  pub value : RawValue

-- One RQ_SEND_RESPONSE: the raw response with its status, the MORE_DATA flag,
-- GetHeadersBeingSent(), and whether a Content-Length header is set.
pub record HttpResponse : Type 0 where
  pub response_headers : KnownHeader → RawValue
  pub unknown_headers : List UnknownHeader
  pub status_code : ℕ
  pub entity_chunks : List DataChunk
  pub more_data : Bool
  pub headers_being_sent : Bool
  pub has_content_length : Bool

-- The environment. It answers from all the calls made so far, so any deterministic engine or
-- server is such a function.
pub record Env : Type 0 where
  pub variables : Variables
  -- whether the newest call throws
  pub raises : Trace → Bool
  -- what `intervention()` fills in; `none` when it returns false
  pub intervention : Trace → Option Intervention
  -- `getRuleEngineState() == EnabledRuleEngine`
  pub rule_engine_enabled : Trace → Bool
  -- `m_secResponseBodyAccess == TrueConfigBoolean` of a rule set, by its number
  pub response_body_access : ℕ → Bool
  -- `GetResponse() != NULL`
  pub has_response : Bool
  -- `GetRequest() != NULL`
  pub has_request : Trace → Bool
  -- `GetRawHttpRequest()`; `none` when null
  pub raw_request : Option HttpRequest
  -- the answer to each `ReadEntityBody`, by its number
  pub read : ℕ → ReadReply
  pub allocate_ok : Trace → Bool
  pub insert_result : Trace → HResult

-- A call of a member of `GetResponse()` with no test before it.
abbrev pub on_response : Env → Call → Call
on_response e c = if e.has_response then c else null_dereference
