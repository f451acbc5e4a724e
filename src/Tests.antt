-- ===== src/Tests.antt =====
-- The example environments of the tests: a client that sends one small body, engines that stay
-- calm, block or throw, and a response of two chunks.
mod Requests
mod Responses
mod Parts
mod Begins
mod Sites
mod Lives
mod Hosts
mod Races
mod Processes
mod Traces
use mod_security_iis.Prelude.{
  ℕ, zero, suc, Bool, true, false, Option, none, some, List, [], ◌∷◌, ◌==◌, if◌then◌else◌, take,
}
use mod_security_iis.System.{
  Bytes, HResult, Chunk, ReadReply, Variable, KnownHeader, RawValue, HttpRequest, HttpResponse,
  FileHandle, DataChunk, from_memory, from_file_handle, other, Intervention, pos, Trace, Env, World,
  RequestStoredContext, new_context, Call, process_request_body,
}
use mod_security_iis.Text.{codes}

abbrev pub fine : HResult
fine = record { failed = false; code = 0 }

abbrev pub eof : HResult
eof = record { failed = true; code = 38 }

abbrev pub first_chunk : Chunk
first_chunk = record { bytes = codes "ab"; hr = fine }

abbrev pub second_chunk : Chunk
second_chunk = record { bytes = codes "c"; hr = fine }

abbrev pub last_chunk : Chunk
last_chunk = record { bytes = []; hr = eof }

-- The first read pends, the second is answered inline, and there is nothing more.
abbrev pub replies : ℕ → ReadReply
replies zero = record { pending = true; chunk = first_chunk }
replies (suc zero) = record { pending = false; chunk = second_chunk }
replies (suc (suc n)) = record { pending = true; chunk = last_chunk }

abbrev pub unset : Variable
unset = record { n = 0; buf = [] }

abbrev pub no_headers : KnownHeader → RawValue
no_headers h = record { raw_value = none; raw_value_length = 0 }

abbrev pub chunked_request : HttpRequest
chunked_request = record { more_entity_body = true; known_headers = no_headers }

-- An inspection cap of 8 bytes, and an engine that finds nothing.
abbrev pub calm_env : Env
calm_env = record {
  variables = record {
    body_async = unset;
    max_inspect_body_bytes = record { n = 1; buf = codes "8" };
    fail_closed = unset;
  };
  raises = λ t. false;
  intervention = λ t. none;
  rule_engine_enabled = λ t. true;
  response_body_access = λ r. true;
  has_response = true;
  has_request = λ t. true;
  raw_request = some chunked_request;
  read = replies;
  allocate_ok = λ t. true;
  insert_result = λ t. fine;
}

abbrev pub denied : Intervention
denied = record { disruptive = true; status = pos 403; url = none }

abbrev pub blocking_env : Env
blocking_env = record calm_env { intervention = λ t. some denied }

abbrev pub is_body_phase : Trace → Bool
is_body_phase (process_request_body ∷ t) = true
is_body_phase _ = false

-- The engine throws in its request-body phase.
abbrev pub throwing_env : Env
throwing_env = record calm_env { raises = is_body_phase }

-- The world as the request's headers have passed.
abbrev pub opened : World
opened = record {
  rsc = record new_context { tx = true; rules = some 1; response_body_block = true };
  trace = [];
  stored = true;
  reads = 0;
  cap_logged = false;
  config_fail_logged = false;
  rules_fail_logged = false;
}

-- The whole body was read.
abbrev pub drained : World
drained = record opened { rsc = record (opened.rsc) { body = codes "abc" } }

-- A file of five bytes, read from its start.
abbrev pub file_data : Bytes
file_data = codes "hello"

abbrev pub small_file : FileHandle
small_file = record {
  duplicates = true;
  seeks = λ offset. true;
  size = some 5;
  read_file = λ offset n. if offset == 0 then some (take n file_data) else some [];
}

abbrev pub page_chunks : List DataChunk
page_chunks = from_memory (codes "page") ∷ from_file_handle small_file 0 5 ∷ other ∷ []

abbrev pub page : HttpResponse
page = record {
  response_headers = no_headers;
  unknown_headers = [];
  status_code = 200;
  entity_chunks = page_chunks;
  more_data = false;
  headers_being_sent = true;
  has_content_length = false;
}
