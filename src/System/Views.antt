-- ===== src/System/Views.antt =====
-- Readings of a trace: what the client gets, what the engine was told, and how often a phase ran.
use mod_security_iis.Prelude.{
  ℕ, Bool, true, false, Option, none, some, [], ◌∷◌, count_if, ◌+◌, length, ltb,
}
use mod_security_iis.System.Calls.{
  Call, Trace, clear, redirect, append_response_body, set_status, update_status_code,
  process_request_body, process_response_headers, process_logging, process_response_body,
  set_request_handled, copy_memory, new_transaction,
}

-- The status that IIS answers with, as far as the module set it: Clear() forgets it, Redirect()
-- answers 302.
abbrev pub wire_status : Trace → Option ℕ
wire_status [] = none
wire_status (clear ∷ t) = none
wire_status (redirect u ∷ t) = some 302
wire_status (set_status s r ∷ t) = some s
wire_status (_ ∷ t) = wire_status t

-- The status that the engine was last told.
abbrev pub told_status : Trace → Option ℕ
told_status [] = none
told_status (update_status_code s ∷ t) = some s
told_status (_ ∷ t) = told_status t

-- How many bytes of response body the engine was given.
abbrev pub response_bytes : Trace → ℕ
response_bytes [] = 0
response_bytes (append_response_body s ∷ t) = length s + response_bytes t
response_bytes (_ ∷ t) = response_bytes t

abbrev pub is_request_phase : Call → Bool
is_request_phase process_request_body = true
is_request_phase _ = false

abbrev pub is_logging : Call → Bool
is_logging process_logging = true
is_logging _ = false

abbrev pub is_response_phase : Call → Bool
is_response_phase process_response_body = true
is_response_phase _ = false

abbrev pub is_header_phase : Call → Bool
is_header_phase (process_response_headers s p) = true
is_header_phase _ = false

abbrev pub is_handled : Call → Bool
is_handled set_request_handled = true
is_handled _ = false

abbrev pub is_clear : Call → Bool
is_clear clear = true
is_clear _ = false

abbrev pub is_opening : Call → Bool
is_opening new_transaction = true
is_opening _ = false

-- How often the response was cleared.
abbrev pub clearings : Trace → ℕ
clearings = count_if is_clear

-- How many transactions were created.
abbrev pub openings : Trace → ℕ
openings = count_if is_opening

-- A memcpy of more bytes than the memory has.
abbrev pub is_overrun : Call → Bool
is_overrun (copy_memory n m) = ltb n m
is_overrun _ = false

-- How often memory was overrun.
abbrev pub overruns : Trace → ℕ
overruns = count_if is_overrun

-- How often phase 2 ran.
abbrev pub request_phases : Trace → ℕ
request_phases = count_if is_request_phase

-- How often phase 4 ran.
abbrev pub response_phases : Trace → ℕ
response_phases = count_if is_response_phase

-- How often phase 3 ran.
abbrev pub header_phases : Trace → ℕ
header_phases = count_if is_header_phase

-- How often a transaction was finalized.
abbrev pub loggings : Trace → ℕ
loggings = count_if is_logging

-- How often SetRequestHandled was called.
abbrev pub handled : Trace → ℕ
handled = count_if is_handled
