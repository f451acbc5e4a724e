-- ===== src/Body.antt =====
-- The entity-body reads of src/ModSecurityIIS.cpp: `BeginBodyRead`, `PumpBodyRead`,
-- `ConsumeBodyChunk` and `OnAsyncCompletion`.
pub mod Pointers
pub mod Chunks
pub mod Loops
pub mod Phase
pub mod Completions
pub mod Modes
pub mod Bounds
pub mod Copies
pub mod Runs
pub mod Threads
use mod_security_iis.Prelude.{
  ℕ, zero, suc, ◌+◌, ◌*◌, Bool, true, false, not, ◌&&◌, ◌||◌, Option, none, some, ◌++◌, ◌∷◌, min,
  leb, ltb, ◌==◌, if◌then◌else◌, length,
}
use mod_security_iis.System.{
  HResult, Chunk, ReadReply, Env, in_begin_request, in_async_completion, exception_in, log_event,
  inspection_cap, resize_read_buf, reserve_body, insert_body, BodyReadState, brs_idle,
  brs_read_pending, brs_done, Status, rq_continue, rq_pending, rq_finish_request, World, ok, raised,
  stuck, M, ⊤, pure, gets, catch, ◌>>=◌, ◌>>◌, modify, note, call, when, set_body_read_state,
}
use mod_security_iis.Settings.{max_inspect_body_bytes, body_reads_async}
use mod_security_iis.EntityBody.{EntityBodyInfo, get_entity_body_info}
use mod_security_iis.FinishBody.{finish_body_read}

abbrev pub body_read_chunk_size : ℕ
body_read_chunk_size = 65536

abbrev pub pre_reserve_cap : ℕ
pre_reserve_cap = 1024 * 1024

abbrev pub error_handle_eof : ℕ
error_handle_eof = 38

abbrev pub is_eof : Chunk → Bool
is_eof c = length c.bytes == 0 || c.hr.code == error_handle_eof

-- The tests after the end-of-body test, on the declared length and the size reached.
abbrev pub has_declared : World → Bool
has_declared w =
    ltb 0 w.rsc.declared_body_length && leb w.rsc.declared_body_length (length w.rsc.body)

abbrev pub is_capped : Env → World → Bool
is_capped e w = leb (max_inspect_body_bytes e) (length w.rsc.body)

-- The body is complete, or no more of it is to be read.
unfoldable pub end_body : Env → M (Option Status)
end_body e = do set_body_read_state brs_done; s ← finish_body_read e; pure (some s)

-- One event for the life of the process.
abbrev pub cap_noted : World → World
cap_noted w =
    if w.cap_logged
    then w
    else record w { cap_logged = true; trace = log_event inspection_cap ∷ w.trace }

unfoldable pub log_cap : M ⊤
log_cap w = (ok tt, cap_noted w)

unfoldable pub append_chunk : Env → Chunk → M ⊤
append_chunk e c =
    when (ltb 0 (length c.bytes))
      (do call e (insert_body c.bytes); modify (λ r. record r { body = r.body ++ c.bytes }))

-- `none` asks for the next read.
unfoldable pub judge_chunk : Env → Chunk → M (Option Status)
judge_chunk e c w =
    if is_eof c || c.hr.failed || has_declared w
    then end_body e w
    else if is_capped e w
    then (log_cap >> end_body e) w
    else (ok none, w)

unfoldable pub consume_body_chunk : Env → Chunk → M (Option Status)
consume_body_chunk e c = do append_chunk e c; judge_chunk e c

-- `ReadEntityBody`
unfoldable pub read_entity_body : Env → M ReadReply
read_entity_body e w = (ok (e.read w.reads), record w { reads = suc w.reads })

-- The loop of `PumpBodyRead`.
unfoldable pub pump_loop : Bool → ℕ → Env → M Status
pump_loop async zero e = λ w. (stuck, w)
pump_loop async (suc fuel) e = do
  when async (set_body_read_state brs_read_pending)
  reply ← read_entity_body e
  elim (async && reply.pending) [
    | true ↦ pure rq_pending
    | false ↦ (do
      when async (set_body_read_state brs_idle)
      r ← consume_body_chunk e reply.chunk
      elim r [ some s ↦ pure s | none ↦ pump_loop async fuel e ])
  ]

-- Each round but the last adds a byte to a body below the cap.
abbrev pub pump_fuel : Env → ℕ
pump_fuel e = suc (max_inspect_body_bytes e)

unfoldable pub pump_body_read : Bool → Env → M Status
pump_body_read async e = do
  has ← gets (λ w. e.has_request w.trace)
  if has
      then pump_loop async (pump_fuel e) e
      else (do set_body_read_state brs_done; finish_body_read e)

-- `m_Body.reserve` of a declared length, up to 1 MiB.
abbrev pub reserve : Env → ℕ → M ⊤
reserve e declared w =
    if ltb 0 declared then call e (reserve_body (min declared pre_reserve_cap)) w else (ok tt, w)

-- The staging buffer and the accumulator's reserve.
unfoldable pub prepare_reads : Env → ℕ → M ⊤
prepare_reads e declared = do
  modify (λ r. record r { has_body = true; declared_body_length = declared })
  call e (resize_read_buf body_read_chunk_size)
  modify (λ r. record r { read_buf = body_read_chunk_size })
  reserve e declared

unfoldable pub start_reads : Bool → Env → ℕ → M Status
start_reads async e declared = do prepare_reads e declared; pump_body_read async e

unfoldable pub begin_body_read : Bool → Env → M Status
begin_body_read async e = do
  has ← gets (λ w. e.has_request w.trace)
  let info = get_entity_body_info e.raw_request
  if has && info.has_body then start_reads async e info.length else finish_body_read e

-- The call of `BeginBodyRead` inside the try block of `OnBeginRequest`.
unfoldable pub begin_body_phase : Env → M Status
begin_body_phase e =
    catch (begin_body_read (body_reads_async e) e)
      (note (log_event (exception_in in_begin_request)) >> pure rq_finish_request)

abbrev pub is_read_pending : BodyReadState → Bool
is_read_pending brs_read_pending = true
is_read_pending _ = false

unfoldable pub continue_body : Bool → Env → Chunk → M Status
continue_body async e c = do
  r ← consume_body_chunk e c
  elim r [ some s ↦ pure s | none ↦ pump_body_read async e ]

-- `none` stands for a null context or a null completion.
unfoldable pub on_async_completion : Env → Option Chunk → M Status
on_async_completion e none w = (ok rq_continue, w)
on_async_completion e (some c) w =
    if w.stored && w.rsc.tx && is_read_pending w.rsc.body_read_state
    then (do
      set_body_read_state brs_idle
      catch (continue_body (body_reads_async e) e c)
          (note (log_event (exception_in in_async_completion)) >> pure rq_finish_request))
        w
    else (ok rq_continue, w)
