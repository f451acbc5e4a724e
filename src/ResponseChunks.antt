-- ===== src/ResponseChunks.antt =====
-- The chunks of a response body as the engine sees them: `AppendResponseFileChunk` and the chunk
-- loop of `OnSendResponse` (src/ModSecurityIIS.cpp).
pub mod Laws
pub mod Cap
pub mod Frames
use mod_security_iis.Prelude.{
  ℕ, zero, suc, ◌+◌, ◌-◌, ◌%◌, ◌^◌, Bool, true, false, ◌&&◌, Option, none, some, List, [], ◌∷◌, min,
  ltb, ◌==◌, if◌then◌else◌, length, take,
}
use mod_security_iis.System.{
  Bytes, FileHandle, DataChunk, from_memory, from_file_handle, other, Env, append_response_body,
  duplicate_handle, close_handle, World, ok, raised, stuck, M, ⊤, pure, ◌>>=◌, ◌>>◌, note, call,
  when,
}
use mod_security_iis.Settings.{max_inspect_body_bytes}

-- ULONGLONG arithmetic.
abbrev pub add64 : ℕ → ℕ → ℕ
add64 a b = (a + b) % 2 ^ 64

abbrev pub sub64 : ℕ → ℕ → ℕ
sub64 a b = (a + 2 ^ 64 - b) % 2 ^ 64

-- HTTP_BYTE_RANGE_TO_EOF
abbrev pub to_eof : ℕ
to_eof = 2 ^ 64 - 1

abbrev pub file_buf_size : ℕ
file_buf_size = 65536

abbrev pub rest_of_file : Option ℕ → ℕ → ℕ
rest_of_file none start = 0
rest_of_file (some size) start = if ltb start size then size - start else 0

-- The range to read once the copy stands at its start.
abbrev pub range_length : FileHandle → ℕ → ℕ → ℕ
range_length h start n = if n == to_eof then rest_of_file h.size start else n

-- `while (length > 0)`, with the offset of the next read and the bytes appended so far.
unfoldable pub read_range : ℕ → Env → FileHandle → ℕ → ℕ → ℕ → M ℕ
read_range zero e h offset n appended w = (if n == 0 then ok appended else stuck, w)
read_range (suc fuel) e h offset n appended w =
    if n == 0 then (ok appended, w) else elim (h.read_file offset (min n file_buf_size)) [
      | none ↦ (ok appended, w)
      | some [] ↦ (ok appended, w)
      | some (c ∷ s) ↦
          (do
            call e (append_response_body (c ∷ s))
            read_range fuel e h (offset + length (c ∷ s)) (sub64 n (length (c ∷ s)))
                (add64 appended (length (c ∷ s))))
            w
    ]

-- `SetFilePointerEx` and the loop. The fuel is the length of the range, since each round but the last reads a byte of it.
unfoldable pub read_from : Env → FileHandle → ℕ → ℕ → M ℕ
read_from e h start n w =
    if h.seeks start
    then read_range (range_length h start n) e h start (range_length h start n) 0 w
    else (ok 0, w)

unfoldable pub append_response_file_chunk : Env → FileHandle → ℕ → ℕ → M ℕ
append_response_file_chunk e h start n w =
    if h.duplicates
    then (do
      note duplicate_handle
      appended ← read_from e h start n
      note close_handle
      pure appended)
        w
    else (ok 0, w)

-- How much of a memory chunk is taken; both numbers are far below 2^64.
abbrev pub memory_take : ℕ → ℕ → ℕ → ℕ
memory_take cap inspected n = if ltb cap (inspected + n) then cap - inspected else n

-- How long a range of a file chunk is asked for.
abbrev pub file_take : ℕ → ℕ → ℕ → ℕ
file_take cap inspected n =
    if n == to_eof
    then sub64 cap inspected
    else if ltb cap (add64 inspected n)
    then sub64 cap inspected
    else n

-- One chunk: the count of inspected bytes after it.
unfoldable pub inspect_chunk : Env → DataChunk → ℕ → M ℕ
inspect_chunk e (from_memory s) inspected w =
    if ltb inspected (max_inspect_body_bytes e) && ltb 0 (length s)
    then (do
      let n = memory_take (max_inspect_body_bytes e) inspected (length s)
      call e (append_response_body (take n s))
      pure (inspected + n))
        w
    else (ok inspected, w)
inspect_chunk e (from_file_handle h start n) inspected w =
    let want = file_take (max_inspect_body_bytes e) inspected n in
    if ltb 0 want
    then (do appended ← append_response_file_chunk e h start want; pure (add64 inspected appended))
        w
    else (ok inspected, w)
inspect_chunk e other inspected w = (ok inspected, w)

unfoldable pub inspect_chunks : Env → List DataChunk → ℕ → M ℕ
inspect_chunks e [] inspected w = (ok inspected, w)
inspect_chunks e (c ∷ cs) inspected w =
    (do inspected' ← inspect_chunk e c inspected; inspect_chunks e cs inspected') w
