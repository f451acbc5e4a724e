-- ===== src/ResponseChunks/Frames.antt =====
-- The chunk loop changes nothing but the trace, and runs no phase.
use mod_security_iis.Prelude.{
  ℕ, zero, suc, ◌+◌, ◌≡◌, inl, inr, List, [], ◌∷◌, arith, length, min, Option-cases,
}
use mod_security_iis.System.{
  FileHandle, DataChunk, from_memory, from_file_handle, other, Env, World, append_response_body,
  duplicate_handle, Result, ok, raised, stuck, M, ◌>>=◌,
}
use mod_security_iis.System.Views.{header_phases, response_phases}
use mod_security_iis.Settings.{max_inspect_body_bytes}
use mod_security_iis.ResponseChunks.{
  sub64, add64, file_take, file_buf_size, read_range, range_length, read_from,
  append_response_file_chunk, inspect_chunk, inspect_chunks,
}

-- Only the trace is longer, by calls that run no response phase.
abbrev pub Quiet : World → World → Type 0
Quiet w w' =
    (w' ≡ record w { trace = w'.trace })
    × (response_phases w'.trace ≡ response_phases w.trace)
    × (header_phases w'.trace ≡ header_phases w.trace)

-- What follows a quiet run quietly.
pub Quiet-bind :
    {A B : Type 0} (w : World) (x : Result A × World) (f : A → M B)
    → Quiet w x.1
    → ((a : A) → Quiet x.1 (f a x.1).1)
    → Quiet w (((λ (v : World). x) >>= f) w).1
Quiet-bind w (ok a, v) f h rest = ground (arith, rest a)
Quiet-bind w (raised, v) f h rest = h
Quiet-bind w (stuck, v) f h rest = h

read_range-Quiet :
    (fuel : ℕ) (e : Env) (h : FileHandle) (offset n k : ℕ) (w : World)
    → Quiet w (read_range fuel e h offset n k w).1
unfolding read_range
read_range-Quiet zero e h offset n k w = ground arith
read_range-Quiet (suc fuel) e h offset n k w =
    elim (Option-cases (h.read_file offset (min n file_buf_size))) [
      | inl failed ↦ ground arith
      | inr ([], got) ↦ ground arith
      | inr (c ∷ s, got) ↦ ground (
        arith,
        read_range-Quiet fuel e h (offset + length (c ∷ s)) (sub64 n (length (c ∷ s)))
            (add64 k (length (c ∷ s)))
            (record w { trace = append_response_body (c ∷ s) ∷ w.trace }),
      )
    ]

read_from-Quiet :
    (e : Env) (h : FileHandle) (start n : ℕ) (w : World) → Quiet w (read_from e h start n w).1
unfolding read_from
read_from-Quiet e h start n w =
    let m = range_length h start n in ground (arith, read_range-Quiet m e h start m 0 w)

append_response_file_chunk-Quiet :
    (e : Env) (h : FileHandle) (start n : ℕ) (w : World)
    → Quiet w (append_response_file_chunk e h start n w).1
unfolding append_response_file_chunk
append_response_file_chunk-Quiet e h start n w =
    ground (arith, read_from-Quiet e h start n (record w { trace = duplicate_handle ∷ w.trace }))

inspect_chunk-Quiet :
    (e : Env) (c : DataChunk) (k : ℕ) (w : World) → Quiet w (inspect_chunk e c k w).1
unfolding inspect_chunk
inspect_chunk-Quiet e (from_memory s) k w = ground arith
inspect_chunk-Quiet e (from_file_handle h start n) k w =
    ground (
      arith,
      append_response_file_chunk-Quiet e h start (file_take (max_inspect_body_bytes e) k n) w,
    )
inspect_chunk-Quiet e other k w = ground arith

pub inspect_chunks-Quiet :
    (e : Env) (cs : List DataChunk) (k : ℕ) (w : World) → Quiet w (inspect_chunks e cs k w).1
unfolding inspect_chunks
inspect_chunks-Quiet e [] k w = ground arith
inspect_chunks-Quiet e (c ∷ cs) k w =
    Quiet-bind w (inspect_chunk e c k w) (inspect_chunks e cs) (inspect_chunk-Quiet e c k w)
      (λ m. inspect_chunks-Quiet e cs m (inspect_chunk e c k w).1)
