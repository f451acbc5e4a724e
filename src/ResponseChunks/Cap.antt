-- ===== src/ResponseChunks/Cap.antt =====
-- One notification gives the engine no more response bytes than the inspection cap.
use mod_security_iis.Prelude.{
  ℕ, ◌+◌, ◌-◌, ◌^◌, ◌≤◌, ◌<◌, ◌≡◌, ◌⊎◌, inl, inr, true, false, ◌&&◌, List, [], ◌∷◌, arith, length,
  take, ltb, Bool-cases, length-take, if◌then◌else◌,
}
use mod_security_iis.System.{
  Bytes, FileHandle, DataChunk, from_memory, from_file_handle, other, Env, World,
  append_response_body, ok, Result, raised, stuck, M, pure, ◌>>=◌,
}
use mod_security_iis.System.Views.{response_bytes}
use mod_security_iis.Settings.{max_inspect_body_bytes}
use mod_security_iis.Settings.Laws.{max_inspect_body_bytes_bounds}
use mod_security_iis.ResponseChunks.{
  add64, file_take, memory_take, append_response_file_chunk, inspect_chunk, inspect_chunks, to_eof,
}
use mod_security_iis.ResponseChunks.Laws.{
  ReadsWithin, Reports, append_response_file_chunk_lem, add64_lem, sub64_lem,
}

-- What http.sys guarantees of a chunk: a file range is all the rest, or a positive LONGLONG, and
-- its file can be read.
abbrev pub IsSound : DataChunk → Type 0
IsSound (from_memory s) = Unit
IsSound (from_file_handle h start n) = ReadsWithin h × ((n ≡ to_eof) ⊎ (n < 2 ^ 63))
IsSound other = Unit

abbrev pub AllSound : List DataChunk → Type 0
AllSound [] = Unit
AllSound (c ∷ cs) = IsSound c × AllSound cs

widen : (r : Result ℕ) (k n m b b' : ℕ) → n ≤ m → Reports k n b b' r → Reports k m b b' r
widen (ok a) k n m b b' le h = omega arith
widen raised k n m b b' le h = omega arith
widen stuck k n m b b' le h = h

module _ (e : Env) where
  memory_chunk-room :
      (s : Bytes) (k : ℕ) (w : World)
      → (ltb k (max_inspect_body_bytes e) && ltb 0 (length s)) ≡ true
      → let n = memory_take (max_inspect_body_bytes e) k (length s) in
        let t = append_response_body (take n s) ∷ w.trace in
        inspect_chunk e (from_memory s) k w ≡ (
          if e.raises t
          then (raised, record w { trace = t })
          else (ok (k + n), record w { trace = t }))
  unfolding inspect_chunk
  memory_chunk-room s k w room = ground arith

  memory_chunk-full :
      (s : Bytes) (k : ℕ) (w : World)
      → (ltb k (max_inspect_body_bytes e) && ltb 0 (length s)) ≡ false
      → inspect_chunk e (from_memory s) k w ≡ (ok k, w)
  unfolding inspect_chunk
  memory_chunk-full s k w full = ground arith

  memory_chunk_lem :
      (s : Bytes) (k : ℕ) (w : World)
      → k ≤ max_inspect_body_bytes e
      → let (r, w') = inspect_chunk e (from_memory s) k w in
        Reports k
          (max_inspect_body_bytes e - k)
          (response_bytes w.trace)
          (response_bytes w'.trace)
          r
  memory_chunk_lem s k w le =
      let n = memory_take (max_inspect_body_bytes e) k (length s) in
      let t = append_response_body (take n s) ∷ w.trace in
      let grown = length-take n s in
      elim (Bool-cases (ltb k (max_inspect_body_bytes e) && ltb 0 (length s))) [
        | inl room ↦
            let b : response_bytes t ≡ n + response_bytes w.trace = ground (arith, grown) in
            let le' : k + n ≤ max_inspect_body_bytes e = ground arith in
            rw (memory_chunk-room s k w room) (elim (Bool-cases (e.raises t)) [
              | inl throws ↦ rw throws (omega arith)
              | inr calm ↦ rw calm (omega arith)
            ])
        | inr full ↦ rw (memory_chunk-full s k w full) (omega arith)
      ]

  file_take_bound :
      (k n : ℕ)
      → k ≤ max_inspect_body_bytes e
      → (n ≡ to_eof) ⊎ (n < 2 ^ 63)
      → file_take (max_inspect_body_bytes e) k n ≤ max_inspect_body_bytes e - k
  file_take_bound k n le range = ground (
    arith,
    max_inspect_body_bytes_bounds e,
    sub64_lem (max_inspect_body_bytes e) k le,
    add64_lem k n,
  )

  added :
      (x : Result ℕ × World) (k n b : ℕ)
      → k + n < 2 ^ 64
      → Reports 0 n b (response_bytes x.1.trace) x.0
      → let (r, w') = ((λ (w : World). x) >>= λ m. pure (add64 k m)) x.1 in
        Reports k n b (response_bytes w'.trace) r
  added (ok m, w) k n b fits h = rw (add64_lem k m (omega arith)) (omega arith)
  added (raised, w) k n b fits h = h
  added (stuck, w) k n b fits h = h

  file_chunk_lem :
      (h : FileHandle) (start n k : ℕ) (w : World)
      → ReadsWithin h
      → (n ≡ to_eof) ⊎ (n < 2 ^ 63)
      → k ≤ max_inspect_body_bytes e
      → let (r, w') = inspect_chunk e (from_file_handle h start n) k w in
        Reports k
          (max_inspect_body_bytes e - k)
          (response_bytes w.trace)
          (response_bytes w'.trace)
          r
  unfolding inspect_chunk
  file_chunk_lem h start n k w reads range le =
      let want = file_take (max_inspect_body_bytes e) k n in
      let cap = max_inspect_body_bytes_bounds e in
      let bound = file_take_bound k n le range in
      elim (Bool-cases (ltb 0 want)) [
        | inl some_bytes ↦ simp some_bytes (
            widen _ k want (max_inspect_body_bytes e - k) _ _ bound (
              added (append_response_file_chunk e h start want w) k want (response_bytes w.trace)
                (omega arith)
                (append_response_file_chunk_lem e h start want w reads (omega arith))))
        | inr nothing ↦ simp nothing (omega arith)
      ]

  chunk_lem :
      (c : DataChunk) (k : ℕ) (w : World)
      → IsSound c
      → k ≤ max_inspect_body_bytes e
      → let (r, w') = inspect_chunk e c k w in
        Reports k
          (max_inspect_body_bytes e - k)
          (response_bytes w.trace)
          (response_bytes w'.trace)
          r
  unfolding inspect_chunk
  chunk_lem (from_memory s) k w sound le = memory_chunk_lem s k w le
  chunk_lem (from_file_handle h start n) k w sound le =
      file_chunk_lem h start n k w sound.0 sound.1 le
  chunk_lem other k w sound le = omega arith

joined :
    (r : Result ℕ) (cap k m b b₁ b₂ : ℕ)
    → k ≤ cap
    → (b₁ + k ≡ b + m) × (k ≤ m) × (m ≤ k + (cap - k))
    → Reports m (cap - m) b₁ b₂ r
    → Reports k (cap - k) b b₂ r
joined (ok a) cap k m b b₁ b₂ le h rest = omega arith
joined raised cap k m b b₁ b₂ le h rest = omega arith
joined stuck cap k m b b₁ b₂ le h rest = rest

-- A first chunk and the rest.
chained :
    (x : Result ℕ × World) (f : ℕ → M ℕ) (cap k b : ℕ)
    → k ≤ cap
    → Reports k (cap - k) b (response_bytes x.1.trace) x.0
    → ((m : ℕ)
        → m ≤ cap
        → let y = f m x.1 in
          Reports m (cap - m) (response_bytes x.1.trace) (response_bytes y.1.trace) y.0)
    → let z = ((λ (w : World). x) >>= f) x.1 in Reports k (cap - k) b (response_bytes z.1.trace) z.0
chained (ok m, w) f cap k b le h rest =
    joined (f m w).0 cap k m b (response_bytes w.trace) (response_bytes (f m w).1.trace) le h
      (rest m (omega arith))
chained (raised, w) f cap k b le h rest = h
chained (stuck, w) f cap k b le h rest = h

-- Where files deliver no more than is asked of them and a file range is a positive LONGLONG or
-- all the rest, the chunk loop of one notification ends, whatever the files hold; it reports just the number of
-- bytes that the engine was given, which is at most the inspection cap, also when it throws.
pub inspect_chunks_cap :
    (e : Env) (cs : List DataChunk) (k : ℕ) (w : World)
    → AllSound cs
    → k ≤ max_inspect_body_bytes e
    → let (r, w') = inspect_chunks e cs k w in
      Reports k (max_inspect_body_bytes e - k) (response_bytes w.trace) (response_bytes w'.trace) r
unfolding inspect_chunks
inspect_chunks_cap e [] k w sound le = omega arith
inspect_chunks_cap e (c ∷ cs) k w sound le =
    chained (inspect_chunk e c k w) (inspect_chunks e cs) (max_inspect_body_bytes e) k
      (response_bytes w.trace) le (chunk_lem e c k w sound.0 le)
      (λ m le'. inspect_chunks_cap e cs m (inspect_chunk e c k w).1 sound.1 le')
