-- ===== src/ResponseChunks/Laws.antt =====
-- The engine is given no more of a response than the inspection cap.
use mod_security_iis.Prelude.{
  ℕ, zero, suc, ◌+◌, ◌-◌, ◌^◌, ◌≤◌, ◌<◌, ◌≡◌, ◌≢◌, refl, ◌⊎◌, inl, inr, Option, none, some, [], ◌∷◌,
  arith, length, min, ◌==◌, Bool-cases, ==→eq, if◌then◌else◌,
}
use mod_security_iis.System.{
  Bytes, FileHandle, Env, World, append_response_body, ok, Result, raised, stuck, duplicate_handle,
  close_handle, pure, note, ◌>>=◌, ◌>>◌,
}
use mod_security_iis.System.Views.{response_bytes}
use mod_security_iis.ResponseChunks.{
  sub64, add64, file_buf_size, read_range, append_response_file_chunk, range_length, read_from,
  to_eof,
}

-- ReadFile delivers no more than it was asked for.
abbrev pub ReadsWithin : FileHandle → Type 0
ReadsWithin h = (offset n : ℕ) (s : Bytes) → h.read_file offset n ≡ some s → length s ≤ n

-- With b bytes given to the engine before and b' after: a run that began at the count k and ends
-- at the count m gave it m - k bytes, at most n, and one that throws gave it at most n.
abbrev pub Reports : ℕ → ℕ → ℕ → ℕ → Result ℕ → Type 0
Reports k n b b' (ok m) = (b' + k ≡ b + m) × (k ≤ m) × (m ≤ k + n)
Reports k n b b' raised = b' ≤ b + n
Reports k n b b' stuck = ⊥

-- The same over one appended piece of p bytes.
pub Reports-step :
    (r : Result ℕ) (k n p b b' : ℕ)
    → p ≤ n
    → Reports (k + p) (n - p) (p + b) b' r
    → Reports k n b b' r
Reports-step (ok m) k n p b b' le h = omega arith
Reports-step raised k n p b b' le h = omega arith
Reports-step stuck k n p b b' le h = h

Reports-none : (k n b : ℕ) → Reports k n b b (ok k)
Reports-none k n b = omega arith

pub add64_lem : (a b : ℕ) → a + b < 2 ^ 64 → add64 a b ≡ a + b
add64_lem a b h = omega arith

pub sub64_lem : (a b : ℕ) → b ≤ a → a < 2 ^ 64 → sub64 a b ≡ a - b
sub64_lem a b le h = omega arith

read_range-some :
    (fuel : ℕ) (e : Env) (h : FileHandle) (offset n k c : ℕ) (s : Bytes) (w : World)
    → n ≢ 0
    → h.read_file offset (min n file_buf_size) ≡ some (c ∷ s)
    → let t = append_response_body (c ∷ s) ∷ w.trace in
      read_range (suc fuel) e h offset n k w ≡ (
        if e.raises t
        then (raised, record w { trace = t })
        else read_range fuel e h
            (offset + length (c ∷ s))
            (sub64 n (length (c ∷ s)))
            (add64 k (length (c ∷ s)))
            (record w { trace = t }))
unfolding read_range
read_range-some fuel e h offset n k c s w pos got = ground arith

read_range-stop :
    (fuel : ℕ) (e : Env) (h : FileHandle) (offset n k : ℕ) (w : World)
    → (n ≡ 0)
      ⊎ (h.read_file offset (min n file_buf_size) ≡ none)
      ⊎ (h.read_file offset (min n file_buf_size) ≡ some [])
    → read_range (suc fuel) e h offset n k w ≡ (ok k, w)
unfolding read_range
read_range-stop fuel e h offset n k w stop = ground arith

file-cases :
    (o : Option Bytes) → ((o ≡ none) ⊎ (o ≡ some [])) ⊎ ((c : ℕ) × (s : Bytes) × (o ≡ some (c ∷ s)))
file-cases none = inl (inl refl)
file-cases (some []) = inl (inr refl)
file-cases (some (c ∷ s)) = inr (c, s, refl)

read_range-zero :
    (e : Env) (h : FileHandle) (offset k : ℕ) (w : World)
    → read_range zero e h offset 0 k w ≡ (ok k, w)
unfolding read_range
read_range-zero e h offset k w = refl

-- The engine's new bytes after one piece.
given : Bytes → World → World
given s w = record w { trace = append_response_body s ∷ w.trace }

read_range-next :
    (fuel : ℕ) (e : Env) (h : FileHandle) (offset n k c : ℕ) (s : Bytes) (w : World)
    → n ≢ 0
    → h.read_file offset (min n file_buf_size) ≡ some (c ∷ s)
    → length (c ∷ s) ≤ n
    → k + n < 2 ^ 64
    → let p = length (c ∷ s) in
      let x = read_range fuel e h (offset + p) (n - p) (k + p) (given (c ∷ s) w) in
      Reports (k + p) (n - p) (p + response_bytes w.trace) (response_bytes x.1.trace) x.0
      → let y = read_range (suc fuel) e h offset n k w in
        Reports k n (response_bytes w.trace) (response_bytes y.1.trace) y.0
unfolding given
read_range-next fuel e h offset n k c s w pos got le fits ih =
    let p = length (c ∷ s) in
    rw
      (
        read_range-some fuel e h offset n k c s w pos got,
        sub64_lem n p le (omega arith),
        add64_lem k p (omega arith),
      )
      (elim (Bool-cases (e.raises (append_response_body (c ∷ s) ∷ w.trace))) [
        | inl throws ↦ rw throws (omega arith)
        | inr calm ↦ rw calm (Reports-step _ k n p (response_bytes w.trace) _ le ih)
      ])

read_range_lem :
    (fuel : ℕ) (e : Env) (h : FileHandle) (offset n k : ℕ) (w : World)
    → ReadsWithin h
    → n ≤ fuel
    → k + n < 2 ^ 64
    → let (r, w') = read_range fuel e h offset n k w in
      Reports k n (response_bytes w.trace) (response_bytes w'.trace) r
unfolding given
read_range_lem zero e h offset n k w reads enough fits =
    let none_left : n ≡ 0 = omega arith in
    rw none_left (rw (read_range-zero e h offset k w) (Reports-none k 0 (response_bytes w.trace)))
read_range_lem (suc fuel) e h offset n k w reads enough fits = elim (Bool-cases (n == 0)) [
  | inl empty ↦
      rw (read_range-stop fuel e h offset n k w (inl (==→eq n 0 empty)))
        (Reports-none k n (response_bytes w.trace))
  | inr more ↦ elim (file-cases (h.read_file offset (min n file_buf_size))) [
    | inl stop ↦
        rw (read_range-stop fuel e h offset n k w (inr stop))
          (Reports-none k n (response_bytes w.trace))
    | inr (c, s, got) ↦
        let le : length (c ∷ s) ≤ n =
          omega (arith, reads offset (min n file_buf_size) (c ∷ s) got) in
        read_range-next fuel e h offset n k c s w (ground arith) got le fits (
          read_range_lem fuel e h (offset + length (c ∷ s)) (n - length (c ∷ s))
            (k + length (c ∷ s)) (given (c ∷ s) w) reads (omega arith) (omega arith))
  ]
]

range_length_lem : (h : FileHandle) (start n : ℕ) → n < to_eof → range_length h start n ≡ n
range_length_lem h start n small = ground arith

read_from_lem :
    (e : Env) (h : FileHandle) (start n : ℕ) (w : World)
    → ReadsWithin h
    → n < to_eof
    → let (r, w') = read_from e h start n w in
      Reports 0 n (response_bytes w.trace) (response_bytes w'.trace) r
unfolding read_from
read_from_lem e h start n w reads small = elim (Bool-cases (h.seeks start)) [
  | inl there ↦
      simp (there, range_length_lem h start n small)
        (read_range_lem n e h start n 0 w reads (omega arith) (omega arith))
  | inr nowhere ↦ simp nowhere (omega arith)
]

-- Closing the copy gives the engine nothing.
closed :
    (x : Result ℕ × World) (n b : ℕ)
    → Reports 0 n b (response_bytes x.1.trace) x.0
    → let (r, w') = ((λ w. x) >>= λ appended. note close_handle >> pure appended) x.1 in
      Reports 0 n b (response_bytes w'.trace) r
closed (ok m, w) n b h = h
closed (raised, w) n b h = h
closed (stuck, w) n b h = h

-- Where the file delivers no more than is asked of it, `AppendResponseFileChunk` of a range of
-- known length ends, whatever the file holds, and returns just the number
-- of bytes that it gave the engine, which is at most the length of the range.
pub append_response_file_chunk_lem :
    (e : Env) (h : FileHandle) (start n : ℕ) (w : World)
    → ReadsWithin h
    → n < to_eof
    → let (r, w') = append_response_file_chunk e h start n w in
      Reports 0 n (response_bytes w.trace) (response_bytes w'.trace) r
unfolding append_response_file_chunk
append_response_file_chunk_lem e h start n w reads small =
    let w₁ = record w { trace = duplicate_handle ∷ w.trace } in
    elim (Bool-cases h.duplicates) [
      | inl copied ↦ simp copied (
          closed (read_from e h start n w₁) n (response_bytes w.trace)
            (read_from_lem e h start n w₁ reads small))
      | inr not_copied ↦ simp not_copied (omega arith)
    ]
