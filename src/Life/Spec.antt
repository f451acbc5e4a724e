-- ===== src/Life/Spec.antt =====
-- What the module promises of a request's life, without its code: an abstract machine of who may
-- still judge the request and how often each phase ran.
use mod_security_iis.Prelude.{ℕ, suc, ◌+◌, ◌≤◌, ◌≡◌, inl, inr, Bool, true, false, arith, Bool-cases}

abbrev pub bit : Bool → ℕ
bit true = 1
bit false = 0

-- Whether a transaction is open, whether a read of the body is outstanding, and whether phase 4
-- was judged; how often phases 2, 3 and 4 ran; how often a transaction was created and finalized.
pub record View : Type 0 where
  pub is_open : Bool
  pub is_reading : Bool
  pub is_judged : Bool
  pub request_runs : ℕ
  pub response_runs : ℕ
  pub header_runs : ℕ
  pub openings : ℕ
  pub finals : ℕ

-- Closing a transaction is finalizing it, once; none opens.
pub record Accounts (v : View) (u : View) : Type 0 where
  pub balance : u.finals + bit u.is_open ≡ v.finals + bit v.is_open
  pub shut : v.is_open ≡ false → u.is_open ≡ false
  pub opened : u.openings ≡ v.openings

-- Phase 2 runs at most once, and ends the reading.
pub record Reads (v : View) (u : View) : Type 0 where
  pub at_most : u.request_runs ≤ suc v.request_runs
  pub pends : u.is_reading ≡ true → u.request_runs ≡ v.request_runs
  pub keeps : (u.is_judged ≡ v.is_judged) × (u.response_runs ≡ v.response_runs)
  pub headers : u.header_runs ≡ v.header_runs

-- Phase 4 runs at most once, and never after it was judged.
pub record Judges (v : View) (u : View) : Type 0 where
  pub at_most : u.response_runs ≤ suc v.response_runs
  pub judged : v.is_judged ≡ true → (u.is_judged ≡ true) × (u.response_runs ≡ v.response_runs)
  pub unjudged : u.is_judged ≡ false → u.response_runs ≡ v.response_runs
  pub keeps : (u.is_reading ≡ v.is_reading) × (u.request_runs ≡ v.request_runs)

-- The phases stay as they are.
pub record Rests (v : View) (u : View) : Type 0 where
  pub reading : u.is_reading ≡ v.is_reading
  pub judged : u.is_judged ≡ v.is_judged
  pub runs : (u.request_runs ≡ v.request_runs) × (u.response_runs ≡ v.response_runs)
  pub headers : u.header_runs ≡ v.header_runs

-- The moves of the machine: a read of an open request is answered, a response of an open request
-- is judged, the request is closed, or nothing happens.
pub data Move (v : View) (u : View) : Type 0 where
  answer : v.is_open ≡ true → v.is_reading ≡ true → Accounts v u → Reads v u → Move v u
  judge : v.is_open ≡ true → Accounts v u → Judges v u → Move v u
  close : u.is_open ≡ false → Accounts v u → Rests v u → Move v u
  rest : u ≡ v → Move v u

pub data Reach (v : View) : View → Type 0 where
  here : Reach v v
  next : {t u : View} → Reach v t → Move t u → Reach v u

-- What every history of the machine from `v` to `u` keeps.
pub record Safe (v : View) (u : View) : Type 0 where
  pub accounts : Accounts v u
  pub request_once : u.request_runs ≤ v.request_runs + bit v.is_reading
  pub request_open : u.is_reading ≡ true → (v.is_reading ≡ true) × (u.request_runs ≡ v.request_runs)
  pub response_once : u.response_runs ≤ suc v.response_runs
  pub response_judged :
      v.is_judged ≡ true → (u.is_judged ≡ true) × (u.response_runs ≡ v.response_runs)
  pub response_open : u.is_judged ≡ false → u.response_runs ≡ v.response_runs
  pub silent :
      v.is_open ≡ false
      → (u.request_runs ≡ v.request_runs)
        × (u.response_runs ≡ v.response_runs)
        × (u.header_runs ≡ v.header_runs)

Move-Safe : {v t u : View} → Move t u → Safe v t → Safe v u
Move-Safe (answer opened reading a r) s = ground arith
Move-Safe {v} {t} {u} (judge opened a j) s = elim (Bool-cases t.is_judged) [
  | inl was ↦ ground (arith, j.judged was)
  | inr was ↦ ground (arith)
]
Move-Safe (close shut a r) s = ground arith
Move-Safe (rest same) s = rw same s

-- Every history of the machine finalizes a transaction exactly when it closes one, runs phase 2 at
-- most once and only while a read is outstanding, runs phase 4 at most once, and runs neither once
-- the transaction is closed.
pub Reach-Safe : {v u : View} → Reach v u → Safe v u
Reach-Safe here = ground arith
Reach-Safe (next r m) = Move-Safe m (Reach-Safe r)
