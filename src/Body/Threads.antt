-- ===== src/Body/Threads.antt =====
-- `PumpBodyRead` and `OnAsyncCompletion` of src/ModSecurityIIS.cpp as threads: a completion may be
-- delivered on another thread as soon as ReadEntityBody has pended, while the thread that issued
-- the read has not returned yet. Each move is one access of what the threads share.
pub mod Rounds
pub mod Owner
pub mod Invariant
pub mod Safety
pub mod Liveness
use mod_security_iis.Prelude.{
  ℕ, suc, ◌≡◌, ◌≢◌, Bool, true, false, ◌&&◌, Option, none, some, ◌==◌, if◌then◌else◌,
}
use mod_security_iis.System.{
  Chunk, Env, World, Status, Result, ok, raised, stuck, BodyReadState, brs_idle, brs_read_pending,
  brs_done,
}
use mod_security_iis.FinishBody.{finish_body_read}
use mod_security_iis.Body.{consume_body_chunk, is_read_pending}

-- What the threads share: the request's world, the read that IIS has not completed with what it
-- will deliver, and what the body phase ended with.
pub record Shared : Type 0 where
  pub world : World
  pub outstanding : Option Chunk
  pub settled : Option (Result Status)

-- Where a thread stands. `resuming` tells the call of ConsumeBodyChunk in OnAsyncCompletion.
pub data Pc : Type 0 where
  away : Pc  -- in neither function
  entering : Pc  -- at the start of PumpBodyRead
  publishing : Pc  -- before the InterlockedExchange of BRS_READ_PENDING
  issuing : Pc  -- before ReadEntityBody
  leaving : Pc  -- ReadEntityBody has pended
  resetting : Chunk → Pc  -- before the InterlockedExchange of BRS_IDLE
  consuming : (resuming : Bool) → Chunk → Pc  -- before ConsumeBodyChunk
  claiming : Chunk → Pc  -- at the start of OnAsyncCompletion

abbrev pub with_state : BodyReadState → World → World
with_state s w = record w { rsc = record (w.rsc) { body_read_state = s } }

-- ReadEntityBody was called.
abbrev pub counted : World → World
counted w = record w { reads = suc w.reads }

-- The test of OnAsyncCompletion, the compare-exchange included.
abbrev pub claims : World → Bool
claims w = w.stored && w.rsc.tx && is_read_pending w.rsc.body_read_state

-- Where ConsumeBodyChunk is called from, it goes on at another place.
abbrev pub after_chunk : Bool → Pc
after_chunk true = entering
after_chunk false = publishing

abbrev pub over : Shared → Result Status × World → Shared
over s (r, w) = record s { world = w; settled = some r }

-- How a thread moves, in asynchronous mode.
pub data Move (e : Env) (s : Shared) : Pc → Shared → Pc → Type 0 where
  enter : e.has_request s.world.trace ≡ true → Move e s entering s publishing
  give_up :
      e.has_request s.world.trace ≡ false
      → Move e s entering (over s (finish_body_read e (with_state brs_done s.world))) away
  publish : Move e s publishing (record s { world = with_state brs_read_pending s.world }) issuing
  pend :
      (e.read s.world.reads).pending ≡ true
      → Move e s issuing
          (record s { world = counted s.world; outstanding = some (e.read s.world.reads).chunk })
          leaving
  inline :
      (e.read s.world.reads).pending ≡ false
      → Move e s issuing
          (record s { world = counted s.world })
          (resetting (e.read s.world.reads).chunk)
  leave : Move e s leaving s away
  reset :
      {c : Chunk}
      → Move e s
          (resetting c)
          (record s { world = with_state brs_idle s.world })
          (consuming false c)
  ask_more :
      {b : Bool} {c : Chunk} {w : World}
      → consume_body_chunk e c s.world ≡ (ok none, w)
      → Move e s (consuming b c) (record s { world = w }) (after_chunk b)
  end :
      {b : Bool} {c : Chunk} {t : Status} {w : World}
      → consume_body_chunk e c s.world ≡ (ok (some t), w)
      → Move e s (consuming b c) (over s (ok t, w)) away
  throw :
      {b : Bool} {c : Chunk} {w : World}
      → consume_body_chunk e c s.world ≡ (raised, w)
      → Move e s (consuming b c) (over s (raised, w)) away
  claim :
      {c : Chunk}
      → claims s.world ≡ true
      → Move e s (claiming c) (record s { world = with_state brs_idle s.world }) (consuming true c)
  ignore : {c : Chunk} → claims s.world ≡ false → Move e s (claiming c) s away

-- Threads have numbers.
pub record Machine : Type 0 where
  pub shared : Shared
  pub pc : ℕ → Pc

abbrev pub update : (ℕ → Pc) → ℕ → Pc → ℕ → Pc
update pc i p j = if i == j then p else pc j

-- Any thread moves; IIS completes the outstanding read on a free thread; and once the body phase
-- has ended, and the pipeline went on, the completions of other modules reach this one too.
pub data Step (e : Env) (m : Machine) : Machine → Type 0 where
  pick :
      (i : ℕ) {s : Shared} {p : Pc}
      → Move e m.shared (m.pc i) s p
      → Step e m (record { shared = s; pc = update m.pc i p })
  complete :
      (i : ℕ) {c : Chunk}
      → m.pc i ≡ away
      → m.shared.outstanding ≡ some c
      → Step e m (record {
        shared = record (m.shared) { outstanding = none };
        pc = update m.pc i (claiming c);
      })
  foreign :
      (i : ℕ) (c : Chunk) (r : Result Status)
      → m.pc i ≡ away
      → m.shared.settled ≡ some r
      → Step e m (record { shared = m.shared; pc = update m.pc i (claiming c) })

-- Thread 0 enters PumpBodyRead.
abbrev pub first_pc : ℕ → Pc
first_pc i = if 0 == i then entering else away

abbrev pub start : World → Machine
start w = record {
  shared = record { world = w; outstanding = none; settled = none };
  pc = first_pc;
}

pub data Reach (e : Env) (w : World) : Machine → Type 0 where
  here : Reach e w (start w)
  later : {m n : Machine} → Reach e w m → Step e m n → Reach e w n
