-- ===== src/Atomic/Race.antt =====
-- atomic/test_gcc_atomic_no_protect.cpp: threads that count `gnum` down with no protection.
pub mod Ending
mod Tests
use serversidedev.Prelude.{ℕ, if◌then◌else◌}
use serversidedev.Prelude.Int.{ℤ, pos, negsuc, ◌+ℤ◌, ltb_ℤ}
use serversidedev.Prelude.Interleave.{Threads}

pub data Pc : Type 0 where
  test : Pc  -- `while(gnum>0)`
  load : Pc  -- `gnum--` reads `gnum`
  store : (val : ℤ) → Pc  -- `gnum--` writes `val-1`
  returned : Pc

-- A `work_thread`, an access of `gnum` at a time.
unfoldable pub exec : ℤ → Pc → ℤ × Pc
exec gnum test = (gnum, if ltb_ℤ (pos 0) gnum then load else returned)
exec gnum load = (gnum, store gnum)
exec gnum (store val) = (val +ℤ negsuc 0, test)
exec gnum returned = (gnum, returned)

-- `main` before its threads run.
unfoldable pub start : ℤ → Threads ℤ Pc
start g = record { mem = g; pc = λ _. test }
