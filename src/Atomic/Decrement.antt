-- ===== src/Atomic/Decrement.antt =====
-- atomic/test_gcc_atomic.cpp: threads that count `gnum` down by compare-and-swap.
pub mod Ending
mod Tests
use serversidedev.Prelude.{ℕ, if◌then◌else◌}
use serversidedev.Prelude.Int.{ℤ, pos, negsuc, ◌+ℤ◌, ltb_ℤ, eq_ℤ}
use serversidedev.Prelude.Interleave.{Threads}

pub data Pc : Type 0 where
  load : Pc  -- `while((now_val=gnum)>0)`
  swap : (now_val : ℤ) → Pc  -- before the compare-and-swap
  returned : Pc

-- A `work_thread`, an access of `gnum` at a time. The branch that is taken on success is empty.
unfoldable pub exec : ℤ → Pc → ℤ × Pc
exec gnum load = (gnum, if ltb_ℤ (pos 0) gnum then swap gnum else returned)
exec gnum (swap now_val) = (if eq_ℤ gnum now_val then now_val +ℤ negsuc 0 else gnum, load)
exec gnum returned = (gnum, returned)

-- `main` before its threads run.
unfoldable pub start : ℤ → Threads ℤ Pc
start g = record { mem = g; pc = λ _. load }
