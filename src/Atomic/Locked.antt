-- ===== src/Atomic/Locked.antt =====
-- atomic/test_gcc_atomic_use_lock.cpp: threads that count `gnum` down under a mutex.
pub mod Counting
pub mod Ending
mod Tests
use serversidedev.Prelude.{ℕ, ◌+◌, ◌-◌, ◌%◌, ◌^◌, ltb, if◌then◌else◌}
use serversidedev.Prelude.Int.{ℤ, pos, negsuc, int_of, ◌+ℤ◌, ltb_ℤ, eq_ℤ}
use serversidedev.Prelude.Interleave.{Threads}

pub data Pc : Type 0 where
  entry : Pc  -- `int num_cache=gnum`
  loop : (num_cache : ℤ) → Pc  -- `while(num_cache)`
  returned : Pc

-- What is done with the mutex held.
unfoldable pub count_down : ℤ → ℤ
count_down gnum = if ltb_ℤ (pos 0) gnum then gnum +ℤ negsuc 0 else gnum

-- A `work_thread`. The shared memory is `gnum`. The body of the loop holds the mutex, and is one step.
unfoldable pub exec : ℤ → Pc → ℤ × Pc
unfolding int_of count_down
exec gnum entry = (gnum, loop (int_of gnum))
exec gnum (loop num_cache) =
    if eq_ℤ num_cache (pos 0)
    then (gnum, returned)
    else (count_down gnum, loop (int_of (count_down gnum)))
exec gnum returned = (gnum, returned)

-- `main` before its threads run.
unfoldable pub start : ℤ → Threads ℤ Pc
start g = record { mem = g; pc = λ _. entry }
