-- ===== src/Atomic/Claim.antt =====
-- atomic/atomic_basic.cpp: `val_check_change_work_if_atomic` and the threads that call it.
pub mod Once
mod Tests
use serversidedev.Prelude.{ℕ, Bool, true, false, List, [], ◌∷◌, ◌++◌, ltb, if◌then◌else◌}
use serversidedev.Prelude.Int.{ℤ, pos, negsuc, pos_part, neg_part, ◌+ℤ◌, ltb_ℤ, eq_ℤ}
use serversidedev.Prelude.Interleave.{Threads}

-- `gnum`, and the values for which `work_func` was called.
pub record Mem : Type 0 where
  pub gnum : ℤ
  pub worked : List ℤ

pub data Pc : Type 0 where
  load : Pc  -- `while(is_check_ok(now_val=*pval))`
  swap : (now_val : ℤ) → Pc  -- before the compare-and-swap
  work : (now_val : ℤ) → Pc  -- before `work_func(now_val)`
  returned : (now_val : ℤ) → Pc

-- `val_check_change_work_if_atomic`, an access of shared memory at a time.
module _ (offset : ℤ) (is_check_ok : ℤ → Bool) where
  unfoldable pub step : Mem → Pc → Mem × Pc
  step m load = if is_check_ok m.gnum then (m, swap m.gnum) else (m, returned m.gnum)
  step m (swap v) = if eq_ℤ m.gnum v then (record m { gnum = v +ℤ offset }, work v) else (m, load)
  step m (work v) = (record m { worked = m.worked ++ (v ∷ []) }, load)
  step m (returned v) = (m, returned v)

abbrev pub work_thread_check_func : ℤ → Bool
work_thread_check_func val = ltb_ℤ (pos 0) val

-- A `work_thread`. Its own loop ends at once: the value that came back has failed the same check.
unfoldable pub exec : Mem → Pc → Mem × Pc
unfolding step
exec m (returned v) = if work_thread_check_func v then (m, load) else (m, returned v)
exec m p = step (negsuc 0) work_thread_check_func m p

-- `main` before its threads run, with `gnum` from the command line.
unfoldable pub start : ℤ → Threads Mem Pc
start g = record { mem = record { gnum = g; worked = [] }; pc = λ _. load }
