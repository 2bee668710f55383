-- ===== src/ConcurrentArray/Threads/Tests.antt =====
-- Runs of the threads at small arguments, and the theorems at the states that they reach.
use serversidedev.Prelude.{
  ℕ, zero, suc, ◌<◌, ◌≡◌, ◌≢◌, refl, ◌⊎◌, true, [], ◌∷◌, arith, count, ind, ltb,
}
use serversidedev.ConcurrentArray.{init, append, get, is_empty, is_full, store, clear}
use serversidedev.ConcurrentArray.Threads.{Args, start, exec, crashed, runnable}
use serversidedev.ConcurrentArray.Threads.Safety.{finished, no_crash, printed_once, no_deadlock}
use serversidedev.ConcurrentArray.Threads.Schedule.{Run, play}

-- One slot, one producer (thread 1), one consumer (thread 0), two products.
abbrev small : Args
small = record { buff_size = 1; produce_num = 1; consume_num = 1; product_num = 2 }

-- The producer fills the slot and falls asleep at the second product.
abbrev full_run : Run small
full_run = play small (1 ∷ 1 ∷ 1 ∷ 1 ∷ 1 ∷ 1 ∷ [])

-- The consumer goes on, and both come to their end.
abbrev whole_run : Run small
whole_run = play small (1 ∷ 1 ∷ 1 ∷ 1 ∷ 1 ∷ 1 ∷ 0 ∷ 0 ∷ 0 ∷ 0 ∷ 1 ∷ 1 ∷ 0 ∷ 0 ∷ 0 ∷ 0 ∷ 0 ∷ [])

whole_run_result : whole_run.last.mem.printed ≡ 0 ∷ 1 ∷ []
unfolding play start init exec append get is_empty is_full store clear
whole_run_result = refl

whole_run_ended : (i : ℕ) → i < 2 → finished (whole_run.last.pc i) ≡ true
unfolding play start init exec append get is_empty is_full store clear
whole_run_ended zero lt = refl
whole_run_ended (suc zero) lt = refl
whole_run_ended (suc (suc i)) lt = absurd (omega arith)

no_crash_example : full_run.last.pc 1 ≢ crashed
no_crash_example = no_crash (omega arith) full_run.reach 1

printed_once_example :
    ((v : ℕ) → count v whole_run.last.mem.printed ≡ ind (ltb v 2))
    × (is_empty whole_run.last.mem.ca ≡ true)
printed_once_example = printed_once (omega arith) (omega arith) whole_run.reach whole_run_ended

no_deadlock_example :
    ((i : ℕ) → i < 2 → finished (full_run.last.pc i) ≡ true)
    ⊎ ((i : ℕ) × (i < 2) × (runnable (full_run.last.pc i) ≡ true))
no_deadlock_example = no_deadlock (omega arith) (omega arith) (omega arith) full_run.reach
