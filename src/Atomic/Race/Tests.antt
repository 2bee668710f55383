-- ===== src/Atomic/Race/Tests.antt =====
-- Two threads that count down from 1 with no protection.
use serversidedev.Prelude.{ℕ, zero, suc, ◌<◌, ◌≡◌, refl, true, List, [], ◌∷◌, arith}
use serversidedev.Prelude.Int.{ℤ, pos, negsuc, ◌≤ℤ◌, ◌+ℤ◌}
use serversidedev.Prelude.Interleave.{Threads, at_start, play, play-Reaches}
use serversidedev.Atomic.Race.{Pc, exec, start}
use serversidedev.Atomic.Race.Ending.{ended, race_ends_at_most_zero}

-- Both pass the test at 1, and each counts down once.
abbrev schedule : List ℕ
schedule = 0 ∷ 1 ∷ 0 ∷ 0 ∷ 1 ∷ 1 ∷ 0 ∷ 1 ∷ []

abbrev finished : Threads ℤ Pc
finished = play exec 2 (start (pos 1)) schedule

finished_result : finished.mem ≡ negsuc 0
unfolding play exec start ◌+ℤ◌
finished_result = refl

finished_ended : (i : ℕ) → i < 2 → ended (finished.pc i) ≡ true
unfolding play exec start ◌+ℤ◌
finished_ended zero lt = refl
finished_ended (suc zero) lt = refl
finished_ended (suc (suc i)) lt = absurd (omega arith)

race_ends_at_most_zero_example : (finished.mem ≤ℤ pos 1) × (finished.mem ≤ℤ pos 0)
race_ends_at_most_zero_example =
    race_ends_at_most_zero (pos 1) (omega arith)
      (play-Reaches exec 2 (start (pos 1)) schedule (start (pos 1)) at_start) finished_ended
