-- ===== src/Atomic/Decrement/Tests.antt =====
-- Two threads that count down from 1 by compare-and-swap.
use serversidedev.Prelude.{ℕ, ◌≡◌, refl, List, [], ◌∷◌}
use serversidedev.Prelude.Int.{ℤ, pos, ◌+ℤ◌}
use serversidedev.Prelude.Interleave.{Threads, play}
use serversidedev.Atomic.Decrement.{Pc, exec, start}

-- Both read 1, and one swap fails.
abbrev schedule : List ℕ
schedule = 0 ∷ 1 ∷ 0 ∷ 1 ∷ 0 ∷ 1 ∷ []

abbrev finished : Threads ℤ Pc
finished = play exec 2 (start (pos 1)) schedule

finished_result : finished.mem ≡ pos 0
unfolding play exec start ◌+ℤ◌
finished_result = refl
