-- ===== src/Atomic/Claim/Tests.antt =====
-- Two threads that count down from 2, and the theorems at the states that they reach.
use serversidedev.Prelude.{ℕ, zero, suc, ◌<◌, ◌≡◌, refl, true, ◌&&◌, List, [], ◌∷◌, arith, ind}
use serversidedev.Prelude.Int.{ℤ, pos, ◌≤ℤ◌, ltb_ℤ, leb_ℤ, count_ℤ, ◌+ℤ◌}
use serversidedev.Prelude.Interleave.{Threads, at_start, play, play-Reaches}
use serversidedev.Atomic.Claim.{Mem, Pc, exec, start}
use serversidedev.Atomic.Claim.Once.{ended, all_worked}

-- Both threads read 2, one wins, the other tries again.
abbrev run : List ℕ → Threads Mem Pc
run = play exec 2 (start (pos 2))

abbrev halfway : Threads Mem Pc
halfway = run (0 ∷ 1 ∷ 0 ∷ 1 ∷ [])

abbrev finished : Threads Mem Pc
finished = run (0 ∷ 1 ∷ 0 ∷ 1 ∷ 0 ∷ 1 ∷ 1 ∷ 1 ∷ 0 ∷ 1 ∷ [])

finished_result : finished.mem.worked ≡ pos 2 ∷ pos 1 ∷ []
unfolding play exec start ◌+ℤ◌
finished_result = refl

finished_ended : (i : ℕ) → i < 2 → ended (finished.pc i) ≡ true
unfolding play exec start ◌+ℤ◌
finished_ended zero lt = refl
finished_ended (suc zero) lt = refl
finished_ended (suc (suc i)) lt = absurd (omega arith)

all_worked_example :
    ((v : ℤ) → count_ℤ v finished.mem.worked ≡ ind (ltb_ℤ (pos 0) v && leb_ℤ v (pos 2)))
    × (pos 0 ≤ℤ pos 2 → finished.mem.gnum ≡ pos 0)
all_worked_example =
    all_worked (pos 2) (omega arith)
      (play-Reaches exec 2 (start (pos 2)) (0 ∷ 1 ∷ 0 ∷ 1 ∷ 0 ∷ 1 ∷ 1 ∷ 1 ∷ 0 ∷ 1 ∷ [])
        (start (pos 2)) at_start)
      finished_ended
