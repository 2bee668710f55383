-- ===== src/Atomic/Locked/Tests.antt =====
-- Threads that count down under the mutex, and the theorems at the states that they reach.
use serversidedev.Prelude.{ℕ, ◌+◌, ◌*◌, ◌^◌, ◌≤◌, ◌≡◌, refl, List, [], ◌∷◌, arith}
use serversidedev.Prelude.Int.{int_of, ℤ, pos, pos_part, ◌≤ℤ◌, ◌+ℤ◌}
use serversidedev.Prelude.Interleave.{Threads, turn, Reaches, at_start, play, play-Reaches}
use serversidedev.Atomic.Locked.{Pc, count_down, returned, exec, start}
use serversidedev.Atomic.Locked.Counting.{locked_ends_at_zero}
use serversidedev.Atomic.Locked.Ending.{none_yet, moves, locked_turns_bounded}

abbrev run : ℤ → List ℕ → Threads ℤ Pc
run g = play exec 2 (start g)

reached : (g : ℤ) (is : List ℕ) → Reaches exec 2 (start g) (run g is)
reached g is = play-Reaches exec 2 (start g) is (start g) at_start

abbrev schedule : List ℕ
schedule = 0 ∷ 1 ∷ 1 ∷ 0 ∷ 0 ∷ []

-- Thread 0 has returned, thread 1 has not.
schedule_result : (run (pos 2) schedule).pc 0 ≡ returned
unfolding play exec start int_of count_down ◌+ℤ◌
schedule_result = refl

-- 2 ^ 32 looks like 0 in an `int`: the thread returns at once and the count has not begun.
cut_off : (run (pos (2 ^ 32)) (0 ∷ 0 ∷ [])).pc 0 ≡ returned
unfolding play exec start int_of count_down ◌+ℤ◌
cut_off = refl

locked_ends_at_zero_example :
    (pos 0 ≤ℤ (run (pos 2) schedule).mem)
    × ((run (pos 2) schedule).mem ≤ℤ pos 2)
    × ((i : ℕ) → (run (pos 2) schedule).pc i ≡ returned → (run (pos 2) schedule).mem ≡ pos 0)
locked_ends_at_zero_example =
    locked_ends_at_zero (pos 2) (omega arith) (omega arith) (reached (pos 2) schedule)

locked_turns_bounded_example : 1 ≤ pos_part (pos 2) + 3 * 2
unfolding start
locked_turns_bounded_example =
    locked_turns_bounded {n = 2} {k = 1} (pos 2) {s = turn exec (start (pos 2)) 1} (omega arith)
      (moves none_yet 1 (omega arith) (λ e. cc))
