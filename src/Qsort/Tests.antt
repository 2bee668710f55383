-- ===== src/Qsort/Tests.antt =====
-- Runs of basic/qsort.cpp on small arrays, and the theorems about it at them.
use serversidedev.Prelude.{ℕ, zero, suc, ◌≤◌, ◌≡◌, ◌≢◌, refl, List, [], ◌∷◌, arith, length, total}
use serversidedev.Prelude.Int.{ℤ, pos, negsuc, ◌≤ℤ◌}
use serversidedev.Prelude.Outcome.{Outcome, ok, unfinished}
use serversidedev.Qsort.{IntArray, partition, qsort, sort_pair}
use serversidedev.Qsort.Sorting.{Sorts, qsort-Sorts}
use serversidedev.Qsort.Ending.{IsDistinct, qsort-ne-unfinished}
use serversidedev.Qsort.Increasing.{IsIncreasing}

abbrev cells : List ℤ → ℕ → ℤ
cells [] i = pos 0
cells (x ∷ xs) zero = x
cells (x ∷ xs) (suc i) = cells xs i

abbrev of_list : List ℤ → IntArray
of_list xs = record { cell = cells xs; size = length xs }

-- A falling array, which is sorted by exchanges.
abbrev falling : IntArray
falling = of_list (pos 5 ∷ pos 4 ∷ pos 3 ∷ pos 1 ∷ negsuc 1 ∷ [])

abbrev result : Outcome IntArray → IntArray
result (ok a) = a
result m = of_list []

falling_run :
    (qsort falling 0 4 ≡ ok (result (qsort falling 0 4)))
    × (result (qsort falling 0 4)).cell 0 ≡ negsuc 1
    × (result (qsort falling 0 4)).cell 4 ≡ pos 5
unfolding qsort partition sort_pair
falling_run = (refl, refl, refl)

abbrev split_of : Outcome (IntArray × ℕ) → IntArray × ℕ
split_of (ok p) = p
split_of m = (of_list [], 0)

falling_split :
    (partition falling 0 4 ≡ ok (split_of (partition falling 0 4)))
    × ((split_of (partition falling 0 4)).1 ≡ 2)
unfolding partition
falling_split = (refl, refl)

qsort-Sorts_example : Sorts falling 0 4 (result (qsort falling 0 4))
qsort-Sorts_example = qsort-Sorts falling 0 4 (omega arith) falling_run.0

falling-IsDistinct : IsDistinct falling
unfolding total
falling-IsDistinct v = ground arith

qsort-ne-unfinished_example : qsort falling 0 4 ≢ unfinished
qsort-ne-unfinished_example = qsort-ne-unfinished falling 0 4 falling-IsDistinct (omega arith)

abbrev rising : IntArray
rising = of_list (negsuc 3 ∷ pos 0 ∷ pos 7 ∷ [])

rising-IsIncreasing : IsIncreasing rising 0 2
rising-IsIncreasing zero (suc zero) l lt h = omega arith
rising-IsIncreasing zero (suc (suc zero)) l lt h = omega arith
rising-IsIncreasing (suc zero) (suc (suc zero)) l lt h = omega arith
rising-IsIncreasing j k l lt h = absurd (omega arith)

abbrev valley : IntArray
valley = of_list (pos 3 ∷ pos 1 ∷ pos 2 ∷ [])

valley_above : (k : ℕ) → k ≤ 2 → pos 1 ≤ℤ valley.cell k
valley_above zero h = omega arith
valley_above (suc zero) h = omega arith
valley_above (suc (suc zero)) h = omega arith
valley_above (suc (suc (suc k))) h = absurd (omega arith)

abbrev peak : IntArray
peak = of_list (pos 3 ∷ pos 5 ∷ pos 4 ∷ [])

-- The same three cells, with the value of the middle one behind them.
abbrev peak_twice : IntArray
peak_twice = of_list (pos 3 ∷ pos 5 ∷ pos 4 ∷ pos 5 ∷ [])

peak_below : (k : ℕ) → 0 ≤ k → k ≤ 2 → peak.cell k ≤ℤ pos 5
peak_below zero l h = omega arith
peak_below (suc zero) l h = omega arith
peak_below (suc (suc zero)) l h = omega arith
peak_below (suc (suc (suc k))) l h = absurd (omega arith)

peak_twice_below : (k : ℕ) → 0 ≤ k → k ≤ 2 → peak_twice.cell k ≤ℤ pos 5
peak_twice_below zero l h = omega arith
peak_twice_below (suc zero) l h = omega arith
peak_twice_below (suc (suc zero)) l h = omega arith
peak_twice_below (suc (suc (suc k))) l h = absurd (omega arith)
