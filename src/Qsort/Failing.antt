-- ===== src/Qsort/Failing.antt =====
-- Arrays on which `qsort` of basic/qsort.cpp leaves the array or never returns: `partition` does not
-- carry its pivot along, and looks for it one cell beside the place where its loop ended.
use serversidedev.Prelude.{ℕ, zero, suc, ◌+◌, ◌-◌, ◌*◌, ◌≤◌, ◌<◌, ◌≡◌, refl, arith}
use serversidedev.Prelude.Int.{ℤ, ◌≤ℤ◌, ◌<ℤ◌}
use serversidedev.Prelude.Outcome.{ok, fault, unfinished}
use serversidedev.Qsort.{
  IntArray, Scan, scan_step, scan, index_before, place, partition, qsort_fuel, qsort,
}
use serversidedev.Qsort.Partition.{middle}

abbrev at_scan : IntArray → ℕ → ℕ → Scan
at_scan a l r = record { array = a; left = l; right = r }

-- Where every cell is at least the pivot and the first is above it, `right` comes down to it.
scan-down :
    (fuel : ℕ) (a : IntArray) (pivot : ℤ) (hi r : ℕ)
    → ((k : ℕ) → k ≤ hi → pivot ≤ℤ a.cell k)
    → pivot <ℤ a.cell 0
    → hi < a.size
    → r ≤ hi
    → r < fuel
    → scan fuel pivot (at_scan a 0 r) ≡ ok (at_scan a 0 0)
unfolding scan scan_step
scan-down zero a pivot hi r above first inside le enough = absurd (omega arith)
scan-down (suc fuel) a pivot hi r above first inside le enough =
    ground (arith, above r, scan-down fuel a pivot hi (r - 1) above first inside)

-- Where every cell is at most the pivot, `left` runs up to `hi`.
scan-up :
    (fuel : ℕ) (a : IntArray) (pivot : ℤ) (lo hi l : ℕ)
    → ((k : ℕ) → lo ≤ k → k ≤ hi → a.cell k ≤ℤ pivot)
    → hi < a.size
    → lo ≤ l
    → l ≤ hi
    → hi - l < fuel
    → scan fuel pivot (at_scan a l hi) ≡ ok (at_scan a hi hi)
unfolding scan scan_step
scan-up zero a pivot lo hi l below inside le h enough = absurd (omega arith)
scan-up (suc fuel) a pivot lo hi l below inside le h enough =
    ground (arith, below l, scan-up fuel a pivot lo hi (l + 1) below inside)

-- If the middle cell of a whole array of three cells or more is a least one, and the first cell is
-- greater, `qsort` reads `array[-1]`.
pub qsort-least_in_middle :
    (a : IntArray) (hi : ℕ)
    → 2 ≤ hi
    → hi < a.size
    → ((k : ℕ) → k ≤ hi → middle a 0 hi ≤ℤ a.cell k)
    → middle a 0 hi <ℤ a.cell 0
    → qsort a 0 hi ≡ fault
unfolding qsort qsort_fuel partition place index_before
qsort-least_in_middle a hi three inside above first =
    ground (arith, scan-down (2 * hi + 2) a (middle a 0 hi) hi hi above first inside)

module _ (a : IntArray) (lo hi : ℕ) (three : lo + 2 ≤ hi) (inside : hi < a.size)
    (below : (k : ℕ) → lo ≤ k → k ≤ hi → a.cell k ≤ℤ middle a lo hi)
    (last : a.cell hi <ℤ middle a lo hi) where
  at_end : scan (2 * (hi - lo) + 2) (middle a lo hi) (at_scan a lo hi) ≡ ok (at_scan a hi hi)
  at_end =
      scan-up _ a (middle a lo hi) lo hi lo below inside (omega arith) (omega arith) (omega arith)

  partition-greatest : hi + 1 ≡ a.size → partition a lo hi ≡ fault
  unfolding partition place
  partition-greatest e = ground (arith, at_end)

  -- If the middle cell is a greatest one of the range, the last cell is smaller, and the range ends
  -- with the array, `qsort` reads the cell behind the array.
  pub qsort-greatest_in_middle : hi + 1 ≡ a.size → qsort a lo hi ≡ fault
  unfolding qsort qsort_fuel
  qsort-greatest_in_middle e = ground (arith, partition-greatest e)

  -- If instead the cell behind the range holds the pivot's value by chance, `partition` returns that
  -- index, and `qsort` calls itself on the same range again, for ever.
  pub qsort_loops :
      hi + 1 < a.size
      → a.cell (hi + 1) ≡ middle a lo hi
      → (fuel : ℕ) → qsort_fuel fuel a lo hi ≡ unfinished
  unfolding qsort_fuel partition place
  qsort_loops room chance zero = refl
  qsort_loops room chance (suc fuel) = ground (arith, at_end, qsort_loops room chance fuel)
