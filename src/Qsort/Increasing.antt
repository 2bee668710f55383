-- ===== src/Qsort/Increasing.antt =====
-- `qsort` of basic/qsort.cpp on an array that is in order already.
use serversidedev.Prelude.{ℕ, zero, suc, ◌+◌, ◌-◌, ◌*◌, ◌/◌, ◌≤◌, ◌<◌, ◌≡◌, arith}
use serversidedev.Prelude.Int.{◌<ℤ◌}
use serversidedev.Prelude.Outcome.{ok}
use serversidedev.Qsort.{
  IntArray, Scan, scan_step, scan, place, partition, sort_pair, qsort_fuel, qsort,
}

-- Each cell of the range is below the next.
abbrev pub IsIncreasing : IntArray → ℕ → ℕ → Type 0
IsIncreasing a lo hi = (j k : ℕ) → lo ≤ j → j < k → k ≤ hi → a.cell j <ℤ a.cell k

abbrev at_scan : IntArray → ℕ → ℕ → Scan
at_scan a l r = record { array = a; left = l; right = r }

-- `left` passes the middle, `right` comes down to the cell behind it, and nothing is exchanged.
scan-increasing :
    (fuel : ℕ) (a : IntArray) (lo hi m l r : ℕ)
    → IsIncreasing a lo hi
    → hi < a.size
    → (lo ≤ l) × (l ≤ m + 1) × (m < r) × (r ≤ hi) × (lo ≤ m)
    → r - l < fuel
    → scan fuel (a.cell m) (at_scan a l r) ≡ ok (at_scan a (m + 1) (m + 1))
unfolding scan scan_step
scan-increasing zero a lo hi m l r inc inside b enough = absurd (omega arith)
scan-increasing (suc fuel) a lo hi m l r inc inside b enough = ground (
  arith,
  inc l m,
  inc m l,
  inc m r,
  scan-increasing fuel a lo hi m (l + 1) r inc inside,
  scan-increasing fuel a lo hi m l (r - 1) inc inside,
)

partition-increasing :
    (a : IntArray) (lo hi : ℕ)
    → IsIncreasing a lo hi
    → hi < a.size
    → lo < hi
    → partition a lo hi ≡ ok (a, (lo + hi) / 2)
unfolding partition place
partition-increasing a lo hi inc inside lt = ground (
  arith,
  inc ((lo + hi) / 2) ((lo + hi) / 2 + 1),
  scan-increasing (2 * (hi - lo) + 2) a lo hi ((lo + hi) / 2) lo hi inc inside,
)

-- The two calls of `qsort` for three cells or more.
qsort_fuel-increasing :
    (fuel : ℕ) (a : IntArray) (lo hi : ℕ)
    → IsIncreasing a lo hi
    → hi < a.size
    → lo ≤ hi
    → hi - lo < fuel
    → qsort_fuel fuel a lo hi ≡ ok a
unfolding qsort_fuel sort_pair
qsort_fuel-increasing zero a lo hi inc inside le enough = absurd (omega arith)
qsort_fuel-increasing (suc fuel) a lo hi inc inside le enough = ground (
  arith,
  inc lo hi,
  partition-increasing a lo hi inc inside,
  qsort_fuel-increasing fuel a lo ((lo + hi) / 2 - 1) (λ j k l lt h. inc j k l lt (omega arith))
      (omega arith),
  qsort_fuel-increasing fuel a ((lo + hi) / 2 + 1) hi (λ j k l lt h. inc j k (omega arith) lt h)
      inside,
)

-- On a range in strictly increasing order no assertion fails: `qsort` returns the array as it is.
pub qsort-increasing :
    (a : IntArray) (lo hi : ℕ) → IsIncreasing a lo hi → hi < a.size → lo ≤ hi → qsort a lo hi ≡ ok a
unfolding qsort
qsort-increasing a lo hi inc inside le =
    qsort_fuel-increasing (hi - lo + 1) a lo hi inc inside le (omega arith)
