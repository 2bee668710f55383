-- ===== src/Qsort/Main.antt =====
-- `print_array` and `main` of basic/qsort.cpp; time, and what it prints of it, are left out.
use serversidedev.Prelude.{
  ℕ, zero, suc, ◌+◌, ◌-◌, ◌%◌, ◌≡◌, ◌≢◌, refl, Bool, false, List, [], ◌∷◌, ◌++◌, ◌==◌,
  if◌then◌else◌, arith,
}
use serversidedev.Prelude.Int.{ℤ, pos, negsuc}
use serversidedev.Prelude.Outcome.{Outcome, ok, aborted, fault, unfinished, ◌>>=◌}
use serversidedev.Lhf.Strtol.{print_long}
use serversidedev.Qsort.{IntArray, read, qsort, is_increase}
use serversidedev.Qsort.Sorting.{is_increase-qsort}

-- A line ends where the index is a multiple of `gline_output_num`; a division by 0 is a `fault`.
unfoldable print_from : ℕ → (left i : ℕ) → IntArray → Outcome (List ℕ)
unfolding read
print_from per_line zero i array = ok (10 ∷ [])
print_from per_line (suc left) i array = do
  x ← read array i
  more ← print_from per_line left (i + 1) array
  (if per_line == 0
      then fault
      else ok (print_long x ++ (32 ∷ []) ++ (if i % per_line == 0 then 10 ∷ more else more)))

unfoldable print_array : ℕ → IntArray → (left right : ℕ) → Outcome (List ℕ)
unfolding print_from
print_array per_line array left right = print_from per_line (right + 1 - left) left array

-- `main` on the numbers that `rand` gives: whether it prints that the sort was ok. With no cells `right` is -1 and the
-- assertion of `qsort` fails.
unfoldable qsort_main : ℤ → (ℕ → ℤ) → Outcome Bool
unfolding qsort is_increase
qsort_main (negsuc n) rand = aborted
qsort_main (pos zero) rand = aborted
qsort_main (pos (suc n)) rand = do
  array ← qsort (record { cell = rand; size = suc n }) 0 n
  is_increase array 0 n

-- It never prints that the sort has failed.
qsort_main-ne-fail : (num : ℤ) (rand : ℕ → ℤ) → qsort_main num rand ≢ ok false
unfolding qsort_main
qsort_main-ne-fail (negsuc n) rand e = cc
qsort_main-ne-fail (pos zero) rand e = cc
qsort_main-ne-fail (pos (suc n)) rand e =
    sorted (qsort (record { cell = rand; size = suc n }) 0 n) refl e
  where
    sorted :
        (out : Outcome IntArray)
        → qsort (record { cell = rand; size = suc n }) 0 n ≡ out
        → (out >>= (λ array. is_increase array 0 n)) ≢ ok false
    sorted (ok array) came e =
        cc (is_increase-qsort (record { cell = rand; size = suc n }) 0 n (omega arith) came)
    sorted aborted came e = cc
    sorted fault came e = cc
    sorted unfinished came e = cc
