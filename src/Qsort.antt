-- ===== src/Qsort.antt =====
-- basic/qsort.cpp: the functions that sort an `int` array in place.
pub mod Scanning
pub mod Partition
pub mod Sorting
pub mod Ending
pub mod Increasing
pub mod Failing
mod Main
mod Tests
use serversidedev.Prelude.{
  ℕ, zero, suc, ◌+◌, ◌-◌, ◌*◌, ◌/◌, ◌≡◌, Bool, true, false, ◌&&◌, arith, ltb, leb, ◌==◌,
  if◌then◌else◌, update,
}
use serversidedev.Prelude.Int.{ℤ, ltb_ℤ, leb_ℤ, eq_ℤ}
use serversidedev.Prelude.Outcome.{Outcome, ok, aborted, fault, unfinished, ◌>>=◌, ◌>>◌, assert}

-- `int *array` with the number of its cells. `cell` is read below `size` only.
pub record IntArray : Type 0 where
  pub cell : ℕ → ℤ
  pub size : ℕ

unfoldable pub read : IntArray → ℕ → Outcome ℤ
read a i = if ltb i a.size then ok (a.cell i) else fault

unfoldable pub write : IntArray → ℕ → ℤ → Outcome IntArray
write a i v = if ltb i a.size then ok (record a { cell = update a.cell i v }) else fault

unfoldable pub swap : IntArray → ℕ → ℕ → Outcome IntArray
unfolding read write
swap array a b = do
  tmp ← read array a
  y ← read array b
  array' ← write array a y
  write array' b tmp

-- The variables of the loop of `partition`.
pub record Scan : Type 0 where
  pub array : IntArray
  pub left : ℕ
  pub right : ℕ

-- The round where `array[left]` is above the pivot.
unfoldable pub scan_right : ℤ → Scan → Outcome Scan
unfolding swap
scan_right pivot s = do
  y ← read s.array s.right
  if leb_ℤ pivot y then ok (record s { right = s.right - 1 }) else swapped
  where
    swapped : Outcome Scan
    swapped = do array' ← swap s.array s.left s.right; ok (record s { array = array' })

-- One round; `right--` is made at `left<right` only, so it does not pass 0.
unfoldable pub scan_step : ℤ → Scan → Outcome Scan
unfolding scan_right
scan_step pivot s = do
  x ← read s.array s.left
  if leb_ℤ x pivot then ok (record s { left = s.left + 1 }) else scan_right pivot s

-- `while(left<right)`
unfoldable pub scan : ℕ → ℤ → Scan → Outcome Scan
unfolding scan_step
scan zero pivot s = unfinished
scan (suc fuel) pivot s = elim (ltb s.left s.right) [
  | true ↦ do s' ← scan_step pivot s; scan fuel pivot s'
  | false ↦ ok s
]

-- `re=left-1`, at which the array is read: at index -1 that is outside it.
unfoldable pub index_before : ℕ → Outcome ℕ
index_before zero = fault
index_before (suc left) = ok left

-- `partition` after its loop: where the pivot should be now, and the assertion that it is there. (A
-- failing assertion prints the range first.)
unfoldable pub place : ℤ → Scan → Outcome (IntArray × ℕ)
unfolding read index_before
place pivot s = do
  assert (s.left == s.right)
  x ← read s.array s.left
  re ←
      (if ltb_ℤ pivot x
        then index_before s.left
        else if ltb_ℤ x pivot
        then ok (s.left + 1)
        else ok s.left)
  found ← read s.array re
  assert (eq_ℤ found pivot)
  ok (s.array, re)

-- The loop has fuel for two rounds for each cell.
unfoldable pub partition : IntArray → ℕ → ℕ → Outcome (IntArray × ℕ)
unfolding scan place
partition array in_left in_right = do
  assert (leb in_left in_right)
  pivot ← read array ((in_left + in_right) / 2)
  s ←
      scan (2 * (in_right - in_left) + 2) pivot
        (record { array = array; left = in_left; right = in_right })
  place pivot s

-- `left==right-1`: two cells.
unfoldable pub sort_pair : IntArray → ℕ → ℕ → Outcome IntArray
unfolding swap
sort_pair array left right = do
  x ← read array left
  y ← read array right
  if ltb_ℤ y x then swap array left right else ok array

-- The fuel bounds the depth of the recursion. `index-1` is -1 at index 0, where the assertion of the
-- call would fail: that is written out before the call.
unfoldable pub qsort_fuel : ℕ → IntArray → ℕ → ℕ → Outcome IntArray
qsort_fuel zero array left right = unfinished
qsort_fuel (suc fuel) array left right =
    if ltb right left
    then aborted
    else if left == right
    then ok array
    else if left + 1 == right
    then sort_pair array left right
    else (do
      (array1, index) ← partition array left right
      assert (ltb 0 index)
      array2 ← qsort_fuel fuel array1 left (index - 1)
      qsort_fuel fuel array2 (index + 1) right)

-- `qsort` on `right-left+1` cells goes no deeper than that, where it ends at all.
unfoldable pub qsort : IntArray → ℕ → ℕ → Outcome IntArray
unfolding qsort_fuel
qsort array left right = qsort_fuel (right - left + 1) array left right

-- `for(int i=left;i<right;i++)`, by the rounds left.
unfoldable pub is_increase_from : ℕ → IntArray → ℕ → Outcome Bool
unfolding read
is_increase_from zero array i = ok true
is_increase_from (suc rounds) array i = do
  x ← read array i
  y ← read array (i + 1)
  (let rest = is_increase_from rounds array (i + 1) in if ltb_ℤ y x then ok false else rest)

unfoldable pub is_increase : IntArray → ℕ → ℕ → Outcome Bool
unfolding is_increase_from
is_increase array left right = is_increase_from (right - left) array left
