-- ===== src/Qsort/Partition.antt =====
-- What `partition` of basic/qsort.cpp returns, and when it fails.
use mathlib.Core.Path.{subst}
use serversidedev.Prelude.{ℕ, ◌+◌, ◌-◌, ◌*◌, ◌/◌, ◌≤◌, ◌<◌, ◌≡◌, ◌≢◌, refl, sym, ◌∙◌, ◌⊎◌, arith}
use serversidedev.Prelude.Int.{ℤ, ◌≤ℤ◌, ◌<ℤ◌, eq_of_parts}
use serversidedev.Prelude.Outcome.{ok, unfinished}
use serversidedev.Qsort.{IntArray, Scan, place, partition}
use serversidedev.Qsort.Scanning.{occurs, From, Scanned, scan-ends}

abbrev pub middle : IntArray → ℕ → ℕ → ℤ
middle a lo hi = a.cell ((lo + hi) / 2)

-- The array `a'` after `partition` of the cells `lo` to `hi` of `a`, which returned `re`. For all that
-- `partition` checks, `re` may lie one cell outside the range, if the pivot's value happens to be there.
pub record Partitioned (a : IntArray) (lo hi : ℕ) (a' : IntArray) (re : ℕ) : Type 0 where
  pub size_kept : a'.size ≡ a.size
  pub re_inside : re < a'.size
  pub near : (lo ≤ re + 1) × (re ≤ hi + 1)
  pub pivot_at : a'.cell re ≡ middle a lo hi
  pub below : (k : ℕ) → lo ≤ k → k ≤ hi → k < re → a'.cell k ≤ℤ middle a lo hi
  pub above : (k : ℕ) → lo ≤ k → k ≤ hi → re < k → middle a lo hi ≤ℤ a'.cell k
  pub outside : (k : ℕ) → (k < lo) ⊎ (hi < k) → a'.cell k ≡ a.cell k
  pub from : From lo hi a a'
  pub same : (v : ℤ) → occurs v a' ≡ occurs v a

-- Where `place` found the pivot, beside the cell at which the loop ended.
record Placed (pivot : ℤ) (s : Scan) (a' : IntArray) (re : ℕ) : Type 0 where
  array : s.array ≡ a'
  inside : re < s.array.size
  found : s.array.cell re ≡ pivot
  beside :
      ((pivot <ℤ s.array.cell s.left) × (s.left ≡ re + 1))
      ⊎ ((s.array.cell s.left <ℤ pivot) × (re ≡ s.left + 1))
      ⊎ (re ≡ s.left)

place-Placed :
    (pivot : ℤ) (s : Scan) {a' : IntArray} {re : ℕ}
    → place pivot s ≡ ok (a', re)
    → Placed pivot s a' re
unfolding place
place-Placed pivot s {a'} {re} e = record {
  array = ground arith;
  inside = ground arith;
  found = ground (arith, eq_of_parts (s.array.cell re) pivot);
  beside = ground arith;
}

place-Partitioned :
    {a : IntArray} {lo hi : ℕ} {a' : IntArray} {re : ℕ} {s : Scan}
    → Scanned a lo hi (middle a lo hi) s
    → s.left ≡ s.right
    → Placed (middle a lo hi) s a' re
    → Partitioned a lo hi a' re
place-Partitioned {a} {lo} {hi} {a'} {re} {s} sc met pl = record {
  size_kept = ground (arith, pl.array, sc);
  re_inside = ground (arith, pl);
  near = ground (arith, pl, sc);
  pivot_at = ground (arith, pl);
  below = λ k l h lt. ground (arith, pl, sc.below k);
  above = λ k l h lt. ground (arith, pl, sc.above k);
  outside = λ k h. ground (arith, pl.array, sc.outside k);
  from = subst (From lo hi a) pl.array sc.from;
  same = λ v. ground (arith, pl.array, sc.same v);
}

place-ne-unfinished : (pivot : ℤ) (s : Scan) → place pivot s ≢ unfinished
unfolding place
place-ne-unfinished pivot s e = ground arith

module _ (a : IntArray) (lo hi : ℕ) (le : lo ≤ hi) (inside : hi < a.size) where
  abbrev begin : Scan
  begin = record { array = a; left = lo; right = hi }

  begin-Scanned : Scanned a lo hi (middle a lo hi) begin
  begin-Scanned = record {
    size_kept = refl;
    lo_le = omega arith;
    left_le = le;
    le_hi = omega arith;
    below = λ k h l. absurd (omega arith);
    above = λ k h l. absurd (omega arith);
    outside = λ k h. refl;
    from = λ k l h. (k, l, h, refl);
    same = λ v. refl;
  }

  partition-scans :
      (s : Scan) × (partition a lo hi ≡ place (middle a lo hi) s)
      × Scanned a lo hi (middle a lo hi) s
      × (s.left ≡ s.right)
  unfolding partition
  partition-scans =
      let (s, e, sc, met) =
        scan-ends (2 * (hi - lo) + 2) begin begin-Scanned inside (ground arith) in
      (s, ground (arith, e), sc, met)

  -- `partition` on a range inside the array comes to an end: its loop always has fuel left.
  pub partition-ne-unfinished : partition a lo hi ≢ unfinished
  partition-ne-unfinished e =
      let (s, at_end, sc, met) = partition-scans in
      place-ne-unfinished (middle a lo hi) s (sym at_end ∙ e)

  -- If `partition` returns, the range is split at the index returned: the pivot stands there, with
  -- nothing greater below it and nothing smaller above; the cells are a rearrangement of what they
  -- were, and those outside the range have not changed.
  pub partition_lem :
      {a' : IntArray} {re : ℕ} → partition a lo hi ≡ ok (a', re) → Partitioned a lo hi a' re
  partition_lem e =
      let (s, at_end, sc, met) = partition-scans in
      place-Partitioned sc met (place-Placed (middle a lo hi) s (sym at_end ∙ e))
