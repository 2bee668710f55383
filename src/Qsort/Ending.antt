-- ===== src/Qsort/Ending.antt =====
-- When `qsort` of basic/qsort.cpp comes to an end.
use native.Mathlib.Decide.{dec_lt}
use serversidedev.Prelude.{
  ℕ, zero, suc, ◌+◌, ◌-◌, ◌/◌, ◌≤◌, ◌<◌, ◌≡◌, ◌≢◌, inl, inr, arith, ltb, ◌==◌, Bool-cases,
  two-le-total, ind,
}
use serversidedev.Prelude.Int.{ℤ, eq_ℤ}
use serversidedev.Prelude.Outcome.{unfinished, ◌>>=◌, ◌>>◌, assert, bind-unfinished}
use serversidedev.Qsort.{IntArray, partition, sort_pair, qsort_fuel, qsort}
use serversidedev.Qsort.Scanning.{occurs}
use serversidedev.Qsort.Partition.{Partitioned, partition_lem, partition-ne-unfinished}
use serversidedev.Qsort.Sorting.{Sorts, qsort_fuel-Sorts}

-- No value stands twice in the array.
abbrev pub IsDistinct : IntArray → Type 0
IsDistinct a = (v : ℤ) → occurs v a ≤ 1

twice :
    (a : IntArray) (i j : ℕ)
    → IsDistinct a
    → i < a.size
    → j < a.size
    → a.cell i ≡ a.cell j
    → ¬ (i < j)
twice a i j d hi hj e lt =
    ground
      (arith, d (a.cell i), two-le-total (λ x. ind (eq_ℤ x (a.cell i))) a.size a.cell i j lt hj)

-- With distinct values the index that `partition` returns lies in the range.
re_in_range :
    (a : IntArray) (lo hi : ℕ) (a1 : IntArray) (re : ℕ)
    → IsDistinct a
    → lo ≤ hi
    → hi < a.size
    → Partitioned a lo hi a1 re
    → (lo ≤ re) × (re ≤ hi)
re_in_range a lo hi a1 re d le inside p = elim (dec_lt re lo) [
  | yes below ↦ absurd (
      twice a re ((lo + hi) / 2) d (omega arith) (omega arith)
        (ground (arith, p.outside re, p.pivot_at)) (omega arith))
  | no not_below ↦ elim (dec_lt hi re) [
    | yes above ↦ absurd (
        twice a ((lo + hi) / 2) re d (omega arith) (omega (arith, p))
          (ground (arith, p.outside re, p.pivot_at)) (omega arith))
    | no not_above ↦ omega arith
  ]
]

sort_pair-ne-unfinished : (a : IntArray) (lo hi : ℕ) → sort_pair a lo hi ≢ unfinished
unfolding sort_pair
sort_pair-ne-unfinished a lo hi e = ground arith

module _ (fuel : ℕ)
    (ih : (a : IntArray) (lo hi : ℕ)
      → IsDistinct a
      → hi < a.size
      → hi - lo < fuel
      → qsort_fuel fuel a lo hi ≢ unfinished)
    (a : IntArray) (lo hi : ℕ) (d : IsDistinct a) (le : lo < hi) (inside : hi < a.size)
    (enough : hi - lo < suc fuel) where
  sides-ne-unfinished :
      (a1 : IntArray) (re : ℕ)
      → Partitioned a lo hi a1 re
      → (assert (ltb 0 re)
          >> (qsort_fuel fuel a1 lo (re - 1) >>= λ a2. qsort_fuel fuel a2 (re + 1) hi))
        ≢ unfinished
  sides-ne-unfinished a1 re p e = elim (bind-unfinished (assert (ltb 0 re)) _ e) [
    | inl no_assert ↦ ground arith
    | inr (_, pos, e1) ↦ elim (bind-unfinished (qsort_fuel fuel a1 lo (re - 1)) _ e1) [
      | inl first ↦ ih a1 lo (re - 1) distinct (omega (arith, p)) (omega (arith, in_range)) first
      | inr (a2, first, second) ↦
          let s : Sorts a1 lo (re - 1) a2 =
            qsort_fuel-Sorts fuel a1 lo (re - 1) a2 (omega (arith, p)) first in
          ih a2 (re + 1) hi (λ v. omega (arith, s.same v, distinct v)) (omega (arith, s, p))
            (omega (arith, in_range)) second
    ]
  ]
    where
      distinct : IsDistinct a1
      distinct v = omega (arith, p.same v, d v)

      in_range : (lo ≤ re) × (re ≤ hi)
      in_range = re_in_range a lo hi a1 re d (omega arith) inside p

  parts-ne-unfinished :
      (partition a lo hi >>= λ (a1, re).
      assert (ltb 0 re)
      >> (qsort_fuel fuel a1 lo (re - 1) >>= λ a2. qsort_fuel fuel a2 (re + 1) hi))
      ≢ unfinished
  parts-ne-unfinished e = elim (bind-unfinished (partition a lo hi) _ e) [
    | inl u ↦ partition-ne-unfinished a lo hi (omega arith) inside u
    | inr (pair, split, rest) ↦
        sides-ne-unfinished pair.0 pair.1 (partition_lem a lo hi (omega arith) inside split) rest
  ]

qsort_fuel-ne-unfinished :
    (fuel : ℕ) (a : IntArray) (lo hi : ℕ)
    → IsDistinct a
    → hi < a.size
    → hi - lo < fuel
    → qsort_fuel fuel a lo hi ≢ unfinished
unfolding qsort_fuel
qsort_fuel-ne-unfinished zero a lo hi d inside enough e = absurd (omega arith)
qsort_fuel-ne-unfinished (suc fuel) a lo hi d inside enough e = elim (dec_lt hi lo) [
  | yes reversed ↦ ground arith
  | no forward ↦ elim (Bool-cases (lo == hi)) [
    | inl one ↦ ground arith
    | inr more ↦ elim (Bool-cases (lo + 1 == hi)) [
      | inl two ↦ sort_pair-ne-unfinished a lo hi (ground arith)
      | inr three ↦
          parts-ne-unfinished fuel (qsort_fuel-ne-unfinished fuel) a lo hi d (ground arith) inside
            enough (ground arith)
    ]
  ]
]

-- On an array with no value twice, `qsort` ends: it returns, fails an assertion, or leaves the
-- array. Its recursion is no deeper than the number of cells.
pub qsort-ne-unfinished :
    (a : IntArray) (lo hi : ℕ) → IsDistinct a → hi < a.size → qsort a lo hi ≢ unfinished
unfolding qsort
qsort-ne-unfinished a lo hi d inside =
    qsort_fuel-ne-unfinished (hi - lo + 1) a lo hi d inside (omega arith)
