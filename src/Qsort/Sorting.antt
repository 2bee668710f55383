-- ===== src/Qsort/Sorting.antt =====
-- What `qsort` of basic/qsort.cpp leaves, where it returns.
use mathlib.Core.Path.{subst}
use native.Mathlib.Decide.{dec_lt}
use serversidedev.Prelude.{
  ℕ, zero, suc, ◌+◌, ◌-◌, ◌≤◌, ◌<◌, ◌≡◌, refl, ◌∙◌, ◌⊎◌, inl, inr, true, false, arith, ltb, ◌==◌,
  Bool-cases,
}
use serversidedev.Prelude.Int.{ℤ, ◌≤ℤ◌, ltb_ℤ}
use serversidedev.Prelude.Outcome.{ok, ◌>>=◌, ◌>>◌, bind-ok, assert}
use serversidedev.Qsort.{
  IntArray, partition, sort_pair, qsort_fuel, qsort, is_increase, is_increase_from,
}
use serversidedev.Qsort.Scanning.{
  occurs, exchange, swap-eq-exchange, occurs-exchange, From, From-exchange,
}
use serversidedev.Qsort.Partition.{Partitioned, middle, partition_lem}

-- The array `a'` after a sort of the cells `lo` to `hi` of `a`.
pub record Sorts (a : IntArray) (lo hi : ℕ) (a' : IntArray) : Type 0 where
  pub ordered : lo ≤ hi
  pub size_kept : a'.size ≡ a.size
  pub sorted : (j k : ℕ) → lo ≤ j → j ≤ k → k ≤ hi → a'.cell j ≤ℤ a'.cell k
  pub outside : (k : ℕ) → (k < lo) ⊎ (hi < k) → a'.cell k ≡ a.cell k
  pub from : From lo hi a a'
  pub same : (v : ℤ) → occurs v a' ≡ occurs v a

one-Sorts : (a : IntArray) (lo hi : ℕ) → lo ≡ hi → Sorts a lo hi a
one-Sorts a lo hi e = record {
  ordered = omega arith;
  size_kept = refl;
  sorted = λ j k l m h. ground arith;
  outside = λ k h. refl;
  from = λ k l h. (k, l, h, refl);
  same = λ v. refl;
}

swapped-Sorts :
    (a : IntArray) (lo hi : ℕ)
    → hi < a.size
    → lo + 1 ≡ hi
    → ltb_ℤ (a.cell hi) (a.cell lo) ≡ true
    → Sorts a lo hi (exchange a lo hi)
swapped-Sorts a lo hi inside e wrong = record {
  ordered = omega arith;
  size_kept = refl;
  sorted = λ j k l m h. ground arith;
  outside = λ k h. ground arith;
  from =
      From-exchange a a lo hi (omega arith) (omega arith) (omega arith) (omega arith)
        (λ k l h. (k, l, h, refl));
  same = λ v. occurs-exchange v a lo hi (omega arith) inside;
}

kept-Sorts :
    (a : IntArray) (lo hi : ℕ)
    → lo + 1 ≡ hi
    → ltb_ℤ (a.cell hi) (a.cell lo) ≡ false
    → Sorts a lo hi a
kept-Sorts a lo hi e right = record {
  ordered = omega arith;
  size_kept = refl;
  sorted = λ j k l m h. ground arith;
  outside = λ k h. refl;
  from = λ k l h. (k, l, h, refl);
  same = λ v. refl;
}

pair-Sorts :
    (a : IntArray) (lo hi : ℕ) {a' : IntArray}
    → hi < a.size
    → lo + 1 ≡ hi
    → sort_pair a lo hi ≡ ok a'
    → Sorts a lo hi a'
unfolding sort_pair
pair-Sorts a lo hi {a'} inside e r = elim (Bool-cases (ltb_ℤ (a.cell hi) (a.cell lo))) [
  | inl wrong ↦
      subst (Sorts a lo hi) (ground (arith, swap-eq-exchange a lo hi (omega arith) inside))
        (swapped-Sorts a lo hi inside e wrong)
  | inr right ↦ subst (Sorts a lo hi) (ground arith) (kept-Sorts a lo hi e right)
]

module _ {a a1 a2 a3 : IntArray} {lo hi re : ℕ} (pos_re : 0 < re) (p : Partitioned a lo hi a1 re)
    (first : Sorts a1 lo (re - 1) a2) (second : Sorts a2 (re + 1) hi a3) where
  low : (j : ℕ) → lo ≤ j → j < re → a3.cell j ≤ℤ middle a lo hi
  low j l lt =
      let (o, lo_o, o_hi, e) = first.from j l (omega arith) in
      ground (arith, e, p.below o lo_o, second.outside j, second.ordered, first.ordered)

  high : (k : ℕ) → re < k → k ≤ hi → middle a lo hi ≤ℤ a3.cell k
  high k lt h =
      let (o, lo_o, o_hi, e) = second.from k (omega arith) h in
      ground (arith, e, p.above o, first.outside o, second.ordered, first.ordered)

  mid : a3.cell re ≡ middle a lo hi
  mid = ground (arith, p.pivot_at, first.outside re, second.outside re, first.ordered)

  whence : From lo hi a a3
  whence k l h = elim (dec_lt k re) [
    | yes before ↦
        let (o, lo_o, o_hi, e) = first.from k l (omega arith) in
        let (o', lo_o', o_hi', e') = p.from o lo_o (omega (arith, second.ordered)) in
        (o', lo_o', o_hi', ground (arith, second.outside k, e, e'))
    | no not_before ↦ elim (dec_lt re k) [
      | yes after ↦
          let (o, lo_o, o_hi, e) = second.from k (omega arith) h in
          let (o', lo_o', o_hi', e') = p.from o (omega (arith, first.ordered)) o_hi in
          (o', lo_o', o_hi', ground (arith, first.outside o, e, e'))
      | no here ↦
          let (o', lo_o', o_hi', e') = p.from k l h in
          (o', lo_o', o_hi', ground (arith, first.outside k, second.outside k, e'))
    ]
  ]

  split-Sorts : Sorts a lo hi a3
  split-Sorts = record {
    ordered = omega (arith, first.ordered, second.ordered);
    size_kept = second.size_kept ∙ first.size_kept ∙ p.size_kept;
    sorted = λ j k l m h. ground (
      arith,
      first.sorted j k,
      second.sorted j k,
      low j,
      high k,
      mid,
      second.outside j,
      second.outside k,
    );
    outside = λ k h.
        ground
          (arith, p.outside k, first.outside k, second.outside k, first.ordered, second.ordered);
    from = whence;
    same = λ v. second.same v ∙ first.same v ∙ p.same v;
  }

-- The branch of `qsort` for three cells or more.
module _ (fuel : ℕ)
    (ih : (a : IntArray) (lo hi : ℕ) (a' : IntArray)
      → hi < a.size
      → qsort_fuel fuel a lo hi ≡ ok a'
      → Sorts a lo hi a')
    (a : IntArray) (lo hi : ℕ) (a' : IntArray) (le : lo ≤ hi) (inside : hi < a.size) where
  sides-Sorts :
      (a1 : IntArray) (re : ℕ)
      → Partitioned a lo hi a1 re
      → (assert (ltb 0 re)
          >> (qsort_fuel fuel a1 lo (re - 1) >>= λ a2. qsort_fuel fuel a2 (re + 1) hi))
        ≡ ok a'
      → Sorts a lo hi a'
  sides-Sorts a1 re p e =
      let (_, pos, e1) = bind-ok (assert (ltb 0 re)) _ e in
      let (a2, left, right) = bind-ok (qsort_fuel fuel a1 lo (re - 1)) _ e1 in
      let first : Sorts a1 lo (re - 1) a2 = ih a1 lo (re - 1) a2 (omega (arith, p)) left in
      split-Sorts (ground arith) p first (ih a2 (re + 1) hi a' (omega (arith, p, first)) right)

  parts-Sorts :
      (partition a lo hi >>= λ (a1, re).
      assert (ltb 0 re)
      >> (qsort_fuel fuel a1 lo (re - 1) >>= λ a2. qsort_fuel fuel a2 (re + 1) hi))
        ≡ ok a'
      → Sorts a lo hi a'
  parts-Sorts e =
      let (pair, split, rest) = bind-ok (partition a lo hi) _ e in
      sides-Sorts pair.0 pair.1 (partition_lem a lo hi le inside split) rest

-- At any depth: what `qsort` returns is sorted.
pub qsort_fuel-Sorts :
    (fuel : ℕ) (a : IntArray) (lo hi : ℕ) (a' : IntArray)
    → hi < a.size
    → qsort_fuel fuel a lo hi ≡ ok a'
    → Sorts a lo hi a'
unfolding qsort_fuel
qsort_fuel-Sorts zero a lo hi a' inside e = cc
qsort_fuel-Sorts (suc fuel) a lo hi a' inside e = elim (Bool-cases (ltb hi lo)) [
  | inl reversed ↦ ground arith
  | inr forward ↦ elim (Bool-cases (lo == hi)) [
    | inl one ↦ subst (Sorts a lo hi) (ground arith) (one-Sorts a lo hi (ground arith))
    | inr more ↦ elim (Bool-cases (lo + 1 == hi)) [
      | inl two ↦ pair-Sorts a lo hi inside (ground arith) (ground arith)
      | inr three ↦
          parts-Sorts fuel (qsort_fuel-Sorts fuel) a lo hi a' (ground arith) inside (ground arith)
    ]
  ]
]

increase_from-sorted :
    (rounds : ℕ) (a : IntArray) (i : ℕ)
    → ((k : ℕ) → i ≤ k → k < i + rounds → a.cell k ≤ℤ a.cell (k + 1))
    → i + rounds < a.size
    → is_increase_from rounds a i ≡ ok true
unfolding is_increase_from
increase_from-sorted zero a i h inside = refl
increase_from-sorted (suc rounds) a i h inside = ground (
  arith,
  h i,
  increase_from-sorted rounds a (i + 1) (λ k l m. h k (omega arith) (omega arith)) (omega arith),
)

-- If `qsort` returns, the range is in increasing order and holds the values that it held; the cells
-- outside it have not changed.
pub qsort-Sorts :
    (a : IntArray) (lo hi : ℕ) {a' : IntArray}
    → hi < a.size
    → qsort a lo hi ≡ ok a'
    → Sorts a lo hi a'
unfolding qsort
qsort-Sorts a lo hi {a'} inside e = qsort_fuel-Sorts (hi - lo + 1) a lo hi a' inside e

-- What `qsort` returns passes the check that `main` makes of it.
pub is_increase-qsort :
    (a : IntArray) (lo hi : ℕ) {a' : IntArray}
    → hi < a.size
    → qsort a lo hi ≡ ok a'
    → is_increase a' lo hi ≡ ok true
unfolding is_increase
is_increase-qsort a lo hi {a'} inside e =
    let s = qsort-Sorts a lo hi inside e in
    increase_from-sorted (hi - lo) a' lo (λ k l h. s.sorted k (k + 1) l (omega arith) (omega arith))
      (omega (arith, s))
