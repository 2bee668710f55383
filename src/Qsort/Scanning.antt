-- ===== src/Qsort/Scanning.antt =====
-- The loop of `partition` in basic/qsort.cpp: it stays in its range, rearranges it, and ends.
use native.Mathlib.Decide.{dec_lt}
use serversidedev.Prelude.{
  ℕ, zero, suc, ◌+◌, ◌-◌, ◌*◌, ◌≤◌, ◌<◌, ◌≡◌, ◌⊎◌, true, false, ◌&&◌, arith, ◌==◌, if◌then◌else◌,
  ind, update, total, total-update,
}
use serversidedev.Prelude.Int.{ℤ, ◌≤ℤ◌, ltb_ℤ, leb_ℤ, eq_ℤ}
use serversidedev.Prelude.Outcome.{ok}
use serversidedev.Qsort.{IntArray, swap, Scan, scan_step, scan}

-- How often a value stands in an array.
abbrev pub occurs : ℤ → IntArray → ℕ
occurs v a = total (λ x. ind (eq_ℤ x v)) a.size a.cell

-- The array with two cells exchanged.
abbrev pub exchange : IntArray → ℕ → ℕ → IntArray
exchange a i j = record a { cell = update (update a.cell i (a.cell j)) j (a.cell i) }

pub swap-eq-exchange :
    (a : IntArray) (i j : ℕ) → i < a.size → j < a.size → swap a i j ≡ ok (exchange a i j)
unfolding swap
swap-eq-exchange a i j hi hj = ground arith

pub occurs-exchange :
    (v : ℤ) (a : IntArray) (i j : ℕ)
    → i < a.size
    → j < a.size
    → occurs v (exchange a i j) ≡ occurs v a
occurs-exchange v a i j hi hj = ground (
  arith,
  total-update (λ x. ind (eq_ℤ x v)) a.size a.cell i (a.cell j) hi,
  total-update (λ x. ind (eq_ℤ x v)) a.size (update a.cell i (a.cell j)) j (a.cell i) hj,
)

-- Each value in the range of `a'` stood in the range of `a`.
abbrev pub From : ℕ → ℕ → IntArray → IntArray → Type 0
From lo hi a a' = (k : ℕ) → lo ≤ k → k ≤ hi → (j : ℕ) × (lo ≤ j) × (j ≤ hi) × (a'.cell k ≡ a.cell j)

pub From-exchange :
    {lo hi : ℕ} (a a' : IntArray) (i j : ℕ)
    → lo ≤ i
    → i ≤ hi
    → lo ≤ j
    → j ≤ hi
    → From lo hi a a'
    → From lo hi a (exchange a' i j)
From-exchange {lo} {hi} a a' i j li hi_i lj hi_j from k l h =
    let (o, lo_o, o_hi, e) = from source (ground arith) (ground arith) in
    (o, lo_o, o_hi, ground arith)
  where
    source : ℕ
    source = if j == k then i else if i == k then j else k

-- What a round makes of the variables, where it stays inside the array.
abbrev advance : ℤ → Scan → Scan
advance pivot s =
    if leb_ℤ (s.array.cell s.left) pivot
    then record s { left = s.left + 1 }
    else if leb_ℤ pivot (s.array.cell s.right)
    then record s { right = s.right - 1 }
    else record s { array = exchange s.array s.left s.right }

scan_step-eq-advance :
    (pivot : ℤ) (s : Scan)
    → s.left < s.array.size
    → s.right < s.array.size
    → scan_step pivot s ≡ ok (advance pivot s)
unfolding scan_step
scan_step-eq-advance pivot s hl hr = ground arith

-- Cells left of `left` are at most the pivot, cells right of `right` at least; the range holds the
-- values that it held in `a`, and nothing else has changed.
pub record Scanned (a : IntArray) (lo hi : ℕ) (pivot : ℤ) (s : Scan) : Type 0 where
  pub size_kept : s.array.size ≡ a.size
  pub lo_le : lo ≤ s.left
  pub left_le : s.left ≤ s.right
  pub le_hi : s.right ≤ hi
  pub below : (k : ℕ) → lo ≤ k → k < s.left → s.array.cell k ≤ℤ pivot
  pub above : (k : ℕ) → s.right < k → k ≤ hi → pivot ≤ℤ s.array.cell k
  pub outside : (k : ℕ) → (k < lo) ⊎ (hi < k) → s.array.cell k ≡ a.cell k
  pub from : From lo hi a s.array
  pub same : (v : ℤ) → occurs v s.array ≡ occurs v a

-- An exchange is followed by a round that moves `left`.
abbrev pub rounds_left : ℤ → Scan → ℕ
rounds_left pivot s =
    2 * (s.right - s.left)
    + ind (ltb_ℤ pivot (s.array.cell s.left) && ltb_ℤ (s.array.cell s.right) pivot)

module _ {a : IntArray} {lo hi : ℕ} {pivot : ℤ} {s : Scan} (inv : Scanned a lo hi pivot s)
    (inside : hi < a.size) (more : s.left < s.right) where
  open inv use {size_kept, lo_le, left_le, le_hi, below, above, outside, from, same}

  advance-From : From lo hi a (advance pivot s).array
  advance-From =
      elim (leb_ℤ (s.array.cell s.left) pivot)
        as (λ t. From lo hi a (if t then moved else other).array) [
          | true ↦ from
          | false ↦
              elim (leb_ℤ pivot (s.array.cell s.right))
                as (λ t. From lo hi a (if t then drawn else swapped).array) [
                  | true ↦ from
                  | false ↦
                      From-exchange a s.array s.left s.right lo_le (omega arith) (omega arith) le_hi
                        from
                ]
        ]
    where
      moved : Scan
      moved = record s { left = s.left + 1 }

      drawn : Scan
      drawn = record s { right = s.right - 1 }

      swapped : Scan
      swapped = record s { array = exchange s.array s.left s.right }

      other : Scan
      other = if leb_ℤ pivot (s.array.cell s.right) then drawn else swapped

  advance-Scanned : Scanned a lo hi pivot (advance pivot s)
  advance-Scanned = record {
    size_kept = ground arith;
    lo_le = ground arith;
    left_le = ground arith;
    le_hi = ground arith;
    below = λ k h l. ground (arith, below k);
    above = λ k h l. ground (arith, above k);
    outside = λ k h. ground (arith, outside k);
    from = advance-From;
    same = λ v.
        ground
          (arith, same v, occurs-exchange v s.array s.left s.right (omega arith) (omega arith));
  }

  rounds_left-advance : rounds_left pivot (advance pivot s) < rounds_left pivot s
  rounds_left-advance = ground arith

-- With fuel above the measure the loop ends, at `left==right`.
pub scan-ends :
    (fuel : ℕ) {a : IntArray} {lo hi : ℕ} {pivot : ℤ} (s : Scan)
    → Scanned a lo hi pivot s
    → hi < a.size
    → rounds_left pivot s < fuel
    → (s' : Scan) × (scan fuel pivot s ≡ ok s') × Scanned a lo hi pivot s' × (s'.left ≡ s'.right)
unfolding scan
scan-ends zero s inv inside enough = absurd (omega arith)
scan-ends (suc fuel) {pivot = pivot} s inv inside enough = elim (dec_lt s.left s.right) [
  | yes more ↦
      let (s', e, inv', met) =
        scan-ends fuel (advance pivot s) (advance-Scanned inv inside more) inside
          (omega (arith, rounds_left-advance inv inside more)) in
      (
        s',
        ground (arith, scan_step-eq-advance pivot s (omega (arith, inv)) (omega (arith, inv)), e),
        inv',
        met,
      )
  | no stop ↦ (s, ground arith, inv, omega (arith, inv))
]
