-- ===== src/Prelude/Family.antt =====
-- Families `ℕ → A` (array cells, threads): a write at one index, and a weight summed below a bound.
use Prim.Native.Nat.{ℕ, zero, suc, ◌+◌, ◌≤◌, ◌<◌}
use mathlib.Core.Path.{◌≡◌, refl}
use native.Mathlib.Decide.{dec_lt}
use native.Mathlib.Omega.{arith}
use serversidedev.Prelude.Tests.{◌==◌, if◌then◌else◌}

abbrev pub update {ℓ} : {A : Type ℓ} → (ℕ → A) → ℕ → A → ℕ → A
update family k new j = if k == j then new else family j

module _ {ℓ} {A : Type ℓ} (weight : A → ℕ) where
  unfoldable pub total : ℕ → (ℕ → A) → ℕ
  total zero family = 0
  total (suc bound) family = weight (family bound) + total bound family

  -- A write at or past the bound leaves the sum alone.
  pub total-update_past :
      (bound : ℕ) (family : ℕ → A) (k : ℕ) (new : A)
      → bound ≤ k
      → total bound (update family k new) ≡ total bound family
  unfolding total
  total-update_past zero family k new h = refl
  total-update_past (suc bound) family k new h =
      ground (arith, total-update_past bound family k new)

  -- A write below the bound exchanges one weight for another.
  pub total-update :
      (bound : ℕ) (family : ℕ → A) (k : ℕ) (new : A)
      → k < bound
      → total bound (update family k new) + weight (family k) ≡ total bound family + weight new
  unfolding total
  total-update zero family k new h = absurd (omega arith)
  total-update (suc bound) family k new h = elim (dec_lt k bound) [
    | yes below ↦ ground (arith, total-update bound family k new)
    | no top ↦ ground (arith, total-update_past bound family k new)
  ]

  pub le-total :
      (bound : ℕ) (family : ℕ → A) (k : ℕ) → k < bound → weight (family k) ≤ total bound family
  unfolding total
  le-total zero family k h = absurd (omega arith)
  le-total (suc bound) family k h = elim (dec_lt k bound) [
    | yes below ↦ omega (arith, le-total bound family k below)
    | no top ↦ ground arith
  ]

  pub total-eq-zero :
      (bound : ℕ) (family : ℕ → A)
      → ((k : ℕ) → k < bound → weight (family k) ≡ 0)
      → total bound family ≡ 0
  unfolding total
  total-eq-zero zero family h = refl
  total-eq-zero (suc bound) family h =
      omega (arith, h bound (omega arith), total-eq-zero bound family (λ k lt. h k (omega arith)))

  -- A positive sum has new positive term.
  pub total_witness :
      (bound : ℕ) (family : ℕ → A)
      → 0 < total bound family
      → (k : ℕ) × (k < bound) × (0 < weight (family k))
  unfolding total
  total_witness zero family h = absurd (omega arith)
  total_witness (suc bound) family h = elim (dec_lt 0 (weight (family bound))) [
    | yes here ↦ (bound, omega arith, here)
    | no none_here ↦
        let (k, lt, w) = total_witness bound family (omega arith) in (k, omega arith, w)
  ]

  -- Two different terms are both in the sum.
  pub two-le-total :
      (bound : ℕ) (family : ℕ → A) (k j : ℕ)
      → k < j
      → j < bound
      → weight (family k) + weight (family j) ≤ total bound family
  unfolding total
  two-le-total zero family k j h lt = absurd (omega arith)
  two-le-total (suc bound) family k j h lt = elim (dec_lt j bound) [
    | yes below ↦ omega (arith, two-le-total bound family k j h below)
    | no top ↦ ground (arith, le-total bound family k (omega arith))
  ]
