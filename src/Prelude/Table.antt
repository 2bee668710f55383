-- ===== src/Prelude/Table.antt =====
-- A table of descriptors, for worlds in which the laws of the system calls hold.
use Prim.Native.Nat.{ℕ, zero, suc, ◌+◌}
use mathlib.Core.Path.{◌≡◌, refl}
use mathlib.Core.Bool.{Bool, true, false}
use mathlib.Core.List.{List, [], ◌∷◌, ◌++◌}
use native.Mathlib.Omega.{arith}
use serversidedev.Prelude.Int.{ℤ, pos, negsuc}
use serversidedev.Prelude.Lists.{ind, length}

-- Which descriptors are open, from 0.
abbrev pub Table : Type 0
Table = List Bool

abbrev pub has : Table → ℕ → Bool
has [] k = false
has (x ∷ xs) zero = x
has (x ∷ xs) (suc k) = has xs k

abbrev pub clear_at : Table → ℕ → Table
clear_at [] k = []
clear_at (x ∷ xs) zero = false ∷ xs
clear_at (x ∷ xs) (suc k) = x ∷ clear_at xs k

abbrev pub size : Table → ℕ
size [] = 0
size (x ∷ xs) = ind x + size xs

abbrev pub is_open : Table → ℤ → Bool
is_open t (pos k) = has t k
is_open t (negsuc k) = false

abbrev pub closed : Table → ℤ → Table
closed t (pos k) = clear_at t k
closed t (negsuc k) = t

pub has-end :
    (t : Table)
    → (has (t ++ (true ∷ [])) (length t) ≡ true) × (size (t ++ (true ∷ [])) ≡ suc (size t))
has-end [] = (refl, refl)
has-end (x ∷ t) = ((has-end t).0, omega (arith, (has-end t).1))

pub clear_lem : (t : Table) (k : ℕ) → has (clear_at t k) k ≡ false
clear_lem [] k = refl
clear_lem (x ∷ t) zero = refl
clear_lem (x ∷ t) (suc k) = clear_lem t k

pub size-clear_at : (t : Table) (k : ℕ) → has t k ≡ true → size t ≡ suc (size (clear_at t k))
size-clear_at [] k h = cc
size-clear_at (x ∷ t) zero h = rw h (omega arith)
size-clear_at (x ∷ t) (suc k) h = omega (arith, size-clear_at t k h)

pub frees : (t : Table) (fd : ℤ) → is_open t fd ≡ true → size t ≡ suc (size (closed t fd))
frees t (pos k) h = size-clear_at t k h
frees t (negsuc k) h = cc

pub closes : (t : Table) (fd : ℤ) → is_open (closed t fd) fd ≡ false
closes t (pos k) = clear_lem t k
closes t (negsuc k) = refl
