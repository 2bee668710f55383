-- ===== src/Prelude/FdOutcome.antt =====
-- How C code comes out that uses `fd_set`s: an operation on a set may get a descriptor that no set can have.
use serversidedev.Prelude.Int.{ℤ}
use serversidedev.Prelude.Served.{Served, goes_on, exits}

pub data FdOutcome {ℓ} (A : Type ℓ) : Type ℓ where
  fine : A → FdOutcome A
  outside : (fd : ℤ) → FdOutcome A  -- what it does then is undefined

infixl 5 ◌>>=◌
abbrev pub ◌>>=◌ {ℓ κ} : {A : Type ℓ} {B : Type κ} → FdOutcome A → (A → FdOutcome B) → FdOutcome B
fine a >>= f = f a
outside fd >>= f = outside fd

-- What is done next, unless the process has ended.
unfoldable pub and_then_fd :
    {World : Type 0} → Served World → (World → FdOutcome (Served World)) → FdOutcome (Served World)
and_then_fd (goes_on w) next = next w
and_then_fd (exits exitstatus w) next = fine (exits exitstatus w)
