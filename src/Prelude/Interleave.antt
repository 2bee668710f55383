-- ===== src/Prelude/Interleave.antt =====
-- Threads that run one function over shared memory, a step at a time and in any order.
use mathlib.Core.List.{List, [], ◌∷◌}
use mathlib.Core.Logic.{dite}
use Prim.Native.Nat.{ℕ, ◌<◌}
use native.Mathlib.Decide.{dec_lt}
use serversidedev.Prelude.Family.{update}

pub record Threads (M P : Type 0) : Type 0 where
  pub mem : M
  pub pc : ℕ → P

module _ {M P : Type 0} (exec : M → P → M × P) where
  -- Thread `i` makes its next step.
  abbrev pub turn : Threads M P → ℕ → Threads M P
  turn s i = record { mem = (exec s.mem (s.pc i)).0; pc = update s.pc i (exec s.mem (s.pc i)).1 }

module _ {M P : Type 0} (exec : M → P → M × P) (bound : ℕ) where
  -- What threads 0 to `bound - 1` can make of a state.
  pub data Reaches (from : Threads M P) : Threads M P → Type 0 where
    at_start : Reaches from from
    next : {s : Threads M P} → Reaches from s → (i : ℕ) → i < bound → Reaches from (turn exec s i)

  -- What every turn keeps holds wherever the threads come.
  pub Reaches-keeps {ℓ} :
      (Keeps : Threads M P → Type ℓ)
      → ((s : Threads M P) (i : ℕ) → i < bound → Keeps s → Keeps (turn exec s i))
      → {from s : Threads M P} → Keeps from
      → Reaches from s
      → Keeps s
  Reaches-keeps Keeps keep h at_start = h
  Reaches-keeps Keeps keep h (next {s = s} r i lt) = keep s i lt (Reaches-keeps Keeps keep h r)

  -- The state after the turns of a schedule. An index that names no thread makes no turn.
  unfoldable pub play : Threads M P → List ℕ → Threads M P
  unfolding dec_lt
  play s [] = s
  play s (i ∷ is) = play (dite (dec_lt i bound) (λ _. turn exec s i) (λ _. s)) is

  pub play-Reaches :
      (from : Threads M P) (is : List ℕ) (s : Threads M P)
      → Reaches from s
      → Reaches from (play s is)
  unfolding play
  play-Reaches from [] s r = r
  play-Reaches from (i ∷ is) s r = play-Reaches from is _ (move (dec_lt i bound))
    where
      move : (d : Dec (i < bound)) → Reaches from (dite d (λ _. turn exec s i) (λ _. s))
      move (yes lt) = next r i lt
      move (no _) = r
