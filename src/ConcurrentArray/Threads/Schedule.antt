-- ===== src/ConcurrentArray/Threads/Schedule.antt =====
-- Reachable states by evaluation: threads are picked in a given order, and a signal wakes the first
-- sleeper.
use mathlib.Core.List.{foldl}
use native.Mathlib.Decide.{dec_lt, ℕ_discrete}
use serversidedev.Prelude.{
  ℕ, zero, suc, ◌<◌, ◌≡◌, refl, ◌⊎◌, inl, inr, Bool, true, false, List, arith, update, total,
}
use serversidedev.ConcurrentArray.Threads.{
  Pc, Signal, sleeps, Wake, one, nobody, exec, runnable, Machine, run, Args, thread_num, Reach,
  started, stepped,
}

-- Some sleeper below `n`, or the proof that there is none.
sleeper :
    (sig : Signal) (n : ℕ) (pc : ℕ → Pc)
    → ((j : ℕ) × (j < n) × (sleeps sig (pc j) ≡ 1)) ⊎ (total (sleeps sig) n pc ≡ 0)
unfolding total ℕ_discrete
sleeper sig zero pc = inr refl
sleeper sig (suc n) pc = elim (sleeper sig n pc) [
  | inl (j, lt, e) ↦ inl (j, omega arith, e)
  | inr none_below ↦ elim (ℕ_discrete (sleeps sig (pc n)) 1) [
    | yes e ↦ inl (n, omega arith, e)
    | no ne ↦ inr (ground arith)
  ]
]

wake : (sig : Signal) (n : ℕ) (pc : ℕ → Pc) → (pc' : ℕ → Pc) × Wake n sig pc pc'
unfolding sleeper
wake sig n pc = elim (sleeper sig n pc) [
  | inl (j, lt, e) ↦ (_, one j lt e)
  | inr none ↦ (pc, nobody none)
]

pub record Run (a : Args) : Type 0 where
  pub last : Machine
  pub reach : Reach a last

turn : {a : Args} → Run a → ℕ → Run a
unfolding wake dec_lt
turn {a} r i = elim (dec_lt i (thread_num a)) [
  | yes lt ↦ move (runnable (r.last.pc i)) refl lt
  | no _ ↦ r
]
  where
    move : (b : Bool) → runnable (r.last.pc i) ≡ b → i < thread_num a → Run a
    move true e lt = record {
      last = _;
      reach = stepped r.reach (
          run i lt e
            (wake (exec r.last.mem (r.last.pc i)).signal (thread_num a)
              (update r.last.pc i (exec r.last.mem (r.last.pc i)).pc)).1);
    }
    move false e lt = r

unfoldable pub play : (a : Args) → List ℕ → Run a
unfolding turn
play a = foldl turn (record { last = _; reach = started })
