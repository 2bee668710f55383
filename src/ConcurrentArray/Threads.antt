-- ===== src/ConcurrentArray/Threads.antt =====
-- `produce_thread`, `consume_thread` and the threads that `main` starts, in pthread/concurrent_array.cpp.
-- A thread goes from one access of shared memory to the next; what a lock protects is one step.
pub mod Invariant
pub mod Safety
mod Schedule
mod Tests
use serversidedev.Prelude.{
  ℕ, ◌+◌, ◌<◌, ◌≡◌, Bool, true, false, Option, none, some, List, [], ◌∷◌, ◌++◌, ltb, leb, ◌==◌,
  if◌then◌else◌, update, total,
}
use serversidedev.ConcurrentArray.{
  ConcurrentArray, init, append, Appended, rejected, aborts, stored, get, Got, took,
}

-- The globals, and what stdout has received. A counter is an `int`, and stays below `gproduct_num`.
pub record Shared : Type 0 where
  pub ca : ConcurrentArray
  pub gproduce_cnt : ℕ
  pub gconsume_cnt : ℕ
  pub gproduct_num : ℕ
  pub printed : List ℕ

-- Where a thread stands, with its live locals.
pub data Pc : Type 0 where
  p_test : Pc  -- `while((cnt_cache=gproduce_cnt)<gproduct_num)`
  p_swap : (cnt_cache : ℕ) → Pc  -- before the compare-and-swap
  p_append : (t : ℕ) → Pc  -- in `append`, about to take the lock and test `is_full`
  p_sleep : (t : ℕ) → Pc  -- in `append`, asleep on `consume_cond`
  p_exit : Pc
  c_test : Pc
  c_swap : (cnt_cache : ℕ) → Pc
  c_get : Pc  -- in `get`, about to take the lock and test `is_empty`
  c_sleep : Pc  -- in `get`, asleep on `produce_cond`
  c_print : (t : Option ℕ) → Pc  -- before `*t`
  c_exit : Pc
  crashed : Pc  -- a failed assertion, or `*t` at NULL

-- The condition variable that a step signals.
pub data Signal : Type 0 where
  quiet produced consumed : Signal

pub record Effect : Type 0 where
  pub mem : Shared
  pub pc : Pc
  pub signal : Signal

abbrev pub goes : Shared → Pc → Effect
goes m p = record { mem = m; pc = p; signal = quiet }

appended : Shared → ℕ → Appended → Effect
appended m t rejected = goes m p_test
appended m t Appended.waits = goes m (p_sleep t)
appended m t aborts = goes m crashed
appended m t (stored pos ca) = record { mem = record m { ca = ca }; pc = p_test; signal = produced }

got : Shared → Got → Effect
got m Got.waits = goes m c_sleep
got m (took t ca) = record { mem = record m { ca = ca }; pc = c_print t; signal = consumed }

-- One step of a thread. A thread that sleeps or has ended makes none.
pub exec : Shared → Pc → Effect
unfolding appended got
exec m p_test =
    if ltb m.gproduce_cnt m.gproduct_num then goes m (p_swap m.gproduce_cnt) else goes m p_exit
exec m (p_swap c) =
    if m.gproduce_cnt == c
    then goes (record m { gproduce_cnt = c + 1 }) (p_append c)
    else goes m p_test
exec m (p_append t) = appended m t (append m.ca (some t))
exec m c_test =
    if ltb m.gconsume_cnt m.gproduct_num then goes m (c_swap m.gconsume_cnt) else goes m c_exit
exec m (c_swap c) =
    if m.gconsume_cnt == c then goes (record m { gconsume_cnt = c + 1 }) c_get else goes m c_test
exec m c_get = got m (get m.ca)
exec m (c_print none) = goes m crashed
exec m (c_print (some v)) = goes (record m { printed = m.printed ++ (v ∷ []) }) c_test
exec m p = goes m p

abbrev pub runnable : Pc → Bool
runnable (p_sleep t) = false
runnable p_exit = false
runnable c_sleep = false
runnable c_exit = false
runnable crashed = false
runnable p = true

-- A thread that wakes takes the lock again and repeats its test.
abbrev pub woken : Pc → Pc
woken (p_sleep t) = p_append t
woken c_sleep = c_get
woken p = p

-- Does a thread sleep on the condition variable of the signal?
abbrev pub sleeps : Signal → Pc → ℕ
sleeps produced c_sleep = 1
sleeps consumed (p_sleep t) = 1
sleeps sig p = 0

-- `pthread_cond_signal` wakes a sleeper of its condition variable, if there is one.
pub data Wake (n : ℕ) (sig : Signal) (pc : ℕ → Pc) : (ℕ → Pc) → Type 0 where
  one : (j : ℕ) → j < n → sleeps sig (pc j) ≡ 1 → Wake n sig pc (update pc j (woken (pc j)))
  nobody : total (sleeps sig) n pc ≡ 0 → Wake n sig pc pc

pub record Machine : Type 0 where
  pub mem : Shared
  pub pc : ℕ → Pc

-- Any of the `n` threads moves, or one wakes with no signal for it, as pthreads allow.
pub data Step (n : ℕ) (s : Machine) : Machine → Type 0 where
  run :
      (i : ℕ) {pc : ℕ → Pc}
      → i < n
      → runnable (s.pc i) ≡ true
      → Wake n (exec s.mem (s.pc i)).signal (update s.pc i (exec s.mem (s.pc i)).pc) pc
      → Step n s (record { mem = (exec s.mem (s.pc i)).mem; pc = pc })
  spurious :
      (i : ℕ) → i < n → Step n s (record { mem = s.mem; pc = update s.pc i (woken (s.pc i)) })

-- The arguments of `main`.
pub record Args : Type 0 where
  pub buff_size : ℕ
  pub produce_num : ℕ
  pub consume_num : ℕ
  pub product_num : ℕ

abbrev pub thread_num : Args → ℕ
thread_num a = a.produce_num + a.consume_num

-- `main` before the first thread moves: thread `i` produces if `i>=gconsume_num`.
pub start : Args → Machine
start a = record {
  mem = record {
    ca = init a.buff_size;
    gproduce_cnt = 0;
    gconsume_cnt = 0;
    gproduct_num = a.product_num;
    printed = [];
  };
  pc = λ i. if leb a.consume_num i then p_test else c_test;
}

pub data Reach (a : Args) : Machine → Type 0 where
  started : Reach a (start a)
  stepped : {s t : Machine} → Reach a s → Step (thread_num a) s t → Reach a t
