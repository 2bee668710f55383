-- ===== src/ConcurrentArray/Threads/Safety.antt =====
-- What holds in every reachable state of the threads of pthread/concurrent_array.cpp.
use native.Mathlib.Decide.{dec_lt}
use serversidedev.Prelude.{
  ℕ, ◌≤◌, ◌<◌, ◌≡◌, ◌≢◌, refl, ◌⊎◌, inl, inr, Bool, true, false, List, [], arith, ltb, length,
  count, count-le-length, ind, total, total-eq-zero, total_witness, le-total,
}
use serversidedev.ConcurrentArray.{is_empty}
use serversidedev.ConcurrentArray.Queue.{init-Holds, is_empty-eq}
use serversidedev.ConcurrentArray.Threads.{
  Shared, Pc, p_test, p_exit, c_exit, crashed, c_test, quiet, Machine, Step, run, spurious, Args,
  thread_num, start, Reach, started, stepped, runnable,
}
use serversidedev.ConcurrentArray.Threads.Invariant.{
  Inv, Run-Inv, Wake-Inv, spurious-Inv, appending, p_sleeping, getting, c_sleeping, printing,
  carries, queue_after,
}

abbrev moving : Pc → ℕ
moving p = ind (runnable p)

module _ (a : Args) (w : Pc → ℕ) (at_p : w p_test ≡ 0) (at_c : w c_test ≡ 0) where
  total-start : total w (thread_num a) (start a).pc ≡ 0
  unfolding start
  total-start = total-eq-zero w (thread_num a) (start a).pc (λ i lt. ground arith)

start-Inv :
    (a : Args)
    → 0 < a.buff_size
    → Inv (thread_num a) a.consume_num a.product_num quiet (start a).mem (start a).pc []
unfolding start
start-Inv a pos = record {
  holds = init-Holds a.buff_size pos;
  aim = refl;
  p_le = omega arith;
  c_le = omega arith;
  made = omega (
    arith,
    total-start a printing refl refl,
    total-start a appending refl refl,
    total-start a p_sleeping refl refl,
  );
  claimed = omega (
    arith,
    total-start a printing refl refl,
    total-start a getting refl refl,
    total-start a c_sleeping refl refl,
  );
  each = λ v. ground (arith, total-start a (carries v) refl refl);
  p_room = λ h. absurd (omega (arith, total-start a p_sleeping refl refl));
  c_room = λ h. absurd (omega (arith, total-start a c_sleeping refl refl));
  fine = λ i. ground arith;
  roles = λ i. ground arith;
}

-- The queue that the ring holds, with the invariant.
abbrev Good : Args → Machine → Type 0
Good a s = (q : List ℕ) × Inv (thread_num a) a.consume_num a.product_num quiet s.mem s.pc q

Step-Good : (a : Args) {s t : Machine} → Step (thread_num a) s t → Good a s → Good a t
Step-Good a {s = s} (run i lt r wake) (q, inv) =
    (queue_after s.mem.ca.size q (s.pc i), Wake-Inv (Run-Inv i inv lt r) wake)
Step-Good a (spurious i lt) (q, inv) = (q, spurious-Inv inv i lt)

Reach-Good : {a : Args} {s : Machine} → 0 < a.buff_size → Reach a s → Good a s
Reach-Good {a} pos started = ([], start-Inv a pos)
Reach-Good {a} pos (stepped r st) = Step-Good a st (Reach-Good pos r)

abbrev pub finished : Pc → Bool
finished p_exit = true
finished c_exit = true
finished p = false

-- What the invariant says when threads have ended or sleep.
module _ {n k goal : ℕ} {m : Shared} {pc : ℕ → Pc} {q : List ℕ}
    (inv : Inv n k goal quiet m pc q) where
  open inv use {holds, aim, p_le, c_le, made, claimed, each, p_room, c_room, fine, roles}

  weightless : (w : Pc → ℕ) → ((i : ℕ) → i < n → w (pc i) ≡ 0) → total w n pc ≡ 0
  weightless w h = total-eq-zero w n pc h

  all_consumed : (i : ℕ) → i < k → finished (pc i) ≡ true → m.gconsume_cnt ≡ goal
  all_consumed i lt e = ground (arith, fine i, roles i, aim)

  all_produced : (i : ℕ) → k ≤ i → finished (pc i) ≡ true → m.gproduce_cnt ≡ goal
  all_produced i le e = ground (arith, fine i, roles i, aim)

  ended-empty :
      0 < k
      → 0 < n
      → ((i : ℕ) → i < n → finished (pc i) ≡ true)
      → ((v : ℕ) → count v m.printed ≡ ind (ltb v goal)) × (is_empty m.ca ≡ true)
  ended-empty pos_k pos_n ended = (
    λ v. ground (
      arith,
      each v,
      counts,
      count-le-length v q,
      weightless (carries v) (λ i lt. ground (arith, ended i lt)),
    ),
    rw (is_empty-eq holds) (ground (arith, counts)),
  )
    where
      counts : (length q ≡ 0) × (m.gproduce_cnt ≡ goal)
      counts = omega (
        arith,
        all_consumed 0 pos_k (ended 0 pos_n),
        weightless printing (λ i lt. ground (arith, ended i lt)),
        weightless getting (λ i lt. ground (arith, ended i lt)),
        weightless c_sleeping (λ i lt. ground (arith, ended i lt)),
      )

  module _ (stuck : (i : ℕ) → i < n → runnable (pc i) ≡ false) where
    stuck_counts : (total printing n pc ≡ 0) × (total appending n pc ≡ 0) × (total getting n pc ≡ 0)
    stuck_counts = (
      weightless printing (λ i lt. ground (arith, stuck i lt)),
      weightless appending (λ i lt. ground (arith, stuck i lt)),
      weightless getting (λ i lt. ground (arith, stuck i lt)),
    )

    -- If no thread of a role sleeps, its first thread has ended.
    consumer_ended : 0 < k → 0 < n → total c_sleeping n pc ≡ 0 → m.gconsume_cnt ≡ goal
    consumer_ended pos_k pos_n awake =
        ground (arith, fine 0, roles 0, aim, stuck 0, le-total c_sleeping n pc 0 pos_n)

    producer_ended : k < n → total p_sleeping n pc ≡ 0 → m.gproduce_cnt ≡ goal
    producer_ended some_p awake =
        ground (arith, fine k, roles k, aim, stuck k, le-total p_sleeping n pc k some_p)

    -- A full ring means that no consumer sleeps, so all is printed, and nothing is left in the ring.
    no_p_sleeper : 0 < k → 0 < n → ¬ (0 < total p_sleeping n pc)
    no_p_sleeper pos_k pos_n asleep =
        let full : m.ca.size ≤ length q = omega (arith, p_room asleep, stuck_counts) in
        let awake : total c_sleeping n pc ≡ 0 =
          ground (arith, c_room, stuck_counts, holds.cindex_in) in
        omega (arith, consumer_ended pos_k pos_n awake, stuck_counts, holds.cindex_in)

    -- An empty ring means that no producer sleeps, so all is made and printed.
    no_c_sleeper : 0 < k → k < n → ¬ (0 < total c_sleeping n pc)
    no_c_sleeper pos_k some_p asleep = omega (
      arith,
      no_p_sleeper pos_k (omega arith),
      producer_ended some_p (omega (arith, no_p_sleeper pos_k (omega arith))),
      c_room asleep,
      stuck_counts,
    )

    stuck_ended : 0 < k → k < n → (i : ℕ) → i < n → finished (pc i) ≡ true
    stuck_ended pos_k some_p i lt = ground (
      arith,
      stuck i,
      fine i,
      no_p_sleeper pos_k (omega arith),
      no_c_sleeper pos_k some_p,
      le-total p_sleeping n pc i lt,
      le-total c_sleeping n pc i lt,
    )

-- With a buffer of at least one slot, no interleaving makes a thread fail the assertion of `append`
-- or take a NULL pointer from `get`.
pub no_crash : {a : Args} {s : Machine} → 0 < a.buff_size → Reach a s → (i : ℕ) → s.pc i ≢ crashed
no_crash {s = s} pos r i e = ground (arith, (Reach-Good pos r).1.fine i)

-- When all threads have ended, and there was a consumer, each of the products 0 to
-- `product_num - 1` has been printed once and nothing else, and the assertion at the end of `main`
-- holds: the ring is empty.
pub printed_once :
    {a : Args} {s : Machine}
    → 0 < a.buff_size
    → 0 < a.consume_num
    → Reach a s
    → ((i : ℕ) → i < thread_num a → finished (s.pc i) ≡ true)
    → ((v : ℕ) → count v s.mem.printed ≡ ind (ltb v a.product_num)) × (is_empty s.mem.ca ≡ true)
printed_once pos some_consumer r ended =
    ended-empty (Reach-Good pos r).1 some_consumer (omega arith) ended

-- No deadlock, though a signal wakes a single sleeper: with a buffer, a producer and a consumer,
-- all threads have ended or one of them can move without a spurious wake-up.
pub no_deadlock :
    {a : Args} {s : Machine}
    → 0 < a.buff_size
    → 0 < a.produce_num
    → 0 < a.consume_num
    → Reach a s
    → ((i : ℕ) → i < thread_num a → finished (s.pc i) ≡ true)
      ⊎ ((i : ℕ) × (i < thread_num a) × (runnable (s.pc i) ≡ true))
no_deadlock {a} {s} pos some_p some_c r = elim (dec_lt 0 (total moving (thread_num a) s.pc)) [
  | yes some_run ↦
      let (i, lt, w) = total_witness moving (thread_num a) s.pc some_run in
      inr (i, lt, ground arith)
  | no none_run ↦ inl (
      stuck_ended (Reach-Good pos r).1
        (λ i lt. ground (arith, le-total moving (thread_num a) s.pc i lt)) some_c (omega arith))
]
