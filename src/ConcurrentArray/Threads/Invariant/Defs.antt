-- ===== src/ConcurrentArray/Threads/Invariant/Defs.antt =====
-- The invariant of the producers and consumers, and how one thread's move shifts its sums.
use serversidedev.Prelude.{
  ℕ, ◌+◌, ◌≤◌, ◌<◌, ◌≡◌, ◌⊎◌, Bool, true, false, none, some, List, ltb, ◌==◌, length, count, ind,
  update, total, total-update,
}
use serversidedev.ConcurrentArray.Queue.{Holds}
use serversidedev.ConcurrentArray.Threads.{
  Shared, Pc, p_test, p_swap, p_append, p_sleep, p_exit, c_swap, c_get, c_sleep, c_print, c_exit,
  crashed, Signal, produced, consumed,
}

abbrev pub appending : Pc → ℕ
appending (p_append t) = 1
appending p = 0

abbrev pub p_sleeping : Pc → ℕ
p_sleeping (p_sleep t) = 1
p_sleeping p = 0

abbrev pub getting : Pc → ℕ
getting c_get = 1
getting p = 0

abbrev pub c_sleeping : Pc → ℕ
c_sleeping c_sleep = 1
c_sleeping p = 0

abbrev pub printing : Pc → ℕ
printing (c_print t) = 1
printing p = 0

-- Is the product `v` in the hands of the thread?
abbrev pub carries : ℕ → Pc → ℕ
carries v (p_append t) = ind (t == v)
carries v (p_sleep t) = ind (t == v)
carries v (c_print (some t)) = ind (t == v)
carries v p = 0

abbrev pub is_consumer : Pc → Bool
is_consumer p_test = false
is_consumer (p_swap c) = false
is_consumer (p_append t) = false
is_consumer (p_sleep t) = false
is_consumer p_exit = false
is_consumer p = true

-- What the place and the locals of a thread say of the globals.
abbrev pub IsFine : Shared → Pc → Type 0
IsFine m (p_swap c) = c < m.gproduct_num
IsFine m p_exit = m.gproduce_cnt ≡ m.gproduct_num
IsFine m (c_swap c) = c < m.gproduct_num
IsFine m (c_print none) = ⊥
IsFine m c_exit = m.gconsume_cnt ≡ m.gproduct_num
IsFine m crashed = ⊥
IsFine m p = Unit

-- A signal that is still to be delivered stands in for one thread that tries again.
abbrev pub for_producer : Signal → ℕ
for_producer consumed = 1
for_producer sig = 0

abbrev pub for_consumer : Signal → ℕ
for_consumer produced = 1
for_consumer sig = 0

-- Of `n` threads the first `k` are consumers; `goal` products are to be made; `q` is what the ring holds; `sig` is on its way.
pub record Inv (n k goal : ℕ) (sig : Signal) (m : Shared) (pc : ℕ → Pc) (q : List ℕ) : Type 0 where
  pub holds : Holds m.ca q
  pub aim : m.gproduct_num ≡ goal
  pub p_le : m.gproduce_cnt ≤ m.gproduct_num
  pub c_le : m.gconsume_cnt ≤ m.gproduct_num
  pub made :
      length m.printed
        + length q
        + total printing n pc
        + total appending n pc
        + total p_sleeping n pc
      ≡ m.gproduce_cnt
  pub claimed :
      length m.printed + total printing n pc + total getting n pc + total c_sleeping n pc
      ≡ m.gconsume_cnt
  pub each :
      (v : ℕ) → count v m.printed + count v q + total (carries v) n pc ≡ ind (ltb v m.gproduce_cnt)
  pub p_room :
      0 < total p_sleeping n pc → m.ca.size ≤ length q + total appending n pc + for_producer sig
  pub c_room : 0 < total c_sleeping n pc → length q ≤ total getting n pc + for_consumer sig
  pub fine : (i : ℕ) → IsFine m (pc i)
  pub roles : (i : ℕ) → is_consumer (pc i) ≡ ltb i k

-- What a step from `p` to `p'` must keep, said of the moving thread, the ring and the counters alone.
pub record Balance (m : Shared) (q : List ℕ) (p : Pc) (m' : Shared) (q' : List ℕ) (p' : Pc)
    (sig : Signal) : Type 0 where
  pub holds : Holds m'.ca q'
  pub aim_kept : m'.gproduct_num ≡ m.gproduct_num
  pub size_kept : m'.ca.size ≡ m.ca.size
  pub p_le : m'.gproduce_cnt ≤ m'.gproduct_num
  pub c_le : m'.gconsume_cnt ≤ m'.gproduct_num
  pub made :
      length m'.printed + length q' + printing p' + appending p' + p_sleeping p' + m.gproduce_cnt
      ≡ length m.printed + length q + printing p + appending p + p_sleeping p + m'.gproduce_cnt
  pub claimed :
      length m'.printed + printing p' + getting p' + c_sleeping p' + m.gconsume_cnt
      ≡ length m.printed + printing p + getting p + c_sleeping p + m'.gconsume_cnt
  pub each :
      (v : ℕ)
      → count v m'.printed + count v q' + carries v p' + ind (ltb v m.gproduce_cnt)
        ≡ count v m.printed + count v q + carries v p + ind (ltb v m'.gproduce_cnt)
  pub p_room :
      ((p_sleeping p' ≤ p_sleeping p)
        × (length q + appending p ≤ length q' + appending p' + for_producer sig))
      ⊎ (m.ca.size ≤ length q')
  pub c_room :
      ((c_sleeping p' ≤ c_sleeping p)
        × (length q' + getting p ≤ length q + getting p' + for_consumer sig))
      ⊎ (length q' ≡ 0)
  pub fine : IsFine m' p'
  pub others : (r : Pc) → IsFine m r → IsFine m' r
  pub role : is_consumer p' ≡ is_consumer p

-- What changes in the sums when thread `i` goes from `p` to `p'`.
pub record Shift (n : ℕ) (pc pc' : ℕ → Pc) (p p' : Pc) : Type 0 where
  pub at_appending : total appending n pc' + appending p ≡ total appending n pc + appending p'
  pub at_p_sleeping : total p_sleeping n pc' + p_sleeping p ≡ total p_sleeping n pc + p_sleeping p'
  pub at_getting : total getting n pc' + getting p ≡ total getting n pc + getting p'
  pub at_c_sleeping : total c_sleeping n pc' + c_sleeping p ≡ total c_sleeping n pc + c_sleeping p'
  pub at_printing : total printing n pc' + printing p ≡ total printing n pc + printing p'
  pub at_carries :
      (v : ℕ) → total (carries v) n pc' + carries v p ≡ total (carries v) n pc + carries v p'

pub Shift-update :
    (n : ℕ) (pc : ℕ → Pc) (i : ℕ) (p p' : Pc) → i < n → pc i ≡ p → Shift n pc (update pc i p') p p'
Shift-update n pc i p p' lt e = rw (← e) (record {
  at_appending = total-update appending n pc i p' lt;
  at_p_sleeping = total-update p_sleeping n pc i p' lt;
  at_getting = total-update getting n pc i p' lt;
  at_c_sleeping = total-update c_sleeping n pc i p' lt;
  at_printing = total-update printing n pc i p' lt;
  at_carries = λ v. total-update (carries v) n pc i p' lt;
})
