-- ===== src/Io/Conns/Dialing.antt =====
-- The loop of `thread_func` of io/csc_echo_epoll.cpp that connects, in threads that share the counter `gcnt`.
mod Tests
use serversidedev.Prelude.{
  ℕ, suc, ◌+◌, ◌≡◌, refl, Option, none, some, List, [], ◌∷◌, ◌++◌, arith, ltb, ◌==◌, ind, count,
  count-append, total, total-update, total-eq-zero,
}
use serversidedev.Prelude.Int.{ℤ}
use serversidedev.Prelude.Interleave.{Threads, turn, Reaches, Reaches-keeps}
use serversidedev.Io.Conns.{FdId}

-- A thread has the results of its calls of `socket_connect` to come, the descriptor or a failure, and its connections so far.
pub data Pc : Type 0 where
  dial : (calls : List (Option ℤ)) (fds : List FdId) → Pc  -- `socket_connect(fds[i].fd,opport)`
  number : (fd : ℤ) (calls : List (Option ℤ)) (fds : List FdId) → Pc  -- `cnt=__sync_fetch_and_add(&gcnt,1)`
  connected : (fds : List FdId) → Pc
  ended : (fds : List FdId) → Pc  -- `pthread_exit((void*)(long)1)`

-- `FD_RD_OPEN|FD_WR_OPEN` is `2^0|2^1`, that is 2|3.
abbrev pub both_open : ℕ
both_open = 3

unfoldable pub exec : ℕ → Pc → ℕ × Pc
exec gcnt (dial [] fds) = (gcnt, connected fds)
exec gcnt (dial (none ∷ calls) fds) = (gcnt, ended fds)
exec gcnt (dial (some fd ∷ calls) fds) = (gcnt, number fd calls fds)
exec gcnt (number fd calls fds) =
    (gcnt + 1, dial calls (fds ++ (record { fd = fd; id = gcnt; status = both_open } ∷ [])))
exec gcnt (connected fds) = (gcnt, connected fds)
exec gcnt (ended fds) = (gcnt, ended fds)

-- `main` when its threads begin; each has its calls.
unfoldable pub start : (ℕ → List (Option ℤ)) → Threads ℕ Pc
start calls = record { mem = 0; pc = λ i. dial (calls i) [] }

abbrev ids : List FdId → List ℕ
ids [] = []
ids (c ∷ cs) = c.id ∷ ids cs

abbrev connections : Pc → List FdId
connections (dial calls fds) = fds
connections (number fd calls fds) = fds
connections (connected fds) = fds
connections (ended fds) = fds

-- How many connections of a thread have the number.
abbrev pub numbered : ℕ → Pc → ℕ
numbered v p = count v (ids (connections p))

ids-append :
    (v : ℕ) (cs ds : List FdId) → count v (ids (cs ++ ds)) ≡ count v (ids cs) + count v (ids ds)
ids-append v [] ds = omega arith
ids-append v (c ∷ cs) ds = omega (arith, ids-append v cs ds)

-- One more number has been given, and one more connection has one.
exec-numbered :
    (v gcnt : ℕ) (p : Pc)
    → numbered v (exec gcnt p).1 + ind (ltb v gcnt) ≡ numbered v p + ind (ltb v (exec gcnt p).0)
unfolding exec
exec-numbered v gcnt (dial [] fds) = refl
exec-numbered v gcnt (dial (none ∷ calls) fds) = refl
exec-numbered v gcnt (dial (some fd ∷ calls) fds) = refl
exec-numbered v gcnt (number fd calls fds) =
    ground (arith, ids-append v fds (record { fd = fd; id = gcnt; status = both_open } ∷ []))
exec-numbered v gcnt (connected fds) = refl
exec-numbered v gcnt (ended fds) = refl

start-numbered :
    (n v : ℕ) (calls : ℕ → List (Option ℤ))
    → total (numbered v) n (start calls).pc ≡ ind (ltb v (start calls).mem)
unfolding start
start-numbered n v calls =
    omega (arith, total-eq-zero (numbered v) n (start calls).pc (λ k lt. refl), none_below v)
  where
    none_below : (v : ℕ) → ind (ltb v 0) ≡ 0
    none_below v = ground arith

-- With any number of threads of the epoll client that connect, in any interleaving and whatever
-- `socket_connect` gives them, each number below `gcnt` is that of one connection, and no other
-- number is that of any.
pub ids_unique :
    {n : ℕ} (calls : ℕ → List (Option ℤ)) {s : Threads ℕ Pc}
    → Reaches exec n (start calls) s
    → (v : ℕ) → total (numbered v) n s.pc ≡ ind (ltb v s.mem)
ids_unique {n} calls {s} r v =
    Reaches-keeps exec n (λ s. total (numbered v) n s.pc ≡ ind (ltb v s.mem))
      (λ s i lt h. omega (
        arith,
        total-update (numbered v) n s.pc i (exec s.mem (s.pc i)).1 lt,
        exec-numbered v s.mem (s.pc i),
      ))
      (start-numbered n v calls) r
