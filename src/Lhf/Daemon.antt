-- ===== src/Lhf/Daemon.antt =====
-- `daemon_init` and `fork_and_reserve_child_process` of lib/lhf.cpp.
pub mod Detached
mod Tests
use serversidedev.Prelude.{
  ℕ, zero, suc, ◌≡◌, ◌≢◌, Bool, true, false, Option, none, some, if◌then◌else◌,
}
use serversidedev.Prelude.Int.{ℤ, pos, ltb_ℤ}
use serversidedev.Prelude.Served.{Served, goes_on, exits, unless_ended}

-- `fork` is what the caller sees, and `forked` the world in which the child begins; `ignore_sighup` is the call of
-- `signal`, `chdir_root` that of `chdir("/")`, `getcwd` says whether it succeeded.
pub record Calls (World : Type 0) : Type 0 where
  pub fork : World → ℤ × World
  pub forked : World → World
  pub setsid : World → ℤ × World
  pub ignore_sighup : World → World
  pub getcwd : World → Bool × World
  pub chdir_root : World → ℤ × World
  pub close : World → ℤ → World
  pub openlog : World → World

module _ {World : Type 0} (calls : Calls World) where
  -- How the caller comes out of it, and where its child goes on, if there is one.
  unfoldable pub fork_and_reserve_child_process : World → Served World × Option World
  fork_and_reserve_child_process w =
      let (re, w1) = calls.fork w in
      (
        if ltb_ℤ re (pos 0)
            then exits 1 w1
            else if ltb_ℤ (pos 0) re
            then exits 0 w1
            else goes_on w1,
        if ltb_ℤ re (pos 0) then none else some (calls.forked w),
      )

  -- The process that is left: the child, or the caller if there is none.
  unfoldable pub reserved : World → Served World
  unfolding fork_and_reserve_child_process
  reserved w = elim (fork_and_reserve_child_process w).1 [
    | some w1 ↦ goes_on w1
    | none ↦ (fork_and_reserve_child_process w).0
  ]

  -- `for(i=3;i<MAXDESCRIPTOR;i++){ close(i); }`, from `i`.
  unfoldable pub close_from : (left i : ℕ) → World → World
  close_from zero i w = w
  close_from (suc left) i w = close_from left (suc i) (calls.close w (pos i))

  unfoldable pub new_session : World → Served World
  new_session w =
      let (re, w1) = calls.setsid w in
      if ltb_ℤ re (pos 0) then exits 1 w1 else goes_on (calls.ignore_sighup w1)

  -- From `getcwd` on.
  unfoldable pub leave_directory : World → Served World
  unfolding close_from
  leave_directory w =
      let (found, w1) = calls.getcwd w in
      let (re, w2) = calls.chdir_root w1 in
      if found
      then (if ltb_ℤ re (pos 0) then exits 1 w2 else goes_on (calls.openlog (close_from 61 3 w2)))
      else exits 1 w1

  -- In the process that is left. It returns 0 wherever it returns.
  unfoldable pub daemon_init : World → Served World
  daemon_init w = unless_ended (reserved w) (λ w1.
      unless_ended (new_session w1) (λ w2. unless_ended (reserved w2) (λ w3. leave_directory w3)))

-- The open descriptors of a process, and whether it leads its session.
pub record Process (World : Type 0) : Type 0 where
  pub is_open : World → ℤ → Bool
  pub is_leader : World → Bool

module _ {World : Type 0} (process : Process World) where
  pub record Same (w w' : World) : Type 0 where
    pub fds : (d : ℤ) → process.is_open w' d ≡ process.is_open w d
    pub session : process.is_leader w' ≡ process.is_leader w

-- What POSIX says of the calls: a child has the descriptors of its parent, and leads no session.
pub record Laws {World : Type 0} (calls : Calls World) (process : Process World) : Type 0 where
  pub forked_open : (w : World) (d : ℤ) → process.is_open (calls.forked w) d ≡ process.is_open w d
  pub forked_leader : (w : World) → process.is_leader (calls.forked w) ≡ false
  pub setsid_open : (w : World) (d : ℤ) → process.is_open (calls.setsid w).1 d ≡ process.is_open w d
  pub ignore_sighup_same : (w : World) → Same process w (calls.ignore_sighup w)
  pub getcwd_same : (w : World) → Same process w (calls.getcwd w).1
  pub chdir_root_same : (w : World) → Same process w (calls.chdir_root w).1
  pub openlog_same : (w : World) → Same process w (calls.openlog w)
  pub close_closes : (w : World) (fd : ℤ) → process.is_open (calls.close w fd) fd ≡ false
  pub close_others :
      (w : World) (fd d : ℤ) → d ≢ fd → process.is_open (calls.close w fd) d ≡ process.is_open w d
  pub close_leader :
      (w : World) (fd : ℤ) → process.is_leader (calls.close w fd) ≡ process.is_leader w
