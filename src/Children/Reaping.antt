-- ===== src/Children/Reaping.antt =====
-- The signal handlers and loops that wait for children: `sigchld_func` of css_echo.cpp, `func_wait` and
-- `func_waitpid` of sigaction_waitpidS.cpp, `waitchild` and `wait_all_children` of test_fork_and_waitpid.cpp.
pub mod NoZombies
pub mod House
mod Tests
use serversidedev.Prelude.{
  ℕ, zero, suc, ◌+◌, ◌≤◌, ◌<◌, ◌≡◌, Bool, true, false, not, ◌&&◌, List, [], ◌∷◌, ◌==◌,
  if◌then◌else◌,
}
use serversidedev.Prelude.Int.{ℤ, pos, eq_ℤ, ltb_ℤ, leb_ℤ}
use serversidedev.Prelude.Outcome.{Outcome, ok, unfinished, ◌>>=◌}
use serversidedev.Prelude.Served.{Served, goes_on, exits}

-- What a call of `waitpid` or `wait` gives: the pid, the status, and whether `errno` is ECHILD.
pub record Waited (World : Type 0) : Type 0 where
  pub pid : ℤ
  pub status : ℕ
  pub is_echild : Bool
  pub world : World

-- `waitpid(-1,&status,WNOHANG)`, `wait(&status)` and `sleep(1)`.
pub record Calls (World : Type 0) : Type 0 where
  pub waitpid : World → Waited World
  pub wait : World → Waited World
  pub sleep : World → World

-- What a handler leaves: the children that it has reported, newest first, and what the last call gave.
pub record Reaped (World : Type 0) : Type 0 where
  pub reported : List (ℤ × ℕ)
  pub last : Waited World

abbrev pub is_sigchld : ℕ → Bool
is_sigchld signo = signo == 17

module _ {World : Type 0} where
  -- `if(pid<0 && (errno!=ECHILD)){ exit(pid); }`. The exit status is -1, of which 8 bits are kept.
  unfoldable pub exit_on_error : Reaped World → Served (List (ℤ × ℕ) × World)
  exit_on_error r =
      if ltb_ℤ r.last.pid (pos 0) && not r.last.is_echild
      then exits 255 (r.reported, r.last.world)
      else goes_on (r.reported, r.last.world)

module _ {World : Type 0} (calls : Calls World) where
  -- `while((pid=waitpid(-1,&status,WNOHANG))>0){ printf(...); }`
  unfoldable pub reap_loop : ℕ → World → List (ℤ × ℕ) → Outcome (Reaped World)
  reap_loop zero w reported = unfinished
  reap_loop (suc fuel) w reported =
      let got = calls.waitpid w in
      let rest = reap_loop fuel got.world ((got.pid, got.status) ∷ reported) in
      if ltb_ℤ (pos 0) got.pid then rest else ok (record { reported = reported; last = got })

  -- `sigchld_func` of css_echo.cpp.
  unfoldable pub sigchld_func : ℕ → ℕ → World → Outcome (List (ℤ × ℕ) × World)
  unfolding reap_loop
  sigchld_func fuel signo w =
      let reaped = reap_loop fuel w [] in
      if is_sigchld signo then reaped >>= (λ r. ok (r.reported, r.last.world)) else ok ([], w)

  -- What it prints in the end is left out.
  unfoldable pub func_waitpid : ℕ → ℕ → World → Outcome (List (ℤ × ℕ) × World)
  unfolding reap_loop
  func_waitpid fuel signo w =
      let reaped = reap_loop fuel w [] in
      if is_sigchld signo then reaped >>= (λ r. ok (r.reported, r.last.world)) else ok ([], w)

  -- `func_wait`: one call of `wait`.
  unfoldable pub func_wait : ℕ → World → List (ℤ × ℕ) × World
  func_wait signo w =
      let got = calls.wait w in
      if is_sigchld signo then ((got.pid, got.status) ∷ [], got.world) else ([], w)

  unfoldable pub waitchild : ℕ → World → Outcome (Served (List (ℤ × ℕ) × World))
  unfolding reap_loop exit_on_error
  waitchild fuel w = reap_loop fuel w [] >>= (λ r. ok (exit_on_error r))

  -- `sigfunc` of test_fork_and_waitpid.cpp.
  unfoldable pub sigfunc : ℕ → ℕ → World → Outcome (Served (List (ℤ × ℕ) × World))
  unfolding waitchild
  sigfunc fuel signo w =
      let reaped = waitchild fuel w in if is_sigchld signo then reaped else ok (goes_on ([], w))

  -- `while((pid=waitpid(-1,&status,WNOHANG))>=0){ ... }`, which sleeps while no child has ended.
  unfoldable pub wait_loop : ℕ → World → List (ℤ × ℕ) → Outcome (Reaped World)
  wait_loop zero w reported = unfinished
  wait_loop (suc fuel) w reported =
      let got = calls.waitpid w in
      let found = ltb_ℤ (pos 0) got.pid in
      let rest =
        wait_loop fuel (if found then got.world else calls.sleep got.world)
          (if found then (got.pid, got.status) ∷ reported else reported) in
      if leb_ℤ (pos 0) got.pid then rest else ok (record { reported = reported; last = got })

  unfoldable pub wait_all_children : ℕ → World → Outcome (Served (List (ℤ × ℕ) × World))
  unfolding wait_loop exit_on_error
  wait_all_children fuel w = wait_loop fuel w [] >>= (λ r. ok (exit_on_error r))

-- The children of the process: those that have not been waited for, those of them that have ended, and
-- how long the others still run at most; and how many have a pid.
pub record Family (World : Type 0) : Type 0 where
  pub children : World → ℕ
  pub zombies : World → ℕ
  pub running_time : World → ℕ
  pub named : World → ℤ → ℕ

-- How often a pid stands in a list.
abbrev pub count_pid : ℤ → List ℤ → ℕ
count_pid p [] = 0
count_pid p (pid ∷ pids) = (if eq_ℤ p pid then 1 else 0) + count_pid p pids

-- The pids that have been reported.
abbrev pub pids_of : List (ℤ × ℕ) → List ℤ
pids_of [] = []
pids_of ((pid, status) ∷ reported) = pid ∷ pids_of reported

-- What POSIX says of the calls. A child may end at any time.
pub record Laws {World : Type 0} (calls : Calls World) (family : Family World) : Type 0 where
  -- A pid is that of a child, which has been waited for with the call.
  pub waitpid_takes :
      (w : World)
      → ltb_ℤ (pos 0) (calls.waitpid w).pid ≡ true
      → family.children w ≡ suc (family.children (calls.waitpid w).world)
  -- Without a child it fails.
  pub waitpid_succeeds :
      (w : World) → leb_ℤ (pos 0) (calls.waitpid w).pid ≡ true → 0 < family.children w
  -- No pid means that none has ended.
  pub waitpid_none :
      (w : World)
      → ltb_ℤ (pos 0) (calls.waitpid w).pid ≡ false
      → (family.children (calls.waitpid w).world ≡ family.children w)
        × (family.zombies (calls.waitpid w).world ≡ 0)
  -- A failure is ECHILD: there are no children.
  pub waitpid_fails :
      (w : World)
      → ltb_ℤ (calls.waitpid w).pid (pos 0) ≡ true
      → ((calls.waitpid w).is_echild ≡ true) × (family.children w ≡ 0)
  pub wait_takes_one :
      (w : World)
      → (family.zombies w ≤ suc (family.zombies (calls.wait w).world))
        × (family.children w ≤ suc (family.children (calls.wait w).world))
  -- The pid is that of the child that is gone, and the others keep theirs.
  pub waitpid_names :
      (w : World) (p : ℤ)
      → ltb_ℤ (pos 0) (calls.waitpid w).pid ≡ true
      → family.named w p
        ≡ (if eq_ℤ p (calls.waitpid w).pid then 1 else 0) + family.named (calls.waitpid w).world p
  pub waitpid_keeps :
      (w : World) (p : ℤ)
      → ltb_ℤ (pos 0) (calls.waitpid w).pid ≡ false
      → family.named (calls.waitpid w).world p ≡ family.named w p
  pub sleep_names : (w : World) (p : ℤ) → family.named (calls.sleep w) p ≡ family.named w p
  pub none_named : (w : World) (p : ℤ) → family.children w ≡ 0 → family.named w p ≡ 0
  -- Time goes by.
  pub waitpid_time :
      (w : World) → family.running_time (calls.waitpid w).world ≤ family.running_time w
  pub sleep_children : (w : World) → family.children (calls.sleep w) ≡ family.children w
  pub sleep_time :
      (w : World)
      → 0 < family.children w
      → family.zombies w ≡ 0
      → family.running_time (calls.sleep w) < family.running_time w
