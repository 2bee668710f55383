-- ===== src/Children/Forks.antt =====
-- `main` of test_fork_and_waitpid.cpp, with the handler of SIGCHLD that may run between any two of its calls.
pub mod Reported
pub mod Pids
pub mod Returning
mod Tests
use serversidedev.Prelude.{
  ℕ, zero, suc, ◌+◌, ◌<◌, ◌≡◌, Bool, true, false, not, ◌&&◌, List, [], ◌∷◌, ◌++◌, ltb,
  if◌then◌else◌,
}
use serversidedev.Prelude.Int.{ℤ, pos, ltb_ℤ, leb_ℤ}
use serversidedev.Prelude.Outcome.{Outcome, ok, aborted, fault, unfinished}
use serversidedev.Prelude.Served.{Served, goes_on, exits}
use serversidedev.Children.Reaping.{Calls, sigfunc, Family}

-- `sigaction`, `fork` as the parent sees it, `sleep` for some seconds, which a signal may cut short, and `errno`.
pub record Processes (World : Type 0) : Type 0 where
  pub sigaction : World → (signo : ℕ) → ℤ × World
  pub fork : World → ℤ × World
  pub sleep_for : World → ℕ → World
  pub errno : World → ℕ

-- Where the parent is.
pub data At : Type 0 where
  installing : At  -- `mysignal(SIGCHLD,sigfunc)`
  forking : (i : ℕ) → At  -- `for(int i=0;i<4;i++)`
  sleeping : At  -- `sleep(20)`
  waiting : At  -- `waitpid(-1,&status,WNOHANG)` of `wait_all_children`
  napping : At  -- its `sleep(1)`
  returned : At
  exited : (status : ℕ) → At

abbrev pub is_running : At → Bool
is_running returned = false
is_running (exited status) = false
is_running at = true

-- The children that have been reported, and the pids of those that have been forked, newest first.
pub record ForkRun (World : Type 0) : Type 0 where
  pub at : At
  pub reported : List (ℤ × ℕ)
  pub forked : List ℤ
  pub world : World

module _ {World : Type 0} (processes : Processes World) where
  -- `mysignal`, which exits where `sigaction` fails.
  unfoldable pub mysignal : ForkRun World → ForkRun World
  mysignal s =
      let (re, w1) = processes.sigaction s.world 17 in
      record s {
        at = if ltb_ℤ re (pos 0) then exited (processes.errno w1) else forking 0;
        world = w1;
      }

  -- A round of the loop; the child ends at once.
  unfoldable pub fork_child : ℕ → ForkRun World → ForkRun World
  fork_child i s =
      let (pid, w1) = processes.fork s.world in
      if ltb i 4
      then record s {
        at = if ltb_ℤ pid (pos 0) then exited (processes.errno w1) else forking (i + 1);
        forked = if ltb_ℤ pid (pos 0) then s.forked else pid ∷ s.forked;
        world = w1;
      }
      else record s { at = sleeping }

module _ {World : Type 0} (calls : Calls World) where
  -- A round of `wait_all_children`, or what follows its loop.
  unfoldable pub wait_once : ForkRun World → ForkRun World
  wait_once s =
      let got = calls.waitpid s.world in
      if ltb_ℤ (pos 0) got.pid
      then record s { reported = (got.pid, got.status) ∷ s.reported; world = got.world }
      else if leb_ℤ (pos 0) got.pid
      then record s { at = napping; world = got.world }
      else record s {
        at = if ltb_ℤ got.pid (pos 0) && not got.is_echild then exited 255 else returned;
        world = got.world;
      }

module _ {World : Type 0} where
  -- After the handler has run.
  unfoldable pub handled : Outcome (Served (List (ℤ × ℕ) × World)) → ForkRun World → ForkRun World
  handled (ok (goes_on (reaped, w))) s = record s { reported = reaped ++ s.reported; world = w }
  handled (ok (exits status (reaped, w))) s = record {
    at = exited status;
    reported = reaped ++ s.reported;
    forked = s.forked;
    world = w;
  }
  handled aborted s = s
  handled fault s = s
  handled unfinished s = s

module _ {World : Type 0} (calls : Calls World) (processes : Processes World) where
  -- The next call of the parent.
  unfoldable pub main_step : At → ForkRun World → ForkRun World
  unfolding mysignal fork_child wait_once
  main_step installing s = mysignal processes s
  main_step (forking i) s = fork_child processes i s
  main_step sleeping s = record s { at = waiting; world = processes.sleep_for s.world 20 }
  main_step waiting s = wait_once calls s
  main_step napping s = record s { at = waiting; world = calls.sleep s.world }
  main_step returned s = s
  main_step (exited status) s = s

  -- The parent makes its next call, a SIGCHLD has arrived and the handler runs to its end (with fuel for each child), or
  -- children end while the parent does nothing.
  pub data ForkStep (family : Family World) (s : ForkRun World) : ForkRun World → Type 0 where
    parent : is_running s.at ≡ true → ForkStep family s (main_step s.at s)
    handler :
        is_running s.at ≡ true
        → (fuel : ℕ) → family.children s.world < fuel
        → ForkStep family s (handled (sigfunc calls fuel 17 s.world) s)
    time :
        is_running s.at ≡ true
        → (w : World) → family.children w ≡ family.children s.world
        → ((p : ℤ) → family.named w p ≡ family.named s.world p)
        → ForkStep family s (record s { world = w })

  pub data Reaches (family : Family World) (from : ForkRun World) : ForkRun World → Type 0 where
    at_start : Reaches family from from
    next :
        {s t : ForkRun World} → Reaches family from s → ForkStep family s t → Reaches family from t

-- The process when `main` begins.
unfoldable pub fork_start : {World : Type 0} → World → ForkRun World
fork_start w = record { at = installing; reported = []; forked = []; world = w }
