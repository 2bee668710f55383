-- ===== src/Children/Forks/Pids.antt =====
-- Which children have been reported.
use serversidedev.Prelude.{ℕ, ◌+◌, ◌≡◌, Bool-cases, inl, inr, List, [], ◌∷◌, ◌++◌, ltb, arith}
use serversidedev.Prelude.Int.{ℤ, pos, ltb_ℤ, leb_ℤ}
use serversidedev.Prelude.Outcome.{Outcome, ok, aborted, fault, unfinished}
use serversidedev.Prelude.Served.{Served, goes_on, exits, Comes}
use serversidedev.Children.Reaping.{count_pid, pids_of, Calls, sigfunc, Family, Laws}
use serversidedev.Children.Reaping.NoZombies.{Reaps, handlers-Reaps}
use serversidedev.Children.Forks.{
  Processes, At, installing, forking, sleeping, waiting, napping, returned, exited, ForkRun,
  mysignal, fork_child, wait_once, main_step, handled, ForkStep, parent, handler, time, Reaches,
  at_start, next, fork_start,
}
use serversidedev.Children.Forks.Reported.{ForkLaws, Accounted, reached-Accounted}

count_pid-append :
    (p : ℤ) (a b : List (ℤ × ℕ))
    → count_pid p (pids_of (a ++ b)) ≡ count_pid p (pids_of a) + count_pid p (pids_of b)
count_pid-append p [] b = omega arith
count_pid-append p ((pid, status) ∷ a) b = omega (arith, count_pid-append p a b)

module _ {World : Type 0} (calls : Calls World) (processes : Processes World)
    (family : Family World) where
  open family use {children, named}

  -- Each pid has been reported, or is that of a child, as often as it was that of one at the start or
  -- has been forked.
  abbrev pub Names : (ℤ → ℕ) → ForkRun World → Type 0
  Names before s =
      (p : ℤ) → count_pid p (pids_of s.reported) + named s.world p ≡ before p + count_pid p s.forked

  -- How `main` stands: the numbers, and the pids, of which in the end all have been reported.
  abbrev pub Told : World → ForkRun World → Type 0
  Told w s =
      Accounted calls processes family (children w) s.at s
      × Names (named w) s
      × (s.at ≡ returned
          → (p : ℤ) → count_pid p (pids_of s.reported) ≡ named w p + count_pid p s.forked)

  module _ (laws : Laws calls family) (fork_laws : ForkLaws processes family) where
    fork_child-Names :
        (before : ℤ → ℕ) (i : ℕ) (s : ForkRun World)
        → Names before s
        → Names before (fork_child processes i s)
    unfolding fork_child
    fork_child-Names before i s h p = elim (Bool-cases (ltb i 4)) [
      | inl more ↦ rw more (elim (Bool-cases (ltb_ℤ (processes.fork s.world).0 (pos 0))) [
        | inl failed ↦ rw failed (omega (arith, h p, (fork_laws.names_keep s.world p).1 failed))
        | inr forked ↦ rw forked (omega (arith, h p, fork_laws.fork_names s.world p forked))
      ])
      | inr done ↦ rw done (h p)
    ]

    wait_once-Names :
        (before : ℤ → ℕ) (s : ForkRun World) → Names before s → Names before (wait_once calls s)
    unfolding wait_once
    wait_once-Names before s h p = elim (Bool-cases (ltb_ℤ (pos 0) (calls.waitpid s.world).pid)) [
      | inl found ↦ rw found (omega (arith, h p, laws.waitpid_names s.world p found))
      | inr none_found ↦
          let same = laws.waitpid_keeps s.world p none_found in
          rw none_found (elim (Bool-cases (leb_ℤ (pos 0) (calls.waitpid s.world).pid)) [
            | inl some_run ↦ rw some_run (omega (arith, h p))
            | inr failed ↦ rw failed (omega (arith, h p))
          ])
    ]

    parent-Names :
        (before : ℤ → ℕ) (at : At) (s : ForkRun World)
        → Names before s
        → Names before (main_step calls processes at s)
    unfolding main_step mysignal
    parent-Names before installing s h p = omega (arith, h p, (fork_laws.names_keep s.world p).0 17)
    parent-Names before (forking i) s h p = fork_child-Names before i s h p
    parent-Names before sleeping s h p = omega (arith, h p, (fork_laws.names_keep s.world p).2 20)
    parent-Names before waiting s h p = wait_once-Names before s h p
    parent-Names before napping s h p = omega (arith, h p, laws.sleep_names s.world p)
    parent-Names before returned s h p = h p
    parent-Names before (exited status) s h p = h p

    handled-Names :
        (before : ℤ → ℕ) (s : ForkRun World) (out : Outcome (Served (List (ℤ × ℕ) × World)))
        → Comes (λ r. Reaps calls family s.world (ok r)) (λ exitstatus r. ⊥) out
        → Names before s
        → Names before (handled out s)
    unfolding handled
    handled-Names before s (ok (goes_on (reaped, w))) (all, none_left, counted) h =
        λ p. omega (arith, h p, counted p, count_pid-append p reaped s.reported)
    handled-Names before s (ok (exits status r)) reaps h = absurd reaps
    handled-Names before s aborted reaps h = absurd reaps
    handled-Names before s fault reaps h = absurd reaps
    handled-Names before s unfinished reaps h = absurd reaps

    ForkStep-Names :
        (before : ℤ → ℕ) {s t : ForkRun World}
        → ForkStep calls processes family s t
        → Names before s
        → Names before t
    ForkStep-Names before {s} (parent running) h = parent-Names before s.at s h
    ForkStep-Names before {s} (handler running fuel lt) h =
        handled-Names before s (sigfunc calls fuel 17 s.world)
          (handlers-Reaps calls family laws fuel s.world lt).2 h
    ForkStep-Names before {s} (time running w same names) h = λ p. omega (arith, h p, names p)

    reached-Names :
        (w : World) {s : ForkRun World}
        → Reaches calls processes family (fork_start w) s
        → Names (named w) s
    unfolding fork_start
    reached-Names w at_start = λ p. omega arith
    reached-Names w (next r step) = ForkStep-Names (named w) step (reached-Names w r)

    all_told :
        (w : World) (at : At) (s : ForkRun World)
        → Accounted calls processes family (children w) at s
        → Names (named w) s
        → at ≡ returned
        → (p : ℤ) → count_pid p (pids_of s.reported) ≡ named w p + count_pid p s.forked
    all_told w returned s (all, none_left, no_zombie) h is p =
        omega (arith, h p, laws.none_named s.world p none_left)
    all_told w installing s a h is p = absurd cc
    all_told w (forking i) s a h is p = absurd cc
    all_told w sleeping s a h is p = absurd cc
    all_told w waiting s a h is p = absurd cc
    all_told w napping s a h is p = absurd cc
    all_told w (exited status) s a h is p = absurd cc

    -- If the calls keep to their laws, by which `sleep` itself leaves the children as they are,
    -- then in each state that `main` of test_fork_and_waitpid.cpp can come to, wherever the
    -- handler of SIGCHLD interrupts it and whenever children end, the children that have been
    -- reported and those that are left are as many as, and have the pids of, those at its start
    -- and those that have been forked; when `main` has returned, four have been forked, each pid
    -- has been reported as often as it was that of a child at the start or has been forked, and no
    -- child and no zombie is left.
    pub reached-Told :
        (w : World) {s : ForkRun World} → Reaches calls processes family (fork_start w) s → Told w s
    reached-Told w {s} r =
        let numbers = reached-Accounted calls processes family laws fork_laws w r in
        let names = reached-Names w r in (numbers, names, all_told w s.at s numbers names)
