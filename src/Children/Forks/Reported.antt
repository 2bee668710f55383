-- ===== src/Children/Forks/Reported.antt =====
-- How many children are reported.
use serversidedev.Prelude.{
  ℕ, suc, ◌+◌, ◌≤◌, ◌≡◌, refl, ◌∙◌, true, false, Bool-cases, inl, inr, List, ◌++◌, length,
  length-append, ltb, if◌then◌else◌, arith,
}
use serversidedev.Prelude.Int.{ℤ, pos, eq_ℤ, ltb_ℤ, leb_ℤ}
use serversidedev.Prelude.Outcome.{Outcome, ok, aborted, fault, unfinished}
use serversidedev.Prelude.Served.{Served, goes_on, exits, Comes}
use serversidedev.Children.Reaping.{Calls, sigfunc, Family, Laws}
use serversidedev.Children.Reaping.NoZombies.{Reaps, handlers-Reaps}
use serversidedev.Children.Forks.{
  Processes, At, installing, forking, sleeping, waiting, napping, returned, exited, is_running,
  ForkRun, mysignal, fork_child, wait_once, main_step, handled, ForkStep, parent, handler, time,
  Reaches, at_start, next, fork_start,
}

-- What POSIX says of the other calls: `fork` gives a child more, unless it fails.
pub record ForkLaws {World : Type 0} (processes : Processes World) (family : Family World)
    : Type 0 where
  pub sigaction_keeps :
      (w : World) (signo : ℕ) → family.children (processes.sigaction w signo).1 ≡ family.children w
  pub fork_adds :
      (w : World)
      → ltb_ℤ (processes.fork w).0 (pos 0) ≡ false
      → family.children (processes.fork w).1 ≡ suc (family.children w)
  pub fork_fails :
      (w : World)
      → ltb_ℤ (processes.fork w).0 (pos 0) ≡ true
      → family.children (processes.fork w).1 ≡ family.children w
  -- The child has the pid that `fork` returns.
  pub fork_names :
      (w : World) (p : ℤ)
      → ltb_ℤ (processes.fork w).0 (pos 0) ≡ false
      → family.named (processes.fork w).1 p
        ≡ (if eq_ℤ p (processes.fork w).0 then 1 else 0) + family.named w p
  pub names_keep :
      (w : World) (p : ℤ)
      → ((signo : ℕ) → family.named (processes.sigaction w signo).1 p ≡ family.named w p)
        × (ltb_ℤ (processes.fork w).0 (pos 0) ≡ true
            → family.named (processes.fork w).1 p ≡ family.named w p)
        × ((seconds : ℕ) → family.named (processes.sleep_for w seconds) p ≡ family.named w p)
  pub sleep_keeps :
      (w : World) (seconds : ℕ)
      → family.children (processes.sleep_for w seconds) ≡ family.children w

module _ {World : Type 0} (calls : Calls World) (processes : Processes World)
    (family : Family World) where
  open family use {children, zombies}

  -- So many children there have been.
  abbrev pub Are : ℕ → ForkRun World → Type 0
  Are n s = length s.reported + children s.world ≡ n

  -- `before` children were there when `main` began.
  abbrev pub Accounted : ℕ → At → ForkRun World → Type 0
  Accounted before installing s = Are before s
  Accounted before (forking i) s = (i ≤ 4) × Are (before + i) s
  Accounted before returned s =
      (length s.reported ≡ before + 4) × (children s.world ≡ 0) × (zombies s.world ≡ 0)
  Accounted before (exited status) s = (n : ℕ) × (n ≤ 4) × Are (before + n) s
  Accounted before at s = Are (before + 4) s

  module _ (laws : Laws calls family) (fork_laws : ForkLaws processes family) where
    mysignal-Accounted :
        (before : ℕ) (s : ForkRun World)
        → Are before s
        → Accounted before (mysignal processes s).at (mysignal processes s)
    unfolding mysignal
    mysignal-Accounted before s h =
        elim (Bool-cases (ltb_ℤ (processes.sigaction s.world 17).0 (pos 0))) [
          | inl failed ↦
              rw failed (0, omega arith, omega (arith, fork_laws.sigaction_keeps s.world 17))
          | inr fine ↦ rw fine (omega arith, omega (arith, fork_laws.sigaction_keeps s.world 17))
        ]

    fork_child-Accounted :
        (before i : ℕ) (s : ForkRun World)
        → i ≤ 4
        → Are (before + i) s
        → Accounted before (fork_child processes i s).at (fork_child processes i s)
    unfolding fork_child
    fork_child-Accounted before i s le h = elim (Bool-cases (ltb i 4)) [
      | inl more ↦ rw more (elim (Bool-cases (ltb_ℤ (processes.fork s.world).0 (pos 0))) [
        | inl failed ↦ rw failed (i, le, omega (arith, fork_laws.fork_fails s.world failed))
        | inr forked ↦ rw forked (ground arith, omega (arith, fork_laws.fork_adds s.world forked))
      ])
      | inr done ↦ rw done (all_four i le done h)
    ]
      where
        all_four : (i : ℕ) → i ≤ 4 → ltb i 4 ≡ false → Are (before + i) s → Are (before + 4) s
        all_four i le done h = ground (arith, h)

    wait_once-Accounted :
        (before : ℕ) (s : ForkRun World)
        → s.at ≡ waiting
        → Are (before + 4) s
        → Accounted before (wait_once calls s).at (wait_once calls s)
    unfolding wait_once
    wait_once-Accounted before s here h =
        elim (Bool-cases (ltb_ℤ (pos 0) (calls.waitpid s.world).pid)) [
          | inl found ↦ rw found (rw here (omega (arith, laws.waitpid_takes s.world found)))
          | inr none_found ↦
              let (same, none_left) = laws.waitpid_none s.world none_found in
              rw none_found (elim (Bool-cases (leb_ℤ (pos 0) (calls.waitpid s.world).pid)) [
                | inl some_run ↦ rw some_run (omega arith)
                | inr failed ↦
                    let negative = below (calls.waitpid s.world).pid failed in
                    let (echild, no_children) = laws.waitpid_fails s.world negative in
                    rw failed (rw negative (rw echild (omega arith, omega arith, none_left)))
              ])
        ]
      where
        below : (a : ℤ) → leb_ℤ (pos 0) a ≡ false → ltb_ℤ a (pos 0) ≡ true
        below a h = ground arith

    -- While the process runs, what is true of the number of its children stays true with that number.
    moved :
        (before : ℕ) (at : At) (s t : ForkRun World)
        → is_running at ≡ true
        → length t.reported + children t.world ≡ length s.reported + children s.world
        → Accounted before at s
        → Accounted before at t
    moved before installing s t running same h = same ∙ h
    moved before (forking i) s t running same (le, h) = (le, same ∙ h)
    moved before sleeping s t running same h = same ∙ h
    moved before waiting s t running same h = same ∙ h
    moved before napping s t running same h = same ∙ h
    moved before returned s t running same h = absurd cc
    moved before (exited status) s t running same h = absurd cc

    handled-Accounted :
        (before : ℕ) (s : ForkRun World) (out : Outcome (Served (List (ℤ × ℕ) × World)))
        → is_running s.at ≡ true
        → Comes (λ r. Reaps calls family s.world (ok r)) (λ exitstatus r. ⊥) out
        → Accounted before s.at s
        → Accounted before (handled out s).at (handled out s)
    unfolding handled
    handled-Accounted before s (ok (goes_on (reaped, w))) running (all, none_left, counted) h =
        moved before s.at s (record s { reported = reaped ++ s.reported; world = w }) running
          (omega (arith, length-append reaped s.reported)) h
    handled-Accounted before s (ok (exits status r)) running reaps h = absurd reaps
    handled-Accounted before s aborted running reaps h = absurd reaps
    handled-Accounted before s fault running reaps h = absurd reaps
    handled-Accounted before s unfinished running reaps h = absurd reaps

    parent-Accounted :
        (before : ℕ) (at : At) (s : ForkRun World)
        → s.at ≡ at
        → Accounted before at s
        → Accounted before (main_step calls processes at s).at (main_step calls processes at s)
    unfolding main_step
    parent-Accounted before installing s here h = mysignal-Accounted before s h
    parent-Accounted before (forking i) s here (le, h) = fork_child-Accounted before i s le h
    parent-Accounted before sleeping s here h = omega (arith, fork_laws.sleep_keeps s.world 20)
    parent-Accounted before waiting s here h = wait_once-Accounted before s here h
    parent-Accounted before napping s here h = omega (arith, laws.sleep_children s.world)
    parent-Accounted before returned s here h = rw here h
    parent-Accounted before (exited status) s here h = rw here h

    ForkStep-Accounted :
        (before : ℕ) {s t : ForkRun World}
        → ForkStep calls processes family s t
        → Accounted before s.at s
        → Accounted before t.at t
    ForkStep-Accounted before {s} (parent running) h = parent-Accounted before s.at s refl h
    ForkStep-Accounted before {s} (handler running fuel lt) h =
        handled-Accounted before s (sigfunc calls fuel 17 s.world) running
          (handlers-Reaps calls family laws fuel s.world lt).2 h
    ForkStep-Accounted before {s} (time running w same names) h =
        moved before s.at s (record s { world = w }) running (omega arith) h

    -- The numbers, in each state that `main` can come to.
    pub reached-Accounted :
        (w : World) {s : ForkRun World}
        → Reaches calls processes family (fork_start w) s
        → Accounted (children w) s.at s
    unfolding fork_start
    reached-Accounted w at_start = omega arith
    reached-Accounted w (next r step) = ForkStep-Accounted (children w) step (reached-Accounted w r)
