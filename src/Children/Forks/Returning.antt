-- ===== src/Children/Forks/Returning.antt =====
-- `main` of test_fork_and_waitpid.cpp comes to its end.
use serversidedev.Prelude.{
  ℕ, zero, suc, ◌+◌, ◌*◌, ◌<◌, ◌≡◌, refl, sym, subst, Bool, true, false, Bool-cases, inl, inr, List,
  ◌∷◌, length, arith,
}
use serversidedev.Prelude.Int.{ℤ, pos, ltb_ℤ, leb_ℤ}
use serversidedev.Children.Reaping.{Calls, Family, Laws}
use serversidedev.Children.Forks.{
  Processes, At, installing, forking, sleeping, waiting, napping, returned, exited, is_running,
  ForkRun, wait_once, main_step, parent, Reaches, next, fork_start,
}
use serversidedev.Children.Forks.Reported.{ForkLaws, Accounted, reached-Accounted}

-- The children have been forked, and `main` has not ended.
abbrev pub is_past_forks : At → Bool
is_past_forks sleeping = true
is_past_forks waiting = true
is_past_forks napping = true
is_past_forks at = false

module _ {World : Type 0} (calls : Calls World) (processes : Processes World)
    (family : Family World) where
  open family use {children, zombies, running_time}

  -- So many calls of the parent, without a handler between them.
  unfoldable pub parent_steps : ℕ → ForkRun World → ForkRun World
  unfolding main_step
  parent_steps zero s = s
  parent_steps (suc n) s = parent_steps n (main_step calls processes s.at s)

  stays_returned :
      (n : ℕ) (reported : List (ℤ × ℕ)) (forked : List ℤ) (w : World)
      → (parent_steps n
          (record { at = returned; reported = reported; forked = forked; world = w })).at
        ≡ returned
  unfolding parent_steps
  stays_returned zero reported forked w = refl
  stays_returned (suc n) reported forked w = stays_returned n reported forked w

  ended_stays :
      (at : At) (s : ForkRun World) → is_running at ≡ false → main_step calls processes at s ≡ s
  unfolding main_step
  ended_stays installing s h = absurd cc
  ended_stays (forking i) s h = absurd cc
  ended_stays sleeping s h = absurd cc
  ended_stays waiting s h = absurd cc
  ended_stays napping s h = absurd cc
  ended_stays returned s h = refl
  ended_stays (exited status) s h = refl

  steps-Reaches :
      (n : ℕ) (from s : ForkRun World)
      → Reaches calls processes family from s
      → Reaches calls processes family from (parent_steps n s)
  unfolding parent_steps
  steps-Reaches zero from s r = r
  steps-Reaches (suc n) from s r =
      steps-Reaches n from (main_step calls processes s.at s) (elim (Bool-cases (is_running s.at)) [
        | inl running ↦ next r (parent running)
        | inr ended ↦
            subst (λ t. Reaches calls processes family from t) (sym (ended_stays s.at s ended)) r
      ])

  below_zero : (a : ℤ) → leb_ℤ (pos 0) a ≡ false → ltb_ℤ a (pos 0) ≡ true
  below_zero a h = ground arith

  -- The three results of `waitpid`.
  taken :
      (reported : List (ℤ × ℕ)) (forked : List ℤ) (w : World)
      → ltb_ℤ (pos 0) (calls.waitpid w).pid ≡ true
      → wait_once calls (record { at = waiting; reported = reported; forked = forked; world = w })
        ≡ record {
          at = waiting;
          reported = ((calls.waitpid w).pid, (calls.waitpid w).status) ∷ reported;
          forked = forked;
          world = (calls.waitpid w).world;
        }
  unfolding wait_once
  taken reported forked w found = rw found refl

  none_yet :
      (reported : List (ℤ × ℕ)) (forked : List ℤ) (w : World)
      → ltb_ℤ (pos 0) (calls.waitpid w).pid ≡ false
      → leb_ℤ (pos 0) (calls.waitpid w).pid ≡ true
      → wait_once calls (record { at = waiting; reported = reported; forked = forked; world = w })
        ≡ record {
          at = napping;
          reported = reported;
          forked = forked;
          world = (calls.waitpid w).world;
        }
  unfolding wait_once
  none_yet reported forked w none_found some_run = rw none_found (rw some_run refl)

  no_child :
      (reported : List (ℤ × ℕ)) (forked : List ℤ) (w : World)
      → ltb_ℤ (pos 0) (calls.waitpid w).pid ≡ false
      → leb_ℤ (pos 0) (calls.waitpid w).pid ≡ false
      → (calls.waitpid w).is_echild ≡ true
      → wait_once calls (record { at = waiting; reported = reported; forked = forked; world = w })
        ≡ record {
          at = returned;
          reported = reported;
          forked = forked;
          world = (calls.waitpid w).world;
        }
  unfolding wait_once
  no_child reported forked w none_found failed echild =
      rw none_found (rw failed (rw (below_zero (calls.waitpid w).pid failed) (rw echild refl)))

  module _ (laws : Laws calls family) where
    -- From here on, `main` returns in `n` calls.
    abbrev Returns : ℕ → ForkRun World → Type 0
    Returns n s = (parent_steps n s).at ≡ returned

    mutual
      unfolding parent_steps main_step

      wait-Returns :
          (n : ℕ) (reported : List (ℤ × ℕ)) (forked : List ℤ) (w : World)
          → 2 * (children w + running_time w) < n
          → Returns n (record { at = waiting; reported = reported; forked = forked; world = w })
      wait-Returns zero reported forked w lt = absurd (omega arith)
      wait-Returns (suc n) reported forked w lt =
          let pid = (calls.waitpid w).pid in
          let w1 = (calls.waitpid w).world in
          elim (Bool-cases (ltb_ℤ (pos 0) pid)) [
            | inl found ↦ subst (Returns n) (sym (taken reported forked w found)) (
                wait-Returns n ((pid, (calls.waitpid w).status) ∷ reported) forked w1
                  (omega (arith, laws.waitpid_takes w found, laws.waitpid_time w)))
            | inr none_found ↦ elim (Bool-cases (leb_ℤ (pos 0) pid)) [
              | inl some_run ↦
                  let (same, none_left) = laws.waitpid_none w none_found in
                  let some_child = laws.waitpid_succeeds w some_run in
                  subst (Returns n) (sym (none_yet reported forked w none_found some_run)) (
                    nap-Returns n reported forked w1 (
                      omega
                        (arith, laws.waitpid_time w, laws.sleep_time w1 (omega arith) none_left)))
              | inr failed ↦
                  let echild = (laws.waitpid_fails w (below_zero pid failed)).0 in
                  subst (Returns n) (sym (no_child reported forked w none_found failed echild))
                    (stays_returned n reported forked w1)
            ]
          ]

      nap-Returns :
          (n : ℕ) (reported : List (ℤ × ℕ)) (forked : List ℤ) (w : World)
          → 2 * (children w + running_time (calls.sleep w)) + 1 < n
          → Returns n (record { at = napping; reported = reported; forked = forked; world = w })
      nap-Returns zero reported forked w lt = absurd (omega arith)
      nap-Returns (suc n) reported forked w lt =
          wait-Returns n reported forked (calls.sleep w) (omega (arith, laws.sleep_children w))

    past_forks-Returns :
        (at : At) (reported : List (ℤ × ℕ)) (forked : List ℤ) (w : World)
        → is_past_forks at ≡ true
        → (n : ℕ) × ((parent_steps n
              (record { at = at; reported = reported; forked = forked; world = w })).at
            ≡ returned)
    unfolding parent_steps main_step
    past_forks-Returns installing reported forked w h = absurd cc
    past_forks-Returns (forking i) reported forked w h = absurd cc
    past_forks-Returns sleeping reported forked w h =
        let w1 = processes.sleep_for w 20 in
        let n = 2 * (children w1 + running_time w1) + 1 in
        (suc n, wait-Returns n reported forked w1 (omega arith))
    past_forks-Returns waiting reported forked w h =
        let n = 2 * (children w + running_time w) + 1 in
        (n, wait-Returns n reported forked w (omega arith))
    past_forks-Returns napping reported forked w h =
        let n = 2 * (children w + running_time (calls.sleep w)) + 2 in
        (n, nap-Returns n reported forked w (omega arith))
    past_forks-Returns returned reported forked w h = absurd cc
    past_forks-Returns (exited status) reported forked w h = absurd cc

    module _ (fork_laws : ForkLaws processes family) where
      -- If the calls keep to their laws, then from each state that `main` of
      -- test_fork_and_waitpid.cpp can come to once its children have been forked and before it has
      -- ended, if the handler does not run any more, `main` returns after some number of its own
      -- calls, and then the children there were at its start and four more have been reported, and
      -- none is left.
      pub main-Returns :
          (w : World) (s : ForkRun World)
          → Reaches calls processes family (fork_start w) s
          → is_past_forks s.at ≡ true
          → (n : ℕ) × ((parent_steps n s).at ≡ returned)
            × (length (parent_steps n s).reported ≡ children w + 4)
            × (children (parent_steps n s).world ≡ 0)
      main-Returns w s r past =
          let (n, ends) = past_forks-Returns s.at s.reported s.forked s.world past in
          let (all, none_left, no_zombie) =
            subst (λ at. Accounted calls processes family (children w) at (parent_steps n s)) ends
              (reached-Accounted calls processes family laws fork_laws w
                (steps-Reaches n (fork_start w) s r)) in
          (n, ends, all, none_left)
