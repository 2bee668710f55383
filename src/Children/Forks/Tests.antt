-- ===== src/Children/Forks/Tests.antt =====
-- `main` of test_fork_and_waitpid.cpp in the family of Reaping/House.
use serversidedev.Prelude.{ℕ, suc, ◌+◌, ◌≡◌, refl, ap, if◌then◌else◌, length, List, [], ◌∷◌, arith}
use serversidedev.Prelude.Int.{ℤ, pos, negsuc, eq_ℤ}
use serversidedev.Children.Reaping.{sigfunc, waitchild, reap_loop, exit_on_error}
use serversidedev.Children.Reaping.House.{House, house_calls, house, named_to, house-Laws}
use serversidedev.Children.Forks.{
  Processes, returned, ForkRun, main_step, mysignal, fork_child, wait_once, handled, Reaches,
  sleeping, at_start, next, parent, handler, fork_start,
}
use serversidedev.Children.Forks.Reported.{ForkLaws}
use serversidedev.Children.Forks.Pids.{Told, reached-Told}
use serversidedev.Children.Forks.Returning.{parent_steps, main-Returns}

-- A long sleep ends all.
abbrev processes : Processes House
processes = record {
  sigaction = λ w signo. (pos 0, w);
  fork = λ w. (pos (suc (w.0 + w.1)), (w.0, suc w.1));
  sleep_for = λ w seconds. (w.0 + w.1, 0);
  errno = λ w. 0;
}

named_more :
    (n m : ℕ) (p : ℤ)
    → m ≡ suc n
    → named_to m p ≡ (if eq_ℤ p (pos (suc n)) then 1 else 0) + named_to n p
named_more n m (pos p) e = ground arith
named_more n m (negsuc p) e = ground arith

fork-Laws : ForkLaws processes house
fork-Laws = record {
  sigaction_keeps = λ w signo. refl;
  fork_adds = λ w h. omega arith;
  fork_fails = λ w h. absurd (ground arith);
  sleep_keeps = λ w seconds. omega arith;
  fork_names = λ w p h. named_more (w.0 + w.1) (w.0 + suc w.1) p (omega arith);
  names_keep = λ w p.
      (λ signo. refl, λ h. absurd (ground arith), λ seconds. ap (λ n. named_to n p) (omega arith));
}

abbrev four : List ℤ
four = pos 4 ∷ pos 3 ∷ pos 2 ∷ pos 1 ∷ []

-- The handler has run after `sleep`.
abbrev finished : ForkRun House
finished = record {
  at = returned;
  reported = (pos 1, 0) ∷ (pos 2, 0) ∷ (pos 3, 0) ∷ (pos 4, 0) ∷ [];
  forked = four;
  world = (0, 0);
}

finished-Reaches : Reaches house_calls processes house (fork_start (0, 0)) finished
unfolding fork_start main_step mysignal fork_child wait_once handled sigfunc waitchild reap_loop
    exit_on_error
finished-Reaches =
    let installed = next at_start (parent refl) in
    let forked =
      next (next (next (next installed (parent refl)) (parent refl)) (parent refl)) (parent refl) in
    let slept = next (next forked (parent refl)) (parent refl) in
    next (next slept (handler refl 5 (omega arith))) (parent refl)

reached-Told_example : Told house_calls processes house (0, 0) finished
reached-Told_example =
    reached-Told house_calls processes house house-Laws fork-Laws (0, 0) finished-Reaches

-- No handler has run.
abbrev forked_all : ForkRun House
forked_all = record { at = sleeping; reported = []; forked = four; world = (0, 4) }

forked_all-Reaches : Reaches house_calls processes house (fork_start (0, 0)) forked_all
unfolding fork_start main_step mysignal fork_child
forked_all-Reaches =
    let installed = next at_start (parent refl) in
    let three = next (next (next installed (parent refl)) (parent refl)) (parent refl) in
    next (next three (parent refl)) (parent refl)

main-Returns_example :
    (n : ℕ) × ((parent_steps house_calls processes house n forked_all).at ≡ returned)
    × (length (parent_steps house_calls processes house n forked_all).reported ≡ 4)
    × ((parent_steps house_calls processes house n forked_all).world.0
          + (parent_steps house_calls processes house n forked_all).world.1
        ≡ 0)
main-Returns_example =
    main-Returns house_calls processes house house-Laws fork-Laws (0, 0) forked_all
      forked_all-Reaches refl
