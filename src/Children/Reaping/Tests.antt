-- ===== src/Children/Reaping/Tests.antt =====
-- The theorems at runs with the family of House.
use serversidedev.Prelude.{◌≡◌, refl, [], ◌∷◌, arith}
use serversidedev.Prelude.Int.{pos}
use serversidedev.Prelude.Outcome.{ok}
use serversidedev.Prelude.Served.{goes_on, Comes}
use serversidedev.Children.Reaping.{
  sigchld_func, func_waitpid, sigfunc, func_wait, exit_on_error, wait_all_children,
}
use serversidedev.Children.Reaping.House.{House, house_calls, house, house-Laws}
use serversidedev.Children.Reaping.NoZombies.{
  Reaps, AllGone, handlers-Reaps, wait_all_children-Gone,
}

-- Two of three children have ended.
abbrev family : House
family = (2, 1)

sigchld_func_result :
    sigchld_func house_calls 4 17 family ≡ ok ((pos 2, 0) ∷ (pos 3, 0) ∷ [], (0, 1))
unfolding sigchld_func
sigchld_func_result = refl

-- One call of `wait` leaves a zombie.
func_wait_result : func_wait house_calls 17 family ≡ ((pos 3, 0) ∷ [], (2, 0))
unfolding func_wait
func_wait_result = refl

wait_all_children_result :
    wait_all_children house_calls 5 family
    ≡ ok (goes_on ((pos 1, 0) ∷ (pos 2, 0) ∷ (pos 3, 0) ∷ [], (0, 0)))
unfolding wait_all_children exit_on_error
wait_all_children_result = refl

handlers-Reaps_example :
    Reaps house_calls house family (sigchld_func house_calls 4 17 family)
    × Reaps house_calls house family (func_waitpid house_calls 4 17 family)
    × Comes
        (λ r. Reaps house_calls house family (ok r))
        (λ exitstatus r. ⊥)
        (sigfunc house_calls 4 17 family)
handlers-Reaps_example = handlers-Reaps house_calls house house-Laws 4 family (omega arith)

wait_all_children-Gone_example :
    Comes
      (AllGone house_calls house family)
      (λ exitstatus r. ⊥)
      (wait_all_children house_calls 5 family)
wait_all_children-Gone_example =
    wait_all_children-Gone house_calls house house-Laws 5 family (omega arith)
