-- ===== src/Children/Reaping/NoZombies.antt =====
-- What the handlers leave of the children.
use serversidedev.Prelude.{
  ℕ, zero, suc, ◌+◌, ◌<◌, ◌≡◌, ◌∙◌, true, false, Bool-cases, inl, inr, List, [], ◌∷◌, length, arith,
}
use serversidedev.Prelude.Int.{ℤ, pos, ltb_ℤ, leb_ℤ}
use serversidedev.Prelude.Outcome.{Outcome, ok, aborted, fault, unfinished, ◌>>=◌}
use serversidedev.Prelude.Served.{Comes}
use serversidedev.Children.Reaping.{
  count_pid, pids_of, Calls, Reaped, reap_loop, sigchld_func, exit_on_error, waitchild,
  func_waitpid, sigfunc, wait_loop, wait_all_children, Family, Laws,
}

module _ {World : Type 0} (calls : Calls World) (family : Family World) where
  open family use {children, zombies, running_time, named}

  -- The loop has ended.
  abbrev Ended : (Reaped World → Type 0) → Outcome (Reaped World) → Type 0
  Ended Left (ok r) = Left r
  Ended Left out = ⊥

  -- Each child that is gone has been reported, and no child that has ended is left.
  abbrev Cleared : ℕ → (ℤ → ℕ) → Reaped World → Type 0
  Cleared all names r =
      (length r.reported + children r.last.world ≡ all)
      × ((p : ℤ) → count_pid p (pids_of r.reported) + named r.last.world p ≡ names p)
      × (zombies r.last.world ≡ 0)
      × (ltb_ℤ r.last.pid (pos 0) ≡ true → r.last.is_echild ≡ true)

  -- How many children have a pid, with those that have been reported.
  abbrev named_with : World → List (ℤ × ℕ) → ℤ → ℕ
  named_with w reported p = named w p + count_pid p (pids_of reported)

  -- No child is left.
  abbrev Gone : ℕ → (ℤ → ℕ) → Reaped World → Type 0
  Gone all names r =
      (length r.reported ≡ all)
      × ((p : ℤ) → count_pid p (pids_of r.reported) ≡ names p)
      × (children r.last.world ≡ 0)
      × (zombies r.last.world ≡ 0)
      × (r.last.is_echild ≡ true)

  -- The children that have ended are reported, and there is no zombie.
  abbrev pub Reaps : World → Outcome (List (ℤ × ℕ) × World) → Type 0
  Reaps w (ok (reported, w')) =
      (length reported + children w' ≡ children w)
      × (zombies w' ≡ 0)
      × ((p : ℤ) → count_pid p (pids_of reported) + named w' p ≡ named w p)
  Reaps w out = ⊥

  -- All the children have ended and have been reported.
  abbrev pub AllGone : World → List (ℤ × ℕ) × World → Type 0
  AllGone w (reported, w') =
      (length reported ≡ children w)
      × ((p : ℤ) → count_pid p (pids_of reported) ≡ named w p)
      × (children w' ≡ 0)
      × (zombies w' ≡ 0)

  same-Cleared :
      {all all' : ℕ} {names names' : ℤ → ℕ}
      → all ≡ all'
      → ((p : ℤ) → names p ≡ names' p)
      → (out : Outcome (Reaped World)) → Ended (Cleared all names) out
      → Ended (Cleared all' names') out
  same-Cleared e f (ok r) (there, counted, none_left, fails) =
      (there ∙ e, λ p. counted p ∙ f p, none_left, fails)
  same-Cleared e f aborted h = h
  same-Cleared e f fault h = h
  same-Cleared e f unfinished h = h

  same-Gone :
      {all all' : ℕ} {names names' : ℤ → ℕ}
      → all ≡ all'
      → ((p : ℤ) → names p ≡ names' p)
      → (out : Outcome (Reaped World)) → Ended (Gone all names) out
      → Ended (Gone all' names') out
  same-Gone e f (ok r) (there, counted, no_children, none_left, echild) =
      (there ∙ e, λ p. counted p ∙ f p, no_children, none_left, echild)
  same-Gone e f aborted h = h
  same-Gone e f fault h = h
  same-Gone e f unfinished h = h

  module _ (laws : Laws calls family) where
    last-Cleared :
        (w : World) (reported : List (ℤ × ℕ))
        → ltb_ℤ (pos 0) (calls.waitpid w).pid ≡ false
        → Cleared
            (children w + length reported)
            (named_with w reported)
            (record { reported = reported; last = calls.waitpid w })
    last-Cleared w reported h =
        let (same, none_left) = laws.waitpid_none w h in
        (
          omega arith,
          λ p. omega (arith, laws.waitpid_keeps w p h),
          none_left,
          λ failed. (laws.waitpid_fails w failed).0,
        )

    last-Gone :
        (w : World) (reported : List (ℤ × ℕ))
        → ltb_ℤ (pos 0) (calls.waitpid w).pid ≡ false
        → leb_ℤ (pos 0) (calls.waitpid w).pid ≡ false
        → Gone
            (children w + length reported)
            (named_with w reported)
            (record { reported = reported; last = calls.waitpid w })
    last-Gone w reported h failed =
        let (same, none_left) = laws.waitpid_none w h in
        let (echild, no_children) = laws.waitpid_fails w (negative (calls.waitpid w).pid failed) in
        (
          omega arith,
          λ p. omega (arith, laws.none_named w p no_children),
          omega arith,
          none_left,
          echild,
        )
      where
        negative : (a : ℤ) → leb_ℤ (pos 0) a ≡ false → ltb_ℤ a (pos 0) ≡ true
        negative a h = ground arith

    reap-Cleared :
        (fuel : ℕ) (w : World) (reported : List (ℤ × ℕ))
        → children w < fuel
        → Ended
            (Cleared (children w + length reported) (named_with w reported))
            (reap_loop calls fuel w reported)
    unfolding reap_loop
    reap-Cleared zero w reported lt = absurd (omega arith)
    reap-Cleared (suc fuel) w reported lt =
        elim (Bool-cases (ltb_ℤ (pos 0) (calls.waitpid w).pid)) [
          | inl found ↦
              let taken = laws.waitpid_takes w found in
              rw found (
                same-Cleared (omega arith) (λ p. omega (arith, laws.waitpid_names w p found)) _
                  (reap-Cleared fuel (calls.waitpid w).world
                    (((calls.waitpid w).pid, (calls.waitpid w).status) ∷ reported) (omega arith)))
          | inr none_found ↦ rw none_found (last-Cleared w reported none_found)
        ]

    not_negative : (a : ℤ) → ltb_ℤ (pos 0) a ≡ true → leb_ℤ (pos 0) a ≡ true
    not_negative a h = ground arith

    wait-Gone :
        (fuel : ℕ) (w : World) (reported : List (ℤ × ℕ))
        → children w + running_time w < fuel
        → Ended
            (Gone (children w + length reported) (named_with w reported))
            (wait_loop calls fuel w reported)
    unfolding wait_loop
    wait-Gone zero w reported lt = absurd (omega arith)
    wait-Gone (suc fuel) w reported lt =
        let pid = (calls.waitpid w).pid in
        let w1 = (calls.waitpid w).world in
        elim (Bool-cases (ltb_ℤ (pos 0) pid)) [
          | inl found ↦
              let taken = laws.waitpid_takes w found in
              rw (not_negative pid found) (
                rw found (
                  same-Gone (omega arith) (λ p. omega (arith, laws.waitpid_names w p found)) _
                    (wait-Gone fuel w1 ((pid, (calls.waitpid w).status) ∷ reported)
                      (omega (arith, laws.waitpid_time w)))))
          | inr none_found ↦ elim (Bool-cases (leb_ℤ (pos 0) pid)) [
            | inl running ↦
                let (same, none_left) = laws.waitpid_none w none_found in
                let slept =
                  laws.sleep_time w1 (omega (arith, laws.waitpid_succeeds w running)) none_left in
                rw running (
                  rw none_found (
                    same-Gone (omega (arith, laws.sleep_children w1))
                      (λ p. omega (arith, laws.sleep_names w1 p, laws.waitpid_keeps w p none_found))
                      _
                      (wait-Gone fuel (calls.sleep w1) reported
                        (omega (arith, laws.waitpid_time w, laws.sleep_children w1)))))
            | inr failed ↦ rw failed (last-Gone w reported none_found failed)
          ]
        ]

    reported-Reaps :
        (w : World) (out : Outcome (Reaped World))
        → Ended (Cleared (children w + 0) (named_with w [])) out
        → Reaps w (out >>= (λ r. ok (r.reported, r.last.world)))
    reported-Reaps w (ok r) (all, counted, none_left, fails) =
        (omega arith, none_left, λ p. omega (arith, counted p))
    reported-Reaps w aborted h = h
    reported-Reaps w fault h = h
    reported-Reaps w unfinished h = h

    -- What comes after the loop does not end the process.
    goes_on-Ended :
        (Before : Reaped World → Type 0) (After : List (ℤ × ℕ) × World → Type 0)
        → ((r : Reaped World)
            → Before r
            → (ltb_ℤ r.last.pid (pos 0) ≡ true → r.last.is_echild ≡ true)
              × After (r.reported, r.last.world))
        → (out : Outcome (Reaped World)) → Ended Before out
        → Comes After (λ exitstatus r. ⊥) (out >>= (λ r. ok (exit_on_error r)))
    unfolding exit_on_error
    goes_on-Ended Before After after (ok r) h = elim (Bool-cases (ltb_ℤ r.last.pid (pos 0))) [
      | inl failed ↦ rw failed (rw ((after r h).0 failed) (after r h).1)
      | inr found ↦ rw found (after r h).1
    ]
    goes_on-Ended Before After after aborted h = h
    goes_on-Ended Before After after fault h = h
    goes_on-Ended Before After after unfinished h = h

    -- If the calls keep to their laws and the fuel exceeds the number of children, the handlers
    -- `sigchld_func`, `func_waitpid` and `sigfunc` come to an end at SIGCHLD: as many children
    -- have been reported as are gone, each pid as often as a child that had it is gone, no zombie
    -- is left, and `sigfunc` does not end the process.
    pub handlers-Reaps :
        (fuel : ℕ) (w : World)
        → children w < fuel
        → Reaps w (sigchld_func calls fuel 17 w)
          × Reaps w (func_waitpid calls fuel 17 w)
          × Comes (λ r. Reaps w (ok r)) (λ exitstatus r. ⊥) (sigfunc calls fuel 17 w)
    unfolding sigchld_func func_waitpid sigfunc waitchild
    handlers-Reaps fuel w lt =
        let cleared = reap-Cleared fuel w [] lt in
        (
          reported-Reaps w _ cleared,
          reported-Reaps w _ cleared,
          goes_on-Ended (Cleared (children w + 0) (named_with w [])) (λ r. Reaps w (ok r))
              (λ r (all, counted, none_left, fails).
                (fails, (omega arith, none_left, λ p. omega (arith, counted p))))
              _ cleared,
        )

    -- If the calls keep to their laws, by which `sleep` leaves the children as they are (no
    -- handler runs during the call), and the fuel exceeds the number of the children and the time
    -- that they still run, `wait_all_children` comes to an end and does not end the process: each
    -- pid has been reported as often as it was that of a child, as many reports as there were
    -- children, and no child and no zombie is left.
    pub wait_all_children-Gone :
        (fuel : ℕ) (w : World)
        → children w + running_time w < fuel
        → Comes (AllGone w) (λ exitstatus r. ⊥) (wait_all_children calls fuel w)
    unfolding wait_all_children
    wait_all_children-Gone fuel w lt =
        goes_on-Ended (Gone (children w + 0) (named_with w [])) (AllGone w)
          (λ r (all, counted, no_children, none_left, echild). (
            λ failed. echild,
            (omega arith, λ p. omega (arith, counted p), no_children, none_left),
          ))
          _ (wait-Gone fuel w [] lt)
