-- ===== src/Lhf/Daemon/Detached.antt =====
-- What `daemon_init` leaves of the process.
use serversidedev.Prelude.{
  ℕ, zero, suc, ◌+◌, ◌≤◌, ◌<◌, ◌≡◌, ◌≢◌, refl, ap, ◌∙◌, false, Bool-cases, inl, inr, arith,
}
use serversidedev.Prelude.Int.{ℤ, pos, pos_part, ltb_ℤ}
use native.Mathlib.Decide.{dec_lt}
use serversidedev.Prelude.Served.{Served, goes_on, exits, Runs, Runs-unless_ended}
use serversidedev.Lhf.Daemon.{
  Calls, fork_and_reserve_child_process, reserved, close_from, new_session, leave_directory,
  daemon_init, Process, Laws,
}

module _ {World : Type 0} (calls : Calls World) (process : Process World) where
  open process use {is_open, is_leader}

  -- The descriptors are those of the start.
  Opens : World → World → Type 0
  Opens w w' = (d : ℤ) → is_open w' d ≡ is_open w d

  -- It leads no session; 0, 1 and 2 are as at the start, and 3 to 63 are closed.
  abbrev pub Detached : World → World → Type 0
  Detached w w' =
      (is_leader w' ≡ false)
      × ((k : ℕ) → k < 3 → is_open w' (pos k) ≡ is_open w (pos k))
      × ((k : ℕ) → 3 ≤ k → k < 64 → is_open w' (pos k) ≡ false)

  abbrev pub Fails : ℕ → World → Type 0
  Fails exitstatus w = exitstatus ≡ 1

  pos-ne : (a b : ℕ) → a ≢ b → pos a ≢ pos b
  pos-ne a b ne e = ne (ap pos_part e)

  module _ (laws : Laws calls process) where
    reserved-Opens :
        (w : World) → Runs (λ w1. (is_leader w1 ≡ false) × Opens w w1) Fails (reserved calls w)
    unfolding reserved fork_and_reserve_child_process Opens
    reserved-Opens w = elim (Bool-cases (ltb_ℤ (calls.fork w).0 (pos 0))) [
      | inl failed ↦ rw (failed, Runs) (rw failed refl)
      | inr forked ↦ rw (forked, Runs) (laws.forked_leader w, laws.forked_open w)
    ]

    new_session-Opens : (w : World) → Runs (λ w1. Opens w w1) Fails (new_session calls w)
    unfolding new_session Opens
    new_session-Opens w =
        let (re, w1) = calls.setsid w in
        elim (Bool-cases (ltb_ℤ re (pos 0))) [
          | inl failed ↦ rw failed refl
          | inr made ↦ rw made (λ d. (laws.ignore_sighup_same w1).fds d ∙ laws.setsid_open w d)
        ]

    -- What the loop closes.
    close_from-closes :
        (left i : ℕ) (w : World)
        → (is_leader (close_from calls left i w) ≡ is_leader w)
          × ((k : ℕ) → k < i → is_open (close_from calls left i w) (pos k) ≡ is_open w (pos k))
          × ((k : ℕ) → i ≤ k → k < i + left → is_open (close_from calls left i w) (pos k) ≡ false)
    unfolding close_from
    close_from-closes zero i w = (refl, (λ k lt. refl), (λ k le lt. absurd (omega arith)))
    close_from-closes (suc left) i w =
        let (leader, below, above) = close_from-closes left (suc i) (calls.close w (pos i)) in
        (
          leader ∙ laws.close_leader w (pos i),
          (λ k lt.
              below k (omega arith)
              ∙ laws.close_others w (pos i) (pos k) (pos-ne k i (λ e. absurd (omega arith)))),
          (λ k le lt. elim (dec_lt i k) [
            | yes over ↦ above k (omega arith) (omega arith)
            | no here ↦
                below k (omega arith)
                ∙ ap (λ d. is_open (calls.close w (pos i)) (pos d)) (at i k le (omega arith))
                ∙ laws.close_closes w (pos i)
          ]),
        )
      where
        at : (i k : ℕ) → i ≤ k → k ≤ i → k ≡ i
        at i k le ge = omega arith

    leave_directory-Detached :
        (w : World) → is_leader w ≡ false → Runs (Detached w) Fails (leave_directory calls w)
    unfolding leave_directory
    leave_directory-Detached w h =
        let (found, w1) = calls.getcwd w in
        let (re, w2) = calls.chdir_root w1 in
        let w3 = close_from calls 61 3 w2 in
        let (leader, below, above) = close_from-closes 61 3 w2 in
        let got = laws.getcwd_same w in
        let went = laws.chdir_root_same w1 in
        let logs = laws.openlog_same w3 in
        elim (Bool-cases found) [
          | inr none_found ↦ rw none_found refl
          | inl is_found ↦ rw is_found (elim (Bool-cases (ltb_ℤ re (pos 0))) [
            | inl failed ↦ rw failed refl
            | inr changed ↦ rw changed (
              logs.session ∙ leader ∙ went.session ∙ got.session ∙ h,
              (λ k lt. logs.fds (pos k) ∙ below k lt ∙ went.fds (pos k) ∙ got.fds (pos k)),
              (λ k le lt. logs.fds (pos k) ∙ above k le lt),
            )
          ])
        ]

    Detached-from : (w w1 w2 : World) → Opens w w1 → Detached w1 w2 → Detached w w2
    unfolding Opens
    Detached-from w w1 w2 same (leader, below, above) =
        (leader, (λ k lt. below k lt ∙ same (pos k)), above)

    from-Detached :
        (w w1 : World) (out : Served World)
        → Opens w w1
        → Runs (Detached w1) Fails out
        → Runs (Detached w) Fails out
    from-Detached w w1 (goes_on w2) same h = Detached-from w w1 w2 same h
    from-Detached w w1 (exits exitstatus w2) same h = h

    -- If the calls keep to their laws, the process that `daemon_init` leaves either has failed
    -- with status 1 or leads no session, has 0, 1 and 2 as at the start, and has 3 to 63 closed.
    pub daemon_init-Detached : (w : World) → Runs (Detached w) Fails (daemon_init calls w)
    unfolding daemon_init
    daemon_init-Detached w =
        Runs-unless_ended (λ w1. (is_leader w1 ≡ false) × Opens w w1) (Detached w) Fails
          (reserved calls w) _ (reserved-Opens w)
          (λ w1 (none_leads, same1). from-Detached w w1 _ same1 (
            Runs-unless_ended (Opens w1) (Detached w1) Fails (new_session calls w1) _
              (new_session-Opens w1)
              (λ w2 same2. from-Detached w1 w2 _ same2 (
                Runs-unless_ended (λ w3. (is_leader w3 ≡ false) × Opens w2 w3) (Detached w2) Fails
                  (reserved calls w2) _ (reserved-Opens w2)
                  (λ w3 (leads, same3).
                    from-Detached w2 w3 _ same3 (leave_directory-Detached w3 leads))))))
