-- ===== src/Io/Select/Main.antt =====
-- The `socket_bind_listen` that io/css_echo_select.cpp has of its own, and its `main`.
use serversidedev.Prelude.{ℕ, ◌≡◌, refl, false, Bool-cases, inl, inr, if◌then◌else◌}
use serversidedev.Prelude.Int.{ℤ, pos, ltb_ℤ}
use serversidedev.Prelude.FdOutcome.{FdOutcome, fine, ◌>>=◌}
use serversidedev.Prelude.Served.{Served, goes_on, exits, Runs, map_served}
use serversidedev.Io.{System}
use serversidedev.Io.Select.{server_run}

abbrev select_backlog : ℕ
select_backlog = 1000

module _ {World : Type 0} (sys : System World) where
  -- It ends the process where that of io/socketio.cpp returns.
  unfoldable listen_or_exit : World → ℕ → Served (ℤ × World)
  listen_or_exit w port =
      let (svrfd, w1) = sys.socket w in
      let (bound, w2) = sys.bind w1 svrfd port in
      let (listens, w3) = sys.listen w2 svrfd select_backlog in
      if ltb_ℤ svrfd (pos 0)
      then exits 1 (svrfd, w1)
      else if ltb_ℤ bound (pos 0)
      then exits 1 (svrfd, w2)
      else if ltb_ℤ listens (pos 0)
      then exits 1 (svrfd, w3)
      else goes_on (svrfd, w3)

  -- `main` for a number of rounds of its loop.
  unfoldable select_main : ℕ → World → FdOutcome (Served World)
  unfolding listen_or_exit server_run
  select_main rounds w = elim (listen_or_exit w 25000) [
    | goes_on (svrfd, w1) ↦
        server_run sys rounds svrfd w1 >>= (λ out. fine (map_served (λ s. s.world) out))
    | exits exitstatus (svrfd, w1) ↦ fine (exits exitstatus w1)
  ]

  -- The process goes on with a descriptor that is not negative, or has ended with status 1.
  listen_or_exit-Runs :
      (w : World) (port : ℕ)
      → Runs
          (λ opened. ltb_ℤ opened.0 (pos 0) ≡ false)
          (λ exitstatus opened. exitstatus ≡ 1)
          (listen_or_exit w port)
  unfolding listen_or_exit
  listen_or_exit-Runs w port =
      let (svrfd, w1) = sys.socket w in
      let (bound, w2) = sys.bind w1 svrfd port in
      let (listens, w3) = sys.listen w2 svrfd select_backlog in
      elim (Bool-cases (ltb_ℤ svrfd (pos 0))) [
        | inl failed ↦ rw failed refl
        | inr made ↦ rw made (elim (Bool-cases (ltb_ℤ bound (pos 0))) [
          | inl in_use ↦ rw in_use refl
          | inr bind_ok ↦ rw bind_ok (elim (Bool-cases (ltb_ℤ listens (pos 0))) [
            | inl refused ↦ rw refused refl
            | inr listen_ok ↦ rw listen_ok made
          ])
        ])
      ]
