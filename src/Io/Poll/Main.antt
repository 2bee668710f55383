-- ===== src/Io/Poll/Main.antt =====
-- The `main` of io/css_echo_poll.cpp and of io/csc_echo_poll.cpp, from their arguments behind the program's name.
use serversidedev.Prelude.{
  ℕ, ◌≡◌, refl, true, Bool-cases, inl, inr, List, [], ◌∷◌, arith, ◌==◌, if◌then◌else◌,
}
use serversidedev.Prelude.Int.{pos, ◌≤ℤ◌, ltb_ℤ}
use serversidedev.Prelude.Outcome.{Outcome, ok, aborted, fault, unfinished, ◌>>=◌}
use serversidedev.Prelude.Served.{Served, goes_on, exits, Comes, map_served}
use serversidedev.Io.{System, Polled}
use serversidedev.Io.Sockets.{socket_bind_listen}
use serversidedev.Io.Client.Polling.{poll_client}
use serversidedev.Io.Options.{atoi, port_of}
use serversidedev.Io.Poll.{Poller, poll_rounds, poll_start}
use serversidedev.Io.Poll.Slots.{Compact, poll_rounds-Compact}

module _ {World : Type 0} (sys : System World) where
  -- The server, for a number of rounds of its loop.
  unfoldable poll_main : ℕ → List (List ℕ) → (ℕ → Polled) → World → Outcome (Served World)
  unfolding socket_bind_listen poll_rounds poll_start
  poll_main rounds [] unset w = ok (exits 1 w)
  poll_main rounds (port ∷ args) unset w =
      let (re, svrfd, w1) = socket_bind_listen sys w (port_of (atoi port)) in
      let run = poll_rounds sys rounds svrfd (poll_start svrfd unset w1) in
      if re == 0 then run >>= (λ out. ok (map_served (λ s. s.world) out)) else ok (exits 1 w1)

  -- The client; `fileno` gives 0 and 1.
  unfoldable poll_client_main : ℕ → List (List ℕ) → World → Outcome (Served World)
  unfolding poll_client
  poll_client_main rounds [] w = ok (exits 1 w)
  poll_client_main rounds (port ∷ args) w =
      poll_client sys rounds w (port_of (atoi port)) (pos 0) (pos 1)
      >>= (λ out. ok (map_served (λ c. c.world) out))

  -- A descriptor that is listened on is not negative.
  listens-pos :
      (w : World) (port : ℕ)
      → (socket_bind_listen sys w port).0 == 0 ≡ true
      → pos 0 ≤ℤ (socket_bind_listen sys w port).1
  unfolding socket_bind_listen
  listens-pos w port h =
      let (svrfd, w1) = sys.socket w in
      let (bound, w2) = sys.bind w1 svrfd port in
      elim (Bool-cases (ltb_ℤ svrfd (pos 0))) [
        | inl no_socket ↦ absurd (ground (arith, h, no_socket))
        | inr made ↦ elim (Bool-cases (ltb_ℤ bound (pos 0))) [
          | inl in_use ↦ absurd (ground (arith, h, made, in_use))
          | inr binds ↦ rw made (rw binds (ground (arith, made)))
        ]
      ]

  -- It goes on, or the process exits with status 1.
  abbrev Persists : Outcome (Served World) → Type 0
  Persists out = Comes (λ w. Unit) (λ exitstatus w. exitstatus ≡ 1) out

  world-Persists :
      (out : Outcome (Served (Poller World)))
      → Comes Compact (λ exitstatus s. exitstatus ≡ 1) out
      → Persists (out >>= (λ served. ok (map_served (λ s. s.world) served)))
  world-Persists (ok (goes_on s)) h = tt
  world-Persists (ok (exits exitstatus s)) h = h
  world-Persists aborted h = h
  world-Persists fault h = h
  world-Persists unfinished h = h

  -- With any arguments and through any number of rounds, whatever the system calls return, the server
  -- goes on or exits with status 1.
  poll_main-Persists :
      (rounds : ℕ) (args : List (List ℕ)) (unset : ℕ → Polled) (w : World)
      → Persists (poll_main rounds args unset w)
  unfolding poll_main
  poll_main-Persists rounds [] unset w = refl
  poll_main-Persists rounds (port ∷ args) unset w =
      let number = port_of (atoi port) in
      let (re, svrfd, w1) = socket_bind_listen sys w number in
      elim (Bool-cases (re == 0)) [
        | inl listens ↦ rw listens (
            world-Persists (poll_rounds sys rounds svrfd (poll_start svrfd unset w1))
              (poll_rounds-Compact sys rounds svrfd unset w1 (listens-pos w number listens)))
        | inr failed ↦ rw failed refl
      ]
