-- ===== src/Io/Epoll/Server.antt =====
-- `socket_bind_listen_epoll_create_epoll_ctl` of io/socketio.cpp and `main` of io/css_echo_epoll.cpp.
use serversidedev.Prelude.{ℕ, Bool-cases, inl, inr, if◌then◌else◌, ◌==◌}
use serversidedev.Prelude.Int.{ℤ, pos, ltb_ℤ}
use serversidedev.Prelude.Outcome.{Outcome, ok}
use serversidedev.Io.{System, Streams, Laws, Silent, ctl_add}
use serversidedev.Io.Sockets.{socket_bind_listen, Silent-trans, socket_bind_listen-Silent}
use serversidedev.Io.Echo.Even.{Even, Even-Behind, Silent-Even}
use serversidedev.Prelude.Served.{Served, exits}
use serversidedev.Io.Epoll.{bit_epollin, epoll_add, serve_rounds}
use serversidedev.Io.Epoll.Answering.{Answered, serve_rounds-Answered}

module _ {World : Type 0} (sys : System World) where
  -- The return value, `srvfd` and `epollfd`. Where the code leaves `epollfd` unset, it is -1 here.
  unfoldable pub socket_bind_listen_epoll_create_epoll_ctl : World → ℕ → ℕ × ℤ × ℤ × World
  unfolding epoll_add
  socket_bind_listen_epoll_create_epoll_ctl w port =
      let (re, srvfd, w1) = socket_bind_listen sys w port in
      let (epollfd, w2) = sys.epoll_create w1 in
      let (added, w3) = epoll_add sys w2 epollfd srvfd bit_epollin in
      if re == 0
      then (if ltb_ℤ epollfd (pos 0)
          then (2, srvfd, epollfd, w2)
          else (if added == 0 then 0 else 3, srvfd, epollfd, w3))
      else (1, srvfd, ℤ.negsuc 0, w1)

  -- `main` for a number of rounds of its loop.
  unfoldable pub epoll_main : ℕ → World → ℕ → Outcome (Served World)
  unfolding socket_bind_listen_epoll_create_epoll_ctl serve_rounds
  epoll_main rounds w opport =
      let (re, srvfd, epollfd, w1) = socket_bind_listen_epoll_create_epoll_ctl w opport in
      if re == 0 then serve_rounds sys rounds w1 epollfd srvfd else ok (exits 1 w1)

module _ {World : Type 0} (sys : System World) (streams : Streams World)
    (laws : Laws sys streams) where
  setup-Silent :
      (w : World) (port : ℕ)
      → Silent streams w (socket_bind_listen_epoll_create_epoll_ctl sys w port).3
  unfolding socket_bind_listen_epoll_create_epoll_ctl epoll_add
  setup-Silent w port =
      let (re, srvfd, w1) = socket_bind_listen sys w port in
      let (epollfd, w2) = sys.epoll_create w1 in
      let bound = socket_bind_listen-Silent sys streams laws w port in
      let created = Silent-trans bound (laws.epoll_create_silent w1) in
      elim (Bool-cases (re == 0)) [
        | inr not_bound ↦ rw not_bound bound
        | inl bind_ok ↦ rw bind_ok (elim (Bool-cases (ltb_ℤ epollfd (pos 0))) [
          | inl not_created ↦ rw not_created created
          | inr create_ok ↦
              rw create_ok (
                Silent-trans created (laws.epoll_ctl_silent w2 epollfd (ctl_add bit_epollin) srvfd))
        ])
      ]

  -- If the system calls keep to their laws and nothing has been received that was not sent back, then
  -- `main` of the epoll server, through any number of rounds of its loop, either goes on and on each
  -- descriptor all that was received has been sent back, in its order, or has exited and on each descriptor
  -- the front of what was received has been sent back. It fails an assertion only if a `write` of one byte
  -- or more returned 0.
  pub epoll_main-Answered :
      (rounds : ℕ) (w : World) (opport : ℕ)
      → Even streams w
      → Answered sys streams (epoll_main sys rounds w opport)
  unfolding epoll_main
  epoll_main-Answered rounds w opport even =
      let (re, srvfd, epollfd, w1) = socket_bind_listen_epoll_create_epoll_ctl sys w opport in
      let even1 = Silent-Even streams even (setup-Silent w opport) in
      elim (Bool-cases (re == 0)) [
        | inl ready ↦
            rw ready (serve_rounds-Answered sys streams laws rounds w1 epollfd srvfd even1)
        | inr failed ↦ rw failed (Even-Behind streams even1)
      ]
