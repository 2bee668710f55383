-- ===== src/Io/Sockets.antt =====
-- `socket_bind_listen` and `socket_connect` of io/socketio.cpp. A result has the return value, the descriptor that a reference
-- parameter receives, and the world after the call.
use serversidedev.Prelude.{ℕ, if◌then◌else◌, Bool-cases, inl, inr, ◌∙◌}
use serversidedev.Prelude.Int.{ℤ, pos, ltb_ℤ}
use serversidedev.Io.{System, Streams, Laws, Silent}

abbrev pub backlog : ℕ
backlog = 1024

module _ {World : Type 0} (sys : System World) where
  unfoldable pub socket_bind_listen : World → ℕ → ℕ × ℤ × World
  socket_bind_listen w port =
      let (svrfd, w1) = sys.socket w in
      let (bound, w2) = sys.bind w1 svrfd port in
      let (listens, w3) = sys.listen w2 svrfd backlog in
      if ltb_ℤ svrfd (pos 0)
      then (1, svrfd, w1)
      else if ltb_ℤ bound (pos 0)
      then (2, svrfd, w2)
      else (if ltb_ℤ listens (pos 0) then 3 else 0, svrfd, w3)

  unfoldable pub socket_connect : World → ℕ → ℕ × ℤ × World
  socket_connect w port =
      let (svrfd, w1) = sys.socket w in
      let (re, w2) = sys.connect w1 svrfd port in
      if ltb_ℤ svrfd (pos 0) then (1, svrfd, w1) else (if ltb_ℤ re (pos 0) then 2 else 0, svrfd, w2)

module _ {World : Type 0} {streams : Streams World} where
  pub Silent-trans :
      {w w1 w2 : World} → Silent streams w w1 → Silent streams w1 w2 → Silent streams w w2
  Silent-trans a b = record {
    unsent = λ d. b.unsent d ∙ a.unsent d;
    unread = λ d. b.unread d ∙ a.unread d;
  }

module _ {World : Type 0} (sys : System World) (streams : Streams World)
    (laws : Laws sys streams) where
  pub socket_bind_listen-Silent :
      (w : World) (port : ℕ) → Silent streams w (socket_bind_listen sys w port).2
  unfolding socket_bind_listen
  socket_bind_listen-Silent w port =
      let (svrfd, w1) = sys.socket w in
      let (bound, w2) = sys.bind w1 svrfd port in
      let opened = laws.socket_silent w in
      let named = Silent-trans opened (laws.bind_silent w1 svrfd port) in
      elim (Bool-cases (ltb_ℤ svrfd (pos 0))) [
        | inl no_socket ↦ rw no_socket opened
        | inr socket_ok ↦ rw socket_ok (elim (Bool-cases (ltb_ℤ bound (pos 0))) [
          | inl in_use ↦ rw in_use named
          | inr bind_ok ↦ rw bind_ok (Silent-trans named (laws.listen_silent w2 svrfd backlog))
        ])
      ]

  pub socket_connect-Silent :
      (w : World) (port : ℕ) → Silent streams w (socket_connect sys w port).2
  unfolding socket_connect
  socket_connect-Silent w port =
      let (svrfd, w1) = sys.socket w in
      elim (Bool-cases (ltb_ℤ svrfd (pos 0))) [
        | inl no_socket ↦ rw no_socket (laws.socket_silent w)
        | inr socket_ok ↦
            rw socket_ok (Silent-trans (laws.socket_silent w) (laws.connect_silent w1 svrfd port))
      ]
