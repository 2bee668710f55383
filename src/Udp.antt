-- ===== src/Udp.antt =====
-- The UDP programs: the servers css_echo_udp.cpp, css_echo_udp_connect.cpp and css_udp_overflow.cpp, and csc_udp_overflow.cpp.
pub mod Answering
pub mod Client
pub mod Counting
pub mod Network
mod Overflow
mod Tests
use serversidedev.Prelude.{
  ℕ, zero, suc, ◌+◌, ◌*◌, ◌≡◌, Bool, true, false, List, [], ◌∷◌, ◌++◌, take, if◌then◌else◌,
}
use serversidedev.Prelude.Int.{ℤ, pos, eq_ℤ, ltb_ℤ, leb_ℤ, ◌+ℤ◌}
use serversidedev.Prelude.Outcome.{Outcome, ok, ◌>>=◌, ◌>>◌, assert}
use serversidedev.Prelude.Served.{Served, goes_on, exits, and_then, unless_ended, repeat}

-- The bytes of a `sockaddr`, as many as its `addrlen` says. A NULL pointer is an empty one.
abbrev pub Addr : Type 0
Addr = List ℕ

-- The calls. `recvfrom` fills the buffer with the bytes of the list, and says who sent them.
pub record System (World : Type 0) : Type 0 where
  pub socket : World → ℤ × World
  pub bind : World → ℤ → ℕ → ℤ × World
  pub connect : World → ℤ → Addr → ℤ × World
  pub recvfrom : World → ℤ → ℕ → ℤ × List ℕ × Addr × World
  pub sendto : World → ℤ → List ℕ → Addr → ℤ × World
  pub select : World → ℤ → (ℤ → Bool) → ℤ × (ℤ → Bool) × World

module _ {World : Type 0} (sys : System World) where
  unfoldable pub udp_socket_bind : World → ℕ → Served (ℤ × World)
  udp_socket_bind w port =
      let (srvfd, w1) = sys.socket w in
      let (re, w2) = sys.bind w1 srvfd port in
      if ltb_ℤ srvfd (pos 0)
      then exits 1 (srvfd, w1)
      else if ltb_ℤ re (pos 0)
      then exits 1 (srvfd, w2)
      else goes_on (srvfd, w2)

  -- `udp_echo` of css_echo_udp.cpp.
  unfoldable pub udp_echo : World → ℤ → Served World
  udp_echo w srvfd =
      let (len, buff, cliaddr, w1) = sys.recvfrom w srvfd 1024 in
      let (re, w2) = sys.sendto w1 srvfd buff cliaddr in
      if ltb_ℤ len (pos 0) then exits 1 w1 else if ltb_ℤ re (pos 0) then exits 1 w2 else goes_on w2

  -- `udp_echo_connect` of css_echo_udp_connect.cpp. Its messages are left out.
  unfoldable pub udp_echo_connect : World → ℤ → Served World
  udp_echo_connect w srvfd =
      let (len, buff, cliaddr, w1) = sys.recvfrom w srvfd 1024 in
      let (re, w2) = sys.sendto w1 srvfd buff cliaddr in
      if ltb_ℤ len (pos 0) then exits 1 w1 else if ltb_ℤ re (pos 0) then exits 1 w2 else goes_on w2

  -- `main` of css_echo_udp.cpp for a number of rounds.
  unfoldable pub udp_server : ℕ → World → Served World
  unfolding udp_socket_bind udp_echo repeat
  udp_server rounds w = elim (udp_socket_bind w 25000) [
    | goes_on opened ↦ repeat (λ w1. udp_echo w1 opened.0) rounds opened.1
    | exits exitstatus opened ↦ exits exitstatus opened.1
  ]

  -- `while((re=select(srvfd+1,&fds1,NULL,NULL,NULL))>0){ ... }` of css_echo_udp_connect.cpp and what follows, for a number of rounds.
  unfoldable pub select_loop : ℕ → World → ℤ → Outcome (Served World)
  unfolding udp_echo_connect and_then
  select_loop zero w srvfd = ok (goes_on w)
  select_loop (suc rounds) w srvfd =
      let (re, fds1, w1) = sys.select w (srvfd +ℤ pos 1) (λ d. eq_ℤ d srvfd) in
      let rest =
        assert (fds1 srvfd)
        >> and_then (udp_echo_connect w1 srvfd) (λ w2. select_loop rounds w2 srvfd) in
      if ltb_ℤ (pos 0) re then rest else ok (if ltb_ℤ re (pos 0) then exits 1 w1 else exits 0 w1)

  -- `main` of css_echo_udp_connect.cpp.
  unfoldable pub select_server : ℕ → World → Outcome (Served World)
  unfolding udp_socket_bind select_loop
  select_server rounds w = elim (udp_socket_bind w 25000) [
    | goes_on opened ↦ select_loop rounds opened.1 opened.0
    | exits exitstatus opened ↦ ok (exits exitstatus opened.1)
  ]

  -- The loop of css_udp_overflow.cpp, for a number of rounds, with `cout`.
  unfoldable pub count_msgs : ℕ → ℤ → ℕ × World → Served (ℕ × World)
  count_msgs zero srvfd (cout, w) = goes_on (cout, w)
  count_msgs (suc rounds) srvfd (cout, w) =
      let (re, buff, addr, w1) = sys.recvfrom w srvfd 1400 in
      let rest = count_msgs rounds srvfd (cout + 1, w1) in
      if leb_ℤ (pos 0) re then rest else exits 1 (cout, w1)

  -- The loop of csc_udp_overflow.cpp, for the rounds that are left. `buff` has not been set.
  unfoldable pub send_msgs : ℕ → World → ℤ → List ℕ → Addr → Served World
  send_msgs zero w srvfd buff srvaddr = goes_on w
  send_msgs (suc left) w srvfd buff srvaddr =
      let (re, w1) = sys.sendto w srvfd buff srvaddr in
      let rest = send_msgs left w1 srvfd buff srvaddr in
      if ltb_ℤ re (pos 0) then exits 1 w1 else rest

-- The datagrams that have been received and sent, with the other side, oldest first.
pub record Mail (World : Type 0) : Type 0 where
  pub arrived : World → List (Addr × List ℕ)
  pub sent : World → List (Addr × List ℕ)

module _ {World : Type 0} (mail : Mail World) where
  -- Nothing was received or sent.
  pub record Silent (w w' : World) : Type 0 where
    pub arrived : mail.arrived w' ≡ mail.arrived w
    pub sent : mail.sent w' ≡ mail.sent w

-- What POSIX says of the calls: a datagram is received as a whole, and what does not fit is dropped.
pub record Laws {World : Type 0} (sys : System World) (mail : Mail World) : Type 0 where
  pub socket_silent : (w : World) → Silent mail w (sys.socket w).1
  pub bind_silent : (w : World) (fd : ℤ) (port : ℕ) → Silent mail w (sys.bind w fd port).1
  pub connect_silent : (w : World) (fd : ℤ) (addr : Addr) → Silent mail w (sys.connect w fd addr).1
  pub select_silent : (w : World) (fd : ℤ) (fds : ℤ → Bool) → Silent mail w (sys.select w fd fds).2
  -- What is reported is a member of the set.
  pub select_finds :
      (w : World) (maxfdp1 : ℤ) (fds : ℤ → Bool)
      → ltb_ℤ (pos 0) (sys.select w maxfdp1 fds).0 ≡ true
      → (d : ℤ) × (fds d ≡ true) × ((sys.select w maxfdp1 fds).1 d ≡ true)
  pub recvfrom_takes :
      (w : World) (fd : ℤ) (size : ℕ)
      → ltb_ℤ (sys.recvfrom w fd size).0 (pos 0) ≡ false
      → (mail.sent (sys.recvfrom w fd size).3 ≡ mail.sent w)
        × ((datagram : List ℕ) × (mail.arrived (sys.recvfrom w fd size).3
              ≡ mail.arrived w ++ (((sys.recvfrom w fd size).2, datagram) ∷ []))
            × ((sys.recvfrom w fd size).1 ≡ take size datagram))
  pub recvfrom_fails :
      (w : World) (fd : ℤ) (size : ℕ)
      → ltb_ℤ (sys.recvfrom w fd size).0 (pos 0) ≡ true
      → Silent mail w (sys.recvfrom w fd size).3
  pub sendto_sends :
      (w : World) (fd : ℤ) (buff : List ℕ) (addr : Addr)
      → ltb_ℤ (sys.sendto w fd buff addr).0 (pos 0) ≡ false
      → (mail.arrived (sys.sendto w fd buff addr).1 ≡ mail.arrived w)
        × (mail.sent (sys.sendto w fd buff addr).1 ≡ mail.sent w ++ ((addr, buff) ∷ []))
  pub sendto_fails :
      (w : World) (fd : ℤ) (buff : List ℕ) (addr : Addr)
      → ltb_ℤ (sys.sendto w fd buff addr).0 (pos 0) ≡ true
      → Silent mail w (sys.sendto w fd buff addr).1
