-- ===== src/Udp/Network.antt =====
-- A network between csc_echo_udp.cpp and css_echo_udp.cpp: what the client needs of its server is what `udp_echo` does.
use serversidedev.Prelude.{
  ℕ, zero, suc, ◌≤◌, ◌≡◌, refl, ap, false, List, [], ◌∷◌, length, take, arith,
}
use serversidedev.Prelude.Int.{ℤ, pos, negsuc, ltb_ℤ}
use serversidedev.Prelude.Served.{Served, goes_on, exits}
use serversidedev.Udp.{Addr, System, udp_echo}
use serversidedev.Udp.Client.Shown.{EchoService}

-- The datagrams on their way to the server, with their senders, and those on their way to the client.
pub record Wire : Type 0 where
  pub to_server : List (Addr × List ℕ)
  pub to_client : List (List ℕ)

abbrev take_datagram : List (Addr × List ℕ) → Wire → ℕ → ℤ × List ℕ × Addr × Wire
take_datagram [] w size = (negsuc 10, [], [], w)
take_datagram ((addr, datagram) ∷ later) w size =
    (pos (length (take size datagram)), take size datagram, addr, record w { to_server = later })

-- The calls of the server.
abbrev pub server_system : System Wire
server_system = record {
  socket = λ w. (pos 3, w);
  bind = λ w fd port. (pos 0, w);
  connect = λ w fd addr. (pos 0, w);
  recvfrom = λ w fd size. take_datagram w.to_server w size;
  sendto = λ w fd buff addr. (pos (length buff), record w { to_client = buff ∷ [] });
  select = λ w maxfdp1 fds. (pos 1, fds, w);
}

module _ (srvaddr cliaddr : Addr) where
  abbrev take_reply : List (List ℕ) → Wire → ℕ → ℤ × List ℕ × Addr × Wire
  take_reply [] w size = (negsuc 10, [], [], w)
  take_reply (datagram ∷ later) w size = (
    pos (length (take size datagram)),
    take size datagram,
    srvaddr,
    record w { to_client = later },
  )

  abbrev after_server : Served Wire → ℕ → ℤ × List ℕ × Addr × Wire
  after_server (goes_on w) size = take_reply w.to_client w size
  after_server (exits exitstatus w) size = (negsuc 10, [], [], w)

  -- The calls of the client. What has not been received is lost when it sends again, and while it waits the server makes a round.
  abbrev pub client_system : System Wire
  client_system = record {
    socket = λ w. (pos 4, w);
    bind = λ w fd port. (pos 0, w);
    connect = λ w fd addr. (pos 0, w);
    recvfrom = λ w fd size. after_server (udp_echo server_system w (pos 3)) size;
    sendto = λ w fd buff addr.
        (pos (length buff), record { to_server = (cliaddr, buff) ∷ []; to_client = [] });
    select = λ w maxfdp1 fds. (pos 1, fds, w);
  }

  take-take : (n m : ℕ) (xs : List ℕ) → n ≤ m → take n (take m xs) ≡ take n xs
  take-take zero m xs h = refl
  take-take (suc n) zero xs h = absurd (omega arith)
  take-take (suc n) (suc m) [] h = refl
  take-take (suc n) (suc m) (x ∷ xs) h = ap (λ l. x ∷ l) (take-take n m xs (omega arith))

  -- The server gives each datagram back.
  echoed :
      (bytes : List ℕ)
      → udp_echo server_system
          (record { to_server = (cliaddr, bytes) ∷ []; to_client = [] })
          (pos 3)
        ≡ goes_on (record { to_server = []; to_client = take 1024 bytes ∷ [] })
  unfolding udp_echo
  echoed bytes = rw (fine (length (take 1024 bytes))) refl
    where
      fine : (n : ℕ) → ltb_ℤ (pos n) (pos 0) ≡ false
      fine n = ground arith

  pub udp_echo-EchoService :
      (clifd : ℤ) (destination : Addr) → EchoService client_system clifd srvaddr destination
  udp_echo-EchoService clifd destination = record {
    sends = λ w bytes. fine (length bytes);
    receives = λ w bytes. rw (echoed bytes) (fine (length (take 1023 (take 1024 bytes))));
    replies = λ w bytes. rw (echoed bytes) (take-take 1023 1024 bytes (omega arith));
    from_server = λ w bytes. rw (echoed bytes) refl;
  }
    where
      fine : (n : ℕ) → ltb_ℤ (pos n) (pos 0) ≡ false
      fine n = ground arith
