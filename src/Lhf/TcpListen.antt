-- ===== src/Lhf/TcpListen.antt =====
-- `tcp_listen` of lib/lhf.cpp, and the server initd/daytimetcpsrv2.cpp after its `daemon_init`.
pub mod Listening
mod Tests
use serversidedev.Prelude.{
  ℕ, zero, suc, ◌≡◌, ◌<◌, Bool, true, false, List, [], ◌∷◌, ◌++◌, length, if◌then◌else◌,
}
use serversidedev.Prelude.Int.{ℤ, pos, ltb_ℤ}
use serversidedev.Prelude.Served.{Served, goes_on, exits, unless_ended, repeat}
use serversidedev.Lhf.Dump.{SockAddr, Info, Printing, dump_addrinfo}

-- A `struct addrinfo`, and where it stands.
pub record AddrInfo : Type 0 where
  pub address : ℕ
  pub info : Info

-- The calls, and the text that `ctime` and `snprintf` make of the time. `getaddrinfo` gets the host and the service.
-- `calltimes` are the static variables of `dump_addrinfo` and `dump_sockaddr`, which `dumped` sets as it puts out a text.
pub record Calls (World : Type 0) : Type 0 where
  pub getaddrinfo : World → List ℕ → List ℕ → ℤ × List AddrInfo × World
  pub socket : World → (ai_family ai_socktype ai_protocol : ℕ) → ℤ × World
  pub setsockopt : World → ℤ → ℤ × World
  pub bind : World → ℤ → SockAddr → ℕ → ℤ × World
  pub listen : World → ℤ → ℕ → ℤ × World
  pub close : World → ℤ → ℤ × World
  pub accept : World → ℤ → ℤ × World
  pub write : World → ℤ → List ℕ → ℤ × World
  pub date : World → List ℕ
  pub printing : Printing
  pub calltimes : World → ℕ × ℕ
  pub dumped : World → ℕ × ℕ → List ℕ → World

-- What an address comes to: whether a socket listens there, the last return value, and the socket.
pub record Tried (World : Type 0) : Type 0 where
  pub listens : Bool
  pub re : ℤ
  pub srvfd : ℤ
  pub world : World

module _ {World : Type 0} (calls : Calls World) where
  -- `dump_addrinfo("",paddrinfo)`
  unfoldable pub dump : AddrInfo → World → World
  unfolding dump_addrinfo
  dump ai w =
      let (calltimes1, text) =
        dump_addrinfo calls.printing (calls.calltimes w) [] ai.address ai.info in
      calls.dumped w calltimes1 text

  -- The rest of the body of `while(paddrinfo!=NULL)`.
  unfoldable pub try_address : AddrInfo → World → Tried World
  try_address ai w =
      let (srvfd, w1) = calls.socket w ai.info.ai_family ai.info.ai_socktype ai.info.ai_protocol in
      let (reused, w2) = calls.setsockopt w1 srvfd in
      let (bound, w3) = calls.bind w2 srvfd ai.info.ai_addr.1 ai.info.ai_addrlen in
      let (listening, w4) = calls.listen w3 srvfd 1024 in
      if ltb_ℤ srvfd (pos 0)
      then record { listens = false; re = srvfd; srvfd = srvfd; world = w1 }
      else if ltb_ℤ reused (pos 0)
      then record { listens = false; re = reused; srvfd = srvfd; world = (calls.close w2 srvfd).1 }
      else if ltb_ℤ bound (pos 0)
      then record { listens = false; re = bound; srvfd = srvfd; world = (calls.close w3 srvfd).1 }
      else if ltb_ℤ listening (pos 0)
      then record {
        listens = false;
        re = listening;
        srvfd = srvfd;
        world = (calls.close w4 srvfd).1;
      }
      else record { listens = true; re = listening; srvfd = srvfd; world = w4 }

  -- The loop and the return; `re` and `*addrlenp` before it. A result has the return value and `*addrlenp`.
  unfoldable pub try_addresses : List AddrInfo → ℤ → ℕ → World → ℤ × ℕ × World
  unfolding dump try_address
  try_addresses [] re addrlen w = (re, addrlen, w)
  try_addresses (ai ∷ ais) re addrlen w =
      let tried = try_address ai (dump ai w) in
      let rest = try_addresses ais tried.re addrlen tried.world in
      if tried.listens then (tried.srvfd, ai.info.ai_addrlen, tried.world) else rest

  unfoldable pub tcp_listen : World → (host serv : List ℕ) → ℕ → Served (ℤ × ℕ × World)
  unfolding try_addresses
  tcp_listen w host serv addrlen =
      let (re, ais, w1) = calls.getaddrinfo w host serv in
      if ltb_ℤ re (pos 0)
      then exits 1 (re, addrlen, w1)
      else goes_on (try_addresses ais re addrlen w1)

  -- A round of `while(1)` of daytimetcpsrv2.cpp. The text is sent with its 0.
  unfoldable pub daytime_round : World → ℤ → Served World
  daytime_round w srvfd =
      let (clifd, w1) = calls.accept w srvfd in
      let (re, w2) = calls.write w1 clifd (calls.date w1 ++ (0 ∷ [])) in
      if ltb_ℤ clifd (pos 0)
      then exits 1 w1
      else if ltb_ℤ re (pos 0)
      then exits 1 w2
      else goes_on (calls.close w2 clifd).1

  -- What `main` does after `tcp_listen`, for a number of rounds.
  unfoldable pub serve : ℕ → ℤ × ℕ × World → Served World
  unfolding daytime_round repeat
  serve rounds (re, addrlen, w) =
      if ltb_ℤ re (pos 0) then exits 1 w else repeat (λ w1. daytime_round w1 re) rounds w

  -- `main` from `tcp_listen` on. `addrlen` has not been set.
  unfoldable pub daytime_main : ℕ → World → (host serv : List ℕ) → ℕ → Served World
  unfolding tcp_listen serve
  daytime_main rounds w host serv addrlen = elim (tcp_listen w host serv addrlen) [
    | goes_on listened ↦ serve rounds listened
    | exits exitstatus ended ↦ exits exitstatus ended.2
  ]

-- The descriptors of the process: how many are open, which are, and which listen.
pub record Fds (World : Type 0) : Type 0 where
  pub opened : World → ℕ
  pub is_open : World → ℤ → Bool
  pub is_listening : World → ℤ → Bool

-- What POSIX says of the calls and the descriptors.
pub record Laws {World : Type 0} (calls : Calls World) (fds : Fds World) : Type 0 where
  pub getaddrinfo_opened :
      (w : World) (host serv : List ℕ) → fds.opened (calls.getaddrinfo w host serv).2 ≡ fds.opened w
  pub dumped_keeps :
      (w : World) (calltimes : ℕ × ℕ) (text : List ℕ)
      → fds.opened (calls.dumped w calltimes text) ≡ fds.opened w
  -- Without an error there is an address.
  pub getaddrinfo_finds :
      (w : World) (host serv : List ℕ)
      → ltb_ℤ (calls.getaddrinfo w host serv).0 (pos 0) ≡ false
      → 0 < length (calls.getaddrinfo w host serv).1
  pub socket_opens :
      (w : World) (a b c : ℕ)
      → ltb_ℤ (calls.socket w a b c).0 (pos 0) ≡ false
      → (fds.opened (calls.socket w a b c).1 ≡ suc (fds.opened w))
        × (fds.is_open (calls.socket w a b c).1 (calls.socket w a b c).0 ≡ true)
  pub socket_fails :
      (w : World) (a b c : ℕ)
      → ltb_ℤ (calls.socket w a b c).0 (pos 0) ≡ true
      → fds.opened (calls.socket w a b c).1 ≡ fds.opened w
  pub setsockopt_keeps :
      (w : World) (fd : ℤ)
      → (fds.opened (calls.setsockopt w fd).1 ≡ fds.opened w)
        × (fds.is_open (calls.setsockopt w fd).1 fd ≡ fds.is_open w fd)
  pub bind_keeps :
      (w : World) (fd : ℤ) (addr : SockAddr) (addrlen : ℕ)
      → (fds.opened (calls.bind w fd addr addrlen).1 ≡ fds.opened w)
        × (fds.is_open (calls.bind w fd addr addrlen).1 fd ≡ fds.is_open w fd)
  pub listen_keeps :
      (w : World) (fd : ℤ) (backlog : ℕ)
      → (fds.opened (calls.listen w fd backlog).1 ≡ fds.opened w)
        × (fds.is_open (calls.listen w fd backlog).1 fd ≡ fds.is_open w fd)
  pub listen_listens :
      (w : World) (fd : ℤ) (backlog : ℕ)
      → ltb_ℤ (calls.listen w fd backlog).0 (pos 0) ≡ false
      → fds.is_listening (calls.listen w fd backlog).1 fd ≡ true
  pub close_frees :
      (w : World) (fd : ℤ)
      → fds.is_open w fd ≡ true
      → fds.opened w ≡ suc (fds.opened (calls.close w fd).1)
  pub accept_opens :
      (w : World) (fd : ℤ)
      → ltb_ℤ (calls.accept w fd).0 (pos 0) ≡ false
      → (fds.opened (calls.accept w fd).1 ≡ suc (fds.opened w))
        × (fds.is_open (calls.accept w fd).1 (calls.accept w fd).0 ≡ true)
  pub accept_fails :
      (w : World) (fd : ℤ)
      → ltb_ℤ (calls.accept w fd).0 (pos 0) ≡ true
      → fds.opened (calls.accept w fd).1 ≡ fds.opened w
  pub write_keeps :
      (w : World) (fd : ℤ) (buff : List ℕ)
      → (fds.opened (calls.write w fd buff).1 ≡ fds.opened w)
        × (fds.is_open (calls.write w fd buff).1 fd ≡ fds.is_open w fd)
