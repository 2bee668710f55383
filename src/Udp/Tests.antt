-- ===== src/Udp/Tests.antt =====
-- A host with datagrams to receive, a network that echoes, and the theorems at runs with them.
use serversidedev.Prelude.{
  ℕ, ◌≡◌, refl, Bool, Bool-cases, inl, inr, true, false, List, [], ◌∷◌, ◌++◌, length, take, arith,
  if◌then◌else◌,
}
use serversidedev.Prelude.Int.{ℤ, pos, negsuc, ltb_ℤ}
use serversidedev.Prelude.CString.{c_string}
use serversidedev.Prelude.Outcome.{Outcome, ok}
use serversidedev.Prelude.Served.{Served, goes_on, Runs, Comes}
use serversidedev.Udp.{Addr, System, udp_server, select_server, Mail, Silent, Laws}
use serversidedev.Udp.Answering.{Answered, AlmostAnswered, servers-Answered}
use serversidedev.Udp.Client.{Terminal, udp_client, sendto_recvfrom_fputs}
use serversidedev.Udp.Network.{Wire, client_system, udp_echo-EchoService}
use serversidedev.Udp.Client.Shown.{PutsOut, udp_client-PutsOut}

record Post : Type 0 where
  queue : List (Addr × List ℕ)
  arrived : List (Addr × List ℕ)
  sent : List (Addr × List ℕ)

abbrev take_first : List (Addr × List ℕ) → Post → ℕ → ℤ × List ℕ × Addr × Post
take_first [] w size = (negsuc 10, [], [], w)
take_first ((addr, datagram) ∷ queue) w size = (
  pos (length (take size datagram)),
  take size datagram,
  addr,
  record w { queue = queue; arrived = w.arrived ++ ((addr, datagram) ∷ []) },
)

abbrev some_left : List (Addr × List ℕ) → ℕ
some_left [] = 0
some_left (x ∷ xs) = 1

abbrev post_system : System Post
post_system = record {
  socket = λ w. (pos 3, w);
  bind = λ w fd port. (pos 0, w);
  connect = λ w fd addr. (pos 0, w);
  recvfrom = λ w fd size. take_first w.queue w size;
  sendto = λ w fd buff addr. (pos (length buff), record w { sent = w.sent ++ ((addr, buff) ∷ []) });
  select = λ w maxfdp1 fds. (pos (if fds (pos 3) then some_left w.queue else 0), fds, w);
}

abbrev mail : Mail Post
mail = record { arrived = λ w. w.arrived; sent = λ w. w.sent }

nothing : (w : Post) → Silent mail w w
nothing w = record { arrived = refl; sent = refl }

takes :
    (queue : List (Addr × List ℕ)) (w : Post) (size : ℕ)
    → ltb_ℤ (take_first queue w size).0 (pos 0) ≡ false
    → ((take_first queue w size).3.sent ≡ w.sent)
      × ((datagram : List ℕ) × ((take_first queue w size).3.arrived
            ≡ w.arrived ++ (((take_first queue w size).2, datagram) ∷ []))
          × ((take_first queue w size).1 ≡ take size datagram))
takes [] w size h = absurd (ground arith)
takes ((addr, datagram) ∷ queue) w size h = (refl, (datagram, refl, refl))

takes_none :
    (queue : List (Addr × List ℕ)) (w : Post) (size : ℕ)
    → ltb_ℤ (take_first queue w size).0 (pos 0) ≡ true
    → Silent mail w (take_first queue w size).3
takes_none [] w size h = nothing w
takes_none ((addr, datagram) ∷ queue) w size h = absurd (ground arith)

finds :
    (w : Post) (fds : ℤ → Bool)
    → ltb_ℤ (pos 0) (pos (if fds (pos 3) then some_left w.queue else 0)) ≡ true
    → (d : ℤ) × (fds d ≡ true) × (fds d ≡ true)
finds w fds h = elim (Bool-cases (fds (pos 3))) [
  | inl watched ↦ (pos 3, watched, watched)
  | inr not_watched ↦ absurd (ground arith)
]

post-Laws : Laws post_system mail
post-Laws = record {
  socket_silent = λ w. nothing w;
  bind_silent = λ w fd port. nothing w;
  connect_silent = λ w fd addr. nothing w;
  select_silent = λ w maxfdp1 fds. nothing w;
  select_finds = λ w maxfdp1 fds h. finds w fds h;
  recvfrom_takes = λ w fd size h. takes w.queue w size h;
  recvfrom_fails = λ w fd size h. takes_none w.queue w size h;
  sendto_sends = λ w fd buff addr h. (refl, refl);
  sendto_fails = λ w fd buff addr h. absurd (ground arith);
}

-- Two senders.
abbrev post : Post
post = record {
  queue = ((1 ∷ []), (7 ∷ 8 ∷ [])) ∷ ((2 ∷ []), (9 ∷ [])) ∷ [];
  arrived = [];
  sent = [];
}

servers-Answered_example :
    Runs
      (Answered post_system mail)
      (AlmostAnswered post_system mail)
      (udp_server post_system 2 post)
    × Comes
        (Answered post_system mail)
        (AlmostAnswered post_system mail)
        (select_server post_system 2 post)
servers-Answered_example = servers-Answered post_system mail post-Laws 2 post refl

-- A network whose state is the last datagram, and which gives it back.
abbrev echo_system : System (List ℕ)
echo_system = record {
  socket = λ w. (pos 3, w);
  bind = λ w fd port. (pos 0, w);
  connect = λ w fd addr. (pos 0, w);
  recvfrom = λ w fd size. (pos (length (take size w)), take size w, 1 ∷ [], w);
  sendto = λ w fd buff addr. (pos (length buff), buff);
  select = λ w maxfdp1 fds. (pos 1, fds, w);
}

abbrev console : Terminal (List ℕ)
console = record { buff = 5 ∷ 5 ∷ 5 ∷ 5 ∷ 5 ∷ []; out = []; world = [] }

-- A reply that is longer than the line: what stood behind it in the buffer is put out too.
longer_reply : Outcome (Served (Terminal (List ℕ)))
longer_reply =
    sendto_recvfrom_fputs
      (record echo_system { recvfrom = λ w fd size. (pos 2, 8 ∷ 9 ∷ [], 1 ∷ [], w) }) (pos 3)
      (record console { buff = 7 ∷ 0 ∷ 5 ∷ 6 ∷ 0 ∷ [] }) 1 (1 ∷ [])

longer_reply_result :
    longer_reply
    ≡ ok (
        goes_on
          (record { buff = 8 ∷ 9 ∷ 5 ∷ 6 ∷ 0 ∷ []; out = 8 ∷ 9 ∷ 5 ∷ 6 ∷ []; world = 7 ∷ [] }))
unfolding longer_reply sendto_recvfrom_fputs c_string
longer_reply_result = refl

-- The server is that of css_echo_udp.cpp, behind the network of Network.
abbrev at_terminal : Terminal Wire
at_terminal = record {
  buff = 5 ∷ 5 ∷ 5 ∷ 5 ∷ 5 ∷ [];
  out = [];
  world = record { to_server = []; to_client = [] };
}

udp_client-PutsOut_example :
    PutsOut (client_system (1 ∷ []) (2 ∷ [])) (pos 4) (1 ∷ []) (7 ∷ 8 ∷ 9 ∷ []) (
      udp_client
        (client_system (1 ∷ []) (2 ∷ []))
        (pos 4)
        ((7 ∷ 8 ∷ []) ∷ (9 ∷ []) ∷ [])
        at_terminal
        (1 ∷ []))
udp_client-PutsOut_example =
    udp_client-PutsOut (client_system (1 ∷ []) (2 ∷ [])) (pos 4) (1 ∷ [])
      (udp_echo-EchoService (1 ∷ []) (2 ∷ []) (pos 4) (1 ∷ [])) ((7 ∷ 8 ∷ []) ∷ (9 ∷ []) ∷ [])
      at_terminal ((refl, (refl, tt)), omega arith, ((refl, tt), omega arith, tt))
