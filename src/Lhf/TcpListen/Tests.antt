-- ===== src/Lhf/TcpListen/Tests.antt =====
-- A table of descriptors with two addresses, of which the second works, and the theorems at runs with it.
use serversidedev.Prelude.{
  ℕ, suc, Bool-cases, inl, inr, ◌≡◌, refl, none, true, false, [], ◌∷◌, ◌++◌, length, arith, ◌==◌,
  if◌then◌else◌,
}
use serversidedev.Prelude.Int.{ℤ, pos, negsuc, ltb_ℤ}
use serversidedev.Prelude.Served.{goes_on}
use serversidedev.Prelude.Table.{Table, size, is_open, closed, has-end, frees}
use serversidedev.Lhf.Dump.{inet, inet6}
use serversidedev.Lhf.TcpListen.{AddrInfo, Calls, tcp_listen, Fds, Laws}
use serversidedev.Lhf.TcpListen.Listening.{ListensOrExits, tcp_listen-Listens}

abbrev address : ℕ → AddrInfo
address family = record {
  address = 4096;
  info = record {
    ai_flags = 1;
    ai_family = family;
    ai_socktype = 1;
    ai_protocol = 6;
    ai_addrlen = 16;
    ai_addr = (4160, if family == 10 then inet6 13 0 [] 0 else inet 13 (0 ∷ 0 ∷ 0 ∷ 0 ∷ []));
    ai_canonname = none;
    ai_next = 0;
  };
}

-- There is no socket for family 10.
abbrev opens_end : ℕ → Table → ℤ × Table
opens_end family t = if family == 10 then (negsuc 96, t) else (pos (length t), t ++ (true ∷ []))

abbrev calls : Calls Table
calls = record {
  getaddrinfo = λ t host serv. (pos 0, address 10 ∷ address 2 ∷ [], t);
  socket = λ t ai_family ai_socktype ai_protocol. opens_end ai_family t;
  setsockopt = λ t fd. (pos 0, t);
  bind = λ t fd addr addrlen. (pos 0, t);
  listen = λ t fd backlog. (if is_open t fd then pos 0 else negsuc 8, t);
  close = λ t fd. (pos 0, closed t fd);
  accept = λ t fd. opens_end 2 t;
  write = λ t fd buff. (pos (length buff), t);
  date = λ t. 77 ∷ 10 ∷ 10 ∷ [];
  printing = record { getpid = 7; pointer = λ n. n ∷ []; inet_ntop = λ family addr size. none };
  calltimes = λ t. (0, 0);
  dumped = λ t calltimes text. t;
}

abbrev fds : Fds Table
fds = record { opened = size; is_open = is_open; is_listening = is_open }

opens :
    (t : Table) (family : ℕ)
    → ltb_ℤ (opens_end family t).0 (pos 0) ≡ false
    → (size (opens_end family t).1 ≡ suc (size t))
      × (is_open (opens_end family t).1 (opens_end family t).0 ≡ true)
opens t family h = elim (Bool-cases (family == 10)) [
  | inl six ↦ absurd (ground arith)
  | inr four ↦ rw four ((has-end t).1, (has-end t).0)
]

none_opened :
    (t : Table) (family : ℕ)
    → ltb_ℤ (opens_end family t).0 (pos 0) ≡ true
    → size (opens_end family t).1 ≡ size t
none_opened t family h = elim (Bool-cases (family == 10)) [
  | inl six ↦ rw six refl
  | inr four ↦ absurd (ground arith)
]

listening :
    (t : Table) (fd : ℤ)
    → ltb_ℤ (if is_open t fd then pos 0 else negsuc 8) (pos 0) ≡ false
    → is_open t fd ≡ true
listening t fd h = elim (Bool-cases (is_open t fd)) [
  | inl is_there ↦ is_there
  | inr none_there ↦ absurd (ground arith)
]

laws : Laws calls fds
laws = record {
  getaddrinfo_opened = λ t host serv. refl;
  dumped_keeps = λ t calltimes text. refl;
  getaddrinfo_finds = λ t host serv h. omega arith;
  socket_opens = λ t a b c h. opens t a h;
  socket_fails = λ t a b c h. none_opened t a h;
  setsockopt_keeps = λ t fd. (refl, refl);
  bind_keeps = λ t fd addr addrlen. (refl, refl);
  listen_keeps = λ t fd backlog. (refl, refl);
  listen_listens = λ t fd backlog h. listening t fd h;
  close_frees = frees;
  accept_opens = λ t fd h. opens t 2 h;
  accept_fails = λ t fd h. none_opened t 2 h;
  write_keeps = λ t fd buff. (refl, refl);
}

abbrev standard : Table
standard = true ∷ true ∷ true ∷ []

tcp_listen_result :
    tcp_listen calls standard [] [] 0 ≡ goes_on (pos 3, 16, true ∷ true ∷ true ∷ true ∷ [])
unfolding tcp_listen
tcp_listen_result = refl

tcp_listen-Listens_example :
    ListensOrExits calls fds laws standard [] [] 0 (tcp_listen calls standard [] [] 0)
tcp_listen-Listens_example = tcp_listen-Listens calls fds laws standard [] [] 0
