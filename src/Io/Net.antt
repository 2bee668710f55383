-- ===== src/Io/Net.antt =====
-- A world in which the laws of the system calls hold: a host that keeps what went through its descriptors.
use serversidedev.Prelude.{
  ℕ, ◌+◌, ◌≡◌, ◌≢◌, refl, min, Bool, ◌&&◌, true, false, Bool-cases, inl, inr, List, [], ◌∷◌, ◌++◌,
  length, take, drop, length-take, arith, if◌then◌else◌,
}
use serversidedev.Prelude.Int.{ℤ, pos, negsuc, eq_ℤ, eq_of_parts}
use serversidedev.Io.{System, Event, Streams, Silent, Laws}

-- The bytes that the next reads hand over, the answers of the next `epoll_wait`s, one less
-- than the bytes that a `write` takes at most, and what has gone through each descriptor.
pub record Net : Type 0 where
  pub incoming : List ℕ
  pub waits : List (List Event)
  pub at_most : ℕ
  pub sent : ℤ → List ℕ
  pub received : ℤ → List ℕ

abbrev pub add : (ℤ → List ℕ) → ℤ → List ℕ → ℤ → List ℕ
add history fd bytes d = if eq_ℤ d fd then history d ++ bytes else history d

pub add-here :
    (history : ℤ → List ℕ) (fd : ℤ) (bytes : List ℕ) → add history fd bytes fd ≡ history fd ++ bytes
add-here history fd bytes = rw same refl
  where
    same : eq_ℤ fd fd ≡ true
    same = ground arith

pub add-elsewhere :
    (history : ℤ → List ℕ) (fd : ℤ) (bytes : List ℕ) (d : ℤ)
    → d ≢ fd
    → add history fd bytes d ≡ history d
add-elsewhere history fd bytes d ne = rw other refl
  where
    other : eq_ℤ d fd ≡ false
    other = elim (Bool-cases (eq_ℤ d fd)) [
      | inl same ↦ absurd (ne (eq_of_parts d fd (ground arith)))
      | inr differ ↦ differ
    ]

abbrev pub next_wait : Net → List (List Event) → ℤ × List Event × Net
next_wait w [] = (negsuc 0, [], w)
next_wait w (events ∷ waits) = (pos (length events), events, record w { waits = waits })

abbrev pub net_system : System Net
net_system = record {
  write = λ w fd buff. (
    pos (min (w.at_most + 1) (length buff)),
    record w { sent = add w.sent fd (take (min (w.at_most + 1) (length buff)) buff) },
  );
  read = λ w fd size. (
    pos (min size (length w.incoming)),
    take size w.incoming,
    record w {
      incoming = drop size w.incoming;
      received = add w.received fd (take size w.incoming);
    },
  );
  close = λ w fd. (pos 0, w);
  accept = λ w fd. (pos 5, w);
  socket = λ w. (pos 3, w);
  bind = λ w fd port. (pos 0, w);
  connect = λ w fd port. (pos 0, w);
  select = λ w maxfdp1 readfds. (pos 1, λ d. eq_ℤ d (pos 5) && readfds d, w);
  poll = λ w fds. (pos 2, λ i. record { pollrdnorm = true; pollerr = false }, w);
  listen = λ w fd backlog. (pos 0, w);
  epoll_create = λ w. (pos 4, w);
  epoll_ctl = λ w epollfd op fd. (pos 0, w);
  epoll_wait = λ w epollfd max_events. next_wait w w.waits;
}

abbrev pub net_streams : Streams Net
net_streams = record { sent = λ w. w.sent; received = λ w. w.received }

nothing : (w : Net) → Silent net_streams w w
nothing w = record { unsent = λ d. refl; unread = λ d. refl }

next_wait-Silent :
    (w : Net) (waits : List (List Event)) → Silent net_streams w (next_wait w waits).2
next_wait-Silent w [] = nothing w
next_wait-Silent w (events ∷ waits) = record { unsent = λ d. refl; unread = λ d. refl }

pub net-Laws : Laws net_system net_streams
net-Laws = record {
  write_bounded = λ w fd buff. omega arith;
  write_sends = λ w fd buff. record {
    here = add-here w.sent fd (take (min (w.at_most + 1) (length buff)) buff);
    elsewhere = add-elsewhere w.sent fd (take (min (w.at_most + 1) (length buff)) buff);
    unread = λ d. refl;
  };
  read_length = λ w fd size. length-take size w.incoming;
  read_bounded = λ w fd size. omega arith;
  read_receives = λ w fd size. record {
    here = add-here w.received fd (take size w.incoming);
    elsewhere = add-elsewhere w.received fd (take size w.incoming);
    unsent = λ d. refl;
  };
  socket_silent = λ w. nothing w;
  bind_silent = λ w fd port. nothing w;
  listen_silent = λ w fd backlog. nothing w;
  epoll_create_silent = λ w. nothing w;
  connect_silent = λ w fd port. nothing w;
  select_silent = λ w maxfdp1 readfds. nothing w;
  poll_silent = λ w fds. nothing w;
  close_silent = λ w fd. nothing w;
  accept_silent = λ w fd. nothing w;
  epoll_ctl_silent = λ w epollfd op fd. nothing w;
  epoll_wait_silent = λ w epollfd max_events. next_wait-Silent w w.waits;
}

abbrev pub event : ℤ → Bool → Event
event fd epollin = record {
  fd = fd;
  epollin = epollin;
  epollout = false;
  epollrdhup = false;
  epollerr = false;
}

-- A client connects, and then sends three bytes; `write` takes two at a time.
abbrev pub net : Net
net = record {
  incoming = 7 ∷ 8 ∷ 9 ∷ [];
  waits = (event (pos 3) true ∷ []) ∷ (event (pos 5) true ∷ []) ∷ [];
  at_most = 1;
  sent = λ d. [];
  received = λ d. [];
}
