-- ===== src/Tcp/Tests.antt =====
-- A connection that gives back two bytes at a time, one that is closed, and the theorems at runs with them.
use serversidedev.Prelude.{ℕ, ◌≡◌, refl, min, false, List, [], ◌∷◌, ◌++◌, length, take, drop, arith}
use serversidedev.Prelude.Int.{pos}
use serversidedev.Prelude.CString.{c_string}
use serversidedev.Prelude.Outcome.{ok, fault, unfinished}
use serversidedev.Prelude.Served.{goes_on}
use serversidedev.Io.{System}
use serversidedev.Tcp.{Console, fputs, read_replies, echo_client, csc_rounds, str_cli, memset}
use serversidedev.Children.Servers.{Forking}
use serversidedev.Tcp.Connection.{Pipes, client_system, pending, echo_loop-EchoStream}
use serversidedev.Tcp.Replies.{PutsAndEnds, echo_client-PutsAndEnds, read_replies-spins}

-- The bytes on their way.
abbrev echo_system : System (List ℕ)
echo_system = record {
  write = λ w fd buff. (pos (length buff), w ++ buff);
  read =
      λ w fd size. (pos (min 2 (length w)), take (min 2 (length w)) w, drop (min 2 (length w)) w);
  close = λ w fd. (pos 0, w);
  accept = λ w fd. (pos 5, w);
  socket = λ w. (pos 3, w);
  bind = λ w fd port. (pos 0, w);
  connect = λ w fd port. (pos 0, w);
  select = λ w maxfdp1 readfds. (pos 1, readfds, w);
  poll = λ w fds. (pos 0, λ i. record { pollrdnorm = false; pollerr = false }, w);
  listen = λ w fd backlog. (pos 0, w);
  epoll_create = λ w. (pos 4, w);
  epoll_ctl = λ w epollfd op fd. (pos 0, w);
  epoll_wait = λ w epollfd max_events. (pos 0, [], w);
}

abbrev closed_system : System (List ℕ)
closed_system = record echo_system { read = λ w fd size. (pos 0, [], w) }

abbrev console : Console (List ℕ)
console = record { out = []; world = [] }

-- The server is the process of css_echo.cpp, behind the pipes of Connection.
abbrev alone : Forking Pipes
alone = record {
  fork = λ w. (pos 7, w);
  forked = λ w. w;
  is_eintr = λ w. false;
  sleep = λ w. w;
  line = λ w i. [];
}

abbrev at_terminal : Console Pipes
at_terminal = record { out = []; world = record { up = []; down = [] } }

echo_client-PutsAndEnds_example :
    PutsAndEnds (client_system alone) (pos 3) (pending alone) (7 ∷ 8 ∷ 10 ∷ 9 ∷ 10 ∷ []) (
      echo_client
        (client_system alone)
        3
        ((7 ∷ 8 ∷ 10 ∷ []) ∷ (9 ∷ 10 ∷ []) ∷ [])
        at_terminal
        (pos 3))
echo_client-PutsAndEnds_example =
    echo_client-PutsAndEnds (client_system alone) (pos 3) (pending alone)
      (echo_loop-EchoStream alone (pos 3)) 3 ((7 ∷ 8 ∷ 10 ∷ []) ∷ (9 ∷ 10 ∷ []) ∷ []) at_terminal
      (
        (refl, (refl, (refl, tt))),
        omega arith,
        omega arith,
        ((refl, (refl, tt)), omega arith, omega arith, tt),
      )
      refl

read_replies-spins_example : read_replies closed_system 9 console (pos 3) 0 3 ≡ unfinished
read_replies-spins_example =
    read_replies-spins closed_system (pos 3) (λ w. w) (λ w. (refl, refl)) 9 console 0 3
      (omega arith)

-- csc.cpp puts out what is left in its buffer behind a short read.
stale_result :
    csc_rounds echo_system 1 (5 ∷ 6 ∷ 7 ∷ 8 ∷ [], record { out = []; world = 1 ∷ 2 ∷ [] }) (pos 3)
    ≡ ok (goes_on (1 ∷ 2 ∷ 7 ∷ 8 ∷ 0 ∷ [], record { out = 1 ∷ 2 ∷ 7 ∷ 8 ∷ []; world = [] }))
unfolding csc_rounds fputs c_string
stale_result = refl

-- The sizes of the two arrays are exchanged: `memset` writes past the end of `sendline`.
str_cli_result : str_cli echo_system [] console (pos 3) ≡ fault
unfolding str_cli memset
str_cli_result = refl
