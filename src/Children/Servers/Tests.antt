-- ===== src/Children/Servers/Tests.antt =====
-- Processes with a table of descriptors, and the theorems on the servers at runs with them.
use serversidedev.Prelude.{
  ℕ, suc, ◌≡◌, refl, true, false, [], ◌∷◌, ◌++◌, length, take, arith, if◌then◌else◌,
}
use serversidedev.Prelude.Int.{ℤ, pos, negsuc, ltb_ℤ}
use serversidedev.Prelude.Table.{Table, has, size, is_open, closed, has-end, frees, closes}
use serversidedev.Prelude.Served.{Served, goes_on, exits, Kept}
use serversidedev.Io.{System}
use serversidedev.Io.{Laws}
use serversidedev.Io.Net.{Net, add, add-here, add-elsewhere, net_system, net_streams, net-Laws, net}
use serversidedev.Children.Servers.{
  Forking, Parent, css_echo_rounds, waitpid_rounds, css_child, son, grandson, Fds, FdLaws,
}
use serversidedev.Children.Servers.Descriptors.{
  Leaks, Tidy, Fails, css_echo_rounds-Leaks, waitpid_rounds-Tidy, css_child-Fails,
}
use serversidedev.Children.Servers.Echoing.{EchoOf, client-EchoOf}

abbrev table_system : System Table
table_system = record {
  write = λ t fd buff. (if is_open t fd then pos (length buff) else negsuc 8, t);
  read = λ t fd size. (pos 0, [], t);
  close = λ t fd. (pos 0, closed t fd);
  accept = λ t fd. (pos (length t), t ++ (true ∷ []));
  socket = λ t. (pos 3, t);
  bind = λ t fd port. (pos 0, t);
  connect = λ t fd port. (pos 0, t);
  select = λ t maxfdp1 readfds. (pos 0, readfds, t);
  poll = λ t fds. (pos 0, λ i. record { pollrdnorm = false; pollerr = false }, t);
  listen = λ t fd backlog. (pos 0, t);
  epoll_create = λ t. (pos 4, t);
  epoll_ctl = λ t epollfd op fd. (pos 0, t);
  epoll_wait = λ t epollfd max_events. (pos 0, [], t);
}

-- `fork` succeeds, and nothing interrupts a call.
abbrev plain : {World : Type 0} → Forking World
plain = record {
  fork = λ w. (pos 7, w);
  forked = λ w. w;
  is_eintr = λ w. false;
  sleep = λ w. w;
  line = λ w i. i ∷ [];
}

abbrev table_fds : Fds Table
table_fds = record { is_open = is_open; opened = size }

opens_at_end :
    (t : Table) (fd : ℤ)
    → ltb_ℤ (pos (length t)) (pos 0) ≡ false
    → (has (t ++ (true ∷ [])) (length t) ≡ true) × (size (t ++ (true ∷ [])) ≡ suc (size t))
opens_at_end t fd h = has-end t

table-FdLaws : FdLaws table_system plain table_fds
table-FdLaws = record {
  socket_opens = λ t. omega arith;
  bind_keeps = λ t fd port. refl;
  listen_keeps = λ t fd backlog. refl;
  accept_opens = opens_at_end;
  accept_fails = λ t fd h. absurd (ground arith);
  fork_keeps = λ t. (refl, λ d. refl);
  close_frees = frees;
  close_closes = closes;
  write_closed = λ t fd buff h. rw h refl;
}

-- 0 to 3 are open; 3 listens.
abbrev listening : Parent Table
listening = record { world = true ∷ true ∷ true ∷ true ∷ []; sons = [] }

abbrev opened_by : Served (Parent Table) → ℕ
opened_by (goes_on p) = size p.world
opened_by (exits exitstatus p) = size p.world

css_echo_rounds_result : opened_by (css_echo_rounds table_system plain 2 listening (pos 3)) ≡ 6
unfolding css_echo_rounds
css_echo_rounds_result = refl

css_echo_rounds-Leaks_example :
    Kept
      (Leaks table_system plain table_fds table-FdLaws listening)
      (css_echo_rounds table_system plain 2 listening (pos 3))
css_echo_rounds-Leaks_example =
    css_echo_rounds-Leaks table_system plain table_fds table-FdLaws 2 listening (pos 3)

waitpid_rounds-Tidy_example :
    Kept
      (Tidy table_system plain table_fds table-FdLaws listening)
      (waitpid_rounds table_system plain 2 listening (pos 3))
waitpid_rounds-Tidy_example =
    waitpid_rounds-Tidy table_system plain table_fds table-FdLaws 2 listening (pos 3)

css_child-Fails_example :
    Fails table_system plain table_fds table-FdLaws
      (css_child table_system plain (true ∷ true ∷ true ∷ true ∷ true ∷ []) (pos 4))
css_child-Fails_example =
    css_child-Fails table_system plain table_fds table-FdLaws
      (true ∷ true ∷ true ∷ true ∷ true ∷ []) (pos 4)

-- The sockets of Net, with a `write` that takes everything.
abbrev whole_system : System Net
whole_system = record net_system {
  write =
      λ w fd buff. (pos (length buff), record w { sent = add w.sent fd (take (length buff) buff) });
}

whole-Laws : Laws whole_system net_streams
whole-Laws = record {
  write_bounded = λ w fd buff. omega arith;
  write_sends = λ w fd buff. record {
    here = add-here w.sent fd (take (length buff) buff);
    elsewhere = add-elsewhere w.sent fd (take (length buff) buff);
    unread = λ d. refl;
  };
  read_length = net-Laws.read_length;
  read_bounded = net-Laws.read_bounded;
  read_receives = net-Laws.read_receives;
  socket_silent = net-Laws.socket_silent;
  bind_silent = net-Laws.bind_silent;
  listen_silent = net-Laws.listen_silent;
  epoll_create_silent = net-Laws.epoll_create_silent;
  connect_silent = net-Laws.connect_silent;
  select_silent = net-Laws.select_silent;
  poll_silent = net-Laws.poll_silent;
  close_silent = net-Laws.close_silent;
  accept_silent = net-Laws.accept_silent;
  epoll_ctl_silent = net-Laws.epoll_ctl_silent;
  epoll_wait_silent = net-Laws.epoll_wait_silent;
}

client-EchoOf_example :
    EchoOf whole_system net_streams (pos 5) (son whole_system plain 3 net (pos 5))
    × EchoOf whole_system net_streams (pos 5) (grandson whole_system plain 3 net (pos 5))
client-EchoOf_example =
    client-EchoOf whole_system net_streams whole-Laws plain (λ w fd buff h. refl)
      (λ w. (
        record { unsent = λ d. refl; unread = λ d. refl },
        record { unsent = λ d. refl; unread = λ d. refl },
      ))
      3 net (pos 5) refl
