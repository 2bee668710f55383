-- ===== src/Io/Tests.antt =====
-- The theorems on the socket programs, at runs in the world of Net.
use serversidedev.Prelude.{ℕ, ◌≡◌, refl, ap, ◌||◌, ◌==◌, false, List, [], ◌∷◌, arith, if◌then◌else◌}
use serversidedev.Prelude.Int.{ℤ, pos, negsuc, pos_part, eq_ℤ}
use serversidedev.Prelude.Outcome.{Outcome, ok}
use serversidedev.Io.{System}
use serversidedev.Io.Write.{full_write}
use serversidedev.Io.Write.Delivery.{Delivered, full_write-Delivered}
use serversidedev.Io.Echo.{data_echo}
use serversidedev.Io.Sockets.{socket_bind_listen}
use serversidedev.Prelude.Served.{Served, goes_on, exits}
use serversidedev.Io.Epoll.Answering.{Answered}
use serversidedev.Io.Epoll.Server.{epoll_main, epoll_main-Answered}
use serversidedev.Io.Client.{Client, select_rounds}
use serversidedev.Io.Client.Copying.{Relayed}
use serversidedev.Io.Client.Rounds.{select_rounds-Relayed}
use serversidedev.Io.Conns.{Conns}
use serversidedev.Io.Select.{Server, server_run}
use serversidedev.Io.Select.Table.{Ends}
use serversidedev.Io.Select.Rounds.{Settled, server_rounds-Settled}
use serversidedev.Io.{Polled}
use serversidedev.Io.Poll.{Poller, poll_start, poll_rounds}
use serversidedev.Io.Poll.Slots.{Compact, EndsWell, poll_rounds-Compact}
use serversidedev.Io.Net.{Net, net_system, net_streams, net-Laws, net}

-- What a run of `main` has sent on a descriptor.
abbrev sent_by : Outcome (Served Net) → ℤ → List ℕ
sent_by (ok (goes_on w)) d = w.sent d
sent_by (ok (exits exitstatus w)) d = w.sent d
sent_by out d = []

epoll_main_result : sent_by (epoll_main net_system 2 net 25000) (pos 5) ≡ 7 ∷ 8 ∷ 9 ∷ []
unfolding epoll_main socket_bind_listen data_echo full_write
epoll_main_result = refl

full_write-Delivered_example :
    Delivered net_system net_streams net
      (pos 5)
      (1 ∷ 2 ∷ 3 ∷ [])
      (full_write net_system net (pos 5) (1 ∷ 2 ∷ 3 ∷ []))
full_write-Delivered_example =
    full_write-Delivered net_system net_streams net-Laws net (pos 5) (1 ∷ 2 ∷ 3 ∷ [])

epoll_main-Answered_example : Answered net_system net_streams (epoll_main net_system 2 net 25000)
epoll_main-Answered_example =
    epoll_main-Answered net_system net_streams net-Laws 2 net 25000 (λ d. refl)

abbrev client : Client Net
client = record { stdineof = 0; svrfdeof = 0; world = net }

select_rounds-Relayed_example :
    Relayed net_system net_streams
      (pos 0)
      (pos 1)
      (pos 5)
      (select_rounds net_system (pos 0) (pos 1) (pos 5) 2 client)
select_rounds-Relayed_example =
    select_rounds-Relayed net_system net_streams (pos 0) (pos 1) (pos 5)
      (λ e. absurd (omega (arith, ap pos_part e))) (λ e. absurd (omega (arith, ap pos_part e)))
      net-Laws 2 client (refl, refl)

server_rounds-Settled_example : Ends Settled (server_run net_system 2 (pos 3) net)
server_rounds-Settled_example = server_rounds-Settled net_system 2 (pos 3) net

-- The client in slot 0 has gone, that in slot 1 is ready.
abbrev with_hole : Server Net
with_hole = record {
  allset = λ d. eq_ℤ d (pos 3) || eq_ℤ d (pos 5);
  maxfd = pos 5;
  clifds = λ i. if i == 1 then pos 5 else negsuc 0;
  maxi_next = 2;
  world = net;
}

abbrev unset : ℕ → Polled
unset i = record { pollrdnorm = false; pollerr = false }

poll_rounds-Compact_example :
    EndsWell Compact (poll_rounds net_system 2 (pos 3) (poll_start (pos 3) unset net))
poll_rounds-Compact_example = poll_rounds-Compact net_system 2 (pos 3) unset net (omega arith)

-- The same host with a `read` that fails.
abbrev no_read : System Net
no_read = record net_system { read = λ w fd size. (negsuc 0, [], w) }

-- The listening socket, and one client.
abbrev one_client : Poller Net
one_client = record {
  fds = λ i. if i == 0 then pos 3 else if i == 1 then pos 4 else negsuc 0;
  revents = unset;
  maxi_next = 2;
  world = net;
}

-- Two connections, one of which has been closed.
abbrev conns : Conns Net
conns = record {
  fds = λ i. record { fd = pos 5; id = i; status = if i == 0 then 0 else 3 };
  i = 0;
  finishcnt = 1;
  gmsgno = 0;
  world = net;
}

abbrev shut_ok : Net → ℤ → ℤ × Net
shut_ok w fd = (pos 0, w)

abbrev hello : ℕ → ℤ → ℕ → List ℕ
hello id fd msgno = id ∷ msgno ∷ []
