-- ===== src/Io/Epoll.antt =====
-- The epoll helpers of io/socketio.cpp, and the event loop of io/css_echo_epoll.cpp.
pub mod Answering
pub mod Server
use serversidedev.Prelude.{
  ℕ, zero, suc, Bool, Option, none, some, List, [], ◌∷◌, ◌==◌, if◌then◌else◌,
}
use serversidedev.Prelude.Int.{ℤ, pos, eq_ℤ, ltb_ℤ}
use serversidedev.Prelude.Outcome.{Outcome, ok, ◌>>=◌}
use serversidedev.Prelude.Served.{Served, goes_on, exits, and_then}
use serversidedev.Io.{System, Ctl, ctl_add, ctl_del, Event}
use serversidedev.Io.Echo.{data_echo}

-- `EPOLLIN` and `MAX_EVENTS`.
abbrev pub bit_epollin : ℕ
bit_epollin = 1

abbrev pub max_events : ℕ
max_events = 20

module _ {World : Type 0} (sys : System World) where
  unfoldable pub epoll_add : World → ℤ → ℤ → ℕ → ℕ × World
  epoll_add w epollfd addfd events =
      let (re, w1) = sys.epoll_ctl w epollfd (ctl_add events) addfd in
      (if ltb_ℤ re (pos 0) then 1 else 0, w1)

  unfoldable pub epoll_del : World → ℤ → ℤ → ℕ × World
  epoll_del w epollfd delfd =
      let (re, w1) = sys.epoll_ctl w epollfd ctl_del delfd in
      (if ltb_ℤ re (pos 0) then 1 else 0, w1)

  unfoldable pub accept_epoll_ctl : World → ℤ → ℤ → ℕ × World
  unfolding epoll_add
  accept_epoll_ctl w epollfd srvfd =
      let (clifd, w1) = sys.accept w srvfd in
      let (re, w2) = epoll_add w1 epollfd clifd bit_epollin in
      if ltb_ℤ clifd (pos 0) then (1, w1) else (if re == 0 then 0 else 2, w2)

  -- A handler, which may be NULL, and the code for its failure.
  unfoldable pub call_handler :
      Option (World → ℤ → Outcome (ℕ × World)) → ℕ → World → ℤ → Outcome (ℕ × World)
  call_handler none code w fd = ok (0, w)
  call_handler (some func) code w fd = do (re, w1) ← func w fd; ok (if re == 0 then 0 else code, w1)

  unfoldable pub deal_epoll_event :
      World
      → ℤ
      → Event
      → Option (World → ℤ → Outcome (ℕ × World))
      → Option (World → ℤ → Outcome (ℕ × World))
      → Outcome (ℕ × World)
  unfolding call_handler epoll_del
  deal_epoll_event w epollfd resultev epollin_func epollout_func =
      let (re, w1) = epoll_del w epollfd resultev.fd in
      if resultev.epollin
      then call_handler epollin_func 1 w resultev.fd
      else if resultev.epollout
      then call_handler epollout_func 2 w resultev.fd
      else if resultev.epollrdhup
      then ok (if re == 0 then 0 else 3, w1)
      else if resultev.epollerr
      then ok (4, w)
      else ok (5, w)

  -- One event of `main`'s loop.
  unfoldable pub serve_event : World → ℤ → ℤ → Event → Outcome (Served World)
  unfolding accept_epoll_ctl deal_epoll_event
  serve_event w epollfd srvfd event =
      if eq_ℤ event.fd srvfd
      then (let (re, w1) = accept_epoll_ctl w epollfd srvfd in
          ok (if re == 0 then goes_on w1 else exits 3 w1))
      else (do
        (re, w1) ← deal_epoll_event w epollfd event (some (data_echo sys)) none
        ok (if re == 0 then goes_on w1 else exits 4 w1))

  unfoldable pub serve_events : World → ℤ → ℤ → List Event → Outcome (Served World)
  unfolding serve_event and_then
  serve_events w epollfd srvfd [] = ok (goes_on w)
  serve_events w epollfd srvfd (event ∷ events) = do
    served ← serve_event w epollfd srvfd event
    and_then served (λ w1. serve_events w1 epollfd srvfd events)

  -- A round of `while(1)`.
  unfoldable pub serve_round : World → ℤ → ℤ → Outcome (Served World)
  unfolding serve_events
  serve_round w epollfd srvfd =
      let (nfds, events, w1) = sys.epoll_wait w epollfd max_events in
      if ltb_ℤ nfds (pos 0) then ok (exits 2 w1) else serve_events w1 epollfd srvfd events

  -- The first rounds of `while(1)`, as many as the number says.
  unfoldable pub serve_rounds : ℕ → World → ℤ → ℤ → Outcome (Served World)
  unfolding serve_round and_then
  serve_rounds zero w epollfd srvfd = ok (goes_on w)
  serve_rounds (suc rounds) w epollfd srvfd = do
    served ← serve_round w epollfd srvfd
    and_then served (λ w1. serve_rounds rounds w1 epollfd srvfd)
