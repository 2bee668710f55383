-- ===== src/Io/Poll.antt =====
-- `main` of io/css_echo_poll.cpp: an echo server over `poll`, whose array is also its table of clients.
pub mod Slots
pub mod Listener
pub mod Main
use serversidedev.Prelude.{
  ℕ, zero, suc, ◌+◌, ◌-◌, Bool, ◌||◌, List, [], ◌∷◌, leb, ltb, ◌==◌, if◌then◌else◌, update,
}
use serversidedev.Prelude.Int.{ℤ, pos, negsuc, pos_part, eq_ℤ, ltb_ℤ}
use serversidedev.Prelude.Outcome.{Outcome, ok, ◌>>=◌}
use serversidedev.Io.{System, Polled}
use serversidedev.Io.Echo.{max_line}
use serversidedev.Prelude.Served.{Served, goes_on, exits, and_then}
use serversidedev.Io.Select.{max_fd_size, find_free, trim}

-- The locals of `main`, and the world. `fds` and `revents` are the fields of `clients`, used below
-- `MAXFDSIZE`; `maxi_next` is `maxi+1`. A `revents` that `poll` has not set keeps what it had.
pub record Poller (World : Type 0) : Type 0 where
  pub fds : ℕ → ℤ
  pub revents : ℕ → Polled
  pub maxi_next : ℕ
  pub world : World

-- The elements `from`, ... of the array, as many as the number says.
unfoldable pub slots_from : ℕ → ℕ → (ℕ → ℤ) → List ℤ
slots_from zero from fds = []
slots_from (suc n) from fds = fds from ∷ slots_from n (from + 1) fds

module _ {World : Type 0} where
  -- What is done with the result of `accept`.
  unfoldable pub open_slot : Poller World → ℤ → Poller World
  unfolding find_free
  open_slot s clifd =
      let i = find_free max_fd_size 0 s.fds in
      if i == max_fd_size then s else record s {
        fds = update s.fds i clifd;
        maxi_next = if leb s.maxi_next i then i + 1 else s.maxi_next;
      }

  -- The end of a client's stream.
  unfoldable pub close_slot : Poller World → ℕ → Poller World
  close_slot s i = record s { fds = update s.fds i (negsuc 0) }

  -- After the loop over the clients.
  unfoldable pub lower_top : Poller World → Poller World
  unfolding trim
  lower_top s = record s { maxi_next = trim s.maxi_next s.fds }

module _ {World : Type 0} (sys : System World) where
  -- Slot `i` is ready: the number is what `read` returned. `rest` goes on with `fdnum`.
  unfoldable pub answer :
      ℤ
      → List ℕ
      → Poller World
      → ℕ
      → ℕ
      → (ℕ → Poller World → Outcome (Served (Poller World)))
      → Outcome (Served (Poller World))
  unfolding close_slot
  answer (negsuc n) buff s i fdnum rest = ok (exits 1 s)
  answer (pos zero) buff s i fdnum rest =
      let (re, w) = sys.close s.world (s.fds i) in
      rest fdnum (close_slot (record s { world = w }) i)
  answer (pos (suc n)) buff s i fdnum rest =
      let (re, w) = sys.write s.world (s.fds i) buff in
      let s1 = record s { world = w } in
      if ltb_ℤ re (pos 0)
      then ok (exits 1 s1)
      else if leb (fdnum - 1) 0
      then ok (goes_on s1)
      else rest (fdnum - 1) s1

  -- `for(int i=0;i<=maxi;i++)` from `i`, with the rounds left.
  unfoldable pub answer_slots : ℕ → ℕ → ℕ → Poller World → Outcome (Served (Poller World))
  unfolding answer
  answer_slots zero i fdnum s = ok (goes_on s)
  answer_slots (suc left) i fdnum s =
      let (re, buff, w) = sys.read s.world (s.fds i) max_line in
      if (s.revents i).pollrdnorm || (s.revents i).pollerr
      then answer re buff (record s { world = w }) i fdnum (answer_slots left (i + 1))
      else answer_slots left (i + 1) fdnum s

  -- The loop over the clients and what follows it.
  unfoldable pub answer_all : ℕ → Poller World → Outcome (Served (Poller World))
  unfolding answer_slots lower_top and_then
  answer_all fdnum s = do
    served ← answer_slots s.maxi_next 0 fdnum s
    and_then served (λ s1. ok (goes_on (lower_top s1)))

  -- `if(clients[0].revents&(POLLRDNORM)){ ... }`, and the rest of the round.
  unfoldable pub take_new : ℕ → ℤ → Poller World → Outcome (Served (Poller World))
  unfolding open_slot answer_all
  take_new fdnum svrfd s =
      let (clifd, w) = sys.accept s.world svrfd in
      let s1 = record s { world = w } in
      if ltb_ℤ clifd (pos 0)
      then ok (exits 1 s1)
      else if leb (fdnum - 1) 0
      then ok (goes_on (open_slot s1 clifd))
      else answer_all (fdnum - 1) (open_slot s1 clifd)

  -- `poll` has set the `revents` of the elements that it was given.
  abbrev pub polled : Poller World → (ℕ → Polled) → World → Poller World
  polled s results w = record s {
    revents = λ i. if ltb i s.maxi_next then results i else s.revents i;
    world = w;
  }

  -- A round of `while(1)`.
  unfoldable pub poll_round : ℤ → Poller World → Outcome (Served (Poller World))
  unfolding take_new answer_all
  poll_round svrfd s =
      let (re, results, w) = sys.poll s.world (slots_from s.maxi_next 0 s.fds) in
      let s1 = polled s results w in
      if ltb_ℤ re (pos 0)
      then ok (exits 1 s1)
      else if eq_ℤ re (pos 0)
      then ok (goes_on s1)
      else if (s1.revents 0).pollrdnorm
      then take_new (pos_part re) svrfd s1
      else answer_all (pos_part re) s1

  unfoldable pub poll_rounds : ℕ → ℤ → Poller World → Outcome (Served (Poller World))
  unfolding poll_round and_then
  poll_rounds zero svrfd s = ok (goes_on s)
  poll_rounds (suc rounds) svrfd s = do
    served ← poll_round svrfd s
    and_then served (poll_rounds rounds svrfd)

module _ {World : Type 0} where
  -- `main` before its loop. The `revents` are not set: they are a parameter.
  unfoldable pub poll_start : ℤ → (ℕ → Polled) → World → Poller World
  poll_start svrfd unset w = record {
    fds = λ i. if i == 0 then svrfd else negsuc 0;
    revents = unset;
    maxi_next = 1;
    world = w;
  }
