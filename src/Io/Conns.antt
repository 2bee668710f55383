-- ===== src/Io/Conns.antt =====
-- The loop of `thread_func` of io/csc_echo_epoll.cpp over the connections of a thread.
pub mod Counted
pub mod Dialing
use serversidedev.Prelude.{ℕ, ◌+◌, ◌%◌, Bool, List, [], ◌∷◌, ltb, ◌==◌, if◌then◌else◌, update}
use serversidedev.Prelude.Int.{ℤ, pos, ltb_ℤ}
use serversidedev.Prelude.Outcome.{Outcome, ok, ◌>>=◌}
use serversidedev.Io.{System}
use serversidedev.Io.Write.{full_write}
use serversidedev.Io.Echo.{read_write}
use serversidedev.Prelude.Served.{Served, goes_on, exits, and_then}

-- `FD_CLOSE`, and `FD_RD_OPEN`, which is `2^0`: an exclusive or.
abbrev pub fd_closed : ℕ
fd_closed = 0

abbrev pub fd_rd_open : ℕ
fd_rd_open = 2

-- The class `fd_id`.
pub record FdId : Type 0 where
  pub fd : ℤ
  pub id : ℕ
  pub status : ℕ

-- The locals of the loop, the counter of messages that the threads share, and the world.
pub record Conns (World : Type 0) : Type 0 where
  pub fds : ℕ → FdId
  pub i : ℕ
  pub finishcnt : ℕ
  pub gmsgno : ℕ
  pub world : World

abbrev pub current : {World : Type 0} → Conns World → FdId
current s = s.fds s.i

-- `fds[i].status=...`
abbrev pub set_status : {World : Type 0} → Conns World → ℕ → Conns World
set_status s status = record s { fds = update s.fds s.i (record (current s) { status = status }) }

-- `shutdown` is a system call, and the message is what `snprintf` prints.
module _ {World : Type 0} (sys : System World) (shutdown : World → ℤ → ℤ × World)
    (message : ℕ → ℤ → ℕ → List ℕ) (stdoutfd : ℤ) (opconn_num : ℕ) where
  -- `if(gfinish){ ... }else{ ... }`. What `full_write` returns is never negative.
  unfoldable pub send_message : Bool → Conns World → Outcome (Served (Conns World))
  send_message gfinish s =
      let (re, w) = shutdown s.world (current s).fd in
      if gfinish
      then (if ltb_ℤ re (pos 0)
          then ok (exits 1 (record s { world = w }))
          else ok (goes_on (set_status (record s { world = w }) fd_rd_open)))
      else (do
        (re, w) ←
            full_write sys s.world (current s).fd (message (current s).id (current s).fd s.gmsgno)
        ok (goes_on (record s { gmsgno = s.gmsgno + 1; world = w })))

  -- `i=(i+1)%opconn_num`
  unfoldable pub advance : Conns World → Conns World
  advance s = record s { i = (s.i + 1) % opconn_num }

  -- `fds[i].status=FD_CLOSE; finishcnt++; close(fds[i].fd);`
  unfoldable pub finish : Conns World → Conns World
  finish s =
      let (re, w) = sys.close s.world (current s).fd in
      set_status (record s { finishcnt = s.finishcnt + 1; world = w }) fd_closed

  -- From the call of `read_write` on.
  unfoldable pub receive_reply : Conns World → Outcome (Served (Conns World))
  unfolding advance finish
  receive_reply s = do
    (re, eof, w) ← read_write sys s.world (current s).fd stdoutfd
    ok (
        goes_on
          (advance (if eof == 0 then record s { world = w } else finish (record s { world = w }))))

  -- A round of the loop.
  unfoldable pub conn_round : Bool → Conns World → Outcome (Served (Conns World))
  unfolding send_message advance receive_reply and_then
  conn_round gfinish s =
      if (current s).status == fd_closed
      then ok (goes_on (advance s))
      else send_message gfinish s >>= (λ served. and_then served receive_reply)

  -- The rounds, with the values that `gfinish` has in them.
  unfoldable pub conn_rounds : List Bool → Conns World → Outcome (Served (Conns World))
  unfolding conn_round and_then
  conn_rounds [] s = ok (goes_on s)
  conn_rounds (gfinish ∷ later) s =
      if ltb s.finishcnt opconn_num
      then conn_round gfinish s >>= (λ served. and_then served (conn_rounds later))
      else ok (goes_on s)
