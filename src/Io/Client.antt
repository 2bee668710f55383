-- ===== src/Io/Client.antt =====
-- `main` of io/csc_echo_select.cpp: a client that passes its input to the server
-- and what the server sends to its output.
pub mod Copying
pub mod Rounds
pub mod Polling
pub mod PollRounds
use serversidedev.Prelude.{
  ℕ, zero, suc, Bool, true, false, ◌||◌, ◌&&◌, List, [], ◌∷◌, ◌==◌, if◌then◌else◌,
}
use serversidedev.Prelude.Int.{ℤ, pos, ◌+ℤ◌, eq_ℤ, ltb_ℤ}
use serversidedev.Prelude.Outcome.{Outcome, ok, ◌>>=◌}
use serversidedev.Io.{System, Polled}
use serversidedev.Io.Sockets.{socket_connect}
use serversidedev.Io.Echo.{read_write, read_write_shutdown_if_read_eof}
use serversidedev.Prelude.Served.{Served, goes_on, exits, and_then}

-- The locals of `main` that change, and the world.
pub record Client (World : Type 0) : Type 0 where
  pub stdineof : ℕ
  pub svrfdeof : ℕ
  pub world : World

-- `FD_ZERO(&allset); FD_SET(stdinfd,&allset); FD_SET(svrfd,&allset);`. Both descriptors are taken to be
-- below the size of an `fd_set`.
abbrev pub both_fds : ℤ → ℤ → ℤ → Bool
both_fds stdinfd svrfd d = eq_ℤ d stdinfd || eq_ℤ d svrfd

abbrev pub max_ℤ : ℤ → ℤ → ℤ
max_ℤ a b = if ltb_ℤ a b then b else a

module _ {World : Type 0} (sys : System World) (stdinfd stdoutfd svrfd : ℤ) where
  -- `if(!stdineof && FD_ISSET(stdinfd,&rset)){ ... }`
  unfoldable pub from_stdin : Bool → Client World → Outcome (Served (Client World))
  from_stdin isset c =
      if c.stdineof == 0 && isset
      then (do
        (re, eof, w) ← read_write_shutdown_if_read_eof sys c.world stdinfd svrfd
        ok (
            if re == 0
            then goes_on (record c { stdineof = eof; world = w })
            else exits 1 (record c { stdineof = eof; world = w })))
      else ok (goes_on c)

  -- `if(!svrfdeof && FD_ISSET(svrfd,&rset)){ ... }`
  unfoldable pub from_svrfd : Bool → Client World → Outcome (Served (Client World))
  from_svrfd isset c =
      if c.svrfdeof == 0 && isset
      then (do
        (re, eof, w) ← read_write_shutdown_if_read_eof sys c.world svrfd stdoutfd
        ok (
            if re == 0
            then (if eof == 0
                then goes_on (record c { svrfdeof = eof; world = w })
                else exits 0 (record c { svrfdeof = eof; world = w }))
            else exits 2 (record c { svrfdeof = eof; world = w })))
      else ok (goes_on c)

  -- A round of `while(1)` of csc_echo_select.cpp.
  unfoldable pub select_round : Client World → Outcome (Served (Client World))
  unfolding from_stdin from_svrfd and_then
  select_round c =
      let (re, rset, w) =
        sys.select c.world (max_ℤ svrfd stdinfd +ℤ pos 1) (both_fds stdinfd svrfd) in
      let c1 = record c { world = w } in
      if ltb_ℤ re (pos 0)
      then ok (exits 1 c1)
      else if eq_ℤ re (pos 0)
      then ok (goes_on c1)
      else from_stdin (rset stdinfd) c1 >>= (λ served. and_then served (from_svrfd (rset svrfd)))

  unfoldable pub select_rounds : ℕ → Client World → Outcome (Served (Client World))
  unfolding select_round and_then
  select_rounds zero c = ok (goes_on c)
  select_rounds (suc rounds) c = do
    served ← select_round c
    and_then served (λ c1. select_rounds rounds c1)

module _ {World : Type 0} (sys : System World) where
  -- `main` of csc_echo_select.cpp for a number of rounds. A connection that failed is only reported.
  unfoldable pub select_client : ℕ → World → ℤ → ℤ → Outcome (Served (Client World))
  unfolding select_rounds
  select_client rounds w stdinfd stdoutfd =
      let (re, svrfd, w1) = socket_connect sys w 25000 in
      select_rounds sys stdinfd stdoutfd svrfd rounds
        (record { stdineof = 0; svrfdeof = 0; world = w1 })
