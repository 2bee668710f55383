-- ===== src/Children/Servers.antt =====
-- The servers that fork a process for each client: the loops of css_echo.cpp, sigaction_waitpidS.cpp and css.cpp.
pub mod Descriptors
pub mod Echoing
pub mod Mains
mod Tests
use serversidedev.Prelude.{
  ◌≤◌, ℕ, zero, suc, ◌-◌, ◌<◌, ◌+◌, ◌≡◌, Bool, true, false, ◌&&◌, List, ◌∷◌, if◌then◌else◌,
}
use serversidedev.Prelude.Int.{ℤ, pos, negsuc, ltb_ℤ}
use serversidedev.Prelude.Served.{Served, goes_on, exits, unless_ended, repeat}
use serversidedev.Io.{System}

-- What the servers call beside the sockets. `fork` is what the parent sees, and `forked` the world in which
-- the child begins, with the return value 0; `is_eintr` reads `errno`; `line` is `buff` after the `sprintf` of css.cpp.
pub record Forking (World : Type 0) : Type 0 where
  pub fork : World → ℤ × World
  pub forked : World → World
  pub is_eintr : World → Bool
  pub sleep : World → World
  pub line : World → ℕ → List ℕ

-- A server, and the processes that it has started, newest first: the client's descriptor, and where each begins.
pub record Parent (World : Type 0) : Type 0 where
  pub world : World
  pub sons : List (ℤ × World)

module _ {World : Type 0} (sys : System World) (forking : Forking World) where
  -- After `accept` gave `c`: `fork`, in the parent.
  unfoldable pub starts : Parent World → World → ℤ → Parent World
  starts p w1 c =
      let (pid, w2) = forking.fork w1 in
      record {
        world = w2;
        sons = if ltb_ℤ pid (pos 0) then p.sons else (c, forking.forked w1) ∷ p.sons;
      }

  -- A round of `while(working)` of css_echo.cpp.
  unfoldable pub css_echo_round : Parent World → ℤ → Served (Parent World)
  unfolding starts
  css_echo_round p svrfd =
      let (clifd, w1) = sys.accept p.world svrfd in
      if ltb_ℤ clifd (pos 0)
      then (if forking.is_eintr w1
          then goes_on (record p { world = w1 })
          else exits 1 (record p { world = w1 }))
      else goes_on (starts p w1 clifd)

  unfoldable pub css_echo_rounds : ℕ → Parent World → ℤ → Served (Parent World)
  unfolding css_echo_round repeat
  css_echo_rounds rounds p svrfd = repeat (λ p1. css_echo_round p1 svrfd) rounds p

  -- `while((len=read(clifd,buff,sizeof(buff)-1))>0){ ... }` and what follows, for a number of reads.
  unfoldable pub echo_loop : ℕ → World → ℤ → Served World
  echo_loop zero w clifd = goes_on w
  echo_loop (suc rounds) w clifd =
      let (len, buff, w1) = sys.read w clifd 1023 in
      let (re, w2) = sys.write w1 clifd buff in
      let rest = echo_loop rounds w2 clifd in
      if ltb_ℤ (pos 0) len
      then (if ltb_ℤ re (pos 0) then exits 1 w2 else rest)
      else if ltb_ℤ len (pos 0)
      then exits 1 w1
      else exits 0 (sys.close w1 clifd).1

  -- The process that the server starts. It starts another one, and ends; if it cannot, it serves the client.
  unfoldable pub son : ℕ → World → ℤ → Served World
  unfolding echo_loop
  son rounds w clifd =
      let (childpid, w1) = forking.fork w in
      if ltb_ℤ (pos 0) childpid then exits 0 w1 else echo_loop rounds w1 clifd

  -- The process that the son starts.
  unfoldable pub grandson : ℕ → World → ℤ → Served World
  unfolding echo_loop
  grandson rounds w clifd = echo_loop rounds (forking.forked w) clifd

  -- `str_echo` of sigaction_waitpidS.cpp for a number of reads, and the `exit(0)` after it. What `write` returns is ignored.
  unfoldable pub str_echo : ℕ → World → ℤ → Served World
  str_echo zero w cfd = goes_on w
  str_echo (suc rounds) w cfd =
      let (n, buf, w1) = sys.read w cfd 1024 in
      let (re, w2) = sys.write w1 cfd buf in
      let more = ltb_ℤ (pos 0) n in
      let rest = str_echo rounds (if more then w2 else w1) cfd in
      if more then rest else if ltb_ℤ n (pos 0) && forking.is_eintr w1 then rest else exits 0 w1

  -- The child of sigaction_waitpidS.cpp.
  unfoldable pub waitpid_child : ℕ → World → ℤ → ℤ → Served World
  unfolding str_echo
  waitpid_child rounds w s c = str_echo rounds (sys.close w s).1 c

  -- A round of `while(1)` of sigaction_waitpidS.cpp.
  unfoldable pub waitpid_round : Parent World → ℤ → Served (Parent World)
  unfolding starts
  waitpid_round p s =
      let (c, w1) = sys.accept p.world s in
      let p1 = starts p w1 c in
      if ltb_ℤ c (pos 0)
      then exits 0 (record p { world = w1 })
      else goes_on (record p1 { world = (sys.close p1.world c).1 })

  unfoldable pub waitpid_rounds : ℕ → Parent World → ℤ → Served (Parent World)
  unfolding waitpid_round repeat
  waitpid_rounds rounds p s = repeat (λ p1. waitpid_round p1 s) rounds p

  -- The loop of `write_to_fd_and_close_it` of css.cpp, from `i`.
  unfoldable pub write_lines : (left i : ℕ) → World → ℤ → Served World
  write_lines zero i w fd = goes_on w
  write_lines (suc left) i w fd =
      let (re, w1) = sys.write w fd (forking.line w i) in
      let rest = write_lines left (suc i) (forking.sleep w1) fd in
      if ltb_ℤ re (pos 0) then exits 1 w1 else rest

  unfoldable pub write_to_fd_and_close_it : World → ℤ → ℕ → Served World
  unfolding write_lines unless_ended
  write_to_fd_and_close_it w fd time =
      unless_ended (write_lines time 0 w fd) (λ w1. goes_on (sys.close w1 fd).1)

  -- The child of css.cpp: it goes on with what the parent does, and with the loop.
  unfoldable pub css_child : World → ℤ → Served World
  unfolding write_to_fd_and_close_it unless_ended
  css_child w clifd =
      unless_ended (write_to_fd_and_close_it w clifd 20)
        (λ w1. write_to_fd_and_close_it w1 clifd 10)

  -- A round of `while(working)` of css.cpp, in the parent.
  unfoldable pub css_round : Parent World → ℤ → Served (Parent World)
  unfolding starts write_to_fd_and_close_it
  css_round p svrfd =
      let (clifd, w1) = sys.accept p.world svrfd in
      let p1 = starts p w1 clifd in
      if ltb_ℤ clifd (pos 0)
      then exits 1 (record p { world = w1 })
      else elim (write_to_fd_and_close_it p1.world clifd 10) [
        | goes_on w2 ↦ goes_on (record p1 { world = w2 })
        | exits exitstatus w2 ↦ exits exitstatus (record p1 { world = w2 })
      ]

-- The descriptors of a process.
pub record Fds (World : Type 0) : Type 0 where
  pub is_open : World → ℤ → Bool
  pub opened : World → ℕ

-- What POSIX says of the calls and the descriptors. `close` frees the descriptor also where it reports an error, as Linux does.
pub record FdLaws {World : Type 0} (sys : System World) (forking : Forking World) (fds : Fds World)
    : Type 0 where
  pub socket_opens : (w : World) → fds.opened (sys.socket w).1 ≤ suc (fds.opened w)
  pub bind_keeps :
      (w : World) (fd : ℤ) (port : ℕ) → fds.opened (sys.bind w fd port).1 ≡ fds.opened w
  pub listen_keeps :
      (w : World) (fd : ℤ) (backlog : ℕ) → fds.opened (sys.listen w fd backlog).1 ≡ fds.opened w
  pub accept_opens :
      (w : World) (fd : ℤ)
      → ltb_ℤ (sys.accept w fd).0 (pos 0) ≡ false
      → (fds.is_open (sys.accept w fd).1 (sys.accept w fd).0 ≡ true)
        × (fds.opened (sys.accept w fd).1 ≡ suc (fds.opened w))
  pub accept_fails :
      (w : World) (fd : ℤ)
      → ltb_ℤ (sys.accept w fd).0 (pos 0) ≡ true
      → fds.opened (sys.accept w fd).1 ≡ fds.opened w
  pub fork_keeps :
      (w : World)
      → (fds.opened (forking.fork w).1 ≡ fds.opened w)
        × ((d : ℤ) → fds.is_open (forking.fork w).1 d ≡ fds.is_open w d)
  pub close_frees :
      (w : World) (fd : ℤ)
      → fds.is_open w fd ≡ true
      → fds.opened w ≡ suc (fds.opened (sys.close w fd).1)
  pub close_closes : (w : World) (fd : ℤ) → fds.is_open (sys.close w fd).1 fd ≡ false
  pub write_closed :
      (w : World) (fd : ℤ) (buff : List ℕ)
      → fds.is_open w fd ≡ false
      → ltb_ℤ (sys.write w fd buff).0 (pos 0) ≡ true
