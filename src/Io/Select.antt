-- ===== src/Io/Select.antt =====
-- `main` of io/css_echo_select.cpp: an echo server over `select`, with a table of clients.
mod Main
pub mod Table
pub mod Rounds
pub mod Holes
use serversidedev.Prelude.{
  ℕ, zero, suc, ◌+◌, ◌-◌, Bool, true, false, not, ◌&&◌, ◌||◌, List, leb, ◌==◌, if◌then◌else◌,
  update,
}
use serversidedev.Prelude.Int.{ℤ, pos, negsuc, pos_part, ◌+ℤ◌, eq_ℤ, ltb_ℤ, leb_ℤ}
use serversidedev.Prelude.FdOutcome.{FdOutcome, fine, outside, and_then_fd, ◌>>=◌}
use serversidedev.Io.{System}
use serversidedev.Io.Echo.{max_line}
use serversidedev.Prelude.Served.{Served, goes_on, exits}

-- `MAXFDSIZE`.
abbrev pub max_fd_size : ℕ
max_fd_size = 500

-- An `fd_set` has 1024 members, and `FD_SET`, `FD_CLR` and `FD_ISSET` are defined for these only.
abbrev pub is_member : ℤ → Bool
is_member fd = leb_ℤ (pos 0) fd && ltb_ℤ fd (pos 1024)

unfoldable pub fd_isset : (ℤ → Bool) → ℤ → FdOutcome Bool
fd_isset set fd = if is_member fd then fine (set fd) else outside fd

unfoldable pub fd_set : (ℤ → Bool) → ℤ → FdOutcome (ℤ → Bool)
fd_set set fd = if is_member fd then fine (λ d. eq_ℤ d fd || set d) else outside fd

unfoldable pub fd_clr : (ℤ → Bool) → ℤ → FdOutcome (ℤ → Bool)
fd_clr set fd = if is_member fd then fine (λ d. not (eq_ℤ d fd) && set d) else outside fd

-- The locals of `main`, and the world. `maxi_next` is `maxi+1`; `clifds` is used below `MAXFDSIZE`.
pub record Server (World : Type 0) : Type 0 where
  pub allset : ℤ → Bool
  pub maxfd : ℤ
  pub clifds : ℕ → ℤ
  pub maxi_next : ℕ
  pub world : World

-- `for(i=0;i<MAXFDSIZE;i++){ if(clifds[i]==-1) ... break; }` from `i`, with the rounds left.
unfoldable pub find_free : ℕ → ℕ → (ℕ → ℤ) → ℕ
find_free zero i clifds = i
find_free (suc left) i clifds =
    let rest = find_free left (i + 1) clifds in if eq_ℤ (clifds i) (negsuc 0) then i else rest

-- `for(int i=maxi;i>=0 && clifds[i]==-1;i--) maxi--;`, with `maxi+1` for `maxi`.
unfoldable pub trim : ℕ → (ℕ → ℤ) → ℕ
trim zero clifds = 0
trim (suc m) clifds = let rest = trim m clifds in if eq_ℤ (clifds m) (negsuc 0) then rest else suc m

module _ {World : Type 0} where
  -- What is done with the result of `accept`.
  unfoldable pub add_client : Server World → ℤ → FdOutcome (Server World)
  unfolding fd_set find_free
  add_client s clifd = do
    allset ← fd_set s.allset clifd
    (let maxfd = if ltb_ℤ s.maxfd clifd then clifd else s.maxfd in
        let i = find_free max_fd_size 0 s.clifds in
        fine (
          if i == max_fd_size then record s { allset = allset; maxfd = maxfd } else record s {
            allset = allset;
            maxfd = maxfd;
            clifds = update s.clifds i clifd;
            maxi_next = if leb s.maxi_next i then i + 1 else s.maxi_next;
          }))

  -- The end of a client's stream, in slot `i`.
  unfoldable pub remove_client : Server World → ℕ → FdOutcome (Server World)
  unfolding fd_clr
  remove_client s i = do
    allset ← fd_clr s.allset (s.clifds i)
    fine (record s {
      allset = allset;
      maxfd = if eq_ℤ (s.clifds i) s.maxfd then s.maxfd +ℤ negsuc 0 else s.maxfd;
      clifds = update s.clifds i (negsuc 0);
    })

  -- After `for(int i=0;...)`.
  unfoldable pub lower_maxi : Server World → Server World
  unfolding trim
  lower_maxi s = record s { maxi_next = trim s.maxi_next s.clifds }

module _ {World : Type 0} (sys : System World) where
  -- The client in slot `i` is ready: the number is what `read` returned. `rest` goes on with `fdnum`.
  unfoldable pub serve_client :
      ℤ
      → List ℕ
      → Server World
      → ℕ
      → ℕ
      → (ℕ → Server World → FdOutcome (Served (Server World)))
      → FdOutcome (Served (Server World))
  unfolding remove_client
  serve_client (negsuc n) buff s i fdnum rest = fine (exits 1 s)
  serve_client (pos zero) buff s i fdnum rest =
      let (re, w) = sys.close s.world (s.clifds i) in
      remove_client (record s { world = w }) i >>= rest fdnum
  serve_client (pos (suc n)) buff s i fdnum rest =
      let (re, w) = sys.write s.world (s.clifds i) buff in
      let s1 = record s { world = w } in
      if ltb_ℤ re (pos 0)
      then fine (exits 1 s1)
      else if leb (fdnum - 1) 0
      then fine (goes_on s1)
      else rest (fdnum - 1) s1

  -- `for(int i=0;i<=maxi;i++)` from `i`, with the rounds left.
  unfoldable pub serve_clients :
      (ℤ → Bool) → ℕ → ℕ → ℕ → Server World → FdOutcome (Served (Server World))
  unfolding fd_isset serve_client
  serve_clients rset zero i fdnum s = fine (goes_on s)
  serve_clients rset (suc left) i fdnum s = do
    isset ← fd_isset rset (s.clifds i)
    (let (re, buff, w) = sys.read s.world (s.clifds i) max_line in
        if isset
        then serve_client re buff (record s { world = w }) i fdnum (serve_clients rset left (i + 1))
        else serve_clients rset left (i + 1) fdnum s)

  -- The loop over the clients and what follows it.
  unfoldable pub serve_all : (ℤ → Bool) → ℕ → Server World → FdOutcome (Served (Server World))
  unfolding serve_clients lower_maxi and_then_fd
  serve_all rset fdnum s = do
    served ← serve_clients rset s.maxi_next 0 fdnum s
    and_then_fd served (λ s1. fine (goes_on (lower_maxi s1)))

  -- `if(FD_ISSET(svrfd,&rset)){ ... }`, and the rest of the round.
  unfoldable pub serve_new : (ℤ → Bool) → ℕ → ℤ → Server World → FdOutcome (Served (Server World))
  unfolding add_client serve_all
  serve_new rset fdnum svrfd s =
      let (clifd, w) = sys.accept s.world svrfd in
      let s1 = record s { world = w } in
      if ltb_ℤ clifd (pos 0) then fine (exits 1 s1) else (do
        s2 ← add_client s1 clifd
        if leb (fdnum - 1) 0 then fine (goes_on s2) else serve_all rset (fdnum - 1) s2)

  -- A round of `while(1)`.
  unfoldable pub server_round : ℤ → Server World → FdOutcome (Served (Server World))
  unfolding fd_isset serve_new serve_all
  server_round svrfd s =
      let (re, rset, w) = sys.select s.world (s.maxfd +ℤ pos 1) s.allset in
      let s1 = record s { world = w } in
      if ltb_ℤ re (pos 0)
      then fine (exits 1 s1)
      else if eq_ℤ re (pos 0)
      then fine (goes_on s1)
      else (do
        isset ← fd_isset rset svrfd
        if isset then serve_new rset (pos_part re) svrfd s1 else serve_all rset (pos_part re) s1)

  unfoldable pub server_rounds : ℕ → ℤ → Server World → FdOutcome (Served (Server World))
  unfolding server_round and_then_fd
  server_rounds zero svrfd s = fine (goes_on s)
  server_rounds (suc rounds) svrfd s = do
    served ← server_round svrfd s
    and_then_fd served (server_rounds rounds svrfd)

module _ {World : Type 0} where
  -- `main` before its loop.
  unfoldable pub server_start : ℤ → World → FdOutcome (Server World)
  unfolding fd_set
  server_start svrfd w = do
    allset ← fd_set (λ d. false) svrfd
    fine (record {
      allset = allset;
      maxfd = svrfd;
      clifds = λ i. negsuc 0;
      maxi_next = 0;
      world = w;
    })

-- The start and then a number of rounds.
unfoldable pub server_run :
    {World : Type 0} → System World → ℕ → ℤ → World → FdOutcome (Served (Server World))
unfolding server_start server_rounds
server_run sys rounds svrfd w = server_start svrfd w >>= server_rounds sys rounds svrfd
