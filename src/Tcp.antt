-- ===== src/Tcp.antt =====
-- The TCP clients csc_echo.cpp, csc.cpp, sigaction_waitpidC.cpp and names/daytimetcpcli1.cpp.
pub mod Replies
pub mod Daytime
pub mod Connection
mod Tests
use serversidedev.Prelude.{
  ℕ, zero, suc, ◌+◌, ◌≡◌, Bool, true, false, Option, none, some, List, [], ◌∷◌, ◌++◌, length, take,
  drop, ltb, leb, ◌==◌, if◌then◌else◌,
}
use serversidedev.Prelude.Int.{ℤ, pos, ltb_ℤ, leb_ℤ, pos_part}
use serversidedev.Prelude.CString.{c_string}
use serversidedev.Prelude.Outcome.{Outcome, ok, fault, unfinished, ◌>>=◌, ◌>>◌}
use serversidedev.Prelude.Served.{Served, goes_on, exits, and_then}
use serversidedev.Io.{System}

-- What has been put out, and the world.
pub record Console (World : Type 0) : Type 0 where
  pub out : List ℕ
  pub world : World

module _ {World : Type 0} where
  -- `fputs` of the buffer.
  unfoldable pub fputs : List ℕ → Console World → Outcome (Console World)
  fputs buff c = c_string buff >>= (λ s. ok (record c { out = c.out ++ s }))

module _ {World : Type 0} (sys : System World) where
  -- `while((re=read(fd,buff,sizeof(buff)-1))>=0){ ... }` of csc_echo.cpp and what follows it, from `cnt`. The buffer
  -- is closed by a 0 behind what was read.
  unfoldable pub read_replies :
      ℕ → Console World → ℤ → (cnt len : ℕ) → Outcome (Served (Console World))
  unfolding fputs
  read_replies zero c fd cnt len = unfinished
  read_replies (suc fuel) c fd cnt len =
      let (re, bytes, w1) = sys.read c.world fd 1023 in
      let got = cnt + pos_part re in
      let shown = fputs (bytes ++ (0 ∷ [])) (record c { world = w1 }) in
      if leb_ℤ (pos 0) re
      then (shown >>= (λ c1.
          let rest = read_replies fuel c1 fd got len in
          if got == len then ok (goes_on c1) else if ltb len got then ok (exits 1 c1) else rest))
      else ok (exits 1 (record c { world = w1 }))

  -- `while(working)` of csc_echo.cpp over the lines of the input, each as `fgets` gives it. At its end `fgets` fails.
  unfoldable pub echo_client :
      ℕ → List (List ℕ) → Console World → ℤ → Outcome (Served (Console World))
  unfolding read_replies and_then
  echo_client fuel [] c fd = ok (exits 1 c)
  echo_client fuel (line ∷ lines) c fd =
      let (re, w1) = sys.write c.world fd line in
      let rest = do
        served ← read_replies fuel (record c { world = w1 }) fd 0 (length line)
        and_then served (λ c1. echo_client fuel lines c1 fd)
      in if ltb_ℤ re (pos 0) then ok (exits 1 (record c { world = w1 })) else rest

  -- A round of `while(1)` of csc.cpp, with the buffer `line`. `fputs` is taken to succeed.
  unfoldable pub csc_round : List ℕ × Console World → ℤ → Outcome (Served (List ℕ × Console World))
  unfolding fputs
  csc_round (line, c) fd =
      let (re, bytes, w1) = sys.read c.world fd 1023 in
      let filled = take 1023 (bytes ++ drop (length bytes) line) ++ (0 ∷ []) in
      let shown = fputs filled (record c { world = w1 }) in
      if ltb_ℤ (pos 0) re
      then (shown >>= (λ c1. ok (goes_on (filled, c1))))
      else ok (
          if ltb_ℤ re (pos 0)
          then exits 1 (line, record c { world = w1 })
          else goes_on (line, record c { world = w1 }))

  unfoldable pub csc_rounds :
      ℕ → List ℕ × Console World → ℤ → Outcome (Served (List ℕ × Console World))
  unfolding csc_round and_then
  csc_rounds zero state fd = ok (goes_on state)
  csc_rounds (suc rounds) state fd = do
    served ← csc_round state fd
    and_then served (λ state1. csc_rounds rounds state1 fd)

module _ {World : Type 0} (sys : System World) where
  -- `main` of csc_echo.cpp. What `socket` returns is not looked at.
  unfoldable pub csc_echo_main : ℕ → List (List ℕ) → World → Outcome (Served (Console World))
  unfolding echo_client
  csc_echo_main fuel lines w =
      let (fd, w1) = sys.socket w in
      let (re, w2) = sys.connect w1 fd 25000 in
      if ltb_ℤ re (pos 0)
      then ok (exits 1 (record { out = []; world = w2 }))
      else echo_client sys fuel lines (record { out = []; world = w2 }) fd

  -- `main` of csc.cpp for a number of rounds. `line` has not been set.
  unfoldable pub csc_main : ℕ → List ℕ → World → Outcome (Served (List ℕ × Console World))
  unfolding csc_rounds
  csc_main rounds line w =
      let (fd, w1) = sys.socket w in
      let (n, w2) = sys.connect w1 fd 25000 in
      if ltb_ℤ n (pos 0)
      then ok (exits 1 (line, record { out = []; world = w2 }))
      else csc_rounds sys rounds (line, record { out = []; world = w2 }) fd

-- `memset(p,0,n)` on an array of `size` bytes.
unfoldable pub memset : (size n : ℕ) → Outcome (Unit {0})
memset size n = if leb n size then ok tt else fault

module _ {World : Type 0} (sys : System World) where
  -- `while(fgets(sendline,1024,fp)!=NULL){ ... }` of sigaction_waitpidC.cpp over the lines of the input. `recvline` is 0 behind what was read.
  unfoldable pub str_cli_loop : List (List ℕ) → Console World → ℤ → Outcome (Console World)
  unfolding fputs memset
  str_cli_loop [] c sfd = ok c
  str_cli_loop (line ∷ lines) c sfd =
      let (sent, w1) = sys.write c.world sfd line in
      let (re, bytes, w2) = sys.read w1 sfd 1024 in
      fputs (bytes ++ (0 ∷ [])) (record c { world = w2 })
      >>= (λ c1. memset 2014 1024 >> memset 1024 2014 >> str_cli_loop lines c1 sfd)

  unfoldable pub str_cli : List (List ℕ) → Console World → ℤ → Outcome (Console World)
  unfolding str_cli_loop memset
  str_cli lines c sfd = memset 2014 1024 >> memset 1024 2014 >> str_cli_loop lines c sfd

module _ {World : Type 0} (sys : System World) where
  -- `main` of sigaction_waitpidC.cpp: the sockets, each of which is connected then; `none` where a call fails.
  unfoldable pub open_sockets : ℕ → World → Option (List ℤ) × World
  open_sockets zero w = (some [], w)
  open_sockets (suc n) w =
      let (s, w1) = sys.socket w in
      let (rest, w2) = open_sockets n w1 in
      if ltb_ℤ s (pos 0)
      then (none, w1)
      else (elim rest [ none ↦ none | some later ↦ some (s ∷ later) ], w2)

  unfoldable pub connect_all : List ℤ → World → Bool × World
  connect_all [] w = (true, w)
  connect_all (s ∷ later) w =
      let (re, w1) = sys.connect w s 9998 in
      let rest = connect_all later w1 in if ltb_ℤ re (pos 0) then (false, w1) else rest

  -- Each way out has status 0.
  unfoldable pub str_cli_main : List (List ℕ) → World → Outcome (Served (Console World))
  unfolding open_sockets connect_all str_cli
  str_cli_main lines w = let (opened, w1) = open_sockets 5 w in str_cli_with lines opened w1
    where
      str_cli_with : List (List ℕ) → Option (List ℤ) → World → Outcome (Served (Console World))
      str_cli_with lines none w1 = ok (exits 0 (record { out = []; world = w1 }))
      str_cli_with lines (some []) w1 = ok (exits 0 (record { out = []; world = w1 }))
      str_cli_with lines (some (s ∷ later)) w1 =
          let (connected, w2) = connect_all (s ∷ later) w1 in
          let c = str_cli sys lines (record { out = []; world = w2 }) s in
          if connected
          then (c >>= (λ c1. ok (exits 0 c1)))
          else ok (exits 0 (record { out = []; world = w2 }))

-- The name service: the addresses of a host, the address that a text is, and the port of a service.
pub record Names : Type 0 where
  pub gethostbyname : List ℕ → Option (List (List ℕ))
  pub inet_aton : List ℕ → Option (List ℕ)
  pub getservbyname : List ℕ → Option ℕ

-- The address list of daytimetcpcli1.cpp; `none` where `print_error` ends the process.
unfoldable pub addr_list : Names → List ℕ → Option (List (List ℕ))
addr_list names host = elim (names.gethostbyname host) [
  | some h_addr_list ↦ some h_addr_list
  | none ↦ elim (names.inet_aton host) [ none ↦ none | some addr ↦ some (addr ∷ []) ]
]

-- `connect` of a socket to an address and a port.
pub record Connecting (World : Type 0) : Type 0 where
  pub connect : World → ℤ → List ℕ → ℕ → ℤ × World

module _ {World : Type 0} (sys : System World) (connecting : Connecting World) where
  -- `for(paddr=h_addr_list;*paddr!=NULL;paddr++){ ... }`: whether one of the addresses was connected to.
  unfoldable pub connect_first : World → ℤ → List (List ℕ) → ℕ → Bool × World
  connect_first w srvfd [] port = (false, w)
  connect_first w srvfd (addr ∷ addrs) port =
      let (re, w1) = connecting.connect w srvfd addr port in
      let rest = connect_first w1 srvfd addrs port in if ltb_ℤ re (pos 0) then rest else (true, w1)

  -- `while((re=read(srvfd,buff,sizeof(buff)))>0){ puts(buff); }` and what follows, for a number of reads. `puts` adds a newline.
  unfoldable pub read_daytime : ℕ → List ℕ → Console World → ℤ → Outcome (Served (Console World))
  unfolding fputs
  read_daytime zero buff c srvfd = ok (goes_on c)
  read_daytime (suc rounds) buff c srvfd =
      let (re, bytes, w1) = sys.read c.world srvfd 1024 in
      let filled = bytes ++ drop (length bytes) buff in
      let shown = fputs filled (record c { world = w1 }) in
      if ltb_ℤ (pos 0) re
      then (shown >>= (λ c1.
          let rest = read_daytime rounds filled (record c1 { out = c1.out ++ (10 ∷ []) }) srvfd in
          rest))
      else ok (
          if ltb_ℤ re (pos 0)
          then exits 1 (record c { world = w1 })
          else exits 0 (record c { world = w1 }))

  abbrev pub zero_buff : ℕ → List ℕ
  zero_buff zero = []
  zero_buff (suc n) = 0 ∷ zero_buff n

  -- `main` of daytimetcpcli1.cpp with both arguments, for a number of reads.
  unfoldable pub daytime_client :
      ℕ → Names → World → (host service : List ℕ) → Outcome (Served (Console World))
  unfolding addr_list connect_first read_daytime
  daytime_client rounds names w host service = elim (addr_list names host) [
    | none ↦ ok (exits 1 (record { out = []; world = w }))
    | some addrs ↦ elim (names.getservbyname service) [
      | none ↦ ok (exits 1 (record { out = []; world = w }))
      | some port ↦
          let (srvfd, w1) = sys.socket w in
          let (connected, w2) = connect_first w1 srvfd addrs port in
          let rest = read_daytime rounds (zero_buff 1024) (record { out = []; world = w2 }) srvfd in
          if ltb_ℤ srvfd (pos 0)
          then ok (exits 1 (record { out = []; world = w1 }))
          else if connected
          then rest
          else ok (exits 1 (record { out = []; world = w2 }))
    ]
  ]
