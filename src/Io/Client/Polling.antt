-- ===== src/Io/Client/Polling.antt =====
-- `main` of io/csc_echo_poll.cpp: the client over `poll`, which does not look at what `read_write` returns.
use serversidedev.Prelude.{
  ℕ, zero, suc, ◌+◌, ◌≤◌, ◌<◌, ◌≡◌, List, [], ◌∷◌, length, drop, length-drop, arith, Bool, true,
  ◌&&◌, ◌||◌, Bool-cases, inl, inr, leb, ltb, ◌==◌, if◌then◌else◌,
}
use serversidedev.Prelude.Int.{ℤ, pos, negsuc, pos_part, ltb_ℤ, eq_ℤ}
use serversidedev.Prelude.Outcome.{Outcome, ok, aborted, fault, unfinished, ◌>>=◌}
use serversidedev.Io.{System, Polled, Streams, Laws}
use serversidedev.Io.Sockets.{socket_connect}
use serversidedev.Io.Write.{wrote, full_write_loop, full_write}
use serversidedev.Io.Echo.{max_line, has_read, read_write}
use serversidedev.Io.Echo.Forwarding.{Passes, Forwarded, read_write-Forwarded}
use serversidedev.Prelude.Served.{Served, goes_on, exits, and_then}
use serversidedev.Io.Client.{Client}

abbrev pub is_ready : Polled → Bool
is_ready p = p.pollrdnorm || p.pollerr

module _ {World : Type 0} (sys : System World) (stdinfd stdoutfd svrfd : ℤ) where
  -- `if(!stdineof && (fds[0].revents&(POLLRDNORM|POLLERR))){ ... }`
  unfoldable pub poll_stdin : Bool → Client World → Outcome (Served (Client World))
  poll_stdin ready c =
      if c.stdineof == 0 && ready
      then (do
        (re, eof, w) ← read_write sys c.world stdinfd svrfd
        ok (goes_on (record c { stdineof = eof; world = w })))
      else ok (goes_on c)

  -- `if(!svrfdeof && (fds[1].revents&(POLLRDNORM|POLLERR))){ ... }`
  unfoldable pub poll_svrfd : Bool → Client World → Outcome (Served (Client World))
  poll_svrfd ready c =
      if c.svrfdeof == 0 && ready
      then (do
        (re, eof, w) ← read_write sys c.world svrfd stdoutfd
        ok (
            if eof == 0
            then goes_on (record c { svrfdeof = eof; world = w })
            else exits 0 (record c { svrfdeof = eof; world = w })))
      else ok (goes_on c)

  -- A round of `while(1)`.
  unfoldable pub client_round : Client World → Outcome (Served (Client World))
  unfolding poll_stdin poll_svrfd and_then
  client_round c =
      let (re, revents, w) = sys.poll c.world (stdinfd ∷ svrfd ∷ []) in
      let c1 = record c { world = w } in
      if ltb_ℤ re (pos 0)
      then ok (exits 1 c1)
      else if eq_ℤ re (pos 0)
      then ok (goes_on c1)
      else poll_stdin (is_ready (revents 0)) c1
        >>= (λ served. and_then served (poll_svrfd (is_ready (revents 1))))

  unfoldable pub client_rounds : ℕ → Client World → Outcome (Served (Client World))
  unfolding client_round and_then
  client_rounds zero c = ok (goes_on c)
  client_rounds (suc rounds) c = do
    served ← client_round c
    and_then served (λ c1. client_rounds rounds c1)

module _ {World : Type 0} (sys : System World) where
  -- `main` for a number of rounds. A connection that failed is only reported.
  unfoldable pub poll_client : ℕ → World → ℕ → ℤ → ℤ → Outcome (Served (Client World))
  unfolding client_rounds
  poll_client rounds w port stdinfd stdoutfd =
      let (re, svrfd, w1) = socket_connect sys w port in
      client_rounds sys stdinfd stdoutfd svrfd rounds
        (record { stdineof = 0; svrfdeof = 0; world = w1 })

module _ {World : Type 0} (sys : System World) (streams : Streams World) where
  -- A `write` of a byte or more takes a byte or more.
  abbrev pub Reliable : Type 0
  Reliable =
      (w : World) (fd : ℤ) (buff : List ℕ) → 0 < length buff → 0 < pos_part (sys.write w fd buff).0

  -- All that was read has been written.
  abbrev pub Whole : World → ℤ → ℤ → Outcome (ℕ × ℕ × World) → Type 0
  Whole w fromfd tofd (ok (re, eof, w')) =
      (bytes : List ℕ) × Passes streams w w' fromfd tofd bytes bytes
  Whole w fromfd tofd out = ⊥

  abbrev ReturnsZero : Outcome (ℕ × World) → Type 0
  ReturnsZero (ok (zero, w)) = Unit
  ReturnsZero out = ⊥

  module _ (laws : Laws sys streams) (reliable : Reliable) where
    wrote-ReturnsZero :
        (re : ℤ) (w : World) (buff : List ℕ) (rest : Outcome (ℕ × World))
        → 0 < pos_part re
        → pos_part re ≤ length buff
        → (pos_part re < length buff → ReturnsZero rest)
        → ReturnsZero (wrote re w buff rest)
    unfolding wrote
    wrote-ReturnsZero (negsuc n) w buff rest h le k = absurd (omega arith)
    wrote-ReturnsZero (pos zero) w buff rest h le k = absurd (omega arith)
    wrote-ReturnsZero (pos (suc n)) w buff rest h le k =
        rw in_bounds (elim (Bool-cases (ltb (suc n) (length buff))) [
          | inl more ↦ rw more (k (ground arith))
          | inr last ↦ rw last tt
        ])
      where
        in_bounds : leb (suc n) (length buff) ≡ true
        in_bounds = ground (arith, le)

    loop-ReturnsZero :
        (fuel : ℕ) (w : World) (fd : ℤ) (buff : List ℕ)
        → 0 < length buff
        → length buff < fuel
        → ReturnsZero (full_write_loop sys fuel w fd buff)
    unfolding full_write_loop
    loop-ReturnsZero zero w fd buff h lt = absurd (omega arith)
    loop-ReturnsZero (suc fuel) w fd buff h lt =
        let (re, w1) = sys.write w fd buff in
        wrote-ReturnsZero re w1 buff (full_write_loop sys fuel w1 fd (drop (pos_part re) buff))
          (reliable w fd buff h) (laws.write_bounded w fd buff)
          (λ more.
            loop-ReturnsZero fuel w1 fd (drop (pos_part re) buff)
              (omega (arith, length-drop (pos_part re) buff))
              (omega (arith, length-drop (pos_part re) buff, reliable w fd buff h)))

    read-Whole :
        (w w1 : World) (fromfd tofd : ℤ) (re : ℤ) (buff : List ℕ)
        → length buff ≡ pos_part re
        → Forwarded sys streams w fromfd tofd (has_read sys re buff w1 tofd)
        → Whole w fromfd tofd (has_read sys re buff w1 tofd)
    unfolding has_read full_write
    read-Whole w w1 fromfd tofd (negsuc n) buff e (z, p) = ([], p)
    read-Whole w w1 fromfd tofd (pos zero) buff e (z, p) = ([], p)
    read-Whole w w1 fromfd tofd (pos (suc n)) buff e f =
        go (full_write_loop sys (length buff + 1) w1 tofd buff)
          (loop-ReturnsZero (length buff + 1) w1 tofd buff (omega arith) (omega arith)) f
      where
        go :
            (out : Outcome (ℕ × World))
            → ReturnsZero out
            → Forwarded sys streams w fromfd tofd
                (out >>= λ (r : ℕ × World). ok (if r.0 == 0 then 0 else 2, 0, r.1))
            → Whole w fromfd tofd
                (out >>= λ (r : ℕ × World). ok (if r.0 == 0 then 0 else 2, 0, r.1))
        go (ok (zero, w2)) z (bytes, pos_length, le, p) = (bytes, p)
        go (ok (suc re, w2)) z f = absurd z
        go aborted z f = z
        go fault z f = z
        go unfinished z f = z

    pub read_write-Whole :
        (w : World) (fromfd tofd : ℤ) → Whole w fromfd tofd (read_write sys w fromfd tofd)
    unfolding read_write
    read_write-Whole w fromfd tofd =
        let (re, buff, w1) = sys.read w fromfd max_line in
        read-Whole w w1 fromfd tofd re buff (laws.read_length w fromfd max_line)
          (read_write-Forwarded sys streams laws w fromfd tofd)
