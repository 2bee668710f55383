-- ===== src/Io/Conns/Counted.antt =====
-- The count of finished connections.
use native.Mathlib.Nat.{mod-lt}
use serversidedev.Prelude.{
  ℕ, ◌+◌, ◌<◌, ◌≡◌, refl, Bool, true, false, Bool-cases, inl, inr, List, [], ◌∷◌, ltb, ◌==◌,
  if◌then◌else◌, update, total, total-update, arith,
}
use serversidedev.Prelude.Int.{ℤ, pos, ltb_ℤ}
use serversidedev.Prelude.Outcome.{Outcome, ok, aborted, fault, unfinished, ◌>>=◌}
use serversidedev.Io.{System}
use serversidedev.Io.Write.{full_write}
use serversidedev.Io.Echo.{read_write}
use serversidedev.Prelude.Served.{Served, goes_on, exits, and_then}
use serversidedev.Io.Conns.{
  FdId, Conns, current, fd_closed, fd_rd_open, send_message, advance, finish, receive_reply,
  conn_round, conn_rounds,
}

abbrev pub is_open : FdId → ℕ
is_open c = if c.status == fd_closed then 0 else 1

-- `finishcnt` and the open connections make up all of them.
abbrev pub Counts : {World : Type 0} → ℕ → Conns World → Type 0
Counts n s = (s.i < n) × (s.finishcnt + total is_open n s.fds ≡ n)

-- The same, and the current connection is open.
abbrev Open : {World : Type 0} → ℕ → Conns World → Type 0
Open n s = Counts n s × (is_open (current s) ≡ 1)

module _ {World : Type 0} (sys : System World) (shutdown : World → ℤ → ℤ × World)
    (message : ℕ → ℤ → ℕ → List ℕ) (stdoutfd : ℤ) (n : ℕ) where
  abbrev pub While : (Conns World → Type 0) → Outcome (Served (Conns World)) → Type 0
  While Holds (ok (goes_on s)) = Holds s
  While Holds out = Unit

  While-then :
      (First Last : Conns World → Type 0) (out : Outcome (Served (Conns World)))
      (next : Conns World → Outcome (Served (Conns World)))
      → While First out
      → ((s : Conns World) → First s → While Last (next s))
      → While Last (out >>= (λ served. and_then served next))
  unfolding and_then
  While-then First Last (ok (goes_on s)) next h k = k s h
  While-then First Last (ok (exits status s)) next h k = tt
  While-then First Last aborted next h k = tt
  While-then First Last fault next h k = tt
  While-then First Last unfinished next h k = tt

  advance-Counts :
      (s : Conns World) → Counts n s → Counts n (advance sys shutdown message stdoutfd n s)
  unfolding advance
  advance-Counts s (lt, count) = (mod-lt (s.i + 1) (omega arith), count)

  finish-Counts : (s : Conns World) → Open n s → Counts n (finish sys shutdown message stdoutfd n s)
  unfolding finish
  finish-Counts s ((lt, count), is_op) = (
    lt,
    omega (
      arith,
      count,
      is_op,
      total-update is_open n s.fds s.i (record (current s) { status = fd_closed }) lt,
    ),
  )

  send-Open :
      (gfinish : Bool) (s : Conns World)
      → Open n s
      → While (Open n) (send_message sys shutdown message stdoutfd n gfinish s)
  unfolding send_message
  send-Open true s ((lt, count), is_op) =
      elim (Bool-cases (ltb_ℤ (shutdown s.world (current s).fd).0 (pos 0))) [
        | inl failed ↦ rw failed tt
        | inr shut ↦ rw shut (
          (
            lt,
            omega (
              arith,
              count,
              is_op,
              total-update is_open n s.fds s.i (record (current s) { status = fd_rd_open }) lt,
            ),
          ),
          opened,
        )
      ]
    where
      opened : is_open (update s.fds s.i (record (current s) { status = fd_rd_open }) s.i) ≡ 1
      opened = ground arith
  send-Open false s h =
      go (full_write sys s.world (current s).fd (message (current s).id (current s).fd s.gmsgno))
    where
      go :
          (out : Outcome (ℕ × World))
          → While (Open n) (
              out >>= λ (r : ℕ × World).
              ok (goes_on (record s { gmsgno = s.gmsgno + 1; world = r.1 })))
      go (ok (re, w)) = h
      go aborted = tt
      go fault = tt
      go unfinished = tt

  receive-Counts :
      (s : Conns World)
      → Open n s
      → While (Counts n) (receive_reply sys shutdown message stdoutfd n s)
  unfolding receive_reply
  receive-Counts s h = go (read_write sys s.world (current s).fd stdoutfd)
    where
      go :
          (out : Outcome (ℕ × ℕ × World))
          → While (Counts n) (
              out >>= λ (r : ℕ × ℕ × World). ok (
                goes_on (
                  advance sys shutdown message stdoutfd n (
                    if r.1 == 0
                    then record s { world = r.2 }
                    else finish sys shutdown message stdoutfd n (record s { world = r.2 })))))
      go (ok (re, eof, w)) = elim (Bool-cases (eof == 0)) [
        | inl more ↦ rw more (advance-Counts (record s { world = w }) h.0)
        | inr ended ↦ rw ended (
            advance-Counts (finish sys shutdown message stdoutfd n (record s { world = w }))
              (finish-Counts (record s { world = w }) h))
      ]
      go aborted = tt
      go fault = tt
      go unfinished = tt

  round-Counts :
      (gfinish : Bool) (s : Conns World)
      → Counts n s
      → While (Counts n) (conn_round sys shutdown message stdoutfd n gfinish s)
  unfolding conn_round
  round-Counts gfinish s h = elim (Bool-cases ((current s).status == fd_closed)) [
    | inl closed ↦ rw closed (advance-Counts s h)
    | inr open_still ↦ rw open_still (
        While-then (Open n) (Counts n) (send_message sys shutdown message stdoutfd n gfinish s)
          (receive_reply sys shutdown message stdoutfd n)
          (send-Open gfinish s (h, rw open_still refl)) receive-Counts)
  ]

  -- If `finishcnt` and the connections whose status is not FD_CLOSE make up all connections, and `i` is the
  -- index of one, then they do as long as the loop goes on, whatever values `gfinish` takes and whatever
  -- the system calls return; so the loop's condition fails only when all connections are closed.
  pub conn_rounds-Counts :
      (gfinish : List Bool) (s : Conns World)
      → Counts n s
      → While (Counts n) (conn_rounds sys shutdown message stdoutfd n gfinish s)
  unfolding conn_rounds
  conn_rounds-Counts [] s h = h
  conn_rounds-Counts (g ∷ later) s h = elim (Bool-cases (ltb s.finishcnt n)) [
    | inl more ↦ rw more (
        While-then (Counts n) (Counts n) (conn_round sys shutdown message stdoutfd n g s)
          (conn_rounds sys shutdown message stdoutfd n later) (round-Counts g s h)
          (conn_rounds-Counts later))
    | inr over ↦ rw over h
  ]
