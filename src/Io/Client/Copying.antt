-- ===== src/Io/Client/Copying.antt =====
-- What the select client has copied when a round ends.
use serversidedev.Prelude.{
  ℕ, zero, suc, ◌≡◌, ◌≢◌, sym, ap, ◌∙◌, List, [], ◌++◌, append_nil, append_assoc, arith, false,
  ◌==◌,
}
use serversidedev.Prelude.Int.{ℤ}
use serversidedev.Prelude.Outcome.{Outcome, ok, aborted, fault, unfinished, ◌>>=◌}
use serversidedev.Io.{System, Streams, Laws, Silent}
use serversidedev.Io.Write.Delivery.{NothingTaken}
use serversidedev.Io.Echo.{
  read_write, close_both, shutdown_if_read_eof, read_write_shutdown_if_read_eof,
}
use serversidedev.Io.Echo.Forwarding.{Passes, Passes-Silent, Cut, Forwarded, read_write-Forwarded}
use serversidedev.Io.Echo.DataEcho.{close_both-Silent}
use serversidedev.Prelude.Served.{Served, goes_on, exits, and_then}
use serversidedev.Io.Client.{Client}

module _ {World : Type 0} (sys : System World) (streams : Streams World) where
  open streams use {sent, received}

  -- How `read_write_shutdown_if_read_eof` comes out: with 0 when it has written all that it read.
  abbrev pub Copies : World → ℤ → ℤ → Outcome (ℕ × ℕ × World) → Type 0
  Copies w fromfd tofd (ok (zero, eof, w')) =
      (bytes : List ℕ) × Passes streams w w' fromfd tofd bytes bytes
  Copies w fromfd tofd (ok (suc re, eof, w')) = Cut streams w w' fromfd tofd
  Copies w fromfd tofd aborted = NothingTaken sys streams tofd
  Copies w fromfd tofd fault = ⊥
  Copies w fromfd tofd unfinished = ⊥

  closed-Copies :
      (w w' : World) (fromfd tofd : ℤ) (closed eof : ℕ)
      → Passes streams w w' fromfd tofd [] []
      → Copies w fromfd tofd (ok (closed, eof, w'))
  closed-Copies w w' fromfd tofd zero eof p = ([], p)
  closed-Copies w w' fromfd tofd (suc closed) eof p = ([], 0, omega arith, p)

  -- One direction after bytes went through it, with what was not written.
  pub link :
      {w w' : World} {fromfd tofd : ℤ} {input output : List ℕ} (left : List ℕ)
      → sent w tofd ≡ received w fromfd
      → Passes streams w w' fromfd tofd input output
      → output ++ left ≡ input
      → sent w' tofd ++ left ≡ received w' fromfd
  link {w} {w'} {fromfd} {tofd} {input} {output} left before p e =
      ap (λ l. l ++ left) p.written_here
      ∙ append_assoc (sent w tofd) output left
      ∙ ap (λ l. sent w tofd ++ l) e
      ∙ ap (λ l. l ++ input) before
      ∙ sym p.read_here

  -- The other direction.
  pub other_link :
      {w w' : World} {fromfd tofd : ℤ} {input output : List ℕ} (from2 to2 : ℤ)
      → from2 ≢ fromfd
      → to2 ≢ tofd
      → sent w to2 ≡ received w from2
      → Passes streams w w' fromfd tofd input output
      → sent w' to2 ≡ received w' from2
  other_link from2 to2 ne ne2 before p =
      p.written_elsewhere to2 ne2 ∙ before ∙ sym (p.read_elsewhere from2 ne)

  module _ (laws : Laws sys streams) where
    after-read_write :
        (w : World) (fromfd tofd : ℤ) (out : Outcome (ℕ × ℕ × World))
        → Forwarded sys streams w fromfd tofd out
        → Copies w fromfd tofd (out >>= shutdown_if_read_eof sys fromfd tofd)
    unfolding shutdown_if_read_eof
    after-read_write w fromfd tofd (ok (zero, zero, w1)) (bytes, pos_length, le, p) = (bytes, p)
    after-read_write w fromfd tofd (ok (zero, suc eof, w1)) (e, p) = rw not_zero (
        closed-Copies w (close_both sys w1 fromfd tofd).1 fromfd tofd
          (close_both sys w1 fromfd tofd).0 (suc eof)
          (Passes-Silent streams p (close_both-Silent sys streams laws w1 fromfd tofd)))
      where
        not_zero : (suc eof == 0) ≡ false
        not_zero = ground arith
    after-read_write w fromfd tofd (ok (suc zero, eof, w1)) (e, p) = ([], 0, omega arith, p)
    after-read_write w fromfd tofd (ok (suc (suc re), eof, w1)) (e, e1, cut) = rw not_zero cut
      where
        not_zero : (suc (suc re) == 0) ≡ false
        not_zero = ground arith
    after-read_write w fromfd tofd aborted f = f
    after-read_write w fromfd tofd fault f = f
    after-read_write w fromfd tofd unfinished f = f

    pub copy-Copies :
        (w : World) (fromfd tofd : ℤ)
        → Copies w fromfd tofd (read_write_shutdown_if_read_eof sys w fromfd tofd)
    unfolding read_write_shutdown_if_read_eof
    copy-Copies w fromfd tofd =
        after-read_write w fromfd tofd (read_write sys w fromfd tofd)
          (read_write-Forwarded sys streams laws w fromfd tofd)

module _ {World : Type 0} (sys : System World) (streams : Streams World)
    (stdinfd stdoutfd svrfd : ℤ) where
  open streams use {sent, received}

  -- All that was read from the input was sent to the server, and all that it sent was put out.
  abbrev pub Copied : World → Type 0
  Copied w = (sent w svrfd ≡ received w stdinfd) × (sent w stdoutfd ≡ received w svrfd)

  -- The same up to what was not written.
  abbrev pub Begun : World → Type 0
  Begun w =
      ((left : List ℕ) × (sent w svrfd ++ left ≡ received w stdinfd))
      × ((left : List ℕ) × (sent w stdoutfd ++ left ≡ received w svrfd))

  -- How a round comes out.
  abbrev pub Relayed : Outcome (Served (Client World)) → Type 0
  Relayed (ok (goes_on c)) = Copied c.world
  Relayed (ok (exits zero c)) = Copied c.world
  Relayed (ok (exits (suc status) c)) = Begun c.world
  Relayed aborted = (fd : ℤ) × NothingTaken sys streams fd
  Relayed fault = ⊥
  Relayed unfinished = ⊥

  pub Copied-Begun : {w : World} → Copied w → Begun w
  Copied-Begun {w} (up, down) =
      (([], append_nil (sent w svrfd) ∙ up), ([], append_nil (sent w stdoutfd) ∙ down))

  pub Copied-Silent : {w w' : World} → Copied w → Silent streams w w' → Copied w'
  Copied-Silent (up, down) s = (
    s.unsent svrfd ∙ up ∙ sym (s.unread stdinfd),
    s.unsent stdoutfd ∙ down ∙ sym (s.unread svrfd),
  )

  pub and_then-Relayed :
      (out : Outcome (Served (Client World)))
      (next : Client World → Outcome (Served (Client World)))
      → Relayed out
      → ((c : Client World) → Copied c.world → Relayed (next c))
      → Relayed (out >>= (λ served. and_then served next))
  unfolding and_then
  and_then-Relayed (ok (goes_on c)) next h k = k c h
  and_then-Relayed (ok (exits status c)) next h k = h
  and_then-Relayed aborted next h k = h
  and_then-Relayed fault next h k = h
  and_then-Relayed unfinished next h k = h
