-- ===== src/Io/Echo/DataEcho.antt =====
-- What `data_echo` sends back.
use serversidedev.Prelude.{
  ℕ, zero, suc, ◌≤◌, ◌≡◌, refl, List, [], length, arith, false, Bool-cases, inl, inr, ◌∙◌, ◌==◌,
  if◌then◌else◌,
}
use serversidedev.Prelude.Int.{ℤ, pos, eq_ℤ, ltb_ℤ}
use serversidedev.Prelude.Outcome.{Outcome, ok, aborted, fault, unfinished, ◌>>=◌}
use serversidedev.Io.{System, Streams, Laws, Silent}
use serversidedev.Io.Write.Delivery.{NothingTaken}
use serversidedev.Io.Echo.{
  max_line, read_write, close_tofd, close_both, shutdown_if_read_eof,
  read_write_shutdown_if_read_eof, data_echo,
}
use serversidedev.Io.Echo.Forwarding.{Passes, Passes-Silent, Cut, Forwarded, read_write-Forwarded}

module _ {World : Type 0} (sys : System World) (streams : Streams World) where
  -- What was read from `fd` was written to it, and at most as much as the buffer holds.
  abbrev pub Back : World → World → ℤ → Type 0
  Back w w' fd =
      (bytes : List ℕ) × (length bytes ≤ max_line) × Passes streams w w' fd fd bytes bytes

  -- How `data_echo` comes out.
  abbrev pub Echoed : World → ℤ → Outcome (ℕ × World) → Type 0
  Echoed w fd (ok (zero, w')) = Back w w' fd
  Echoed w fd (ok (suc re, w')) = (re ≡ 0) × Cut streams w w' fd fd
  Echoed w fd aborted = NothingTaken sys streams fd
  Echoed w fd fault = ⊥
  Echoed w fd unfinished = ⊥

  Silent-then : {w w1 w2 : World} → Silent streams w w1 → Silent streams w1 w2 → Silent streams w w2
  Silent-then a b = record {
    unsent = λ d. b.unsent d ∙ a.unsent d;
    unread = λ d. b.unread d ∙ a.unread d;
  }

  module _ (laws : Laws sys streams) where
    close_tofd-Silent :
        (w : World) (fromfd tofd : ℤ) → Silent streams w (close_tofd sys w fromfd tofd).1
    unfolding close_tofd
    close_tofd-Silent w fromfd tofd = elim (Bool-cases (eq_ℤ fromfd tofd)) [
      | inl same ↦ rw same (record { unsent = λ d. refl; unread = λ d. refl })
      | inr other ↦ rw other (laws.close_silent w tofd)
    ]

    pub close_both-Silent :
        (w : World) (fromfd tofd : ℤ) → Silent streams w (close_both sys w fromfd tofd).1
    unfolding close_both
    close_both-Silent w fromfd tofd =
        let (re, w1) = sys.close w fromfd in
        elim (Bool-cases (ltb_ℤ re (pos 0))) [
          | inl failed ↦ rw failed (laws.close_silent w fromfd)
          | inr closed ↦
              rw closed
                (Silent-then (laws.close_silent w fromfd) (close_tofd-Silent w1 fromfd tofd))
        ]

    -- The end of the stream: the code says whether `close` succeeded.
    closed-Echoed :
        (w w' : World) (fd : ℤ) (closed : ℕ)
        → Passes streams w w' fd fd [] []
        → Echoed w fd (ok (if closed == 0 then 0 else 1, w'))
    closed-Echoed w w' fd closed p = elim (Bool-cases (closed == 0)) [
      | inl done ↦ rw done ([], omega arith, p)
      | inr failed ↦ rw failed (refl, ([], 0, omega arith, p))
    ]

    not_zero : (n : ℕ) → (suc n == 0) ≡ false
    not_zero n = ground arith

    after-read_write :
        (w : World) (fd : ℤ) (out : Outcome (ℕ × ℕ × World))
        → Forwarded sys streams w fd fd out
        → Echoed w fd (
            out
            >>= shutdown_if_read_eof sys fd fd
            >>= (λ (r : ℕ × ℕ × World). ok (if r.0 == 0 then 0 else 1, r.2)))
    unfolding shutdown_if_read_eof
    after-read_write w fd (ok (zero, zero, w1)) (bytes, pos_length, le, p) = (bytes, le, p)
    after-read_write w fd (ok (zero, suc eof, w1)) (e, p) = rw (not_zero eof) (
        closed-Echoed w (close_both sys w1 fd fd).1 fd (close_both sys w1 fd fd).0
          (Passes-Silent streams p (close_both-Silent w1 fd fd)))
    after-read_write w fd (ok (suc zero, eof, w1)) (e, p) = (refl, ([], 0, omega arith, p))
    after-read_write w fd (ok (suc (suc re), eof, w1)) (e, e1, cut) =
        rw (not_zero (suc re)) (refl, cut)
    after-read_write w fd aborted f = f
    after-read_write w fd fault f = f
    after-read_write w fd unfinished f = f

    -- If the system calls keep to their laws, `data_echo` ends. It returns 0 when it has sent back to the
    -- descriptor, in their order, all the bytes that it read from it (none at the end of the stream), and 1
    -- when it has sent back only some, from the front. No other descriptor sees a byte. It fails an
    -- assertion only if a `write` of one byte or more returned 0.
    pub data_echo-Echoed : (w : World) (fd : ℤ) → Echoed w fd (data_echo sys w fd)
    unfolding data_echo read_write_shutdown_if_read_eof
    data_echo-Echoed w fd =
        after-read_write w fd (read_write sys w fd fd)
          (read_write-Forwarded sys streams laws w fd fd)
