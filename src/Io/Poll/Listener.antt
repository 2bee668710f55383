-- ===== src/Io/Poll/Listener.antt =====
-- The listening socket among the clients of the poll server.
use serversidedev.Prelude.{
  ℕ, List, zero, suc, ◌+◌, ◌-◌, ◌≤◌, ◌<◌, ◌≡◌, refl, inl, inr, true, false, Bool-cases, arith, leb,
  ltb, ◌==◌,
}
use serversidedev.Prelude.Int.{ℤ, pos, negsuc, pos_part, ◌≤ℤ◌, ◌<ℤ◌, eq_ℤ, ltb_ℤ}
use serversidedev.Prelude.Outcome.{Outcome, ok}
use serversidedev.Io.{System, Polled}
use serversidedev.Io.Echo.{max_line}
use serversidedev.Prelude.Served.{Served, exits, and_then}
use serversidedev.Io.Select.{max_fd_size, find_free}
use serversidedev.Io.Select.Table.{is_free}
use serversidedev.Io.Poll.{
  Poller, slots_from, open_slot, answer, answer_slots, answer_all, take_new, polled, poll_round,
}

not_zero : (n : ℕ) → 0 < n → (n == 0) ≡ false
not_zero n h = ground arith

le-find_free : (left i : ℕ) (fds : ℕ → ℤ) → i ≤ find_free left i fds
unfolding find_free
le-find_free zero i fds = omega arith
le-find_free (suc left) i fds = ground (arith, le-find_free left (i + 1) fds)

find_free-ne-zero :
    (left : ℕ) (fds : ℕ → ℤ) → 0 < left → is_free (fds 0) ≡ false → 0 < find_free left 0 fds
unfolding find_free
find_free-ne-zero zero fds lt used = absurd (omega arith)
find_free-ne-zero (suc left) fds lt used = rw used (omega (arith, le-find_free left (0 + 1) fds))

module _ {World : Type 0} (s : Poller World) where
  -- A new client does not take slot 0 from the listening socket.
  open_slot-first : (clifd : ℤ) → pos 0 ≤ℤ s.fds 0 → (open_slot s clifd).fds 0 ≡ s.fds 0
  unfolding open_slot
  open_slot-first clifd used =
      let i = find_free max_fd_size 0 s.fds in
      elim (Bool-cases (i == max_fd_size)) [
        | inl full ↦ rw full refl
        | inr found ↦ rw found (
            rw (not_zero i (find_free-ne-zero max_fd_size s.fds (omega arith) (ground arith))) refl)
      ]

  open_slot-top : (clifd : ℤ) → s.maxi_next ≤ (open_slot s clifd).maxi_next
  unfolding open_slot
  open_slot-top clifd =
      let i = find_free max_fd_size 0 s.fds in
      elim (Bool-cases (i == max_fd_size)) [
        | inl full ↦ rw full (omega arith)
        | inr found ↦ rw found (elim (Bool-cases (leb s.maxi_next i)) [
          | inl above ↦ rw above (above_top s.maxi_next i above)
          | inr below ↦ rw below (omega arith)
        ])
      ]
    where
      above_top : (m i : ℕ) → leb m i ≡ true → m ≤ i + 1
      above_top m i h = ground arith

  -- Opening a slot leaves the world and the `revents` alone.
  open_slot-rest :
      (clifd : ℤ)
      → ((open_slot s clifd).world ≡ s.world) × ((open_slot s clifd).revents ≡ s.revents)
  unfolding open_slot
  open_slot-rest clifd = elim (Bool-cases (find_free max_fd_size 0 s.fds == max_fd_size)) [
    | inl full ↦ rw full (refl, refl)
    | inr found ↦ rw found (refl, refl)
  ]

module _ {World : Type 0} (sys : System World) where
  answer_fails :
      (re : ℤ) (buff : List ℕ) (s : Poller World) (i fdnum : ℕ)
      (rest : ℕ → Poller World → Outcome (Served (Poller World)))
      → re <ℤ pos 0
      → (s' : Poller World) × (answer sys re buff s i fdnum rest ≡ ok (exits 1 s'))
  unfolding answer
  answer_fails (negsuc n) buff s i fdnum rest h = (s, refl)
  answer_fails (pos n) buff s i fdnum rest h = absurd (omega arith)

  -- `read` fails on slot 0.
  first_read_fails :
      (left fdnum : ℕ) (s : Poller World)
      → 0 < left
      → (s.revents 0).pollrdnorm ≡ true
      → (sys.read s.world (s.fds 0) max_line).0 <ℤ pos 0
      → (s' : Poller World) × (answer_slots sys left 0 fdnum s ≡ ok (exits 1 s'))
  unfolding answer_slots answer
  first_read_fails zero fdnum s lt ready fails = absurd (omega arith)
  first_read_fails (suc left) fdnum s lt ready fails =
      let (re, buff, w) = sys.read s.world (s.fds 0) max_line in
      rw ready (
        answer_fails re buff (record s { world = w }) 0 fdnum (answer_slots sys left (0 + 1)) fails)

  answer_all-fails :
      (fdnum : ℕ) (s : Poller World)
      → 0 < s.maxi_next
      → (s.revents 0).pollrdnorm ≡ true
      → (sys.read s.world (s.fds 0) max_line).0 <ℤ pos 0
      → (s' : Poller World) × (answer_all sys fdnum s ≡ ok (exits 1 s'))
  unfolding answer_all and_then
  answer_all-fails fdnum s lt ready fails =
      let (s', e) = first_read_fails s.maxi_next fdnum s lt ready fails in (s', rw e refl)

  take_new-fails :
      (fdnum : ℕ) (svrfd : ℤ) (s : Poller World) {clifd : ℤ} {w1 : World}
      → pos 0 ≤ℤ s.fds 0
      → 0 < s.maxi_next
      → 2 ≤ fdnum
      → (s.revents 0).pollrdnorm ≡ true
      → sys.accept s.world svrfd ≡ (clifd, w1)
      → pos 0 ≤ℤ clifd
      → (sys.read w1 (s.fds 0) max_line).0 <ℤ pos 0
      → (s' : Poller World) × (take_new sys fdnum svrfd s ≡ ok (exits 1 s'))
  unfolding take_new
  take_new-fails fdnum svrfd s {clifd} {w1} listens some_slot two ready accepts accepted fails =
      rw accepts (rw not_failed (rw more (answer_all-fails (fdnum - 1) s2 top ready2 fails2)))
    where
      s2 : Poller World
      s2 = open_slot (record s { world = w1 }) clifd

      not_failed : ltb_ℤ clifd (pos 0) ≡ false
      not_failed = ground arith

      more : leb (fdnum - 1) 0 ≡ false
      more = ground arith

      top : 0 < s2.maxi_next
      top = omega (arith, open_slot-top (record s { world = w1 }) clifd)

      ready2 : (s2.revents 0).pollrdnorm ≡ true
      ready2 = rw (open_slot-rest (record s { world = w1 }) clifd).1 ready

      fails2 : (sys.read s2.world (s2.fds 0) max_line).0 <ℤ pos 0
      fails2 =
          rw (open_slot-rest (record s { world = w1 }) clifd).0
            (rw (open_slot-first (record s { world = w1 }) clifd listens) fails)

  -- If `poll` reports the listening socket in slot 0 and another descriptor, and a client is accepted, then
  -- the server goes on to read from the listening socket, and if `read` fails there, as it does on a socket
  -- that listens, the process exits with status 1.
  pub poll_round-listener :
      (svrfd : ℤ) (s : Poller World) {re : ℤ} {results : ℕ → Polled} {w w1 : World} {clifd : ℤ}
      → pos 0 ≤ℤ s.fds 0
      → 0 < s.maxi_next
      → sys.poll s.world (slots_from s.maxi_next 0 s.fds) ≡ (re, results, w)
      → pos 2 ≤ℤ re
      → (results 0).pollrdnorm ≡ true
      → sys.accept w svrfd ≡ (clifd, w1)
      → pos 0 ≤ℤ clifd
      → (sys.read w1 (s.fds 0) max_line).0 <ℤ pos 0
      → (s' : Poller World) × (poll_round sys svrfd s ≡ ok (exits 1 s'))
  unfolding poll_round take_new answer_all
  poll_round-listener svrfd s {re} {results} {w} {w1} {clifd} listens some_slot polls two ready
        accepts accepted fails =
      rw polls (
        rw not_failed (
          rw not_none (
            rw in_array (
              rw ready (
                take_new-fails (pos_part re) svrfd (polled sys s results w) listens some_slot
                  (omega arith) ready1 accepts accepted fails)))))
    where
      not_failed : ltb_ℤ re (pos 0) ≡ false
      not_failed = ground arith

      not_none : eq_ℤ re (pos 0) ≡ false
      not_none = ground arith

      in_array : ltb 0 s.maxi_next ≡ true
      in_array = ground arith

      ready1 : ((polled sys s results w).revents 0).pollrdnorm ≡ true
      ready1 = rw in_array ready
