-- ===== src/Io/Poll/Slots.antt =====
-- The array of the poll server through its rounds.
use serversidedev.Prelude.{
  ℕ, zero, suc, ◌+◌, ◌-◌, ◌≤◌, ◌≡◌, refl, ◌⊎◌, inl, inr, true, false, Bool-cases, arith, ◌||◌, leb,
  ◌==◌, List,
}
use serversidedev.Prelude.Int.{ℤ, pos, negsuc, pos_part, ◌≤ℤ◌, eq_ℤ, ltb_ℤ}
use serversidedev.Prelude.Outcome.{Outcome, ok, ◌>>=◌}
use serversidedev.Io.{System, Polled}
use serversidedev.Io.Echo.{max_line}
use serversidedev.Prelude.Served.{Served, goes_on, and_then, Comes, Comes-then}
use serversidedev.Io.Select.{max_fd_size, find_free}
use serversidedev.Io.Select.Table.{
  is_free, find_free_bounded, trim_bounded, trim-free, trim-used, free-add, table-add, used-add,
}
use serversidedev.Io.Poll.{
  Poller, slots_from, open_slot, close_slot, lower_top, answer, answer_slots, answer_all, take_new,
  polled, poll_round, poll_rounds, poll_start,
}

-- The slots from `maxi+1` on are free.
pub record Placed {World : Type 0} (s : Poller World) : Type 0 where
  pub free_above : (i : ℕ) → s.maxi_next ≤ i → is_free (s.fds i) ≡ true
  pub in_table : s.maxi_next ≤ max_fd_size

-- And `maxi` is the last slot in use, or -1.
abbrev pub Compact : {World : Type 0} → Poller World → Type 0
Compact s = Placed s × ((s.maxi_next ≡ 0) ⊎ (is_free (s.fds (s.maxi_next - 1)) ≡ false))

-- A round comes to its end with this, or the process exits with status 1.
abbrev pub EndsWell :
    {World : Type 0} → (Poller World → Type 0) → Outcome (Served (Poller World)) → Type 0
EndsWell Holds out = Comes Holds (λ exitstatus s. exitstatus ≡ 1) out

pub EndsWell-then :
    {World : Type 0} (First Last : Poller World → Type 0) (out : Outcome (Served (Poller World)))
    (next : Poller World → Outcome (Served (Poller World)))
    → EndsWell First out
    → ((s : Poller World) → First s → EndsWell Last (next s))
    → EndsWell Last (out >>= (λ served. and_then served next))
EndsWell-then First Last out next h k =
    Comes-then First Last (λ exitstatus s. exitstatus ≡ 1) out next h k

module _ {World : Type 0} (s : Poller World) where
  -- `revents` and the world are no part of it.
  Placed-with :
      (revents : ℕ → Polled) (w : World)
      → Placed s
      → Placed (record s { revents = revents; world = w })
  Placed-with revents w p = record { free_above = p.free_above; in_table = p.in_table }

  close_slot-Placed : (i : ℕ) → Placed s → Placed (close_slot s i)
  unfolding close_slot
  close_slot-Placed i p = record {
    free_above = λ j h. ground (arith, p.free_above j);
    in_table = p.in_table;
  }

  lower_top-Compact : Placed s → Compact (lower_top s)
  unfolding lower_top
  lower_top-Compact p = (
    record {
      free_above = λ i h. ground (arith, p.free_above i, trim-free s.maxi_next s.fds i);
      in_table = omega (arith, p.in_table, trim_bounded s.maxi_next s.fds);
    },
    trim-used s.maxi_next s.fds,
  )

  open_slot-Compact : (clifd : ℤ) → pos 0 ≤ℤ clifd → Compact s → Compact (open_slot s clifd)
  unfolding open_slot
  open_slot-Compact clifd pos_fd (p, used) =
      let i = find_free max_fd_size 0 s.fds in
      elim (Bool-cases (i == max_fd_size)) [
        | inl full ↦ rw full (p, used)
        | inr found ↦ rw found (
          record {
            free_above = λ j h. free-add s.fds s.maxi_next i j clifd (p.free_above j) h;
            in_table =
                table-add s.maxi_next i max_fd_size p.in_table
                  (find_free_bounded max_fd_size 0 s.fds) found;
          },
          used-add s.fds s.maxi_next i clifd pos_fd used,
        )
      ]

poll_start-Compact :
    {World : Type 0} (svrfd : ℤ) (unset : ℕ → Polled) (w : World)
    → pos 0 ≤ℤ svrfd
    → Compact (poll_start svrfd unset w)
unfolding poll_start
poll_start-Compact svrfd unset w pos_fd =
    (record { free_above = λ i h. ground arith; in_table = omega arith }, inr (ground arith))

module _ {World : Type 0} (sys : System World) where
  answer-Placed :
      (re : ℤ) (buff : List ℕ) (s : Poller World) (i fdnum : ℕ)
      (rest : ℕ → Poller World → Outcome (Served (Poller World)))
      → Placed s
      → ((fdnum : ℕ) (s : Poller World) → Placed s → EndsWell Placed (rest fdnum s))
      → EndsWell Placed (answer sys re buff s i fdnum rest)
  unfolding answer
  answer-Placed (negsuc n) buff s i fdnum rest p h = refl
  answer-Placed (pos zero) buff s i fdnum rest p h =
      let (re, w) = sys.close s.world (s.fds i) in
      h fdnum (close_slot (record s { world = w }) i)
        (close_slot-Placed (record s { world = w }) i (Placed-with s s.revents w p))
  answer-Placed (pos (suc n)) buff s i fdnum rest p h =
      let (re, w) = sys.write s.world (s.fds i) buff in
      elim (Bool-cases (ltb_ℤ re (pos 0))) [
        | inl failed ↦ rw failed refl
        | inr written ↦ rw written (elim (Bool-cases (leb (fdnum - 1) 0)) [
          | inl all_done ↦ rw all_done (Placed-with s s.revents w p)
          | inr more ↦
              rw more (h (fdnum - 1) (record s { world = w }) (Placed-with s s.revents w p))
        ])
      ]

  answer_slots-Placed :
      (left i fdnum : ℕ) (s : Poller World)
      → Placed s
      → EndsWell Placed (answer_slots sys left i fdnum s)
  unfolding answer_slots
  answer_slots-Placed zero i fdnum s p = p
  answer_slots-Placed (suc left) i fdnum s p =
      let (re, buff, w) = sys.read s.world (s.fds i) max_line in
      elim (Bool-cases ((s.revents i).pollrdnorm || (s.revents i).pollerr)) [
        | inl ready ↦ rw ready (
            answer-Placed re buff (record s { world = w }) i fdnum (answer_slots sys left (i + 1))
              (Placed-with s s.revents w p) (answer_slots-Placed left (i + 1)))
        | inr not_ready ↦ rw not_ready (answer_slots-Placed left (i + 1) fdnum s p)
      ]

  answer_all-Compact :
      (fdnum : ℕ) (s : Poller World) → Placed s → EndsWell Compact (answer_all sys fdnum s)
  unfolding answer_all
  answer_all-Compact fdnum s p =
      EndsWell-then Placed Compact (answer_slots sys s.maxi_next 0 fdnum s)
        (λ s1. ok (goes_on (lower_top s1))) (answer_slots-Placed s.maxi_next 0 fdnum s p)
        lower_top-Compact

  take_new-Compact :
      (fdnum : ℕ) (svrfd : ℤ) (s : Poller World)
      → Compact s
      → EndsWell Compact (take_new sys fdnum svrfd s)
  unfolding take_new
  take_new-Compact fdnum svrfd s (p, used) =
      let (clifd, w) = sys.accept s.world svrfd in
      elim (Bool-cases (ltb_ℤ clifd (pos 0))) [
        | inl failed ↦ rw failed refl
        | inr accepted ↦ rw accepted (
            let compact =
              open_slot-Compact (record s { world = w }) clifd (ground arith)
                (Placed-with s s.revents w p, used) in
            elim (Bool-cases (leb (fdnum - 1) 0)) [
              | inl only ↦ rw only compact
              | inr more ↦ rw more (
                  answer_all-Compact (fdnum - 1) (open_slot (record s { world = w }) clifd)
                    compact.0)
            ])
      ]

  poll_round-Compact :
      (svrfd : ℤ) (s : Poller World) → Compact s → EndsWell Compact (poll_round sys svrfd s)
  unfolding poll_round
  poll_round-Compact svrfd s (p, used) =
      let (re, results, w) = sys.poll s.world (slots_from s.maxi_next 0 s.fds) in
      let s1 = polled sys s results w in
      let p1 = Placed-with s s1.revents w p in
      elim (Bool-cases (ltb_ℤ re (pos 0))) [
        | inl failed ↦ rw failed refl
        | inr good ↦ rw good (elim (Bool-cases (eq_ℤ re (pos 0))) [
          | inl none_ready ↦ rw none_ready (p1, used)
          | inr some_ready ↦ rw some_ready (elim (Bool-cases (s1.revents 0).pollrdnorm) [
            | inl new ↦ rw new (take_new-Compact (pos_part re) svrfd s1 (p1, used))
            | inr old ↦ rw old (answer_all-Compact (pos_part re) s1 p1)
          ])
        ])
      ]

  -- From the start of the loop of the poll server, with a descriptor to listen on, and through any number
  -- of rounds, whatever the system calls return: each round comes to its end; the process exits with
  -- status 1 only; and while it goes on, all slots of the array from `maxi+1` on are free, and `maxi` is
  -- the last slot in use or -1.
  pub poll_rounds-Compact :
      (rounds : ℕ) (svrfd : ℤ) (unset : ℕ → Polled) (w : World)
      → pos 0 ≤ℤ svrfd
      → EndsWell Compact (poll_rounds sys rounds svrfd (poll_start svrfd unset w))
  unfolding poll_rounds
  poll_rounds-Compact rounds svrfd unset w pos_fd =
      go rounds (poll_start svrfd unset w) (poll_start-Compact svrfd unset w pos_fd)
    where
      go :
          (rounds : ℕ) (s : Poller World)
          → Compact s
          → EndsWell Compact (poll_rounds sys rounds svrfd s)
      go zero s h = h
      go (suc rounds) s h =
          EndsWell-then Compact Compact (poll_round sys svrfd s) (poll_rounds sys rounds svrfd)
            (poll_round-Compact svrfd s h) (go rounds)
