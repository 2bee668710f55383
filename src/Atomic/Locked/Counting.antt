-- ===== src/Atomic/Locked/Counting.antt =====
-- Where the count under the mutex ends.
use serversidedev.Prelude.{ℕ, ◌^◌, ◌≡◌, refl, ◌⊎◌, inl, inr, arith, Bool-cases, update}
use serversidedev.Prelude.Int.{int_of, ℤ, pos, negsuc, ◌≤ℤ◌, ◌<ℤ◌, ◌+ℤ◌, eq_ℤ, eq_of_parts}
use serversidedev.Prelude.Interleave.{Threads, Reaches, Reaches-keeps}
use serversidedev.Atomic.Locked.{Pc, entry, loop, returned, count_down, exec, start}

-- Below 2 ^ 32 no positive value looks like 0 in an `int`.
int_of-eq-zero : (x : ℤ) → pos 0 ≤ℤ x → x <ℤ pos (2 ^ 32) → int_of x ≡ pos 0 → x ≡ pos 0
unfolding int_of
int_of-eq-zero (pos n) h lt e = ground arith
int_of-eq-zero (negsuc n) h lt e = absurd (omega arith)

-- A thread that has seen 0 has seen it in `gnum`.
abbrev Seen : ℤ → Pc → Type 0
Seen gnum entry = Unit
Seen gnum (loop x) = x ≡ pos 0 → gnum ≡ pos 0
Seen gnum returned = gnum ≡ pos 0

record Inv (g : ℤ) (s : Threads ℤ Pc) : Type 0 where
  low : pos 0 ≤ℤ s.mem
  high : s.mem ≤ℤ g
  seen : (i : ℕ) → Seen s.mem (s.pc i)

-- One pass of the loop's body.
count_down-bounds :
    (x : ℤ)
    → pos 0 ≤ℤ x
    → (pos 0 ≤ℤ count_down x)
      × (count_down x ≤ℤ x)
      × (x ≡ pos 0 → count_down x ≡ pos 0)
      × ((x ≡ pos 0) ⊎ (count_down x <ℤ x))
unfolding count_down ◌+ℤ◌
count_down-bounds (pos n) h = ground arith
count_down-bounds (negsuc n) h = absurd (omega arith)

-- What a thread has seen stays true when another thread counts down.
Seen-count_down : (m : ℤ) (p : Pc) → pos 0 ≤ℤ m → Seen m p → Seen (count_down m) p
Seen-count_down m entry h seen = tt
Seen-count_down m (loop x) h seen = λ z. (count_down-bounds m h).2 (seen z)
Seen-count_down m returned h seen = (count_down-bounds m h).2 seen

Seen-update :
    (m : ℤ) (pc : ℕ → Pc) (i : ℕ) (p : Pc)
    → ((j : ℕ) → Seen m (pc j))
    → Seen m p
    → (j : ℕ) → Seen m (update pc i p j)
Seen-update m pc i p h new j = ground (arith, h j, new)

-- A cached value that is 0 was 0 before it was cut to an `int`.
Seen-loop : (m : ℤ) → pos 0 ≤ℤ m → m <ℤ pos (2 ^ 32) → Seen m (loop (int_of m))
Seen-loop m h lt = int_of-eq-zero m h lt

turn-at :
    (g : ℤ) (s : Threads ℤ Pc) (i : ℕ)
    → g <ℤ pos (2 ^ 32)
    → Inv g s
    → (p : Pc) → s.pc i ≡ p
    → Inv g (record { mem = (exec s.mem p).0; pc = update s.pc i (exec s.mem p).1 })
unfolding exec
turn-at g s i lt inv entry e = record {
  low = inv.low;
  high = inv.high;
  seen =
      Seen-update s.mem s.pc i (loop (int_of s.mem)) inv.seen
        (Seen-loop s.mem inv.low (omega (arith, inv.high)));
}
turn-at g s i lt inv (loop x) e = elim (Bool-cases (eq_ℤ x (pos 0))) [
  | inl zero_seen ↦ rw zero_seen (record {
    low = inv.low;
    high = inv.high;
    seen =
        Seen-update s.mem s.pc i returned inv.seen
          (is_zero (inv.seen i) (eq_of_parts x (pos 0) (ground arith)));
  })
  | inr more ↦ rw more (record {
    low = (count_down-bounds s.mem inv.low).0;
    high = omega (arith, (count_down-bounds s.mem inv.low).1, inv.high);
    seen =
        Seen-update (count_down s.mem) s.pc i (loop (int_of (count_down s.mem)))
          (λ j. Seen-count_down s.mem (s.pc j) inv.low (inv.seen j))
          (Seen-loop (count_down s.mem) (count_down-bounds s.mem inv.low).0
            (omega (arith, (count_down-bounds s.mem inv.low).1, inv.high)));
  })
]
  where
    is_zero : Seen s.mem (s.pc i) → x ≡ pos 0 → s.mem ≡ pos 0
    is_zero seen z = ground (arith, seen)
turn-at g s i lt inv returned e = record {
  low = inv.low;
  high = inv.high;
  seen = Seen-update s.mem s.pc i returned inv.seen (ground (arith, inv.seen i));
}

start-Inv : (g : ℤ) → pos 0 ≤ℤ g → Inv g (start g)
unfolding start
start-Inv g h = record { low = h; high = omega arith; seen = λ i. tt }

-- If the count starts between 0 and 2 ^ 32 - 1 it never passes 0 or its start, and as soon as one
-- thread has returned, it is 0 and so is over.
pub locked_ends_at_zero :
    {n : ℕ} (g : ℤ) {s : Threads ℤ Pc}
    → pos 0 ≤ℤ g
    → g <ℤ pos (2 ^ 32)
    → Reaches exec n (start g) s
    → (pos 0 ≤ℤ s.mem) × (s.mem ≤ℤ g) × ((i : ℕ) → s.pc i ≡ returned → s.mem ≡ pos 0)
locked_ends_at_zero {n} g {s} h lt r =
    let inv =
      Reaches-keeps exec n (Inv g) (λ s i _ inv. turn-at g s i lt inv (s.pc i) refl) (start-Inv g h)
        r in
    (inv.low, inv.high, λ i e. ground (arith, inv.seen i))
