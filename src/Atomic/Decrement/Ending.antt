-- ===== src/Atomic/Decrement/Ending.antt =====
-- Where the count by compare-and-swap ends.
use serversidedev.Prelude.{ℕ, ◌≡◌, refl, subst, arith, Bool-cases, inl, inr, update}
use serversidedev.Prelude.Int.{ℤ, pos, negsuc, ◌≤ℤ◌, ◌<ℤ◌, ◌+ℤ◌, ltb_ℤ, eq_ℤ, eq_of_parts}
use serversidedev.Prelude.Interleave.{Threads, Reaches, Reaches-keeps}
use serversidedev.Atomic.Decrement.{Pc, load, swap, returned, exec, start}

-- A thread swaps only what is positive, and returns only at 0.
abbrev Holds : ℤ → Pc → Type 0
Holds gnum load = Unit
Holds gnum (swap now_val) = pos 0 <ℤ now_val
Holds gnum returned = gnum ≡ pos 0

record Inv (g : ℤ) (s : Threads ℤ Pc) : Type 0 where
  low : pos 0 ≤ℤ s.mem
  high : s.mem ≤ℤ g
  holds : (i : ℕ) → Holds s.mem (s.pc i)

holds-update :
    (gnum : ℤ) (pc : ℕ → Pc) (i : ℕ) (p : Pc)
    → ((j : ℕ) → Holds gnum (pc j))
    → Holds gnum p
    → (j : ℕ) → Holds gnum (update pc i p j)
holds-update gnum pc i p h new j = ground (arith, h j, new)

-- Once a thread has returned, no swap succeeds.
Holds-swapped :
    (gnum now_val : ℤ) (p : Pc) → pos 0 <ℤ gnum → Holds gnum p → Holds (now_val +ℤ negsuc 0) p
Holds-swapped gnum now_val load h held = tt
Holds-swapped gnum now_val (swap v) h held = held
Holds-swapped gnum now_val returned h held = absurd (ground arith)

one_less : (v : ℤ) → pos 0 <ℤ v → (pos 0 ≤ℤ (v +ℤ negsuc 0)) × ((v +ℤ negsuc 0) ≤ℤ v)
unfolding ◌+ℤ◌
one_less v h = ground arith

turn-at :
    (g : ℤ) (s : Threads ℤ Pc) (i : ℕ)
    → Inv g s
    → (p : Pc) → s.pc i ≡ p
    → Inv g (record { mem = (exec s.mem p).0; pc = update s.pc i (exec s.mem p).1 })
unfolding exec
turn-at g s i inv load e = elim (Bool-cases (ltb_ℤ (pos 0) s.mem)) [
  | inl more ↦ rw more (record {
    low = inv.low;
    high = inv.high;
    holds = holds-update s.mem s.pc i (swap s.mem) inv.holds (ground arith);
  })
  | inr over ↦ rw over (record {
    low = inv.low;
    high = inv.high;
    holds =
        holds-update s.mem s.pc i returned inv.holds
          (eq_of_parts s.mem (pos 0) (ground (arith, inv.low)));
  })
]
turn-at g s i inv (swap v) e = elim (Bool-cases (eq_ℤ s.mem v)) [
  | inl same ↦ rw same (record {
    low = (one_less v (is_positive (inv.holds i))).0;
    high = ground (arith, inv.high, (one_less v (is_positive (inv.holds i))).1);
    holds =
        holds-update (v +ℤ negsuc 0) s.pc i load
          (λ j.
            Holds-swapped s.mem v (s.pc j) (ground (arith, is_positive (inv.holds i)))
              (inv.holds j))
          tt;
  })
  | inr other ↦ rw other (record {
    low = inv.low;
    high = inv.high;
    holds = holds-update s.mem s.pc i load inv.holds tt;
  })
]
  where
    is_positive : Holds s.mem (s.pc i) → pos 0 <ℤ v
    is_positive held = subst (Holds s.mem) e held
turn-at g s i inv returned e = record {
  low = inv.low;
  high = inv.high;
  holds = holds-update s.mem s.pc i returned inv.holds (subst (Holds s.mem) e (inv.holds i));
}

start-Inv : (g : ℤ) → pos 0 ≤ℤ g → Inv g (start g)
unfolding start
start-Inv g h = record { low = h; high = omega arith; holds = λ i. tt }

-- If `gnum` starts at 0 or above, then with any number of threads that count it down by compare-
-- and-swap, in any interleaving, it never passes 0 or its start, and as soon as one thread has
-- returned it is 0.
pub decrement_ends_at_zero :
    {n : ℕ} (g : ℤ) {s : Threads ℤ Pc}
    → pos 0 ≤ℤ g
    → Reaches exec n (start g) s
    → (pos 0 ≤ℤ s.mem) × (s.mem ≤ℤ g) × ((i : ℕ) → s.pc i ≡ returned → s.mem ≡ pos 0)
decrement_ends_at_zero {n} g {s} h r =
    let inv =
      Reaches-keeps exec n (Inv g) (λ s i _ inv. turn-at g s i inv (s.pc i) refl) (start-Inv g h)
        r in
    (inv.low, inv.high, λ i e. subst (Holds s.mem) e (inv.holds i))
