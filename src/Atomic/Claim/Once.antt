-- ===== src/Atomic/Claim/Once.antt =====
-- Each value of `gnum` is worked on once.
use serversidedev.Prelude.{
  ℕ, ◌+◌, ◌<◌, ◌≡◌, refl, ap, ◌⊎◌, inl, inr, Bool, true, false, ◌&&◌, [], ◌∷◌, ◌++◌, arith,
  Bool-cases, ind, update, total, total-update, total-eq-zero,
}
use serversidedev.Prelude.Int.{
  ℤ, pos, negsuc, ◌≤ℤ◌, ◌<ℤ◌, ◌+ℤ◌, +ℤ_parts, ltb_ℤ, leb_ℤ, eq_ℤ, count_ℤ, count_ℤ-append,
  eq_of_parts,
}
use serversidedev.Prelude.Interleave.{Threads, Reaches, Reaches-keeps}
use serversidedev.Atomic.Claim.{
  Mem, Pc, load, swap, work, returned, work_thread_check_func, step, exec, start,
}

-- Has the thread taken the value and not yet worked on it?
abbrev pub holds : ℤ → Pc → ℕ
holds v (work x) = ind (eq_ℤ x v)
holds v p = 0

-- A value about to be swapped passed the check; a value returned did not.
abbrev IsFine : ℤ → Pc → Type 0
IsFine g (swap x) = pos 0 <ℤ x
IsFine g (returned x) = (x ≤ℤ pos 0) × (g ≤ℤ pos 0)
IsFine g p = Unit

-- Counting from `g`, the values above `gnum` have been taken, each by one thread.
record Inv (n : ℕ) (g : ℤ) (s : Threads Mem Pc) : Type 0 where
  low : s.mem.gnum ≤ℤ g
  floor : (s.mem.gnum ≡ g) ⊎ (pos 0 ≤ℤ s.mem.gnum)
  taken :
      (v : ℤ)
      → count_ℤ v s.mem.worked + total (holds v) n s.pc ≡ ind (ltb_ℤ s.mem.gnum v && leb_ℤ v g)
  fine : (i : ℕ) → IsFine s.mem.gnum (s.pc i)

module _ (n : ℕ) (g : ℤ) (s : Threads Mem Pc) (inv : Inv n g s) (i : ℕ) (lt : i < n) where
  open inv use {low, floor, taken, fine}

  -- Thread `i` goes from `p` to `p'` and leaves `gnum` and the work list alone.
  moved :
      (p p' : Pc)
      → s.pc i ≡ p
      → IsFine s.mem.gnum p'
      → ((v : ℤ) → holds v p' ≡ holds v p)
      → Inv n g (record { mem = s.mem; pc = update s.pc i p' })
  moved p p' e f same = record {
    low = low;
    floor = floor;
    taken =
        λ v. omega (arith, taken v, same v, ap (holds v) e, total-update (holds v) n s.pc i p' lt);
    fine = λ j. ground (arith, fine j, f);
  }

  -- A won compare-and-swap takes the value `x`.
  claimed :
      (x : ℤ)
      → s.pc i ≡ swap x
      → s.mem.gnum ≡ x
      → Inv n g
          (record { mem = record s.mem { gnum = x +ℤ negsuc 0 }; pc = update s.pc i (work x) })
  claimed x e won = record {
    low = ground (arith, +ℤ_parts x (negsuc 0), fine i, low);
    floor = inr (ground (arith, +ℤ_parts x (negsuc 0), fine i));
    taken = λ v. ground (
      arith,
      taken v,
      low,
      fine i,
      ap (holds v) e,
      +ℤ_parts x (negsuc 0),
      total-update (holds v) n s.pc i (work x) lt,
    );
    fine = λ j. ground (arith, fine j, fine i, +ℤ_parts x (negsuc 0));
  }

  -- The value is handed to `work_func`.
  done :
      (x : ℤ)
      → s.pc i ≡ work x
      → Inv n g (record {
        mem = record s.mem { worked = s.mem.worked ++ (x ∷ []) };
        pc = update s.pc i load;
      })
  done x e = record {
    low = low;
    floor = floor;
    taken = λ v. omega (
      arith,
      taken v,
      ap (holds v) e,
      count_ℤ-append v s.mem.worked (x ∷ []),
      total-update (holds v) n s.pc i load lt,
    );
    fine = λ j. ground (arith, fine j);
  }

  turn-at :
      (p : Pc)
      → s.pc i ≡ p
      → Inv n g (record { mem = (exec s.mem p).0; pc = update s.pc i (exec s.mem p).1 })
  unfolding exec step
  turn-at load e = elim (Bool-cases (work_thread_check_func s.mem.gnum)) [
    | inl more ↦ rw more (moved load (swap s.mem.gnum) e (ground arith) (λ v. refl))
    | inr none_left ↦ rw none_left (moved load (returned s.mem.gnum) e (ground arith) (λ v. refl))
  ]
  turn-at (swap x) e = elim (Bool-cases (eq_ℤ s.mem.gnum x)) [
    | inl won ↦ rw won (claimed x e (eq_of_parts s.mem.gnum x (ground arith)))
    | inr lost ↦ rw lost (moved (swap x) load e tt (λ v. refl))
  ]
  turn-at (work x) e = done x e
  turn-at (returned x) e =
      rw (left_over e) (moved (returned x) (returned x) e (ground (arith, fine i)) (λ v. refl))
    where
      left_over : s.pc i ≡ returned x → work_thread_check_func x ≡ false
      left_over e = ground (arith, fine i)

start-Inv : (n : ℕ) (g : ℤ) → Inv n g (start g)
unfolding start
start-Inv n g = record {
  low = omega arith;
  floor = inl refl;
  taken = λ v. ground (arith, total-eq-zero (holds v) n (λ _. load) (λ i lt. refl));
  fine = λ i. tt;
}

reach-Inv : {n : ℕ} {g : ℤ} {s : Threads Mem Pc} → Reaches exec n (start g) s → Inv n g s
reach-Inv {n} {g} =
    Reaches-keeps exec n (Inv n g) (λ s i lt inv. turn-at n g s inv i lt (s.pc i) refl)
      (start-Inv n g)

-- With any number of threads and any interleaving: `gnum` stays where it was if it was negative, and
-- is never negative otherwise; each value above it, up to the one that it had at the start, has been
-- taken once: it was worked on, or one thread has it in hand; no other value has been worked on.
pub claimed_once :
    {n : ℕ} (g : ℤ) {s : Threads Mem Pc}
    → Reaches exec n (start g) s
    → ((s.mem.gnum ≡ g) ⊎ (pos 0 ≤ℤ s.mem.gnum))
      × ((v : ℤ)
          → count_ℤ v s.mem.worked + total (holds v) n s.pc ≡ ind (ltb_ℤ s.mem.gnum v && leb_ℤ v g))
claimed_once g r = let inv = reach-Inv r in (inv.floor, inv.taken)

abbrev pub ended : Pc → Bool
ended (returned v) = true
ended p = false

-- When all threads have returned, and there was one, `work_func` was called once for each value from
-- that of the start down to 1, and `gnum` is 0 if it was not negative.
pub all_worked :
    {n : ℕ} (g : ℤ) {s : Threads Mem Pc}
    → 0 < n
    → Reaches exec n (start g) s
    → ((i : ℕ) → i < n → ended (s.pc i) ≡ true)
    → ((v : ℤ) → count_ℤ v s.mem.worked ≡ ind (ltb_ℤ (pos 0) v && leb_ℤ v g))
      × (pos 0 ≤ℤ g → s.mem.gnum ≡ pos 0)
all_worked {n} g {s} pos_n r all_ended = (
  λ v. ground (arith, inv.taken v, inv.floor, quiet v, at_most_zero),
  λ h. eq_of_parts s.mem.gnum (pos 0) (ground (arith, inv.floor, at_most_zero)),
)
  where
    inv : Inv n g s
    inv = reach-Inv r

    quiet : (v : ℤ) → total (holds v) n s.pc ≡ 0
    quiet v = total-eq-zero (holds v) n s.pc (λ i lt. ground (arith, all_ended i lt))

    at_most_zero : s.mem.gnum ≤ℤ pos 0
    at_most_zero = ground (arith, all_ended 0 pos_n, inv.fine 0)
