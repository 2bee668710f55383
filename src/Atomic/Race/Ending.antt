-- ===== src/Atomic/Race/Ending.antt =====
-- What the unprotected count keeps.
use serversidedev.Prelude.{
  ℕ, ◌≡◌, ◌<◌, refl, subst, ◌⊎◌, Bool, true, false, arith, Bool-cases, inl, inr, update,
}
use serversidedev.Prelude.Int.{ℤ, pos, negsuc, ◌≤ℤ◌, ◌<ℤ◌, ◌+ℤ◌, ltb_ℤ}
use serversidedev.Prelude.Interleave.{Threads, Reaches, Reaches-keeps}
use serversidedev.Atomic.Race.{Pc, test, load, store, returned, exec, start}

abbrev pub ended : Pc → Bool
ended returned = true
ended p = false

-- What a thread is about to write is no more than the start.
abbrev Held : ℤ → Pc → Type 0
Held g (store val) = val ≤ℤ g
Held g p = Unit

record Inv (n : ℕ) (g : ℤ) (s : Threads ℤ Pc) : Type 0 where
  high : s.mem ≤ℤ g
  held : (i : ℕ) → Held g (s.pc i)
  going : pos 0 <ℤ s.mem → (i : ℕ) × (i < n) × (ended (s.pc i) ≡ false)

Held-update :
    (g : ℤ) (pc : ℕ → Pc) (i : ℕ) (p : Pc)
    → ((j : ℕ) → Held g (pc j))
    → Held g p
    → (j : ℕ) → Held g (update pc i p j)
Held-update g pc i p h new j = ground (arith, h j, new)

going-here :
    (pc : ℕ → Pc) (n i : ℕ) (p : Pc)
    → i < n
    → ended p ≡ false
    → (k : ℕ) × (k < n) × (ended (update pc i p k) ≡ false)
going-here pc n i p lt e = (i, lt, ground arith)

below : (val : ℤ) → (val +ℤ negsuc 0) ≤ℤ val
unfolding ◌+ℤ◌
below val = ground arith

turn-at :
    (n : ℕ) (g : ℤ) (s : Threads ℤ Pc) (i : ℕ)
    → i < n
    → Inv n g s
    → (p : Pc) → s.pc i ≡ p
    → Inv n g (record { mem = (exec s.mem p).0; pc = update s.pc i (exec s.mem p).1 })
unfolding exec
turn-at n g s i lt inv test e = elim (Bool-cases (ltb_ℤ (pos 0) s.mem)) [
  | inl more ↦ rw more (record {
    high = inv.high;
    held = Held-update g s.pc i load inv.held tt;
    going = λ h. going-here s.pc n i load lt refl;
  })
  | inr over ↦ rw over (record {
    high = inv.high;
    held = Held-update g s.pc i returned inv.held tt;
    going = λ h. absurd (ground arith);
  })
]
turn-at n g s i lt inv load e = record {
  high = inv.high;
  held = Held-update g s.pc i (store s.mem) inv.held inv.high;
  going = λ h. going-here s.pc n i (store s.mem) lt refl;
}
turn-at n g s i lt inv (store val) e = record {
  high = omega (arith, below val, val_high (inv.held i));
  held = Held-update g s.pc i test inv.held tt;
  going = λ h. going-here s.pc n i test lt refl;
}
  where
    val_high : Held g (s.pc i) → val ≤ℤ g
    val_high held = subst (Held g) e held
turn-at n g s i lt inv returned e = record {
  high = inv.high;
  held = Held-update g s.pc i returned inv.held tt;
  going = λ h. still (inv.going h);
}
  where
    still :
        (k : ℕ) × (k < n) × (ended (s.pc k) ≡ false)
        → (k : ℕ) × (k < n) × (ended (update s.pc i returned k) ≡ false)
    still (k, below_n, goes) = (k, below_n, ground arith)

start-Inv : (n : ℕ) (g : ℤ) → 0 < n → Inv n g (start g)
unfolding start
start-Inv n g h = record { high = omega arith; held = λ i. tt; going = λ more. (0, h, refl) }

-- With at least one thread and any interleaving of the accesses of the unprotected `gnum`, when
-- all threads have returned `gnum` is at most 0 and at most its start.
pub race_ends_at_most_zero :
    {n : ℕ} (g : ℤ) {s : Threads ℤ Pc}
    → 0 < n
    → Reaches exec n (start g) s
    → ((i : ℕ) → i < n → ended (s.pc i) ≡ true)
    → (s.mem ≤ℤ g) × (s.mem ≤ℤ pos 0)
race_ends_at_most_zero {n} g {s} h r all =
    let inv =
      Reaches-keeps exec n (Inv n g) (λ s i lt inv. turn-at n g s i lt inv (s.pc i) refl)
        (start-Inv n g h) r in
    (inv.high, over s all (Bool-cases (ltb_ℤ (pos 0) s.mem)) inv.going)
  where
    over :
        (s : Threads ℤ Pc)
        → ((i : ℕ) → i < n → ended (s.pc i) ≡ true)
        → (ltb_ℤ (pos 0) s.mem ≡ true) ⊎ (ltb_ℤ (pos 0) s.mem ≡ false)
        → (pos 0 <ℤ s.mem → (i : ℕ) × (i < n) × (ended (s.pc i) ≡ false))
        → s.mem ≤ℤ pos 0
    over s all (inr no_more) going = ground arith
    over s all (inl more) going =
        let (k, lt, goes) = going (ground arith) in absurd (ground (arith, all k lt))
