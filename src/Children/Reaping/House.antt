-- ===== src/Children/Reaping/House.antt =====
-- A family in which each `sleep` ends one child.
use serversidedev.Prelude.{
  ℕ, zero, suc, ◌+◌, ◌≤◌, ◌<◌, ◌≡◌, refl, ap, true, false, ◌&&◌, ltb, leb, if◌then◌else◌, arith,
}
use serversidedev.Prelude.Int.{ℤ, pos, negsuc, eq_ℤ, ltb_ℤ, leb_ℤ}
use serversidedev.Children.Reaping.{Waited, Calls, Family, Laws}

-- How many have ended, and how many run.
abbrev pub House : Type 0
House = ℕ × ℕ

abbrev pub waits : House → Waited House
waits (suc e, r) = record { pid = pos (suc e + r); status = 0; is_echild = false; world = (e, r) }
waits (zero, suc r) = record { pid = pos 0; status = 0; is_echild = false; world = (0, suc r) }
waits (zero, zero) = record { pid = negsuc 0; status = 0; is_echild = true; world = (0, 0) }

abbrev pub one_ends : House → House
one_ends (e, suc r) = (suc e, r)
one_ends (e, zero) = (e, 0)

-- The pids are 1, 2, ..., and the last one ends first.
abbrev pub named_to : ℕ → ℤ → ℕ
named_to n (pos p) = if ltb 0 p && leb p n then 1 else 0
named_to n (negsuc p) = 0

abbrev pub house_calls : Calls House
house_calls = record { waitpid = waits; wait = λ w. waits (one_ends w); sleep = one_ends }

abbrev pub house : Family House
house = record {
  children = λ w. w.0 + w.1;
  zombies = λ w. w.0;
  running_time = λ w. w.1;
  named = λ w p. named_to (w.0 + w.1) p;
}

takes :
    (w : House)
    → ltb_ℤ (pos 0) (waits w).pid ≡ true
    → w.0 + w.1 ≡ suc ((waits w).world.0 + (waits w).world.1)
takes (suc e, r) h = omega arith
takes (zero, suc r) h = absurd (ground arith)
takes (zero, zero) h = absurd (ground arith)

succeeds : (w : House) → leb_ℤ (pos 0) (waits w).pid ≡ true → 0 < w.0 + w.1
succeeds (suc e, r) h = omega arith
succeeds (zero, suc r) h = omega arith
succeeds (zero, zero) h = absurd (ground arith)

none_ended :
    (w : House)
    → ltb_ℤ (pos 0) (waits w).pid ≡ false
    → ((waits w).world.0 + (waits w).world.1 ≡ w.0 + w.1) × ((waits w).world.0 ≡ 0)
none_ended (suc e, r) h = absurd (ground arith)
none_ended (zero, suc r) h = (refl, refl)
none_ended (zero, zero) h = (refl, refl)

fails :
    (w : House)
    → ltb_ℤ (waits w).pid (pos 0) ≡ true
    → ((waits w).is_echild ≡ true) × (w.0 + w.1 ≡ 0)
fails (suc e, r) h = absurd (ground arith)
fails (zero, suc r) h = absurd (ground arith)
fails (zero, zero) h = (refl, refl)

one_taken :
    (w : House)
    → (w.0 ≤ suc (waits (one_ends w)).world.0)
      × (w.0 + w.1 ≤ suc ((waits (one_ends w)).world.0 + (waits (one_ends w)).world.1))
one_taken (e, suc r) = (omega arith, omega arith)
one_taken (suc e, zero) = (omega arith, omega arith)
one_taken (zero, zero) = (omega arith, omega arith)

no_later : (w : House) → (waits w).world.1 ≤ w.1
no_later (suc e, r) = omega arith
no_later (zero, suc r) = omega arith
no_later (zero, zero) = omega arith

same_children : (w : House) → (one_ends w).0 + (one_ends w).1 ≡ w.0 + w.1
same_children (e, suc r) = omega arith
same_children (e, zero) = omega arith

sooner : (w : House) → 0 < w.0 + w.1 → w.0 ≡ 0 → (one_ends w).1 < w.1
sooner (e, suc r) h none_left = omega arith
sooner (e, zero) h none_left = absurd (omega arith)

named_taken :
    (w : House) (p : ℤ)
    → ltb_ℤ (pos 0) (waits w).pid ≡ true
    → named_to (w.0 + w.1) p
      ≡ (if eq_ℤ p (waits w).pid then 1 else 0) + named_to ((waits w).world.0 + (waits w).world.1) p
named_taken (suc e, r) (pos p) h = ground arith
named_taken (suc e, r) (negsuc p) h = ground arith
named_taken (zero, suc r) p h = absurd (ground arith)
named_taken (zero, zero) p h = absurd (ground arith)

named_kept :
    (w : House) (p : ℤ)
    → ltb_ℤ (pos 0) (waits w).pid ≡ false
    → named_to ((waits w).world.0 + (waits w).world.1) p ≡ named_to (w.0 + w.1) p
named_kept (suc e, r) p h = absurd (ground arith)
named_kept (zero, suc r) p h = refl
named_kept (zero, zero) p h = refl

none_to : (n : ℕ) (p : ℤ) → n ≡ 0 → named_to n p ≡ 0
none_to n (pos p) h = ground arith
none_to n (negsuc p) h = refl

pub house-Laws : Laws house_calls house
house-Laws = record {
  waitpid_takes = takes;
  waitpid_succeeds = succeeds;
  waitpid_none = none_ended;
  waitpid_fails = fails;
  wait_takes_one = one_taken;
  waitpid_time = no_later;
  sleep_children = same_children;
  waitpid_names = named_taken;
  waitpid_keeps = named_kept;
  sleep_names = λ w p. ap (λ n. named_to n p) (same_children w);
  none_named = λ w p h. none_to (w.0 + w.1) p h;
  sleep_time = sooner;
}
