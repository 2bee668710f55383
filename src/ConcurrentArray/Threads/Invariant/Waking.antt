-- ===== src/ConcurrentArray/Threads/Invariant/Waking.antt =====
-- A thread that wakes, by a signal or by itself, keeps the invariant.
use mathlib.Core.Path.{fun_ext}
use serversidedev.Prelude.{ℕ, ◌+◌, ◌≤◌, ◌<◌, ◌≡◌, refl, List, arith, update, total}
use serversidedev.ConcurrentArray.Threads.{
  Shared, Pc, p_sleep, c_sleep, Signal, quiet, produced, consumed, woken, sleeps, Wake, one, nobody,
}
use serversidedev.ConcurrentArray.Threads.Invariant.Defs.{
  Inv, Shift, Shift-update, p_sleeping, c_sleeping, carries, is_consumer, IsFine, appending,
  getting, printing, for_producer, for_consumer,
}

-- A sleeper that wakes changes no count but that of its own queue.
wake-shift :
    (p : Pc)
    → (appending (woken p) + p_sleeping (woken p) ≡ appending p + p_sleeping p)
      × (getting (woken p) + c_sleeping (woken p) ≡ getting p + c_sleeping p)
      × (printing (woken p) ≡ printing p)
      × (p_sleeping (woken p) ≡ 0)
      × (c_sleeping (woken p) ≡ 0)
      × (is_consumer (woken p) ≡ is_consumer p)
wake-shift p = ground arith

carries-woken : (v : ℕ) (p : Pc) → carries v (woken p) ≡ carries v p
carries-woken v p = ground arith

IsFine-woken : (m : Shared) (p : Pc) → IsFine m p → IsFine m (woken p)
IsFine-woken m (p_sleep t) f = tt
IsFine-woken m c_sleep f = tt
IsFine-woken m p f = f

module _ {n k goal : ℕ} {sig : Signal} {m : Shared} {pc : ℕ → Pc} {q : List ℕ}
    (inv : Inv n k goal sig m pc q) where
  open inv use {made, claimed, each, p_room, c_room, fine, roles}

  -- With a signal on its way, the thread that wakes takes its place.
  woken-Inv :
      (i : ℕ) {rest : Signal}
      → i < n
      → for_producer sig ≤ for_producer rest + p_sleeping (pc i)
      → for_consumer sig ≤ for_consumer rest + c_sleeping (pc i)
      → Inv n k goal rest m (update pc i (woken (pc i))) q
  woken-Inv i {rest} lt a b = record {
    holds = inv.holds;
    aim = inv.aim;
    p_le = inv.p_le;
    c_le = inv.c_le;
    made =
        omega
          (arith, wake-shift (pc i), shift.at_appending, shift.at_p_sleeping, shift.at_printing);
    claimed =
        omega (arith, wake-shift (pc i), shift.at_getting, shift.at_c_sleeping, shift.at_printing);
    each = λ v. omega (arith, each v, carries-woken v (pc i), shift.at_carries v);
    p_room =
        λ h. ground (arith, p_room, wake-shift (pc i), shift.at_appending, shift.at_p_sleeping);
    c_room = λ h. ground (arith, c_room, wake-shift (pc i), shift.at_getting, shift.at_c_sleeping);
    fine = λ j. ground (arith, fine j, fine i, IsFine-woken m (pc i) (fine i));
    roles = λ j. ground (arith, roles j, roles i, wake-shift (pc i));
  }
    where
      shift : Shift n pc (update pc i (woken (pc i))) (pc i) (woken (pc i))
      shift = Shift-update n pc i (pc i) (woken (pc i)) lt refl

  -- A signal that finds no sleeper is lost, and nobody misses it.
  lost-Inv :
      (0 < for_producer sig → total p_sleeping n pc ≡ 0)
      → (0 < for_consumer sig → total c_sleeping n pc ≡ 0)
      → Inv n k goal quiet m pc q
  lost-Inv no_p no_c = record {
    holds = inv.holds;
    aim = inv.aim;
    p_le = inv.p_le;
    c_le = inv.c_le;
    made = made;
    claimed = claimed;
    each = each;
    p_room = λ h. ground (arith, p_room, no_p);
    c_room = λ h. ground (arith, c_room, no_c);
    fine = fine;
    roles = roles;
  }

sleeps-consumed : sleeps consumed ≡ p_sleeping
sleeps-consumed = fun_ext λ p. ground arith

sleeps-produced : sleeps produced ≡ c_sleeping
sleeps-produced = fun_ext λ p. ground arith

nobody-Inv :
    (sig : Signal) {n k goal : ℕ} {m : Shared} {pc : ℕ → Pc} {q : List ℕ}
    → Inv n k goal sig m pc q
    → total (sleeps sig) n pc ≡ 0
    → Inv n k goal quiet m pc q
nobody-Inv quiet inv e = inv
nobody-Inv produced inv e = lost-Inv inv (λ h. absurd (omega arith)) (λ h. rw sleeps-produced at e)
nobody-Inv consumed inv e = lost-Inv inv (λ h. rw sleeps-consumed at e) (λ h. absurd (omega arith))

pub Wake-Inv :
    {n k goal : ℕ} {sig : Signal} {m : Shared} {pc pc' : ℕ → Pc} {q : List ℕ}
    → Inv n k goal sig m pc q
    → Wake n sig pc pc'
    → Inv n k goal quiet m pc' q
Wake-Inv {sig = sig} {pc = pc} inv (one j lt e) = woken-Inv inv j lt (ground arith) (ground arith)
Wake-Inv {sig = sig} inv (nobody e) = nobody-Inv sig inv e

pub spurious-Inv :
    {n k goal : ℕ} {m : Shared} {pc : ℕ → Pc} {q : List ℕ}
    → Inv n k goal quiet m pc q
    → (i : ℕ) → i < n
    → Inv n k goal quiet m (update pc i (woken (pc i))) q
spurious-Inv inv i lt = woken-Inv inv i lt (omega arith) (omega arith)
