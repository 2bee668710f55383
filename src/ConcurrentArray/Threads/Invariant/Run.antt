-- ===== src/ConcurrentArray/Threads/Invariant/Run.antt =====
-- A step of one thread keeps the invariant, with the signal of the step still to be delivered.
use serversidedev.Prelude.{
  ℕ, ◌<◌, ◌≡◌, refl, ◌∙◌, inl, inr, true, none, some, List, [], ◌∷◌, ◌++◌, arith, Bool-cases, ◌==◌,
  if◌then◌else◌, length, length-append, count-append, update,
}
use serversidedev.ConcurrentArray.{store, clear}
use serversidedev.ConcurrentArray.Queue.{append_refines, get_refines, clear-Holds}
use serversidedev.ConcurrentArray.Threads.{
  Shared, Pc, p_test, p_swap, p_append, c_test, c_swap, c_get, c_print, Signal, quiet, produced,
  consumed, exec, runnable,
}
use serversidedev.ConcurrentArray.Threads.Invariant.Defs.{Inv, IsFine, Balance, Shift, Shift-update}

module _ {n k goal : ℕ} {m : Shared} {pc : ℕ → Pc} {q : List ℕ}
    (inv : Inv n k goal quiet m pc q) where
  open inv use {holds, p_le, c_le, made, claimed, each, p_room, c_room, fine, roles}

  move-Inv :
      (i : ℕ) (p : Pc) {m' : Shared} {q' : List ℕ} {p' : Pc} {sig : Signal}
      → i < n
      → pc i ≡ p
      → Balance m q p m' q' p' sig
      → Inv n k goal sig m' (update pc i p') q'
  move-Inv i p {p' = p'} lt e b = record {
    holds = b.holds;
    aim = b.aim_kept ∙ inv.aim;
    p_le = b.p_le;
    c_le = b.c_le;
    made = omega (arith, b.made, shift.at_appending, shift.at_p_sleeping, shift.at_printing);
    claimed = omega (arith, b.claimed, shift.at_getting, shift.at_c_sleeping, shift.at_printing);
    each = λ v. omega (arith, each v, b.each v, shift.at_carries v);
    p_room = λ h. ground (arith, p_room, b.p_room, b.size_kept, shift);
    c_room = λ h. ground (arith, c_room, b.c_room, shift);
    fine = λ j. ground (arith, b.others (pc j), fine j, b.fine);
    roles = λ j. ground (arith, roles j, roles i, b.role);
  }
    where
      shift : Shift n pc (update pc i p') p p'
      shift = Shift-update n pc i p p' lt e

-- What the ring holds after a step from `p`.
pub queue_after : ℕ → List ℕ → Pc → List ℕ
queue_after size q (p_append t) = if length q == size then q else q ++ (t ∷ [])
queue_after size [] c_get = []
queue_after size (x ∷ q) c_get = q
queue_after size q p = q

-- The oldest product leaves the ring.
take-Balance :
    {n k goal : ℕ} {m : Shared} {pc : ℕ → Pc} (x : ℕ) (q : List ℕ)
    → Inv n k goal quiet m pc (x ∷ q)
    → Balance m (x ∷ q) c_get (record m { ca = clear m.ca }) q (c_print (some x)) consumed
unfolding clear
take-Balance x q inv = record {
  holds = clear-Holds inv.holds;
  aim_kept = refl;
  size_kept = refl;
  p_le = inv.p_le;
  c_le = inv.c_le;
  made = omega arith;
  claimed = omega arith;
  each = λ v. omega arith;
  p_room = inl (omega arith, omega arith);
  c_room = inl (omega arith, omega arith);
  fine = tt;
  others = λ r g. ground arith;
  role = refl;
}

get-Balance :
    {n k goal : ℕ} {m : Shared} {pc : ℕ → Pc} (q : List ℕ)
    → Inv n k goal quiet m pc q
    → Balance m q c_get
        (exec m c_get).mem
        (queue_after m.ca.size q c_get)
        (exec m c_get).pc
        (exec m c_get).signal
unfolding exec queue_after
get-Balance [] inv = rw (get_refines [] inv.holds) (ground (arith, inv.holds))
get-Balance (x ∷ q) inv = rw (get_refines (x ∷ q) inv.holds) (take-Balance x q inv)

module _ {n k goal : ℕ} {m : Shared} {pc : ℕ → Pc} {q : List ℕ}
    (inv : Inv n k goal quiet m pc q) where
  open inv use {holds}

  -- `*t` is printed.
  print-Balance :
      (t : ℕ)
      → Balance m q (c_print (some t)) (record m { printed = m.printed ++ (t ∷ []) }) q c_test quiet
  print-Balance t = record {
    holds = holds;
    aim_kept = refl;
    size_kept = refl;
    p_le = inv.p_le;
    c_le = inv.c_le;
    made = omega (arith, length-append m.printed (t ∷ []));
    claimed = omega (arith, length-append m.printed (t ∷ []));
    each = λ v. omega (arith, count-append v m.printed (t ∷ []));
    p_room = inl (omega arith, omega arith);
    c_room = inl (omega arith, omega arith);
    fine = tt;
    others = λ r g. ground arith;
    role = refl;
  }

  -- The product goes into the ring.
  store-Balance :
      (t : ℕ)
      → length q < m.ca.size
      → Balance m q (p_append t) (record m { ca = store m.ca t }) (q ++ (t ∷ [])) p_test produced
  unfolding store
  store-Balance t room = record {
    holds = (append_refines holds t).1 room;
    aim_kept = refl;
    size_kept = refl;
    p_le = inv.p_le;
    c_le = inv.c_le;
    made = omega (arith, length-append q (t ∷ []));
    claimed = omega arith;
    each = λ v. omega (arith, count-append v q (t ∷ []));
    p_room = inl (omega arith, omega (arith, length-append q (t ∷ [])));
    c_room = inl (omega arith, omega (arith, length-append q (t ∷ [])));
    fine = tt;
    others = λ r g. ground arith;
    role = refl;
  }

  append-Balance :
      (t : ℕ)
      → Balance m q
          (p_append t)
          (exec m (p_append t)).mem
          (queue_after m.ca.size q (p_append t))
          (exec m (p_append t)).pc
          (exec m (p_append t)).signal
  unfolding exec queue_after
  append-Balance t = rw (append_refines holds t).0 (elim (Bool-cases (length q == m.ca.size)) [
    | inl full ↦ rw full (ground (arith, holds))
    | inr room ↦ rw room (store-Balance t (ground (arith, holds.fits)))
  ])

  exec-Balance :
      (p : Pc)
      → IsFine m p
      → runnable p ≡ true
      → Balance m q p (exec m p).mem (queue_after m.ca.size q p) (exec m p).pc (exec m p).signal
  unfolding exec queue_after
  exec-Balance p_test f r = ground (arith, holds)
  exec-Balance (p_swap c) f r = ground (arith, holds)
  exec-Balance (p_append t) f r = append-Balance t
  exec-Balance c_test f r = ground (arith, holds)
  exec-Balance (c_swap c) f r = ground (arith, holds)
  exec-Balance c_get f r = get-Balance q inv
  exec-Balance (c_print none) f r = absurd f
  exec-Balance (c_print (some t)) f r = print-Balance t
  exec-Balance p f r = cc

-- A step of thread `i`: its signal is on its way.
pub Run-Inv :
    {n k goal : ℕ} {m : Shared} {pc : ℕ → Pc} {q : List ℕ} (i : ℕ)
    → Inv n k goal quiet m pc q
    → i < n
    → runnable (pc i) ≡ true
    → Inv n k goal
        (exec m (pc i)).signal
        (exec m (pc i)).mem
        (update pc i (exec m (pc i)).pc)
        (queue_after m.ca.size q (pc i))
Run-Inv {pc = pc} i inv lt r =
    move-Inv inv i (pc i) lt refl (exec-Balance inv (pc i) (inv.fine i) r)
