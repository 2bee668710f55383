-- ===== src/Atomic/Locked/Ending.antt =====
-- Whether the threads of the locked count end.
use serversidedev.Prelude.{
  ℕ, zero, suc, ◌+◌, ◌*◌, ◌≤◌, ◌<◌, ◌≡◌, ◌≢◌, refl, sym, ap, ◌∙◌, inl, inr, arith, Bool-cases,
  if◌then◌else◌, update, total, total-update,
}
use serversidedev.Prelude.Int.{
  int_of, ℤ, pos, negsuc, pos_part, ◌≤ℤ◌, ◌<ℤ◌, ◌+ℤ◌, ltb_ℤ, eq_ℤ, eq_of_parts,
}
use serversidedev.Prelude.Interleave.{Threads, turn, Reaches, Reaches-keeps}
use serversidedev.Atomic.Locked.{Pc, entry, loop, returned, count_down, exec, start}

-- What a thread still has to do when `gnum` moves no more.
abbrev pub left_to_do : Pc → ℕ
left_to_do entry = 3
left_to_do (loop x) = if eq_ℤ x (pos 0) then 1 else 2
left_to_do returned = 0

-- States after `k` turns of threads that had not returned.
pub data Moves (n : ℕ) (from : Threads ℤ Pc) : ℕ → Threads ℤ Pc → Type 0 where
  none_yet : Moves n from 0 from
  moves :
      {k : ℕ} {s : Threads ℤ Pc}
      → Moves n from k s
      → (i : ℕ) → i < n
      → s.pc i ≢ returned
      → Moves n from (suc k) (turn exec s i)

le-loop : (x : ℤ) → left_to_do (loop x) ≤ 2
le-loop x = ground arith

-- A pass of the loop's body: at 0 the cached value is 0, and else `gnum` goes down.
lowers-count_down :
    (m : ℕ)
    → (pos 0 ≤ℤ count_down (pos m))
      × (pos_part (count_down (pos m)) + left_to_do (loop (int_of (count_down (pos m)))) < m + 2)
unfolding count_down ◌+ℤ◌ int_of
lowers-count_down zero = (omega arith, omega arith)
lowers-count_down (suc m) =
    (ground arith, ground (arith, le-loop (int_of (count_down (pos (suc m))))))

-- One move lowers `gnum` or what the thread has to do.
exec-lowers :
    (m : ℤ) (p : Pc)
    → pos 0 ≤ℤ m
    → p ≢ returned
    → (pos 0 ≤ℤ (exec m p).0)
      × (pos_part (exec m p).0 + left_to_do (exec m p).1 < pos_part m + left_to_do p)
unfolding exec count_down ◌+ℤ◌
exec-lowers m entry h ne = ground arith
exec-lowers (pos m) (loop x) h ne = elim (Bool-cases (eq_ℤ x (pos 0))) [
  | inl z ↦ rw z (omega arith)
  | inr z ↦ rw z (lowers-count_down m)
]
exec-lowers (negsuc m) (loop x) h ne = absurd (omega arith)
exec-lowers m returned h ne = absurd (ne refl)

-- All that is left to do in a state.
abbrev pub measure : ℕ → Threads ℤ Pc → ℕ
measure n s = pos_part s.mem + total left_to_do n s.pc

total_start : (n : ℕ) → total left_to_do n (λ _. entry) ≡ 3 * n
unfolding total
total_start zero = refl
total_start (suc n) = omega (arith, total_start n)

Moves-measure :
    (g : ℤ) {n k : ℕ} {s : Threads ℤ Pc}
    → pos 0 ≤ℤ g
    → Moves n (start g) k s
    → (pos 0 ≤ℤ s.mem) × (k + measure n s ≤ pos_part g + 3 * n)
unfolding start
Moves-measure g {n} h none_yet = (h, omega (arith, total_start n))
Moves-measure g {n} h (moves {s = s} r i lt ne) =
    let (at_least, sum) = Moves-measure g h r in
    let (low, less) = exec-lowers s.mem (s.pc i) at_least ne in
    (low, omega (arith, sum, less, total-update left_to_do n s.pc i (exec s.mem (s.pc i)).1 lt))

-- If the count starts at 0 or above, the threads make at most as many turns as its start and three for
-- each thread before all of them have returned: no schedule that lets a thread go on can be longer.
pub locked_turns_bounded :
    {n k : ℕ} (g : ℤ) {s : Threads ℤ Pc}
    → pos 0 ≤ℤ g
    → Moves n (start g) k s
    → k ≤ pos_part g + 3 * n
locked_turns_bounded g h r = omega (arith, (Moves-measure g h r).1)

-- What a thread can be at while `gnum` stays at `g`.
abbrev Stuck : ℤ → Pc → Type 0
Stuck g entry = Unit
Stuck g (loop x) = x ≡ int_of g
Stuck g returned = int_of g ≡ pos 0

exec-Stuck : (g : ℤ) (p : Pc) → g ≤ℤ pos 0 → Stuck g p → ((exec g p).0 ≡ g) × Stuck g (exec g p).1
unfolding exec count_down
exec-Stuck g entry h st = (refl, refl)
exec-Stuck g (loop x) h st = elim (Bool-cases (eq_ℤ x (pos 0))) [
  | inl z ↦ rw z (refl, sym st ∙ eq_of_parts x (pos 0) (ground arith))
  | inr z ↦ rw z (stays, ap int_of stays)
]
  where
    stays : (if ltb_ℤ (pos 0) g then g +ℤ negsuc 0 else g) ≡ g
    stays = ground arith
exec-Stuck g returned h st = (refl, st)

Stuck-update :
    (g : ℤ) (pc : ℕ → Pc) (i : ℕ) (p : Pc)
    → ((j : ℕ) → Stuck g (pc j))
    → Stuck g p
    → (j : ℕ) → Stuck g (update pc i p j)
Stuck-update g pc i p h new j = ground (arith, h j, new)

Stuck-turn :
    (g : ℤ) (s : Threads ℤ Pc) (i : ℕ)
    → g ≤ℤ pos 0
    → (s.mem ≡ g) × ((j : ℕ) → Stuck g (s.pc j))
    → ((turn exec s i).mem ≡ g) × ((j : ℕ) → Stuck g ((turn exec s i).pc j))
Stuck-turn g s i h (same, stuck) =
    let (stays, next) = exec-Stuck g (s.pc i) h (stuck i) in
    rw same (stays, Stuck-update g s.pc i (exec g (s.pc i)).1 stuck next)

-- If the count starts below 0, `gnum` never changes, and no thread ever returns unless the start looks
-- like 0 in an `int`.
pub locked_spins :
    {n : ℕ} (g : ℤ) {s : Threads ℤ Pc}
    → g <ℤ pos 0
    → Reaches exec n (start g) s
    → (s.mem ≡ g) × ((i : ℕ) → s.pc i ≡ returned → int_of g ≡ pos 0)
unfolding start
locked_spins {n} g {s} h r =
    let (same, stuck) =
      Reaches-keeps exec n (λ s. (s.mem ≡ g) × ((j : ℕ) → Stuck g (s.pc j)))
        (λ s i lt inv. Stuck-turn g s i (omega arith) inv) (refl, λ j. tt) r in
    (same, λ i e. ground (arith, stuck i))
