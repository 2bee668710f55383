-- ===== src/ConcurrentArray/Destroy.antt =====
-- The destructor of `concurrent_array`: when it deletes what the ring holds, and when it never ends.
use native.Mathlib.Nat.{mod-lt}
use serversidedev.Prelude.{
  ℕ, zero, suc, ◌+◌, ◌%◌, ◌≤◌, ◌<◌, ◌≡◌, ◌≢◌, refl, Bool, true, false, none, some, List, [], ◌∷◌,
  ◌++◌, arith, leb, length, get_elem?, get_elem?-eq-none, update, Option-cases, inl, inr,
}
use mathlib.Core.List.{append-nil, append_assoc}
use serversidedev.ConcurrentArray.{ConcurrentArray}
use serversidedev.ConcurrentArray.Queue.{Holds, mod-eq-wrap}

-- How the loop of the destructor ends; `printed` is what it wrote.
pub data Destroyed : Type 0 where
  done : (printed : List ℕ) → Destroyed
  use_after_free : Destroyed  -- `*(buff[i])` and `delete` at a pointer that was deleted
  unfinished : Destroyed  -- the fuel is used up

-- `delete(buff[i])` frees the value and leaves the pointer in `buff`, so `freed` says which slots dangle.
pub destroy_loop : ℕ → ConcurrentArray → (ℕ → Bool) → ℕ → List ℕ → Destroyed
destroy_loop zero ca freed i out = unfinished
destroy_loop (suc fuel) ca freed i out = elim (leb i ca.pindex) [
  | false ↦ done out
  | true ↦ elim (ca.buff i) [
    | none ↦ destroy_loop fuel ca freed ((i + 1) % ca.size) out
    | some v ↦ elim (freed i) [
      | true ↦ use_after_free
      | false ↦ destroy_loop fuel ca (update freed i true) ((i + 1) % ca.size) (out ++ (v ∷ []))
    ]
  ]
]

unfoldable pub destroy : ℕ → ConcurrentArray → Destroyed
unfolding destroy_loop
destroy fuel ca = destroy_loop fuel ca (λ _. false) ca.cindex []

-- The loop from slot `i` on, where the ring holds `rest` up to `pindex`.
loop-rest :
    (fuel : ℕ) (ca : ConcurrentArray) (freed : ℕ → Bool) (i : ℕ) (out rest : List ℕ)
    → suc (length rest) < fuel
    → i + length rest ≡ ca.pindex
    → ca.pindex + 1 < ca.size
    → ca.buff ca.pindex ≡ none
    → ((j : ℕ) → j < length rest → ca.buff (i + j) ≡ get_elem? rest j)
    → ((j : ℕ) → i ≤ j → freed j ≡ false)
    → destroy_loop fuel ca freed i out ≡ done (out ++ rest)
unfolding destroy_loop
loop-rest zero ca freed i out rest le e small last slots live = absurd (omega arith)
loop-rest (suc zero) ca freed i out rest le e small last slots live = absurd (omega arith)
loop-rest (suc (suc fuel)) ca freed i out [] le e small last slots live =
    ground (arith, append-nil out, mod-eq-wrap ca.size i (omega arith))
loop-rest (suc (suc fuel)) ca freed i out (x ∷ rest) le e small last slots live = ground (
  arith,
  mod-eq-wrap ca.size i (omega arith),
  slots 0,
  live i,
  append_assoc out (x ∷ []) rest,
  loop-rest (suc fuel) ca (update freed i true) (i + 1) (out ++ (x ∷ [])) rest (omega arith)
      (omega arith) small last (λ j lt. ground (arith, slots (suc j)))
      (λ j le. ground (arith, live j)),
)

-- Where the items stand in one stretch that ends before the last slot, the destructor prints and
-- deletes each of them once, oldest first.
pub destroy-done :
    {ca : ConcurrentArray} {q : List ℕ}
    → Holds ca q
    → length q < ca.size
    → ca.cindex ≤ ca.pindex
    → ca.pindex + 1 < ca.size
    → destroy (ca.size + 1) ca ≡ done q
unfolding destroy
destroy-done {ca} {q} h room le small =
    loop-rest (ca.size + 1) ca (λ _. false) ca.cindex [] q (omega arith) (ground (arith, h)) small
      (ground (arith, h.slots (length q) room, h, get_elem?-eq-none q (length q) (omega arith)))
      (λ j lt. ground (arith, h.slots j, h)) (λ j le. refl)

-- If `pindex` is the last slot, `i=((i+1)%size)` never passes it: the loop goes round for ever, until it
-- meets a slot that it has deleted before.
loop-ne-done :
    (fuel : ℕ) (ca : ConcurrentArray) (freed : ℕ → Bool) (i : ℕ) (out printed : List ℕ)
    → ca.pindex + 1 ≡ ca.size
    → i < ca.size
    → destroy_loop fuel ca freed i out ≢ done printed
unfolding destroy_loop
loop-ne-done zero ca freed i out printed e lt = ground arith
loop-ne-done (suc fuel) ca freed i out printed e lt = elim (Option-cases (ca.buff i)) [
  | inl skip ↦ ground (arith, loop-ne-done fuel ca freed ((i + 1) % ca.size) out printed e next)
  | inr (v, item) ↦ ground (
    arith,
    loop-ne-done fuel ca (update freed i true) ((i + 1) % ca.size) (out ++ (v ∷ [])) printed e next,
  )
]
  where
    next : (i + 1) % ca.size < ca.size
    next = mod-lt (i + 1) {m = ca.size} (omega arith)

pub destroy-ne-done :
    {ca : ConcurrentArray} {q : List ℕ}
    → Holds ca q
    → ca.pindex + 1 ≡ ca.size
    → (fuel : ℕ) (printed : List ℕ) → destroy fuel ca ≢ done printed
unfolding destroy
destroy-ne-done {ca} h e fuel printed = loop-ne-done fuel ca _ ca.cindex [] printed e h.cindex_in
