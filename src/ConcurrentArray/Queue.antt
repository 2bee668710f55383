-- ===== src/ConcurrentArray/Queue.antt =====
-- A ring in use holds a bounded queue: `is_full`, `is_empty`, `append` and `get` against it.
use native.Mathlib.Decide.{dec_lt}
use native.Mathlib.Nat.{mod-eq_of_lt, mod-eq-sub-mod}
use serversidedev.Prelude.{
  ℕ, suc, ◌+◌, ◌-◌, ◌%◌, ◌≤◌, ◌<◌, ◌≡◌, ◌≢◌, refl, sym, ap, ◌∙◌, true, false, none, some, List, [],
  ◌∷◌, ◌++◌, arith, ◌==◌, ltb, if◌then◌else◌, length, get_elem?, get_elem?-snoc, get_elem?-eq-none,
  get_elem?-ne-none, length-append, update,
}
use serversidedev.ConcurrentArray.{
  ConcurrentArray, waits, is_null, init, is_full, is_empty, append, stored, store, get, Got, took,
  clear,
}

-- The index `i` steps on, when at most one round is made.
abbrev pub wrap : ℕ → ℕ → ℕ
wrap n i = if ltb i n then i else i - n

pub mod-eq-wrap : (n i : ℕ) → i < n → (i + 1) % n ≡ wrap n (i + 1)
mod-eq-wrap n i h = elim (dec_lt (i + 1) n) [
  | yes below ↦ ground (arith, mod-eq_of_lt below)
  | no at_end ↦ ground (
    arith,
    mod-eq-sub-mod {n = i + 1} {m = n} (omega arith),
    mod-eq_of_lt {n = i + 1 - n} {m = n} (omega arith),
  )
]

-- The slot `k` past the new `cindex` is slot `suc k` past the old one, which it is not.
wrap_shift :
    (n c k : ℕ)
    → c < n
    → suc k < n
    → (wrap n (wrap n (c + 1) + k) ≡ wrap n (c + suc k)) × (wrap n (c + suc k) ≢ c)
wrap_shift n c k h lt = ground arith

-- A whole round past the new `cindex` stands the old one.
wrap_round : (n c k : ℕ) → c < n → suc k ≡ n → wrap n (wrap n (c + 1) + k) ≡ c
wrap_round n c k h e = ground arith

-- The ring `ca` holds the queue `q`, oldest first: from `cindex` on stand its items, and then NULL.
pub record Holds (ca : ConcurrentArray) (q : List ℕ) : Type 0 where
  pub cindex_in : ca.cindex < ca.size
  pub fits : length q ≤ ca.size
  pub pindex_at : ca.pindex ≡ wrap ca.size (ca.cindex + length q)
  pub slots : (k : ℕ) → k < ca.size → ca.buff (wrap ca.size (ca.cindex + k)) ≡ get_elem? q k

module _ {ca : ConcurrentArray} {q : List ℕ} (h : Holds ca q) where
  open ca use {buff, size, pindex, cindex}
  open h use {cindex_in, fits, pindex_at, slots}

  -- Index 0, which `is_full` and `is_empty` read, in terms of the queue.
  slot_zero : buff 0 ≡ get_elem? q (wrap size (size - cindex))
  slot_zero = sym (ap buff (ground arith)) ∙ slots (wrap size (size - cindex)) (ground arith)

  abbrev zero_at : ℕ
  zero_at = wrap size (size - cindex)

  zero_null : length q ≡ 0 → get_elem? q zero_at ≡ none
  zero_null e = get_elem?-eq-none q zero_at (omega arith)

  slot_pindex : length q < size → buff pindex ≡ none
  slot_pindex room =
      ap buff pindex_at ∙ slots (length q) room ∙ get_elem?-eq-none q (length q) (omega arith)

  slot_taken : zero_at < length q → is_null (buff 0) ≡ false
  slot_taken used = let (x, e) = get_elem?-ne-none q zero_at used in ground (arith, slot_zero, e)

  slot_free : length q ≡ 0 → is_null (buff 0) ≡ true
  slot_free none_left = ground (arith, slot_zero, zero_null none_left)

  -- The test for a full ring, which looks at the two indices and at slot 0 alone, is exact.
  pub is_full-eq : is_full ca ≡ (length q == size)
  unfolding is_full
  is_full-eq = ground (arith, slot_taken, slot_free)

  -- So is the test for an empty ring.
  pub is_empty-eq : is_empty ca ≡ (length q == 0)
  unfolding is_empty
  is_empty-eq = ground (arith, slot_taken, slot_free)

  store-Holds : (t : ℕ) → length q < size → Holds (store ca t) (q ++ (t ∷ []))
  unfolding store
  store-Holds t room = record {
    cindex_in = cindex_in;
    fits = omega (arith, length-append q (t ∷ []));
    pindex_at = ground (arith, mod-eq-wrap size pindex (ground arith), length-append q (t ∷ []));
    slots = λ k lt. ground (arith, slots k lt, get_elem?-snoc q t k);
  }

  -- `append` stores at `pindex`, and the queue grows at its end, or the ring is full and the thread
  -- waits; its assertion does not fail.
  pub append_refines :
      (t : ℕ)
      → (append ca (some t) ≡ (if length q == size then waits else stored pindex (store ca t)))
        × (length q < size → Holds (store ca t) (q ++ (t ∷ [])))
  unfolding append
  append_refines t = (ground (arith, is_full-eq, slot_pindex), store-Holds t)

clear_slots :
    {ca : ConcurrentArray} {x : ℕ} {q : List ℕ}
    → Holds ca (x ∷ q)
    → (k : ℕ) → k < ca.size
    → update ca.buff ca.cindex none (wrap ca.size ((ca.cindex + 1) % ca.size + k)) ≡ get_elem? q k
clear_slots {ca} {x} {q} h k lt = elim (dec_lt (suc k) ca.size) [
  | yes inside ↦ ground (
    arith,
    mod-eq-wrap ca.size ca.cindex h.cindex_in,
    h.slots (suc k) inside,
    wrap_shift ca.size ca.cindex k h.cindex_in inside,
  )
  | no last ↦ ground (
    arith,
    mod-eq-wrap ca.size ca.cindex h.cindex_in,
    wrap_round ca.size ca.cindex k h.cindex_in (omega arith),
    get_elem?-eq-none q k (omega (arith, h.fits)),
  )
]

pub clear-Holds :
    {ca : ConcurrentArray} {x : ℕ} {q : List ℕ} → Holds ca (x ∷ q) → Holds (clear ca) q
unfolding clear
clear-Holds {ca} {x} {q} h = record {
  cindex_in = ground (arith, mod-eq-wrap ca.size ca.cindex h.cindex_in, h.cindex_in);
  fits = omega (arith, h.fits);
  pindex_at =
      ground (arith, mod-eq-wrap ca.size ca.cindex h.cindex_in, h.cindex_in, h.pindex_at, h.fits);
  slots = clear_slots h;
}

-- `get` takes the head of the queue, never NULL; at an empty queue the thread waits.
pub get_refines :
    {ca : ConcurrentArray} (q : List ℕ)
    → Holds ca q
    → (get ca ≡ elim q [ [] ↦ Got.waits | x ∷ rest ↦ took (some x) (clear ca) ])
unfolding get
get_refines [] h = rw (is_empty-eq h)
get_refines (x ∷ q) h = ground (arith, is_empty-eq h, h.slots 0, h.cindex_in)

-- The constructor makes a ring that holds nothing.
pub init-Holds : (n : ℕ) → 0 < n → Holds (init n) []
unfolding init
init-Holds n pos = record {
  cindex_in = pos;
  fits = omega arith;
  pindex_at = ground arith;
  slots = λ k lt. refl;
}
