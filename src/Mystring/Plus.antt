-- ===== src/Mystring/Plus.antt =====
-- `operator+`, and the assignments that fail.
use serversidedev.Prelude.{
  ℕ, ◌<◌, ◌≡◌, ◌≢◌, refl, sym, ◌⊎◌, inl, inr, none, some, List, [], ◌∷◌, ◌++◌, append_nil, length,
  length-append, ◌==◌, Bool-cases, update, arith, subst,
}
use serversidedev.Prelude.Outcome.{Outcome, ok, aborted, fault, unfinished}
use serversidedev.Mystring.{Memory, set_null, construct, release, assign, plus_at, plus}
use serversidedev.Mystring.Values.{
  HasChars, IsEmpty, Separate, Keeps, Keeps-trans, Emptied, Given, allocate-Separate,
  allocate-HasChars, allocate-Keeps, release-Emptied, assign-Given,
}

-- An object has these characters, perhaps none.
abbrev pub Value : Memory → ℕ → List ℕ → Type 0
Value m o [] = IsEmpty m o
Value m o (x ∷ xs) = HasChars m o (x ∷ xs)

-- A fresh object is set to NULL.
module _ (m : Memory) (re : ℕ) (s : Separate m) where
  fresh-Separate : Separate (set_null m re)
  fresh-Separate = record {
    allocated = λ o p e. ground (arith, s.allocated o p);
    filled = λ o p e. s.filled o p (owned o p e);
    apart = λ o o' p e f. s.apart o o' p (owned o p e) (owned o' p f);
  }
    where
      owned : (o p : ℕ) → update m.data_of re none o ≡ some p → m.data_of o ≡ some p
      owned o p e = ground (arith, e)

  fresh-Keeps : Keeps m (set_null m re) re
  fresh-Keeps = record {
    keeps_chars = λ o' chars ne (pos_length, (p, e, f)). (pos_length, (p, ground (arith, e), f));
    keeps_empty = λ o' ne e. ground (arith, e);
  }

-- The other objects are as they were before the fresh one was made.
Given-fresh :
    (m m0 : Memory) (re : ℕ) (chars : List ℕ) (out : Outcome Memory)
    → Keeps m m0 re
    → Given m0 re chars out
    → Given m re chars out
Given-fresh m m0 re chars (ok m') k (s, has, keeps) = (s, has, Keeps-trans k keeps)
Given-fresh m m0 re chars aborted k h = h
Given-fresh m m0 re chars fault k h = h
Given-fresh m m0 re chars unfinished k h = h

module _ (m : Memory) (this other re : ℕ) (s : Separate m) (ne_this : re ≢ this)
    (ne_other : re ≢ other) where
  abbrev m0 : Memory
  m0 = set_null m re

  s0 : Separate m0
  s0 = fresh-Separate m re s

  k0 : Keeps m m0 re
  k0 = fresh-Keeps m re s

  both-Given :
      (a b : List ℕ)
      → HasChars m this a
      → HasChars m other b
      → Given m re (a ++ b) (plus_at m0 this other re (m.data_of this) (m.data_of other))
  unfolding plus_at
  both-Given a b (pos_a, (p, e, f)) (pos_b, (q, g, h)) = rw e (
      rw g (
        rw f (
          rw h (
            allocate-Separate m0 re (a ++ b) pos_length s0,
            allocate-HasChars m0 re (a ++ b) pos_length,
            Keeps-trans k0 (allocate-Keeps m0 re (a ++ b) s0),
          ))))
    where
      pos_length : 0 < length (a ++ b)
      pos_length = omega (arith, length-append a b)

  left_empty-Given :
      (b : List ℕ)
      → IsEmpty m this
      → HasChars m other b
      → Given m re b (plus_at m0 this other re (m.data_of this) (m.data_of other))
  unfolding plus_at
  left_empty-Given b e has = rw e (
      Given-fresh m m0 re b (assign m0 re other) k0 (
        assign-Given m0 re other b s0 ne_other
          (k0.keeps_chars other b (λ same. ne_other (sym same)) has)))

  right_empty-Given :
      (a : List ℕ)
      → HasChars m this a
      → IsEmpty m other
      → Given m re a (plus_at m0 this other re (m.data_of this) (m.data_of other))
  unfolding plus_at
  right_empty-Given a (pos_a, (p, e, f)) g = rw e (
      rw g (
        Given-fresh m m0 re a (assign m0 re this) k0 (
          assign-Given m0 re this a s0 ne_this
            (k0.keeps_chars this a (λ same. ne_this (sym same)) (pos_a, (p, e, f))))))

  plus-cases :
      (a b : List ℕ)
      → Value m this a
      → Value m other b
      → 0 < length (a ++ b)
      → Given m re (a ++ b) (plus m this other re)
  unfolding plus construct
  plus-cases [] [] va vb pos_length = absurd (omega arith)
  plus-cases [] (y ∷ ys) va vb pos_length = left_empty-Given (y ∷ ys) va vb
  plus-cases (x ∷ xs) [] va vb pos_length =
      subst (λ l. Given m re l (plus m this other re)) (sym (append_nil (x ∷ xs)))
        (right_empty-Given (x ∷ xs) va vb)
  plus-cases (x ∷ xs) (y ∷ ys) va vb pos_length = both-Given (x ∷ xs) (y ∷ ys) va vb

-- If buffers in use are on the heap and no two objects share one, the sum of two objects that are not
-- both empty is made, as an object apart from them: it holds the characters of the one and then those of
-- the other, in a buffer of its own, and all other objects are as they were.
pub plus-Given :
    (m : Memory) (this other re : ℕ) (a b : List ℕ)
    → Separate m
    → re ≢ this
    → re ≢ other
    → Value m this a
    → Value m other b
    → 0 < length (a ++ b)
    → Given m re (a ++ b) (plus m this other re)
plus-Given m this other re a b s ne_this ne_other va vb pos_length =
    plus-cases m this other re s ne_this ne_other a b va vb pos_length

-- An object that is empty when it is read.
read_empty :
    (m : Memory) (this source : ℕ) (out : Outcome Memory)
    → (this ≡ source) ⊎ IsEmpty m source
    → Emptied m this out
    → (m1 : Memory) × (out ≡ ok m1) × (m1.data_of source ≡ none)
read_empty m this source (ok m1) cause (s, empty, keeps) = (m1, refl, null)
  where
    null : m1.data_of source ≡ none
    null = elim (Bool-cases (this == source)) [
      | inl same ↦ subst (λ o. IsEmpty m1 o) (ground arith) empty
      | inr other ↦ elim cause [
        | inl same ↦ subst (λ o. IsEmpty m1 o) same empty
        | inr was_empty ↦ keeps.keeps_empty source (λ e. ground arith) was_empty
      ]
    ]
read_empty m this source aborted cause h = absurd h
read_empty m this source fault cause h = absurd h
read_empty m this source unfinished cause h = absurd h

-- If buffers in use are on the heap and no two objects share one, then in assigning a `mystring`
-- to itself, or an empty one to any, the buffer of the one that is assigned to is released, then
-- `data` of the other one is NULL, and reading it is the fault that ends the assignment.
pub assign-fault :
    (m : Memory) (this source : ℕ)
    → Separate m
    → (this ≡ source) ⊎ IsEmpty m source
    → ((m1 : Memory) × (release m this ≡ ok m1) × (m1.data_of source ≡ none))
      × (assign m this source ≡ fault)
unfolding assign
assign-fault m this source s cause =
    let (m1, freed, null) =
      read_empty m this source (release m this) cause (release-Emptied m this s) in
    ((m1, freed, null), rw freed (rw null refl))
