-- ===== src/TestMap.antt =====
-- test_map.cpp: maps with an order of its own, over the `map` of the C++ library, which is a list in the order of its keys.
use serversidedev.Prelude.{
  ℕ, ◌≡◌, refl, Bool, true, false, Bool-cases, inl, inr, Option, none, some, List, [], ◌∷◌, length,
  ltb, if◌then◌else◌, arith,
}
use serversidedev.Prelude.CString.{codes}

module _ {ℓ κ} {K : Type ℓ} {V : Type κ} (less : K → K → Bool) where
  -- `m[k]=v`. Where a key that is neither less nor greater is there, that key stays.
  unfoldable set_at : K → V → List (K × V) → List (K × V)
  set_at k v [] = (k, v) ∷ []
  set_at k v ((k1, v1) ∷ m) =
      let later = set_at k v m in
      if less k k1
      then (k, v) ∷ (k1, v1) ∷ m
      else if less k1 k
      then (k1, v1) ∷ later
      else (k1, v) ∷ m

  -- `m.insert`, which leaves the value that is there.
  unfoldable insert : K → V → List (K × V) → List (K × V)
  insert k v [] = (k, v) ∷ []
  insert k v ((k1, v1) ∷ m) =
      let later = insert k v m in
      if less k k1
      then (k, v) ∷ (k1, v1) ∷ m
      else if less k1 k
      then (k1, v1) ∷ later
      else (k1, v1) ∷ m

  unfoldable find : K → List (K × V) → Option V
  find k [] = none
  find k ((k1, v1) ∷ m) =
      let later = find k m in if less k k1 then none else if less k1 k then later else some v1

  -- The keys are in strictly increasing order.
  abbrev Below : K → List (K × V) → Type 0
  Below k [] = Unit
  Below k ((k1, v1) ∷ m) = less k k1 ≡ true

  abbrev Sorted : List (K × V) → Type 0
  Sorted [] = Unit
  Sorted ((k, v) ∷ m) = Below k m × Sorted m

  Below-set_at :
      (j k : K) (v : V) (m : List (K × V)) → less j k ≡ true → Below j m → Below j (set_at k v m)
  unfolding set_at
  Below-set_at j k v [] lt h = lt
  Below-set_at j k v ((k1, v1) ∷ m) lt h = elim (Bool-cases (less k k1)) [
    | inl first ↦ rw first lt
    | inr not_first ↦
        rw not_first
          (elim (Bool-cases (less k1 k)) [ inl later ↦ rw later h | inr same ↦ rw same h ])
  ]

  -- Assignment keeps the order, so that no two keys are equivalent, and what was assigned is found.
  set_at-Sorted :
      ((k : K) → less k k ≡ false)
      → (k : K) (v : V) (m : List (K × V)) → Sorted m
      → Sorted (set_at k v m) × (find k (set_at k v m) ≡ some v)
  unfolding set_at find
  set_at-Sorted irreflexive k v [] sorted = ((tt, tt), rw (irreflexive k) refl)
  set_at-Sorted irreflexive k v ((k1, v1) ∷ m) (below, sorted) =
      let (sorted1, found) = set_at-Sorted irreflexive k v m sorted in
      elim (Bool-cases (less k k1)) [
        | inl first ↦ rw first ((first, (below, sorted)), rw (irreflexive k) refl)
        | inr not_first ↦ rw not_first (elim (Bool-cases (less k1 k)) [
          | inl later ↦
              rw later ((Below-set_at k1 k v m later below, sorted1), rw not_first (rw later found))
          | inr same ↦ rw same ((below, sorted), rw not_first (rw same refl))
        ])
      ]

-- `operator <` of the class Test, whose one field is `name`.
unfoldable less_test : List ℕ → List ℕ → Bool
less_test a b = ltb (length a) (length b)

less_test-irreflexive : (k : List ℕ) → less_test k k ≡ false
unfolding less_test
less_test-irreflexive k = ground arith

abbrev seconds {ℓ κ} : {K : Type ℓ} {V : Type κ} → List (K × V) → List V
seconds [] = []
seconds ((k, v) ∷ m) = v ∷ seconds m

-- What `test_struct_key` prints.
unfoldable test_struct_key : List ℕ
unfolding set_at less_test
test_struct_key = seconds (
    set_at less_test (codes "1") 1
      (set_at less_test (codes "11") 2 (set_at less_test (codes "111") 3 [])))

-- `greater<int>`
unfoldable greater : ℕ → ℕ → Bool
greater a b = ltb b a

-- What `main` prints before it.
unfoldable map_main : List (List ℕ)
unfolding set_at insert greater
map_main = seconds (
    set_at greater 6 (codes "six") (
      set_at greater 5 (codes "five") (
        set_at greater 4 (codes "four") (
          insert greater 3 (codes "three")
            (insert greater 2 (codes "two") (insert greater 1 (codes "one") []))))))

shortest_first : test_struct_key ≡ 1 ∷ 2 ∷ 3 ∷ []
unfolding test_struct_key
shortest_first = refl

greatest_first :
    map_main
    ≡ codes "six" ∷ codes "five" ∷ codes "four" ∷ codes "three" ∷ codes "two" ∷ codes "one" ∷ []
unfolding map_main
greatest_first = refl
