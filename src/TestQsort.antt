-- ===== src/TestQsort.antt =====
-- test_qsort.cpp: the comparison that it gives to the `qsort` of the C library, and `main`, for ints and doubles of 4 and 8 bytes, the lowest first.
use serversidedev.Prelude.{
  ℕ, zero, suc, ◌+◌, ◌-◌, ◌*◌, ◌^◌, ◌≡◌, refl, ◌&&◌, Bool-cases, inl, inr, Option, none, some, List,
  [], ◌∷◌, ltb, if◌then◌else◌, arith,
}
use serversidedev.Prelude.Int.{ℤ, pos, negsuc, pos_part, neg_part, sub_ℕ, ltb_ℤ, leb_ℤ, ◌≤ℤ◌}
use serversidedev.Prelude.Outcome.{Outcome, ok, aborted, fault, unfinished, ◌>>=◌}

-- `*(int*)p`, where the bytes from `p` on are given.
unfoldable int_at : List ℕ → Outcome ℤ
int_at [] = fault
int_at (a ∷ []) = fault
int_at (a ∷ b ∷ []) = fault
int_at (a ∷ b ∷ c ∷ []) = fault
int_at (a ∷ b ∷ c ∷ d ∷ bytes) =
    let n = a + 256 * (b + 256 * (c + 256 * d)) in
    ok (if ltb n (2 ^ 31) then pos n else negsuc (2 ^ 32 - 1 - n))

-- The difference of two ints must not overflow.
unfoldable sub_int : ℤ → ℤ → Outcome ℤ
sub_int x y =
    let d = sub_ℕ (pos_part x + neg_part y) (neg_part x + pos_part y) in
    if leb_ℤ (negsuc (2 ^ 31 - 1)) d && leb_ℤ d (pos (2 ^ 31 - 1)) then ok d else fault

unfoldable cmp : List ℕ → List ℕ → Outcome ℤ
unfolding int_at sub_int
cmp a b = do x ← int_at a; y ← int_at b; sub_int x y

-- `cin` in a state of the input, and the `qsort` of the C library on elements of the bytes given.
record Library (World : Type 0) : Type 0 where
  read_int : World → Option (List ℕ) × World
  read_double : World → Option (List ℕ) × World
  sort : (List ℕ → List ℕ → Outcome ℤ) → List (List ℕ) → Outcome (List (List ℕ))

-- `for(;n<MAX_LEN && cin>>array[n];n++);` with the cells that are left.
unfoldable read_array :
    {World : Type 0} → (World → Option (List ℕ) × World) → ℕ → World → List (List ℕ) × World
read_array read zero w = ([], w)
read_array read (suc left) w =
    let (got, w1) = read w in
    let (rest, w2) = read_array read left w1 in
    elim got [ none ↦ ([], w1) | some x ↦ (x ∷ rest, w2) ]

-- `main`: what it prints, the array of ints before and after, and that of doubles.
unfoldable test_qsort :
    {World : Type 0} → Library World → World → Outcome (List (List (List ℕ)) × World)
unfolding cmp read_array
test_qsort library w =
    let (ints, w1) = read_array library.read_int 5 w in
    let (doubles, w2) = read_array library.read_double 5 w1 in
    library.sort cmp ints >>= (λ sorted.
      library.sort cmp doubles
      >>= (λ sorted_doubles. ok (ints ∷ sorted ∷ doubles ∷ sorted_doubles ∷ [], w2)))

-- The difference has the sign of the order, or there is none and the ints are not both in the middle half of the range.
abbrev Compares : ℤ → ℤ → Outcome ℤ → Type 0
Compares x y (ok d) = (ltb_ℤ d (pos 0) ≡ ltb_ℤ x y) × (ltb_ℤ (pos 0) d ≡ ltb_ℤ y x)
Compares x y aborted = ⊥
Compares x y fault = ¬ (
    (negsuc (2 ^ 30 - 1) ≤ℤ x)
    × (x ≤ℤ pos (2 ^ 30 - 1))
    × (negsuc (2 ^ 30 - 1) ≤ℤ y)
    × (y ≤ℤ pos (2 ^ 30 - 1)))
Compares x y unfinished = ⊥

sub_int-Compares : (x y : ℤ) → Compares x y (sub_int x y)
unfolding sub_int
sub_int-Compares x y =
    let d = sub_ℕ (pos_part x + neg_part y) (neg_part x + pos_part y) in
    elim (Bool-cases (leb_ℤ (negsuc (2 ^ 31 - 1)) d && leb_ℤ d (pos (2 ^ 31 - 1)))) [
      | inl fits ↦ rw fits (ground arith, ground arith)
      | inr large ↦ rw large (λ (a, b, c, e). ground arith)
    ]

-- Two ints in memory are compared by their order, or the difference overflows, and then they are not both in the middle
-- half of the range of an `int`.
cmp-Compares : (a b : List ℕ) (x y : ℤ) → int_at a ≡ ok x → int_at b ≡ ok y → Compares x y (cmp a b)
unfolding cmp
cmp-Compares a b x y ex ey = rw ex (rw ey (sub_int-Compares x y))

-- The doubles 1 and 2, whose low bytes are 0.
abbrev one : List ℕ
one = 0 ∷ 0 ∷ 0 ∷ 0 ∷ 0 ∷ 0 ∷ 240 ∷ 63 ∷ []

abbrev two : List ℕ
two = 0 ∷ 0 ∷ 0 ∷ 0 ∷ 0 ∷ 0 ∷ 0 ∷ 64 ∷ []

doubles_equal : cmp two one ≡ ok (pos 0)
unfolding cmp int_at sub_int
doubles_equal = refl

-- 2 ^ 31 - 1 and -1.
int_overflow : cmp (255 ∷ 255 ∷ 255 ∷ 127 ∷ []) (255 ∷ 255 ∷ 255 ∷ 255 ∷ []) ≡ fault
unfolding cmp int_at sub_int
int_overflow = refl
