-- ===== src/Mystring/Main.antt =====
-- `main` of my_string.cpp, with the ends of its objects.
use serversidedev.Prelude.{
  ℕ, ◌≡◌, refl, ap, Bool, true, false, none, List, [], ◌∷◌, ◌++◌, length, ltb, arith,
}
use serversidedev.Prelude.Outcome.{Outcome, ok, aborted, fault, unfinished, ◌>>=◌}
use serversidedev.Mystring.{
  Memory, chars_at, construct, construct_from, release, equals, same_chars, plus,
}

-- What is printed of the four strings and of the comparison.
record Shown : Type 0 where
  first : List ℕ
  second : List ℕ
  third : List ℕ
  is_equal : Bool
  fourth : List ℕ

-- `operator<<`, which gives `data` to the stream.
abbrev print : Memory → ℕ → Outcome (List ℕ)
print m str = chars_at m (m.data_of str)

-- `main` with the two literals as parameters. `str1`, ..., `str4` are the objects 0, ..., 3, and 4 is the temporary one. At the end they are destroyed.
unfoldable main_of : List ℕ → List ℕ → Memory → Outcome (Shown × Memory)
unfolding construct construct_from release equals plus
main_of one two m = do
  m3 ← plus (construct_from (construct_from m 0 one) 1 two) 0 1 2
  m4 ← plus (construct m3 4) 0 4 3
  m5 ← release m4 4
  first ← print m5 0
  second ← print m5 1
  third ← print m5 2
  is_equal ← equals m5 2 0
  fourth ← print m5 3
  m6 ← release m5 3
  m7 ← release m6 2
  m8 ← release m7 1
  m9 ← release m8 0
  ok (
    record { first = first; second = second; third = third; is_equal = is_equal; fourth = fourth },
    m9,
  )

-- `main`
unfoldable mystring_main : Memory → Outcome (Shown × Memory)
unfolding main_of
mystring_main m = main_of (111 ∷ 110 ∷ 101 ∷ []) (116 ∷ 119 ∷ 111 ∷ []) m

-- The program ends, and all that it has allocated is free.
abbrev Leaves : Shown → Outcome (Shown × Memory) → Type 0
Leaves shown (ok (what, m)) = (what ≡ shown) × ((p : ℕ) → m.buffers p ≡ none)
Leaves shown aborted = ⊥
Leaves shown fault = ⊥
Leaves shown unfinished = ⊥

abbrev no_memory : Memory
no_memory = record { data_of = λ o. none; buffers = λ p. none; next = 0 }

longer-differs : (a : List ℕ) (y : ℕ) (ys : List ℕ) → same_chars (a ++ (y ∷ ys)) a ≡ false
longer-differs [] y ys = refl
longer-differs (x ∷ a) y ys = ground (arith, longer-differs a y ys)

abbrev shown : ℕ → List ℕ → ℕ → List ℕ → Shown
shown x xs y ys = record {
  first = x ∷ xs;
  second = y ∷ ys;
  third = (x ∷ xs) ++ (y ∷ ys);
  is_equal = false;
  fourth = x ∷ xs;
}

is_long : (x : ℕ) (xs : List ℕ) → ltb 0 (length (x ∷ xs)) ≡ true
is_long x xs = ground arith

-- With any two strings that are not empty in place of "one" and "two": no NULL pointer is followed,
-- the third string is both, the fourth the first one, the third differs from the first, and the
-- destructors free all buffers.
main_of-Leaves :
    (x : ℕ) (xs : List ℕ) (y : ℕ) (ys : List ℕ)
    → Leaves (shown x xs y ys) (main_of (x ∷ xs) (y ∷ ys) no_memory)
unfolding main_of
main_of-Leaves x xs y ys = rw (is_long x xs) (
    rw (is_long y ys) (
      rw (is_long x xs) (
        ap (λ e. record (shown x xs y ys) { is_equal = e }) (longer-differs (x ∷ xs) y ys),
        λ p. ground arith,
      )))

mystring_main-Leaves :
    Leaves (shown 111 (110 ∷ 101 ∷ []) 116 (119 ∷ 111 ∷ [])) (mystring_main no_memory)
unfolding mystring_main
mystring_main-Leaves = main_of-Leaves 111 (110 ∷ 101 ∷ []) 116 (119 ∷ 111 ∷ [])
