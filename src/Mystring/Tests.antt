-- ===== src/Mystring/Tests.antt =====
-- Two strings and an empty one, and the theorems on them.
use serversidedev.Prelude.{◌≡◌, refl, inl, none, some, [], ◌∷◌, ◌++◌, arith, if◌then◌else◌, ◌==◌}
use serversidedev.Prelude.Outcome.{ok, fault}
use serversidedev.Mystring.{Memory, release, assign, plus}
use serversidedev.Mystring.Values.{Separate, Given, assign-Given}
use serversidedev.Mystring.Plus.{plus-Given, assign-fault}

-- Objects 0 and 1 hold a character each, in buffers 0 and 1.
abbrev two_strings : Memory
two_strings = record {
  data_of = λ o. if o == 0 then some 0 else if o == 1 then some 1 else none;
  buffers = λ p. if p == 0 then some (7 ∷ []) else if p == 1 then some (8 ∷ []) else none;
  next = 2;
}

two_strings-Separate : Separate two_strings
two_strings-Separate = record {
  allocated = λ o p e. ground arith;
  filled = λ o p e. ground arith;
  apart = λ o o' p e f. ground arith;
}

assign-Given_example : Given two_strings 0 (8 ∷ []) (assign two_strings 0 1)
assign-Given_example =
    assign-Given two_strings 0 1 (8 ∷ []) two_strings-Separate (λ e. absurd (omega arith))
      (omega arith, (1, refl, refl))

plus-Given_example : Given two_strings 2 ((7 ∷ []) ++ (8 ∷ [])) (plus two_strings 0 1 2)
plus-Given_example =
    plus-Given two_strings 0 1 2 (7 ∷ []) (8 ∷ []) two_strings-Separate (λ e. absurd (omega arith))
      (λ e. absurd (omega arith)) (omega arith, (0, refl, refl)) (omega arith, (1, refl, refl))
      (omega arith)

assign-fault_example :
    ((m : Memory) × (release two_strings 0 ≡ ok m) × (m.data_of 0 ≡ none))
    × (assign two_strings 0 0 ≡ fault)
assign-fault_example = assign-fault two_strings 0 0 two_strings-Separate (inl refl)
