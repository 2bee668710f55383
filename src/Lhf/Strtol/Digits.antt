-- ===== src/Lhf/Strtol/Digits.antt =====
-- The digits that `printf` prints, as `strtol` reads them.
use serversidedev.Prelude.{
  ℕ, zero, suc, ◌+◌, ◌*◌, ◌/◌, ◌%◌, ◌^◌, ◌<◌, ◌≡◌, refl, ap, ◌∙◌, Bool, true, Bool-cases, inl, inr,
  List, [], ◌∷◌, ◌++◌, append_assoc, arith, ◌==◌, if◌then◌else◌,
}
use serversidedev.Lhf.Strtol.{is_digit, read_digits, print_digits}

pub print_digits-zero : (fuel : ℕ) → print_digits fuel 0 ≡ []
unfolding print_digits
print_digits-zero zero = refl
print_digits-zero (suc fuel) = refl

-- The number without its last digit.
div_lt : (n m : ℕ) → n < 10 * m → n / 10 < m
div_lt n m h = omega arith

digit_is_digit : (n : ℕ) → is_digit (48 + n % 10) ≡ true
digit_is_digit n = ground arith

nothing : (n : ℕ) → (n == 0) ≡ true → 0 ≡ n
nothing n h = ground arith

pub read_digits-print_digits :
    (fuel n : ℕ) (any : Bool) (tail : List ℕ)
    → n < 10 ^ fuel
    → read_digits 0 any (print_digits fuel n ++ tail)
      ≡ read_digits n (if n == 0 then any else true) tail
unfolding read_digits print_digits
read_digits-print_digits zero n any tail h = rw is_zero refl
  where
    is_zero : n ≡ 0
    is_zero = omega arith
read_digits-print_digits (suc fuel) n any tail h = elim (Bool-cases (n == 0)) [
  | inl none_left ↦ rw none_left (ap (λ k. read_digits k any tail) (nothing n none_left))
  | inr some_left ↦ rw some_left (
      rw (append_assoc (print_digits fuel (n / 10)) ((48 + n % 10) ∷ []) tail) (
        read_digits-print_digits fuel (n / 10) any ((48 + n % 10) ∷ tail)
          (div_lt n (10 ^ fuel) (omega (arith, h)))
        ∙ rw (digit_is_digit n) (ap (λ k. read_digits k true tail) (omega arith))))
]
