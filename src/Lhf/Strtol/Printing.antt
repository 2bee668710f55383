-- ===== src/Lhf/Strtol/Printing.antt =====
-- What `strtol_on_error_exit` makes of a printed number.
use serversidedev.Prelude.{
  ℕ, zero, suc, ◌+◌, ◌-◌, ◌/◌, ◌%◌, ◌^◌, ◌<◌, ◌≤◌, ◌≡◌, refl, ap, sym, ◌∙◌, Bool, true, false,
  Bool-cases, inl, inr, List, [], ◌∷◌, ◌++◌, append_nil, arith, ◌==◌, if◌then◌else◌,
}
use serversidedev.Prelude.Int.{ℤ, pos, negsuc, ◌≤ℤ◌}
use serversidedev.Lhf.Strtol.{
  long_max, long_min, is_space, is_digit, skip_spaces, skip_sign, read_digits, to_long, strtol,
  returns, check_parsed, strtol_on_error_exit, print_digits, print_long,
}
use serversidedev.Lhf.Strtol.Digits.{print_digits-zero, read_digits-print_digits}

-- A text that begins with a digit.
abbrev pub DigitFirst : List ℕ → Type 0
DigitFirst s = (c : ℕ) × (cs : List ℕ) × (s ≡ c ∷ cs) × (is_digit c ≡ true)

pub digit_first : (fuel n : ℕ) → 0 < n → n < 10 ^ fuel → DigitFirst (print_digits fuel n)
unfolding print_digits
digit_first zero n h lt = absurd (omega arith)
digit_first (suc fuel) n h lt = elim (Bool-cases (n / 10 == 0)) [
  | inl one_digit ↦
      rw (positive n h)
        (rw (no_front fuel (n / 10) one_digit) ((48 + n % 10), [], refl, ground arith))
  | inr more ↦
      let (c, cs, e, d) = digit_first fuel (n / 10) (ground arith) (omega arith) in
      rw (positive n h) (rw e (c, cs ++ ((48 + n % 10) ∷ []), refl, d))
]
  where
    positive : (n : ℕ) → 0 < n → (n == 0) ≡ false
    positive n h = ground arith

    no_front : (fuel k : ℕ) → (k == 0) ≡ true → print_digits fuel k ≡ []
    no_front fuel zero h = print_digits-zero fuel
    no_front fuel (suc k) h = absurd (ground arith)

-- No space and no sign is skipped.
pub skip-digit : (s : List ℕ) → DigitFirst s → skip_sign (skip_spaces s) ≡ (false, s)
unfolding skip_sign skip_spaces
skip-digit s (c, cs, e, d) = rw e (rw (no_space c d) (rw (no_minus c d) (rw (no_plus c d) refl)))
  where
    no_space : (c : ℕ) → is_digit c ≡ true → is_space c ≡ false
    no_space c d = ground arith

    no_minus : (c : ℕ) → is_digit c ≡ true → (c == 45) ≡ false
    no_minus c d = ground arith

    no_plus : (c : ℕ) → is_digit c ≡ true → (c == 43) ≡ false
    no_plus c d = ground arith

-- The text begins with a number that a `long` holds.
pub strtol_lem :
    (str : List ℕ) {digits : List ℕ} {minus : Bool} {value : ℕ} {re : ℤ} {rest : List ℕ}
    → skip_sign (skip_spaces str) ≡ (minus, digits)
    → read_digits 0 false digits ≡ (value, true, rest)
    → to_long minus value 0 ≡ (re, 0)
    → strtol str 0 ≡ record { re = re; at_start = false; rest = rest; errno = 0 }
unfolding strtol
strtol_lem str e1 e2 e3 = rw e1 (rw e2 (rw e3 refl))

at_end : (n : ℕ) → 0 < n → read_digits n (if n == 0 then false else true) [] ≡ (n, true, [])
unfolding read_digits
at_end zero h = absurd (omega arith)
at_end (suc n) h = ground arith

-- All the digits are read.
all_read : (n : ℕ) → 0 < n → n < 10 ^ 19 → read_digits 0 false (print_digits 19 n) ≡ (n, true, [])
all_read n h lt =
    ap (λ l. read_digits 0 false l) (sym (append_nil (print_digits 19 n)))
    ∙ read_digits-print_digits 19 n false [] lt
    ∙ at_end n h

checked :
    (str : List ℕ) (re : ℤ) (fullmatch : Bool)
    → strtol str 0 ≡ record { re = re; at_start = false; rest = []; errno = 0 }
    → strtol_on_error_exit str 0 fullmatch ≡ returns re []
unfolding strtol_on_error_exit check_parsed
checked str re fullmatch e = rw e refl

zero_text :
    (n : ℕ) (fullmatch : Bool)
    → (n == 0) ≡ true
    → strtol_on_error_exit (48 ∷ []) 0 fullmatch ≡ returns (pos n) []
unfolding strtol_on_error_exit strtol check_parsed skip_spaces skip_sign read_digits to_long
zero_text zero fullmatch h = refl
zero_text (suc n) fullmatch h = absurd (ground arith)

pub fits : (n : ℕ) → n ≤ 2 ^ 63 - 1 → to_long false n 0 ≡ (pos n, 0)
unfolding to_long
fits n h = ground arith

fits_below : (n : ℕ) → suc n ≤ 2 ^ 63 → to_long true (suc n) 0 ≡ (negsuc n, 0)
unfolding to_long
fits_below n h = ground arith

minus_first : (s : List ℕ) → skip_sign (skip_spaces (45 ∷ s)) ≡ (true, s)
unfolding skip_sign skip_spaces
minus_first s = refl

-- If `errno` is 0 and a number fits into a `long`, `strtol_on_error_exit` in base 10 returns it
-- for the text that printing it with `%ld` gives, and leaves nothing of the text.
pub strtol_on_error_exit-print_long :
    (x : ℤ) (fullmatch : Bool)
    → long_min ≤ℤ x
    → x ≤ℤ long_max
    → strtol_on_error_exit (print_long x) 0 fullmatch ≡ returns x []
unfolding print_long
strtol_on_error_exit-print_long (pos n) fullmatch low high = elim (Bool-cases (n == 0)) [
  | inl is_zero ↦ rw is_zero (zero_text n fullmatch is_zero)
  | inr some ↦ rw some (
      checked (print_digits 19 n) (pos n) fullmatch (
        strtol_lem (print_digits 19 n)
          (skip-digit (print_digits 19 n) (digit_first 19 n (ground arith) (omega arith)))
          (all_read n (ground arith) (omega arith)) (fits n (omega arith))))
]
strtol_on_error_exit-print_long (negsuc n) fullmatch low high =
    checked (45 ∷ print_digits 19 (suc n)) (negsuc n) fullmatch (
      strtol_lem (45 ∷ print_digits 19 (suc n)) (minus_first (print_digits 19 (suc n)))
        (all_read (suc n) (omega arith) (omega arith)) (fits_below n (omega arith)))
