-- ===== src/Lhf/Strtol.antt =====
-- `strtol_on_error_exit` of lib/lhf.cpp in base 10, and the `strtol` of the C library as far as that calls it.
pub mod Digits
pub mod Printing
pub mod Exact
mod Tests
use serversidedev.Prelude.{
  ℕ, zero, suc, ◌+◌, ◌-◌, ◌*◌, ◌/◌, ◌%◌, ◌^◌, Bool, true, false, not, ◌&&◌, ◌||◌, List, [], ◌∷◌,
  ◌++◌, ltb, leb, ◌==◌, if◌then◌else◌,
}
use serversidedev.Prelude.Int.{ℤ, pos, negsuc, eq_ℤ, sub_ℕ}

-- A `long` has 64 bits.
abbrev pub long_max : ℤ
long_max = pos (2 ^ 63 - 1)

abbrev pub long_min : ℤ
long_min = negsuc (2 ^ 63 - 1)

abbrev pub erange : ℕ
erange = 34

-- `isspace` and `isdigit` of the C locale.
abbrev pub is_space : ℕ → Bool
is_space c = (c == 32) || (leb 9 c && leb c 13)

abbrev pub is_digit : ℕ → Bool
is_digit c = leb 48 c && leb c 57

unfoldable pub skip_spaces : List ℕ → List ℕ
skip_spaces [] = []
skip_spaces (c ∷ cs) = if is_space c then skip_spaces cs else c ∷ cs

-- Whether there is a minus sign, and what follows a sign.
unfoldable pub skip_sign : List ℕ → Bool × List ℕ
skip_sign [] = (false, [])
skip_sign (c ∷ cs) = if c == 45 then (true, cs) else (false, if c == 43 then cs else c ∷ cs)

-- The value of the digits in front, after digits of value `sum`; whether there were any, with those before; and the rest.
unfoldable pub read_digits : ℕ → Bool → List ℕ → ℕ × Bool × List ℕ
read_digits sum any [] = (sum, any, [])
read_digits sum any (c ∷ cs) =
    let rest = read_digits (sum * 10 + (c - 48)) true cs in
    if is_digit c then rest else (sum, any, c ∷ cs)

-- What `strtol` returns, whether `*endptr` is `str`, what stands at `*endptr`, and `errno`.
pub record Parsed : Type 0 where
  pub re : ℤ
  pub at_start : Bool
  pub rest : List ℕ
  pub errno : ℕ

-- A value that a `long` does not hold is cut to the nearest one that it holds.
unfoldable pub to_long : Bool → ℕ → ℕ → ℤ × ℕ
to_long true value errno = if ltb (2 ^ 63) value then (long_min, erange) else (sub_ℕ 0 value, errno)
to_long false value errno =
    if ltb (2 ^ 63 - 1) value then (long_max, erange) else (pos value, errno)

-- `strtol(str,pend,10)`. It leaves `errno` alone where there is no error.
unfoldable pub strtol : List ℕ → ℕ → Parsed
strtol str errno =
    let (minus, digits) = skip_sign (skip_spaces str) in
    let (value, any, rest) = read_digits 0 false digits in
    let (re, errno1) = to_long minus value errno in
    if any
    then record { re = re; at_start = false; rest = rest; errno = errno1 }
    else record { re = pos 0; at_start = true; rest = str; errno = errno }

pub data Result : Type 0 where
  returns : ℤ → (rest : List ℕ) → Result
  fails : Result  -- `print_error` ends the process with status 1

abbrev pub is_end : List ℕ → Bool
is_end [] = true
is_end (c ∷ cs) = false

-- After the call.
unfoldable pub check_parsed : Parsed → Bool → Result
check_parsed p fullmatch =
    if (p.errno == erange) && (eq_ℤ p.re long_max || eq_ℤ p.re long_min)
    then fails
    else if not (p.errno == 0) && eq_ℤ p.re (pos 0)
    then fails
    else if p.at_start
    then fails
    else if not (is_end p.rest) && fullmatch
    then fails
    else returns p.re p.rest

-- A C string is the list of its characters before the 0.
unfoldable pub strtol_on_error_exit : List ℕ → ℕ → Bool → Result
strtol_on_error_exit str errno fullmatch = check_parsed (strtol str errno) fullmatch

-- What `printf("%ld")` prints. A `long` has 19 digits at most.
unfoldable pub print_digits : ℕ → ℕ → List ℕ
print_digits zero n = []
print_digits (suc fuel) n =
    let front = print_digits fuel (n / 10) in (if n == 0 then [] else front ++ ((48 + n % 10) ∷ []))

unfoldable pub print_long : ℤ → List ℕ
print_long (pos n) = if n == 0 then 48 ∷ [] else print_digits 19 n
print_long (negsuc n) = 45 ∷ print_digits 19 (suc n)
