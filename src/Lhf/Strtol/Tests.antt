-- ===== src/Lhf/Strtol/Tests.antt =====
-- Texts and numbers, and the theorems on `strtol_on_error_exit` at them.
use serversidedev.Prelude.{ℕ, ◌≡◌, refl, true, false, List, [], ◌∷◌, arith}
use serversidedev.Prelude.Int.{negsuc}
use serversidedev.Lhf.Strtol.{
  long_min, strtol, returns, fails, check_parsed, strtol_on_error_exit, skip_spaces, skip_sign,
  read_digits, to_long, print_long, print_digits,
}
use serversidedev.Lhf.Strtol.Printing.{strtol_on_error_exit-print_long}
use serversidedev.Lhf.Strtol.Exact.{IsNumber, strtol_on_error_exit-IsNumber}

-- " -12x"
abbrev text : List ℕ
text = 32 ∷ 45 ∷ 49 ∷ 50 ∷ 120 ∷ []

partial_result : strtol_on_error_exit text 0 false ≡ returns (negsuc 11) (120 ∷ [])
unfolding strtol_on_error_exit strtol check_parsed skip_spaces skip_sign read_digits to_long
partial_result = refl

full_result : strtol_on_error_exit text 0 true ≡ fails
unfolding strtol_on_error_exit strtol check_parsed skip_spaces skip_sign read_digits to_long
full_result = refl

-- With an `errno` that an earlier call has left, "0" is no number.
stale_errno : strtol_on_error_exit (48 ∷ []) 2 true ≡ fails
unfolding strtol_on_error_exit strtol check_parsed skip_spaces skip_sign read_digits to_long
stale_errno = refl

print_result : print_long (negsuc 11) ≡ 45 ∷ 49 ∷ 50 ∷ []
unfolding print_long print_digits
print_result = refl

strtol_on_error_exit-print_long_example :
    strtol_on_error_exit (print_long long_min) 0 true ≡ returns long_min []
strtol_on_error_exit-print_long_example =
    strtol_on_error_exit-print_long long_min true (omega arith) (omega arith)

strtol_on_error_exit-IsNumber_example : IsNumber text 0 false (strtol_on_error_exit text 0 false)
strtol_on_error_exit-IsNumber_example = strtol_on_error_exit-IsNumber text 0 false
