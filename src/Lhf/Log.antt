-- ===== src/Lhf/Log.antt =====
-- `printf_log_low`, `printf_and_exit` and `print_error_low` of lib/lhf.cpp. A text is a C string without its 0.
pub mod Ending
use serversidedev.Prelude.{
  ℕ, ◌≡◌, Bool, true, false, ◌&&◌, List, [], ◌∷◌, ◌++◌, length, ltb, ◌==◌, if◌then◌else◌,
}
use serversidedev.Prelude.Int.{ℤ, pos, ltb_ℤ}
use serversidedev.Prelude.CString.{codes}
use serversidedev.Prelude.Outcome.{Outcome, ok, fault}
use serversidedev.Prelude.Served.{Served, exits}
use serversidedev.Lhf.Strtol.{print_long}

-- `strcmp(s,t)==0`
unfoldable pub str_equal : List ℕ → List ℕ → Bool
str_equal [] [] = true
str_equal [] (d ∷ t) = false
str_equal (c ∷ s) [] = false
str_equal (c ∷ s) (d ∷ t) = (c == d) && str_equal s t

-- What is printed; `text` is what `vprintf` makes of the format, and `is_debug` whether DEBUG is defined.
unfoldable pub printf_log_low :
    (is_debug : Bool) (file : List ℕ) (line : ℕ) (func level text : List ℕ) → List ℕ
unfolding str_equal
printf_log_low is_debug file line func level text =
    if str_equal level (codes "debug")
    then (if is_debug
        then level
          ++ codes " "
          ++ text
          ++ codes "\tin "
          ++ file
          ++ codes ":"
          ++ print_long (pos line)
          ++ codes "::"
          ++ func
          ++ codes "\n"
        else [])
    else level ++ codes " " ++ text

-- The process ends, with what has been printed.
unfoldable pub printf_and_exit : ℕ → List ℕ → Served (List ℕ)
printf_and_exit exitstatus text = exits exitstatus text

-- `re` is what `vsprintf` returns and `text` what it writes, in a buffer of 1024 bytes whose size it does not know.
unfoldable pub print_error_low :
    (file : List ℕ) (line : ℕ) (func : List ℕ) (exitstatus : ℕ) (who : List ℕ) (re : ℤ)
    (text : List ℕ)
    → Outcome (Served (List ℕ))
unfolding printf_and_exit
print_error_low file line func exitstatus who re text =
    if ltb (length text) 1024
    then ok (
        if ltb_ℤ re (pos 0)
        then printf_and_exit 1
            (codes "vsprintf failed for return value is negative:" ++ print_long re ++ codes "\n")
        else printf_and_exit exitstatus (
            file
            ++ codes ":"
            ++ print_long (pos line)
            ++ codes "::"
            ++ func
            ++ codes "\t"
            ++ who
            ++ codes " failed for: "
            ++ text
            ++ codes "\n"))
    else fault
