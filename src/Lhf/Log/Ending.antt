-- ===== src/Lhf/Log/Ending.antt =====
-- The process ends in `print_error`.
use serversidedev.Prelude.{
  ℕ, ◌≤◌, ◌≡◌, refl, true, Bool-cases, inl, inr, ◌⊎◌, List, length, ltb, arith,
}
use serversidedev.Prelude.Int.{ℤ, pos, ltb_ℤ}
use serversidedev.Prelude.Outcome.{Outcome, ok, aborted, fault, unfinished}
use serversidedev.Prelude.Served.{Served, goes_on, exits}
use serversidedev.Lhf.Log.{printf_and_exit, print_error_low}

-- The process ends with the status, or with 1 where `vsprintf` fails; a text too long for the buffer is written past its end.
abbrev Ends : ℕ → ℤ → List ℕ → Outcome (Served (List ℕ)) → Type 0
Ends exitstatus re text (ok (goes_on out)) = ⊥
Ends exitstatus re text (ok (exits status out)) =
    (length text ≤ 1023) × ((status ≡ exitstatus) ⊎ ((status ≡ 1) × (ltb_ℤ re (pos 0) ≡ true)))
Ends exitstatus re text aborted = ⊥
Ends exitstatus re text fault = 1024 ≤ length text
Ends exitstatus re text unfinished = ⊥

-- `print_error` ends the process with the status that it is given, or with 1 where `vsprintf` fails; for a text of 1024
-- bytes or more it writes past the end of its buffer.
pub print_error_low-Ends :
    (file : List ℕ) (line : ℕ) (func : List ℕ) (exitstatus : ℕ) (who : List ℕ) (re : ℤ)
    (text : List ℕ)
    → Ends exitstatus re text (print_error_low file line func exitstatus who re text)
unfolding print_error_low printf_and_exit
print_error_low-Ends file line func exitstatus who re text =
    elim (Bool-cases (ltb (length text) 1024)) [
      | inl short ↦ rw short (elim (Bool-cases (ltb_ℤ re (pos 0))) [
        | inl failed ↦ rw failed (ground arith, inr (refl, failed))
        | inr written ↦ rw written (ground arith, inl refl)
      ])
      | inr long ↦ rw long (ground arith)
    ]
