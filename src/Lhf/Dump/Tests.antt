-- ===== src/Lhf/Dump/Tests.antt =====
-- Dumps of small memories, and the theorems at them.
use serversidedev.Prelude.{ℕ, ◌≡◌, refl, List, [], ◌∷◌, arith}
use serversidedev.Prelude.Int.{pos}
use serversidedev.Prelude.CString.{codes}
use serversidedev.Prelude.Outcome.{ok, fault}
use serversidedev.Lhf.Strtol.{print_long, print_digits}
use serversidedev.Lhf.Dump.{print_byte, dump_from, hex_dump}
use serversidedev.Lhf.Dump.Reading.{read_numbers, hex_dump-Read}

five_bytes : hex_dump (2 ∷ 0 ∷ 97 ∷ 168 ∷ 127 ∷ []) 5 ≡ ok (codes "  2   0  97 168    127 \n")
unfolding hex_dump dump_from print_byte print_long print_digits
five_bytes = refl

-- One byte too many.
past_the_end : hex_dump (2 ∷ []) 2 ≡ fault
unfolding hex_dump dump_from
past_the_end = refl

hex_dump-Read_example :
    (text : List ℕ) × (hex_dump (0 ∷ 255 ∷ []) 2 ≡ ok text)
    × (read_numbers 3 text ≡ pos 0 ∷ pos 255 ∷ [])
hex_dump-Read_example = hex_dump-Read (0 ∷ 255 ∷ []) (omega arith, (omega arith, tt))
