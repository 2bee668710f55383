-- ===== src/Lhf/Dump/Reading.antt =====
-- The bytes that `hex_dump` prints, read back with `strtol`.
use serversidedev.Prelude.{
  ℕ, zero, suc, ◌+◌, ◌-◌, ◌%◌, ◌<◌, ◌≡◌, refl, ap, ◌∙◌, true, false, Bool-cases, inl, inr, List, [],
  ◌∷◌, ◌++◌, append_assoc, map, arith, length, ◌==◌, if◌then◌else◌,
}
use serversidedev.Prelude.Int.{ℤ, pos}
use serversidedev.Prelude.Outcome.{Outcome, ok, aborted, fault, unfinished, ◌>>=◌}
use serversidedev.Lhf.Strtol.{skip_spaces, skip_sign, read_digits, strtol, print_long}
use serversidedev.Lhf.Strtol.Digits.{read_digits-print_digits}
use serversidedev.Lhf.Strtol.Printing.{DigitFirst, digit_first, skip-digit, fits, strtol_lem}
use serversidedev.Lhf.Dump.{spaces, print_byte, gap, dump_from, hex_dump}

-- A reader of a dump: numbers as long as `strtol` finds one.
unfoldable pub read_numbers : ℕ → List ℕ → List ℤ
unfolding strtol
read_numbers zero text = []
read_numbers (suc fuel) text =
    let p = strtol text 0 in
    let more = read_numbers fuel p.rest in if p.at_start then [] else p.re ∷ more

-- Bytes.
abbrev pub Bytes : List ℕ → Type 0
Bytes [] = Unit
Bytes (b ∷ p) = (b < 256) × Bytes p

skip-spaces : (k : ℕ) (s : List ℕ) → skip_spaces (spaces k ++ s) ≡ skip_spaces s
unfolding skip_spaces
skip-spaces zero s = refl
skip-spaces (suc k) s = skip-spaces k s

-- A printed byte begins with a digit, and its digits are what `strtol` reads up to a space.
byte_digits :
    (b : ℕ) (tail : List ℕ)
    → b < 256
    → DigitFirst (print_long (pos b))
      × (read_digits 0 false (print_long (pos b) ++ (32 ∷ tail)) ≡ (b, true, 32 ∷ tail))
unfolding print_long read_digits
byte_digits b tail h = elim (Bool-cases (b == 0)) [
  | inl is_zero ↦ rw is_zero ((48, [], refl, refl), zero_read b is_zero)
  | inr some ↦ rw some (
    digit_first 19 b (ground arith) (omega arith),
    read_digits-print_digits 19 b false (32 ∷ tail) (omega arith) ∙ rw some (stops b),
  )
]
  where
    zero_read :
        (b : ℕ) → (b == 0) ≡ true → read_digits 0 false (48 ∷ 32 ∷ tail) ≡ (b, true, 32 ∷ tail)
    zero_read zero e = refl
    zero_read (suc b) e = absurd (ground arith)

    stops : (b : ℕ) → read_digits b true (32 ∷ tail) ≡ (b, true, 32 ∷ tail)
    stops b = refl

DigitFirst-append : (s t : List ℕ) → DigitFirst s → DigitFirst (s ++ t)
DigitFirst-append s t (c, cs, e, d) = (c, cs ++ t, ap (λ l. l ++ t) e, d)

-- What `strtol` makes of a printed byte, after any number of spaces.
strtol-print_byte :
    (k b : ℕ) (tail : List ℕ)
    → b < 256
    → strtol (spaces k ++ (print_byte b ++ tail)) 0
      ≡ record { re = pos b; at_start = false; rest = 32 ∷ tail; errno = 0 }
unfolding print_byte
strtol-print_byte k b tail h =
    strtol_lem (spaces k ++ (print_byte b ++ tail))
      (ap skip_sign (skipped k b tail)
        ∙ skip-digit (print_long (pos b) ++ (32 ∷ tail))
            (DigitFirst-append (print_long (pos b)) (32 ∷ tail) (byte_digits b tail h).0))
      (byte_digits b tail h).1 (fits b (omega arith))
  where
    skipped :
        (k b : ℕ) (tail : List ℕ)
        → skip_spaces (spaces k ++ (print_byte b ++ tail))
          ≡ skip_spaces (print_long (pos b) ++ (32 ∷ tail))
    skipped k b tail =
        skip-spaces k (print_byte b ++ tail)
        ∙ ap skip_spaces (
            append_assoc (spaces (3 - length (print_long (pos b))))
              (print_long (pos b) ++ (32 ∷ [])) tail)
        ∙ skip-spaces (3 - length (print_long (pos b))) ((print_long (pos b) ++ (32 ∷ [])) ++ tail)
        ∙ ap skip_spaces (append_assoc (print_long (pos b)) (32 ∷ []) tail)

-- What a reader makes of a text after any number of spaces.
abbrev ReadAs : List ℕ → List ℕ → Type 0
ReadAs p text = (k fuel : ℕ) → length p < fuel → read_numbers fuel (spaces k ++ text) ≡ map pos p

no_bytes : ReadAs [] (10 ∷ [])
unfolding read_numbers strtol read_digits skip_sign skip_spaces
no_bytes k zero h = absurd (omega arith)
no_bytes k (suc fuel) h = rw (skip-spaces k (10 ∷ [])) refl

gap-spaces : (s : List ℕ) (i : ℕ) → 32 ∷ (gap i ++ s) ≡ spaces (if i % 4 == 3 then 4 else 1) ++ s
gap-spaces s i = elim (Bool-cases (i % 4 == 3)) [
  | inl last ↦ rw last refl
  | inr more ↦ rw more refl
]

one_byte :
    (b i : ℕ) (p text : List ℕ)
    → b < 256
    → ReadAs p text
    → ReadAs (b ∷ p) (print_byte b ++ (gap i ++ text))
unfolding read_numbers
one_byte b i p text h read k zero lt = absurd (omega arith)
one_byte b i p text h read k (suc fuel) lt = rw (strtol-print_byte k b (gap i ++ text) h) (
    ap (λ l. pos b ∷ l)
      (ap (λ l. read_numbers fuel l) (gap-spaces text i)
        ∙ read (if i % 4 == 3 then 4 else 1) fuel (omega arith)))

-- The dump comes out, and is read as the bytes.
abbrev Dumped : List ℕ → Outcome (List ℕ) → Type 0
Dumped p (ok text) = ReadAs p text
Dumped p out = ⊥

dump_from-Dumped : (i : ℕ) (p : List ℕ) → Bytes p → Dumped p (dump_from (length p) i p)
unfolding dump_from
dump_from-Dumped i [] bytes = no_bytes
dump_from-Dumped i (b ∷ p) (small, bytes) =
    put (dump_from (length p) (i + 1) p) (dump_from-Dumped (i + 1) p bytes)
  where
    put :
        (out : Outcome (List ℕ))
        → Dumped p out
        → Dumped (b ∷ p) (out >>= (λ more. ok (print_byte b ++ (gap i ++ more))))
    put (ok text) read = one_byte b i p text small read
    put aborted read = absurd read
    put fault read = absurd read
    put unfinished read = absurd read

-- What `hex_dump` prints of a memory of bytes comes out, and is read back as these bytes by taking
-- a number with `strtol` as long as there is one.
pub hex_dump-Read :
    (p : List ℕ)
    → Bytes p
    → (text : List ℕ) × (hex_dump p (length p) ≡ ok text)
      × (read_numbers (length p + 1) text ≡ map pos p)
unfolding hex_dump
hex_dump-Read p bytes = comes (dump_from (length p) 0 p) (dump_from-Dumped 0 p bytes)
  where
    comes :
        (out : Outcome (List ℕ))
        → Dumped p out
        → (text : List ℕ) × (out ≡ ok text) × (read_numbers (length p + 1) text ≡ map pos p)
    comes (ok text) read = (text, refl, read 0 (length p + 1) (omega arith))
    comes aborted read = absurd read
    comes fault read = absurd read
    comes unfinished read = absurd read
