-- ===== src/Lhf/Strtol/Exact.antt =====
-- The numbers that `strtol_on_error_exit` returns are those that the text denotes.
use serversidedev.Prelude.{
  ℕ, ◌+◌, ◌-◌, ◌*◌, ◌^◌, ◌≡◌, refl, ap, sym, subst, ◌∙◌, ◌⊎◌, Bool, true, false, not, ◌&&◌, ◌||◌,
  Bool-cases, inl, inr, List, [], ◌∷◌, ◌++◌, ltb, arith, ◌==◌,
}
use serversidedev.Prelude.Int.{ℤ, pos, sub_ℕ, ◌≤ℤ◌, eq_ℤ}
use serversidedev.Lhf.Strtol.{
  long_max, long_min, erange, is_space, is_digit, skip_spaces, skip_sign, read_digits, is_end,
  Parsed, to_long, strtol, Result, returns, fails, check_parsed, strtol_on_error_exit,
}

-- All characters are of a kind.
abbrev pub all_are : (ℕ → Bool) → List ℕ → Bool
all_are is_it [] = true
all_are is_it (c ∷ cs) = is_it c && all_are is_it cs

-- The value of digits behind digits of value `sum`, without a bound.
abbrev pub value_behind : ℕ → List ℕ → ℕ
value_behind sum [] = sum
value_behind sum (c ∷ cs) = value_behind (sum * 10 + (c - 48)) cs

abbrev pub signed : Bool → ℕ → ℤ
signed true value = sub_ℕ 0 value
signed false value = pos value

-- A minus sign, or a plus sign or none.
abbrev pub IsSign : Bool → List ℕ → Type 0
IsSign true sign = sign ≡ 45 ∷ []
IsSign false sign = (sign ≡ []) ⊎ (sign ≡ 43 ∷ [])

-- The number is that of the digits, with their sign, in front of `rest`.
abbrev pub Denotes : List ℕ → ℤ → List ℕ → Type 0
Denotes str re rest =
    (front : List ℕ) × (sign : List ℕ) × (digits : List ℕ) × (minus : Bool) × (str
      ≡ front ++ (sign ++ (digits ++ rest)))
    × (all_are is_space front ≡ true)
    × IsSign minus sign
    × (all_are is_digit digits ≡ true)
    × (is_end digits ≡ false)
    × (re ≡ signed minus (value_behind 0 digits))

-- What a result says of the text.
abbrev pub IsNumber : List ℕ → ℕ → Bool → Result → Type 0
IsNumber str errno fullmatch (returns re rest) =
    Denotes str re rest
    × (long_min ≤ℤ re)
    × (re ≤ℤ long_max)
    × ((not (errno == 0) && eq_ℤ re (pos 0)) ≡ false)
    × ((is_end rest || not fullmatch) ≡ true)
IsNumber str errno fullmatch fails = Unit

skip_spaces-front :
    (s : List ℕ) → (front : List ℕ) × (s ≡ front ++ skip_spaces s) × (all_are is_space front ≡ true)
unfolding skip_spaces
skip_spaces-front [] = ([], refl, refl)
skip_spaces-front (c ∷ cs) = elim (Bool-cases (is_space c)) [
  | inl space ↦
      let (front, e, spaces) = skip_spaces-front cs in
      rw space (c ∷ front, ap (λ l. c ∷ l) e, rw space spaces)
  | inr other ↦ rw other ([], refl, refl)
]

skip_sign-IsSign :
    (s : List ℕ) → (sign : List ℕ) × (s ≡ sign ++ (skip_sign s).1) × IsSign (skip_sign s).0 sign
unfolding skip_sign
skip_sign-IsSign [] = ([], refl, inl refl)
skip_sign-IsSign (c ∷ cs) = elim (Bool-cases (c == 45)) [
  | inl minus ↦ rw minus (45 ∷ [], ap (λ d. d ∷ cs) (ground arith), refl)
  | inr no_minus ↦ rw no_minus (elim (Bool-cases (c == 43)) [
    | inl plus ↦ rw plus (43 ∷ [], ap (λ d. d ∷ cs) (ground arith), inr refl)
    | inr no_plus ↦ rw no_plus ([], refl, inl refl)
  ])
]

read_digits-digits :
    (sum : ℕ) (any : Bool) (s : List ℕ)
    → (digits : List ℕ) × (s ≡ digits ++ (read_digits sum any s).2)
      × (all_are is_digit digits ≡ true)
      × ((read_digits sum any s).0 ≡ value_behind sum digits)
      × ((read_digits sum any s).1 ≡ (not (is_end digits) || any))
unfolding read_digits
read_digits-digits sum any [] = ([], refl, refl, refl, refl)
read_digits-digits sum any (c ∷ cs) = elim (Bool-cases (is_digit c)) [
  | inl digit ↦
      let (digits, e, all, value, some) = read_digits-digits (sum * 10 + (c - 48)) true cs in
      rw digit (c ∷ digits, ap (λ l. c ∷ l) e, rw digit all, value, some ∙ always (is_end digits))
  | inr other ↦ rw other ([], refl, refl, refl, refl)
]
  where
    always : (b : Bool) → (not b || true) ≡ true
    always true = refl
    always false = refl

-- A value that passes the test of the range has not been cut.
to_long-exact :
    (minus : Bool) (value errno : ℕ)
    → (((to_long minus value errno).1 == erange)
        && (eq_ℤ (to_long minus value errno).0 long_max
            || eq_ℤ (to_long minus value errno).0 long_min))
      ≡ false
    → ((to_long minus value errno).0 ≡ signed minus value)
      × ((to_long minus value errno).1 ≡ errno)
      × (long_min ≤ℤ (to_long minus value errno).0)
      × ((to_long minus value errno).0 ≤ℤ long_max)
unfolding to_long
to_long-exact true value errno h = elim (Bool-cases (ltb (2 ^ 63) value)) [
  | inl cut ↦ rw cut (absurd (ground (arith, h, cut)))
  | inr fits ↦ rw fits (refl, refl, ground arith, ground arith)
]
to_long-exact false value errno h = elim (Bool-cases (ltb (2 ^ 63 - 1) value)) [
  | inl cut ↦ rw cut (absurd (ground (arith, h, cut)))
  | inr fits ↦ rw fits (refl, refl, ground arith, ground arith)
]

-- It fails, or the number has passed all the tests.
check_parsed-cases :
    (p : Parsed) (fullmatch : Bool)
    → (check_parsed p fullmatch ≡ fails)
      ⊎ ((check_parsed p fullmatch ≡ returns p.re p.rest)
          × (((p.errno == erange) && (eq_ℤ p.re long_max || eq_ℤ p.re long_min)) ≡ false)
          × ((not (p.errno == 0) && eq_ℤ p.re (pos 0)) ≡ false)
          × (p.at_start ≡ false)
          × ((is_end p.rest || not fullmatch) ≡ true))
unfolding check_parsed
check_parsed-cases p fullmatch =
    elim (Bool-cases ((p.errno == erange) && (eq_ℤ p.re long_max || eq_ℤ p.re long_min))) [
      | inl cut ↦ rw cut (inl refl)
      | inr whole ↦ rw whole (elim (Bool-cases (not (p.errno == 0) && eq_ℤ p.re (pos 0))) [
        | inl unknown ↦ rw unknown (inl refl)
        | inr known ↦ rw known (elim (Bool-cases p.at_start) [
          | inl no_digits ↦ rw no_digits (inl refl)
          | inr digits ↦ rw digits (elim (Bool-cases (not (is_end p.rest) && fullmatch)) [
            | inl more ↦ rw more (inl refl)
            | inr done ↦
                rw done (inr (refl, refl, refl, refl, no_rest (is_end p.rest) fullmatch done))
          ])
        ])
      ])
    ]
  where
    no_rest :
        (at_end fullmatch : Bool)
        → (not at_end && fullmatch) ≡ false
        → (at_end || not fullmatch) ≡ true
    no_rest true fullmatch h = refl
    no_rest false true h = cc
    no_rest false false h = refl

-- The text in its four parts.
parts :
    (str : List ℕ)
    → let (minus, tail) = skip_sign (skip_spaces str) in
      let (value, any, rest) = read_digits 0 false tail in
      any ≡ true → Denotes str (signed minus value) rest
parts str some =
    let tail = (skip_sign (skip_spaces str)).1 in
    let (front, e, spaces) = skip_spaces-front str in
    let (sign, e1, is_sign) = skip_sign-IsSign (skip_spaces str) in
    let (digits, e2, all, value, any) = read_digits-digits 0 false tail in
    let minus = (skip_sign (skip_spaces str)).0 in
    (
      front,
      sign,
      digits,
      minus,
      e ∙ ap (λ l. front ++ l) (e1 ∙ ap (λ l. sign ++ l) e2),
      spaces,
      is_sign,
      all,
      filled (is_end digits) (sym any ∙ some),
      ap (λ n. signed minus n) value,
    )
  where
    filled : (b : Bool) → (not b || false) ≡ true → b ≡ false
    filled true h = cc
    filled false h = refl

-- Whatever the text and `errno`, if `strtol_on_error_exit` in base 10 returns, its text is spaces,
-- a sign or none, one digit or more, and the rest that it gives back; the number is exactly that
-- of the digits with the sign, and fits into a `long`; with an `errno` other than 0 it is not 0;
-- and with `fullmatch` the rest is empty.
pub strtol_on_error_exit-IsNumber :
    (str : List ℕ) (errno : ℕ) (fullmatch : Bool)
    → IsNumber str errno fullmatch (strtol_on_error_exit str errno fullmatch)
unfolding strtol_on_error_exit strtol
strtol_on_error_exit-IsNumber str errno fullmatch =
    let (minus, tail) = skip_sign (skip_spaces str) in
    let (value, any, rest) = read_digits 0 false tail in
    elim (Bool-cases any) [
      | inr none_there ↦ rw none_there (
          let p : Parsed = record { re = pos 0; at_start = true; rest = str; errno = errno } in
          elim (check_parsed-cases p fullmatch) [
            | inl failed ↦ rw failed tt
            | inr (is, whole, known, digits, at_end) ↦ absurd cc
          ])
      | inl some ↦ rw some (
          let (re, errno1) = to_long minus value errno in
          elim (check_parsed-cases
            (record { re = re; at_start = false; rest = rest; errno = errno1 }) fullmatch) [
              | inl failed ↦ rw failed tt
              | inr (is, whole, known, digits, at_end) ↦
                  let (exact, same, low, high) = to_long-exact minus value errno whole in
                  rw is (
                    subst (λ n. Denotes str n rest) (sym exact) (parts str some),
                    low,
                    high,
                    subst (λ e. (not (e == 0) && eq_ℤ re (pos 0)) ≡ false) same known,
                    at_end,
                  )
            ])
    ]
