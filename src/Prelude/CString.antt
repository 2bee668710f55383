-- ===== src/Prelude/CString.antt =====
-- C strings: the bytes of a buffer before its first 0.
use Prim.Native.Nat.{ℕ, zero, suc}
use Prim.Native.Char.{code}
use Prim.Native.String.{String}
use mathlib.Core.Path.{◌≡◌, refl}
use mathlib.Core.Bool.{false}
use mathlib.Core.List.{List, [], ◌∷◌, ◌++◌}
use serversidedev.Prelude.Lists.{take, drop}
use serversidedev.Prelude.Outcome.{Outcome, ok, fault, ◌>>=◌}
use serversidedev.Prelude.Tests.{◌==◌, if◌then◌else◌}

-- Without a 0 a C function reads past the end.
unfoldable pub c_string : List ℕ → Outcome (List ℕ)
c_string [] = fault
c_string (b ∷ bs) = let rest = c_string bs in if b == 0 then ok [] else (rest >>= (λ s. ok (b ∷ s)))

-- A text has no 0.
abbrev pub Text : List ℕ → Type 0
Text [] = Unit
Text (b ∷ bs) = ((b == 0) ≡ false) × Text bs

pub c_string-Text : (s rest : List ℕ) → Text s → c_string (s ++ (0 ∷ rest)) ≡ ok s
unfolding c_string
c_string-Text [] rest t = refl
c_string-Text (b ∷ bs) rest (nonzero, t) = rw nonzero (rw (c_string-Text bs rest t) refl)

-- A buffer that a text fills has no end.
pub c_string-fault : (s : List ℕ) → Text s → c_string s ≡ fault
unfolding c_string
c_string-fault [] t = refl
c_string-fault (b ∷ bs) (nonzero, t) = rw nonzero (rw (c_string-fault bs t) refl)

pub Text-take : (k : ℕ) (s : List ℕ) → Text s → Text (take k s)
Text-take zero s t = tt
Text-take (suc k) [] t = tt
Text-take (suc k) (b ∷ bs) (nonzero, t) = (nonzero, Text-take k bs t)

pub Text-drop : (k : ℕ) (s : List ℕ) → Text s → Text (drop k s)
Text-drop zero s t = t
Text-drop (suc k) [] t = tt
Text-drop (suc k) (b ∷ bs) (nonzero, t) = Text-drop k bs t

-- The bytes of a literal.
abbrev pub codes : String → List ℕ
codes String.[] = []
codes (String.◌∷◌ c s) = code c ∷ codes s

-- Lines, put out one after the other.
abbrev pub concat : List (List ℕ) → List ℕ
concat [] = []
concat (line ∷ lines) = line ++ concat lines
