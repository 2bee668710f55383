-- ===== src/Mystring/Values.antt =====
-- The values of `mystring` objects.
use serversidedev.Prelude.{
  ℕ, ◌<◌, ◌≡◌, ◌≢◌, refl, sym, ap, ◌∙◌, inl, inr, true, false, Option, none, some, List, length,
  ltb, ◌==◌, if◌then◌else◌, update, arith, Bool-cases,
}
use serversidedev.Prelude.Outcome.{Outcome, ok, aborted, fault, unfinished, ◌>>=◌}
use serversidedev.Mystring.{Memory, chars_at, allocate, release, delete_at, release_at, assign}

-- An object holds these characters, at least one, in a buffer that is its own; an empty one holds NULL.
abbrev pub HasChars : Memory → ℕ → List ℕ → Type 0
HasChars m o chars =
    (0 < length chars) × ((p : ℕ) × (m.data_of o ≡ some p) × (m.buffers p ≡ some chars))

abbrev pub IsEmpty : Memory → ℕ → Type 0
IsEmpty m o = m.data_of o ≡ none

abbrev pub Filled : Option (List ℕ) → Type 0
Filled none = ⊥
Filled (some chars) = 0 < length chars

-- Buffers in use are on the heap and hold a character at least, and no two objects share one.
pub record Separate (m : Memory) : Type 0 where
  pub allocated : (o p : ℕ) → m.data_of o ≡ some p → p < m.next
  pub filled : (o p : ℕ) → m.data_of o ≡ some p → Filled (m.buffers p)
  pub apart : (o o' p : ℕ) → m.data_of o ≡ some p → m.data_of o' ≡ some p → o ≡ o'

-- The objects but one are as they were.
pub record Keeps (m m' : Memory) (o : ℕ) : Type 0 where
  pub keeps_chars : (o' : ℕ) (chars : List ℕ) → o' ≢ o → HasChars m o' chars → HasChars m' o' chars
  pub keeps_empty : (o' : ℕ) → o' ≢ o → IsEmpty m o' → IsEmpty m' o'

pub Keeps-trans : {m m1 m2 : Memory} {o : ℕ} → Keeps m m1 o → Keeps m1 m2 o → Keeps m m2 o
Keeps-trans a b = record {
  keeps_chars = λ o' chars ne h. b.keeps_chars o' chars ne (a.keeps_chars o' chars ne h);
  keeps_empty = λ o' ne h. b.keeps_empty o' ne (a.keeps_empty o' ne h);
}

Filled-allocate :
    (buffers : ℕ → Option (List ℕ)) (new : ℕ) (chars : List ℕ) (p : ℕ)
    → 0 < length chars
    → (p ≢ new → Filled (buffers p))
    → Filled (update buffers new (some chars) p)
Filled-allocate buffers new chars p pos_length h = elim (Bool-cases (new == p)) [
  | inl here ↦ rw here pos_length
  | inr there ↦ rw there (h (λ e. ground arith))
]

pub allocate-Separate :
    (m : Memory) (o : ℕ) (chars : List ℕ)
    → 0 < length chars
    → Separate m
    → Separate (allocate m o chars)
unfolding allocate
allocate-Separate m o chars pos_length s = record {
  allocated = λ a p e. ground (arith, s.allocated a p);
  filled = λ a p e.
      Filled-allocate m.buffers m.next chars p pos_length (λ ne. s.filled a p (ground arith));
  apart = λ a b p e f. ground (arith, s.apart a b p, s.allocated a p, s.allocated b p);
}

pub allocate-HasChars :
    (m : Memory) (o : ℕ) (chars : List ℕ) → 0 < length chars → HasChars (allocate m o chars) o chars
unfolding allocate
allocate-HasChars m o chars pos_length = (pos_length, (m.next, ground arith, ground arith))

pub allocate-Keeps :
    (m : Memory) (o : ℕ) (chars : List ℕ) → Separate m → Keeps m (allocate m o chars) o
unfolding allocate
allocate-Keeps m o chars s = record {
  keeps_chars = λ o' left ne (pos_length, (p, e, f)).
      (pos_length, (p, ground (arith, e), ground (arith, s.allocated o' p e, f)));
  keeps_empty = λ o' ne e. ground arith;
}

Filled-delete :
    (buffers : ℕ → Option (List ℕ)) (p q : ℕ)
    → q ≢ p
    → Filled (buffers q)
    → Filled (update buffers p none q)
Filled-delete buffers p q ne h = rw other h
  where
    other : (p == q) ≡ false
    other = ground (arith, ne)

update_other :
    (buffers : ℕ → Option (List ℕ)) (p q : ℕ) → q ≢ p → update buffers p none q ≡ buffers q
update_other buffers p q ne = ground (arith, ne)

-- How a call comes out that leaves the object empty.
abbrev pub Emptied : Memory → ℕ → Outcome Memory → Type 0
Emptied m o (ok m') = Separate m' × IsEmpty m' o × Keeps m m' o
Emptied m o out = ⊥

-- How a call comes out that gives the object its characters.
abbrev pub Given : Memory → ℕ → List ℕ → Outcome Memory → Type 0
Given m o chars (ok m') = Separate m' × HasChars m' o chars × Keeps m m' o
Given m o chars out = ⊥

module _ (m : Memory) (o : ℕ) (s : Separate m) where
  not_shared : (p a q : ℕ) → m.data_of o ≡ some p → a ≢ o → m.data_of a ≡ some q → q ≢ p
  not_shared p a q e ne g same = ne (s.apart a o p (g ∙ ap (λ n. some n) same) e)

  still_owned : (a q : ℕ) → update m.data_of o none a ≡ some q → (a ≢ o) × (m.data_of a ≡ some q)
  still_owned a q g = (λ same. ground (arith, g, same), ground (arith, g))

  delete-Emptied :
      (p : ℕ) (b : Option (List ℕ))
      → m.data_of o ≡ some p
      → m.buffers p ≡ b
      → Filled b
      → Emptied m o (delete_at m o p b)
  delete-Emptied p none e f h = h
  delete-Emptied p (some chars) e f h = (
    record {
      allocated = λ a q g. ground (arith, s.allocated a q);
      filled = λ a q g.
          let (ne, owned) = still_owned a q g in
          Filled-delete m.buffers p q (not_shared p a q e ne owned) (s.filled a q owned);
      apart = λ a b q g k. ground (arith, s.apart a b q);
    },
    ground arith,
    record {
      keeps_chars = λ o' left ne (pos_length, (q, g, k)). (
        pos_length,
        (q, ground (arith, g), update_other m.buffers p q (not_shared p o' q e ne g) ∙ k),
      );
      keeps_empty = λ o' ne g. ground (arith, g);
    },
  )

  release_at-Emptied : (d : Option ℕ) → m.data_of o ≡ d → Emptied m o (release_at m o d)
  release_at-Emptied none e =
      (s, e, record { keeps_chars = λ o' chars ne h. h; keeps_empty = λ o' ne h. h })
  release_at-Emptied (some p) e = delete-Emptied p (m.buffers p) e refl (s.filled o p e)

  -- If buffers in use are on the heap and no two objects share one, the destructor's body succeeds, and
  -- leaves the object empty and the others as they were.
  pub release-Emptied : Emptied m o (release m o)
  unfolding release
  release-Emptied = release_at-Emptied (m.data_of o) refl

-- What follows when the old buffer has gone.
fill-Given :
    (m : Memory) (o source : ℕ) (chars : List ℕ) (out : Outcome Memory)
    → o ≢ source
    → HasChars m source chars
    → Emptied m o out
    → Given m o chars (
        out >>= λ m1. chars_at m1 (m1.data_of source) >>= λ read.
        ok (if ltb 0 (length read) then allocate m1 o read else m1))
fill-Given m o source chars (ok m1) ne has (s, empty, keeps) =
    let (pos_length, (p, e, f)) = keeps.keeps_chars source chars (λ same. ne (sym same)) has in
    rw e (
      rw f (
        rw (not_empty pos_length) (
          allocate-Separate m1 o chars pos_length s,
          allocate-HasChars m1 o chars pos_length,
          Keeps-trans keeps (allocate-Keeps m1 o chars s),
        )))
  where
    not_empty : 0 < length chars → ltb 0 (length chars) ≡ true
    not_empty h = ground arith
fill-Given m o source chars aborted ne has h = h
fill-Given m o source chars fault ne has h = h
fill-Given m o source chars unfinished ne has h = h

-- If buffers in use are on the heap and no two objects share one, assigning an object that is not empty
-- to another one succeeds, gives that one the same characters in a buffer of its own, leaves all other
-- objects as they were, and again no two objects share a buffer.
pub assign-Given :
    (m : Memory) (this source : ℕ) (chars : List ℕ)
    → Separate m
    → this ≢ source
    → HasChars m source chars
    → Given m this chars (assign m this source)
unfolding assign
assign-Given m this source chars s ne has =
    fill-Given m this source chars (release m this) ne has (release-Emptied m this s)
