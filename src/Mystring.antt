-- ===== src/Mystring.antt =====
-- The class `mystring` of my_string.cpp.
pub mod Values
pub mod Plus
mod Main
mod Tests
use serversidedev.Prelude.{
  ℕ, suc, ◌+◌, Bool, true, false, ◌&&◌, Option, none, some, List, [], ◌∷◌, ◌++◌, length, ltb, ◌==◌,
  if◌then◌else◌, update,
}
use serversidedev.Prelude.Outcome.{Outcome, ok, fault, ◌>>=◌}

-- `data` of each object, and the buffers on the heap: the characters before the terminator, or `none`
-- where nothing is allocated. `next` is the address that `new` returns next.
pub record Memory : Type 0 where
  pub data_of : ℕ → Option ℕ
  pub buffers : ℕ → Option (List ℕ)
  pub next : ℕ

-- A buffer, where one is allocated.
abbrev pub existing : Option (List ℕ) → Outcome (List ℕ)
existing none = fault
existing (some chars) = ok chars

-- What a C string function reads at a pointer.
abbrev pub chars_at : Memory → Option ℕ → Outcome (List ℕ)
chars_at m none = fault
chars_at m (some p) = existing (m.buffers p)

-- `data=new char[len+1]` with its characters.
unfoldable pub allocate : Memory → ℕ → List ℕ → Memory
allocate m this chars = record {
  data_of = update m.data_of this (some m.next);
  buffers = update m.buffers m.next (some chars);
  next = m.next + 1;
}

abbrev pub set_null : Memory → ℕ → Memory
set_null m this = record m { data_of = update m.data_of this none }

-- `mystring()`
unfoldable pub construct : Memory → ℕ → Memory
construct m this = set_null m this

-- `mystring(const char* _data)`
unfoldable pub construct_from : Memory → ℕ → List ℕ → Memory
unfolding allocate
construct_from m this chars =
    if ltb 0 (length chars) then allocate (set_null m this) this chars else set_null m this

-- `delete data; data=NULL;`, of a buffer that exists.
abbrev pub delete_at : Memory → ℕ → ℕ → Option (List ℕ) → Outcome Memory
delete_at m this p none = fault
delete_at m this p (some chars) =
    ok (record m { data_of = update m.data_of this none; buffers = update m.buffers p none })

-- `if(data!=NULL){ delete data; data=NULL; }`
abbrev pub release_at : Memory → ℕ → Option ℕ → Outcome Memory
release_at m this none = ok m
release_at m this (some p) = delete_at m this p (m.buffers p)

-- `~mystring()`
unfoldable pub release : Memory → ℕ → Outcome Memory
release m this = release_at m this (m.data_of this)

-- `length()`
unfoldable pub str_length : Memory → ℕ → Outcome ℕ
str_length m this = chars_at m (m.data_of this) >>= λ chars. ok (length chars)

-- `mystring(const mystring& in)`. With an empty `in` the member is left as it was found.
unfoldable pub copy_construct : Memory → ℕ → ℕ → Outcome Memory
unfolding allocate
copy_construct m this source = do
  chars ← chars_at m (m.data_of source)
  ok (if ltb 0 (length chars) then allocate m this chars else m)

-- `operator=`
unfoldable pub assign : Memory → ℕ → ℕ → Outcome Memory
unfolding release allocate
assign m this source = do
  m1 ← release m this
  chars ← chars_at m1 (m1.data_of source)
  ok (if ltb 0 (length chars) then allocate m1 this chars else m1)

abbrev pub same_chars : List ℕ → List ℕ → Bool
same_chars [] [] = true
same_chars [] (y ∷ ys) = false
same_chars (x ∷ xs) [] = false
same_chars (x ∷ xs) (y ∷ ys) = x == y && same_chars xs ys

-- `operator==`
unfoldable pub equals : Memory → ℕ → ℕ → Outcome Bool
equals m this other = do
  a ← chars_at m (m.data_of this)
  b ← chars_at m (m.data_of other)
  ok (same_chars a b)

-- The three cases of `operator+`, by the two pointers.
unfoldable pub plus_at : Memory → ℕ → ℕ → ℕ → Option ℕ → Option ℕ → Outcome Memory
unfolding assign allocate
plus_at m this other re none q = assign m re other
plus_at m this other re (some p) none = assign m re this
plus_at m this other re (some p) (some q) = do
  a ← chars_at m (some p)
  b ← chars_at m (some q)
  ok (allocate m re (a ++ b))

-- `operator+`, whose result is the object `re`.
unfoldable pub plus : Memory → ℕ → ℕ → ℕ → Outcome Memory
unfolding construct plus_at
plus m this other re = plus_at (construct m re) this other re (m.data_of this) (m.data_of other)
