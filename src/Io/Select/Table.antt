-- ===== src/Io/Select/Table.antt =====
-- The table of clients of the select server.

use serversidedev.Prelude.{
  ℕ, zero, suc, ◌+◌, ◌-◌, ◌≤◌, ◌<◌, ◌≡◌, refl, subst, ◌⊎◌, inl, inr, Bool, true, false, not, ◌&&◌,
  ◌||◌, Bool-cases, arith, leb, ◌==◌, if◌then◌else◌, update,
}
use serversidedev.Prelude.Int.{ℤ, pos, negsuc, ◌≤ℤ◌, ◌+ℤ◌, +ℤ_parts, eq_ℤ, ltb_ℤ}
use serversidedev.Prelude.FdOutcome.{FdOutcome, fine, outside}
use serversidedev.Prelude.Served.{Served, goes_on, exits}
use serversidedev.Io.Select.{
  max_fd_size, is_member, fd_set, fd_clr, Server, find_free, trim, add_client, remove_client,
  lower_maxi, server_start,
}

abbrev pub is_free : ℤ → Bool
is_free fd = eq_ℤ fd (negsuc 0)

-- `select` watches all that is registered, and the slots from `maxi+1` on are free.
pub record Kept {World : Type 0} (s : Server World) : Type 0 where
  pub watched : (d : ℤ) → s.allset d ≡ true → d ≤ℤ s.maxfd
  pub free_above : (i : ℕ) → s.maxi_next ≤ i → is_free (s.clifds i) ≡ true
  pub in_table : s.maxi_next ≤ max_fd_size

-- `maxi` is the last slot in use, or -1.
abbrev pub Tight : {World : Type 0} → Server World → Type 0
Tight s = (s.maxi_next ≡ 0) ⊎ (is_free (s.clifds (s.maxi_next - 1)) ≡ false)

pub find_free_bounded : (left i : ℕ) (clifds : ℕ → ℤ) → find_free left i clifds ≤ i + left
unfolding find_free
find_free_bounded zero i clifds = omega arith
find_free_bounded (suc left) i clifds = ground (arith, find_free_bounded left (i + 1) clifds)

pub trim_bounded : (m : ℕ) (clifds : ℕ → ℤ) → trim m clifds ≤ m
unfolding trim
trim_bounded zero clifds = omega arith
trim_bounded (suc m) clifds = ground (arith, trim_bounded m clifds)

-- The slots that `trim` passes are free.
pub trim-free :
    (m : ℕ) (clifds : ℕ → ℤ) (i : ℕ) → trim m clifds ≤ i → i < m → is_free (clifds i) ≡ true
unfolding trim
trim-free zero clifds i h lt = absurd (omega arith)
trim-free (suc m) clifds i h lt = ground (arith, trim-free m clifds i)

pub trim-used :
    (m : ℕ) (clifds : ℕ → ℤ) → (trim m clifds ≡ 0) ⊎ (is_free (clifds (trim m clifds - 1)) ≡ false)
unfolding trim
trim-used zero clifds = inl refl
trim-used (suc m) clifds = elim (Bool-cases (is_free (clifds m))) [
  | inl free ↦ rw free (trim-used m clifds)
  | inr used ↦ rw used (inr (subst (λ j. is_free (clifds j) ≡ false) (omega arith) used))
]

module _ {World : Type 0} (s : Server World) where
  pub lower_maxi-Kept : Kept s → Kept (lower_maxi s) × Tight (lower_maxi s)
  unfolding lower_maxi
  lower_maxi-Kept k = (
    record {
      watched = k.watched;
      free_above = λ i h. ground (arith, k.free_above i, trim-free s.maxi_next s.clifds i);
      in_table = omega (arith, k.in_table, trim_bounded s.maxi_next s.clifds);
    },
    trim-used s.maxi_next s.clifds,
  )

watched-add :
    (set : Bool) (d maxfd clifd : ℤ)
    → (set ≡ true → d ≤ℤ maxfd)
    → (eq_ℤ d clifd || set) ≡ true
    → d ≤ℤ (if ltb_ℤ maxfd clifd then clifd else maxfd)
watched-add true d maxfd clifd h e = let below = h refl in ground arith
watched-add false d maxfd clifd h e = ground arith

watched-remove :
    (set : Bool) (d maxfd fd : ℤ)
    → (set ≡ true → d ≤ℤ maxfd)
    → (not (eq_ℤ d fd) && set) ≡ true
    → d ≤ℤ (if eq_ℤ fd maxfd then maxfd +ℤ negsuc 0 else maxfd)
watched-remove true d maxfd fd h e = let below = h refl in ground (arith, +ℤ_parts maxfd (negsuc 0))
watched-remove false d maxfd fd h e = ground arith

-- `maxi+1` after slot `i` has been taken.
abbrev raised : ℕ → ℕ → ℕ
raised m i = if leb m i then i + 1 else m

pub free-add :
    (clifds : ℕ → ℤ) (m i j : ℕ) (clifd : ℤ)
    → (m ≤ j → is_free (clifds j) ≡ true)
    → raised m i ≤ j
    → is_free (update clifds i clifd j) ≡ true
free-add clifds m i j clifd h le = ground arith

pub table-add : (m i size : ℕ) → m ≤ size → i ≤ 0 + size → (i == size) ≡ false → raised m i ≤ size
table-add m i size h le ne = ground arith

pub used-add :
    (clifds : ℕ → ℤ) (m i : ℕ) (clifd : ℤ)
    → pos 0 ≤ℤ clifd
    → (m ≡ 0) ⊎ (is_free (clifds (m - 1)) ≡ false)
    → (raised m i ≡ 0) ⊎ (is_free (update clifds i clifd (raised m i - 1)) ≡ false)
used-add clifds m i clifd pos_fd tight = elim (Bool-cases (leb m i)) [
  | inl above ↦ rw above (inr (ground arith))
  | inr below ↦ rw below (ground arith)
]

-- What holds of the state when a part of the round is left in the normal way; otherwise an `FD_SET`, `FD_CLR`
-- or `FD_ISSET` has got a descriptor that is no member of an `fd_set`.
module _ {State : Type 0} (Holds : State → Type 0) where
  abbrev pub Gives : FdOutcome State → Type 0
  Gives (fine s) = Holds s
  Gives (outside fd) = is_member fd ≡ false

  abbrev pub Ends : FdOutcome (Served State) → Type 0
  Ends (fine (goes_on s)) = Holds s
  Ends (fine (exits exitstatus s)) = exitstatus ≡ 1
  Ends (outside fd) = is_member fd ≡ false

module _ {World : Type 0} (s : Server World) where
  pub remove_client-Kept : (i : ℕ) → Kept s → Gives Kept (remove_client s i)
  unfolding remove_client fd_clr
  remove_client-Kept i k = elim (Bool-cases (is_member (s.clifds i))) [
    | inl member ↦ rw member (record {
      watched = λ d h. watched-remove (s.allset d) d s.maxfd (s.clifds i) (k.watched d) h;
      free_above = λ j h. ground (arith, k.free_above j);
      in_table = k.in_table;
    })
    | inr other ↦ rw other other
  ]

  -- A new client leaves the last slot in use at the end of the table.
  pub add_client-Kept :
      (clifd : ℤ)
      → pos 0 ≤ℤ clifd
      → Kept s
      → Tight s
      → Gives (λ s'. Kept s' × Tight s') (add_client s clifd)
  unfolding add_client fd_set
  add_client-Kept clifd pos_fd k tight = elim (Bool-cases (is_member clifd)) [
    | inl member ↦ rw member (elim (Bool-cases (find_free max_fd_size 0 s.clifds == max_fd_size)) [
      | inl full ↦ rw full (
        record {
          watched = λ d h. watched-add (s.allset d) d s.maxfd clifd (k.watched d) h;
          free_above = k.free_above;
          in_table = k.in_table;
        },
        tight,
      )
      | inr found ↦ rw found (
        record {
          watched = λ d h. watched-add (s.allset d) d s.maxfd clifd (k.watched d) h;
          free_above = λ j h.
              free-add s.clifds s.maxi_next (find_free max_fd_size 0 s.clifds) j clifd
                (k.free_above j) h;
          in_table =
              table-add s.maxi_next (find_free max_fd_size 0 s.clifds) max_fd_size k.in_table
                (find_free_bounded max_fd_size 0 s.clifds) found;
        },
        used-add s.clifds s.maxi_next (find_free max_fd_size 0 s.clifds) clifd pos_fd tight,
      )
    ])
    | inr other ↦ rw other other
  ]

pub server_start-Kept :
    {World : Type 0} (svrfd : ℤ) (w : World) → Gives (λ s. Kept s × Tight s) (server_start svrfd w)
unfolding server_start fd_set
server_start-Kept svrfd w = elim (Bool-cases (is_member svrfd)) [
  | inl member ↦ rw member (
    record { watched = λ d h. ground arith; free_above = λ i h. refl; in_table = omega arith },
    inl refl,
  )
  | inr other ↦ rw other other
]
