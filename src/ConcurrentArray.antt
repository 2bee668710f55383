-- ===== src/ConcurrentArray.antt =====
-- `concurrent_array<T>` of pthread/concurrent_array.cpp: a ring of pointers shared by producers and
-- consumers. Its methods are sealed here; the modules below say what a client may know of them.
pub mod Queue
pub mod Destroy
pub mod Threads
mod Tests
use serversidedev.Prelude.{
  ℕ, ◌+◌, ◌%◌, ◌≡◌, Bool, true, false, ◌&&◌, not, Option, none, some, ◌==◌, if◌then◌else◌, update,
}

-- The fields of the class. A pointer is `none` for NULL, and else the value that it points to: the
-- program never keeps two pointers to one value. `buff` is read below `size` only.
pub record ConcurrentArray : Type 0 where
  pub buff : ℕ → Option ℕ
  pub size : ℕ
  pub pindex : ℕ
  pub cindex : ℕ

-- The constructor: `memset` clears every pointer.
pub init : ℕ → ConcurrentArray
init n = record { buff = λ _. none; size = n; pindex = 0; cindex = 0 }

abbrev pub is_null : Option ℕ → Bool
is_null none = true
is_null (some t) = false

pub is_full : ConcurrentArray → Bool
is_full ca = ca.pindex == ca.cindex && not (is_null (ca.buff 0))

pub is_empty : ConcurrentArray → Bool
is_empty ca = ca.pindex == ca.cindex && is_null (ca.buff 0)

-- What one pass of `append` through its lock comes to.
pub data Appended : Type 0 where
  rejected : Appended  -- the argument is NULL: -1 is returned, and the lock is not taken
  waits : Appended  -- full: the thread goes to sleep on `consume_cond`
  aborts : Appended  -- `assert(buff[pos]==NULL)` fails
  stored : (pos : ℕ) → ConcurrentArray → Appended

-- `buff[pos]=t; pindex=(pindex+1)%size;`
pub store : ConcurrentArray → ℕ → ConcurrentArray
store ca t = record ca {
  buff = update ca.buff ca.pindex (some t);
  pindex = (ca.pindex + 1) % ca.size;
}

pub append : ConcurrentArray → Option ℕ → Appended
append ca none = rejected
append ca (some t) =
    if is_full ca
    then waits
    else if is_null (ca.buff ca.pindex)
    then stored ca.pindex (store ca t)
    else aborts

-- What one pass of `get` through its lock comes to. The pointer may be NULL for all that the code
-- of `get` says.
pub data Got : Type 0 where
  waits : Got  -- empty: the thread goes to sleep on `produce_cond`
  took : Option ℕ → ConcurrentArray → Got

-- `buff[cindex]=NULL; cindex=(cindex+1)%size;`
pub clear : ConcurrentArray → ConcurrentArray
clear ca = record ca { buff = update ca.buff ca.cindex none; cindex = (ca.cindex + 1) % ca.size }

pub get : ConcurrentArray → Got
get ca = if is_empty ca then Got.waits else took (ca.buff ca.cindex) (clear ca)
