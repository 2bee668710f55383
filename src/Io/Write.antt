-- ===== src/Io/Write.antt =====
-- `full_write` and `date_echo` of lib/lhf.cpp.
pub mod Delivery
use serversidedev.Prelude.{
  ℕ, zero, suc, ◌+◌, ◌<◌, List, length, drop, ltb, leb, ◌==◌, if◌then◌else◌,
}
use serversidedev.Prelude.Int.{ℤ, pos, negsuc, pos_part}
use serversidedev.Prelude.Outcome.{Outcome, ok, unfinished, ◌>>◌, ◌>>=◌, assert}
use serversidedev.Io.{System}

module _ {World : Type 0} where
  -- After a `write` of `buff` that returned the number; `rest` is the next round of the loop.
  unfoldable pub wrote : ℤ → World → List ℕ → Outcome (ℕ × World) → Outcome (ℕ × World)
  wrote (negsuc n) w buff rest = ok (1, w)
  wrote (pos zero) w buff rest = assert (length buff == 0) >> ok (0, w)
  wrote (pos (suc n)) w buff rest =
      assert (leb (suc n) (length buff)) >> (if ltb (suc n) (length buff) then rest else ok (0, w))

module _ {World : Type 0} (sys : System World) where
  -- `buff` is what is left: from `pbuff`, `len` bytes.
  unfoldable pub full_write_loop : ℕ → World → ℤ → List ℕ → Outcome (ℕ × World)
  unfolding wrote
  full_write_loop zero w fd buff = unfinished
  full_write_loop (suc fuel) w fd buff =
      let (re, w1) = sys.write w fd buff in
      let rest = full_write_loop fuel w1 fd (drop (pos_part re) buff) in wrote re w1 buff rest

  -- Each round but the last writes a byte at least.
  unfoldable pub full_write : World → ℤ → List ℕ → Outcome (ℕ × World)
  unfolding full_write_loop
  full_write w fd buff = full_write_loop (length buff + 1) w fd buff

  -- `date_echo`; `date` is the text that `snprintf` makes of that of `ctime`.
  unfoldable pub date_echo : World → ℤ → (date : List ℕ) → Outcome (ℕ × World)
  unfolding full_write
  date_echo w fd date =
      full_write w fd date >>= (λ done. ok ((if done.0 == 0 then 0 else 1), done.1))
