-- ===== src/Io/Echo.antt =====
-- `read_write`, `read_write_shutdown_if_read_eof` and `data_echo` of io/socketio.cpp. A result has the
-- return value, `eof` where it is a reference parameter, and the world after the call.
pub mod Forwarding
pub mod DataEcho
pub mod Even
use serversidedev.Prelude.{ℕ, zero, suc, List, ◌==◌, if◌then◌else◌}
use serversidedev.Prelude.Int.{ℤ, pos, negsuc, eq_ℤ, ltb_ℤ}
use serversidedev.Prelude.Outcome.{Outcome, ok, ◌>>=◌}
use serversidedev.Io.{System}
use serversidedev.Io.Write.{full_write}

abbrev pub max_line : ℕ
max_line = 1024

module _ {World : Type 0} (sys : System World) where
  -- After `re=read(fromfd,buff,sizeof(buff))`.
  unfoldable pub has_read : ℤ → List ℕ → World → ℤ → Outcome (ℕ × ℕ × World)
  has_read (negsuc n) buff w tofd = ok (1, 0, w)
  has_read (pos zero) buff w tofd = ok (0, 1, w)
  has_read (pos (suc n)) buff w tofd = do
    (re, w1) ← full_write sys w tofd buff
    ok (if re == 0 then 0 else 2, 0, w1)

  unfoldable pub read_write : World → ℤ → ℤ → Outcome (ℕ × ℕ × World)
  unfolding has_read
  read_write w fromfd tofd =
      let (re, buff, w1) = sys.read w fromfd max_line in has_read re buff w1 tofd

  -- `if(fromfd!=tofd){ ... }`
  unfoldable pub close_tofd : World → ℤ → ℤ → ℕ × World
  close_tofd w fromfd tofd =
      let (re, w1) = sys.close w tofd in
      if eq_ℤ fromfd tofd then (0, w) else (if ltb_ℤ re (pos 0) then 3 else 0, w1)

  -- `if(eof){ ... }`
  unfoldable pub close_both : World → ℤ → ℤ → ℕ × World
  unfolding close_tofd
  close_both w fromfd tofd =
      let (re, w1) = sys.close w fromfd in
      if ltb_ℤ re (pos 0) then (2, w1) else close_tofd w1 fromfd tofd

  -- What follows the call of `read_write`.
  unfoldable pub shutdown_if_read_eof : ℤ → ℤ → ℕ × ℕ × World → Outcome (ℕ × ℕ × World)
  unfolding close_both
  shutdown_if_read_eof fromfd tofd (re, eof, w) =
      let (closed, w1) = close_both w fromfd tofd in
      if re == 0
      then (if eof == 0 then ok (0, eof, w) else ok (closed, eof, w1))
      else ok (1, eof, w)

  unfoldable pub read_write_shutdown_if_read_eof : World → ℤ → ℤ → Outcome (ℕ × ℕ × World)
  unfolding read_write shutdown_if_read_eof
  read_write_shutdown_if_read_eof w fromfd tofd =
      read_write w fromfd tofd >>= shutdown_if_read_eof fromfd tofd

  unfoldable pub data_echo : World → ℤ → Outcome (ℕ × World)
  unfolding read_write_shutdown_if_read_eof
  data_echo w fd = do
    (re, eof, w1) ← read_write_shutdown_if_read_eof w fd fd
    ok (if re == 0 then 0 else 1, w1)
