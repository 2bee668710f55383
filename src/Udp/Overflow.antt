-- ===== src/Udp/Overflow.antt =====
-- `main` of css_udp_overflow.cpp and csc_udp_overflow.cpp; the argument of the first is read by `strtol_on_error_exit`.
use serversidedev.Prelude.{
  ℕ, suc, ◌-◌, ◌*◌, ◌/◌, ◌++◌, ◌%◌, ◌^◌, ◌<◌, ◌≡◌, refl, ap, ◌∙◌, true, Bool-cases, false, inl, inr,
  Option, none, some, List, [], ltb, leb, if◌then◌else◌, arith,
}
use serversidedev.Prelude.Int.{int_of, ℤ, pos, negsuc, sub_ℕ, ltb_ℤ}
use serversidedev.Prelude.Outcome.{Outcome, ok, fault, ◌>>=◌}
use serversidedev.Prelude.Served.{Served, goes_on, exits}
use serversidedev.Prelude.CString.{codes}
use serversidedev.Lhf.Log.{str_equal, printf_log_low}
use serversidedev.Lhf.Strtol.{
  Result, returns, fails, strtol_on_error_exit, print_long, print_digits,
}
use serversidedev.Lhf.Strtol.Printing.{strtol_on_error_exit-print_long}
use serversidedev.Udp.{Addr, System, count_msgs, send_msgs}

-- `n*=1400`. An `int` must not overflow.
unfoldable times_1400 : ℤ → Outcome ℤ
times_1400 (pos n) = if ltb (n * 1400) (2 ^ 31) then ok (pos (n * 1400)) else fault
times_1400 (negsuc n) =
    if leb (suc n * 1400) (2 ^ 31) then ok (negsuc (suc n * 1400 - 1)) else fault

-- `n` with what `strtol_on_error_exit` makes of the argument.
unfoldable size_of : Result → Outcome (Served ℤ)
unfolding int_of times_1400
size_of (returns re rest) = times_1400 (int_of re) >>= (λ n. ok (goes_on n))
size_of fails = ok (exits 1 (pos 0))

-- `n` with the argument, if there is one; before `print_error` it is 0.
unfoldable rcvbuf_size : Option (List ℕ) → ℕ → Outcome (Served ℤ)
unfolding size_of
rcvbuf_size none errno = ok (goes_on (pos (30 * 1400)))
rcvbuf_size (some arg) errno = size_of (strtol_on_error_exit arg errno true)

-- `setsockopt` of SO_RCVBUF.
record Buffering (World : Type 0) : Type 0 where
  setsockopt : World → ℤ → ℤ → ℤ × World

module _ {World : Type 0} (sys : System World) (buffering : Buffering World) where
  -- From `setsockopt` on, for a number of rounds.
  unfoldable count_from : ℕ → World → ℤ → Served ℤ → Served (ℕ × World)
  unfolding count_msgs
  count_from rounds w srvfd (goes_on n) =
      let (re, w1) = buffering.setsockopt w srvfd n in
      if ltb_ℤ re (pos 0) then exits 1 (0, w1) else count_msgs sys rounds srvfd (0, w1)
  count_from rounds w srvfd (exits exitstatus n) = exits exitstatus (0, w)

  -- `main` of css_udp_overflow.cpp; `errno` is what the calls before have left.
  unfoldable count_main : ℕ → Option (List ℕ) → ℕ → World → Outcome (Served (ℕ × World))
  unfolding rcvbuf_size count_from
  count_main rounds arg errno w =
      let (srvfd, w1) = sys.socket w in
      let (re, w2) = sys.bind w1 srvfd 25000 in
      if ltb_ℤ srvfd (pos 0)
      then ok (exits 1 (0, w1))
      else if ltb_ℤ re (pos 0)
      then ok (exits 1 (0, w2))
      else (rcvbuf_size arg errno >>= (λ n. ok (count_from rounds w2 srvfd n)))

-- `n/1400` of an `int`, towards 0.
abbrev div_1400 : ℤ → ℤ
div_1400 (pos n) = pos (n / 1400)
div_1400 (negsuc n) = sub_ℕ 0 (suc n / 1400)

-- `print_msg_cout`, the handler of SIGINT.
unfoldable print_msg_cout : ℤ → ℕ → Served (List ℕ)
unfolding printf_log_low
print_msg_cout n cout = exits 0 (
    printf_log_low false [] 0 [] (codes "info")
      (codes "setsockopt:" ++ print_long (div_1400 n) ++ codes "*1400\n")
    ++ printf_log_low false [] 0 [] (codes "info")
        (codes "server received " ++ print_long (pos cout) ++ codes " msg\n"))

count_printed :
    print_msg_cout (pos 42000) 7
    ≡ exits 0 (codes "info setsockopt:30*1400\ninfo server received 7 msg\n")
unfolding print_msg_cout print_long print_digits str_equal
count_printed = refl

module _ {World : Type 0} (sys : System World) where
  -- `main` of csc_udp_overflow.cpp. `buff` has not been set.
  unfoldable send_main : World → List ℕ → Addr → Served World
  unfolding send_msgs
  send_main w buff srvaddr =
      let (srvfd, w1) = sys.socket w in
      if ltb_ℤ srvfd (pos 0) then exits 1 w1 else send_msgs sys 1000 w1 srvfd buff srvaddr

size_of_int :
    (n : ℕ)
    → n < 2 ^ 31
    → size_of (returns (pos n) [])
      ≡ (if ltb (n * 1400) (2 ^ 31) then ok (goes_on (pos (n * 1400))) else fault)
unfolding size_of int_of times_1400
size_of_int n h = rw (same n h) (
    rw (fits n h) (elim (Bool-cases (ltb (n * 1400) (2 ^ 31))) [
      | inl small ↦ rw small refl
      | inr large ↦ rw large refl
    ]))
  where
    same : (n : ℕ) → n < 2 ^ 31 → n % 2 ^ 32 ≡ n
    same n h = omega arith

    fits : (n : ℕ) → n < 2 ^ 31 → ltb n (2 ^ 31) ≡ true
    fits n h = ground arith

-- For a printed number that an `int` holds, the size is 1400 times the number, if an `int` holds that; if not, the behaviour is undefined.
rcvbuf_size-print_long :
    (n : ℕ)
    → n < 2 ^ 31
    → rcvbuf_size (some (print_long (pos n))) 0
      ≡ (if ltb (n * 1400) (2 ^ 31) then ok (goes_on (pos (n * 1400))) else fault)
unfolding rcvbuf_size
rcvbuf_size-print_long n h =
    ap size_of (strtol_on_error_exit-print_long (pos n) true (omega arith) (omega arith))
    ∙ size_of_int n h
