-- ===== src/Lhf/Dump/Addresses.antt =====
-- What `dump_sockaddr` makes of an IPv4 address.
use serversidedev.Prelude.{
  ℕ, ◌≤◌, ◌<◌, ◌≡◌, ◌+◌, ◌++◌, refl, Option, none, some, List, [], ◌∷◌, length, arith,
}
use serversidedev.Prelude.Int.{pos}
use serversidedev.Prelude.CString.{codes}
use serversidedev.Lhf.Strtol.{print_long}
use serversidedev.Lhf.Dump.{
  Printing, inet, af_inet, call_line, field_line, dump_fields, dump_sockaddr,
}

-- What POSIX says of `inet_ntop`: the text and its 0 fit into the buffer, and an IPv4 address has four numbers and three dots.
pub record Laws (printing : Printing) : Type 0 where
  pub ntop_fits :
      (family : ℕ) (addr : List ℕ) (size : ℕ) (text : List ℕ)
      → printing.inet_ntop family addr size ≡ some text
      → length text < size
  pub ntop_dotted :
      (addr : List ℕ) (size : ℕ) (text : List ℕ)
      → printing.inet_ntop af_inet addr size ≡ some text
      → 7 ≤ length text

module _ (printing : Printing) (laws : Laws printing) where
  never :
      (addr : List ℕ) (text : Option (List ℕ))
      → printing.inet_ntop af_inet addr 4 ≡ text
      → printing.inet_ntop af_inet addr 4 ≡ none
  never addr none e = e
  never addr (some text) e =
      absurd (omega (arith, laws.ntop_fits af_inet addr 4 text e, laws.ntop_dotted addr 4 text e))

  -- If the calls keep to their laws, `dump_sockaddr` prints "(null)" for any IPv4 address.
  pub dump_sockaddr-inet :
      (calltimes : ℕ) (prefix : List ℕ) (address sin_port : ℕ) (sin_addr : List ℕ)
      → dump_sockaddr printing calltimes prefix address (inet sin_port sin_addr) ≡ (
        calltimes + 1,
        call_line printing (calltimes + 1) address
            ++ (field_line prefix
                  (codes "sin_family")
                  (print_long (pos af_inet) ++ codes "(AF_INET)")
                ++ field_line prefix (codes "sin_port") (print_long (pos sin_port))
                ++ field_line prefix (codes "sin_addr") (codes "(null)" ++ (10 ∷ []))),
      )
  unfolding dump_sockaddr dump_fields
  dump_sockaddr-inet calltimes prefix address sin_port sin_addr =
      rw (never sin_addr (printing.inet_ntop af_inet sin_addr 4) refl) refl
