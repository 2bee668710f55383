-- ===== src/Lhf/Dump.antt =====
-- `hex_dump`, `dump_sockaddr` and `dump_addrinfo` of lib/lhf.cpp: what they print.
pub mod Reading
pub mod Addresses
mod Tests
use serversidedev.Prelude.{
  ℕ, zero, suc, ◌+◌, ◌-◌, ◌%◌, Option, none, some, List, [], ◌∷◌, ◌++◌, length, take, ◌==◌,
  if◌then◌else◌,
}
use serversidedev.Prelude.Int.{ℤ, pos}
use serversidedev.Prelude.CString.{codes}
use serversidedev.Prelude.Outcome.{Outcome, ok, fault, ◌>>=◌}
use serversidedev.Lhf.Strtol.{print_long}

abbrev pub spaces : ℕ → List ℕ
spaces zero = []
spaces (suc n) = 32 ∷ spaces n

-- `%3d ` of a byte.
unfoldable pub print_byte : ℕ → List ℕ
print_byte b = spaces (3 - length (print_long (pos b))) ++ (print_long (pos b) ++ (32 ∷ []))

-- A gap after each `sizeof(int)` bytes.
abbrev pub gap : ℕ → List ℕ
gap i = if i % 4 == 3 then spaces 3 else []

-- The loop from byte `i`, for the bytes that are left; `p` is the memory from there on.
unfoldable pub dump_from : (left i : ℕ) → List ℕ → Outcome (List ℕ)
unfolding print_byte
dump_from zero i p = ok (10 ∷ [])
dump_from (suc left) i [] = fault
dump_from (suc left) i (b ∷ p) =
    dump_from left (i + 1) p >>= (λ more. ok (print_byte b ++ (gap i ++ more)))

unfoldable pub hex_dump : List ℕ → ℕ → Outcome (List ℕ)
unfolding dump_from
hex_dump vp n = dump_from n 0 vp

-- A `struct sockaddr` by its family; a port is what `ntohs` gives.
pub data SockAddr : Type 0 where
  inet : (sin_port : ℕ) (sin_addr : List ℕ) → SockAddr
  inet6 : (sin6_port sin6_flowinfo : ℕ) (sin6_addr : List ℕ) (sin6_scope_id : ℕ) → SockAddr
  other : (sa_family : ℕ) → SockAddr

abbrev pub af_inet : ℕ
af_inet = 2

abbrev pub af_inet6 : ℕ
af_inet6 = 10

-- What the output takes from the process: its id, and the text that `%p` makes of an address; and `inet_ntop`, which
-- gets the family, the address and the size of the buffer, with `none` for NULL.
pub record Printing : Type 0 where
  pub getpid : ℕ
  pub pointer : ℕ → List ℕ
  pub inet_ntop : ℕ → List ℕ → ℕ → Option (List ℕ)

-- `"%s%-15s %d\n"` and its like.
abbrev pub field_line : List ℕ → List ℕ → List ℕ → List ℕ
field_line prefix name value =
    prefix ++ name ++ spaces (15 - length name) ++ (32 ∷ value) ++ (10 ∷ [])

-- `%s` of a pointer, as the C library of GNU prints it also for NULL.
abbrev pub string_at : Option (List ℕ) → List ℕ
string_at none = codes "(null)"
string_at (some s) = s

-- The fields of a `struct addrinfo` that are printed; `ai_canonname` may be NULL.
pub record Info : Type 0 where
  pub ai_flags : ℕ
  pub ai_family : ℕ
  pub ai_socktype : ℕ
  pub ai_protocol : ℕ
  pub ai_addrlen : ℕ
  pub ai_addr : ℕ × SockAddr
  pub ai_canonname : Option (List ℕ)
  pub ai_next : ℕ

module _ (printing : Printing) where
  open printing use {getpid, pointer, inet_ntop}

  -- `"%d in %d address:0x%p\n"`
  abbrev pub call_line : ℕ → ℕ → List ℕ
  call_line calltimes address =
      print_long (pos calltimes)
      ++ codes " in "
      ++ print_long (pos getpid)
      ++ codes " address:0x"
      ++ pointer address
      ++ (10 ∷ [])

  -- After the first line. `inet_ntop` is given the size of the address, not that of `buff`.
  unfoldable pub dump_fields : List ℕ → SockAddr → List ℕ
  dump_fields prefix (inet sin_port sin_addr) =
      let text = string_at (inet_ntop af_inet sin_addr 4) in
      field_line prefix (codes "sin_family") (print_long (pos af_inet) ++ codes "(AF_INET)")
      ++ field_line prefix (codes "sin_port") (print_long (pos sin_port))
      ++ field_line prefix (codes "sin_addr") (text ++ (10 ∷ []))
  dump_fields prefix (inet6 sin6_port sin6_flowinfo sin6_addr sin6_scope_id) =
      let text = string_at (inet_ntop af_inet6 sin6_addr 16) in
      field_line prefix (codes "sin6_family") (print_long (pos af_inet6) ++ codes "(AF_INET6)")
      ++ field_line prefix (codes "sin6_port") (print_long (pos sin6_port))
      ++ field_line prefix (codes "sin6_flowinfo") (print_long (pos sin6_flowinfo))
      ++ field_line prefix (codes "sin6_addr") text
      ++ field_line prefix (codes "sin6_scope_id") (print_long (pos sin6_scope_id) ++ (10 ∷ []))
  dump_fields prefix (other sa_family) =
      codes "sa_family:"
      ++ print_long (pos sa_family)
      ++ codes " is not AF_INET(2) and not AF_INET6(10)\n"

  -- `calltimes` is static; the address of the structure is an argument.
  unfoldable pub dump_sockaddr : ℕ → List ℕ → ℕ → SockAddr → ℕ × List ℕ
  unfolding dump_fields
  dump_sockaddr calltimes prefix address psa =
      (calltimes + 1, call_line (calltimes + 1) address ++ dump_fields prefix psa)

  -- The two functions have a `calltimes` each. The prefix of the inner one is cut to what `buff` holds.
  unfoldable pub dump_addrinfo : ℕ × ℕ → List ℕ → ℕ → Info → (ℕ × ℕ) × List ℕ
  unfolding dump_sockaddr
  dump_addrinfo (calltimes, addr_calltimes) prefix address pai =
      let (addr_calltimes1, addr_text) =
        dump_sockaddr addr_calltimes (take 1023 (prefix ++ (9 ∷ []))) pai.ai_addr.0 pai.ai_addr.1 in
      (
        (calltimes + 1, addr_calltimes1),
        call_line (calltimes + 1) address
            ++ field_line prefix (codes "ai_flags") (print_long (pos pai.ai_flags))
            ++ field_line prefix (codes "ai_family") (print_long (pos pai.ai_family))
            ++ field_line prefix (codes "ai_socktype") (print_long (pos pai.ai_socktype))
            ++ field_line prefix (codes "ai_protocol") (print_long (pos pai.ai_protocol))
            ++ field_line prefix (codes "ai_addrlen") (print_long (pos pai.ai_addrlen))
            ++ field_line prefix (codes "ai_addr") (pointer pai.ai_addr.0)
            ++ addr_text
            ++ field_line prefix (codes "ai_canonname") (string_at pai.ai_canonname)
            ++ field_line prefix (codes "ai_next") (pointer pai.ai_next ++ (10 ∷ [])),
      )
