-- ===== src/Udp/Client.antt =====
-- The UDP clients csc_echo_udp.cpp and csc_echo_udp_connect.cpp.
pub mod Shown
use serversidedev.Prelude.{
  ℕ, zero, suc, ◌+◌, ◌-◌, ◌≡◌, Bool, true, false, ◌||◌, not, List, [], ◌∷◌, ◌++◌, length, take,
  drop, ◌==◌, if◌then◌else◌,
}
use serversidedev.Prelude.Int.{ℤ, pos, ltb_ℤ}
use serversidedev.Prelude.CString.{c_string}
use serversidedev.Prelude.Outcome.{Outcome, ok, fault, ◌>>=◌}
use serversidedev.Prelude.Served.{Served, goes_on, exits, and_then}
use serversidedev.Udp.{Addr, System}

-- The line buffer, what has been put out, and the world.
pub record Terminal (World : Type 0) : Type 0 where
  pub buff : List ℕ
  pub out : List ℕ
  pub world : World

abbrev pub zeros : ℕ → List ℕ
zeros zero = []
zeros (suc n) = 0 ∷ zeros n

-- Bytes written at the front of a buffer. What lies past its end would be a fault; the callers write no more than it holds.
abbrev pub at_front : List ℕ → List ℕ → List ℕ
at_front bytes buff = bytes ++ drop (length bytes) buff

-- `memcmp` of addresses of one length.
abbrev pub same_addr : Addr → Addr → Bool
same_addr [] [] = true
same_addr [] (b ∷ bs) = false
same_addr (a ∷ rest) [] = false
same_addr (a ∷ rest) (b ∷ bs) = if a == b then same_addr rest bs else false

-- `fgets`, where a line is what it reads at once: it fits into the buffer with its 0.
abbrev pub got_line : List ℕ → List ℕ → List ℕ
got_line line buff = at_front (line ++ (0 ∷ [])) buff

module _ {World : Type 0} where
  -- `fputs(buff,out)`.
  unfoldable pub puts_buff : Terminal World → Outcome (Served (Terminal World))
  puts_buff c = c_string c.buff >>= (λ s. ok (goes_on (record c { out = c.out ++ s })))

module _ {World : Type 0} (sys : System World) (srvfd : ℤ) where
  -- `sendto_recvfrom_fputs` of csc_echo_udp.cpp.
  unfoldable pub sendto_recvfrom_fputs :
      Terminal World → ℕ → Addr → Outcome (Served (Terminal World))
  unfolding puts_buff
  sendto_recvfrom_fputs c len srvaddr =
      let (re, w1) = sys.sendto c.world srvfd (take len c.buff) srvaddr in
      let cleared = at_front (zeros len) c.buff in
      let (got, bytes, replyaddr, w2) = sys.recvfrom w1 srvfd 1023 in
      let received = record c { buff = at_front bytes cleared; world = w2 } in
      let shown = puts_buff received in
      if ltb_ℤ re (pos 0)
      then ok (exits 1 (record c { world = w1 }))
      else if ltb_ℤ got (pos 0)
      then ok (exits 1 (record c { buff = cleared; world = w2 }))
      else if not (length replyaddr == length srvaddr) || not (same_addr srvaddr replyaddr)
      then ok (goes_on received)
      else shown

  -- `while((fgets(buff,sizeof(buff),stdin))!=NULL)` of csc_echo_udp.cpp, over the lines of the input, and the return.
  unfoldable pub udp_client :
      List (List ℕ) → Terminal World → Addr → Outcome (Served (Terminal World))
  unfolding sendto_recvfrom_fputs c_string and_then
  udp_client [] c srvaddr = ok (exits 0 c)
  udp_client (line ∷ lines) c srvaddr = do
    len ← c_string (got_line line c.buff)
    served ← sendto_recvfrom_fputs (record c { buff = got_line line c.buff }) (length len) srvaddr
    and_then served (λ c1. udp_client lines c1 srvaddr)

  -- `sendto_recvfrom_fputs_after_connect` of csc_echo_udp_connect.cpp.
  unfoldable pub sendto_recvfrom_fputs_after_connect :
      Terminal World → ℕ → Outcome (Served (Terminal World))
  unfolding puts_buff
  sendto_recvfrom_fputs_after_connect c len =
      let (re, w1) = sys.sendto c.world srvfd (take len c.buff) [] in
      let cleared = at_front (zeros len) c.buff in
      let (got, bytes, replyaddr, w2) = sys.recvfrom w1 srvfd 1023 in
      let shown = puts_buff (record c { buff = at_front bytes cleared; world = w2 }) in
      if ltb_ℤ re (pos 0)
      then ok (exits 1 (record c { world = w1 }))
      else if ltb_ℤ got (pos 0)
      then ok (exits 1 (record c { buff = cleared; world = w2 }))
      else shown

  -- `udp_close_connection`. `unspec` is an address with the family AF_UNSPEC.
  unfoldable pub udp_close_connection : Terminal World → Addr → Served (Terminal World)
  udp_close_connection c unspec =
      let (re, w1) = sys.connect c.world srvfd unspec in
      if ltb_ℤ re (pos 0)
      then exits 1 (record c { world = w1 })
      else exits 0 (record c { world = w1 })

  -- The loop of csc_echo_udp_connect.cpp over the lines of the input, and what follows it. The 0 is sent too.
  unfoldable pub connected_client :
      List (List ℕ) → Terminal World → Addr → Outcome (Served (Terminal World))
  unfolding sendto_recvfrom_fputs_after_connect udp_close_connection c_string and_then
  connected_client [] c unspec = ok (udp_close_connection c unspec)
  connected_client (line ∷ lines) c unspec = do
    len ← c_string (got_line line c.buff)
    served ←
        sendto_recvfrom_fputs_after_connect (record c { buff = got_line line c.buff })
          (length len + 1)
    and_then served (λ c1. connected_client lines c1 unspec)

module _ {World : Type 0} (sys : System World) where
  -- `main` of csc_echo_udp.cpp over the lines of the input; `srvaddr` is 127.0.0.2 and the port 25000. `buff` has not been set.
  unfoldable pub udp_client_main :
      List (List ℕ) → List ℕ → World → Addr → Outcome (Served (Terminal World))
  unfolding udp_client
  udp_client_main lines buff w srvaddr =
      let (srvfd, w1) = sys.socket w in
      if ltb_ℤ srvfd (pos 0)
      then ok (exits 1 (record { buff = buff; out = []; world = w1 }))
      else udp_client sys srvfd lines (record { buff = buff; out = []; world = w1 }) srvaddr

-- `getsockname`, with the text that `inet_ntop` makes of the address.
pub record Naming (World : Type 0) : Type 0 where
  pub getsockname : World → ℤ → ℤ × List ℕ × World

module _ {World : Type 0} (sys : System World) (naming : Naming World) where
  -- `main` of csc_echo_udp_connect.cpp over the lines of the input; `srvaddr` is 127.0.0.1 and the port 25000. The text
  -- of the address goes into the line buffer, which has not been set.
  unfoldable pub connected_client_main :
      List (List ℕ) → List ℕ → World → (srvaddr unspec : Addr) → Outcome (Served (Terminal World))
  unfolding connected_client
  connected_client_main lines buff w srvaddr unspec =
      let (srvfd, w1) = sys.socket w in
      let (connected, w2) = sys.connect w1 srvfd srvaddr in
      let (re, text, w3) = naming.getsockname w2 srvfd in
      let named = at_front (text ++ (0 ∷ [])) buff in
      if ltb_ℤ srvfd (pos 0)
      then ok (exits 1 (record { buff = buff; out = []; world = w1 }))
      else if ltb_ℤ connected (pos 0)
      then ok (exits 1 (record { buff = buff; out = []; world = w2 }))
      else if ltb_ℤ re (pos 0)
      then ok (exits 1 (record { buff = buff; out = []; world = w3 }))
      else connected_client sys srvfd lines (record { buff = named; out = []; world = w3 }) unspec
