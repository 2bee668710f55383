-- ===== src/Udp/Client/Shown.antt =====
-- What the UDP clients put out.
use serversidedev.Prelude.{
  ℕ, zero, suc, ◌+◌, ◌≤◌, ◌≡◌, refl, sym, ap, subst, ◌∙◌, true, false, List, [], ◌∷◌, ◌++◌,
  append_nil, append_assoc, length, length-append, take, drop, take_all, arith, ◌==◌,
}
use serversidedev.Prelude.Int.{ℤ, pos, ltb_ℤ}
use serversidedev.Prelude.CString.{c_string, Text, concat, c_string-Text}
use serversidedev.Prelude.Outcome.{Outcome, ok, aborted, fault, unfinished, ◌>>=◌}
use serversidedev.Prelude.Served.{Served, goes_on, exits, and_then}
use serversidedev.Udp.{Addr, System}
use serversidedev.Udp.Client.{
  Terminal, zeros, at_front, same_addr, got_line, puts_buff, sendto_recvfrom_fputs, udp_client,
  sendto_recvfrom_fputs_after_connect, udp_close_connection, connected_client,
}

-- Lines of at most so many bytes.
abbrev pub Lines : ℕ → List (List ℕ) → Type 0
Lines most [] = Unit
Lines most (line ∷ lines) = Text line × (length line ≤ most) × Lines most lines

take-front : (a b : List ℕ) → take (length a) (a ++ b) ≡ a
take-front [] b = refl
take-front (x ∷ a) b = ap (λ l. x ∷ l) (take-front a b)

drop-front : (a b : List ℕ) → drop (length a) (a ++ b) ≡ b
drop-front [] b = refl
drop-front (x ∷ a) b = drop-front a b

length-zeros : (n : ℕ) → length (zeros n) ≡ n
length-zeros zero = refl
length-zeros (suc n) = omega (arith, length-zeros n)

same_addr_refl : (a : Addr) → same_addr a a ≡ true
same_addr_refl [] = refl
same_addr_refl (x ∷ a) = rw (same x) (same_addr_refl a)
  where
    same : (x : ℕ) → (x == x) ≡ true
    same x = ground arith

-- A line in the buffer, with its 0.
got_line_lem : (line buff : List ℕ) → (rest : List ℕ) × (got_line line buff ≡ line ++ (0 ∷ rest))
got_line_lem line buff = (
  drop (length (line ++ (0 ∷ []))) buff,
  append_assoc line (0 ∷ []) (drop (length (line ++ (0 ∷ []))) buff),
)

-- The buffer after it was cleared.
cleared_lem :
    (line rest : List ℕ)
    → at_front (zeros (length line)) (line ++ (0 ∷ rest)) ≡ zeros (length line) ++ (0 ∷ rest)
cleared_lem line rest =
    ap (λ k. zeros (length line) ++ drop k (line ++ (0 ∷ rest))) (length-zeros (length line))
    ∙ ap (λ l. zeros (length line) ++ l) (drop-front line (0 ∷ rest))

-- A reply of the line's length over the cleared buffer.
reply_lem :
    (line rest : List ℕ) → at_front line (zeros (length line) ++ (0 ∷ rest)) ≡ line ++ (0 ∷ rest)
reply_lem line rest =
    ap (λ k. line ++ drop k (zeros (length line) ++ (0 ∷ rest))) (sym (length-zeros (length line)))
    ∙ ap (λ l. line ++ l) (drop-front (zeros (length line)) (0 ∷ rest))

module _ {World : Type 0} (sys : System World) (srvfd : ℤ) (srvaddr : Addr) where
  -- The server, and the network between, give back each datagram: what was sent to this address is what is received next, from there.
  pub record EchoService (destination : Addr) : Type 0 where
    pub sends :
        (w : World) (bytes : List ℕ)
        → ltb_ℤ (sys.sendto w srvfd bytes destination).0 (pos 0) ≡ false
    pub receives :
        (w : World) (bytes : List ℕ)
        → ltb_ℤ (sys.recvfrom (sys.sendto w srvfd bytes destination).1 srvfd 1023).0 (pos 0) ≡ false
    pub replies :
        (w : World) (bytes : List ℕ)
        → (sys.recvfrom (sys.sendto w srvfd bytes destination).1 srvfd 1023).1 ≡ take 1023 bytes
    pub from_server :
        (w : World) (bytes : List ℕ)
        → (sys.recvfrom (sys.sendto w srvfd bytes destination).1 srvfd 1023).2 ≡ srvaddr

  -- The client has ended with status 0 and has put this out.
  abbrev pub PutsOut : List ℕ → Outcome (Served (Terminal World)) → Type 0
  PutsOut all (ok (exits zero c)) = c.out ≡ all
  PutsOut all out = ⊥

  -- The client has put this out and goes on.
  abbrev Shows : List ℕ → Outcome (Served (Terminal World)) → Type 0
  Shows all (ok (goes_on c)) = c.out ≡ all
  Shows all out = ⊥

  Shows-then :
      (shown : List ℕ) (lines : List (List ℕ)) (out : Outcome (Served (Terminal World)))
      (next : Terminal World → Outcome (Served (Terminal World)))
      → Shows shown out
      → ((c : Terminal World) → PutsOut (c.out ++ concat lines) (next c))
      → PutsOut (shown ++ concat lines) (out >>= (λ served. and_then served next))
  unfolding and_then
  Shows-then shown lines (ok (goes_on c)) next h k =
      subst (λ all. PutsOut (all ++ concat lines) (next c)) h (k c)
  Shows-then shown lines (ok (exits exitstatus c)) next h k = absurd h
  Shows-then shown lines aborted next h k = absurd h
  Shows-then shown lines fault next h k = absurd h
  Shows-then shown lines unfinished next h k = absurd h

  module _ (echo : EchoService srvaddr) where
    sendto_recvfrom_fputs-Shows :
        (c : Terminal World) (line rest : List ℕ)
        → c.buff ≡ line ++ (0 ∷ rest)
        → Text line
        → length line ≤ 1023
        → Shows (c.out ++ line) (sendto_recvfrom_fputs sys srvfd c (length line) srvaddr)
    unfolding sendto_recvfrom_fputs puts_buff
    sendto_recvfrom_fputs-Shows c line rest e t le =
        let len = length line in
        let bytes_sent = take len c.buff in
        let is_line = ap (λ b. take len b) e ∙ take-front line (0 ∷ rest) in
        let reply =
          echo.replies c.world bytes_sent ∙ ap (λ b. take 1023 b) is_line ∙ take_all 1023 line le in
        let text =
          ap (λ b. c_string (at_front b (at_front (zeros len) c.buff))) reply
          ∙ ap (λ b. c_string (at_front line (at_front (zeros len) b))) e
          ∙ ap (λ b. c_string (at_front line b)) (cleared_lem line rest)
          ∙ ap c_string (reply_lem line rest)
          ∙ c_string-Text line rest t in
        rw (echo.sends c.world bytes_sent) (
          rw (echo.receives c.world bytes_sent) (
            rw (echo.from_server c.world bytes_sent)
              (rw (same_length (length srvaddr)) (rw (same_addr_refl srvaddr) (rw text refl)))))
      where
        same_length : (n : ℕ) → (n == n) ≡ true
        same_length n = ground arith

    -- If each datagram that is sent to the server comes back from it, then csc_echo_udp.cpp, given
    -- lines without a 0 that fit into its buffer, comes to its end with status 0 and has put out
    -- all the lines in their order.
    pub udp_client-PutsOut :
        (lines : List (List ℕ)) (c : Terminal World)
        → Lines 1023 lines
        → PutsOut (c.out ++ concat lines) (udp_client sys srvfd lines c srvaddr)
    unfolding udp_client
    udp_client-PutsOut [] c h = sym (append_nil c.out)
    udp_client-PutsOut (line ∷ lines) c (t, le, h) =
        let (rest, e) = got_line_lem line c.buff in
        rw (ap c_string e ∙ c_string-Text line rest t) (
          subst
            (λ all. PutsOut all (
              sendto_recvfrom_fputs sys srvfd (record c { buff = got_line line c.buff })
                (length line) srvaddr
              >>= (λ served. and_then served (λ c1. udp_client sys srvfd lines c1 srvaddr))))
            (append_assoc c.out line (concat lines))
            (Shows-then (c.out ++ line) lines
              (sendto_recvfrom_fputs sys srvfd (record c { buff = got_line line c.buff })
                (length line) srvaddr)
              (λ c1. udp_client sys srvfd lines c1 srvaddr)
              (sendto_recvfrom_fputs-Shows (record c { buff = got_line line c.buff }) line rest e t
                le)
              (λ c1. udp_client-PutsOut lines c1 h)))

  module _ (echo : EchoService []) where
    after_connect-Shows :
        (c : Terminal World) (line rest : List ℕ)
        → c.buff ≡ line ++ (0 ∷ rest)
        → Text line
        → length line ≤ 1022
        → Shows (c.out ++ line) (sendto_recvfrom_fputs_after_connect sys srvfd c (length line + 1))
    unfolding sendto_recvfrom_fputs_after_connect puts_buff
    after_connect-Shows c line rest e t le =
        let len = length line + 1 in
        let ended = line ++ (0 ∷ []) in
        let cleared = at_front (zeros len) c.buff in
        let bytes_sent = take len c.buff in
        let with_end = e ∙ sym (append_assoc line (0 ∷ []) rest) in
        let size = length-append line (0 ∷ []) in
        let is_ended =
          ap (λ b. take len b) with_end
          ∙ ap (λ k. take k (ended ++ rest)) (sym size)
          ∙ take-front ended rest in
        let reply =
          echo.replies c.world bytes_sent
          ∙ ap (λ b. take 1023 b) is_ended
          ∙ take_all 1023 ended (omega arith) in
        let text =
          ap (λ b. c_string (at_front b cleared)) reply
          ∙ ap c_string (append_assoc line (0 ∷ []) (drop (length ended) cleared))
          ∙ c_string-Text line (drop (length ended) cleared) t in
        rw (echo.sends c.world bytes_sent) (rw (echo.receives c.world bytes_sent) (rw text refl))

    pub connected_client-PutsOut :
        (unspec : Addr)
        → ((w : World) → ltb_ℤ (sys.connect w srvfd unspec).0 (pos 0) ≡ false)
        → (lines : List (List ℕ)) (c : Terminal World) → Lines 1022 lines
        → PutsOut (c.out ++ concat lines) (connected_client sys srvfd lines c unspec)
    unfolding connected_client udp_close_connection
    connected_client-PutsOut unspec closes [] c h = rw (closes c.world) (sym (append_nil c.out))
    connected_client-PutsOut unspec closes (line ∷ lines) c (t, le, h) =
        let (rest, e) = got_line_lem line c.buff in
        rw (ap c_string e ∙ c_string-Text line rest t) (
          subst
            (λ all. PutsOut all (
              sendto_recvfrom_fputs_after_connect sys srvfd
                (record c { buff = got_line line c.buff }) (length line + 1)
              >>= (λ served. and_then served (λ c1. connected_client sys srvfd lines c1 unspec))))
            (append_assoc c.out line (concat lines))
            (Shows-then (c.out ++ line) lines
              (sendto_recvfrom_fputs_after_connect sys srvfd
                (record c { buff = got_line line c.buff }) (length line + 1))
              (λ c1. connected_client sys srvfd lines c1 unspec)
              (after_connect-Shows (record c { buff = got_line line c.buff }) line rest e t le)
              (λ c1. connected_client-PutsOut unspec closes lines c1 h)))
