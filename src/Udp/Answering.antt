-- ===== src/Udp/Answering.antt =====
-- What the UDP servers answer.
use serversidedev.Prelude.{
  ℕ, zero, suc, ◌≤◌, ◌≡◌, refl, sym, ap, ap₂, ◌∙◌, Bool-cases, inl, inr, List, [], ◌∷◌, ◌++◌, map,
  append_nil, length, take, arith,
}
use serversidedev.Prelude.Int.{ℤ, pos, eq_ℤ, ltb_ℤ, eq_of_parts, ◌+ℤ◌}
use serversidedev.Prelude.Outcome.{ok}
use serversidedev.Prelude.Served.{
  Served, goes_on, exits, repeat, Runs, Runs-repeat, Runs-and_then, Comes,
}
use serversidedev.Udp.{
  Addr, System, udp_socket_bind, udp_echo, udp_echo_connect, udp_server, select_loop, select_server,
  Mail, Silent, Laws,
}

-- The answer to a datagram: what fits into the buffer, to its sender.
abbrev pub answer_of : Addr × List ℕ → Addr × List ℕ
answer_of (addr, datagram) = (addr, take 1024 datagram)

map-append :
    (f : Addr × List ℕ → Addr × List ℕ) (xs ys : List (Addr × List ℕ))
    → map f (xs ++ ys) ≡ map f xs ++ map f ys
map-append f [] ys = refl
map-append f (x ∷ xs) ys = ap (λ l. f x ∷ l) (map-append f xs ys)

module _ {World : Type 0} (sys : System World) (mail : Mail World) where
  open mail use {arrived, sent}

  -- Each datagram has been answered, once and in their order.
  abbrev pub Answered : World → Type 0
  Answered w = sent w ≡ map answer_of (arrived w)

  -- The same but for the last one.
  abbrev pub AlmostAnswered : ℕ → World → Type 0
  AlmostAnswered exitstatus w =
      (left : List (Addr × List ℕ)) × (length left ≤ 1)
      × (sent w ++ left ≡ map answer_of (arrived w))

  Answered-Almost : (exitstatus : ℕ) (w : World) → Answered w → AlmostAnswered exitstatus w
  Answered-Almost exitstatus w e = ([], omega arith, append_nil (sent w) ∙ e)

  Answered-Silent : (w w1 : World) → Silent mail w w1 → Answered w → Answered w1
  Answered-Silent w w1 s e = s.sent ∙ e ∙ ap (λ l. map answer_of l) (sym s.arrived)

  module _ (laws : Laws sys mail) where
    udp_echo-Answered :
        (w : World) (srvfd : ℤ) → Answered w → Runs Answered AlmostAnswered (udp_echo sys w srvfd)
    unfolding udp_echo
    udp_echo-Answered w srvfd e =
        let (len, buff, cliaddr, w1) = sys.recvfrom w srvfd 1024 in
        let (re, w2) = sys.sendto w1 srvfd buff cliaddr in
        elim (Bool-cases (ltb_ℤ len (pos 0))) [
          | inl failed ↦ rw failed (
              Answered-Almost 1 w1
                (Answered-Silent w w1 (laws.recvfrom_fails w srvfd 1024 failed) e))
          | inr received ↦
              let (unsent, (datagram, more, cut)) = laws.recvfrom_takes w srvfd 1024 received in
              let due =
                ap (λ l. map answer_of l) more
                ∙ map-append answer_of (arrived w) ((cliaddr, datagram) ∷ []) in
              let so_far = ap₂ (λ a b. a ++ ((cliaddr, b) ∷ [])) (unsent ∙ e) cut ∙ sym due in
              rw received (elim (Bool-cases (ltb_ℤ re (pos 0))) [
                | inl failed ↦
                    let s = laws.sendto_fails w1 srvfd buff cliaddr failed in
                    rw failed (
                      (cliaddr, buff) ∷ [],
                      omega arith,
                      ap (λ l. l ++ ((cliaddr, buff) ∷ [])) s.sent
                          ∙ so_far
                          ∙ ap (λ l. map answer_of l) (sym s.arrived),
                    )
                | inr went ↦
                    let (same, new) = laws.sendto_sends w1 srvfd buff cliaddr went in
                    rw went (new ∙ so_far ∙ ap (λ l. map answer_of l) (sym same))
              ])
        ]

    -- The two programs answer a datagram alike.
    udp_echo_connect-Answered :
        (w : World) (srvfd : ℤ)
        → Answered w
        → Runs Answered AlmostAnswered (udp_echo_connect sys w srvfd)
    unfolding udp_echo udp_echo_connect
    udp_echo_connect-Answered w srvfd e = udp_echo-Answered w srvfd e

    -- The socket that a server has made.
    Opened : World → Served (ℤ × World) → Type 0
    Opened w out =
        Runs (λ opened. Silent mail w opened.1) (λ exitstatus opened. Silent mail w opened.1) out

    Silent-then : (w w1 w2 : World) → Silent mail w w1 → Silent mail w1 w2 → Silent mail w w2
    Silent-then w w1 w2 a b = record { arrived = b.arrived ∙ a.arrived; sent = b.sent ∙ a.sent }

    udp_socket_bind-Opened : (w : World) (port : ℕ) → Opened w (udp_socket_bind sys w port)
    unfolding udp_socket_bind Opened
    udp_socket_bind-Opened w port =
        let (srvfd, w1) = sys.socket w in
        let (re, w2) = sys.bind w1 srvfd port in
        let made = laws.socket_silent w in
        let named = Silent-then w w1 w2 made (laws.bind_silent w1 srvfd port) in
        elim (Bool-cases (ltb_ℤ srvfd (pos 0))) [
          | inl failed ↦ rw failed made
          | inr fine ↦ rw fine (elim (Bool-cases (ltb_ℤ re (pos 0))) [
            | inl in_use ↦ rw in_use named
            | inr bound ↦ rw bound named
          ])
        ]

    udp_server-Answered :
        (rounds : ℕ) (w : World)
        → Answered w
        → Runs Answered AlmostAnswered (udp_server sys rounds w)
    unfolding udp_server Opened
    udp_server-Answered rounds w e =
        go (udp_socket_bind sys w 25000) (udp_socket_bind-Opened w 25000)
      where
        go :
            (out : Served (ℤ × World))
            → Opened w out
            → Runs Answered AlmostAnswered (elim out [
              | goes_on opened ↦ repeat (λ w1. udp_echo sys w1 opened.0) rounds opened.1
              | exits exitstatus opened ↦ exits exitstatus opened.1
            ])
        go (goes_on opened) s =
            Runs-repeat Answered AlmostAnswered (λ w1. udp_echo sys w1 opened.0)
              (λ w1 h. udp_echo-Answered w1 opened.0 h) rounds opened.1
              (Answered-Silent w opened.1 s e)
        go (exits exitstatus opened) s =
            Answered-Almost exitstatus opened.1 (Answered-Silent w opened.1 s e)

    select_loop-Answered :
        (rounds : ℕ) (w : World) (srvfd : ℤ)
        → Answered w
        → Comes Answered AlmostAnswered (select_loop sys rounds w srvfd)
    unfolding select_loop
    select_loop-Answered zero w srvfd e = e
    select_loop-Answered (suc rounds) w srvfd e =
        let (re, fds1, w1) = sys.select w (srvfd +ℤ pos 1) (λ d. eq_ℤ d srvfd) in
        let before =
          Answered-Silent w w1 (laws.select_silent w (srvfd +ℤ pos 1) (λ d. eq_ℤ d srvfd)) e in
        elim (Bool-cases (ltb_ℤ (pos 0) re)) [
          | inl ready ↦
              let (d, is_srvfd, isset) =
                laws.select_finds w (srvfd +ℤ pos 1) (λ d. eq_ℤ d srvfd) ready in
              rw ready (
                rw (ap fds1 (eq_of_parts srvfd d (ground arith)) ∙ isset) (
                  Runs-and_then Answered Answered AlmostAnswered (udp_echo_connect sys w1 srvfd)
                    (λ w2. select_loop sys rounds w2 srvfd)
                    (udp_echo_connect-Answered w1 srvfd before)
                    (λ w2 h. select_loop-Answered rounds w2 srvfd h)))
          | inr not_ready ↦ rw not_ready (elim (Bool-cases (ltb_ℤ re (pos 0))) [
            | inl failed ↦ rw failed (Answered-Almost 1 w1 before)
            | inr none_ready ↦ rw none_ready (Answered-Almost 0 w1 before)
          ])
        ]

    select_server-Answered :
        (rounds : ℕ) (w : World)
        → Answered w
        → Comes Answered AlmostAnswered (select_server sys rounds w)
    unfolding select_server Opened
    select_server-Answered rounds w e =
        go (udp_socket_bind sys w 25000) (udp_socket_bind-Opened w 25000)
      where
        go :
            (out : Served (ℤ × World))
            → Opened w out
            → Comes Answered AlmostAnswered (elim out [
              | goes_on opened ↦ select_loop sys rounds opened.1 opened.0
              | exits exitstatus opened ↦ ok (exits exitstatus opened.1)
            ])
        go (goes_on opened) s =
            select_loop-Answered rounds opened.1 opened.0 (Answered-Silent w opened.1 s e)
        go (exits exitstatus opened) s =
            Answered-Almost exitstatus opened.1 (Answered-Silent w opened.1 s e)

    -- If the calls keep to their laws and each datagram that has arrived has been answered, then
    -- after any number of rounds of css_echo_udp.cpp, and of css_echo_udp_connect.cpp, whose
    -- assertion never fails, each datagram has been answered to its sender, once, in their order
    -- and with its first 1024 bytes, while the server goes on; when it has ended, all but one at
    -- most.
    pub servers-Answered :
        (rounds : ℕ) (w : World)
        → Answered w
        → Runs Answered AlmostAnswered (udp_server sys rounds w)
          × Comes Answered AlmostAnswered (select_server sys rounds w)
    servers-Answered rounds w e =
        (udp_server-Answered rounds w e, select_server-Answered rounds w e)
