-- ===== src/Udp/Counting.antt =====
-- What css_udp_overflow.cpp counts and csc_udp_overflow.cpp sends.
use serversidedev.Prelude.{
  ℕ, zero, suc, ◌+◌, ◌<◌, ◌≡◌, refl, sym, ap, ◌∙◌, true, false, Bool-cases, inl, inr, List, [], ◌∷◌,
  ◌++◌, append_nil, append_assoc, length, length-append, arith,
}
use serversidedev.Prelude.Int.{ℤ, pos, ltb_ℤ, leb_ℤ}
use serversidedev.Prelude.Served.{Served, goes_on, exits, Kept, Runs}
use serversidedev.Udp.{Addr, System, count_msgs, send_msgs, Mail, Laws}

-- `n` datagrams of the same content.
abbrev pub copies : ℕ → Addr × List ℕ → List (Addr × List ℕ)
copies zero x = []
copies (suc n) x = x ∷ copies n x

module _ {World : Type 0} (sys : System World) (mail : Mail World) where
  open mail use {arrived, sent}

  -- As many have been counted as have arrived.
  abbrev pub Counted : ℕ × World → ℕ × World → Type 0
  Counted (before, w) (cout, w') = cout + length (arrived w) ≡ before + length (arrived w')

  -- All the datagrams have been sent, or some and then the process has ended.
  abbrev pub Sent : ℕ → List ℕ → Addr → World → Served World → Type 0
  Sent n buff addr w out =
      Runs (λ w'. sent w' ≡ sent w ++ copies n (addr, buff))
        (λ exitstatus w'.
          (exitstatus ≡ 1) × (k : ℕ) × (k < n) × (sent w' ≡ sent w ++ copies k (addr, buff)))
        out

  module _ (laws : Laws sys mail) where
    pub count_msgs-Counted :
        (rounds : ℕ) (srvfd : ℤ) (cout : ℕ) (w : World)
        → Kept (Counted (cout, w)) (count_msgs sys rounds srvfd (cout, w))
    unfolding count_msgs
    count_msgs-Counted zero srvfd cout w = refl
    count_msgs-Counted (suc rounds) srvfd cout w =
        let (re, buff, addr, w1) = sys.recvfrom w srvfd 1400 in
        elim (Bool-cases (leb_ℤ (pos 0) re)) [
          | inl received ↦
              let (unsent, (datagram, more, cut)) =
                laws.recvfrom_takes w srvfd 1400 (not_failed re received) in
              rw received (
                one_more (cout + 1, w1) (cout, w) (count_msgs sys rounds srvfd (cout + 1, w1))
                  (omega (arith, ap length more, length-append (arrived w) ((addr, datagram) ∷ [])))
                  (count_msgs-Counted rounds srvfd (cout + 1) w1))
          | inr failed ↦
              let s = laws.recvfrom_fails w srvfd 1400 (is_failed re failed) in
              rw failed (omega (arith, ap length s.arrived))
        ]
      where
        not_failed : (a : ℤ) → leb_ℤ (pos 0) a ≡ true → ltb_ℤ a (pos 0) ≡ false
        not_failed a h = ground arith

        is_failed : (a : ℤ) → leb_ℤ (pos 0) a ≡ false → ltb_ℤ a (pos 0) ≡ true
        is_failed a h = ground arith

        one_more :
            (mid start : ℕ × World) (out : Served (ℕ × World))
            → Counted start mid
            → Kept (Counted mid) out
            → Kept (Counted start) out
        one_more mid start (goes_on s) e h = omega arith
        one_more mid start (exits exitstatus s) e h = omega arith

    pub send_msgs-Sent :
        (n : ℕ) (w : World) (srvfd : ℤ) (buff : List ℕ) (addr : Addr)
        → Sent n buff addr w (send_msgs sys n w srvfd buff addr)
    unfolding send_msgs
    send_msgs-Sent zero w srvfd buff addr = sym (append_nil (sent w))
    send_msgs-Sent (suc n) w srvfd buff addr =
        let (re, w1) = sys.sendto w srvfd buff addr in
        elim (Bool-cases (ltb_ℤ re (pos 0))) [
          | inl failed ↦
              let s = laws.sendto_fails w srvfd buff addr failed in
              rw failed (refl, 0, omega arith, s.sent ∙ sym (append_nil (sent w)))
          | inr went ↦
              let (same, new) = laws.sendto_sends w srvfd buff addr went in
              rw went (
                one_more n w w1 buff addr (send_msgs sys n w1 srvfd buff addr) new
                  (send_msgs-Sent n w1 srvfd buff addr))
        ]
      where
        one_more :
            (n : ℕ) (w w1 : World) (buff : List ℕ) (addr : Addr) (out : Served World)
            → sent w1 ≡ sent w ++ ((addr, buff) ∷ [])
            → Sent n buff addr w1 out
            → Sent (suc n) buff addr w out
        one_more n w w1 buff addr (goes_on w2) new h =
            h
            ∙ ap (λ l. l ++ copies n (addr, buff)) new
            ∙ append_assoc (sent w) ((addr, buff) ∷ []) (copies n (addr, buff))
        one_more n w w1 buff addr (exits exitstatus w2) new (e, k, lt, h) = (
          e,
          suc k,
          omega arith,
          h
              ∙ ap (λ l. l ++ copies k (addr, buff)) new
              ∙ append_assoc (sent w) ((addr, buff) ∷ []) (copies k (addr, buff)),
        )
