-- ===== src/Lhf/TcpListen/Listening.antt =====
-- What `tcp_listen` returns, and what it leaves open.
use serversidedev.Prelude.{
  ℕ, suc, ◌≡◌, ◌≤◌, ◌+◌, ◌++◌, refl, ap, ◌∙◌, ◌⊎◌, some, get_elem?, true, false, Bool-cases, inl,
  inr, List, [], ◌∷◌, length, arith,
}
use serversidedev.Prelude.Int.{ℤ, pos, ltb_ℤ}
use serversidedev.Prelude.Served.{Served, goes_on, exits, Runs, Runs-repeat}
use serversidedev.Lhf.Dump.{dump_addrinfo}
use serversidedev.Lhf.TcpListen.{
  AddrInfo, Calls, Tried, dump, try_address, try_addresses, tcp_listen, daytime_round, serve,
  daytime_main, Fds, Laws,
}

module _ {World : Type 0} (calls : Calls World) (fds : Fds World) where
  open fds use {opened, is_open, is_listening}

  -- Either a socket listens, and it is the one descriptor that has been opened, or none has been.
  abbrev pub Listens : World → ℤ → World → Type 0
  Listens w fd w' =
      (opened w' ≡ suc (opened w)) × (is_open w' fd ≡ true) × (is_listening w' fd ≡ true)

  abbrev Attempt : World → Tried World → Type 0
  Attempt w t =
      ((t.listens ≡ true) × (ltb_ℤ t.srvfd (pos 0) ≡ false) × Listens w t.srvfd t.world)
      ⊎ ((t.listens ≡ false) × (ltb_ℤ t.re (pos 0) ≡ true) × (opened t.world ≡ opened w))

  -- How `tcp_listen` comes out: a socket that listens at one of the addresses, whose length is handed back; or a negative
  -- number, with `*addrlenp` as it was.
  abbrev pub Listened : List AddrInfo → ℕ → World → ℤ × ℕ × World → Type 0
  Listened ais before w (re, addrlen, w') =
      ((ltb_ℤ re (pos 0) ≡ false)
        × Listens w re w'
        × ((k : ℕ) × (ai : AddrInfo) × (get_elem? ais k ≡ some ai)
            × (addrlen ≡ ai.info.ai_addrlen)))
      ⊎ ((ltb_ℤ re (pos 0) ≡ true) × (opened w' ≡ opened w) × (addrlen ≡ before))

  module _ (laws : Laws calls fds) where
    try_address-Attempt : (ai : AddrInfo) (w : World) → Attempt w (try_address calls ai w)
    unfolding try_address
    try_address-Attempt ai w =
        let (srvfd, w1) =
          calls.socket w ai.info.ai_family ai.info.ai_socktype ai.info.ai_protocol in
        let (reused, w2) = calls.setsockopt w1 srvfd in
        let (bound, w3) = calls.bind w2 srvfd ai.info.ai_addr.1 ai.info.ai_addrlen in
        let (listening, w4) = calls.listen w3 srvfd 1024 in
        let same2 = laws.setsockopt_keeps w1 srvfd in
        let same3 = laws.bind_keeps w2 srvfd ai.info.ai_addr.1 ai.info.ai_addrlen in
        let same4 = laws.listen_keeps w3 srvfd 1024 in
        elim (Bool-cases (ltb_ℤ srvfd (pos 0))) [
          | inl no_socket ↦ rw no_socket (
              inr (
                refl,
                no_socket,
                laws.socket_fails w ai.info.ai_family ai.info.ai_socktype ai.info.ai_protocol
                    no_socket,
              ))
          | inr made ↦
              let (more, open1) =
                laws.socket_opens w ai.info.ai_family ai.info.ai_socktype ai.info.ai_protocol
                  made in
              let open2 = same2.1 ∙ open1 in
              let open3 = same3.1 ∙ open2 in
              let open4 = same4.1 ∙ open3 in
              rw made (elim (Bool-cases (ltb_ℤ reused (pos 0))) [
                | inl failed ↦
                    rw failed
                      (inr (refl, failed, omega (arith, same2.0, laws.close_frees w2 srvfd open2)))
                | inr reuses ↦ rw reuses (elim (Bool-cases (ltb_ℤ bound (pos 0))) [
                  | inl failed ↦ rw failed (
                      inr (
                        refl,
                        failed,
                        omega (arith, same2.0, same3.0, laws.close_frees w3 srvfd open3),
                      ))
                  | inr binds ↦ rw binds (elim (Bool-cases (ltb_ℤ listening (pos 0))) [
                    | inl failed ↦ rw failed (
                        inr (
                          refl,
                          failed,
                          omega (arith, same2.0, same3.0, same4.0, laws.close_frees w4 srvfd open4),
                        ))
                    | inr listens ↦ rw listens (
                        inl (
                          refl,
                          made,
                          (
                            omega (arith, same2.0, same3.0, same4.0),
                            open4,
                            laws.listen_listens w3 srvfd 1024 listens,
                          ),
                        ))
                  ])
                ])
              ])
        ]

    seen_from :
        (ais : List AddrInfo) (before : ℕ) (w w1 : World) (out : ℤ × ℕ × World)
        → opened w1 ≡ opened w
        → Listened ais before w1 out
        → Listened ais before w out
    seen_from ais before w w1 out e (inl (fine, (more, is_open, listening), at)) =
        inl (fine, (more ∙ ap suc e, is_open, listening), at)
    seen_from ais before w w1 out e (inr (failed, same, kept)) = inr (failed, same ∙ e, kept)

    later :
        (ai : AddrInfo) (ais : List AddrInfo) (before : ℕ) (w : World) (out : ℤ × ℕ × World)
        → Listened ais before w out
        → Listened (ai ∷ ais) before w out
    later ai ais before w out (inl (fine, opens, (k, found, at, len))) =
        inl (fine, opens, (suc k, found, at, len))
    later ai ais before w out (inr failed) = inr failed

    dump-opened : (ai : AddrInfo) (w : World) → opened (dump calls ai w) ≡ opened w
    unfolding dump
    dump-opened ai w =
        let (calltimes1, text) =
          dump_addrinfo calls.printing (calls.calltimes w) [] ai.address ai.info in
        laws.dumped_keeps w calltimes1 text

    try_addresses-Listened :
        (ais : List AddrInfo) (re : ℤ) (before : ℕ) (w : World)
        → (length ais ≡ 0 → ltb_ℤ re (pos 0) ≡ true)
        → Listened ais before w (try_addresses calls ais re before w)
    unfolding try_addresses
    try_addresses-Listened [] re before w h = inr (h refl, refl, refl)
    try_addresses-Listened (ai ∷ ais) re before w h =
        let w0 = dump calls ai w in
        let tried = try_address calls ai w0 in
        let more = try_addresses calls ais tried.re before tried.world in
        seen_from (ai ∷ ais) before w w0 _ (dump-opened ai w) (elim (try_address-Attempt ai w0) [
          | inl (listens, fine, opens) ↦ rw listens (inl (fine, opens, (0, ai, refl, refl)))
          | inr (fails, failed, same) ↦ rw fails (
              later ai ais before w0 more (
                seen_from ais before w0 tried.world more same
                  (try_addresses-Listened ais tried.re before tried.world (λ none_left. failed))))
        ])

    -- How the whole function comes out.
    abbrev pub ListensOrExits : World → List ℕ → List ℕ → ℕ → Served (ℤ × ℕ × World) → Type 0
    ListensOrExits w host serv before (goes_on out) =
        Listened (calls.getaddrinfo w host serv).1 before w out
    ListensOrExits w host serv before (exits exitstatus (re, addrlen, w')) =
        (exitstatus ≡ 1) × (opened w' ≡ opened w)

    -- If the calls keep to their laws, `tcp_listen` ends the process with status 1 and no new
    -- descriptor, or returns a socket that listens, the one descriptor that it has opened, with
    -- the length of one of the addresses in `*addrlenp`, or returns a negative number with no new
    -- descriptor and `*addrlenp` as it was.
    pub tcp_listen-Listens :
        (w : World) (host serv : List ℕ) (addrlen : ℕ)
        → ListensOrExits w host serv addrlen (tcp_listen calls w host serv addrlen)
    unfolding tcp_listen
    tcp_listen-Listens w host serv addrlen =
        let (re, ais, w1) = calls.getaddrinfo w host serv in
        elim (Bool-cases (ltb_ℤ re (pos 0))) [
          | inl failed ↦ rw failed (refl, laws.getaddrinfo_opened w host serv)
          | inr found ↦ rw found (
              seen_from ais addrlen w w1 (try_addresses calls ais re addrlen w1)
                (laws.getaddrinfo_opened w host serv)
                (try_addresses-Listened ais re addrlen w1
                  (λ none_found. absurd (omega (arith, laws.getaddrinfo_finds w host serv found)))))
        ]

    -- While the server goes on it has one descriptor more than at the start, and at its end two more at most.
    abbrev pub Serving : World → Served World → Type 0
    Serving w out =
        Runs (λ w'. opened w' ≡ suc (opened w))
          (λ exitstatus w'. (exitstatus ≡ 1) × (opened w' ≤ opened w + 2)) out

    daytime_round-Serving :
        (w w1 : World) (srvfd : ℤ)
        → opened w1 ≡ suc (opened w)
        → Serving w (daytime_round calls w1 srvfd)
    unfolding daytime_round
    daytime_round-Serving w w1 srvfd h =
        let (clifd, w2) = calls.accept w1 srvfd in
        let text = calls.date w2 ++ (0 ∷ []) in
        let (re, w3) = calls.write w2 clifd text in
        elim (Bool-cases (ltb_ℤ clifd (pos 0))) [
          | inl failed ↦ rw failed (refl, omega (arith, laws.accept_fails w1 srvfd failed))
          | inr accepted ↦
              let (more, client_open) = laws.accept_opens w1 srvfd accepted in
              let (same, still) = laws.write_keeps w2 clifd text in
              rw accepted (elim (Bool-cases (ltb_ℤ re (pos 0))) [
                | inl failed ↦ rw failed (refl, omega arith)
                | inr wrote ↦
                    rw wrote (omega (arith, laws.close_frees w3 clifd (still ∙ client_open)))
              ])
        ]

    serve-Serving :
        (rounds : ℕ) (ais : List AddrInfo) (before : ℕ) (w : World) (out : ℤ × ℕ × World)
        → Listened ais before w out
        → Serving w (serve calls rounds out)
    unfolding serve
    serve-Serving rounds ais before w (re, addrlen, w1) (inr (failed, same, kept)) =
        rw failed (refl, omega arith)
    serve-Serving rounds ais before w (re, addrlen, w1) (inl (fine, (more, open1, listens), at)) =
        rw fine (
          Runs-repeat (λ w'. opened w' ≡ suc (opened w))
            (λ exitstatus w'. (exitstatus ≡ 1) × (opened w' ≤ opened w + 2))
            (λ w2. daytime_round calls w2 re) (λ w2 h. daytime_round-Serving w w2 re h) rounds w1
            more)

    -- If the calls keep to their laws, daytimetcpsrv2.cpp has one descriptor more than before
    -- `tcp_listen` after any number of rounds in which it goes on; when it has ended its status is
    -- 1 and it has two more at most.
    pub daytime_main-Serving :
        (rounds : ℕ) (w : World) (host serv : List ℕ) (addrlen : ℕ)
        → Serving w (daytime_main calls rounds w host serv addrlen)
    unfolding daytime_main
    daytime_main-Serving rounds w host serv addrlen =
        go (tcp_listen calls w host serv addrlen) (tcp_listen-Listens w host serv addrlen)
      where
        go :
            (out : Served (ℤ × ℕ × World))
            → ListensOrExits w host serv addrlen out
            → Serving w (elim out [
              | goes_on listened ↦ serve calls rounds listened
              | exits exitstatus ended ↦ exits exitstatus ended.2
            ])
        go (goes_on out) h = serve-Serving rounds (calls.getaddrinfo w host serv).1 addrlen w out h
        go (exits exitstatus out) (e, same) = (e, omega arith)
