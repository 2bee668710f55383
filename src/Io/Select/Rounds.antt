-- ===== src/Io/Select/Rounds.antt =====
-- The table of clients through the rounds of the select server.
use serversidedev.Prelude.{
  ℕ, zero, suc, ◌+◌, ◌-◌, refl, inl, inr, Bool, Bool-cases, arith, leb, List,
}
use serversidedev.Prelude.Int.{ℤ, pos, negsuc, pos_part, ◌+ℤ◌, eq_ℤ, ltb_ℤ}
use serversidedev.Prelude.FdOutcome.{FdOutcome, fine, outside, and_then_fd, ◌>>=◌}
use serversidedev.Io.{System}
use serversidedev.Io.Echo.{max_line}
use serversidedev.Prelude.Served.{Served, goes_on, exits}
use serversidedev.Io.Select.{
  is_member, fd_isset, Server, add_client, remove_client, lower_maxi, serve_client, serve_clients,
  serve_all, serve_new, server_round, server_rounds, server_start, server_run,
}
use serversidedev.Io.Select.Table.{
  Kept, Tight, Gives, Ends, lower_maxi-Kept, remove_client-Kept, add_client-Kept, server_start-Kept,
}

module _ {State : Type 0} where
  pub Ends-then :
      (First Last : State → Type 0) (out : FdOutcome (Served (State)))
      (next : State → FdOutcome (Served (State)))
      → Ends First out
      → ((s : State) → First s → Ends Last (next s))
      → Ends Last (out >>= (λ served. and_then_fd served next))
  unfolding and_then_fd
  Ends-then First Last (fine (goes_on s)) next h k = k s h
  Ends-then First Last (fine (exits exitstatus s)) next h k = h
  Ends-then First Last (outside fd) next h k = h

module _ {World : Type 0} where
  -- The table between two rounds.
  abbrev pub Settled : Server World → Type 0
  Settled s = Kept s × Tight s

  -- The world is no part of it.
  Kept-world : {s : Server World} (w : World) → Kept s → Kept (record s { world = w })
  Kept-world w k = record { watched = k.watched; free_above = k.free_above; in_table = k.in_table }

  Gives-then :
      (First Last : Server World → Type 0) (out : FdOutcome (Server World))
      (next : Server World → FdOutcome (Served (Server World)))
      → Gives First out
      → ((s : Server World) → First s → Ends Last (next s))
      → Ends Last (out >>= next)
  Gives-then First Last (fine s) next h k = k s h
  Gives-then First Last (outside fd) next h k = h

  isset-then :
      (Last : Server World → Type 0) (set : ℤ → Bool) (fd : ℤ)
      (next : Bool → FdOutcome (Served (Server World)))
      → ((isset : Bool) → Ends Last (next isset))
      → Ends Last (fd_isset set fd >>= next)
  unfolding fd_isset
  isset-then Last set fd next h = elim (Bool-cases (is_member fd)) [
    | inl member ↦ rw member (h (set fd))
    | inr other ↦ rw other other
  ]

module _ {World : Type 0} (sys : System World) where
  serve_client-Kept :
      (re : ℤ) (buff : List ℕ) (s : Server World) (i fdnum : ℕ)
      (rest : ℕ → Server World → FdOutcome (Served (Server World)))
      → Kept s
      → ((fdnum : ℕ) (s : Server World) → Kept s → Ends Kept (rest fdnum s))
      → Ends Kept (serve_client sys re buff s i fdnum rest)
  unfolding serve_client
  serve_client-Kept (negsuc n) buff s i fdnum rest k h = refl
  serve_client-Kept (pos zero) buff s i fdnum rest k h =
      let (re, w) = sys.close s.world (s.clifds i) in
      Gives-then Kept Kept (remove_client (record s { world = w }) i) (rest fdnum)
        (remove_client-Kept (record s { world = w }) i (Kept-world w k)) (h fdnum)
  serve_client-Kept (pos (suc n)) buff s i fdnum rest k h =
      let (re, w) = sys.write s.world (s.clifds i) buff in
      elim (Bool-cases (ltb_ℤ re (pos 0))) [
        | inl failed ↦ rw failed refl
        | inr written ↦ rw written (elim (Bool-cases (leb (fdnum - 1) 0)) [
          | inl all_done ↦ rw all_done (Kept-world w k)
          | inr more ↦ rw more (h (fdnum - 1) (record s { world = w }) (Kept-world w k))
        ])
      ]

  serve_clients-Kept :
      (rset : ℤ → Bool) (left i fdnum : ℕ) (s : Server World)
      → Kept s
      → Ends Kept (serve_clients sys rset left i fdnum s)
  unfolding serve_clients
  serve_clients-Kept rset zero i fdnum s k = k
  serve_clients-Kept rset (suc left) i fdnum s k =
      let (re, buff, w) = sys.read s.world (s.clifds i) max_line in
      let serve =
        serve_client-Kept re buff (record s { world = w }) i fdnum
          (serve_clients sys rset left (i + 1)) (Kept-world w k)
          (serve_clients-Kept rset left (i + 1)) in
      isset-then Kept rset (s.clifds i) _ (λ isset. elim (Bool-cases isset) [
        | inl ready ↦ rw ready serve
        | inr not_ready ↦ rw not_ready (serve_clients-Kept rset left (i + 1) fdnum s k)
      ])

  serve_all-Settled :
      (rset : ℤ → Bool) (fdnum : ℕ) (s : Server World)
      → Kept s
      → Ends Settled (serve_all sys rset fdnum s)
  unfolding serve_all
  serve_all-Settled rset fdnum s k =
      Ends-then Kept Settled (serve_clients sys rset s.maxi_next 0 fdnum s)
        (λ s1. fine (goes_on (lower_maxi s1))) (serve_clients-Kept rset s.maxi_next 0 fdnum s k)
        lower_maxi-Kept

  serve_new-Settled :
      (rset : ℤ → Bool) (fdnum : ℕ) (svrfd : ℤ) (s : Server World)
      → Settled s
      → Ends Settled (serve_new sys rset fdnum svrfd s)
  unfolding serve_new
  serve_new-Settled rset fdnum svrfd s (k, tight) =
      let (clifd, w) = sys.accept s.world svrfd in
      elim (Bool-cases (ltb_ℤ clifd (pos 0))) [
        | inl failed ↦ rw failed refl
        | inr accepted ↦ rw accepted (
            Gives-then Settled Settled (add_client (record s { world = w }) clifd) _
              (add_client-Kept (record s { world = w }) clifd (ground arith) (Kept-world w k) tight)
              (λ s2 (k2, tight2). elim (Bool-cases (leb (fdnum - 1) 0)) [
                | inl only ↦ rw only (k2, tight2)
                | inr more ↦ rw more (serve_all-Settled rset (fdnum - 1) s2 k2)
              ]))
      ]

  server_round-Settled :
      (svrfd : ℤ) (s : Server World) → Settled s → Ends Settled (server_round sys svrfd s)
  unfolding server_round
  server_round-Settled svrfd s (k, tight) =
      let (re, rset, w) = sys.select s.world (s.maxfd +ℤ pos 1) s.allset in
      elim (Bool-cases (ltb_ℤ re (pos 0))) [
        | inl failed ↦ rw failed refl
        | inr selected ↦ rw selected (elim (Bool-cases (eq_ℤ re (pos 0))) [
          | inl none_ready ↦ rw none_ready (Kept-world w k, tight)
          | inr some_ready ↦ rw some_ready (
              isset-then Settled rset svrfd _ (λ isset. elim (Bool-cases isset) [
                | inl new ↦ rw new (
                    serve_new-Settled rset (pos_part re) svrfd (record s { world = w })
                      (Kept-world w k, tight))
                | inr old ↦
                    rw old (
                      serve_all-Settled rset (pos_part re) (record s { world = w })
                        (Kept-world w k))
              ]))
        ])
      ]

  -- From the start of the loop of the select server and through any number of rounds, whatever the system
  -- calls return: while it goes on, each descriptor that it has registered is at most `maxfd`, so that
  -- `select` watches it; all slots of the table from `maxi+1` on are free, and `maxi` is the last slot in
  -- use or -1. A round comes to its end, unless `FD_SET`, `FD_CLR` or `FD_ISSET` gets a descriptor that is
  -- no member of an `fd_set`; the process exits with status 1 only.
  pub server_rounds-Settled :
      (rounds : ℕ) (svrfd : ℤ) (w : World) → Ends Settled (server_run sys rounds svrfd w)
  unfolding server_rounds server_run
  server_rounds-Settled rounds svrfd w =
      Gives-then Settled Settled (server_start svrfd w) (server_rounds sys rounds svrfd)
        (server_start-Kept svrfd w) (go rounds)
    where
      go :
          (rounds : ℕ) (s : Server World)
          → Settled s
          → Ends Settled (server_rounds sys rounds svrfd s)
      go zero s h = h
      go (suc rounds) s h =
          Ends-then Settled Settled (server_round sys svrfd s) (server_rounds sys rounds svrfd)
            (server_round-Settled svrfd s h) (go rounds)
