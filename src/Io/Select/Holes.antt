-- ===== src/Io/Select/Holes.antt =====
-- A free slot below `maxi` in the table of the select server.
use serversidedev.Prelude.{ℕ, zero, suc, ◌+◌, ◌≤◌, ◌<◌, ◌≡◌, refl, subst, Bool, true, false, arith}
use serversidedev.Prelude.Int.{ℤ, pos, negsuc, ◌<ℤ◌, ◌+ℤ◌, eq_ℤ, ltb_ℤ, pos_part}
use serversidedev.Prelude.FdOutcome.{outside}
use serversidedev.Io.{System}
use serversidedev.Io.Select.{is_member, fd_isset, Server, serve_clients, serve_all, server_round}

module _ {World : Type 0} (sys : System World) where
  -- The loop over the clients, from `k` rounds before the free slot.
  loop_faults :
      (rset : ℤ → Bool) (s : Server World) (fdnum k left i : ℕ)
      → ((j : ℕ)
          → i ≤ j
          → j < i + k
          → (is_member (s.clifds j) ≡ true) × (rset (s.clifds j) ≡ false))
      → s.clifds (i + k) ≡ negsuc 0
      → k < left
      → serve_clients sys rset left i fdnum s ≡ outside (negsuc 0)
  unfolding serve_clients fd_isset
  loop_faults rset s fdnum k zero i quiet free lt = absurd (omega arith)
  loop_faults rset s fdnum zero (suc left) i quiet free lt = rw here refl
    where
      here : s.clifds i ≡ negsuc 0
      here = subst (λ m. s.clifds m ≡ negsuc 0) (omega arith) free
  loop_faults rset s fdnum (suc k) (suc left) i quiet free lt =
      let (member, not_ready) = quiet i (omega arith) (omega arith) in
      rw member (
        rw not_ready (
          loop_faults rset s fdnum k left (i + 1) (λ j h lt. quiet j (omega arith) (omega arith))
            (subst (λ m. s.clifds m ≡ negsuc 0) (omega arith) free) (omega arith)))

  -- If no new client waits, the clients in the slots before slot `i` are not ready, and slot `i` is free
  -- while a later one is in use, then a round in which `select` has reported something applies `FD_ISSET`
  -- to -1.
  pub server_round-hole :
      (svrfd : ℤ) (s : Server World) (i : ℕ)
      → pos 0 <ℤ (sys.select s.world (s.maxfd +ℤ pos 1) s.allset).0
      → is_member svrfd ≡ true
      → (sys.select s.world (s.maxfd +ℤ pos 1) s.allset).1 svrfd ≡ false
      → ((j : ℕ)
          → j < i
          → (is_member (s.clifds j) ≡ true)
            × ((sys.select s.world (s.maxfd +ℤ pos 1) s.allset).1 (s.clifds j) ≡ false))
      → s.clifds i ≡ negsuc 0
      → i < s.maxi_next
      → server_round sys svrfd s ≡ outside (negsuc 0)
  unfolding server_round serve_all fd_isset
  server_round-hole svrfd s i some_ready member no_new quiet free lt = rw not_failed (
      rw not_none (
        rw member (
          rw no_new (
            rw
              (loop_faults rset s1 (pos_part re) i s.maxi_next 0 (λ j h lt. quiet j (omega arith))
                (subst (λ m. s.clifds m ≡ negsuc 0) (omega arith) free) lt)
              refl))))
    where
      re : ℤ
      re = (sys.select s.world (s.maxfd +ℤ pos 1) s.allset).0

      rset : ℤ → Bool
      rset = (sys.select s.world (s.maxfd +ℤ pos 1) s.allset).1

      s1 : Server World
      s1 = record s { world = (sys.select s.world (s.maxfd +ℤ pos 1) s.allset).2 }

      not_failed : ltb_ℤ re (pos 0) ≡ false
      not_failed = ground arith

      not_none : eq_ℤ re (pos 0) ≡ false
      not_none = ground arith
