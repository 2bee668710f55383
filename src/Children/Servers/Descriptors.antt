-- ===== src/Children/Servers/Descriptors.antt =====
-- What the forking servers leave open.
use serversidedev.Prelude.{
  ℕ, zero, suc, ◌+◌, ◌≤◌, ◌≡◌, refl, ◌∙◌, false, Bool-cases, inl, inr, length, arith,
}
use serversidedev.Prelude.Int.{ℤ, pos, ltb_ℤ}
use serversidedev.Prelude.Served.{Served, goes_on, exits, unless_ended, Kept, Kept-repeat}
use serversidedev.Io.{System}
use serversidedev.Children.Servers.{
  Forking, Parent, starts, css_echo_round, css_echo_rounds, waitpid_round, waitpid_rounds,
  write_lines, write_to_fd_and_close_it, css_child, Fds, FdLaws,
}

module _ {World : Type 0} (sys : System World) (forking : Forking World) (fds : Fds World)
    (laws : FdLaws sys forking fds) where
  open fds use {opened, is_open}

  -- Each process that was started has left a descriptor open in the server.
  abbrev pub Leaks : Parent World → Parent World → Type 0
  Leaks p p' = opened p.world + length p'.sons ≤ opened p'.world + length p.sons

  css_echo_round-Leaks :
      (start p : Parent World) (svrfd : ℤ)
      → Leaks start p
      → Kept (Leaks start) (css_echo_round sys forking p svrfd)
  unfolding css_echo_round starts
  css_echo_round-Leaks start p svrfd h =
      let (clifd, w1) = sys.accept p.world svrfd in
      elim (Bool-cases (ltb_ℤ clifd (pos 0))) [
        | inl failed ↦ rw failed (elim (Bool-cases (forking.is_eintr w1)) [
          | inl again ↦ rw again (omega (arith, laws.accept_fails p.world svrfd failed))
          | inr other ↦ rw other (omega (arith, laws.accept_fails p.world svrfd failed))
        ])
        | inr accepted ↦
            let (is_new, more) = laws.accept_opens p.world svrfd accepted in
            let (same, same_fds) = laws.fork_keeps w1 in
            rw accepted (elim (Bool-cases (ltb_ℤ (forking.fork w1).0 (pos 0))) [
              | inl no_son ↦ rw no_son (omega arith)
              | inr started ↦ rw started (omega arith)
            ])
      ]

  -- If the calls keep to their laws, each process that the server of css_echo.cpp has started in
  -- any number of rounds has left a descriptor open in the server.
  pub css_echo_rounds-Leaks :
      (rounds : ℕ) (p : Parent World) (svrfd : ℤ)
      → Kept (Leaks p) (css_echo_rounds sys forking rounds p svrfd)
  unfolding css_echo_rounds
  css_echo_rounds-Leaks rounds p svrfd =
      Kept-repeat (Leaks p) (λ p1. css_echo_round sys forking p1 svrfd)
        (λ p1 h. css_echo_round-Leaks p p1 svrfd h) rounds p (omega arith)

  -- The server has as many descriptors as at first.
  abbrev pub Tidy : Parent World → Parent World → Type 0
  Tidy p p' = opened p'.world ≡ opened p.world

  waitpid_round-Tidy :
      (start p : Parent World) (s : ℤ)
      → Tidy start p
      → Kept (Tidy start) (waitpid_round sys forking p s)
  unfolding waitpid_round starts
  waitpid_round-Tidy start p s h =
      let (c, w1) = sys.accept p.world s in
      elim (Bool-cases (ltb_ℤ c (pos 0))) [
        | inl failed ↦ rw failed (laws.accept_fails p.world s failed ∙ h)
        | inr accepted ↦
            let (is_new, more) = laws.accept_opens p.world s accepted in
            let (same, same_fds) = laws.fork_keeps w1 in
            let freed = laws.close_frees (forking.fork w1).1 c (same_fds c ∙ is_new) in
            rw accepted (omega arith)
      ]

  -- If the calls keep to their laws, the server of sigaction_waitpidS.cpp has as many descriptors
  -- open after any number of rounds, also when it has ended, as at the start.
  pub waitpid_rounds-Tidy :
      (rounds : ℕ) (p : Parent World) (s : ℤ)
      → Kept (Tidy p) (waitpid_rounds sys forking rounds p s)
  unfolding waitpid_rounds
  waitpid_rounds-Tidy rounds p s =
      Kept-repeat (Tidy p) (λ p1. waitpid_round sys forking p1 s)
        (λ p1 h. waitpid_round-Tidy p p1 s h) rounds p refl

  -- The process has ended with status 1.
  abbrev pub Fails : Served World → Type 0
  Fails (goes_on w) = ⊥
  Fails (exits exitstatus w) = exitstatus ≡ 1

  -- The same, unless it goes on in such a world.
  Errs : (World → Type 0) → Served World → Type 0
  Errs Goes (goes_on w) = Goes w
  Errs Goes (exits exitstatus w) = exitstatus ≡ 1

  write_lines-Errs :
      (left i : ℕ) (w : World) (fd : ℤ)
      → Errs (λ w1. Unit {0}) (write_lines sys forking left i w fd)
  unfolding write_lines Errs
  write_lines-Errs zero i w fd = tt
  write_lines-Errs (suc left) i w fd =
      elim (Bool-cases (ltb_ℤ (sys.write w fd (forking.line w i)).0 (pos 0))) [
        | inl failed ↦ rw failed refl
        | inr wrote ↦
            rw wrote (
              write_lines-Errs left (suc i) (forking.sleep (sys.write w fd (forking.line w i)).1)
                fd)
      ]

  closes :
      (fd : ℤ) (out : Served World)
      → Errs (λ w1. Unit {0}) out
      → Errs (λ w1. is_open w1 fd ≡ false) (unless_ended out (λ w1. goes_on (sys.close w1 fd).1))
  unfolding Errs unless_ended
  closes fd (goes_on w) h = laws.close_closes w fd
  closes fd (exits exitstatus w) h = h

  closed-Fails :
      (time : ℕ) (w : World) (fd : ℤ)
      → is_open w fd ≡ false
      → Fails (write_to_fd_and_close_it sys forking w fd (suc time))
  unfolding write_to_fd_and_close_it write_lines unless_ended
  closed-Fails time w fd h = rw (laws.write_closed w fd (forking.line w 0) h) refl

  then-Fails :
      (fd : ℤ) (out : Served World)
      → Errs (λ w1. is_open w1 fd ≡ false) out
      → Fails (unless_ended out (λ w1. write_to_fd_and_close_it sys forking w1 fd 10))
  unfolding Errs unless_ended
  then-Fails fd (goes_on w) h = closed-Fails 9 w fd h
  then-Fails fd (exits exitstatus w) h = h

  -- If `close` closes and a `write` to a closed descriptor fails, the process that css.cpp starts
  -- for a client never comes to the end of what it does in the round: it ends with status 1, at
  -- the latest when it writes to the connection that it has closed.
  pub css_child-Fails : (w : World) (clifd : ℤ) → Fails (css_child sys forking w clifd)
  unfolding css_child write_to_fd_and_close_it
  css_child-Fails w clifd = then-Fails clifd _ (closes clifd _ (write_lines-Errs 20 0 w clifd))
