-- ===== src/Children/Servers/Mains.antt =====
-- `main` of css_echo.cpp, sigaction_waitpidS.cpp and css.cpp, for a number of rounds of their loops.
use serversidedev.Prelude.{ℕ, suc, ◌≤◌, ◌≡◌, Bool-cases, inl, inr, [], arith, if◌then◌else◌}
use serversidedev.Prelude.Int.{pos, ltb_ℤ}
use serversidedev.Prelude.Served.{Served, goes_on, exits, repeat, Kept}
use serversidedev.Io.{System}
use serversidedev.Children.Servers.{
  Forking, Parent, css_echo_rounds, waitpid_rounds, css_round, Fds, FdLaws,
}
use serversidedev.Children.Signals.{
  Action, at_sigchld_func, at_func_waitpid, Signals, mysignal, signal, signal_action,
}
use serversidedev.Children.Servers.Descriptors.{Tidy, waitpid_rounds-Tidy}

module _ {World : Type 0} (sys : System World) (forking : Forking World)
    (signals : Signals World) where
  -- A server that has started no process.
  abbrev pub alone : World → Parent World
  alone w = record { world = w; sons = [] }

  -- What `socket` and `listen` return is not looked at.
  unfoldable pub css_echo_main : ℕ → World → Served (Parent World)
  unfolding css_echo_rounds mysignal
  css_echo_main rounds w =
      let (oact, w0) = mysignal signals w 17 at_sigchld_func in
      let (svrfd, w1) = sys.socket w0 in
      let (re, w2) = sys.bind w1 svrfd 25000 in
      let (listening, w3) = sys.listen w2 svrfd 1024 in
      if ltb_ℤ re (pos 0)
      then exits 1 (alone w2)
      else css_echo_rounds sys forking rounds (alone w3) svrfd

  unfoldable pub waitpid_main : ℕ → World → Served (Parent World)
  unfolding signal
  waitpid_main rounds w =
      let (handler, w0) = signal signals w 17 at_func_waitpid in
      let (s, w1) = sys.socket w0 in
      let (bound, w2) = sys.bind w1 s 9998 in
      let (listening, w3) = sys.listen w2 s 1024 in
      if ltb_ℤ s (pos 0)
      then exits 0 (alone w1)
      else if ltb_ℤ bound (pos 0)
      then exits 0 (alone w2)
      else if ltb_ℤ listening (pos 0)
      then exits 0 (alone w3)
      else waitpid_rounds sys forking rounds (alone w3) s

  -- What `socket` returns is not looked at.
  unfoldable pub css_main : ℕ → World → Served (Parent World)
  unfolding css_round repeat
  css_main rounds w =
      let (svrfd, w1) = sys.socket w in
      let (bound, w2) = sys.bind w1 svrfd 25000 in
      let (listening, w3) = sys.listen w2 svrfd 1024 in
      if ltb_ℤ bound (pos 0)
      then exits 1 (alone w2)
      else if ltb_ℤ listening (pos 0)
      then exits 1 (alone w3)
      else repeat (λ p. css_round sys forking p svrfd) rounds (alone w3)

module _ {World : Type 0} (sys : System World) (forking : Forking World) (fds : Fds World)
    (laws : FdLaws sys forking fds) (signals : Signals World)
    (install_keeps : (w : World) (signo : ℕ) (act : Action)
      → fds.opened (signals.install w signo act).2 ≡ fds.opened w) where
  -- The server has one descriptor more than at its start at most.
  abbrev pub OneMore : World → Parent World → Type 0
  OneMore w p = fds.opened p.world ≤ suc (fds.opened w)

  from-Tidy :
      (w : World) (p : Parent World) (out : Served (Parent World))
      → OneMore w p
      → Kept (Tidy sys forking fds laws p) out
      → Kept (OneMore w) out
  from-Tidy w p (goes_on p1) h tidy = omega arith
  from-Tidy w p (exits exitstatus p1) h tidy = omega arith

  pub waitpid_main-OneMore :
      (rounds : ℕ) (w : World) → Kept (OneMore w) (waitpid_main sys forking signals rounds w)
  unfolding waitpid_main signal
  waitpid_main-OneMore rounds w =
      let w0 = (signals.install w 17 (signal_action 17 at_func_waitpid)).2 in
      let (s, w1) = sys.socket w0 in
      let (bound, w2) = sys.bind w1 s 9998 in
      let (listening, w3) = sys.listen w2 s 1024 in
      let kept = install_keeps w 17 (signal_action 17 at_func_waitpid) in
      let made = laws.socket_opens w0 in
      let same2 = laws.bind_keeps w1 s 9998 in
      let same3 = laws.listen_keeps w2 s 1024 in
      elim (Bool-cases (ltb_ℤ s (pos 0))) [
        | inl failed ↦ rw failed (omega arith)
        | inr fine ↦ rw fine (elim (Bool-cases (ltb_ℤ bound (pos 0))) [
          | inl in_use ↦ rw in_use (omega arith)
          | inr binds ↦ rw binds (elim (Bool-cases (ltb_ℤ listening (pos 0))) [
            | inl refused ↦ rw refused (omega arith)
            | inr listens ↦ rw listens (
                from-Tidy w (alone sys forking signals w3)
                  (waitpid_rounds sys forking rounds (alone sys forking signals w3) s) (omega arith)
                  (waitpid_rounds-Tidy sys forking fds laws rounds (alone sys forking signals w3)
                    s))
          ])
        ])
      ]
