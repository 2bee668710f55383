-- ===== src/Children/Signals.antt =====
-- The installation of handlers: `mysignal` of css_echo.cpp and `signal` of sigaction_waitpidS.cpp.
mod Tests
use serversidedev.Prelude.{
  ℕ, ◌^◌, ◌≡◌, ◌≢◌, refl, ap, Bool, true, false, not, ◌&&◌, Bool-cases, inl, inr, List, [], ◌==◌,
  if◌then◌else◌,
}
use serversidedev.Prelude.Int.{ℤ, pos, ltb_ℤ}

-- What a handler can be: the functions are `sigchld_func` and `func_waitpid`.
pub data Handler : Type 0 where
  sig_dfl : Handler
  sig_ign : Handler
  sig_err : Handler
  at_sigchld_func : Handler
  at_func_waitpid : Handler

abbrev pub is_ignored : Handler → Bool
is_ignored sig_ign = true
is_ignored handler = false

-- `struct sigaction`.
pub record Action : Type 0 where
  pub sa_handler : Handler
  pub sa_mask : List ℕ
  pub sa_flags : ℕ

-- `sigaction(signo,NULL,&oact)` gives its result and what `oact` has then, and `sigaction(signo,&act,&oact)`
-- the same and the world after it.
pub record Signals (World : Type 0) : Type 0 where
  pub query : World → (signo : ℕ) → ℤ × Action
  pub install : World → (signo : ℕ) → Action → ℤ × Action × World

-- The flags of Linux.
abbrev sa_restart : ℕ
sa_restart = 2 ^ 28

abbrev sa_interrupt : ℕ
sa_interrupt = 2 ^ 29

-- What `mysignal` makes of a function.
abbrev pub plain_action : Handler → Action
plain_action func = record { sa_handler = func; sa_mask = []; sa_flags = 0 }

-- What `signal` makes of a function. SIGALRM is 14.
abbrev pub signal_action : ℕ → Handler → Action
signal_action signo func = record {
  sa_handler = func;
  sa_mask = [];
  sa_flags = if signo == 14 then sa_interrupt else sa_restart;
}

module _ {World : Type 0} (signals : Signals World) where
  -- A handler that is ignored stays. A call that fails leaves `oact` as it was.
  unfoldable pub mysignal : World → ℕ → Handler → Action × World
  mysignal w signo func =
      let oact = (signals.query w signo).1 in
      let (re, oact1, w1) = signals.install w signo (plain_action func) in
      if is_ignored oact.sa_handler
      then (oact, w)
      else (if ltb_ℤ re (pos 0) then oact else oact1, w1)

  unfoldable pub signal : World → ℕ → Handler → Handler × World
  signal w signo func =
      let (re, oact, w1) = signals.install w signo (signal_action signo func) in
      (if ltb_ℤ re (pos 0) then sig_err else oact.sa_handler, w1)

-- What POSIX says of `sigaction`, where `action_of` is the action of each signal.
pub record SignalLaws {World : Type 0} (signals : Signals World) (action_of : World → ℕ → Action)
    : Type 0 where
  pub query_reads :
      (w : World) (signo : ℕ)
      → ltb_ℤ (signals.query w signo).0 (pos 0) ≡ false
      → (signals.query w signo).1 ≡ action_of w signo
  pub install_reads :
      (w : World) (signo : ℕ) (act : Action)
      → ltb_ℤ (signals.install w signo act).0 (pos 0) ≡ false
      → (signals.install w signo act).1 ≡ action_of w signo
  pub install_sets :
      (w : World) (signo : ℕ) (act : Action)
      → ltb_ℤ (signals.install w signo act).0 (pos 0) ≡ false
      → action_of (signals.install w signo act).2 signo ≡ act
  pub install_fails :
      (w : World) (signo : ℕ) (act : Action)
      → ltb_ℤ (signals.install w signo act).0 (pos 0) ≡ true
      → action_of (signals.install w signo act).2 signo ≡ action_of w signo
  pub install_others :
      (w : World) (signo : ℕ) (act : Action) (other : ℕ)
      → other ≢ signo
      → action_of (signals.install w signo act).2 other ≡ action_of w other

module _ {World : Type 0} (signals : Signals World) (action_of : World → ℕ → Action)
    (laws : SignalLaws signals action_of) where
  -- The signal `signo` gets this action or keeps its own, and the other signals keep theirs.
  pub record Changed (signo : ℕ) (act : Action) (is_changed : Bool) (w w1 : World) : Type 0 where
    pub this : action_of w1 signo ≡ (if is_changed then act else action_of w signo)
    pub others : (other : ℕ) → other ≢ signo → action_of w1 other ≡ action_of w other

  -- The call to install it does not fail.
  abbrev pub succeeds : World → ℕ → Action → Bool
  succeeds w signo act = not (ltb_ℤ (signals.install w signo act).0 (pos 0))

  install-Changed :
      (w : World) (signo : ℕ) (act : Action)
      → Changed signo act (succeeds w signo act) w (signals.install w signo act).2
  install-Changed w signo act = record {
    this = elim (Bool-cases (ltb_ℤ (signals.install w signo act).0 (pos 0))) [
      | inl failed ↦ rw failed (laws.install_fails w signo act failed)
      | inr done ↦ rw done (laws.install_sets w signo act done)
    ];
    others = laws.install_others w signo act;
  }

  -- If the signal can be asked for, `mysignal` returns the action before it, and installs the function,
  -- without flags, unless the signal is ignored or `sigaction` fails; else it changes nothing.
  pub mysignal-Changed :
      (w : World) (signo : ℕ) (func : Handler)
      → ltb_ℤ (signals.query w signo).0 (pos 0) ≡ false
      → let act = plain_action func in
        ((mysignal signals w signo func).0 ≡ action_of w signo)
        × Changed signo act
            (not (is_ignored (action_of w signo).sa_handler) && succeeds w signo act)
            w
            (mysignal signals w signo func).1
  unfolding mysignal
  mysignal-Changed w signo func h =
      let act = plain_action func in
      rw (laws.query_reads w signo h)
        (elim (Bool-cases (is_ignored (action_of w signo).sa_handler)) [
          | inl ignored ↦ rw ignored (refl, record { this = refl; others = λ other differs. refl })
          | inr heeded ↦ rw heeded (
            elim (Bool-cases (ltb_ℤ (signals.install w signo act).0 (pos 0))) [
              | inl failed ↦ rw failed refl
              | inr done ↦ rw done (laws.install_reads w signo act done)
            ],
            install-Changed w signo act,
          )
        ])

  -- `signal` installs the function with a flag of the signal and returns the handler before it, or
  -- changes nothing and returns SIG_ERR.
  pub signal-Changed :
      (w : World) (signo : ℕ) (func : Handler)
      → let act = signal_action signo func in
        ((signal signals w signo func).0
          ≡ (if succeeds w signo act then (action_of w signo).sa_handler else sig_err))
        × Changed signo act (succeeds w signo act) w (signal signals w signo func).1
  unfolding signal
  signal-Changed w signo func =
      let act = signal_action signo func in
      (
        elim (Bool-cases (ltb_ℤ (signals.install w signo act).0 (pos 0))) [
          | inl failed ↦ rw failed refl
          | inr done ↦ rw done (ap (λ oact. oact.sa_handler) (laws.install_reads w signo act done))
        ],
        install-Changed w signo act,
      )
