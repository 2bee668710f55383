-- ===== src/Children/Signals/Tests.antt =====
-- Signals in a table of actions, of which 9 and 19 cannot be caught.
use serversidedev.Prelude.{ℕ, ◌≡◌, refl, arith, [], ◌==◌, ◌||◌, update, if◌then◌else◌}
use serversidedev.Prelude.Int.{pos, negsuc}
use serversidedev.Children.Signals.{
  sig_dfl, sig_ign, sig_err, at_sigchld_func, at_func_waitpid, Action, Signals, mysignal, signal,
  SignalLaws,
}

abbrev table : Signals (ℕ → Action)
table = record {
  query = λ w signo. (pos 0, w signo);
  install = λ w signo act.
      if (signo == 9) || (signo == 19)
      then (negsuc 0, act, w)
      else (pos 0, w signo, update w signo act);
}

-- SIGPIPE is ignored, and nothing else is.
abbrev at_first : ℕ → Action
at_first signo = record {
  sa_handler = if signo == 13 then sig_ign else sig_dfl;
  sa_mask = [];
  sa_flags = 0;
}

mysignal_result : ((mysignal table at_first 17 at_sigchld_func).1 17).sa_handler ≡ at_sigchld_func
unfolding mysignal
mysignal_result = refl

mysignal_ignored : ((mysignal table at_first 13 at_sigchld_func).1 13).sa_handler ≡ sig_ign
unfolding mysignal
mysignal_ignored = refl

signal_flags : ((signal table at_first 17 at_func_waitpid).1 17).sa_flags ≡ 268435456
unfolding signal
signal_flags = refl

signal_kill : (signal table at_first 9 at_func_waitpid).0 ≡ sig_err
unfolding signal
signal_kill = refl

table-SignalLaws : SignalLaws table (λ w. w)
table-SignalLaws = record {
  query_reads = λ w signo h. refl;
  install_reads = λ w signo act h. ground arith;
  install_sets = λ w signo act h. ground arith;
  install_fails = λ w signo act h. ground arith;
  install_others = λ w signo act other differs. ground arith;
}
