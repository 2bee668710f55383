-- ===== src/Lhf/Daemon/Tests.antt =====
-- A process with a table of descriptors, and the theorem on `daemon_init` at it.
use serversidedev.Prelude.{ℕ, zero, suc, ◌≡◌, ◌≢◌, refl, ap, Bool, true, false, [], ◌∷◌}
use serversidedev.Prelude.Int.{ℤ, pos, negsuc}
use serversidedev.Prelude.Served.{Runs}
use serversidedev.Prelude.Table.{Table, has, clear_at, is_open, closed, closes}
use serversidedev.Lhf.Daemon.{Calls, daemon_init, Process, Same, Laws}
use serversidedev.Lhf.Daemon.Detached.{Detached, Fails, daemon_init-Detached}

-- The descriptors, and whether the process leads its session.
abbrev Host : Type 0
Host = Table × Bool

abbrev calls : Calls Host
calls = record {
  fork = λ w. (pos 7, w);
  forked = λ w. (w.0, false);
  setsid = λ w. (pos 7, (w.0, true));
  ignore_sighup = λ w. w;
  getcwd = λ w. (true, w);
  chdir_root = λ w. (pos 0, w);
  close = λ w fd. (closed w.0 fd, w.1);
  openlog = λ w. w;
}

abbrev process : Process Host
process = record { is_open = λ w d. is_open w.0 d; is_leader = λ w. w.1 }

has-clear_at : (t : Table) (k j : ℕ) → j ≢ k → has (clear_at t k) j ≡ has t j
has-clear_at [] k j ne = refl
has-clear_at (x ∷ t) zero zero ne = absurd (ne refl)
has-clear_at (x ∷ t) zero (suc j) ne = refl
has-clear_at (x ∷ t) (suc k) zero ne = refl
has-clear_at (x ∷ t) (suc k) (suc j) ne = has-clear_at t k j (λ e. ne (ap suc e))

others : (t : Table) (fd d : ℤ) → d ≢ fd → is_open (closed t fd) d ≡ is_open t d
others t (pos k) (pos j) ne = has-clear_at t k j (λ e. ne (ap pos e))
others t (pos k) (negsuc j) ne = refl
others t (negsuc k) d ne = refl

same : (w : Host) → Same process w w
same w = record { fds = λ d. refl; session = refl }

laws : Laws calls process
laws = record {
  forked_open = λ w d. refl;
  forked_leader = λ w. refl;
  setsid_open = λ w d. refl;
  ignore_sighup_same = same;
  getcwd_same = same;
  chdir_root_same = same;
  openlog_same = same;
  close_closes = λ w fd. closes w.0 fd;
  close_others = λ w fd d ne. others w.0 fd d ne;
  close_leader = λ w fd. refl;
}

abbrev host : Host
host = (true ∷ true ∷ true ∷ true ∷ false ∷ true ∷ [], true)

daemon_init-Detached_example :
    Runs (Detached calls process host) (Fails calls process) (daemon_init calls host)
daemon_init-Detached_example = daemon_init-Detached calls process laws host
