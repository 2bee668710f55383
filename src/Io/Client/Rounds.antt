-- ===== src/Io/Client/Rounds.antt =====
-- The rounds of the select client.
use serversidedev.Prelude.{
  ℕ, zero, suc, ◌≡◌, ◌≢◌, sym, ◌∙◌, List, [], drop, take-append-drop, append_nil, arith, Bool,
  false, ◌&&◌, Bool-cases, inl, inr, ◌==◌, if◌then◌else◌,
}
use serversidedev.Prelude.Int.{ℤ, pos, eq_ℤ, ltb_ℤ, ◌+ℤ◌}
use serversidedev.Prelude.Outcome.{Outcome, ok, aborted, fault, unfinished, ◌>>=◌}
use serversidedev.Io.{System, Streams, Laws}
use serversidedev.Io.Echo.{read_write_shutdown_if_read_eof}
use serversidedev.Io.Echo.Forwarding.{Passes, Cut}
use serversidedev.Prelude.Served.{goes_on, exits}
use serversidedev.Io.Client.{
  Client, max_ℤ, both_fds, from_stdin, from_svrfd, select_round, select_rounds,
}
use serversidedev.Io.Client.Copying.{
  Copies, link, other_link, copy-Copies, Copied, Begun, Relayed, Copied-Begun, Copied-Silent,
  and_then-Relayed,
}

module _ {World : Type 0} (sys : System World) (streams : Streams World)
    (stdinfd stdoutfd svrfd : ℤ) (no_loop_in : svrfd ≢ stdinfd)
    (no_loop_out : stdoutfd ≢ svrfd) where
  open streams use {sent, received}

  pub up :
      {w w' : World} {bytes : List ℕ}
      → Copied sys streams stdinfd stdoutfd svrfd w
      → Passes streams w w' stdinfd svrfd bytes bytes
      → Copied sys streams stdinfd stdoutfd svrfd w'
  up {w' = w'} {bytes} (sent_up, sent_down) p = (
    sym (append_nil (sent w' svrfd)) ∙ link sys streams [] sent_up p (append_nil bytes),
    other_link sys streams svrfd stdoutfd no_loop_in no_loop_out sent_down p,
  )

  pub down :
      {w w' : World} {bytes : List ℕ}
      → Copied sys streams stdinfd stdoutfd svrfd w
      → Passes streams w w' svrfd stdoutfd bytes bytes
      → Copied sys streams stdinfd stdoutfd svrfd w'
  down {w' = w'} {bytes} (sent_up, sent_down) p = (
    other_link sys streams stdinfd svrfd (λ e. no_loop_in (sym e)) (λ e. no_loop_out (sym e))
        sent_up p,
    sym (append_nil (sent w' stdoutfd)) ∙ link sys streams [] sent_down p (append_nil bytes),
  )

  up-Cut :
      {w w' : World}
      → Copied sys streams stdinfd stdoutfd svrfd w
      → Cut streams w w' stdinfd svrfd
      → Begun sys streams stdinfd stdoutfd svrfd w'
  up-Cut {w' = w'} (sent_up, sent_down) (bytes, k, le, p) = (
    (drop k bytes, link sys streams (drop k bytes) sent_up p (take-append-drop k bytes)),
    (
      [],
      append_nil (sent w' stdoutfd)
          ∙ other_link sys streams svrfd stdoutfd no_loop_in no_loop_out sent_down p,
    ),
  )

  down-Cut :
      {w w' : World}
      → Copied sys streams stdinfd stdoutfd svrfd w
      → Cut streams w w' svrfd stdoutfd
      → Begun sys streams stdinfd stdoutfd svrfd w'
  down-Cut {w' = w'} (sent_up, sent_down) (bytes, k, le, p) = (
    (
      [],
      append_nil (sent w' svrfd)
          ∙ other_link sys streams stdinfd svrfd (λ e. no_loop_in (sym e))
              (λ e. no_loop_out (sym e)) sent_up p,
    ),
    (drop k bytes, link sys streams (drop k bytes) sent_down p (take-append-drop k bytes)),
  )

  after_stdin :
      (c : Client World) (out : Outcome (ℕ × ℕ × World))
      → Copied sys streams stdinfd stdoutfd svrfd c.world
      → Copies sys streams c.world stdinfd svrfd out
      → Relayed sys streams stdinfd stdoutfd svrfd (
          out >>= (λ (r : ℕ × ℕ × World). ok (
            if r.0 == 0
            then goes_on (record c { stdineof = r.1; world = r.2 })
            else exits 1 (record c { stdineof = r.1; world = r.2 }))))
  after_stdin c (ok (zero, eof, w)) copied (bytes, p) = up copied p
  after_stdin c (ok (suc re, eof, w)) copied cut = rw not_zero (up-Cut copied cut)
    where
      not_zero : (suc re == 0) ≡ false
      not_zero = ground arith
  after_stdin c aborted copied f = (svrfd, f)
  after_stdin c fault copied f = f
  after_stdin c unfinished copied f = f

  after_svrfd :
      (c : Client World) (out : Outcome (ℕ × ℕ × World))
      → Copied sys streams stdinfd stdoutfd svrfd c.world
      → Copies sys streams c.world svrfd stdoutfd out
      → Relayed sys streams stdinfd stdoutfd svrfd (
          out >>= (λ (r : ℕ × ℕ × World). ok (
            if r.0 == 0
            then (if r.1 == 0
                then goes_on (record c { svrfdeof = r.1; world = r.2 })
                else exits 0 (record c { svrfdeof = r.1; world = r.2 }))
            else exits 2 (record c { svrfdeof = r.1; world = r.2 }))))
  after_svrfd c (ok (zero, eof, w)) copied (bytes, p) = elim (Bool-cases (eof == 0)) [
    | inl more ↦ rw more (down copied p)
    | inr ended ↦ rw ended (down copied p)
  ]
  after_svrfd c (ok (suc re, eof, w)) copied cut = rw not_zero (down-Cut copied cut)
    where
      not_zero : (suc re == 0) ≡ false
      not_zero = ground arith
  after_svrfd c aborted copied f = (stdoutfd, f)
  after_svrfd c fault copied f = f
  after_svrfd c unfinished copied f = f

  module _ (laws : Laws sys streams) where
    from_stdin-Relayed :
        (isset : Bool) (c : Client World)
        → Copied sys streams stdinfd stdoutfd svrfd c.world
        → Relayed sys streams stdinfd stdoutfd svrfd (from_stdin sys stdinfd stdoutfd svrfd isset c)
    unfolding from_stdin
    from_stdin-Relayed isset c copied = elim (Bool-cases (c.stdineof == 0 && isset)) [
      | inl ready ↦ rw ready (
          after_stdin c (read_write_shutdown_if_read_eof sys c.world stdinfd svrfd) copied
            (copy-Copies sys streams laws c.world stdinfd svrfd))
      | inr not_ready ↦ rw not_ready copied
    ]

    from_svrfd-Relayed :
        (isset : Bool) (c : Client World)
        → Copied sys streams stdinfd stdoutfd svrfd c.world
        → Relayed sys streams stdinfd stdoutfd svrfd (from_svrfd sys stdinfd stdoutfd svrfd isset c)
    unfolding from_svrfd
    from_svrfd-Relayed isset c copied = elim (Bool-cases (c.svrfdeof == 0 && isset)) [
      | inl ready ↦ rw ready (
          after_svrfd c (read_write_shutdown_if_read_eof sys c.world svrfd stdoutfd) copied
            (copy-Copies sys streams laws c.world svrfd stdoutfd))
      | inr not_ready ↦ rw not_ready copied
    ]

    select_round-Relayed :
        (c : Client World)
        → Copied sys streams stdinfd stdoutfd svrfd c.world
        → Relayed sys streams stdinfd stdoutfd svrfd (select_round sys stdinfd stdoutfd svrfd c)
    unfolding select_round
    select_round-Relayed c copied =
        let maxfdp1 = max_ℤ svrfd stdinfd +ℤ pos 1 in
        let (re, rset, w) = sys.select c.world maxfdp1 (both_fds stdinfd svrfd) in
        let copied1 =
          Copied-Silent sys streams stdinfd stdoutfd svrfd copied
            (laws.select_silent c.world maxfdp1 (both_fds stdinfd svrfd)) in
        elim (Bool-cases (ltb_ℤ re (pos 0))) [
          | inl failed ↦ rw failed (Copied-Begun sys streams stdinfd stdoutfd svrfd copied1)
          | inr selected ↦ rw selected (elim (Bool-cases (eq_ℤ re (pos 0))) [
            | inl none_ready ↦ rw none_ready copied1
            | inr some_ready ↦ rw some_ready (
                and_then-Relayed sys streams stdinfd stdoutfd svrfd
                  (from_stdin sys stdinfd stdoutfd svrfd (rset stdinfd) (record c { world = w }))
                  (from_svrfd sys stdinfd stdoutfd svrfd (rset svrfd))
                  (from_stdin-Relayed (rset stdinfd) (record c { world = w }) copied1)
                  (from_svrfd-Relayed (rset svrfd)))
          ])
        ]

    -- If the system calls keep to their laws, the three descriptors differ as the hypotheses say,
    -- and all that was read has been passed on, then after any number of rounds of the select
    -- client, if it goes on or has exited with 0, all that it has read from its input has been
    -- sent to the server and all that it has read from the server has been put out, in order; if
    -- it has exited with another status, a front of each; it fails an assertion only if a `write`
    -- of one byte or more returned 0.
    pub select_rounds-Relayed :
        (rounds : ℕ) (c : Client World)
        → Copied sys streams stdinfd stdoutfd svrfd c.world
        → Relayed sys streams stdinfd stdoutfd svrfd
            (select_rounds sys stdinfd stdoutfd svrfd rounds c)
    unfolding select_rounds
    select_rounds-Relayed zero c copied = copied
    select_rounds-Relayed (suc rounds) c copied =
        and_then-Relayed sys streams stdinfd stdoutfd svrfd
          (select_round sys stdinfd stdoutfd svrfd c)
          (select_rounds sys stdinfd stdoutfd svrfd rounds) (select_round-Relayed c copied)
          (select_rounds-Relayed rounds)
