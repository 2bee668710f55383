-- ===== src/Io/Client/PollRounds.antt =====
-- The rounds of the poll client.
use serversidedev.Prelude.{
  ℕ, zero, suc, ◌≢◌, [], ◌∷◌, Bool, ◌&&◌, Bool-cases, inl, inr, ◌==◌, if◌then◌else◌,
}
use serversidedev.Prelude.Int.{ℤ, pos, ltb_ℤ, eq_ℤ}
use serversidedev.Prelude.Outcome.{Outcome, ok, aborted, fault, unfinished, ◌>>=◌}
use serversidedev.Io.{System, Streams, Laws}
use serversidedev.Io.Echo.{read_write}
use serversidedev.Prelude.Served.{Served, goes_on, exits}
use serversidedev.Io.Client.{Client}
use serversidedev.Io.Client.Copying.{Copied, Relayed, Copied-Begun, Copied-Silent, and_then-Relayed}
use serversidedev.Io.Client.Rounds.{up, down}
use serversidedev.Io.Client.Polling.{
  is_ready, poll_stdin, poll_svrfd, client_round, client_rounds, Reliable, Whole, read_write-Whole,
}

module _ {World : Type 0} (sys : System World) (streams : Streams World)
    (stdinfd stdoutfd svrfd : ℤ) (no_loop_in : svrfd ≢ stdinfd)
    (no_loop_out : stdoutfd ≢ svrfd) where
  abbrev Passed : World → Type 0
  Passed w = Copied sys streams stdinfd stdoutfd svrfd w

  abbrev Relays : Outcome (Served (Client World)) → Type 0
  Relays out = Relayed sys streams stdinfd stdoutfd svrfd out

  after_stdin :
      (c : Client World) (out : Outcome (ℕ × ℕ × World))
      → Passed c.world
      → Whole sys streams c.world stdinfd svrfd out
      → Relays
          (out >>= (λ (r : ℕ × ℕ × World). ok (goes_on (record c { stdineof = r.1; world = r.2 }))))
  after_stdin c (ok (re, eof, w)) copied (bytes, p) =
      up sys streams stdinfd stdoutfd svrfd no_loop_in no_loop_out copied p
  after_stdin c aborted copied f = absurd f
  after_stdin c fault copied f = f
  after_stdin c unfinished copied f = f

  after_svrfd :
      (c : Client World) (out : Outcome (ℕ × ℕ × World))
      → Passed c.world
      → Whole sys streams c.world svrfd stdoutfd out
      → Relays (
          out >>= (λ (r : ℕ × ℕ × World). ok (
            if r.1 == 0
            then goes_on (record c { svrfdeof = r.1; world = r.2 })
            else exits 0 (record c { svrfdeof = r.1; world = r.2 }))))
  after_svrfd c (ok (re, eof, w)) copied (bytes, p) = elim (Bool-cases (eof == 0)) [
    | inl more ↦ rw more (down sys streams stdinfd stdoutfd svrfd no_loop_in no_loop_out copied p)
    | inr ended ↦ rw ended (down sys streams stdinfd stdoutfd svrfd no_loop_in no_loop_out copied p)
  ]
  after_svrfd c aborted copied f = absurd f
  after_svrfd c fault copied f = f
  after_svrfd c unfinished copied f = f

  module _ (laws : Laws sys streams) (reliable : Reliable sys streams) where
    poll_stdin-Relayed :
        (ready : Bool) (c : Client World)
        → Passed c.world
        → Relays (poll_stdin sys stdinfd stdoutfd svrfd ready c)
    unfolding poll_stdin
    poll_stdin-Relayed ready c copied = elim (Bool-cases (c.stdineof == 0 && ready)) [
      | inl open_and_ready ↦ rw open_and_ready (
          after_stdin c (read_write sys c.world stdinfd svrfd) copied
            (read_write-Whole sys streams laws reliable c.world stdinfd svrfd))
      | inr not_now ↦ rw not_now copied
    ]

    poll_svrfd-Relayed :
        (ready : Bool) (c : Client World)
        → Passed c.world
        → Relays (poll_svrfd sys stdinfd stdoutfd svrfd ready c)
    unfolding poll_svrfd
    poll_svrfd-Relayed ready c copied = elim (Bool-cases (c.svrfdeof == 0 && ready)) [
      | inl open_and_ready ↦ rw open_and_ready (
          after_svrfd c (read_write sys c.world svrfd stdoutfd) copied
            (read_write-Whole sys streams laws reliable c.world svrfd stdoutfd))
      | inr not_now ↦ rw not_now copied
    ]

    client_round-Relayed :
        (c : Client World) → Passed c.world → Relays (client_round sys stdinfd stdoutfd svrfd c)
    unfolding client_round
    client_round-Relayed c copied =
        let (re, revents, w) = sys.poll c.world (stdinfd ∷ svrfd ∷ []) in
        let copied1 =
          Copied-Silent sys streams stdinfd stdoutfd svrfd copied
            (laws.poll_silent c.world (stdinfd ∷ svrfd ∷ [])) in
        elim (Bool-cases (ltb_ℤ re (pos 0))) [
          | inl failed ↦ rw failed (Copied-Begun sys streams stdinfd stdoutfd svrfd copied1)
          | inr good ↦ rw good (elim (Bool-cases (eq_ℤ re (pos 0))) [
            | inl none_ready ↦ rw none_ready copied1
            | inr some_ready ↦ rw some_ready (
                and_then-Relayed sys streams stdinfd stdoutfd svrfd
                  (poll_stdin sys stdinfd stdoutfd svrfd (is_ready (revents 0))
                    (record c { world = w }))
                  (poll_svrfd sys stdinfd stdoutfd svrfd (is_ready (revents 1)))
                  (poll_stdin-Relayed (is_ready (revents 0)) (record c { world = w }) copied1)
                  (poll_svrfd-Relayed (is_ready (revents 1))))
          ])
        ]

    -- If the system calls keep to their laws, a `write` of a byte or more takes a byte at least, the three
    -- descriptors differ as the hypotheses say, and all that was read has been passed on, then after any
    -- number of rounds of the poll client, if it goes on or has exited with 0, all that it read from its
    -- input has been sent to the server and all that the server sent has been put out, in order; if it has
    -- exited with another status, the front of each.
    pub client_rounds-Relayed :
        (rounds : ℕ) (c : Client World)
        → Copied sys streams stdinfd stdoutfd svrfd c.world
        → Relayed sys streams stdinfd stdoutfd svrfd
            (client_rounds sys stdinfd stdoutfd svrfd rounds c)
    unfolding client_rounds
    client_rounds-Relayed zero c copied = copied
    client_rounds-Relayed (suc rounds) c copied =
        and_then-Relayed sys streams stdinfd stdoutfd svrfd
          (client_round sys stdinfd stdoutfd svrfd c)
          (client_rounds sys stdinfd stdoutfd svrfd rounds) (client_round-Relayed c copied)
          (client_rounds-Relayed rounds)
