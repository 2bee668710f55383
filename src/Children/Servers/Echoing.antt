-- ===== src/Children/Servers/Echoing.antt =====
-- What the processes of css_echo.cpp and sigaction_waitpidS.cpp send back to their client.
use serversidedev.Prelude.{
  take_all, ℕ, zero, suc, ◌≡◌, refl, sym, ◌∙◌, false, ◌&&◌, Bool-cases, inl, inr, List, [], ◌++◌,
  append_nil, length, take, drop, take-append-drop, arith,
}
use serversidedev.Prelude.Int.{ℤ, pos, pos_part, ltb_ℤ}
use serversidedev.Prelude.Served.{Served, goes_on, exits, Kept}
use serversidedev.Io.{System, Streams, Laws, Silent}
use serversidedev.Io.Echo.Forwarding.{Passes, then-Sends, read_nothing}
use serversidedev.Io.Client.Copying.{link}
use serversidedev.Children.Servers.{Forking, echo_loop, son, grandson, str_echo, waitpid_child}

module _ {World : Type 0} (sys : System World) (streams : Streams World) where
  open streams use {sent, received}

  -- A `write` that does not fail takes all the bytes, as on a blocking socket.
  abbrev pub WholeWrites : Type 0
  WholeWrites =
      (w : World) (fd : ℤ) (buff : List ℕ)
      → ltb_ℤ (sys.write w fd buff).0 (pos 0) ≡ false
      → pos_part (sys.write w fd buff).0 ≡ length buff

  -- No `write` fails.
  abbrev pub NoFailedWrite : Type 0
  NoFailedWrite =
      (w : World) (fd : ℤ) (buff : List ℕ) → ltb_ℤ (sys.write w fd buff).0 (pos 0) ≡ false

  -- All that came from the client was sent back to it.
  abbrev pub Echo : ℤ → World → Type 0
  Echo fd w = sent w fd ≡ received w fd

  -- The same up to what the last `write` did not take.
  abbrev pub EchoOf : ℤ → Served World → Type 0
  EchoOf fd (goes_on w) = Echo fd w
  EchoOf fd (exits zero w) = Echo fd w
  EchoOf fd (exits (suc exitstatus) w) =
      (exitstatus ≡ 0) × (left : List ℕ) × (sent w fd ++ left ≡ received w fd)

  module _ (laws : Laws sys streams) where
    -- The world after a `read` and a `write` of what it gave.
    passed :
        (w : World) (fd : ℤ) (size : ℕ)
        → Passes streams w
            (sys.write (sys.read w fd size).2 fd (sys.read w fd size).1).1
            fd
            fd
            (sys.read w fd size).1
            (take
              (pos_part (sys.write (sys.read w fd size).2 fd (sys.read w fd size).1).0)
              (sys.read w fd size).1)
    passed w fd size =
        let (len, buff, w1) = sys.read w fd size in
        then-Sends streams (laws.read_receives w fd size) (laws.write_sends w1 fd buff)

    -- All that was read was taken.
    whole-Echo :
        (whole : WholeWrites) (w : World) (fd : ℤ) (size : ℕ)
        → ltb_ℤ (sys.write (sys.read w fd size).2 fd (sys.read w fd size).1).0 (pos 0) ≡ false
        → Echo fd w
        → Echo fd (sys.write (sys.read w fd size).2 fd (sys.read w fd size).1).1
    whole-Echo whole w fd size h e =
        let (len, buff, w1) = sys.read w fd size in
        let (re, w2) = sys.write w1 fd buff in
        sym (append_nil (sent w2 fd))
        ∙ link sys streams [] e (passed w fd size) (
            append_nil (take (pos_part re) buff)
            ∙ take_all (pos_part re) buff (omega (arith, whole w1 fd buff h)))

    -- The `read` gave nothing.
    nothing-Echo :
        (w : World) (fd : ℤ) (size : ℕ)
        → ltb_ℤ (pos 0) (sys.read w fd size).0 ≡ false
        → Echo fd w
        → Echo fd (sys.read w fd size).2
    nothing-Echo w fd size h e =
        let (len, buff, w1) = sys.read w fd size in
        sym (append_nil (sent w1 fd))
        ∙ link sys streams [] e
            (read_nothing streams fd (laws.read_receives w fd size)
              (laws.read_length w fd size ∙ not_positive len h))
            refl
      where
        not_positive : (a : ℤ) → ltb_ℤ (pos 0) a ≡ false → pos_part a ≡ 0
        not_positive a h = ground arith

    Echo-Silent : (w w1 : World) (fd : ℤ) → Silent streams w w1 → Echo fd w → Echo fd w1
    Echo-Silent w w1 fd s e = s.unsent fd ∙ e ∙ sym (s.unread fd)

    module _ (forking : Forking World) where
      echo_loop-EchoOf :
          (whole : WholeWrites) (rounds : ℕ) (w : World) (clifd : ℤ)
          → Echo clifd w
          → EchoOf clifd (echo_loop sys forking rounds w clifd)
      unfolding echo_loop
      echo_loop-EchoOf whole zero w clifd e = e
      echo_loop-EchoOf whole (suc rounds) w clifd e =
          let (len, buff, w1) = sys.read w clifd 1023 in
          let (re, w2) = sys.write w1 clifd buff in
          elim (Bool-cases (ltb_ℤ (pos 0) len)) [
            | inl more ↦ rw more (elim (Bool-cases (ltb_ℤ re (pos 0))) [
              | inl failed ↦ rw failed (
                refl,
                drop (pos_part re) buff,
                link sys streams (drop (pos_part re) buff) e (passed w clifd 1023)
                    (take-append-drop (pos_part re) buff),
              )
              | inr wrote ↦
                  rw wrote
                    (echo_loop-EchoOf whole rounds w2 clifd (whole-Echo whole w clifd 1023 wrote e))
            ])
            | inr no_more ↦
                let before = nothing-Echo w clifd 1023 no_more e in
                rw no_more (elim (Bool-cases (ltb_ℤ len (pos 0))) [
                  | inl failed ↦ rw failed (refl, [], append_nil (sent w1 clifd) ∙ before)
                  | inr at_end ↦ rw at_end (
                      Echo-Silent w1 (sys.close w1 clifd).1 clifd (laws.close_silent w1 clifd)
                        before)
                ])
          ]

      -- Of two processes, each begins with what went through the descriptors before.
      abbrev pub ForkSilent : Type 0
      ForkSilent =
          (w : World) → Silent streams w (forking.fork w).1 × Silent streams w (forking.forked w)

      -- If the calls keep to their laws, a `write` that does not fail takes all its bytes, and all
      -- that came from the client has been sent back to it, then the son and the grandson of
      -- css_echo.cpp, after any number of reads, have sent back all that came, in its order, if
      -- they go on or have ended with 0; if they have ended otherwise the status is 1 and the
      -- front of it has been sent back.
      pub client-EchoOf :
          (whole : WholeWrites) (silent : ForkSilent) (rounds : ℕ) (w : World) (clifd : ℤ)
          → Echo clifd w
          → EchoOf clifd (son sys forking rounds w clifd)
            × EchoOf clifd (grandson sys forking rounds w clifd)
      unfolding son grandson
      client-EchoOf whole silent rounds w clifd e =
          let (childpid, w1) = forking.fork w in
          let in_son = Echo-Silent w w1 clifd (silent w).0 e in
          (
            elim (Bool-cases (ltb_ℤ (pos 0) childpid)) [
              | inl forked ↦ rw forked in_son
              | inr alone ↦ rw alone (echo_loop-EchoOf whole rounds w1 clifd in_son)
            ],
            echo_loop-EchoOf whole rounds (forking.forked w) clifd
                (Echo-Silent w (forking.forked w) clifd (silent w).1 e),
          )

      str_echo-Echo :
          (whole : WholeWrites) (none_fails : NoFailedWrite) (rounds : ℕ) (w : World) (cfd : ℤ)
          → Echo cfd w
          → Kept (Echo cfd) (str_echo sys forking rounds w cfd)
      unfolding str_echo
      str_echo-Echo whole none_fails zero w cfd e = e
      str_echo-Echo whole none_fails (suc rounds) w cfd e =
          let (n, buf, w1) = sys.read w cfd 1024 in
          let (re, w2) = sys.write w1 cfd buf in
          elim (Bool-cases (ltb_ℤ (pos 0) n)) [
            | inl more ↦ rw more (
                str_echo-Echo whole none_fails rounds w2 cfd
                  (whole-Echo whole w cfd 1024 (none_fails w1 cfd buf) e))
            | inr no_more ↦
                let before = nothing-Echo w cfd 1024 no_more e in
                rw no_more (elim (Bool-cases (ltb_ℤ n (pos 0) && forking.is_eintr w1)) [
                  | inl again ↦ rw again (str_echo-Echo whole none_fails rounds w1 cfd before)
                  | inr at_end ↦ rw at_end before
                ])
          ]

      pub waitpid_child-Echo :
          (whole : WholeWrites) (none_fails : NoFailedWrite) (rounds : ℕ) (w : World) (s c : ℤ)
          → Echo c w
          → Kept (Echo c) (waitpid_child sys forking rounds w s c)
      unfolding waitpid_child
      waitpid_child-Echo whole none_fails rounds w s c e =
          str_echo-Echo whole none_fails rounds (sys.close w s).1 c
            (Echo-Silent w (sys.close w s).1 c (laws.close_silent w s) e)
