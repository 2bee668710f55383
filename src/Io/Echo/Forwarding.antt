-- ===== src/Io/Echo/Forwarding.antt =====
-- What `read_write` and `data_echo` pass on.
use serversidedev.Prelude.{
  ℕ, zero, suc, ◌≤◌, ◌<◌, ◌≡◌, ◌≢◌, refl, sym, ap, ◌∙◌, List, [], ◌∷◌, ◌++◌, length, append_nil,
  take, arith, false, ◌==◌, if◌then◌else◌,
}
use serversidedev.Prelude.Int.{ℤ, pos, negsuc, pos_part}
use serversidedev.Prelude.Outcome.{Outcome, ok, aborted, fault, unfinished, ◌>>=◌}
use serversidedev.Io.{System, Streams, Laws, Sends, Receives, Silent}
use serversidedev.Io.Write.{full_write}
use serversidedev.Io.Write.Delivery.{NothingTaken, Delivered, full_write-Delivered}
use serversidedev.Io.Echo.{max_line, has_read, read_write}

module _ {World : Type 0} (streams : Streams World) where
  open streams use {sent, received}

  -- Between two worlds, `input` was read from `fromfd` and `output` written to `tofd`, and nothing else.
  pub record Passes (w w' : World) (fromfd tofd : ℤ) (input output : List ℕ) : Type 0 where
    pub read_here : received w' fromfd ≡ received w fromfd ++ input
    pub read_elsewhere : (d : ℤ) → d ≢ fromfd → received w' d ≡ received w d
    pub written_here : sent w' tofd ≡ sent w tofd ++ output
    pub written_elsewhere : (d : ℤ) → d ≢ tofd → sent w' d ≡ sent w d

  pub then-Sends :
      {w w1 w2 : World} {fromfd tofd : ℤ} {input output : List ℕ}
      → Receives streams w w1 fromfd input
      → Sends streams w1 w2 tofd output
      → Passes w w2 fromfd tofd input output
  then-Sends {tofd = tofd} {output = output} r s = record {
    read_here = s.unread _ ∙ r.here;
    read_elsewhere = λ d ne. s.unread d ∙ r.elsewhere d ne;
    written_here = s.here ∙ ap (λ l. l ++ output) (r.unsent tofd);
    written_elsewhere = λ d ne. s.elsewhere d ne ∙ r.unsent d;
  }

  -- A `read` that got nothing.
  pub read_nothing :
      {w w1 : World} {fromfd : ℤ} {input : List ℕ} (tofd : ℤ)
      → Receives streams w w1 fromfd input
      → length input ≡ 0
      → Passes w w1 fromfd tofd [] []
  read_nothing {input = []} tofd r e = record {
    read_here = r.here;
    read_elsewhere = r.elsewhere;
    written_here = r.unsent tofd ∙ sym (append_nil _);
    written_elsewhere = λ d ne. r.unsent d;
  }
  read_nothing {input = x ∷ xs} tofd r e = absurd (omega arith)

  pub Passes-Silent :
      {w w1 w2 : World} {fromfd tofd : ℤ} {input output : List ℕ}
      → Passes w w1 fromfd tofd input output
      → Silent streams w1 w2
      → Passes w w2 fromfd tofd input output
  Passes-Silent {fromfd = fromfd} {tofd = tofd} p s = record {
    read_here = s.unread fromfd ∙ p.read_here;
    read_elsewhere = λ d ne. s.unread d ∙ p.read_elsewhere d ne;
    written_here = s.unsent tofd ∙ p.written_here;
    written_elsewhere = λ d ne. s.unsent d ∙ p.written_elsewhere d ne;
  }

  -- Some bytes, at least one and at most as many as the buffer holds, went through.
  abbrev pub Some : World → World → ℤ → ℤ → Type 0
  Some w w' fromfd tofd =
      (bytes : List ℕ) × (0 < length bytes)
      × (length bytes ≤ max_line)
      × Passes w w' fromfd tofd bytes bytes

  -- The bytes were read, and only some of them written, from the front.
  abbrev pub Cut : World → World → ℤ → ℤ → Type 0
  Cut w w' fromfd tofd =
      (bytes : List ℕ) × (k : ℕ) × (k ≤ length bytes) × Passes w w' fromfd tofd bytes (take k bytes)

module _ {World : Type 0} (sys : System World) (streams : Streams World) where
  -- How `read_write` comes out.
  abbrev pub Forwarded : World → ℤ → ℤ → Outcome (ℕ × ℕ × World) → Type 0
  Forwarded w fromfd tofd (ok (zero, zero, w')) = Some streams w w' fromfd tofd
  Forwarded w fromfd tofd (ok (zero, suc eof, w')) =
      (eof ≡ 0) × Passes streams w w' fromfd tofd [] []
  Forwarded w fromfd tofd (ok (suc zero, eof, w')) =
      (eof ≡ 0) × Passes streams w w' fromfd tofd [] []
  Forwarded w fromfd tofd (ok (suc (suc re), eof, w')) =
      (re ≡ 0) × (eof ≡ 0) × Cut streams w w' fromfd tofd
  Forwarded w fromfd tofd aborted = NothingTaken sys streams tofd
  Forwarded w fromfd tofd fault = ⊥
  Forwarded w fromfd tofd unfinished = ⊥

  after-write :
      (w w1 : World) (fromfd tofd : ℤ) (buff : List ℕ)
      → Receives streams w w1 fromfd buff
      → 0 < length buff
      → length buff ≤ max_line
      → (out : Outcome (ℕ × World)) → Delivered sys streams w1 tofd buff out
      → Forwarded w fromfd tofd (out >>= λ (re, w2). ok (if re == 0 then 0 else 2, 0, w2))
  after-write w w1 fromfd tofd buff r pos_length le (ok (zero, w2)) d =
      (buff, pos_length, le, then-Sends streams r d)
  after-write w w1 fromfd tofd buff r pos_length le (ok (suc re, w2)) (e, (k, h, d)) =
      rw failed (refl, refl, (buff, k, h, then-Sends streams r d))
    where
      failed : (suc re == 0) ≡ false
      failed = ground arith
  after-write w w1 fromfd tofd buff r pos_length le aborted d = d
  after-write w w1 fromfd tofd buff r pos_length le fault d = d
  after-write w w1 fromfd tofd buff r pos_length le unfinished d = d

  module _ (laws : Laws sys streams) where
    has_read-Forwarded :
        (w w1 : World) (fromfd tofd : ℤ) (re : ℤ) (buff : List ℕ)
        → length buff ≡ pos_part re
        → pos_part re ≤ max_line
        → Receives streams w w1 fromfd buff
        → Forwarded w fromfd tofd (has_read sys re buff w1 tofd)
    unfolding has_read
    has_read-Forwarded w w1 fromfd tofd (negsuc n) buff e le r =
        (refl, read_nothing streams tofd r e)
    has_read-Forwarded w w1 fromfd tofd (pos zero) buff e le r =
        (refl, read_nothing streams tofd r e)
    has_read-Forwarded w w1 fromfd tofd (pos (suc n)) buff e le r =
        after-write w w1 fromfd tofd buff r (omega arith) (omega arith)
          (full_write sys w1 tofd buff) (full_write-Delivered sys streams laws w1 tofd buff)

    -- If the system calls keep to their laws, `read_write` ends. It returns 0 with `eof` 0 when it has read
    -- at least one byte and at most as many as its buffer holds and written all of them in their order; 0
    -- with `eof` 1 or 1 when it has read and written nothing; 2 when it has written only some of the bytes
    -- that it read, from the front. It fails an assertion only if a `write` of one byte or more returned 0.
    pub read_write-Forwarded :
        (w : World) (fromfd tofd : ℤ) → Forwarded w fromfd tofd (read_write sys w fromfd tofd)
    unfolding read_write
    read_write-Forwarded w fromfd tofd =
        let (re, buff, w1) = sys.read w fromfd max_line in
        has_read-Forwarded w w1 fromfd tofd re buff (laws.read_length w fromfd max_line)
          (laws.read_bounded w fromfd max_line) (laws.read_receives w fromfd max_line)
