-- ===== src/Tcp/Replies.antt =====
-- How csc_echo.cpp gets its lines back.
use serversidedev.Prelude.{
  ℕ, zero, suc, ◌+◌, ◌≤◌, ◌<◌, ◌≡◌, refl, sym, ap, subst, ◌∙◌, true, false, Bool-cases, inl, inr,
  List, [], ◌∷◌, ◌++◌, append_nil, append_assoc, length, length-drop, take, drop, take_all,
  take-append-drop, arith, ltb, ◌==◌,
}
use serversidedev.Prelude.Int.{ℤ, pos, ltb_ℤ, leb_ℤ}
use serversidedev.Prelude.CString.{c_string, Text, concat, c_string-Text, Text-take, Text-drop}
use serversidedev.Prelude.Outcome.{Outcome, ok, aborted, fault, unfinished, ◌>>=◌}
use serversidedev.Prelude.Served.{Served, goes_on, exits, and_then}
use serversidedev.Io.{System}
use serversidedev.Tcp.{Console, fputs, read_replies, echo_client}

drop_all : (k : ℕ) (xs : List ℕ) → length xs ≤ k → drop k xs ≡ []
drop_all zero [] h = refl
drop_all zero (x ∷ xs) h = absurd (omega arith)
drop_all (suc k) [] h = refl
drop_all (suc k) (x ∷ xs) h = drop_all k xs (omega arith)

-- Lines of at least one byte and at most so many.
abbrev pub InputLines : ℕ → List (List ℕ) → Type 0
InputLines most [] = Unit
InputLines most (line ∷ lines) =
    Text line × (0 < length line) × (length line ≤ most) × InputLines most lines

module _ {World : Type 0} (sys : System World) (fd : ℤ) (pending : World → List ℕ) where
  -- The server sends back what it gets. A `write` takes all its bytes; a `read` gives at least one of those on their way.
  pub record EchoStream : Type 0 where
    pub writes :
        (w : World) (buff : List ℕ)
        → (ltb_ℤ (sys.write w fd buff).0 (pos 0) ≡ false)
          × (pending (sys.write w fd buff).1 ≡ pending w ++ buff)
    pub reads :
        (w : World)
        → 0 < length (pending w)
        → (k : ℕ) × (0 < k)
          × (k ≤ length (pending w))
          × ((sys.read w fd 1023).0 ≡ pos k)
          × ((sys.read w fd 1023).1 ≡ take k (pending w))
          × (pending (sys.read w fd 1023).2 ≡ drop k (pending w))

  -- All has been put out, and nothing is on its way.
  abbrev Replied : List ℕ → Outcome (Served (Console World)) → Type 0
  Replied all (ok (goes_on c)) = (c.out ≡ all) × (pending c.world ≡ [])
  Replied all out = ⊥

  -- The client has ended with status 1, as it does at the end of its input, and has put this out.
  abbrev pub PutsAndEnds : List ℕ → Outcome (Served (Console World)) → Type 0
  PutsAndEnds all (ok (exits exitstatus c)) = (exitstatus ≡ 1) × (c.out ≡ all)
  PutsAndEnds all out = ⊥

  -- One `read` of `k` bytes of what is on its way, and the rest of the loop.
  Replied-step :
      (fuel : ℕ) (c : Console World) (cnt len k : ℕ) (p : List ℕ)
      → Text p
      → k ≤ length p
      → cnt + length p ≡ len
      → (sys.read c.world fd 1023).0 ≡ pos k
      → (sys.read c.world fd 1023).1 ≡ take k p
      → pending (sys.read c.world fd 1023).2 ≡ drop k p
      → ((c1 : Console World)
          → pending c1.world ≡ drop k p
          → k < length p
          → Replied (c1.out ++ drop k p) (read_replies sys fuel c1 fd (cnt + k) len))
      → Replied (c.out ++ p) (read_replies sys (suc fuel) c fd cnt len)
  unfolding read_replies fputs
  Replied-step fuel c cnt len k p t le total re bytes left rest =
      let shown =
        ap (λ l. c_string (l ++ (0 ∷ []))) bytes ∙ c_string-Text (take k p) [] (Text-take k p t) in
      rw re (
        rw (not_negative k) (
          rw shown (elim (Bool-cases (cnt + k == len)) [
            | inl all ↦ rw all (
              ap (λ l. c.out ++ l) (take_all k p (ground arith)),
              left ∙ drop_all k p (ground arith),
            )
            | inr some ↦ rw some (
                rw (not_over (cnt + k) len (omega arith)) (
                  subst
                    (λ l. Replied l (
                      read_replies sys fuel
                        (record { out = c.out ++ take k p; world = (sys.read c.world fd 1023).2 })
                        fd (cnt + k) len))
                    (append_assoc c.out (take k p) (drop k p)
                      ∙ ap (λ l. c.out ++ l) (take-append-drop k p))
                    (rest (record { out = c.out ++ take k p; world = (sys.read c.world fd 1023).2 })
                      left (ground arith))))
          ])))
    where
      not_negative : (n : ℕ) → leb_ℤ (pos 0) (pos n) ≡ true
      not_negative n = ground arith

      not_over : (a b : ℕ) → a ≤ b → ltb b a ≡ false
      not_over a b h = ground arith

  module _ (echo : EchoStream) where
    read_replies-Replied :
        (fuel : ℕ) (c : Console World) (cnt len : ℕ) (p : List ℕ)
        → pending c.world ≡ p
        → Text p
        → 0 < length p
        → length p ≤ fuel
        → cnt + length p ≡ len
        → Replied (c.out ++ p) (read_replies sys fuel c fd cnt len)
    read_replies-Replied zero c cnt len p e t some lt total = absurd (omega arith)
    read_replies-Replied (suc fuel) c cnt len p e t some lt total =
        let (k, positive, le, re, bytes, left) =
          echo.reads c.world (subst (λ l. 0 < length l) (sym e) some) in
        Replied-step fuel c cnt len k p t (omega (arith, ap length e)) total re
          (bytes ∙ ap (λ l. take k l) e) (left ∙ ap (λ l. drop k l) e)
          (λ c1 e1 below.
            read_replies-Replied fuel c1 (cnt + k) len (drop k p) e1 (Text-drop k p t)
              (omega (arith, length-drop k p)) (omega (arith, length-drop k p))
              (omega (arith, length-drop k p)))

    Replied-then :
        (shown : List ℕ) (lines : List (List ℕ)) (out : Outcome (Served (Console World)))
        (next : Console World → Outcome (Served (Console World)))
        → Replied shown out
        → ((c : Console World)
            → pending c.world ≡ []
            → PutsAndEnds (c.out ++ concat lines) (next c))
        → PutsAndEnds (shown ++ concat lines) (out >>= (λ served. and_then served next))
    unfolding and_then
    Replied-then shown lines (ok (goes_on c)) next (e, left) k =
        subst (λ all. PutsAndEnds (all ++ concat lines) (next c)) e (k c left)
    Replied-then shown lines (ok (exits exitstatus c)) next h k = absurd h
    Replied-then shown lines aborted next h k = absurd h
    Replied-then shown lines fault next h k = absurd h
    Replied-then shown lines unfinished next h k = absurd h

    -- If the server gives back what it gets, in any pieces, and nothing is on its way at first,
    -- then csc_echo.cpp, given lines of at least one byte and no 0, with fuel for the bytes of
    -- each line, puts out all the lines in their order, and ends with status 1 at the end of its
    -- input.
    pub echo_client-PutsAndEnds :
        (fuel : ℕ) (lines : List (List ℕ)) (c : Console World)
        → InputLines fuel lines
        → pending c.world ≡ []
        → PutsAndEnds (c.out ++ concat lines) (echo_client sys fuel lines c fd)
    unfolding echo_client
    echo_client-PutsAndEnds fuel [] c h e = (refl, sym (append_nil c.out))
    echo_client-PutsAndEnds fuel (line ∷ lines) c (t, some, le, h) e =
        let (fine, sends) = echo.writes c.world line in
        rw fine (
          subst
            (λ all. PutsAndEnds all (
              read_replies sys fuel (record c { world = (sys.write c.world fd line).1 }) fd 0
                (length line)
              >>= (λ served. and_then served (λ c1. echo_client sys fuel lines c1 fd))))
            (append_assoc c.out line (concat lines))
            (Replied-then (c.out ++ line) lines
              (read_replies sys fuel (record c { world = (sys.write c.world fd line).1 }) fd 0
                (length line))
              (λ c1. echo_client sys fuel lines c1 fd)
              (read_replies-Replied fuel (record c { world = (sys.write c.world fd line).1 }) 0
                (length line) line (sends ∙ ap (λ l. l ++ line) e) t some le (omega arith))
              (λ c1 e1. echo_client-PutsAndEnds fuel lines c1 h e1)))

  -- If the connection is at its end, so that every `read` gives 0, and fewer bytes have come back
  -- than were sent, the loop of csc_echo.cpp that reads the reply does not end with any fuel.
  pub read_replies-spins :
      ((w : World) → ((sys.read w fd 1023).0 ≡ pos 0) × ((sys.read w fd 1023).1 ≡ []))
      → (fuel : ℕ) (c : Console World) (cnt len : ℕ) → cnt < len
      → read_replies sys fuel c fd cnt len ≡ unfinished
  unfolding read_replies fputs c_string
  read_replies-spins at_end zero c cnt len lt = refl
  read_replies-spins at_end (suc fuel) c cnt len lt =
      let (re, bytes) = at_end c.world in
      rw re (
        rw bytes (
          rw (not_all cnt len lt) (
            rw (not_over cnt len lt) (
              read_replies-spins at_end fuel
                (record { out = c.out ++ []; world = (sys.read c.world fd 1023).2 }) (cnt + 0) len
                (omega arith)))))
    where
      not_all : (a b : ℕ) → a < b → (a + 0 == b) ≡ false
      not_all a b h = ground arith

      not_over : (a b : ℕ) → a < b → ltb b (a + 0) ≡ false
      not_over a b h = ground arith
