-- ===== src/Io/Echo/Even.antt =====
-- Descriptors on which the program has sent back what it received.
use serversidedev.Prelude.{
  ℕ, ◌≡◌, ◌≢◌, refl, sym, ap, ◌∙◌, subst, List, [], ◌++◌, take-append-drop, append_nil,
  append_assoc, arith, false, Bool-cases, inl, inr, ◌⊎◌,
}
use serversidedev.Prelude.Int.{ℤ, pos_part, neg_part, eq_ℤ, eq_of_parts}
use serversidedev.Io.{Streams, Silent}
use serversidedev.Io.Echo.Forwarding.{Passes, Cut}

module _ {World : Type 0} (streams : Streams World) where
  open streams use {sent, received}

  -- All that was received on a descriptor has been sent back on it.
  abbrev pub Even : World → Type 0
  Even w = (d : ℤ) → sent w d ≡ received w d

  -- What was sent is the front of what was received.
  abbrev pub Behind : World → Type 0
  Behind w = (d : ℤ) → (left : List ℕ) × (sent w d ++ left ≡ received w d)

  pub Even-Behind : {w : World} → Even w → Behind w
  Even-Behind {w} even d = ([], append_nil (sent w d) ∙ even d)

  pub Silent-Even : {w w' : World} → Even w → Silent streams w w' → Even w'
  Silent-Even even s d = s.unsent d ∙ even d ∙ sym (s.unread d)

  -- After a front of what was read has been sent back, what is left on each descriptor.
  pub Passes-left :
      {w w' : World} {fd : ℤ} {input output left : List ℕ}
      → Even w
      → Passes streams w w' fd fd input output
      → output ++ left ≡ input
      → (d : ℤ) → (l : List ℕ) × (sent w' d ++ l ≡ received w' d) × ((l ≡ left) ⊎ (l ≡ []))
  Passes-left {w} {w'} {fd} {input} {output} {left} even p e d = elim (Bool-cases (eq_ℤ d fd)) [
    | inl here ↦ subst at (eq_of_parts fd d (ground arith)) (left, at_fd, inl refl)
    | inr other ↦
        let ne = distinct other in
        (
          [],
          append_nil (sent w' d) ∙ p.written_elsewhere d ne ∙ even d ∙ sym (p.read_elsewhere d ne),
          inr refl,
        )
  ]
    where
      at : ℤ → Type 0
      at d = (l : List ℕ) × (sent w' d ++ l ≡ received w' d) × ((l ≡ left) ⊎ (l ≡ []))

      distinct : eq_ℤ d fd ≡ false → d ≢ fd
      distinct other e = ground (arith, ap pos_part e, ap neg_part e)

      at_fd : sent w' fd ++ left ≡ received w' fd
      at_fd =
          ap (λ l. l ++ left) p.written_here
          ∙ append_assoc (sent w fd) output left
          ∙ ap (λ l. sent w fd ++ l) e
          ∙ ap (λ l. l ++ input) (even fd)
          ∙ sym p.read_here

  pub Cut-Behind : {w w' : World} {fd : ℤ} → Even w → Cut streams w w' fd fd → Behind w'
  Cut-Behind even (bytes, k, le, p) d =
      let (l, e, _) = Passes-left even p (take-append-drop k bytes) d in (l, e)
