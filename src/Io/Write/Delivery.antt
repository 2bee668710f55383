-- ===== src/Io/Write/Delivery.antt =====
-- What `full_write` delivers.
use serversidedev.Prelude.{
  take_all, ℕ, zero, suc, ◌+◌, ◌≤◌, ◌<◌, ◌≡◌, refl, sym, ap, ◌∙◌, subst, List, [], ◌∷◌, ◌++◌,
  length, take, drop, length-drop, take-append-drop, append_assoc, arith, Bool-cases, inl, inr,
  true, false, ltb, leb, ◌==◌, if◌then◌else◌,
}
use serversidedev.Prelude.Int.{ℤ, pos, negsuc, pos_part}
use serversidedev.Prelude.Outcome.{Outcome, ok, aborted, fault, unfinished, ◌>>=◌}
use serversidedev.Io.{System, Streams, Laws, Sends}
use serversidedev.Io.Write.{wrote, full_write_loop, full_write, date_echo}

take_at {ℓ} : {A : Type ℓ} (m k : ℕ) (xs : List A) → m ≡ k → take m xs ≡ take k xs
take_at m k xs e = ap (λ j. take j xs) e

take_nil {ℓ} : {A : Type ℓ} (n : ℕ) → take {A = A} n [] ≡ []
take_nil zero = refl
take_nil (suc n) = refl

take-append-take {ℓ} :
    {A : Type ℓ} (n k : ℕ) (xs : List A) → take n xs ++ take k (drop n xs) ≡ take (n + k) xs
take-append-take zero k xs = take_at k (0 + k) xs (omega arith)
take-append-take (suc n) zero [] = take_at (suc n) (suc n + 0) [] (omega arith)
take-append-take (suc n) (suc k) [] = sym (take_nil (suc n + suc k))
take-append-take (suc n) k (x ∷ xs) =
    ap (λ l. x ∷ l) (take-append-take n k xs)
    ∙ take_at (suc (n + k)) (suc n + k) (x ∷ xs) (omega arith)

module _ {World : Type 0} (sys : System World) (streams : Streams World) where
  -- Some `write` of one byte or more to `fd` returned 0.
  abbrev pub NothingTaken : ℤ → Type 0
  NothingTaken fd =
      (w1 : World) × (left : List ℕ) × (0 < length left) × ((sys.write w1 fd left).0 ≡ pos 0)

  -- How `full_write` comes out: 0 with all bytes taken by the kernel; 1 with some of them, from the
  -- front; a failed assertion where `write` took nothing of the bytes left. It comes out in no other way.
  abbrev pub Delivered : World → ℤ → List ℕ → Outcome (ℕ × World) → Type 0
  Delivered w fd buff (ok (zero, w')) = Sends streams w w' fd buff
  Delivered w fd buff (ok (suc re, w')) =
      (re ≡ 0) × ((k : ℕ) × (k ≤ length buff) × Sends streams w w' fd (take k buff))
  Delivered w fd buff aborted = NothingTaken fd
  Delivered w fd buff fault = ⊥
  Delivered w fd buff unfinished = ⊥

  Sends-append :
      {w w1 w2 : World} {fd : ℤ} {xs ys : List ℕ}
      → Sends streams w w1 fd xs
      → Sends streams w1 w2 fd ys
      → Sends streams w w2 fd (xs ++ ys)
  Sends-append {w} {w1} {w2} {fd} {xs} {ys} a b = record {
    here = b.here ∙ rw a.here (append_assoc (streams.sent w fd) xs ys);
    elsewhere = λ d ne. b.elsewhere d ne ∙ a.elsewhere d ne;
    unread = λ d. b.unread d ∙ a.unread d;
  }

  -- A round that wrote some bytes, before the rounds that deliver the rest.
  Delivered-later :
      (w w1 : World) (fd : ℤ) (buff : List ℕ) (n : ℕ)
      → Sends streams w w1 fd (take n buff)
      → n ≤ length buff
      → (out : Outcome (ℕ × World)) → Delivered w1 fd (drop n buff) out
      → Delivered w fd buff out
  Delivered-later w w1 fd buff n first h (ok (zero, w')) d =
      subst (λ l. Sends streams w w' fd l) (take-append-drop n buff) (Sends-append first d)
  Delivered-later w w1 fd buff n first h (ok (suc re, w')) (one, (k, le, some_sent)) = (
    one,
    (
      n + k,
      omega (arith, length-drop n buff),
      subst (λ l. Sends streams w w' fd l) (take-append-take n k buff)
          (Sends-append first some_sent),
    ),
  )
  Delivered-later w w1 fd buff n first h aborted d = d
  Delivered-later w w1 fd buff n first h fault d = d
  Delivered-later w w1 fd buff n first h unfinished d = d

  wrote-Delivered :
      (w w1 : World) (fd : ℤ) (buff : List ℕ) (re : ℤ) (rest : Outcome (ℕ × World))
      → (sys.write w fd buff).0 ≡ re
      → pos_part re ≤ length buff
      → Sends streams w w1 fd (take (pos_part re) buff)
      → (0 < pos_part re → Delivered w1 fd (drop (pos_part re) buff) rest)
      → Delivered w fd buff (wrote re w1 buff rest)
  unfolding wrote
  wrote-Delivered w w1 fd buff (negsuc n) rest e h first d = (refl, (0, omega arith, first))
  wrote-Delivered w w1 fd [] (pos zero) rest e h first d = first
  wrote-Delivered w w1 fd (x ∷ xs) (pos zero) rest e h first d =
      rw not_done (w, x ∷ xs, omega arith, e)
    where
      not_done : (length (x ∷ xs) == 0) ≡ false
      not_done = ground arith
  wrote-Delivered w w1 fd buff (pos (suc n)) rest e h first d =
      rw in_bounds (elim (Bool-cases (ltb (suc n) (length buff))) [
        | inl more ↦ rw more (Delivered-later w w1 fd buff (suc n) first h rest (d (omega arith)))
        | inr last ↦
            rw last
              (subst (λ l. Sends streams w w1 fd l) (take_all (suc n) buff (ground arith)) first)
      ])
    where
      in_bounds : leb (suc n) (length buff) ≡ true
      in_bounds = ground (arith, h)

  module _ (laws : Laws sys streams) where
    loop-Delivered :
        (fuel : ℕ) (w : World) (fd : ℤ) (buff : List ℕ)
        → length buff < fuel
        → Delivered w fd buff (full_write_loop sys fuel w fd buff)
    unfolding full_write_loop
    loop-Delivered zero w fd buff h = absurd (omega arith)
    loop-Delivered (suc fuel) w fd buff h =
        let (re, w1) = sys.write w fd buff in
        wrote-Delivered w w1 fd buff re (full_write_loop sys fuel w1 fd (drop (pos_part re) buff))
          refl (laws.write_bounded w fd buff) (laws.write_sends w fd buff)
          (λ some_written.
            loop-Delivered fuel w1 fd (drop (pos_part re) buff)
              (omega (arith, length-drop (pos_part re) buff, laws.write_bounded w fd buff)))

    -- If `write` keeps to its laws, `full_write` ends: it returns 0 when the kernel has taken all the
    -- bytes, in their order; it returns 1 when the kernel has taken some of them, from the front; and it
    -- fails an assertion only if a `write` of one byte or more returned 0. Nothing else was sent.
    pub full_write-Delivered :
        (w : World) (fd : ℤ) (buff : List ℕ) → Delivered w fd buff (full_write sys w fd buff)
    unfolding full_write
    full_write-Delivered w fd buff = loop-Delivered (length buff + 1) w fd buff (omega arith)

    -- `date_echo` delivers the text as `full_write` does.
    date_echo-Delivered :
        (w : World) (fd : ℤ) (date : List ℕ) → Delivered w fd date (date_echo sys w fd date)
    unfolding date_echo
    date_echo-Delivered w fd date = same (full_write sys w fd date) (full_write-Delivered w fd date)
      where
        not_zero : (re : ℕ) → (suc re == 0) ≡ false
        not_zero re = ground arith

        same :
            (out : Outcome (ℕ × World))
            → Delivered w fd date out
            → Delivered w fd date (out >>= (λ done. ok ((if done.0 == 0 then 0 else 1), done.1)))
        same (ok (zero, w')) d = d
        same (ok (suc re, w')) (one, some_sent) = rw (not_zero re) (refl, some_sent)
        same aborted d = d
        same fault d = d
        same unfinished d = d
