-- ===== src/Tcp/Daytime.antt =====
-- What daytimetcpcli1.cpp does with a full buffer, and which address it takes.
use serversidedev.Prelude.{
  ℕ, suc, ◌≡◌, refl, ap, ◌∙◌, Bool, true, false, not, Bool-cases, inl, inr, List, [], ◌∷◌, ◌++◌,
  append_nil, length, drop, arith, if◌then◌else◌,
}
use serversidedev.Prelude.Int.{ℤ, pos, ltb_ℤ}
use serversidedev.Prelude.CString.{c_string, Text, c_string-fault}
use serversidedev.Prelude.Outcome.{fault}
use serversidedev.Io.{System}
use serversidedev.Tcp.{Console, fputs, Connecting, connect_first, read_daytime}

drop_all : (xs ys : List ℕ) → length xs ≡ length ys → drop (length ys) xs ≡ []
drop_all [] [] e = refl
drop_all [] (y ∷ ys) e = refl
drop_all (x ∷ xs) [] e = absurd (omega arith)
drop_all (x ∷ xs) (y ∷ ys) e = drop_all xs ys (omega arith)

module _ {World : Type 0} (sys : System World) (connecting : Connecting World) where
  -- If a `read` fills the buffer and there is no 0 in it, `puts` reads past its end.
  pub read_daytime-fault :
      (rounds : ℕ) (buff : List ℕ) (c : Console World) (srvfd : ℤ)
      → ltb_ℤ (pos 0) (sys.read c.world srvfd 1024).0 ≡ true
      → length buff ≡ length (sys.read c.world srvfd 1024).1
      → Text (sys.read c.world srvfd 1024).1
      → read_daytime sys connecting (suc rounds) buff c srvfd ≡ fault
  unfolding read_daytime fputs
  read_daytime-fault rounds buff c srvfd more full t =
      let bytes = (sys.read c.world srvfd 1024).1 in
      rw more (
        rw
          (ap (λ l. c_string (bytes ++ l)) (drop_all buff bytes full)
            ∙ ap c_string (append_nil bytes)
            ∙ c_string-fault bytes t)
          refl)

  -- One of the addresses is answered at.
  abbrev pub answered : (List ℕ → Bool) → List (List ℕ) → Bool
  answered answers [] = false
  answered answers (addr ∷ addrs) = if answers addr then true else answered answers addrs

  -- If each address accepts a connection or refuses it whenever it is tried, the loop connects just if one of them accepts.
  pub connect_first-answered :
      (answers : List ℕ → Bool) (srvfd : ℤ) (port : ℕ)
      → ((w : World) (addr : List ℕ)
          → ltb_ℤ (connecting.connect w srvfd addr port).0 (pos 0) ≡ not (answers addr))
      → (w : World) (addrs : List (List ℕ))
      → (connect_first sys connecting w srvfd addrs port).0 ≡ answered answers addrs
  unfolding connect_first
  connect_first-answered answers srvfd port h w [] = refl
  connect_first-answered answers srvfd port h w (addr ∷ addrs) = elim (Bool-cases (answers addr)) [
    | inl accepts ↦ rw (h w addr) (rw accepts refl)
    | inr refuses ↦ rw (h w addr) (
        rw refuses (
          connect_first-answered answers srvfd port h (connecting.connect w srvfd addr port).1
            addrs))
  ]
