-- ===== src/Io/Conns/Dialing/Tests.antt =====
-- Two threads that connect twice and once.
use serversidedev.Prelude.{ℕ, zero, suc, ◌≡◌, refl, Option, some, List, [], ◌∷◌, ltb, ind, total}
use serversidedev.Prelude.Int.{ℤ, pos}
use serversidedev.Prelude.Interleave.{Threads, at_start, play, play-Reaches}
use serversidedev.Io.Conns.Dialing.{Pc, exec, start, numbered, ids_unique}

abbrev calls : ℕ → List (Option ℤ)
calls zero = some (pos 5) ∷ some (pos 7) ∷ []
calls (suc i) = some (pos 6) ∷ []

abbrev schedule : List ℕ
schedule = 0 ∷ 1 ∷ 1 ∷ 0 ∷ 0 ∷ 0 ∷ []

abbrev reached : Threads ℕ Pc
reached = play exec 2 (start calls) schedule

reached_result : reached.mem ≡ 3
unfolding play exec start
reached_result = refl

ids_unique_example : total (numbered 2) 2 reached.pc ≡ ind (ltb 2 reached.mem)
ids_unique_example =
    ids_unique calls (play-Reaches exec 2 (start calls) schedule (start calls) at_start) 2
