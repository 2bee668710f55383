-- ===== src/Prelude/Served.antt =====
-- How a round of a program's endless loop ends: the process goes on, or `exit` ends it.
use Prim.Native.Nat.{ℕ, zero, suc}
use serversidedev.Prelude.Outcome.{Outcome, ok, aborted, fault, unfinished, ◌>>=◌}

pub data Served (World : Type 0) : Type 0 where
  goes_on : World → Served World
  exits : (exitstatus : ℕ) → World → Served World

-- What is done next, unless the process has ended.
unfoldable pub and_then :
    {World : Type 0} → Served World → (World → Outcome (Served World)) → Outcome (Served World)
and_then (goes_on w) next = next w
and_then (exits exitstatus w) next = ok (exits exitstatus w)

-- A round comes to its end, with this where the process goes on and that where it has ended.
abbrev pub Comes :
    {World : Type 0} → (World → Type 0) → (ℕ → World → Type 0) → Outcome (Served World) → Type 0
Comes Goes Exits (ok (goes_on w)) = Goes w
Comes Goes Exits (ok (exits exitstatus w)) = Exits exitstatus w
Comes Goes Exits aborted = ⊥
Comes Goes Exits fault = ⊥
Comes Goes Exits unfinished = ⊥

pub Comes-then :
    {World : Type 0} (First Last : World → Type 0) (Exits : ℕ → World → Type 0)
    (out : Outcome (Served World)) (next : World → Outcome (Served World))
    → Comes First Exits out
    → ((w : World) → First w → Comes Last Exits (next w))
    → Comes Last Exits (out >>= (λ served. and_then served next))
unfolding and_then
Comes-then First Last Exits (ok (goes_on w)) next h k = k w h
Comes-then First Last Exits (ok (exits exitstatus w)) next h k = h
Comes-then First Last Exits aborted next h k = h
Comes-then First Last Exits fault next h k = h
Comes-then First Last Exits unfinished next h k = h

-- Without a loop that may use up its fuel.
unfoldable pub unless_ended :
    {World : Type 0} → Served World → (World → Served World) → Served World
unless_ended (goes_on w) next = next w
unless_ended (exits exitstatus w) next = exits exitstatus w

-- This holds if the process goes on, and that if it has ended.
abbrev pub Runs : {World : Type 0} → (World → Type 0) → (ℕ → World → Type 0) → Served World → Type 0
Runs Goes Exits (goes_on w) = Goes w
Runs Goes Exits (exits exitstatus w) = Exits exitstatus w

pub Runs-unless_ended :
    {World : Type 0} (First Last : World → Type 0) (Exits : ℕ → World → Type 0) (out : Served World)
    (next : World → Served World)
    → Runs First Exits out
    → ((w : World) → First w → Runs Last Exits (next w))
    → Runs Last Exits (unless_ended out next)
unfolding unless_ended
Runs-unless_ended First Last Exits (goes_on w) next h k = k w h
Runs-unless_ended First Last Exits (exits exitstatus w) next h k = h

-- A number of rounds of an endless loop.
unfoldable pub repeat : {World : Type 0} → (World → Served World) → ℕ → World → Served World
unfolding unless_ended
repeat round zero w = goes_on w
repeat round (suc rounds) w = unless_ended (round w) (λ w1. repeat round rounds w1)

-- What each round keeps holds after all of them.
pub Runs-repeat :
    {World : Type 0} (Goes : World → Type 0) (Exits : ℕ → World → Type 0)
    (round : World → Served World)
    → ((w : World) → Goes w → Runs Goes Exits (round w))
    → (rounds : ℕ) (w : World) → Goes w
    → Runs Goes Exits (repeat round rounds w)
unfolding repeat
Runs-repeat Goes Exits round keep zero w h = h
Runs-repeat Goes Exits round keep (suc rounds) w h =
    Runs-unless_ended Goes Goes Exits (round w) (λ w1. repeat round rounds w1) (keep w h)
      (λ w1 h1. Runs-repeat Goes Exits round keep rounds w1 h1)

-- What holds of the world, whether the process goes on or has ended.
abbrev pub Kept : {World : Type 0} → (World → Type 0) → Served World → Type 0
Kept Holds out = Runs Holds (λ exitstatus. Holds) out

pub Kept-repeat :
    {World : Type 0} (Holds : World → Type 0) (round : World → Served World)
    → ((w : World) → Holds w → Kept Holds (round w))
    → (rounds : ℕ) (w : World) → Holds w
    → Kept Holds (repeat round rounds w)
Kept-repeat Holds round keep rounds w h =
    Runs-repeat Holds (λ exitstatus. Holds) round keep rounds w h

pub Runs-and_then :
    {World : Type 0} (First Last : World → Type 0) (Exits : ℕ → World → Type 0) (out : Served World)
    (next : World → Outcome (Served World))
    → Runs First Exits out
    → ((w : World) → First w → Comes Last Exits (next w))
    → Comes Last Exits (and_then out next)
unfolding and_then
Runs-and_then First Last Exits (goes_on w) next h k = k w h
Runs-and_then First Last Exits (exits exitstatus w) next h k = h

-- A part of the state, whether the process goes on or has ended.
abbrev pub map_served : {Whole Part : Type 0} → (Whole → Part) → Served Whole → Served Part
map_served part (goes_on s) = goes_on (part s)
map_served part (exits exitstatus s) = exits exitstatus (part s)
