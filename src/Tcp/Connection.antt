-- ===== src/Tcp/Connection.antt =====
-- A connection between csc_echo.cpp and css_echo.cpp: what the client needs of its server is what `echo_loop` does.
use serversidedev.Prelude.{
  ℕ, zero, suc, ◌≤◌, ◌<◌, ◌≡◌, refl, sym, ap, false, true, List, [], ◌∷◌, ◌++◌, append_assoc,
  length, length-take, length-append, subst, take, drop, take-append-drop, arith,
}
use serversidedev.Prelude.Int.{ℤ, pos, ltb_ℤ}
use serversidedev.Prelude.Served.{Served, goes_on, exits}
use serversidedev.Io.{System}
use serversidedev.Children.Servers.{Forking, echo_loop}
use serversidedev.Tcp.Replies.{EchoStream}

-- The bytes on their way to the server, and those on their way back.
pub record Pipes : Type 0 where
  pub up : List ℕ
  pub down : List ℕ

-- The calls of the server.
abbrev pub server_system : System Pipes
server_system = record {
  write = λ w fd buff. (pos (length buff), record w { down = w.down ++ buff });
  read = λ w fd size.
      (pos (length (take size w.up)), take size w.up, record w { up = drop size w.up });
  close = λ w fd. (pos 0, w);
  accept = λ w fd. (pos 5, w);
  socket = λ w. (pos 3, w);
  bind = λ w fd port. (pos 0, w);
  connect = λ w fd port. (pos 0, w);
  select = λ w maxfdp1 readfds. (pos 1, readfds, w);
  poll = λ w fds. (pos 0, λ i. record { pollrdnorm = false; pollerr = false }, w);
  listen = λ w fd backlog. (pos 0, w);
  epoll_create = λ w. (pos 4, w);
  epoll_ctl = λ w epollfd op fd. (pos 0, w);
  epoll_wait = λ w epollfd max_events. (pos 0, [], w);
}

abbrev from_down : Pipes → ℕ → ℤ × List ℕ × Pipes
from_down w size =
    (pos (length (take size w.down)), take size w.down, record w { down = drop size w.down })

abbrev world_of : Served Pipes → Pipes
world_of (goes_on w) = w
world_of (exits exitstatus w) = w

module _ (forking : Forking Pipes) where
  -- While the client waits, with nothing on its way back, the server makes a round.
  abbrev wait_for : List ℕ → Pipes → ℕ → ℤ × List ℕ × Pipes
  wait_for [] w size = from_down (world_of (echo_loop server_system forking 1 w (pos 5))) size
  wait_for (b ∷ bs) w size = from_down w size

  -- The calls of the client.
  abbrev pub client_system : System Pipes
  client_system = record server_system {
    write = λ w fd buff. (pos (length buff), record w { up = w.up ++ buff });
    read = λ w fd size. wait_for w.down w size;
  }

  abbrev pub pending : Pipes → List ℕ
  pending w = w.down ++ w.up

  -- A round of the server.
  echoed :
      (w : Pipes)
      → 0 < length w.up
      → world_of (echo_loop server_system forking 1 w (pos 5))
        ≡ record { up = drop 1023 w.up; down = w.down ++ take 1023 w.up }
  unfolding echo_loop
  echoed w h =
      rw (more (length (take 1023 w.up)) (omega (arith, length-take 1023 w.up)))
        (rw (fine (length (take 1023 w.up))) refl)
    where
      fine : (n : ℕ) → ltb_ℤ (pos n) (pos 0) ≡ false
      fine n = ground arith

      more : (n : ℕ) → 0 < n → ltb_ℤ (pos 0) (pos n) ≡ true
      more n lt = ground arith

  take-part : (n : ℕ) (xs ys : List ℕ) → take (length (take n xs)) (xs ++ ys) ≡ take n xs
  take-part zero xs ys = refl
  take-part (suc n) [] ys = refl
  take-part (suc n) (x ∷ xs) ys = ap (λ l. x ∷ l) (take-part n xs ys)

  drop-part : (n : ℕ) (xs ys : List ℕ) → drop (length (take n xs)) (xs ++ ys) ≡ drop n xs ++ ys
  drop-part zero xs ys = refl
  drop-part (suc n) [] ys = refl
  drop-part (suc n) (x ∷ xs) ys = drop-part n xs ys

  -- What `EchoStream` says of a `read` that gave this.
  abbrev Reads : Pipes → ℤ × List ℕ × Pipes → Type 0
  Reads w got =
      (k : ℕ) × (0 < k)
      × (k ≤ length (pending w))
      × (got.0 ≡ pos k)
      × (got.1 ≡ take k (pending w))
      × (pending got.2 ≡ drop k (pending w))

  from_down-Reads : (w : Pipes) → 0 < length w.down → Reads w (from_down w 1023)
  from_down-Reads w h = (
    length (take 1023 w.down),
    omega (arith, length-take 1023 w.down),
    omega (arith, length-take 1023 w.down, length-append w.down w.up),
    refl,
    sym (take-part 1023 w.down w.up),
    sym (drop-part 1023 w.down w.up),
  )

  read-Reads :
      (up down : List ℕ)
      → 0 < length (down ++ up)
      → Reads
          (record { up = up; down = down })
          (wait_for down (record { up = up; down = down }) 1023)
  read-Reads up (b ∷ bs) h = from_down-Reads (record { up = up; down = b ∷ bs }) (omega arith)
  read-Reads up [] h = rw (echoed (record { up = up; down = [] }) h) (
      subst
        (λ all.
          (k : ℕ) × (0 < k)
          × (k ≤ length all)
          × ((from_down (record { up = drop 1023 up; down = take 1023 up }) 1023).0 ≡ pos k)
          × ((from_down (record { up = drop 1023 up; down = take 1023 up }) 1023).1 ≡ take k all)
          × (pending (from_down (record { up = drop 1023 up; down = take 1023 up }) 1023).2
              ≡ drop k all))
        (take-append-drop 1023 up)
        (from_down-Reads (record { up = drop 1023 up; down = take 1023 up })
          (omega (arith, length-take 1023 up))))

  pub echo_loop-EchoStream : (fd : ℤ) → EchoStream client_system fd pending
  echo_loop-EchoStream fd = record {
    writes = λ w buff. (fine (length buff), sym (append_assoc w.down w.up buff));
    reads = λ w h. read-Reads w.up w.down h;
  }
    where
      fine : (n : ℕ) → ltb_ℤ (pos n) (pos 0) ≡ false
      fine n = ground arith
