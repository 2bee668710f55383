-- ===== src/Io.antt =====
-- The socket code of lib/lhf.cpp and io/. The system calls are a parameter: an interface of functions on
-- the state of the outside world, with the laws that a client may rely on.
pub mod Write
pub mod Echo
pub mod Sockets
pub mod Epoll
pub mod Client
pub mod Select
pub mod Poll
pub mod Conns
pub mod Options
pub mod Net
mod Tests
use serversidedev.Prelude.{ℕ, Bool, ◌≤◌, ◌≡◌, ◌≢◌, List, ◌++◌, length, take}
use serversidedev.Prelude.Int.{ℤ, pos, pos_part, ◌≤ℤ◌}

-- What `epoll_ctl` is asked for.
pub data Ctl : Type 0 where
  ctl_add : (events : ℕ) → Ctl
  ctl_del : Ctl

-- What `epoll_wait` reports: `data.fd`, and which bits of `events` are set.
pub record Event : Type 0 where
  pub fd : ℤ
  pub epollin : Bool
  pub epollout : Bool
  pub epollrdhup : Bool
  pub epollerr : Bool

-- What `poll` reports for an element of its array: which bits of `revents` are set.
pub record Polled : Type 0 where
  pub pollrdnorm : Bool
  pub pollerr : Bool

-- System calls take the world to the next one. The number is the return value of C. `read` fills the
-- buffer with the bytes of the list; `write` gets the bytes of the buffer; `epoll_wait` fills its array with
-- the events of the list, `select` changes its set to that of the result, and `poll` sets the `revents`.
pub record System (World : Type 0) : Type 0 where
  pub write : World → ℤ → List ℕ → ℤ × World
  pub read : World → ℤ → ℕ → ℤ × List ℕ × World
  pub close : World → ℤ → ℤ × World
  pub accept : World → ℤ → ℤ × World
  pub socket : World → ℤ × World
  pub bind : World → ℤ → ℕ → ℤ × World
  pub connect : World → ℤ → ℕ → ℤ × World
  pub select : World → ℤ → (ℤ → Bool) → ℤ × (ℤ → Bool) × World
  pub poll : World → List ℤ → ℤ × (ℕ → Polled) × World
  pub listen : World → ℤ → ℕ → ℤ × World
  pub epoll_create : World → ℤ × World
  pub epoll_ctl : World → ℤ → Ctl → ℤ → ℤ × World
  pub epoll_wait : World → ℤ → ℕ → ℤ × List Event × World

-- What has gone through each descriptor: the bytes that the kernel has taken from the program, and
-- those that it has handed to it.
pub record Streams (World : Type 0) : Type 0 where
  pub sent : World → ℤ → List ℕ
  pub received : World → ℤ → List ℕ

module _ {World : Type 0} (streams : Streams World) where
  open streams use {sent, received}

  -- Between two worlds, `bytes` were taken on `fd`, and nothing else was taken or handed over.
  pub record Sends (w w' : World) (fd : ℤ) (bytes : List ℕ) : Type 0 where
    pub here : sent w' fd ≡ sent w fd ++ bytes
    pub elsewhere : (d : ℤ) → d ≢ fd → sent w' d ≡ sent w d
    pub unread : (d : ℤ) → received w' d ≡ received w d

  pub record Receives (w w' : World) (fd : ℤ) (bytes : List ℕ) : Type 0 where
    pub here : received w' fd ≡ received w fd ++ bytes
    pub elsewhere : (d : ℤ) → d ≢ fd → received w' d ≡ received w d
    pub unsent : (d : ℤ) → sent w' d ≡ sent w d

  -- Nothing went through a descriptor.
  pub record Silent (w w' : World) : Type 0 where
    pub unsent : (d : ℤ) → sent w' d ≡ sent w d
    pub unread : (d : ℤ) → received w' d ≡ received w d

-- What POSIX says of the calls: `write` takes at most what it is given, from the front; `read` hands over
-- as many bytes as it says, and at most as many as fit; the other calls move no data.
pub record Laws {World : Type 0} (sys : System World) (streams : Streams World) : Type 0 where
  pub write_bounded :
      (w : World) (fd : ℤ) (buff : List ℕ) → pos_part (sys.write w fd buff).0 ≤ length buff
  pub write_sends :
      (w : World) (fd : ℤ) (buff : List ℕ)
      → Sends streams w (sys.write w fd buff).1 fd (take (pos_part (sys.write w fd buff).0) buff)
  pub read_length :
      (w : World) (fd : ℤ) (size : ℕ)
      → length (sys.read w fd size).1 ≡ pos_part (sys.read w fd size).0
  pub read_bounded : (w : World) (fd : ℤ) (size : ℕ) → pos_part (sys.read w fd size).0 ≤ size
  pub read_receives :
      (w : World) (fd : ℤ) (size : ℕ)
      → Receives streams w (sys.read w fd size).2 fd (sys.read w fd size).1
  pub socket_silent : (w : World) → Silent streams w (sys.socket w).1
  pub bind_silent : (w : World) (fd : ℤ) (port : ℕ) → Silent streams w (sys.bind w fd port).1
  pub listen_silent :
      (w : World) (fd : ℤ) (backlog : ℕ) → Silent streams w (sys.listen w fd backlog).1
  pub epoll_create_silent : (w : World) → Silent streams w (sys.epoll_create w).1
  pub connect_silent : (w : World) (fd : ℤ) (port : ℕ) → Silent streams w (sys.connect w fd port).1
  pub select_silent :
      (w : World) (maxfdp1 : ℤ) (readfds : ℤ → Bool)
      → Silent streams w (sys.select w maxfdp1 readfds).2
  pub poll_silent : (w : World) (fds : List ℤ) → Silent streams w (sys.poll w fds).2
  pub close_silent : (w : World) (fd : ℤ) → Silent streams w (sys.close w fd).1
  pub accept_silent : (w : World) (fd : ℤ) → Silent streams w (sys.accept w fd).1
  pub epoll_ctl_silent :
      (w : World) (epollfd : ℤ) (op : Ctl) (fd : ℤ)
      → Silent streams w (sys.epoll_ctl w epollfd op fd).1
  pub epoll_wait_silent :
      (w : World) (epollfd : ℤ) (max_events : ℕ)
      → Silent streams w (sys.epoll_wait w epollfd max_events).2
