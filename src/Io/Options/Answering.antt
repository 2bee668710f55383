-- ===== src/Io/Options/Answering.antt =====
-- The epoll server with its options.
use serversidedev.Prelude.{ℕ, List}
use serversidedev.Prelude.Int.{ℤ, pos}
use serversidedev.Prelude.Outcome.{ok}
use serversidedev.Prelude.Served.{Served, goes_on, exits}
use serversidedev.Io.{System, Streams, Laws}
use serversidedev.Io.Echo.Even.{Even, Even-Behind}
use serversidedev.Io.Epoll.Answering.{Answered}
use serversidedev.Io.Epoll.Server.{epoll_main, epoll_main-Answered}
use serversidedev.Io.Options.{Opt, server_options, port_of, epoll_server}

module _ {World : Type 0} (sys : System World) (streams : Streams World)
    (laws : Laws sys streams) where
  -- What `epoll_main` keeps is kept for any options.
  pub epoll_server-Answered :
      (rounds : ℕ) (opts : List Opt) (w : World)
      → Even streams w
      → Answered sys streams (epoll_server sys rounds opts w)
  unfolding epoll_server
  epoll_server-Answered rounds opts w even = served (server_options opts (pos 25000))
    where
      served :
          (out : Served ℤ)
          → Answered sys streams (elim out [
            | goes_on opport ↦ epoll_main sys rounds w (port_of opport)
            | exits exitstatus opport ↦ ok (exits exitstatus w)
          ])
      served (goes_on opport) = epoll_main-Answered sys streams laws rounds w (port_of opport) even
      served (exits exitstatus opport) = Even-Behind streams even
