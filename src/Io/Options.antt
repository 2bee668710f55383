-- ===== src/Io/Options.antt =====
-- The options of io/css_echo_epoll.cpp and io/csc_echo_epoll.cpp, and what their `main` does with them.
pub mod LastValue
pub mod Answering
mod Tests
use serversidedev.Prelude.{
  ℕ, zero, suc, ◌-◌, ◌%◌, ◌^◌, ◌≡◌, Bool, true, false, not, ◌&&◌, List, [], ◌∷◌, ◌==◌,
  if◌then◌else◌,
}
use serversidedev.Prelude.Int.{ℤ, pos, negsuc, pos_part, int_of, eq_ℤ, ltb_ℤ}
use serversidedev.Prelude.Outcome.{Outcome, ok, aborted}
use serversidedev.Prelude.Served.{Served, goes_on, exits, and_then, unless_ended}
use serversidedev.Io.{System}
use serversidedev.Io.Epoll.Server.{epoll_main}
use serversidedev.Lhf.Strtol.{strtol}

-- What a call of `getopt` returns, before the -1 at the end, as a `char` that is signed; and `optarg`.
pub record Opt : Type 0 where
  pub ch : ℕ
  pub optarg : List ℕ

-- `atoi` of the C library.
abbrev pub atoi : List ℕ → ℤ
atoi s = int_of (strtol s 0).re

-- `parse_options_common` of io/socketio.cpp; it prints what it has found.
unfoldable pub parse_options_common : ℕ → ℕ
parse_options_common ch = if ch == 63 then 1 else if ch == 58 then 2 else 3

-- A round of the loop of css_echo_epoll.cpp, with the option -P.
unfoldable pub server_option : Opt → ℤ → Served ℤ
unfolding parse_options_common
server_option opt opport =
    if opt.ch == 80
    then goes_on (atoi opt.optarg)
    else if not (parse_options_common opt.ch == 0)
    then exits 1 opport
    else goes_on opport

unfoldable pub server_options : List Opt → ℤ → Served ℤ
unfolding server_option unless_ended
server_options [] opport = goes_on opport
server_options (opt ∷ opts) opport =
    unless_ended (server_option opt opport) (λ opport1. server_options opts opport1)

-- The globals that the options of csc_echo_epoll.cpp set.
pub record Options : Type 0 where
  pub opthread_num : ℤ
  pub opconn_num : ℤ
  pub opport : ℤ

-- A round of its loop, with the options -t, -c and -P.
unfoldable pub client_option : Opt → Options → Served Options
unfolding parse_options_common
client_option opt o =
    if opt.ch == 116
    then goes_on (record o { opthread_num = atoi opt.optarg })
    else if opt.ch == 99
    then goes_on (record o { opconn_num = atoi opt.optarg })
    else if opt.ch == 80
    then goes_on (record o { opport = atoi opt.optarg })
    else if not (parse_options_common opt.ch == 0)
    then exits 1 o
    else goes_on o

unfoldable pub client_options : List Opt → Options → Served Options
unfolding client_option unless_ended
client_options [] o = goes_on o
client_options (opt ∷ opts) o = unless_ended (client_option opt o) (λ o1. client_options opts o1)

-- `htons(port)` keeps 16 bits.
abbrev pub port_of : ℤ → ℕ
port_of (pos n) = n % 2 ^ 16
port_of (negsuc n) = 2 ^ 16 - 1 - n % 2 ^ 16

module _ {World : Type 0} (sys : System World) where
  -- `main` of css_echo_epoll.cpp, for a number of rounds of its loop.
  unfoldable pub epoll_server : ℕ → List Opt → World → Outcome (Served World)
  unfolding epoll_main server_options
  epoll_server rounds opts w = elim (server_options opts (pos 25000)) [
    | goes_on opport ↦ epoll_main sys rounds w (port_of opport)
    | exits exitstatus opport ↦ ok (exits exitstatus w)
  ]

-- `for(int i=0;i<opthread_num;i++)` around `pthread_create` and around `pthread_join`, by what the calls return.
unfoldable pub each_thread : (ℕ → ℤ) → (left i : ℕ) → Options → Served Options
each_thread returns zero i o = goes_on o
each_thread returns (suc left) i o =
    let more = each_thread returns left (suc i) o in
    if eq_ℤ (returns i) (pos 0) then more else exits 1 o

-- `main` of csc_echo_epoll.cpp; an array of negative length is an exception that nothing catches.
unfoldable pub client_main : (created joined : ℕ → ℤ) → List Opt → Outcome (Served Options)
unfolding client_options each_thread and_then
client_main created joined opts =
    and_then
      (client_options opts (record { opthread_num = pos 0; opconn_num = pos 0; opport = pos 0 }))
      (λ o.
        if ltb_ℤ o.opthread_num (pos 0)
        then aborted
        else (and_then (each_thread created (pos_part o.opthread_num) 0 o) (λ o1.
            and_then (each_thread joined (pos_part o1.opthread_num) 0 o1) (λ o2. ok (exits 0 o2)))))

-- `sigfunc` of csc_echo_epoll.cpp: the new `gfinish`.
unfoldable pub interrupted : (signo gfinish : ℕ) → ℕ
interrupted signo gfinish = if signo == 2 then 1 else gfinish
