-- ===== src/Lib.antt =====
-- Verification of the server-side exercises of this repository: a bounded buffer for threads, an
-- in-place sort, counters that threads share, a string class, socket servers with their clients
-- over TCP and UDP, processes that fork and wait, and the helpers that these share. Each part is
-- a translation of the C++ functions into definitions that can be evaluated, with theorems about
-- them.
--
-- - ConcurrentArray: the class `concurrent_array` of pthread/concurrent_array.cpp.
--   ConcurrentArray.antt has its fields and methods (the constructor is `init`; `append` and
--   `get` are one pass through the lock each, whose outcome says whether the thread goes to
--   sleep), ConcurrentArray/Queue.antt compares them with a bounded queue,
--   ConcurrentArray/Destroy.antt has the destructor.
-- - ConcurrentArray/Threads: `produce_thread`, `consume_thread` and the threads of `main` of
--   pthread/concurrent_array.cpp, as a step relation over any interleaving. A step is one access
--   of shared memory or one pass through the lock. `pthread_cond_signal` wakes one sleeper of its
--   condition variable if there is one, and any sleeper may wake spuriously.
-- - Qsort: `swap`, `partition`, `qsort` and `is_increase` of basic/qsort.cpp, with `print_array`
--   and `main` in Qsort/Main.antt. An `int` is an integer (values are compared and never computed
--   with); an access outside the array is a `fault` and a failed `assert` is `aborted`.
-- - TestQsort: test_qsort.cpp, whose elements are the bytes that `cmp` gets; the `qsort` of the C
--   library is a parameter.
-- - TestMap: test_map.cpp, over a list in the order of its keys. Hostent: names/hostent.cpp, over
--   a name service that is a parameter.
-- - Atomic: Atomic/Claim.antt has `val_check_change_work_if_atomic` and the threads of
--   atomic/atomic_basic.cpp, which take values by compare-and-swap; Atomic/Claim/Once.antt has
--   its theorems. Atomic/Locked.antt has the threads of atomic/test_gcc_atomic_use_lock.cpp,
--   which count under a mutex, with the cut of a `long long` to an `int`; a `long long` itself is
--   an integer, since the threads only count towards 0.
-- - Atomic/Race.antt and Atomic/Decrement.antt: the threads of
--   atomic/test_gcc_atomic_no_protect.cpp and of atomic/test_gcc_atomic.cpp, an access of `gnum`
--   at a time. The first program has a data race; it is modelled as if each access were whole and
--   in program order.
-- - Io: lib/lhf.cpp's `full_write` and `date_echo` (Io/Write.antt), the helpers of
--   io/socketio.cpp (Io/Echo.antt, Io/Sockets.antt, Io/Epoll.antt) and `main` of the epoll server
--   io/css_echo_epoll.cpp (Io/Epoll.antt has a round of its loop, Io/Epoll/Server.antt the rest).
--   Io/Client.antt has the select client io/csc_echo_select.cpp, Io/Client/Polling.antt the poll
--   client io/csc_echo_poll.cpp, Io/Conns.antt the loop of `thread_func` of
--   io/csc_echo_epoll.cpp, and Io/Select.antt the select server io/css_echo_select.cpp with its
--   table of clients, whose `main` is in Io/Select/Main.antt; Io/Poll.antt has the poll server
--   io/css_echo_poll.cpp (its `main`, and that of the poll client, in Io/Poll/Main.antt), whose
--   `revents` start with values that the program has not set, a parameter; an `FD_SET`, `FD_CLR`
--   or `FD_ISSET` of a descriptor outside an `fd_set` is the outcome `outside`
--   (Prelude/FdOutcome.antt). The system calls are an interface, Io.antt's `System`, over a state
--   of the outside world, and `Laws` is what POSIX says of them: `write` takes a front of its
--   bytes, `read` fills its buffer as far as it says, other calls move no data. A function of C
--   that changes an `int&` returns its new value. `print_error`, which ends the process, is the
--   outcome `exits`.
-- - Io/Options.antt: the options of io/css_echo_epoll.cpp and io/csc_echo_epoll.cpp, their `main`
--   with them, and the handler of the client. `getopt` is the list of what its calls return, and
--   `atoi` is `strtol` with its result cut to an `int`.
-- - Io/Conns/Dialing.antt: the threads of io/csc_echo_epoll.cpp while they connect and number
--   their connections.
-- - Lhf: Lhf/TcpListen.antt has `tcp_listen` of lib/lhf.cpp and the server
--   initd/daytimetcpsrv2.cpp, which uses it, over calls that open and close descriptors;
--   Lhf/Daemon.antt has `daemon_init`, following the process that is left after each `fork`;
--   Lhf/Strtol.antt has `strtol_on_error_exit` in base 10, with the `strtol` of the C library and
--   the `%ld` of `printf`; Lhf/Dump.antt has the text that `hex_dump`, `dump_sockaddr` and
--   `dump_addrinfo` print (NULL for a string as "(null)", as the C library of GNU does), and
--   Lhf/Log.antt that of `printf_log_low` and `print_error_low`, over what `vprintf` makes of a
--   format.
-- - Children: Children/Reaping.antt has the handlers and loops that call `waitpid`, of
--   css_echo.cpp, sigaction_waitpidS.cpp and test_fork_and_waitpid.cpp, over a state of the
--   children that have ended and those that run; Children/Servers.antt has the loops of the
--   forking servers css_echo.cpp, sigaction_waitpidS.cpp and css.cpp, with what their processes
--   do: a process that is started is a world of its own. Children/Servers/Mains.antt has their
--   `main`. They take the sockets from Io. Children/Signals.antt has the functions that install
--   the handlers of css_echo.cpp and sigaction_waitpidS.cpp, over a `sigaction` that is a
--   parameter. Children/Forks.antt has `main` of test_fork_and_waitpid.cpp as a step relation, in
--   which its handler may run between any two calls.
-- - Udp: Udp.antt has the UDP servers and the loops of css_udp_overflow.cpp and
--   csc_udp_overflow.cpp, Udp/Overflow.antt the `main` of these two and the handler of SIGINT,
--   Udp/Client.antt the clients csc_echo_udp.cpp and csc_echo_udp_connect.cpp. A call that
--   receives a datagram drops what does not fit. In Udp/Network.antt the network between a client
--   and the server is one in which `udp_echo` itself answers, for concrete runs.
-- - Tcp: the clients csc_echo.cpp, csc.cpp, sigaction_waitpidC.cpp and names/daytimetcpcli1.cpp.
--   Bytes past the end of an array, and strings without their 0, are a `fault`. In
--   Tcp/Connection.antt the server's `echo_loop` itself answers what csc_echo.cpp sends, for
--   concrete runs.
-- - Mystring: the class `mystring` of my_string.cpp, and `main` in Mystring/Main.antt, over a
--   heap of buffers; what a C string function reads at NULL, or at a buffer that has been freed,
--   is a `fault`. `delete` of what `new[]` made is taken to free it.
-- - Prelude: shared names, lists and families indexed by native numbers, integers, C strings, the
--   outcome of C code that may fault (Prelude/Outcome.antt), how a round of an endless loop ends
--   (Prelude/Served.antt), and a table of descriptors for concrete runs.
--
-- Bounds and fuel: the loop of `partition` has fuel for two rounds for each cell, which is always
-- enough; `qsort` has fuel for one level of recursion for each cell, which is enough on arrays
-- with distinct values and not on all arrays. The destructor's loop takes its fuel as an
-- argument. `full_write` has fuel for one round for each byte and one more, which is enough as
-- each round but the last writes a byte. The loops of the servers and of the client, which run
-- for ever, are taken for any number of rounds. The loop of `waitchild` has fuel for each child,
-- and that of `wait_all_children` for each child and for the time that the children still run,
-- which the theorems show to be enough; the loop that reads the reply in csc_echo.cpp has fuel
-- for each byte of the line. Indices are natural numbers: the places where the C++ code forms the
-- index -1 are written out. The sum `left+right` of two indices is taken not to overflow an
-- `int`.
--
-- Not modelled: timing, random numbers (any are taken), the arguments of the programs in atomic,
-- basic and pthread, and the messages of the servers and clients; the sources that only print
-- what the compiler or the library does. The components of the manifest list each with the
-- reason.
pub mod Prelude
pub mod ConcurrentArray
pub mod Qsort
pub mod Atomic
pub mod Io
pub mod Mystring
pub mod Children
pub mod Lhf
pub mod Udp
pub mod Tcp
pub mod TestQsort
pub mod Hostent
pub mod TestMap
