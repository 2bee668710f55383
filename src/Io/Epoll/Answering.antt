-- ===== src/Io/Epoll/Answering.antt =====
-- What the epoll server has answered when a round ends.
use serversidedev.Prelude.{
  ℕ, zero, suc, ◌≡◌, sym, ap, ◌∙◌, List, [], ◌∷◌, ◌++◌, append_nil, arith, false, Bool-cases, inl,
  inr, none, some, ◌==◌, if◌then◌else◌,
}
use serversidedev.Prelude.Int.{ℤ, pos, eq_ℤ, ltb_ℤ}
use serversidedev.Prelude.Outcome.{Outcome, ok, aborted, fault, unfinished, ◌>>=◌}
use serversidedev.Io.{System, Streams, Laws, ctl_add, ctl_del, Event}
use serversidedev.Io.Write.Delivery.{NothingTaken}
use serversidedev.Io.Echo.{data_echo}
use serversidedev.Io.Echo.DataEcho.{Back, Echoed, data_echo-Echoed}
use serversidedev.Io.Echo.Even.{Even, Behind, Even-Behind, Silent-Even, Passes-left, Cut-Behind}
use serversidedev.Prelude.Served.{Served, goes_on, exits, and_then}
use serversidedev.Io.Epoll.{
  bit_epollin, max_events, epoll_add, epoll_del, accept_epoll_ctl, call_handler, deal_epoll_event,
  serve_event, serve_events, serve_round, serve_rounds,
}

module _ {World : Type 0} (sys : System World) (streams : Streams World) where
  open streams use {sent, received}

  Back-Even : {w w' : World} {fd : ℤ} → Even streams w → Back sys streams w w' fd → Even streams w'
  Back-Even {w' = w'} even (bytes, le, p) d =
      let (l, e, nothing_left) = Passes-left streams even p (append_nil bytes) d in
      sym (append_nil (sent w' d))
      ∙ ap (λ x. sent w' d ++ x) (sym (elim nothing_left [ inl x ↦ x | inr x ↦ x ]))
      ∙ e

  -- How a handler comes out: with 0 when all is answered.
  abbrev Handled : Outcome (ℕ × World) → Type 0
  Handled (ok (zero, w)) = Even streams w
  Handled (ok (suc re, w)) = Behind streams w
  Handled aborted = (fd : ℤ) × NothingTaken sys streams fd
  Handled fault = ⊥
  Handled unfinished = ⊥

  -- How a round comes out. The process goes on only when all that was received has been sent back; when
  -- it exits, what was sent is the front of what was received.
  abbrev pub Answered : Outcome (Served World) → Type 0
  Answered (ok (goes_on w)) = Even streams w
  Answered (ok (exits exitstatus w)) = Behind streams w
  Answered aborted = (fd : ℤ) × NothingTaken sys streams fd
  Answered fault = ⊥
  Answered unfinished = ⊥

  data_echo-Handled :
      (w : World) (fd : ℤ)
      → Even streams w
      → (out : Outcome (ℕ × World)) → Echoed sys streams w fd out
      → Handled out
  data_echo-Handled w fd even (ok (zero, w')) back = Back-Even even back
  data_echo-Handled w fd even (ok (suc re, w')) (one, cut) = Cut-Behind streams even cut
  data_echo-Handled w fd even aborted nothing = (fd, nothing)
  data_echo-Handled w fd even fault f = f
  data_echo-Handled w fd even unfinished f = f

  code-Handled : (w : World) (code : ℕ) → Even streams w → Handled (ok (code, w))
  code-Handled w zero even = even
  code-Handled w (suc code) even = Even-Behind streams even

  -- A failure code in place of another.
  recode-Handled :
      (code : ℕ) (out : Outcome (ℕ × World))
      → Handled out
      → Handled (out >>= (λ (r : ℕ × World). ok (if r.0 == 0 then 0 else suc code, r.1)))
  recode-Handled code (ok (zero, w)) h = h
  recode-Handled code (ok (suc re, w)) h = rw (not_zero re) h
    where
      not_zero : (n : ℕ) → (suc n == 0) ≡ false
      not_zero n = ground arith
  recode-Handled code aborted h = h
  recode-Handled code fault h = h
  recode-Handled code unfinished h = h

  exit-Answered :
      (status : ℕ) (out : Outcome (ℕ × World))
      → Handled out
      → Answered
          (out >>= (λ (r : ℕ × World). ok (if r.0 == 0 then goes_on r.1 else exits status r.1)))
  exit-Answered status (ok (zero, w)) h = h
  exit-Answered status (ok (suc re, w)) h = rw (not_zero re) h
    where
      not_zero : (n : ℕ) → (suc n == 0) ≡ false
      not_zero n = ground arith
  exit-Answered status aborted h = h
  exit-Answered status fault h = h
  exit-Answered status unfinished h = h

  and_then-Answered :
      (out : Outcome (Served World)) (next : World → Outcome (Served World))
      → Answered out
      → ((w : World) → Even streams w → Answered (next w))
      → Answered (out >>= (λ served. and_then served next))
  unfolding and_then
  and_then-Answered (ok (goes_on w)) next h k = k w h
  and_then-Answered (ok (exits exitstatus w)) next h k = h
  and_then-Answered aborted next h k = h
  and_then-Answered fault next h k = h
  and_then-Answered unfinished next h k = h

  module _ (laws : Laws sys streams) where
    accept-Even :
        (w : World) (epollfd srvfd : ℤ)
        → Even streams w
        → Even streams (accept_epoll_ctl sys w epollfd srvfd).1
    unfolding accept_epoll_ctl epoll_add
    accept-Even w epollfd srvfd even = elim (Bool-cases (ltb_ℤ (sys.accept w srvfd).0 (pos 0))) [
      | inl failed ↦ rw failed (Silent-Even streams even (laws.accept_silent w srvfd))
      | inr accepted ↦ rw accepted (
          Silent-Even streams (Silent-Even streams even (laws.accept_silent w srvfd)) (
            laws.epoll_ctl_silent (sys.accept w srvfd).1 epollfd (ctl_add bit_epollin)
              (sys.accept w srvfd).0))
    ]

    deal-Handled :
        (w : World) (epollfd : ℤ) (event : Event)
        → Even streams w
        → Handled (deal_epoll_event sys w epollfd event (some (data_echo sys)) none)
    unfolding deal_epoll_event call_handler epoll_del
    deal-Handled w epollfd event even = elim (Bool-cases event.epollin) [
      | inl readable ↦ rw readable (
          recode-Handled 0 (data_echo sys w event.fd) (
            data_echo-Handled w event.fd even (data_echo sys w event.fd)
              (data_echo-Echoed sys streams laws w event.fd)))
      | inr no_input ↦ rw no_input (elim (Bool-cases event.epollout) [
        | inl writable ↦ rw writable even
        | inr no_output ↦ rw no_output (elim (Bool-cases event.epollrdhup) [
          | inl hup ↦ rw hup (
              code-Handled _ _
                (Silent-Even streams even (laws.epoll_ctl_silent w epollfd ctl_del event.fd)))
          | inr no_hup ↦ rw no_hup (elim (Bool-cases event.epollerr) [
            | inl err ↦ rw err (Even-Behind streams even)
            | inr unknown ↦ rw unknown (Even-Behind streams even)
          ])
        ])
      ])
    ]

    serve_event-Answered :
        (w : World) (epollfd srvfd : ℤ) (event : Event)
        → Even streams w
        → Answered (serve_event sys w epollfd srvfd event)
    unfolding serve_event
    serve_event-Answered w epollfd srvfd event even = elim (Bool-cases (eq_ℤ event.fd srvfd)) [
      | inl server ↦ rw server (
          exit-Answered 3 (ok (accept_epoll_ctl sys w epollfd srvfd))
            (code-Handled _ _ (accept-Even w epollfd srvfd even)))
      | inr client ↦ rw client (
          exit-Answered 4 (deal_epoll_event sys w epollfd event (some (data_echo sys)) none)
            (deal-Handled w epollfd event even))
    ]

    serve_events-Answered :
        (w : World) (epollfd srvfd : ℤ) (events : List Event)
        → Even streams w
        → Answered (serve_events sys w epollfd srvfd events)
    unfolding serve_events
    serve_events-Answered w epollfd srvfd [] even = even
    serve_events-Answered w epollfd srvfd (event ∷ events) even =
        and_then-Answered (serve_event sys w epollfd srvfd event)
          (λ w1. serve_events sys w1 epollfd srvfd events)
          (serve_event-Answered w epollfd srvfd event even)
          (λ w1 even1. serve_events-Answered w1 epollfd srvfd events even1)

    serve_round-Answered :
        (w : World) (epollfd srvfd : ℤ)
        → Even streams w
        → Answered (serve_round sys w epollfd srvfd)
    unfolding serve_round
    serve_round-Answered w epollfd srvfd even =
        let (nfds, events, w1) = sys.epoll_wait w epollfd max_events in
        let even1 = Silent-Even streams even (laws.epoll_wait_silent w epollfd max_events) in
        elim (Bool-cases (ltb_ℤ nfds (pos 0))) [
          | inl failed ↦ rw failed (Even-Behind streams even1)
          | inr waited ↦ rw waited (serve_events-Answered w1 epollfd srvfd events even1)
        ]

    -- If the system calls keep to their laws and all that was received has been sent back, then after any
    -- number of rounds of the epoll server's loop, either it goes on and on each descriptor all that was
    -- received has been sent back, in its order, or it has exited and on each descriptor the front of what
    -- was received has been sent back. It fails an assertion only if a `write` of one byte or more returned 0.
    pub serve_rounds-Answered :
        (rounds : ℕ) (w : World) (epollfd srvfd : ℤ)
        → Even streams w
        → Answered (serve_rounds sys rounds w epollfd srvfd)
    unfolding serve_rounds
    serve_rounds-Answered zero w epollfd srvfd even = even
    serve_rounds-Answered (suc rounds) w epollfd srvfd even =
        and_then-Answered (serve_round sys w epollfd srvfd)
          (λ w1. serve_rounds sys rounds w1 epollfd srvfd)
          (serve_round-Answered w epollfd srvfd even)
          (λ w1 even1. serve_rounds-Answered rounds w1 epollfd srvfd even1)
