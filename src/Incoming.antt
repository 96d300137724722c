-- ===== src/Incoming.antt =====
-- adsbus/incoming.c: a listening socket, from the resolution of its address to the connections that
-- it accepts, and its retries.
pub mod Tidy
pub mod Life
pub mod Stale
use adsb_tools.Prelude.{
  ℕ, zero, suc, ◌+◌, ◌%◌, Bool, true, false, Option, none, some, List, [], ◌∷◌, ◌==◌, not,
  if◌then◌else◌, Run, ok, abort, ◌>>=◌, ◌>>◌, check,
}
use adsb_tools.Packet.{u32}
use adsb_tools.Os.{
  Event, opened, foreign, closed, bound, listening, Os, Resolved, unresolved, addresses,
}
use adsb_tools.Peer.{
  Peer, World, called, epollin, peer_epoll_add, peer_close, close_checked, peer_call,
}
use adsb_tools.Flow.{
  Flow, flow_ref_inc, flow_ref_dec, flow_socket_ready, flow_socket_connected, flow_new_send_hello,
  socket_pre_bind, socket_pre_listen,
}
use adsb_tools.Wakeup.{wakeup_get_retry_delay_ms}
use adsb_tools.Wakeup.Timer.{wakeup_add}

-- The functions that `peer.event_handler` points to.
pub data IncomingHandler : Type 0 where
  resolve_wrapper listen_handler accept_handler : IncomingHandler

-- `struct incoming`, less its identifier, its names, its flow and its place in the list.
pub record Incoming : Type 0 where
  pub peer : Peer
  pub handler : IncomingHandler
  pub attempt : ℕ

abbrev pub with_fd : Option ℕ → Incoming → Incoming
with_fd fd i = record i { peer = record i.peer { fd = fd } }

-- What the loop of `incoming_listen` leaves: whether an address was bound, and the rest.
pub record Bound : Type 0 where
  pub found : Bool
  pub incoming : Incoming
  pub world : World

abbrev Step : Type 0
Step = Incoming → World → Run (Incoming × World)

module _ (os : Os) (flow : Flow) where
  -- The descriptor stays as it is.
  unfoldable pub incoming_retry : Step
  incoming_retry i w = do
    delay ← wakeup_get_retry_delay_ms i.attempt (os.jitter w.trace)
    w1 ← wakeup_add os delay w
    ok (record i { attempt = u32 (i.attempt + 1); handler = resolve_wrapper }, w1)

  -- A connection that was accepted. The addresses that are printed are the system's own.
  unfoldable pub incoming_accepted : ℕ → World → Run World
  incoming_accepted fd w = do
    check (os.getsockname w.trace fd)
    check (os.getnameinfo [])
    check (os.getnameinfo [])
    w1 ← flow_socket_connected os fd flow w
    greeted ← flow_new_send_hello os fd flow w1
    ok greeted.1

  unfoldable pub incoming_handler : Step
  incoming_handler i w = elim i.peer.fd [
    | none ↦ ok (i, w)
    | some listener ↦ elim (os.accept4 w.trace listener) [
      | none ↦ ok (i, w)
      | some fd ↦ incoming_accepted fd (called (foreign fd) w) >>= λ w1. ok (i, w1)
    ]
  ]

  -- What follows a successful `bind`.
  unfoldable pub incoming_bound : ℕ → Incoming → World → Run Bound
  incoming_bound fd i w = do
    w1 ← socket_pre_listen os fd w
    w2 ← flow_socket_ready os fd flow w1
    check (os.listen w2.trace fd)
    ok (record { found = true; incoming = i; world = called (listening fd) w2 })

  -- The loop of `incoming_listen`.
  unfoldable pub incoming_bind : List (List ℕ) → Incoming → World → Run Bound
  incoming_bind [] i w = ok (record { found = false; incoming = i; world = w })
  incoming_bind (a ∷ rest) i w = check (os.getnameinfo a) >> (elim (os.socket w.trace) [
    | none ↦ abort
    | some fd ↦ do
      let i1 = with_fd (some fd) i
      w1 ← socket_pre_bind os fd (called (opened fd) w)
      let w2 = called (bound fd a) w1
      let try_next = (close_checked os fd w2 >>= λ w3. incoming_bind rest i1 w3)
      if os.bind w1.trace fd then incoming_bound fd i1 w2 else try_next
  ])

  -- What follows the loop.
  unfoldable pub incoming_ready : Step
  incoming_ready i w = do
    added ← peer_epoll_add os i.peer epollin w
    ok (record i { peer = added.0; handler = accept_handler; attempt = 0 }, added.1)

  -- With `resolve_result`, which closes the descriptor.
  unfoldable pub incoming_listen : Step
  incoming_listen i w = elim i.peer.fd [
    | none ↦ abort
    | some fd ↦
        let i1 = with_fd none i in
        let w1 = called (closed fd) w in
        elim (os.asyncaddrinfo_result w.trace fd) [
          | unresolved ↦ incoming_retry i1 w1
          | addresses addrs ↦ incoming_bind addrs i1 w1 >>= λ b.
              if b.found
              then incoming_ready b.incoming b.world
              else incoming_retry b.incoming b.world
        ]
  ]

  -- With `resolve`.
  unfoldable pub incoming_resolve : Step
  incoming_resolve i w = do
    let fd = os.asyncaddrinfo_resolve w.trace
    let i1 = record (with_fd (some fd) i) { handler = listen_handler }
    added ← peer_epoll_add os i1.peer epollin (called (opened fd) w)
    ok (record i1 { peer = added.0 }, added.1)

  -- The call of `peer.event_handler`.
  unfoldable pub incoming_handle : Step
  incoming_handle i w = elim i.handler [
    | resolve_wrapper ↦ incoming_resolve i w
    | listen_handler ↦ incoming_listen i w
    | accept_handler ↦ incoming_handler i w
  ]

  unfoldable pub incoming_del : Incoming → World → Run World
  incoming_del i w = peer_close os i.peer (flow_ref_dec w) >>= λ r. ok r.1

  -- The structure at an address, with what `malloc` leaves in it.
  unfoldable pub incoming_new : Peer → World → Run (Incoming × World)
  incoming_new allocated w =
      incoming_resolve (record { peer = allocated; handler = accept_handler; attempt = 0 })
        (flow_ref_inc w)
