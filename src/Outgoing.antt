-- ===== src/Outgoing.antt =====
-- adsbus/outgoing.c: a connection that the program makes, from the resolution of the name to the
-- hand-over of the connected socket to a flow, and its retries.
pub mod Tidy
pub mod Life
pub mod Reconnect
use adsb_tools.Prelude.{
  ℕ, zero, suc, ◌+◌, ◌%◌, Bool, true, false, Option, none, some, List, [], ◌∷◌, length, ◌==◌, not,
  if◌then◌else◌, Run, ok, abort, ◌>>=◌, ◌>>◌, check,
}
use adsb_tools.Packet.{u32}
use adsb_tools.Os.{Event, opened, closed, sent, Os, Resolved, unresolved, addresses}
use adsb_tools.Peer.{
  Peer, World, called, epollin, epollout, peer_epoll_add, peer_epoll_del, peer_close, close_checked,
  peer_call,
}
use adsb_tools.Send.{short_write}
use adsb_tools.Flow.{
  Flow, flow_get_hello, flow_ref_inc, flow_ref_dec, flow_socket_ready, flow_socket_connected,
  flow_new,
}
use adsb_tools.Wakeup.{wakeup_get_retry_delay_ms}
use adsb_tools.Wakeup.Timer.{wakeup_add}

-- The functions that `peer.event_handler` points to.
pub data OutgoingHandler : Type 0 where
  resolve_wrapper resolve_handler connect_handler disconnect_handler : OutgoingHandler

-- `struct outgoing`, less its identifier, its names, its flow and its place in the list. `addr` is
-- the list that the pointer leads to; the whole list, `addrs`, is only kept to be released.
pub record Outgoing : Type 0 where
  pub peer : Peer
  pub handler : OutgoingHandler
  pub addr : List (List ℕ)
  pub attempt : ℕ

abbrev pub einprogress : ℕ
einprogress = 115

abbrev pub with_fd : Option ℕ → Outgoing → Outgoing
with_fd fd o = record o { peer = record o.peer { fd = fd } }

abbrev Step : Type 0
Step = Outgoing → World → Run (Outgoing × World)

module _ (os : Os) (flow : Flow) where
  unfoldable pub outgoing_retry : Step
  outgoing_retry o w = do
    let attempt = u32 (o.attempt + 1)
    delay ← wakeup_get_retry_delay_ms attempt (os.jitter w.trace)
    w1 ← wakeup_add os delay w
    ok (record (with_fd none o) { attempt = attempt; handler = resolve_wrapper }, w1)

  -- The three cases of `outgoing_connect_result`. A call with -1 for a descriptor fails.
  unfoldable pub outgoing_connected : Step
  outgoing_connected o w = elim o.peer.fd [
    | none ↦ abort
    | some fd ↦ do
      w1 ← flow_socket_ready os fd flow w
      w2 ← flow_socket_connected os fd flow w1
      w3 ← flow_new os fd flow w2
      ok (record (with_fd none o) { attempt = 0; handler = disconnect_handler }, w3)
  ]

  unfoldable pub outgoing_in_progress : Step
  outgoing_in_progress o w = do
    added ← peer_epoll_add os o.peer epollout w
    ok (record o { peer = added.0; handler = connect_handler }, added.1)

  -- `next` is `outgoing_connect_next`, on the addresses behind the one that failed.
  unfoldable pub outgoing_failed : Step → List (List ℕ) → Step
  outgoing_failed next rest o w = elim o.peer.fd [
    | none ↦ abort
    | some fd ↦ close_checked os fd w >>= λ w1. next (record o { addr = rest }) w1
  ]

  unfoldable pub outgoing_connect_result : Step → ℕ → Step
  outgoing_connect_result next result o w = elim o.addr [
    | [] ↦ abort
    | a ∷ rest ↦
        check (os.getnameinfo a)
        >> (if result == 0
            then outgoing_connected o w
            else if result == einprogress
            then outgoing_in_progress o w
            else outgoing_failed next rest o w)
  ]

  -- `socket` and `sendto` for one address.
  unfoldable pub outgoing_start : (ℕ → Step) → Step
  outgoing_start conclude o w = elim (os.socket w.trace) [
    | none ↦ abort
    | some fd ↦
        let w1 = called (opened fd) w in
        let hello = flow_get_hello flow in
        let w2 = called (sent fd hello) w1 in
        let result =
          if short_write (os.sendto w1.trace fd hello) (length hello)
          then os.errno w2.trace
          else einprogress in
        conclude result (with_fd (some fd) o) w2
  ]

  -- `outgoing_connect_next` by the addresses that are left; the code calls itself by way of
  -- `outgoing_connect_result`.
  unfoldable pub outgoing_connect_next : List (List ℕ) → Step
  outgoing_connect_next [] o w = outgoing_retry o w
  outgoing_connect_next (a ∷ rest) o w =
      check (os.getnameinfo a)
      >> outgoing_start (outgoing_connect_result (outgoing_connect_next rest)) o w

  unfoldable pub outgoing_connect_on : Step
  outgoing_connect_on o w = outgoing_connect_next o.addr o w

  unfoldable pub outgoing_connect_handler : Step
  outgoing_connect_handler o w = do
    w1 ← peer_epoll_del os o.peer w
    elim o.peer.fd [
      | none ↦ abort
      | some fd ↦ elim (os.socket_error w1.trace fd) [
        | none ↦ abort
        | some error ↦ outgoing_connect_result outgoing_connect_on error o w1
      ]
    ]

  unfoldable pub outgoing_disconnect_handler : Step
  outgoing_disconnect_handler o w = outgoing_retry o w

  -- With `resolve_result`, which closes the descriptor.
  unfoldable pub outgoing_resolve_handler : Step
  outgoing_resolve_handler o w = elim o.peer.fd [
    | none ↦ abort
    | some fd ↦
        let o1 = with_fd none o in
        let w1 = called (closed fd) w in
        elim (os.asyncaddrinfo_result w.trace fd) [
          | unresolved ↦ outgoing_retry o1 w1
          | addresses addrs ↦ outgoing_connect_on (record o1 { addr = addrs }) w1
        ]
  ]

  -- With `resolve`.
  unfoldable pub outgoing_resolve : Step
  outgoing_resolve o w = do
    let fd = os.asyncaddrinfo_resolve w.trace
    let o1 = record (with_fd (some fd) o) { handler = resolve_handler }
    added ← peer_epoll_add os o1.peer epollin (called (opened fd) w)
    ok (record o1 { peer = added.0 }, added.1)

  -- The call of `peer.event_handler`.
  unfoldable pub outgoing_handle : Step
  outgoing_handle o w = elim o.handler [
    | resolve_wrapper ↦ outgoing_resolve o w
    | resolve_handler ↦ outgoing_resolve_handler o w
    | connect_handler ↦ outgoing_connect_handler o w
    | disconnect_handler ↦ outgoing_disconnect_handler o w
  ]

  unfoldable pub outgoing_del : Outgoing → World → Run World
  outgoing_del o w = peer_close os o.peer (flow_ref_dec w) >>= λ r. ok r.1

  -- The structure at an address, with what `malloc` leaves in it.
  unfoldable pub outgoing_new : Peer → World → Run (Outgoing × World)
  outgoing_new allocated w =
      outgoing_resolve
        (record { peer = allocated; handler = resolve_wrapper; addr = []; attempt = 0 })
        (flow_ref_inc w)
