-- ===== src/Outgoing/Reconnect.antt =====
-- adsbus/outgoing.c: the way back to a connection.
use adsb_tools.Prelude.{
  ℕ, ◌≡◌, refl, ap, false, none, some, List, ◌∷◌, length, Run, ok, Bool-cases, inl, inr,
}
use adsb_tools.Os.{given, Event, opened, closed, sent, watched, unwatched, Os, addresses}
use adsb_tools.Os.Ledger.{idle, status, is_idle, is_polled, HoldsNone, Holds, Works}
use adsb_tools.Peer.{World, called, epollin, epollout, peer_call}
use adsb_tools.Peer.Keeps.{
  Waits, Rests, SameHeld-Holds, opened-Holds, watched-Holds, unwatched-Holds, closed-HoldsNone,
  peer_epoll_add-idle, peer_epoll_del-polled,
}
use adsb_tools.Flow.{Flow, flow_get_hello, flow_new}
use adsb_tools.Flow.Keeps.{
  IsFlow, flow_socket_ready-IsNeutral, flow_socket_connected-IsNeutral, flow_new-HoldsNone,
}
use adsb_tools.Send.{short_write}
use adsb_tools.Outgoing.{
  Outgoing, resolve_wrapper, resolve_handler, connect_handler, disconnect_handler, with_fd,
  einprogress, outgoing_connected, outgoing_in_progress, outgoing_connect_result, outgoing_start,
  outgoing_connect_next, outgoing_connect_on, outgoing_connect_handler, outgoing_resolve_handler,
  outgoing_resolve, outgoing_handle,
}
use adsb_tools.Outgoing.Life.{outgoing_calls}

-- A server that can be reached: its name has addresses, the calls for the first are accepted or in
-- progress, and no error is reported for the socket.
pub record IsReachable (os : Os) : Type 0 where
  pub address : List ℕ
  pub further : List (List ℕ)
  pub resolves :
      (t : List Event) (fd : ℕ) → os.asyncaddrinfo_result t fd ≡ addresses (address ∷ further)
  pub starts : (t : List Event) → os.errno t ≡ einprogress
  pub answers : (t : List Event) (fd : ℕ) → os.socket_error t fd ≡ some 0

-- A structure that waits for its descriptor, with the next handler.
record Resolves (m : Run (Outgoing × World)) : Type 0 where
  pub result : Outgoing × World
  pub done : m ≡ ok result
  pub next : result.0.handler ≡ resolve_handler
  pub waits : Waits result.0.peer result.1

record Connects (addr : List (List ℕ)) (m : Run (Outgoing × World)) : Type 0 where
  pub result : Outgoing × World
  pub done : m ≡ ok result
  pub next : result.0.handler ≡ connect_handler
  pub left : result.0.addr ≡ addr
  pub waits : Waits result.0.peer result.1

-- The flow is given a descriptor, and has just returned.
record IsHandedOver (flow : Flow) (fd : ℕ) (m : Run (Outgoing × World)) : Type 0 where
  pub result : Outgoing × World
  pub done : m ≡ ok result
  pub next : result.0.handler ≡ disconnect_handler
  pub fresh : result.0.attempt ≡ 0
  pub before : World
  pub idle_before : status before.trace fd ≡ idle
  pub taken : flow.new fd (called (given fd) before) ≡ ok result.1
  pub rests : Rests result.0.peer result.1

module _ {os : Os} {flow : Flow} (works : Works os) (good : IsFlow flow)
    (server : IsReachable os) where
  resolve-Resolves :
      (o : Outgoing) (w : World) → HoldsNone w.trace → Resolves (outgoing_resolve os flow o w)
  unfolding outgoing_resolve
  resolve-Resolves o w h =
      let fd = os.asyncaddrinfo_resolve w.trace in
      let o1 = record (with_fd (some fd) o) { handler = resolve_handler } in
      let w1 = called (opened fd) w in
      let h1 = opened-Holds w.trace fd h in
      let added = peer_epoll_add-idle works o1.peer fd epollin w1 refl (ap is_idle h1.own) in
      record {
        result = (
          record o1 { peer = record o1.peer { always_trigger = false } },
          called (watched fd epollin) w1,
        );
        done = simp (outgoing_resolve, added);
        next = refl;
        waits = record { fd = fd; named = refl; only = watched-Holds w1.trace fd epollin h1 };
      }

  in_progress-Connects :
      (o : Outgoing) (w : World) (fd : ℕ) (addr : List (List ℕ))
      → o.peer.fd ≡ some fd
      → o.addr ≡ addr
      → Holds idle fd w.trace
      → Connects addr (outgoing_in_progress os flow o w)
  unfolding outgoing_in_progress
  in_progress-Connects o w fd addr named here h =
      let added = peer_epoll_add-idle works o.peer fd epollout w named (ap is_idle h.own) in
      record {
        result = (
          record o { peer = record o.peer { always_trigger = false }; handler = connect_handler },
          called (watched fd epollout) w,
        );
        done = simp (outgoing_in_progress, added);
        next = refl;
        left = here;
        waits = record { fd = fd; named = named; only = watched-Holds w.trace fd epollout h };
      }

  progress-Connects :
      (next : Outgoing → World → Run (Outgoing × World)) (o : Outgoing) (w : World) (fd : ℕ)
      → o.peer.fd ≡ some fd
      → o.addr ≡ server.address ∷ server.further
      → Holds idle fd w.trace
      → Connects
          (server.address ∷ server.further)
          (outgoing_connect_result os flow next einprogress o w)
  unfolding outgoing_connect_result
  progress-Connects next o w fd named here h =
      simp (outgoing_connect_result, here, works.named server.address)
        (in_progress-Connects o w fd (server.address ∷ server.further) named here h)

  -- Whether `sendto` takes the greeting or reports EINPROGRESS.
  connect_next-Connects :
      (o : Outgoing) (w : World)
      → o.addr ≡ server.address ∷ server.further
      → HoldsNone w.trace
      → Connects
          (server.address ∷ server.further)
          (outgoing_connect_next os flow (server.address ∷ server.further) o w)
  unfolding outgoing_connect_next outgoing_start
  connect_next-Connects o w here h =
      let (fd, created, new) = works.socket_new w.trace in
      let hello = flow_get_hello flow in
      let w1 = called (opened fd) w in
      let w2 = called (sent fd hello) w1 in
      let opened_one = opened-Holds w.trace fd h in
      let h2 : Holds idle fd w2.trace =
        unfold status in record { own = opened_one.own; no_other = opened_one.no_other } in
      let begun =
        progress-Connects (outgoing_connect_next os flow server.further) (with_fd (some fd) o) w2 fd
          refl here h2 in
      elim (Bool-cases (short_write (os.sendto w1.trace fd hello) (length hello))) [
        | inl e ↦
            simp
              (
                outgoing_connect_next,
                outgoing_start,
                works.named server.address,
                created,
                e,
                server.starts w2.trace,
              )
              begun
        | inr e ↦
            simp (outgoing_connect_next, outgoing_start, works.named server.address, created, e)
              begun
      ]

  resolve_handler-Connects :
      (o : Outgoing) (w : World)
      → Waits o.peer w
      → Connects (server.address ∷ server.further) (outgoing_resolve_handler os flow o w)
  unfolding outgoing_resolve_handler outgoing_connect_on
  resolve_handler-Connects o w waits =
      let addrs = server.address ∷ server.further in
      simp
        (
          outgoing_resolve_handler,
          outgoing_connect_on,
          waits.named,
          server.resolves w.trace waits.fd,
        )
        (connect_next-Connects (record (with_fd none o) { addr = addrs })
          (called (closed waits.fd) w) refl (closed-HoldsNone w.trace waits.fd waits.only))

  connected-IsHandedOver :
      (o : Outgoing) (w : World) (fd : ℕ)
      → o.peer.fd ≡ some fd
      → Holds idle fd w.trace
      → IsHandedOver flow fd (outgoing_connected os flow o w)
  unfolding outgoing_connected
  connected-IsHandedOver o w fd named h =
      let ready = flow_socket_ready-IsNeutral works fd w h good in
      let h1 = SameHeld-Holds refl ready.same_held h in
      let told = flow_socket_connected-IsNeutral works fd ready.after h1 good in
      let h2 = SameHeld-Holds refl told.same_held h1 in
      let (w3, taken, nothing) = flow_new-HoldsNone works fd told.after h2 good in
      record {
        result = (record (with_fd none o) { attempt = 0; handler = disconnect_handler }, w3);
        done = simp (outgoing_connected, named, ready.done, told.done, taken);
        next = refl;
        fresh = refl;
        before = told.after;
        idle_before = h2.own;
        taken = unfold flow_new in taken;
        rests = record { unnamed = refl; nothing = nothing };
      }

  connect_handler-IsHandedOver :
      (o : Outgoing) (w : World)
      → (waits : Waits o.peer w) → o.addr ≡ server.address ∷ server.further
      → IsHandedOver flow waits.fd (outgoing_connect_handler os flow o w)
  unfolding outgoing_connect_handler outgoing_connect_result
  connect_handler-IsHandedOver o w waits here =
      let fd = waits.fd in
      let w1 = called (unwatched fd) w in
      let h1 = unwatched-Holds w.trace fd waits.only in
      let removed =
        peer_epoll_del-polled works o.peer fd w waits.named (ap is_polled waits.only.own) in
      simp
        (
          outgoing_connect_handler,
          outgoing_connect_result,
          removed,
          waits.named,
          server.answers w1.trace fd,
          here,
          works.named server.address,
        )
        (connected-IsHandedOver o w1 fd waits.named h1)

-- A connection that waits for a retry, to a server that can be reached, under the conditions on the
-- system calls and on the flow: the next three calls of the peer - for the timer, for the resolver
-- and for the socket - resolve the name, start the connection and hand the connected socket to
-- the flow. The descriptor that the structure has after two calls is what the flow's `new` is called
-- with in the third, while it is open and not registered, and what this call leaves is the result.
-- Then the structure has no descriptor, waits for the end of the flow, and its attempts are counted
-- from 0 again.
pub outgoing_calls-connects :
    (os : Os) (flow : Flow) (o : Outgoing) (w : World)
    → Works os
    → IsFlow flow
    → IsReachable os
    → o.handler ≡ resolve_wrapper
    → HoldsNone w.trace
    → (s : Outgoing × World) × (outgoing_calls os flow 3 o w ≡ ok s)
      × ((fd : ℕ) × (before : Outgoing × World) × (outgoing_calls os flow 2 o w ≡ ok before)
          × (before.0.peer.fd ≡ some fd)
          × ((w' : World) × (status w'.trace fd ≡ idle)
              × (flow.new fd (called (given fd) w') ≡ ok s.1)))
      × (s.0.handler ≡ disconnect_handler)
      × (s.0.attempt ≡ 0)
      × (s.0.peer.fd ≡ none)
      × HoldsNone s.1.trace
unfolding outgoing_calls outgoing_handle peer_call
outgoing_calls-connects os flow o w works good server waiting h =
    let one = resolve-Resolves {flow = flow} works good server o w h in
    let two = resolve_handler-Connects works good server one.result.0 one.result.1 one.waits in
    let three =
      connect_handler-IsHandedOver works good server two.result.0 two.result.1 two.waits two.left in
    (
      three.result,
      simp (
        outgoing_calls, outgoing_handle, peer_call, waiting, one.done, one.next, two.done, two.next,
        three.done,
      ),
      (
        two.waits.fd,
        two.result,
        simp (outgoing_calls, outgoing_handle, peer_call, waiting, one.done, one.next, two.done),
        two.waits.named,
        (three.before, three.idle_before, three.taken),
      ),
      three.next,
      three.fresh,
      three.rests.unnamed,
      three.rests.nothing,
    )
