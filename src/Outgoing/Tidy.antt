-- ===== src/Outgoing/Tidy.antt =====
-- adsbus/outgoing.c: every handler leaves the structure and the descriptors in one of the states
-- that the other handlers start from.
use adsb_tools.Prelude.{
  ℕ, ◌+◌, ◌≤◌, ◌<◌, ◌≡◌, refl, ap, false, none, some, List, [], ◌∷◌, length, ◌==◌, Run, ok, arith,
  Bool-cases, inl, inr,
}
use native.Mathlib.Nat.{mod-eq_of_lt}
use adsb_tools.Packet.{u32}
use adsb_tools.Os.{opened, closed, sent, watched, unwatched, Os}
use adsb_tools.Os.Ledger.{idle, status, is_open, is_idle, is_polled, HoldsNone, Holds, Works}
use adsb_tools.Peer.{World, called, epollin, epollout}
use adsb_tools.Peer.Keeps.{
  Resolved-cases, Waits, Rests, SameHeld-HoldsNone, SameHeld-Holds, opened-Holds, watched-Holds,
  unwatched-Holds, closed-HoldsNone, peer_epoll_add-idle, peer_epoll_del-polled, close_checked-open,
}
use adsb_tools.Flow.{Flow, flow_get_hello}
use adsb_tools.Flow.Keeps.{
  IsFlow, flow_socket_ready-IsNeutral, flow_socket_connected-IsNeutral, flow_new-HoldsNone,
}
use adsb_tools.Wakeup.{wakeup_get_retry_delay_ms}
use adsb_tools.Wakeup.Delay.{retry_delay-bounds}
use adsb_tools.Wakeup.Keeps.{wakeup_add-SameHeld}
use adsb_tools.Outgoing.{
  Outgoing, OutgoingHandler, resolve_wrapper, resolve_handler, connect_handler, disconnect_handler,
  with_fd, einprogress, outgoing_retry, outgoing_connected, outgoing_in_progress, outgoing_failed,
  outgoing_connect_result, outgoing_start, outgoing_connect_next, outgoing_connect_on,
  outgoing_connect_handler, outgoing_resolve_handler, outgoing_resolve, outgoing_disconnect_handler,
  outgoing_handle,
}

abbrev pub TidyAt : OutgoingHandler → Outgoing → World → Type 0
TidyAt resolve_wrapper o w = Rests o.peer w
TidyAt disconnect_handler o w = Rests o.peer w
TidyAt resolve_handler o w = Waits o.peer w
TidyAt connect_handler o w = Waits o.peer w × (0 < length o.addr)

pub record IsTidy (o : Outgoing) (w : World) : Type 0 where
  pub at : TidyAt o.handler o w

-- What a handler leaves, after at most so many attempts in a row.
pub record Leaves (attempts : ℕ) (m : Run (Outgoing × World)) : Type 0 where
  pub result : Outgoing × World
  pub done : m ≡ ok result
  pub tidy : IsTidy result.0 result.1
  pub tries : result.0.attempt ≤ attempts

leaves :
    {attempts : ℕ} (o : Outgoing) (w : World)
    → IsTidy o w
    → o.attempt ≤ attempts
    → Leaves attempts (ok (o, w))
leaves o w tidy tries = record { result = (o, w); done = refl; tidy = tidy; tries = tries }

nonempty :
    (xs : List (List ℕ)) → 0 < length xs → (a : List ℕ) × (rest : List (List ℕ)) × (xs ≡ a ∷ rest)
nonempty [] h = absurd (omega arith)
nonempty (a ∷ rest) h = (a, rest, refl)

module _ {os : Os} {flow : Flow} (works : Works os) (good : IsFlow flow) (attempts : ℕ)
    (defined : attempts ≤ 20) where
  retry_after-Leaves :
      (o : Outgoing) (w : World) (delay : ℕ)
      → HoldsNone w.trace
      → o.attempt < attempts
      → wakeup_get_retry_delay_ms (o.attempt + 1) (os.jitter w.trace) ≡ ok delay
      → Leaves attempts (outgoing_retry os flow o w)
  unfolding outgoing_retry
  retry_after-Leaves o w delay h few timed =
      let next : u32 (o.attempt + 1) ≡ o.attempt + 1 = mod-eq_of_lt (omega arith) in
      let (w1, added, same) = wakeup_add-SameHeld works delay w in
      simp (outgoing_retry, next, timed, added)
        (leaves (record (with_fd none o) { attempt = o.attempt + 1; handler = resolve_wrapper }) w1
          (record { at = record { unnamed = refl; nothing = SameHeld-HoldsNone same h } })
          (omega arith))

  retry-Leaves :
      (o : Outgoing) (w : World)
      → HoldsNone w.trace
      → o.attempt < attempts
      → Leaves attempts (outgoing_retry os flow o w)
  retry-Leaves o w h few =
      let delay = retry_delay-bounds (o.attempt + 1) (os.jitter w.trace) (omega arith) in
      retry_after-Leaves o w delay.0 h few delay.1

  -- A socket that is held and not registered.
  module _ (o : Outgoing) (w : World) (fd : ℕ) (named : o.peer.fd ≡ some fd)
      (h : Holds idle fd w.trace) where
    connected-Leaves : Leaves attempts (outgoing_connected os flow o w)
    unfolding outgoing_connected
    connected-Leaves =
        let ready = flow_socket_ready-IsNeutral works fd w h good in
        let h1 = SameHeld-Holds refl ready.same_held h in
        let told = flow_socket_connected-IsNeutral works fd ready.after h1 good in
        let h2 = SameHeld-Holds refl told.same_held h1 in
        let (w3, taken, nothing) = flow_new-HoldsNone works fd told.after h2 good in
        simp (outgoing_connected, named, ready.done, told.done, taken)
          (leaves (record (with_fd none o) { attempt = 0; handler = disconnect_handler }) w3
            (record { at = record { unnamed = refl; nothing = nothing } }) (omega arith))

    in_progress-Leaves :
        0 < length o.addr
        → o.attempt ≤ attempts
        → Leaves attempts (outgoing_in_progress os flow o w)
    unfolding outgoing_in_progress
    in_progress-Leaves more few =
        let added = peer_epoll_add-idle works o.peer fd epollout w named (ap is_idle h.own) in
        let peer = record o.peer { always_trigger = false } in
        simp (outgoing_in_progress, added)
          (leaves (record o { peer = peer; handler = connect_handler })
            (called (watched fd epollout) w)
            (record {
              at = (
                record { fd = fd; named = named; only = watched-Holds w.trace fd epollout h },
                more,
              );
            })
            few)

    -- The next address is tried with the socket closed.
    connect_result-Leaves :
        (next : Outgoing → World → Run (Outgoing × World)) (result : ℕ) (a : List ℕ)
        (rest : List (List ℕ))
        → o.addr ≡ a ∷ rest
        → o.attempt ≤ attempts
        → ((w' : World) → HoldsNone w'.trace → Leaves attempts (next (record o { addr = rest }) w'))
        → Leaves attempts (outgoing_connect_result os flow next result o w)
    unfolding outgoing_connect_result outgoing_failed
    connect_result-Leaves next result a rest here few later = elim (Bool-cases (result == 0)) [
      | inl e ↦ simp (outgoing_connect_result, here, works.named a, e) connected-Leaves
      | inr e ↦ elim (Bool-cases (result == einprogress)) [
        | inl e' ↦
            simp (outgoing_connect_result, here, works.named a, e, e')
              (in_progress-Leaves (rw here (omega arith)) few)
        | inr e' ↦
            let shut = close_checked-open works fd w (ap is_open h.own) in
            simp (outgoing_connect_result, outgoing_failed, here, works.named a, e, e', named, shut)
              (later (called (closed fd) w) (closed-HoldsNone w.trace fd h))
      ]
    ]

  connect_next-Leaves :
      (addrs : List (List ℕ)) (o : Outgoing) (w : World)
      → o.addr ≡ addrs
      → HoldsNone w.trace
      → o.attempt < attempts
      → Leaves attempts (outgoing_connect_next os flow addrs o w)
  unfolding outgoing_connect_next outgoing_start
  connect_next-Leaves [] o w here h few = retry-Leaves o w h few
  connect_next-Leaves (a ∷ rest) o w here h few =
      let (fd, created, new) = works.socket_new w.trace in
      let hello = flow_get_hello flow in
      let w2 = called (sent fd hello) (called (opened fd) w) in
      let opened_one = opened-Holds w.trace fd h in
      let h2 : Holds idle fd w2.trace =
        unfold status in record { own = opened_one.own; no_other = opened_one.no_other } in
      simp (outgoing_connect_next, outgoing_start, works.named a, created)
        (connect_result-Leaves (with_fd (some fd) o) w2 fd refl h2
          (outgoing_connect_next os flow rest) _ a rest here (omega arith)
          (λ w' h'.
            connect_next-Leaves rest (record (with_fd (some fd) o) { addr = rest }) w' refl h' few))

  connect_handler-Leaves :
      (o : Outgoing) (w : World)
      → Waits o.peer w
      → 0 < length o.addr
      → o.attempt < attempts
      → Leaves attempts (outgoing_connect_handler os flow o w)
  unfolding outgoing_connect_handler
  connect_handler-Leaves o w waits more few =
      let (a, rest, here) = nonempty o.addr more in
      let fd = waits.fd in
      let w1 = called (unwatched fd) w in
      let h1 = unwatched-Holds w.trace fd waits.only in
      let removed =
        peer_epoll_del-polled works o.peer fd w waits.named (ap is_polled waits.only.own) in
      let (error, asked) = works.asked w1.trace fd (ap is_open h1.own) in
      simp (outgoing_connect_handler, removed, waits.named, asked)
        (connect_result-Leaves o w1 fd waits.named h1 (outgoing_connect_on os flow) error a rest
          here (omega arith)
          (λ w' h'.
            unfold outgoing_connect_on in
            connect_next-Leaves rest (record o { addr = rest }) w' refl h' few))

  resolve_handler-Leaves :
      (o : Outgoing) (w : World)
      → Waits o.peer w
      → o.attempt < attempts
      → Leaves attempts (outgoing_resolve_handler os flow o w)
  unfolding outgoing_resolve_handler outgoing_connect_on
  resolve_handler-Leaves o w waits few =
      let o1 = with_fd none o in
      let w1 = called (closed waits.fd) w in
      let h1 = closed-HoldsNone w.trace waits.fd waits.only in
      elim (Resolved-cases (os.asyncaddrinfo_result w.trace waits.fd)) [
        | inl e ↦ simp (outgoing_resolve_handler, waits.named, e) (retry-Leaves o1 w1 h1 few)
        | inr (addrs, e) ↦
            simp (outgoing_resolve_handler, waits.named, e)
              (connect_next-Leaves addrs (record o1 { addr = addrs }) w1 refl h1 few)
      ]

  pub resolve-Leaves :
      (o : Outgoing) (w : World)
      → HoldsNone w.trace
      → o.attempt ≤ attempts
      → Leaves attempts (outgoing_resolve os flow o w)
  unfolding outgoing_resolve
  resolve-Leaves o w h few =
      let fd = os.asyncaddrinfo_resolve w.trace in
      let o1 = record (with_fd (some fd) o) { handler = resolve_handler } in
      let w1 = called (opened fd) w in
      let h1 = opened-Holds w.trace fd h in
      let added = peer_epoll_add-idle works o1.peer fd epollin w1 refl (ap is_idle h1.own) in
      simp (outgoing_resolve, added)
        (leaves (record o1 { peer = record o1.peer { always_trigger = false } })
          (called (watched fd epollin) w1)
          (record {
            at = record { fd = fd; named = refl; only = watched-Holds w1.trace fd epollin h1 };
          })
          few)

  pub outgoing_handle-Leaves :
      (o : Outgoing) (w : World)
      → IsTidy o w
      → o.attempt < attempts
      → Leaves attempts (outgoing_handle os flow o w)
  unfolding outgoing_handle outgoing_disconnect_handler
  outgoing_handle-Leaves o w tidy few = by_handler o.handler tidy.at
    where
      by_handler :
          (h : OutgoingHandler)
          → TidyAt h o w
          → Leaves attempts (elim h [
            | resolve_wrapper ↦ outgoing_resolve os flow o w
            | resolve_handler ↦ outgoing_resolve_handler os flow o w
            | connect_handler ↦ outgoing_connect_handler os flow o w
            | disconnect_handler ↦ outgoing_disconnect_handler os flow o w
          ])
      by_handler resolve_wrapper at = resolve-Leaves o w at.nothing (omega arith)
      by_handler resolve_handler at = resolve_handler-Leaves o w at few
      by_handler connect_handler at = connect_handler-Leaves o w at.0 at.1 few
      by_handler disconnect_handler at = retry-Leaves o w at.nothing few
