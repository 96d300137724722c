-- ===== src/Incoming/Stale.antt =====
-- adsbus/incoming.c: what is left when no address could be bound.
use adsb_tools.Prelude.{
  ℕ, ◌+◌, ◌<◌, ◌≡◌, ◌⊎◌, refl, ap, true, false, none, some, List, [], ◌∷◌, length, Run, ok, abort,
  arith, inl, inr, Bool-cases,
}
use adsb_tools.Packet.{u32}
use adsb_tools.Os.{Event, opened, closed, bound, Os, failed, addresses}
use adsb_tools.Os.Ledger.{
  Status, gone, elsewhere, other_idle, other_polled, polled, idle, status, held, is_open, HoldsNone,
  Holds, Works,
}
use adsb_tools.Peer.{World, called, peer_close, peer_epoll_del}
use adsb_tools.Peer.Keeps.{
  Waits, SameHeld-Holds, SameHeld-HoldsNone, opened-Holds, closed-HoldsNone, close_checked-open,
}
use adsb_tools.Flow.{Flow, flow_ref_dec, socket_pre_bind}
use adsb_tools.Flow.Keeps.{set_option-IsNeutral}
use adsb_tools.Wakeup.{wakeup_get_retry_delay_ms}
use adsb_tools.Wakeup.Delay.{retry_delay-bounds}
use adsb_tools.Wakeup.Keeps.{wakeup_add-SameHeld}
use adsb_tools.Incoming.{
  Incoming, resolve_wrapper, with_fd, Bound, incoming_bind, incoming_del, incoming_listen,
  incoming_retry,
}

-- The structure names a descriptor, and holds none.
record IsStale (i : Incoming) (w : World) : Type 0 where
  pub fd : ℕ
  pub named : i.peer.fd ≡ some fd
  pub nothing : HoldsNone w.trace

record Fails (attempt : ℕ) (m : Run Bound) : Type 0 where
  pub result : Bound
  pub done : m ≡ ok result
  pub not_found : result.found ≡ false
  pub same_attempt : result.incoming.attempt ≡ attempt
  pub stale : IsStale result.incoming result.world

module _ {os : Os} (flow : Flow) (works : Works os) where
  bind-Fails :
      (addrs : List (List ℕ)) (i : Incoming) (w : World)
      → ((t : List Event) (fd : ℕ) → os.bind t fd ≡ false)
      → IsStale i w ⊎ ((0 < length addrs) × HoldsNone w.trace)
      → Fails i.attempt (incoming_bind os flow addrs i w)
  unfolding incoming_bind socket_pre_bind
  bind-Fails [] i w refuses (inr h) = absurd (omega (arith, h.0))
  bind-Fails [] i w refuses (inl stale) = record {
    result = record { found = false; incoming = i; world = w };
    done = refl;
    not_found = refl;
    same_attempt = refl;
    stale = stale;
  }
  bind-Fails (a ∷ rest) i w refuses h =
      let nothing : HoldsNone w.trace = elim h [ inl s ↦ s.nothing | inr s ↦ s.1 ] in
      let (fd, created, new) = works.socket_new w.trace in
      let h1 = opened-Holds w.trace fd nothing in
      let one = set_option-IsNeutral works 15 fd (called (opened fd) w) (ap is_open h1.own) in
      let h2 = SameHeld-Holds refl one.same_held h1 in
      let w2 = called (bound fd a) one.after in
      let h3 : Holds idle fd w2.trace =
        unfold status in record { own = h2.own; no_other = h2.no_other } in
      let shut = close_checked-open works fd w2 (ap is_open h3.own) in
      simp (incoming_bind, works.named a, created, one.done, refuses one.after.trace fd, shut)
        (bind-Fails rest (with_fd (some fd) i) (called (closed fd) w2) refuses
          (inl (record { fd = fd; named = refl; nothing = closed-HoldsNone w2.trace fd h3 })))

  retry-IsStale :
      (i : Incoming) (w : World) (delay : ℕ)
      → i.attempt < 20
      → IsStale i w
      → wakeup_get_retry_delay_ms i.attempt (os.jitter w.trace) ≡ ok delay
      → (s : Incoming × World) × (incoming_retry os flow i w ≡ ok s)
        × (s.0.handler ≡ resolve_wrapper)
        × IsStale s.0 s.1
  unfolding incoming_retry
  retry-IsStale i w delay few stale timed =
      let (w1, added, same) = wakeup_add-SameHeld works delay w in
      (
        (record i { attempt = u32 (i.attempt + 1); handler = resolve_wrapper }, w1),
        simp (incoming_retry, timed, added),
        refl,
        record {
          fd = stale.fd;
          named = stale.named;
          nothing = SameHeld-HoldsNone same stale.nothing;
        },
      )

  del-abort :
      (i : Incoming) (fd : ℕ) (w : World)
      → i.peer.fd ≡ some fd
      → os.epoll_ctl_del w.trace fd ≡ failed
      → incoming_del os flow i w ≡ abort
  unfolding incoming_del peer_close peer_epoll_del flow_ref_dec
  del-abort i fd w named refused = simp (incoming_del, peer_close, peer_epoll_del, named, refused)

closed-gone : (s : Status) → is_open s ≡ false → s ≡ gone
closed-gone gone h = refl
closed-gone elsewhere h = cc
closed-gone other_idle h = cc
closed-gone other_polled h = cc
closed-gone idle h = cc
closed-gone polled h = cc

-- When the resolver delivers addresses and no `bind` succeeds: `incoming_listen` asks for a retry
-- and leaves the structure with the number of a descriptor that it does not hold any more. To give
-- the structure up then fails an `assert`, or the number is that of somebody else's descriptor. The
-- conditions: the system calls answer as documented, and `epoll_ctl` refuses a descriptor that
-- is not open; the structure waits for the resolver, after fewer than twenty attempts.
pub incoming_listen-stale :
    (os : Os) (flow : Flow) (i : Incoming) (w : World) (a : List ℕ) (rest : List (List ℕ))
    → Works os
    → ((t : List Event) (fd : ℕ) → status t fd ≡ gone → os.epoll_ctl_del t fd ≡ failed)
    → ((t : List Event) (fd : ℕ) → os.bind t fd ≡ false)
    → (waits : Waits i.peer w) → os.asyncaddrinfo_result w.trace waits.fd ≡ addresses (a ∷ rest)
    → i.attempt < 20
    → (s : Incoming × World) × (incoming_listen os flow i w ≡ ok s)
      × (s.0.handler ≡ resolve_wrapper)
      × ((fd : ℕ) × (s.0.peer.fd ≡ some fd)
          × (held (status s.1.trace fd) ≡ false)
          × ((incoming_del os flow s.0 s.1 ≡ abort) ⊎ (is_open (status s.1.trace fd) ≡ true)))
unfolding incoming_listen
incoming_listen-stale os flow i w a rest works strict refuses waits resolved few =
    let w1 = called (closed waits.fd) w in
    let nothing = closed-HoldsNone w.trace waits.fd waits.only in
    let b =
      bind-Fails flow works (a ∷ rest) (with_fd none i) w1 refuses (inr (omega arith, nothing)) in
    let i2 = b.result.incoming in
    let w2 = b.result.world in
    let delay =
      retry_delay-bounds i2.attempt (os.jitter w2.trace) (omega (arith, b.same_attempt)) in
    let (s, done, waiting, stale) =
      retry-IsStale flow works i2 w2 delay.0 (omega (arith, b.same_attempt)) b.stale delay.1 in
    (
      s,
      simp (incoming_listen, waits.named, resolved, b.done, b.not_found, done),
      waiting,
      (
        stale.fd,
        stale.named,
        stale.nothing.not_held stale.fd,
        elim (Bool-cases (is_open (status s.1.trace stale.fd))) [
          | inl e ↦ inr e
          | inr e ↦
              let refused = strict s.1.trace stale.fd (closed-gone (status s.1.trace stale.fd) e) in
              inl (del-abort flow works s.0 stale.fd s.1 stale.named refused)
        ],
      ),
    )
