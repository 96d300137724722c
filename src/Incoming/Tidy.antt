-- ===== src/Incoming/Tidy.antt =====
-- adsbus/incoming.c: every handler leaves the structure and the descriptors in one of the states
-- that the other handlers start from.
use adsb_tools.Prelude.{
  ℕ, ◌+◌, ◌≤◌, ◌<◌, ◌≡◌, refl, ap, ◌∙◌, true, false, none, some, List, [], ◌∷◌, Run, ok, arith,
  Bool-cases, Option-cases, inl, inr,
}
use native.Mathlib.Nat.{mod-eq_of_lt}
use adsb_tools.Packet.{u32}
use adsb_tools.Os.{Event, opened, foreign, closed, bound, listening, watched, Os}
use adsb_tools.Os.Ledger.{idle, status, held, is_open, is_idle, HoldsNone, Holds, Works}
use adsb_tools.Peer.{World, called, epollin}
use adsb_tools.Peer.Keeps.{
  Waits, SameHeld, SameHeld-refl, SameHeld-trans, SameHeld-HoldsNone, SameHeld-Holds, opened-Holds,
  watched-Holds, closed-HoldsNone, peer_epoll_add-idle, close_checked-open, Resolved-cases,
}
use adsb_tools.Flow.{Flow, socket_pre_bind, socket_pre_listen}
use adsb_tools.Flow.Keeps.{
  IsFlow, set_option-IsNeutral, flow_socket_ready-IsNeutral, told-IsNeutral, greeted-IsNeutral,
  foreign-SameHeld,
}
use adsb_tools.Wakeup.{wakeup_get_retry_delay_ms}
use adsb_tools.Wakeup.Delay.{retry_delay-bounds}
use adsb_tools.Wakeup.Keeps.{wakeup_add-SameHeld}
use adsb_tools.Incoming.{
  Incoming, IncomingHandler, resolve_wrapper, listen_handler, accept_handler, with_fd, Bound,
  incoming_retry, incoming_accepted, incoming_handler, incoming_bound, incoming_bind,
  incoming_ready, incoming_listen, incoming_resolve, incoming_handle,
}

-- Before a retry nothing is held; otherwise the descriptor of the structure is, and only that.
abbrev pub TidyAt : IncomingHandler → Incoming → World → Type 0
TidyAt resolve_wrapper i w = HoldsNone w.trace
TidyAt listen_handler i w = Waits i.peer w
TidyAt accept_handler i w = Waits i.peer w

pub record IsTidy (i : Incoming) (w : World) : Type 0 where
  pub at : TidyAt i.handler i w

-- What a handler leaves, after at most so many attempts in a row.
pub record Leaves (attempts : ℕ) (m : Run (Incoming × World)) : Type 0 where
  pub result : Incoming × World
  pub done : m ≡ ok result
  pub tidy : IsTidy result.0 result.1
  pub tries : result.0.attempt ≤ attempts

leaves :
    {attempts : ℕ} (i : Incoming) (w : World)
    → IsTidy i w
    → i.attempt ≤ attempts
    → Leaves attempts (ok (i, w))
leaves i w tidy tries = record { result = (i, w); done = refl; tidy = tidy; tries = tries }

-- What the loop over the addresses leaves.
record Binds (attempt : ℕ) (m : Run Bound) : Type 0 where
  pub result : Bound
  pub done : m ≡ ok result
  pub same_attempt : result.incoming.attempt ≡ attempt
  pub lost : result.found ≡ false → HoldsNone result.world.trace
  pub fd : ℕ
  pub won :
      result.found ≡ true → (result.incoming.peer.fd ≡ some fd) × Holds idle fd result.world.trace

module _ {os : Os} {flow : Flow} (works : Works os) (good : IsFlow flow) where
  accepted-SameHeld :
      (fd : ℕ) (w : World)
      → is_open (status w.trace fd) ≡ true
      → held (status w.trace fd) ≡ false
      → (w' : World) × (incoming_accepted os flow fd w ≡ ok w') × SameHeld w.trace w'.trace
  unfolding incoming_accepted
  accepted-SameHeld fd w h free =
      let (told, still) = told-IsNeutral works fd good w h in
      let free1 = stays_free fd told.same_held free in
      let (r, greeted, same) = greeted-IsNeutral works fd good told.after still free1 in
      (
        r.1,
        simp (incoming_accepted, works.local w.trace fd h, works.named [], told.done, greeted),
        SameHeld-trans told.same_held same,
      )
    where
      stays_free :
          {t t' : List Event} (x : ℕ)
          → SameHeld t t'
          → held (status t x) ≡ false
          → held (status t' x) ≡ false
      stays_free x s f = elim (s.same x) [ inl e ↦ ap held e ∙ f | inr e ↦ e.1 ]

  -- Accepting a connection, or failing to, leaves the listening socket as it was.
  handler-SameHeld :
      (i : Incoming) (w : World)
      → (w' : World) × (incoming_handler os flow i w ≡ ok (i, w')) × SameHeld w.trace w'.trace
  unfolding incoming_handler
  handler-SameHeld i w = elim (Option-cases i.peer.fd) [
    | inl e ↦ (w, simp (incoming_handler, e), SameHeld-refl)
    | inr (listener, e) ↦ elim (Option-cases (os.accept4 w.trace listener)) [
      | inl ea ↦ (w, simp (incoming_handler, e, ea), SameHeld-refl)
      | inr (fd, ea) ↦
          let new = works.accept_new w.trace listener fd ea in
          let s = foreign-SameHeld w.trace fd new in
          let (w', done, same) = accepted-SameHeld fd (called (foreign fd) w) s.1 s.2 in
          (w', simp (incoming_handler, e, ea, done), SameHeld-trans s.0 same)
    ]
  ]

  bound-Binds :
      (fd : ℕ) (i : Incoming) (w : World)
      → i.peer.fd ≡ some fd
      → Holds idle fd w.trace
      → Binds i.attempt (incoming_bound os flow fd i w)
  unfolding incoming_bound socket_pre_listen
  bound-Binds fd i w named h =
      let one = set_option-IsNeutral works 23 fd w (ap is_open h.own) in
      let h1 = SameHeld-Holds refl one.same_held h in
      let two = flow_socket_ready-IsNeutral works fd one.after h1 good in
      let h2 = SameHeld-Holds refl two.same_held h1 in
      record {
        result = record { found = true; incoming = i; world = called (listening fd) two.after };
        done = simp (
          incoming_bound,
          one.done,
          two.done,
          works.listens two.after.trace fd (ap is_open h2.own),
        );
        same_attempt = refl;
        lost = λ x. cc;
        fd = fd;
        won = λ _. (named, unfold status in record { own = h2.own; no_other = h2.no_other });
      }

  bind-Binds :
      (addrs : List (List ℕ)) (i : Incoming) (w : World)
      → HoldsNone w.trace
      → Binds i.attempt (incoming_bind os flow addrs i w)
  unfolding incoming_bind socket_pre_bind
  bind-Binds [] i w h = record {
    result = record { found = false; incoming = i; world = w };
    done = refl;
    same_attempt = refl;
    lost = λ _. h;
    fd = 0;
    won = λ x. cc;
  }
  bind-Binds (a ∷ rest) i w h =
      let (fd, created, new) = works.socket_new w.trace in
      let h1 = opened-Holds w.trace fd h in
      let one = set_option-IsNeutral works 15 fd (called (opened fd) w) (ap is_open h1.own) in
      let h2 = SameHeld-Holds refl one.same_held h1 in
      let w2 = called (bound fd a) one.after in
      let h3 : Holds idle fd w2.trace =
        unfold status in record { own = h2.own; no_other = h2.no_other } in
      elim (Bool-cases (os.bind one.after.trace fd)) [
        | inl e ↦
            simp (incoming_bind, works.named a, created, one.done, e)
              (bound-Binds fd (with_fd (some fd) i) w2 refl h3)
        | inr e ↦
            let shut = close_checked-open works fd w2 (ap is_open h3.own) in
            simp (incoming_bind, works.named a, created, one.done, e, shut)
              (bind-Binds rest (with_fd (some fd) i) (called (closed fd) w2)
                (closed-HoldsNone w2.trace fd h3))
      ]

  module _ (attempts : ℕ) (defined : attempts ≤ 20) where
    retry_after-Leaves :
        (i : Incoming) (w : World) (delay : ℕ)
        → HoldsNone w.trace
        → i.attempt < attempts
        → wakeup_get_retry_delay_ms i.attempt (os.jitter w.trace) ≡ ok delay
        → Leaves attempts (incoming_retry os flow i w)
    unfolding incoming_retry
    retry_after-Leaves i w delay h few timed =
        let next : u32 (i.attempt + 1) ≡ i.attempt + 1 = mod-eq_of_lt (omega arith) in
        let (w1, added, same) = wakeup_add-SameHeld works delay w in
        simp (incoming_retry, next, timed, added)
          (leaves (record i { attempt = i.attempt + 1; handler = resolve_wrapper }) w1
            (record { at = SameHeld-HoldsNone same h }) (omega arith))

    retry-Leaves :
        (i : Incoming) (w : World)
        → HoldsNone w.trace
        → i.attempt < attempts
        → Leaves attempts (incoming_retry os flow i w)
    retry-Leaves i w h few =
        let delay = retry_delay-bounds i.attempt (os.jitter w.trace) (omega arith) in
        retry_after-Leaves i w delay.0 h few delay.1

    ready-Leaves :
        (i : Incoming) (w : World) (fd : ℕ)
        → i.peer.fd ≡ some fd
        → Holds idle fd w.trace
        → Leaves attempts (incoming_ready os flow i w)
    unfolding incoming_ready
    ready-Leaves i w fd named h =
        let added = peer_epoll_add-idle works i.peer fd epollin w named (ap is_idle h.own) in
        let peer = record i.peer { always_trigger = false } in
        simp (incoming_ready, added)
          (leaves (record i { peer = peer; handler = accept_handler; attempt = 0 })
            (called (watched fd epollin) w)
            (record {
              at = record { fd = fd; named = named; only = watched-Holds w.trace fd epollin h };
            })
            (omega arith))

    listen-Leaves :
        (i : Incoming) (w : World)
        → Waits i.peer w
        → i.attempt < attempts
        → Leaves attempts (incoming_listen os flow i w)
    unfolding incoming_listen
    listen-Leaves i w waits few =
        let i1 = with_fd none i in
        let w1 = called (closed waits.fd) w in
        let h1 = closed-HoldsNone w.trace waits.fd waits.only in
        elim (Resolved-cases (os.asyncaddrinfo_result w.trace waits.fd)) [
          | inl e ↦ simp (incoming_listen, waits.named, e) (retry-Leaves i1 w1 h1 few)
          | inr (addrs, e) ↦
              let b = bind-Binds addrs i1 w1 h1 in
              elim (Bool-cases b.result.found) [
                | inl yes' ↦
                    simp (incoming_listen, waits.named, e, b.done, yes')
                      (ready-Leaves b.result.incoming b.result.world b.fd (b.won yes').0
                        (b.won yes').1)
                | inr no' ↦
                    simp (incoming_listen, waits.named, e, b.done, no')
                      (retry-Leaves b.result.incoming b.result.world (b.lost no')
                        (omega (arith, b.same_attempt)))
              ]
        ]

    pub resolve-Leaves :
        (i : Incoming) (w : World)
        → HoldsNone w.trace
        → i.attempt ≤ attempts
        → Leaves attempts (incoming_resolve os flow i w)
    unfolding incoming_resolve
    resolve-Leaves i w h few =
        let fd = os.asyncaddrinfo_resolve w.trace in
        let i1 = record (with_fd (some fd) i) { handler = listen_handler } in
        let w1 = called (opened fd) w in
        let h1 = opened-Holds w.trace fd h in
        let added = peer_epoll_add-idle works i1.peer fd epollin w1 refl (ap is_idle h1.own) in
        simp (incoming_resolve, added)
          (leaves (record i1 { peer = record i1.peer { always_trigger = false } })
            (called (watched fd epollin) w1)
            (record {
              at = record { fd = fd; named = refl; only = watched-Holds w1.trace fd epollin h1 };
            })
            few)

    accept-Leaves :
        (i : Incoming) (w : World)
        → i.handler ≡ accept_handler
        → Waits i.peer w
        → i.attempt ≤ attempts
        → Leaves attempts (incoming_handler os flow i w)
    accept-Leaves i w at_accept waits few =
        let (w', done, same) = handler-SameHeld i w in
        let still : Waits i.peer w' = record {
          fd = waits.fd;
          named = waits.named;
          only = SameHeld-Holds refl same waits.only;
        } in
        simp done (leaves i w' (record { at = simp at_accept still }) few)

    pub incoming_handle-Leaves :
        (i : Incoming) (w : World)
        → IsTidy i w
        → i.attempt < attempts
        → Leaves attempts (incoming_handle os flow i w)
    unfolding incoming_handle
    incoming_handle-Leaves i w tidy few = by_handler i.handler refl tidy.at
      where
        by_handler :
            (h : IncomingHandler)
            → i.handler ≡ h
            → TidyAt h i w
            → Leaves attempts (elim h [
              | resolve_wrapper ↦ incoming_resolve os flow i w
              | listen_handler ↦ incoming_listen os flow i w
              | accept_handler ↦ incoming_handler os flow i w
            ])
        by_handler resolve_wrapper e at = resolve-Leaves i w at (omega arith)
        by_handler listen_handler e at = listen-Leaves i w at few
        by_handler accept_handler e at = accept-Leaves i w e at (omega arith)
