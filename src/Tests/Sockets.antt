-- ===== src/Tests/Sockets.antt =====
-- adsbus/outgoing.c and adsbus/incoming.c at fixed inputs: a system whose calls succeed.
use adsb_tools.Prelude.{
  ◌>>=◌, ◌⊎◌, ℕ, ◌+◌, ◌≤◌, ◌≡◌, refl, ap, true, false, none, some, List, [], ◌∷◌, ok, abort, arith,
  ne→==, size,
}
use adsb_tools.Os.{
  Event, opened, foreign, closed, given, unwatched, listening, watched, armed, sent, bound,
  option_set, Os, Control, done, failed, addresses,
}
use adsb_tools.Os.Ledger.{
  is_open, Status, gone, elsewhere, idle, polled, other_idle, other_polled, status, held, is_polled,
  HoldsNone, Works,
}
use adsb_tools.Peer.{called, peer_call, Peer, World}
use adsb_tools.Flow.{Flow}
use adsb_tools.Flow.Keeps.{IsFlow, IsNeutral-refl}
use adsb_tools.Peer.Keeps.{Waits, opened-Holds, watched-Holds}
use adsb_tools.Incoming.{Incoming, resolve_wrapper, listen_handler, incoming_listen, incoming_del}
use adsb_tools.Incoming.Tidy
use adsb_tools.Incoming.Life.{CanEnd, incoming_life, incoming_life-IsTidy}
use adsb_tools.Incoming.Stale.{incoming_listen-stale}
use adsb_tools.Outgoing.{Outgoing, OutgoingHandler, outgoing_del, outgoing_retry}
use adsb_tools.Outgoing.Tidy.{IsTidy}
use adsb_tools.SendReceive.{SendReceive, send_receive_new, send_receive_on_close}
use adsb_tools.SendReceive.Halves.{send_receive-closes_once}
use adsb_tools.Outgoing.Reconnect.{IsReachable, outgoing_calls-connects}
use adsb_tools.Outgoing.Life.{
  outgoing_calls, outgoing_life, outgoing_life-no_leak, outgoing_retry-abort,
}

abbrev fd_of : Event → ℕ
fd_of (opened x) = x
fd_of (foreign x) = x
fd_of (closed x) = x
fd_of (given x) = x
fd_of (unwatched x) = x
fd_of (listening x) = x
fd_of (watched x events) = x
fd_of (armed x seconds nanoseconds) = x
fd_of (sent x text) = x
fd_of (bound x address) = x
fd_of (option_set x name) = x

-- A number above all descriptors that were used.
abbrev pub fresh : List Event → ℕ
fresh [] = 3
fresh (e ∷ t) = fd_of e + 1 + fresh t

pub fresh-gone : (t : List Event) (y : ℕ) → fresh t ≤ y → status t y ≡ gone
unfolding status
fresh-gone [] y h = refl
fresh-gone (opened x ∷ t) y h =
    simp (status, ne→== x y (omega arith)) (fresh-gone t y (omega arith))
fresh-gone (foreign x ∷ t) y h =
    simp (status, ne→== x y (omega arith)) (fresh-gone t y (omega arith))
fresh-gone (closed x ∷ t) y h =
    simp (status, ne→== x y (omega arith)) (fresh-gone t y (omega arith))
fresh-gone (given x ∷ t) y h = simp (status, ne→== x y (omega arith)) (fresh-gone t y (omega arith))
fresh-gone (unwatched x ∷ t) y h =
    simp (status, ne→== x y (omega arith)) (fresh-gone t y (omega arith))
fresh-gone (listening x ∷ t) y h = fresh-gone t y (omega arith)
fresh-gone (watched x events ∷ t) y h =
    simp (status, ne→== x y (omega arith)) (fresh-gone t y (omega arith))
fresh-gone (armed x seconds nanoseconds ∷ t) y h = fresh-gone t y (omega arith)
fresh-gone (sent x text ∷ t) y h = fresh-gone t y (omega arith)
fresh-gone (bound x address ∷ t) y h = fresh-gone t y (omega arith)
fresh-gone (option_set x name ∷ t) y h = fresh-gone t y (omega arith)

abbrev pub willing : Os
willing = record {
  socket = λ t. some (fresh t);
  close = λ t fd. true;
  epoll_ctl_add = λ t fd. done;
  epoll_ctl_del = λ t fd. done;
  timerfd_create = λ t. some (fresh t);
  timerfd_settime = λ t fd. true;
  asyncaddrinfo_resolve = λ t. fresh t;
  asyncaddrinfo_result = λ t fd. addresses ((127 ∷ 0 ∷ []) ∷ []);
  getnameinfo = λ address. true;
  sendto = λ t fd text. size 0;
  errno = λ t. 111;
  socket_error = λ t fd. some 0;
  setsockopt = λ t fd. true;
  bind = λ t fd. true;
  listen = λ t fd. true;
  accept4 = λ t fd. some (fresh t);
  getsockname = λ t fd. true;
  duplicate = λ t fd. some (fresh t);
  write = λ t fd text. size 0;
  read_events = λ t fd. some 1;
  malloc = λ t. 4096;
  jitter = λ t. 1234;
}

pub willing-Works : Works willing
willing-Works = record {
  socket_new = λ t. (fresh t, refl, fresh-gone t (fresh t) (omega arith));
  timer_new = λ t. (fresh t, refl, fresh-gone t (fresh t) (omega arith));
  resolve_new = λ t. fresh-gone t (fresh t) (omega arith);
  accept_new = λ t fd x e. fresh-gone t x (grind (arith, e));
  close_open = λ t fd h. refl;
  add_idle = λ t fd h. refl;
  del_polled = λ t fd h. refl;
  set = λ t fd h. refl;
  named = λ address. refl;
  asked = λ t fd h. (0, refl);
  optional = λ t fd h. refl;
  listens = λ t fd h. refl;
  local = λ t fd h. refl;
}

abbrev pub quiet_flow : Flow
quiet_flow = record {
  socket_ready = none;
  socket_connected = none;
  new = λ fd w. ok w;
  get_hello = none;
}

pub quiet_flow-IsFlow : IsFlow quiet_flow
quiet_flow-IsFlow = record {
  ready = λ callback fd w e. cc;
  connected = λ callback fd w e. cc;
  still_open = λ callback fd w e. cc;
  news = λ fd w h. IsNeutral-refl;
}

abbrev pub start : World
start = record { trace = []; always = []; wakeups = []; ref_count = 0 }

pub start-HoldsNone : HoldsNone []
unfolding status
start-HoldsNone = record { not_held = λ x. refl }

abbrev pub allocated : Peer
allocated = record { self = 4096; fd = none; always_trigger = false }

outgoing_life-no_leak_example :
    (s : Outgoing × World) × (outgoing_life willing quiet_flow 3 allocated start ≡ ok s)
    × IsTidy s.0 s.1
    × ((w' : World) × (outgoing_del willing quiet_flow s.0 s.1 ≡ ok w') × HoldsNone w'.trace)
outgoing_life-no_leak_example =
    outgoing_life-no_leak willing quiet_flow allocated start 3 willing-Works quiet_flow-IsFlow
      start-HoldsNone (omega arith)

abbrev tired : Outgoing
tired = record {
  peer = allocated;
  handler = OutgoingHandler.resolve_wrapper;
  addr = [];
  attempt = 20;
}

outgoing_retry-abort_example : outgoing_retry willing quiet_flow tired start ≡ abort
outgoing_retry-abort_example =
    outgoing_retry-abort willing quiet_flow tired start (omega arith) (omega arith)

incoming_life-IsTidy_example :
    (s : Incoming × World) × (incoming_life willing quiet_flow 4 allocated start ≡ ok s)
    × Tidy.IsTidy s.0 s.1
    × CanEnd willing quiet_flow s.0.handler s
incoming_life-IsTidy_example =
    incoming_life-IsTidy willing quiet_flow allocated start 4 willing-Works quiet_flow-IsFlow
      start-HoldsNone (omega arith)

-- The same system with all addresses in use, and an `epoll_ctl` that looks at the descriptor.
abbrev refusal : Status → Control
refusal gone = failed
refusal _ = done

abbrev occupied : Os
occupied = record willing { bind = λ t fd. false; epoll_ctl_del = λ t fd. refusal (status t fd) }

polled-done : (s : Status) → is_polled s ≡ true → refusal s ≡ done
polled-done polled h = refl
polled-done other_polled h = refl
polled-done gone h = cc
polled-done elsewhere h = cc
polled-done idle h = cc
polled-done other_idle h = cc

occupied-Works : Works occupied
occupied-Works = record {
  socket_new = willing-Works.socket_new;
  timer_new = willing-Works.timer_new;
  resolve_new = willing-Works.resolve_new;
  accept_new = willing-Works.accept_new;
  close_open = λ t fd h. refl;
  add_idle = λ t fd h. refl;
  del_polled = λ t fd h. polled-done (status t fd) h;
  set = λ t fd h. refl;
  named = λ address. refl;
  asked = λ t fd h. (0, refl);
  optional = λ t fd h. refl;
  listens = λ t fd h. refl;
  local = λ t fd h. refl;
}

abbrev resolving : Incoming
resolving = record {
  peer = record { self = 4096; fd = some 3; always_trigger = false };
  handler = listen_handler;
  attempt = 0;
}

abbrev one_resolution : World
one_resolution = record start { trace = watched 3 1 ∷ (opened 3 ∷ []) }

resolving-Waits : Waits resolving.peer one_resolution
resolving-Waits = record {
  fd = 3;
  named = refl;
  only = watched-Holds (opened 3 ∷ []) 3 1 (opened-Holds [] 3 start-HoldsNone);
}

incoming_listen-stale_example :
    (s : Incoming × World) × (incoming_listen occupied quiet_flow resolving one_resolution ≡ ok s)
    × (s.0.handler ≡ resolve_wrapper)
    × ((fd : ℕ) × (s.0.peer.fd ≡ some fd)
        × (held (status s.1.trace fd) ≡ false)
        × ((incoming_del occupied quiet_flow s.0 s.1 ≡ abort)
            ⊎ (is_open (status s.1.trace fd) ≡ true)))
incoming_listen-stale_example =
    incoming_listen-stale occupied quiet_flow resolving one_resolution (127 ∷ 0 ∷ []) []
      occupied-Works (λ t fd e. ap refusal e) (λ t fd. refl) resolving-Waits refl (omega arith)

abbrev reachable : Os
reachable = record willing { errno = λ t. 115 }

reachable-Works : Works reachable
reachable-Works = record {
  socket_new = willing-Works.socket_new;
  timer_new = willing-Works.timer_new;
  resolve_new = willing-Works.resolve_new;
  accept_new = willing-Works.accept_new;
  close_open = λ t fd h. refl;
  add_idle = λ t fd h. refl;
  del_polled = λ t fd h. refl;
  set = λ t fd h. refl;
  named = λ address. refl;
  asked = λ t fd h. (0, refl);
  optional = λ t fd h. refl;
  listens = λ t fd h. refl;
  local = λ t fd h. refl;
}

reachable-IsReachable : IsReachable reachable
reachable-IsReachable = record {
  address = 127 ∷ 0 ∷ [];
  further = [];
  resolves = λ t fd. refl;
  starts = λ t. refl;
  answers = λ t fd. refl;
}

outgoing_calls-connects_example :
    (s : Outgoing × World) × (outgoing_calls reachable quiet_flow 3 tired start ≡ ok s)
    × ((fd : ℕ) × (before : Outgoing × World) × (outgoing_calls reachable quiet_flow 2 tired start
          ≡ ok before)
        × (before.0.peer.fd ≡ some fd)
        × ((w' : World) × (status w'.trace fd ≡ idle)
            × (quiet_flow.new fd (called (given fd) w') ≡ ok s.1)))
    × (s.0.handler ≡ OutgoingHandler.disconnect_handler)
    × (s.0.attempt ≡ 0)
    × (s.0.peer.fd ≡ none)
    × HoldsNone s.1.trace
outgoing_calls-connects_example =
    outgoing_calls-connects reachable quiet_flow tired start reachable-Works quiet_flow-IsFlow
      reachable-IsReachable refl start-HoldsNone

abbrev pub one_socket : World
one_socket = record start { trace = opened 3 ∷ [] }

send_receive-closes_once_example :
    (s : SendReceive × World) × (send_receive_new willing quiet_flow quiet_flow 3 one_socket ≡ ok s)
    × ((w1 : World) × (quiet_flow.new 3 (called (given 3) one_socket) ≡ ok w1)
        × ((fd2 : ℕ) × (willing.duplicate w1.trace 3 ≡ some fd2)
            × (quiet_flow.new fd2 (called (given fd2) (called (foreign fd2) w1)) ≡ ok s.1)))
    × HoldsNone s.1.trace
    × ((half : SendReceive) × (send_receive_on_close false none s.0 s.1 ≡ ok (some half, s.1))
        × (send_receive_on_close false none half start
            ≡ (peer_call false none start >>= λ w'. ok (none, w'))))
send_receive-closes_once_example =
    send_receive-closes_once willing quiet_flow quiet_flow 3 one_socket false none start
      willing-Works quiet_flow-IsFlow quiet_flow-IsFlow
      (λ t. (fresh t, refl, fresh-gone t (fresh t) (omega arith)))
      (opened-Holds [] 3 start-HoldsNone)
