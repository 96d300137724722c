-- ===== src/Wakeup/Timer.antt =====
-- adsbus/wakeup.c: the timers, each of which calls a peer once.
use adsb_tools.Prelude.{
  ℕ, Bool, true, Option, none, some, List, [], ◌∷◌, ◌++◌, ◌==◌, if◌then◌else◌, Run, ok, abort,
  ◌>>=◌, ◌>>◌, check,
}
use adsb_tools.Os.{foreign, armed, Os}
use adsb_tools.Peer.{Peer, World, called, epollin, peer_epoll_add, peer_close, peer_call}
use adsb_tools.Wakeup.{wakeup_time}

-- The list without the structure at an address.
abbrev pub wakeups_without : ℕ → List Peer → List Peer
wakeups_without x [] = []
wakeups_without x (p ∷ ps) =
    let rest = wakeups_without x ps in if x == p.self then rest else p ∷ rest

module _ (os : Os) where
  -- The peer inside the structure that `malloc` delivers.
  unfoldable pub wakeup_add : ℕ → World → Run World
  wakeup_add delay_ms w = elim (os.timerfd_create w.trace) [
    | none ↦ abort
    | some fd ↦ do
      let peer : Peer = record { self = os.malloc w.trace; fd = some fd; always_trigger = true }
      let w1 = called (foreign fd) w
      check (os.timerfd_settime w1.trace fd)
      let it_value = wakeup_time delay_ms
      added ← peer_epoll_add os peer epollin (called (armed fd it_value.0 it_value.1) w1)
      ok (record (added.1) { wakeups = added.1.wakeups ++ (added.0 ∷ []) })
  ]

  unfoldable pub wakeup_del : Peer → World → Run World
  wakeup_del wakeup w = do
    closed ← peer_close os wakeup w
    ok (record (closed.1) { wakeups = wakeups_without wakeup.self closed.1.wakeups })

  -- `inner` is the handler of the peer that is to be called, if there is one.
  unfoldable pub wakeup_handler : Bool → Option (World → Run World) → Peer → World → Run World
  wakeup_handler shutdown inner wakeup w = elim wakeup.fd [
    | none ↦ abort
    | some fd ↦ elim (os.read_events w.trace fd) [
      | none ↦ abort
      | some events ↦ do check (events == 1); w1 ← peer_call shutdown inner w; wakeup_del wakeup w1
    ]
  ]

  -- The loop of `wakeup_cleanup`.
  unfoldable pub wakeup_del_all : List Peer → World → Run World
  wakeup_del_all [] w = ok w
  wakeup_del_all (p ∷ ps) w = wakeup_del p w >>= λ w1. wakeup_del_all ps w1

  unfoldable pub wakeup_cleanup : World → Run World
  wakeup_cleanup w = wakeup_del_all w.wakeups w
