-- ===== src/Peer.antt =====
-- adsbus/peer.c: a descriptor and its place in the event loop.
pub mod Keeps
use adsb_tools.Prelude.{
  ℕ, Bool, true, false, Option, none, some, List, [], ◌∷◌, ◌++◌, ◌==◌, ◌||◌, if◌then◌else◌, Run, ok,
  abort, ◌>>=◌, ◌>>◌, check,
}
use adsb_tools.Os.{Event, closed, watched, unwatched, Os, done, not_pollable, failed}

-- `struct peer` at the address `self`; a descriptor of -1 is `none`. The handler is that of the
-- structure around the peer.
pub record Peer : Type 0 where
  pub self : ℕ
  pub fd : Option ℕ
  pub always_trigger : Bool

-- What the handlers share: the calls that were made, the peers of `peer_always_trigger_head` by
-- their addresses, the peers of the timers of `wakeup_head`, and the counter that the flow names.
pub record World : Type 0 where
  pub trace : List Event
  pub always : List ℕ
  pub wakeups : List Peer
  pub ref_count : ℕ

-- The list without an entry.
abbrev pub list_without : ℕ → List ℕ → List ℕ
list_without x [] = []
list_without x (y ∷ ys) = let rest = list_without x ys in if x == y then rest else y ∷ rest

-- One more call.
abbrev pub called : Event → World → World
called event w = record w { trace = event ∷ w.trace }

abbrev pub epollin : ℕ
epollin = 1

abbrev pub epollout : ℕ
epollout = 4

-- `peer_call` on a peer with this handler, or on NULL; the flag is `peer_shutdown_flag`.
unfoldable pub peer_call : {S : Type 0} → Bool → Option (S → Run S) → S → Run S
peer_call shutdown none s = ok s
peer_call shutdown (some handler) s = let next = handler s in if shutdown then ok s else next

module _ (os : Os) where
  -- A call of `epoll_ctl` with -1 for a descriptor fails with EBADF.
  unfoldable pub peer_epoll_add : Peer → ℕ → World → Run (Peer × World)
  peer_epoll_add peer events w = elim peer.fd [
    | none ↦ abort
    | some fd ↦ elim (os.epoll_ctl_add w.trace fd) [
      | done ↦ ok (record peer { always_trigger = false }, called (watched fd events) w)
      | not_pollable ↦
          if events == 0
          then ok (record peer { always_trigger = false }, w)
          else ok (
            record peer { always_trigger = true },
            record w { always = w.always ++ (peer.self ∷ []) },
          )
      | failed ↦ abort
    ]
  ]

  unfoldable pub peer_epoll_del : Peer → World → Run World
  peer_epoll_del peer w = elim peer.fd [
    | none ↦ abort
    | some fd ↦ elim (os.epoll_ctl_del w.trace fd) [
      | done ↦ ok (called (unwatched fd) w)
      | not_pollable ↦
          if peer.always_trigger
          then ok (record w { always = list_without peer.self w.always })
          else ok w
      | failed ↦ abort
    ]
  ]

  -- `assert(!close(fd))`
  unfoldable pub close_checked : ℕ → World → Run World
  close_checked fd w = check (os.close w.trace fd) >> ok (called (closed fd) w)

  unfoldable pub peer_close : Peer → World → Run (Peer × World)
  peer_close peer w = elim peer.fd [
    | none ↦ ok (peer, w)
    | some fd ↦ do
      w1 ← peer_epoll_del peer w
      w2 ← close_checked fd w1
      ok (record peer { fd = none }, w2)
  ]
