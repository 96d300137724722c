-- ===== src/Os.antt =====
-- The system calls of adsbus/peer.c, wakeup.c, flow.c, outgoing.c and incoming.c, and what the
-- program knows of its descriptors. What a call answers is a parameter, which may depend on all calls
-- before it.
pub mod Ledger
use adsb_tools.Prelude.{ℕ, Bool, Option, List, Ssize}

-- A system call with what it did, and the hand-over of a descriptor to the code of a flow.
-- A descriptor is `opened` by `socket`, by the resolver or by adsbus/file.c. What is opened for
-- somebody else - a timer, a connection that was accepted, a descriptor that a flow opens - is
-- `foreign`.
pub data Event : Type 0 where
  opened foreign closed given unwatched listening : ℕ → Event
  watched : ℕ → ℕ → Event
  armed : ℕ → ℕ → ℕ → Event
  sent : ℕ → List ℕ → Event
  bound : ℕ → List ℕ → Event
  option_set : ℕ → ℕ → Event

-- The answer of `epoll_ctl`: 0, -1 with EPERM, or -1 with another error.
pub data Control : Type 0 where
  done not_pollable failed : Control

-- The answer of `asyncaddrinfo_result`: an error, or the addresses.
pub data Resolved : Type 0 where
  unresolved : Resolved
  addresses : List (List ℕ) → Resolved

-- The calls before, the last one first.
pub record Os : Type 0 where
  pub socket : List Event → Option ℕ
  pub close : List Event → ℕ → Bool
  pub epoll_ctl_add : List Event → ℕ → Control
  pub epoll_ctl_del : List Event → ℕ → Control
  pub timerfd_create : List Event → Option ℕ
  pub timerfd_settime : List Event → ℕ → Bool
  -- `asyncaddrinfo_resolve` and `asyncaddrinfo_result` of adsbus/asyncaddrinfo.c; the second closes
  -- the descriptor.
  pub asyncaddrinfo_resolve : List Event → ℕ
  pub asyncaddrinfo_result : List Event → ℕ → Resolved
  -- On a socket address, for its numeric form.
  pub getnameinfo : List ℕ → Bool
  pub sendto : List Event → ℕ → List ℕ → Ssize
  pub errno : List Event → ℕ
  -- `SO_ERROR` of a socket, if `getsockopt` succeeds.
  pub socket_error : List Event → ℕ → Option ℕ
  pub setsockopt : List Event → ℕ → Bool
  pub bind : List Event → ℕ → Bool
  pub listen : List Event → ℕ → Bool
  pub accept4 : List Event → ℕ → Option ℕ
  pub getsockname : List Event → ℕ → Bool
  -- `fcntl` with F_DUPFD_CLOEXEC.
  pub duplicate : List Event → ℕ → Option ℕ
  pub write : List Event → ℕ → List ℕ → Ssize
  -- What `read` on a timer stores, if it delivers eight bytes.
  pub read_events : List Event → ℕ → Option ℕ
  -- The address of an allocated structure.
  pub malloc : List Event → ℕ
  -- What `rand_fill` stores for a delay.
  pub jitter : List Event → ℕ
