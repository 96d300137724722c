-- ===== src/Receive/Close.antt =====
-- adsbus/receive.c: the end of a connection.
use adsb_tools.Prelude.{
  ℕ, ◌+◌, ◌≡◌, ◌⊎◌, inl, inr, refl, Bool, true, Option, some, List, ◌∷◌, Run, ok, Bool-cases,
}
use adsb_tools.Packet.{u32}
use adsb_tools.Os.{Event, closed, unwatched, Os, done, not_pollable}
use adsb_tools.Peer.{
  Peer, World, called, list_without, peer_epoll_del, close_checked, peer_close, peer_call,
}
use adsb_tools.Receive.{Receive, Receives, count_in, receive_del}

-- What the code relies on when it ends a connection: its descriptor is registered with the event
-- loop, or `epoll_ctl` reports again that it cannot be; it is open, so that `close` succeeds; and the
-- callback returns.
pub record CanClose (os : Os) (shutdown : Bool) (peer : Peer)
    (on_close : Option (World → Run World)) (s : Receives) : Type 0 where
  pub fd : ℕ
  pub named : peer.fd ≡ some fd
  pub known :
      (os.epoll_ctl_del s.world.trace fd ≡ done)
      ⊎ (os.epoll_ctl_del s.world.trace fd ≡ not_pollable)
  pub open_there : os.close s.world.trace fd ≡ true
  pub open_still : os.close (unwatched fd ∷ s.world.trace) fd ≡ true
  pub returns : (w : World) → (w' : World) × (peer_call shutdown on_close w ≡ ok w')

-- The descriptor is closed by the last call before the callback, one connection less is counted, the
-- callback of the connection gets this world, and the connection has left the list.
pub record HasClosed (shutdown : Bool) (peer : Peer) (on_close : Option (World → Run World))
    (s s' : Receives) : Type 0 where
  pub fd : ℕ
  pub named : peer.fd ≡ some fd
  pub trace : List Event
  pub before : World
  pub shut : before.trace ≡ closed fd ∷ trace
  pub counted : before.ref_count ≡ u32 (s.world.ref_count + 0xffff_ffff)
  pub told : peer_call shutdown on_close before ≡ ok s'.world
  pub left : s'.receive_head ≡ list_without peer.self s.receive_head

module _ {os : Os} {shutdown : Bool} {peer : Peer} {on_close : Option (World → Run World)}
    {s : Receives} (can : CanClose os shutdown peer on_close s) where
  -- Taking the descriptor out of the event loop.
  record Removed (m : Run World) : Type 0 where
    pub after : World
    pub does : m ≡ ok after
    pub open_after : os.close after.trace can.fd ≡ true
    pub counted : after.ref_count ≡ u32 (s.world.ref_count + 0xffff_ffff)

  epoll_del-Removed : Removed (peer_epoll_del os peer (count_in 0xffff_ffff s.world))
  unfolding peer_epoll_del
  epoll_del-Removed =
      let w = count_in 0xffff_ffff s.world in
      elim can.known [
        | inl e ↦ record {
          after = called (unwatched can.fd) w;
          does = simp (peer_epoll_del, can.named, e);
          open_after = can.open_still;
          counted = refl;
        }
        | inr e ↦ elim (Bool-cases peer.always_trigger) [
          | inl t ↦ record {
            after = record w { always = list_without peer.self w.always };
            does = simp (peer_epoll_del, can.named, e, t);
            open_after = can.open_there;
            counted = refl;
          }
          | inr t ↦ record {
            after = w;
            does = simp (peer_epoll_del, can.named, e, t);
            open_after = can.open_there;
            counted = refl;
          }
        ]
      ]

  -- For a connection with this peer and this callback.
  pub receive_del-HasClosed :
      (r : Receive)
      → r.peer ≡ peer
      → r.on_close ≡ on_close
      → (s' : Receives) × (receive_del os shutdown r s ≡ ok s')
        × HasClosed shutdown peer on_close s s'
  unfolding receive_del peer_close close_checked
  receive_del-HasClosed r e ec =
      let out = epoll_del-Removed in
      let shut = called (closed can.fd) out.after in
      let (w', told) = can.returns shut in
      let s' : Receives = record {
        world = w';
        receive_head = list_without peer.self s.receive_head;
      } in
      (
        s',
        simp (
          receive_del, peer_close, close_checked, e, ec, can.named, out.does, out.open_after, told,
        ),
        record {
          fd = can.fd;
          named = can.named;
          trace = out.after.trace;
          before = shut;
          shut = refl;
          counted = out.counted;
          told = told;
          left = refl;
        },
      )
