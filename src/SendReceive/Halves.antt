-- ===== src/SendReceive/Halves.antt =====
-- Both halves of a connection in both directions, and their ends.
use adsb_tools.Prelude.{ℕ, ◌≡◌, refl, Bool, Option, none, some, List, Run, ok, ◌>>=◌}
use adsb_tools.Os.{Event, foreign, given, Os}
use adsb_tools.Os.Ledger.{gone, idle, status, HoldsNone, Holds, Works}
use adsb_tools.Peer.{World, called, peer_call}
use adsb_tools.Peer.Keeps.{SameHeld-HoldsNone, SameHeld-trans}
use adsb_tools.Flow.{Flow, flow_new}
use adsb_tools.Flow.Keeps.{IsFlow, foreign-SameHeld, given-SameHeld, flow_new-HoldsNone, given-open}
use adsb_tools.SendReceive.{SendReceive, send_receive_new, send_receive_on_close, send_receive_del}

-- A connected socket that is held, two flows that keep their promise, and a `fcntl` that delivers a
-- descriptor that was not open. The first flow's `new` is called with the socket, and then that of the
-- second with the descriptor that `fcntl` makes of it, each in the world that the one before it left;
-- what the second call leaves is the result, in which no descriptor is held any more. When the
-- first of the two flows closes, the callback of the whole connection is not called and nothing
-- changes but the counter; when the second does, in whatever state of the world, the callback is
-- called once, and the structure is gone.
pub send_receive-closes_once :
    (os : Os) (send_flow receive_flow : Flow) (fd : ℕ) (w : World) (shutdown : Bool)
    (on_close : Option (World → Run World)) (later : World)
    → Works os
    → IsFlow send_flow
    → IsFlow receive_flow
    → ((t : List Event) → (x : ℕ) × (os.duplicate t fd ≡ some x) × (status t x ≡ gone))
    → Holds idle fd w.trace
    → (s : SendReceive × World) × (send_receive_new os send_flow receive_flow fd w ≡ ok s)
      × ((w1 : World) × (send_flow.new fd (called (given fd) w) ≡ ok w1)
          × ((fd2 : ℕ) × (os.duplicate w1.trace fd ≡ some fd2)
              × (receive_flow.new fd2 (called (given fd2) (called (foreign fd2) w1)) ≡ ok s.1)))
      × HoldsNone s.1.trace
      × ((half : SendReceive) × (send_receive_on_close shutdown on_close s.0 s.1
            ≡ ok (some half, s.1))
          × (send_receive_on_close shutdown on_close half later
              ≡ (peer_call shutdown on_close later >>= λ w'. ok (none, w'))))
unfolding send_receive_new send_receive_on_close send_receive_del flow_new
send_receive-closes_once os send_flow receive_flow fd w shutdown on_close later works sends receives
      duplicates h =
    let (w1, first, nothing) = flow_new-HoldsNone works fd w h sends in
    let (fd2, made, new) = duplicates w1.trace in
    let other = foreign-SameHeld w1.trace fd2 new in
    let w2 = called (foreign fd2) w1 in
    let taken = receives.news fd2 (called (given fd2) w2) (given-open w2.trace fd2) in
    let kept =
      SameHeld-trans other.0
        (SameHeld-trans (given-SameHeld w2.trace fd2 other.2) taken.same_held) in
    (
      (record { ref_count = 2 }, taken.after),
      simp (send_receive_new, first, made, taken.done),
      (w1, first, (fd2, made, taken.done)),
      SameHeld-HoldsNone kept nothing,
      (record { ref_count = 1 }, refl, refl),
    )
