-- ===== src/SendReceive.antt =====
-- adsbus/send_receive.c: a connection in both directions, which is handed to the flow of each.
pub mod Halves
use adsb_tools.Prelude.{
  ℕ, ◌+◌, ◌%◌, Bool, Option, none, some, List, ◌∷◌, ◌==◌, if◌then◌else◌, Run, ok, abort, ◌>>=◌,
}
use adsb_tools.Os.{Event, foreign, Os}
use adsb_tools.Peer.{World, called, peer_call}
use adsb_tools.Flow.{Flow, flow_new}

-- `struct send_receive`, by its counter: the peer that both flows call when they close has no
-- descriptor, and the callback of the whole connection is an argument below.
pub record SendReceive : Type 0 where
  pub ref_count : ℕ

unfoldable pub send_receive_new : Os → Flow → Flow → ℕ → World → Run (SendReceive × World)
send_receive_new os send_flow receive_flow fd w = do
  w1 ← flow_new os fd send_flow w
  elim (os.duplicate w1.trace fd) [
    | none ↦ abort
    | some fd2 ↦ do
      w2 ← flow_new os fd2 receive_flow (called (foreign fd2) w1)
      ok (record { ref_count = 2 }, w2)
  ]

-- The structure is released after its callback.
unfoldable pub send_receive_del :
    Bool → Option (World → Run World) → World → Run (Option SendReceive × World)
send_receive_del shutdown on_close w = peer_call shutdown on_close w >>= λ w1. ok (none, w1)

unfoldable pub send_receive_on_close :
    Bool → Option (World → Run World) → SendReceive → World → Run (Option SendReceive × World)
send_receive_on_close shutdown on_close s w =
    let left = (s.ref_count + 255) % 256 in
    let last = send_receive_del shutdown on_close w in
    if left == 0 then last else ok (some (record { ref_count = left }), w)
