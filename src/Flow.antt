-- ===== src/Flow.antt =====
-- adsbus/flow.c, and what it uses of adsbus/socket.c: how the code of a connection's direction is
-- told of a descriptor.
pub mod Keeps
use adsb_tools.Prelude.{
  ℕ, Bool, true, false, Option, none, some, List, [], ◌∷◌, length, ◌+◌, ◌-◌, ◌==◌, ◌%◌, not,
  if◌then◌else◌, Run, ok, abort, ◌>>=◌, ◌>>◌, check,
}
use adsb_tools.Packet.{u32}
use adsb_tools.Os.{Event, given, sent, option_set, Os}
use adsb_tools.Peer.{World, called, close_checked}
use adsb_tools.Send.{short_write}

-- `struct flow`; a callback that is NULL is `none`. `new` gets the descriptor, and what the flow
-- does with it is its own. `get_hello` is the text that the callback delivers; the counter that
-- `ref_count` points to is in the world.
pub record Flow : Type 0 where
  pub socket_ready : Option (ℕ → World → Run World)
  pub socket_connected : Option (ℕ → World → Run World)
  pub new : ℕ → World → Run World
  pub get_hello : Option (List ℕ)

-- A callback, where there is one.
abbrev pub call_back : Option (ℕ → World → Run World) → ℕ → World → Run World
call_back none fd w = ok w
call_back (some callback) fd w = callback fd w

unfoldable pub flow_get_hello : Flow → List ℕ
flow_get_hello flow = elim flow.get_hello [ none ↦ [] | some hello ↦ hello ]

unfoldable pub flow_ref_inc : World → World
flow_ref_inc w = record w { ref_count = u32 (w.ref_count + 1) }

unfoldable pub flow_ref_dec : World → World
flow_ref_dec w = record w { ref_count = u32 (w.ref_count + 0xffff_ffff) }

module _ (os : Os) where
  -- `assert(!setsockopt(fd, …))`
  unfoldable pub set_option : ℕ → ℕ → World → Run World
  set_option name fd w = check (os.setsockopt w.trace fd) >> ok (called (option_set fd name) w)

  -- SO_REUSEPORT
  unfoldable pub socket_pre_bind : ℕ → World → Run World
  socket_pre_bind fd w = set_option 15 fd w

  -- TCP_FASTOPEN
  unfoldable pub socket_pre_listen : ℕ → World → Run World
  socket_pre_listen fd w = set_option 23 fd w

  -- SO_KEEPALIVE, TCP_KEEPIDLE, TCP_KEEPINTVL, TCP_KEEPCNT and TCP_USER_TIMEOUT
  unfoldable pub socket_ready : ℕ → World → Run World
  socket_ready fd w = do
    w1 ← set_option 9 fd w
    w2 ← set_option 4 fd w1
    w3 ← set_option 5 fd w2
    w4 ← set_option 6 fd w3
    set_option 18 fd w4

  unfoldable pub flow_socket_ready : ℕ → Flow → World → Run World
  flow_socket_ready fd flow w = do w1 ← socket_ready fd w; call_back flow.socket_ready fd w1

  unfoldable pub flow_socket_connected : ℕ → Flow → World → Run World
  flow_socket_connected fd flow w = call_back flow.socket_connected fd w

  -- The hand-over is noted before the call.
  unfoldable pub flow_new : ℕ → Flow → World → Run World
  flow_new fd flow w = flow.new fd (called (given fd) w)

  unfoldable pub flow_send_hello : ℕ → Flow → World → Bool × World
  flow_send_hello fd flow w =
      let hello = flow_get_hello flow in
      if length hello == 0
      then (true, w)
      else (not (short_write (os.write w.trace fd hello) (length hello)), called (sent fd hello) w)

  unfoldable pub flow_new_send_hello : ℕ → Flow → World → Run (Bool × World)
  flow_new_send_hello fd flow w =
      let greeted = flow_send_hello fd flow w in
      if greeted.0
      then (flow_new fd flow greeted.1 >>= λ w1. ok (true, w1))
      else (close_checked os fd greeted.1 >>= λ w1. ok (false, w1))
