-- ===== src/Outgoing/Life.antt =====
-- adsbus/outgoing.c: a connection from its creation to its end.
use native.Mathlib.Nat.{pow-le-pow_right, mod-eq_of_lt}
use adsb_tools.Prelude.{
  ℕ, zero, suc, ◌+◌, ◌*◌, ◌^◌, ◌≤◌, ◌<◌, ◌≡◌, refl, false, some, [], Run, ok, abort, ◌>>=◌, arith,
  ltb, ge→ltb,
}
use adsb_tools.Packet.{u32}
use adsb_tools.Os.{Os}
use adsb_tools.Os.Ledger.{HoldsNone, Works}
use adsb_tools.Peer.{Peer, World, peer_call}
use adsb_tools.Peer.Keeps.{Closes, rests-Closes, waits-Closes}
use adsb_tools.Flow.{Flow, flow_ref_inc, flow_ref_dec}
use adsb_tools.Flow.Keeps.{IsFlow}
use adsb_tools.Wakeup.{wakeup_get_retry_delay_ms, retry_min_ms}
use adsb_tools.Outgoing.{
  Outgoing, OutgoingHandler, resolve_wrapper, resolve_handler, connect_handler, disconnect_handler,
  outgoing_handle, outgoing_new, outgoing_del, outgoing_retry,
}
use adsb_tools.Outgoing.Tidy.{TidyAt, IsTidy, outgoing_handle-Leaves, resolve-Leaves}

-- `n` calls of the peer, for a resolution that is done, a socket that is writable, a timer that has
-- run down or a flow that has ended; and these after the creation.
unfoldable pub outgoing_calls : Os → Flow → ℕ → Outgoing → World → Run (Outgoing × World)
outgoing_calls os flow zero o w = ok (o, w)
outgoing_calls os flow (suc n) o w =
    peer_call false (some (λ (s : Outgoing × World). outgoing_handle os flow s.0 s.1)) (o, w)
    >>= λ s. outgoing_calls os flow n s.0 s.1

unfoldable pub outgoing_life : Os → Flow → ℕ → Peer → World → Run (Outgoing × World)
outgoing_life os flow n allocated w =
    outgoing_new os flow allocated w >>= λ s. outgoing_calls os flow n s.0 s.1

-- A structure can be given up in every state.
record Ends (os : Os) (flow : Flow) (m : Run (Outgoing × World)) : Type 0 where
  pub result : Outgoing × World
  pub done : m ≡ ok result
  pub tidy : IsTidy result.0 result.1

module _ {os : Os} {flow : Flow} (works : Works os) (good : IsFlow flow) where
  calls-Ends :
      (n : ℕ) (o : Outgoing) (w : World)
      → IsTidy o w
      → o.attempt + n ≤ 20
      → Ends os flow (outgoing_calls os flow n o w)
  unfolding outgoing_calls peer_call
  calls-Ends zero o w tidy few = record { result = (o, w); done = refl; tidy = tidy }
  calls-Ends (suc n) o w tidy few =
      let first =
        outgoing_handle-Leaves works good (o.attempt + 1) (omega arith) o w tidy (omega arith) in
      let rest =
        calls-Ends n first.result.0 first.result.1 first.tidy (omega (arith, first.tries)) in
      record {
        result = rest.result;
        done = simp (outgoing_calls, peer_call, first.done) rest.done;
        tidy = rest.tidy;
      }

  Closes-del :
      (o : Outgoing) (w : World)
      → Closes os o.peer (flow_ref_dec w)
      → (w' : World) × (outgoing_del os flow o w ≡ ok w') × HoldsNone w'.trace
  unfolding outgoing_del
  Closes-del o w h = (h.after, simp (outgoing_del, h.done), h.nothing)

  outgoing_del-HoldsNone :
      (o : Outgoing) (w : World)
      → IsTidy o w
      → (w' : World) × (outgoing_del os flow o w ≡ ok w') × HoldsNone w'.trace
  unfolding flow_ref_dec
  outgoing_del-HoldsNone o w tidy = by_handler o.handler tidy.at
    where
      by_handler :
          (h : OutgoingHandler)
          → TidyAt h o w
          → (w' : World) × (outgoing_del os flow o w ≡ ok w') × HoldsNone w'.trace
      by_handler resolve_wrapper at =
          Closes-del o w (rests-Closes works o.peer (flow_ref_dec w) at.unnamed at.nothing)
      by_handler disconnect_handler at =
          Closes-del o w (rests-Closes works o.peer (flow_ref_dec w) at.unnamed at.nothing)
      by_handler resolve_handler at =
          Closes-del o w (waits-Closes works o.peer (flow_ref_dec w) at.fd at.named at.only)
      by_handler connect_handler at =
          Closes-del o w (waits-Closes works o.peer (flow_ref_dec w) at.0.fd at.0.named at.0.only)

-- An outgoing connection, through up to twenty calls of its peer. The conditions: the system calls
-- answer as documented for the descriptors that they are made on, and the system has descriptors
-- left; the flow's callbacks return, and open and close descriptors of their own only; at the
-- start none is held for the connection. Whatever the resolver and `connect` report:
-- no `assert` fails; between the calls the structure holds no descriptor, or one which is
-- registered with the event loop and waited for; and the structure can be given up then, which
-- leaves no descriptor that was opened for it and not handed to the flow. So none is closed twice.
pub outgoing_life-no_leak :
    (os : Os) (flow : Flow) (allocated : Peer) (w : World) (n : ℕ)
    → Works os
    → IsFlow flow
    → HoldsNone w.trace
    → n ≤ 20
    → (s : Outgoing × World) × (outgoing_life os flow n allocated w ≡ ok s)
      × IsTidy s.0 s.1
      × ((w' : World) × (outgoing_del os flow s.0 s.1 ≡ ok w') × HoldsNone w'.trace)
unfolding outgoing_life outgoing_new flow_ref_inc
outgoing_life-no_leak os flow allocated w n works good h few =
    let fresh : Outgoing = record {
      peer = allocated;
      handler = resolve_wrapper;
      addr = [];
      attempt = 0;
    } in
    let first = resolve-Leaves works good 0 (omega arith) fresh (flow_ref_inc w) h (omega arith) in
    let rest =
      calls-Ends works good n first.result.0 first.result.1 first.tidy
        (omega (arith, first.tries)) in
    (
      rest.result,
      simp (outgoing_life, outgoing_new, first.done) rest.done,
      rest.tidy,
      outgoing_del-HoldsNone works good rest.result.0 rest.result.1 rest.tidy,
    )

-- After twenty attempts in a row without a connection, the delay of a further retry is not defined:
-- the product in `wakeup_get_retry_delay_ms` is above what an `int` holds.
pub outgoing_retry-abort :
    (os : Os) (flow : Flow) (o : Outgoing) (w : World)
    → 20 ≤ o.attempt
    → o.attempt < 0xffff_ffff
    → outgoing_retry os flow o w ≡ abort
unfolding outgoing_retry wakeup_get_retry_delay_ms
outgoing_retry-abort os flow o w many fits =
    let next : u32 (o.attempt + 1) ≡ o.attempt + 1 = mod-eq_of_lt (omega arith) in
    let powers : 2 ^ 21 ≤ 2 ^ (o.attempt + 1) =
      pow-le-pow_right (omega arith) {i = 21} (omega arith) in
    let large : ltb (retry_min_ms * 2 ^ (o.attempt + 1)) 0x8000_0000 ≡ false =
      ge→ltb (retry_min_ms * 2 ^ (o.attempt + 1)) 0x8000_0000 (omega (arith, powers)) in
    simp (outgoing_retry, wakeup_get_retry_delay_ms, next, large)
