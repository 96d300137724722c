-- ===== src/Incoming/Life.antt =====
-- adsbus/incoming.c: a listening socket from its creation on, and what a failure to bind leaves.
use adsb_tools.Prelude.{ℕ, zero, suc, ◌+◌, ◌≤◌, ◌≡◌, refl, false, some, Run, ok, ◌>>=◌, arith}
use adsb_tools.Os.{Os}
use adsb_tools.Os.Ledger.{HoldsNone, Works}
use adsb_tools.Peer.{Peer, World, peer_call}
use adsb_tools.Peer.Keeps.{Waits, waits-Closes}
use adsb_tools.Flow.{Flow, flow_ref_inc, flow_ref_dec}
use adsb_tools.Flow.Keeps.{IsFlow}
use adsb_tools.Incoming.{
  Incoming, IncomingHandler, resolve_wrapper, listen_handler, accept_handler, incoming_handle,
  incoming_new, incoming_del,
}
use adsb_tools.Incoming.Tidy.{TidyAt, IsTidy, incoming_handle-Leaves, resolve-Leaves}

-- `n` calls of the peer, for a resolution that is done, a connection that can be accepted or a timer
-- that has run down; and these after the creation.
unfoldable pub incoming_calls : Os → Flow → ℕ → Incoming → World → Run (Incoming × World)
incoming_calls os flow zero i w = ok (i, w)
incoming_calls os flow (suc n) i w =
    peer_call false (some (λ (s : Incoming × World). incoming_handle os flow s.0 s.1)) (i, w)
    >>= λ s. incoming_calls os flow n s.0 s.1

unfoldable pub incoming_life : Os → Flow → ℕ → Peer → World → Run (Incoming × World)
incoming_life os flow n allocated w =
    incoming_new os flow allocated w >>= λ s. incoming_calls os flow n s.0 s.1

record Ends (m : Run (Incoming × World)) : Type 0 where
  pub result : Incoming × World
  pub done : m ≡ ok result
  pub tidy : IsTidy result.0 result.1

-- Giving up a structure that waits for its descriptor.
abbrev pub CanEnd : Os → Flow → IncomingHandler → Incoming × World → Type 0
CanEnd os flow resolve_wrapper s = Unit {0}
CanEnd os flow listen_handler s =
    (w' : World) × (incoming_del os flow s.0 s.1 ≡ ok w') × HoldsNone w'.trace
CanEnd os flow accept_handler s =
    (w' : World) × (incoming_del os flow s.0 s.1 ≡ ok w') × HoldsNone w'.trace

module _ {os : Os} {flow : Flow} (works : Works os) (good : IsFlow flow) where
  calls-Ends :
      (n : ℕ) (i : Incoming) (w : World)
      → IsTidy i w
      → i.attempt + n ≤ 20
      → Ends (incoming_calls os flow n i w)
  unfolding incoming_calls peer_call
  calls-Ends zero i w tidy few = record { result = (i, w); done = refl; tidy = tidy }
  calls-Ends (suc n) i w tidy few =
      let first =
        incoming_handle-Leaves works good (i.attempt + 1) (omega arith) i w tidy (omega arith) in
      let rest =
        calls-Ends n first.result.0 first.result.1 first.tidy (omega (arith, first.tries)) in
      record {
        result = rest.result;
        done = simp (incoming_calls, peer_call, first.done) rest.done;
        tidy = rest.tidy;
      }

  Waits-CanEnd :
      (i : Incoming) (w : World)
      → Waits i.peer w
      → (w' : World) × (incoming_del os flow i w ≡ ok w') × HoldsNone w'.trace
  unfolding incoming_del flow_ref_dec
  Waits-CanEnd i w waits =
      let shut = waits-Closes works i.peer (flow_ref_dec w) waits.fd waits.named waits.only in
      (shut.after, simp (incoming_del, shut.done), shut.nothing)

  tidy-CanEnd : (i : Incoming) (w : World) → IsTidy i w → CanEnd os flow i.handler (i, w)
  tidy-CanEnd i w tidy = by_handler i.handler tidy.at
    where
      by_handler : (h : IncomingHandler) → TidyAt h i w → CanEnd os flow h (i, w)
      by_handler resolve_wrapper at = tt
      by_handler listen_handler at = Waits-CanEnd i w at
      by_handler accept_handler at = Waits-CanEnd i w at

-- A listening socket, through up to twenty calls of its peer. The conditions: the system calls
-- answer as documented for the descriptors that they are made on, and the system has descriptors
-- left; the flow's callbacks return, and open and close descriptors of their own only; at the start
-- none is held for the structure. Whatever the resolver, `bind` and `accept4` report: no
-- `assert` fails; between the calls nothing is held while a retry is waited for, and exactly the
-- structure's descriptor, registered with the event loop, otherwise; in the second case the
-- structure can be given up, which leaves nothing held.
pub incoming_life-IsTidy :
    (os : Os) (flow : Flow) (allocated : Peer) (w : World) (n : ℕ)
    → Works os
    → IsFlow flow
    → HoldsNone w.trace
    → n ≤ 20
    → (s : Incoming × World) × (incoming_life os flow n allocated w ≡ ok s)
      × IsTidy s.0 s.1
      × CanEnd os flow s.0.handler s
unfolding incoming_life incoming_new flow_ref_inc
incoming_life-IsTidy os flow allocated w n works good h few =
    let fresh : Incoming = record { peer = allocated; handler = accept_handler; attempt = 0 } in
    let first = resolve-Leaves works good 0 (omega arith) fresh (flow_ref_inc w) h (omega arith) in
    let rest =
      calls-Ends works good n first.result.0 first.result.1 first.tidy
        (omega (arith, first.tries)) in
    (
      rest.result,
      simp (incoming_life, incoming_new, first.done) rest.done,
      rest.tidy,
      tidy-CanEnd works good rest.result.0 rest.result.1 rest.tidy,
    )
