-- ===== src/Wakeup/Keeps.antt =====
-- A timer leaves what is held as it is.
use adsb_tools.Prelude.{
  ℕ, ◌≡◌, inl, inr, refl, ◌∙◌, sym, ap, true, false, some, List, [], ◌∷◌, ◌++◌, ◌==◌, ok, arith,
  Bool-cases, eq→==,
}
use adsb_tools.Os.{Event, foreign, watched, armed, Os}
use adsb_tools.Os.Ledger.{gone, other_idle, status, held, is_open, is_idle, Works}
use adsb_tools.Peer.{Peer, World, called, epollin}
use adsb_tools.Peer.Keeps.{SameHeld, peer_epoll_add-idle}
use adsb_tools.Wakeup.{wakeup_time}
use adsb_tools.Wakeup.Timer.{wakeup_add}

-- The calls of `wakeup_add` on a new timer.
timer_events-SameHeld :
    (t : List Event) (fd seconds nanoseconds events : ℕ)
    → status t fd ≡ gone
    → SameHeld t (watched fd events ∷ (armed fd seconds nanoseconds ∷ (foreign fd ∷ t)))
unfolding status
timer_events-SameHeld t fd seconds nanoseconds events new = record {
  same = λ x. elim (Bool-cases (fd == x)) [
    | inl e ↦
        let at : fd ≡ x = ground (arith, e) in
        inr (ap held (ap (λ (y : ℕ). status t y) (sym at) ∙ new), simp (status, e))
    | inr e ↦ inl (simp (status, e))
  ];
}

module _ {os : Os} (works : Works os) where
  pub wakeup_add-SameHeld :
      (delay : ℕ) (w : World)
      → (w' : World) × (wakeup_add os delay w ≡ ok w') × SameHeld w.trace w'.trace
  unfolding wakeup_add
  wakeup_add-SameHeld delay w =
      let (fd, created, new) = works.timer_new w.trace in
      let at = wakeup_time delay in
      let peer : Peer = record { self = os.malloc w.trace; fd = some fd; always_trigger = true } in
      let w1 = called (foreign fd) w in
      let w2 = called (armed fd at.0 at.1) w1 in
      let idle_there : status w1.trace fd ≡ other_idle =
        unfold status in simp (status, eq→== fd fd refl) in
      let idle_still : status w2.trace fd ≡ other_idle = unfold status in idle_there in
      let set = works.set w1.trace fd (ap is_open idle_there) in
      let added = peer_epoll_add-idle works peer fd epollin w2 refl (ap is_idle idle_still) in
      let listed = record peer { always_trigger = false } in
      (
        record (called (watched fd epollin) w2) { wakeups = w.wakeups ++ (listed ∷ []) },
        simp (wakeup_add, created, set, added),
        timer_events-SameHeld w.trace fd at.0 at.1 epollin new,
      )
