-- ===== src/Peer/Keeps.antt =====
-- What the calls on a peer do to the descriptors that are held.
use adsb_tools.Prelude.{
  ℕ, ◌≡◌, ◌⊎◌, inl, inr, refl, ◌∙◌, sym, ap, true, false, none, some, List, ◌∷◌, ◌==◌, ok, arith,
  Bool-cases, eq→==, ne→==,
}
use adsb_tools.Os.{
  Resolved, unresolved, addresses, Event, opened, closed, given, watched, unwatched, Os,
}
use adsb_tools.Os.Ledger.{
  Status, idle, polled, status, held, is_idle, is_open, is_polled, HoldsNone, Holds, Works,
}
use adsb_tools.Peer.{Peer, World, called, peer_epoll_add, peer_epoll_del, peer_close, close_checked}

-- What is held is as it was, and nothing else is.
pub record SameHeld (t t' : List Event) : Type 0 where
  pub same :
      (x : ℕ)
      → (status t' x ≡ status t x) ⊎ ((held (status t x) ≡ false) × (held (status t' x) ≡ false))

pub SameHeld-HoldsNone : {t t' : List Event} → SameHeld t t' → HoldsNone t → HoldsNone t'
SameHeld-HoldsNone s h = record {
  not_held = λ x. elim (s.same x) [ inl e ↦ ap held e ∙ h.not_held x | inr e ↦ e.1 ];
}

held_by-not-free : {s how : Status} → held how ≡ true → s ≡ how → held s ≡ false → ⊥
held_by-not-free some_held e free =
    let c : true ≡ false = sym some_held ∙ sym (ap held e) ∙ free in cc

pub SameHeld-Holds :
    {t t' : List Event} {how : Status} {fd : ℕ}
    → held how ≡ true
    → SameHeld t t'
    → Holds how fd t
    → Holds how fd t'
SameHeld-Holds {fd = fd} some_held s h = record {
  own = elim (s.same fd) [
    | inl e ↦ e ∙ h.own
    | inr e ↦ absurd (held_by-not-free some_held h.own e.0)
  ];
  no_other = λ x other. elim (s.same x) [ inl e ↦ ap held e ∙ h.no_other x other | inr e ↦ e.1 ];
}

pub SameHeld-refl : {t : List Event} → SameHeld t t
SameHeld-refl = record { same = λ x. inl refl }

pub SameHeld-trans : {t t' t'' : List Event} → SameHeld t t' → SameHeld t' t'' → SameHeld t t''
SameHeld-trans first second = record {
  same = λ x. elim (first.same x) [
    | inl e ↦ elim (second.same x) [
      | inl e' ↦ inl (e' ∙ e)
      | inr e' ↦ inr (sym (ap held e) ∙ e'.0, e'.1)
    ]
    | inr e ↦ elim (second.same x) [
      | inl e' ↦ inr (e.0, ap held e' ∙ e.1)
      | inr e' ↦ inr (e.0, e'.1)
    ]
  ];
}

-- The descriptor that was opened is held, those that were not are not.
pub opened-Holds : (t : List Event) (fd : ℕ) → HoldsNone t → Holds idle fd (opened fd ∷ t)
unfolding status
opened-Holds t fd h = record {
  own = simp (status, eq→== fd fd refl);
  no_other = λ x other. simp (status, ne→== fd x (λ e. other (sym e)), h.not_held x);
}

pub watched-Holds :
    (t : List Event) (fd events : ℕ) → Holds idle fd t → Holds polled fd (watched fd events ∷ t)
unfolding status
watched-Holds t fd events h = record {
  own = simp (status, eq→== fd fd refl, h.own);
  no_other = λ x other. simp (status, ne→== fd x (λ e. other (sym e)), h.no_other x other);
}

pub unwatched-Holds :
    (t : List Event) (fd : ℕ) → Holds polled fd t → Holds idle fd (unwatched fd ∷ t)
unfolding status
unwatched-Holds t fd h = record {
  own = simp (status, eq→== fd fd refl, h.own);
  no_other = λ x other. simp (status, ne→== fd x (λ e. other (sym e)), h.no_other x other);
}

-- A descriptor that is closed or handed over was the only one held.
pub closed-HoldsNone :
    {how : Status} (t : List Event) (fd : ℕ) → Holds how fd t → HoldsNone (closed fd ∷ t)
unfolding status
closed-HoldsNone t fd h = record {
  not_held = λ x. elim (Bool-cases (fd == x)) [
    | inl e ↦ simp (status, e)
    | inr e ↦ simp (status, e, h.no_other x (ground (arith, e)))
  ];
}

pub given-HoldsNone :
    {how : Status} (t : List Event) (fd : ℕ) → Holds how fd t → HoldsNone (given fd ∷ t)
unfolding status
given-HoldsNone t fd h = record {
  not_held = λ x. elim (Bool-cases (fd == x)) [
    | inl e ↦ simp (status, e)
    | inr e ↦ simp (status, e, h.no_other x (ground (arith, e)))
  ];
}

-- The descriptor of a peer is the only one held, and it is registered.
pub record Waits (peer : Peer) (w : World) : Type 0 where
  pub fd : ℕ
  pub named : peer.fd ≡ some fd
  pub only : Holds polled fd w.trace

-- The peer has no descriptor, and none is held.
pub record Rests (peer : Peer) (w : World) : Type 0 where
  pub unnamed : peer.fd ≡ none
  pub nothing : HoldsNone w.trace

-- A peer that can be closed, which leaves nothing held.
pub record Closes (os : Os) (peer : Peer) (w : World) : Type 0 where
  pub left : Peer
  pub after : World
  pub done : peer_close os peer w ≡ ok (left, after)
  pub closed_now : left.fd ≡ none
  pub nothing : HoldsNone after.trace

pub Resolved-cases :
    (r : Resolved) → (r ≡ unresolved) ⊎ ((addrs : List (List ℕ)) × (r ≡ addresses addrs))
Resolved-cases unresolved = inl refl
Resolved-cases (addresses addrs) = inr (addrs, refl)

module _ {os : Os} (works : Works os) where
  pub peer_epoll_add-idle :
      (peer : Peer) (fd events : ℕ) (w : World)
      → peer.fd ≡ some fd
      → is_idle (status w.trace fd) ≡ true
      → peer_epoll_add os peer events w
        ≡ ok (record peer { always_trigger = false }, called (watched fd events) w)
  unfolding peer_epoll_add
  peer_epoll_add-idle peer fd events w e h = simp (peer_epoll_add, e, works.add_idle w.trace fd h)

  pub peer_epoll_del-polled :
      (peer : Peer) (fd : ℕ) (w : World)
      → peer.fd ≡ some fd
      → is_polled (status w.trace fd) ≡ true
      → peer_epoll_del os peer w ≡ ok (called (unwatched fd) w)
  unfolding peer_epoll_del
  peer_epoll_del-polled peer fd w e h = simp (peer_epoll_del, e, works.del_polled w.trace fd h)

  pub close_checked-open :
      (fd : ℕ) (w : World)
      → is_open (status w.trace fd) ≡ true
      → close_checked os fd w ≡ ok (called (closed fd) w)
  unfolding close_checked
  close_checked-open fd w h = simp (close_checked, works.close_open w.trace fd h)

  -- A registered descriptor is taken out and closed.
  pub peer_close-polled :
      (peer : Peer) (fd : ℕ) (w : World)
      → peer.fd ≡ some fd
      → Holds polled fd w.trace
      → peer_close os peer w
        ≡ ok (record peer { fd = none }, called (closed fd) (called (unwatched fd) w))
  unfolding peer_close
  peer_close-polled peer fd w e h =
      let out = unwatched-Holds w.trace fd h in
      let removed = peer_epoll_del-polled peer fd w e (ap is_polled h.own) in
      let shut = close_checked-open fd (called (unwatched fd) w) (ap is_open out.own) in
      simp (peer_close, e, removed, shut)

  pub waits-Closes :
      (peer : Peer) (w : World) (fd : ℕ)
      → peer.fd ≡ some fd
      → Holds polled fd w.trace
      → Closes os peer w
  waits-Closes peer w fd named only = record {
    left = record peer { fd = none };
    closed_now = refl;
    after = called (closed fd) (called (unwatched fd) w);
    done = peer_close-polled peer fd w named only;
    nothing = closed-HoldsNone (unwatched fd ∷ w.trace) fd (unwatched-Holds w.trace fd only);
  }

  pub rests-Closes :
      (peer : Peer) (w : World) → peer.fd ≡ none → HoldsNone w.trace → Closes os peer w
  unfolding peer_close
  rests-Closes peer w unnamed nothing = record {
    left = peer;
    closed_now = unnamed;
    after = w;
    done = simp (peer_close, unnamed);
    nothing = nothing;
  }
