-- ===== src/Flow/Keeps.antt =====
-- What outgoing.c and incoming.c rely on when they call a flow.
use adsb_tools.Prelude.{
  ℕ, ◌≡◌, refl, ap, sym, ◌∙◌, arith, length, Bool, true, some, List, ◌∷◌, Run, ok, ◌>>=◌,
  Option-cases, Bool-cases, false, eq→==, ◌==◌, inl, inr,
}
use adsb_tools.Os.{Event, option_set, given, foreign, closed, Os}
use adsb_tools.Os.Ledger.{gone, idle, status, is_open, held, HoldsNone, Holds, Works}
use adsb_tools.Peer.{World, called}
use adsb_tools.Peer.Keeps.{
  close_checked-open, SameHeld, SameHeld-refl, SameHeld-trans, SameHeld-HoldsNone, SameHeld-Holds,
  given-HoldsNone,
}
use adsb_tools.Flow.{
  Flow, set_option, socket_ready, flow_socket_ready, flow_socket_connected, flow_new,
  flow_get_hello, flow_send_hello, flow_new_send_hello,
}

-- A call that returns, and leaves what is held as it is.
pub record IsNeutral (w : World) (m : Run World) : Type 0 where
  pub after : World
  pub done : m ≡ ok after
  pub same_held : SameHeld w.trace after.trace

pub IsNeutral-refl : {w : World} → IsNeutral w (ok w)
IsNeutral-refl {w} = record { after = w; done = refl; same_held = SameHeld-refl }

pub IsNeutral-then :
    {w : World} {m : Run World} (f : World → Run World)
    → (first : IsNeutral w m) → IsNeutral first.after (f first.after)
    → IsNeutral w (m >>= f)
IsNeutral-then f first second = record {
  after = second.after;
  done = simp (first.done) second.done;
  same_held = SameHeld-trans first.same_held second.same_held;
}

-- The promise of a flow: its callbacks return, and open and close descriptors of its own only.
pub record IsFlow (flow : Flow) : Type 0 where
  pub ready :
      (callback : ℕ → World → Run World) (fd : ℕ) (w : World)
      → flow.socket_ready ≡ some callback
      → is_open (status w.trace fd) ≡ true
      → IsNeutral w (callback fd w)
  pub connected :
      (callback : ℕ → World → Run World) (fd : ℕ) (w : World)
      → flow.socket_connected ≡ some callback
      → is_open (status w.trace fd) ≡ true
      → IsNeutral w (callback fd w)
  -- The second leaves the descriptor open.
  pub still_open :
      (callback : ℕ → World → Run World) (fd : ℕ) (w : World)
      (e : flow.socket_connected ≡ some callback) (h : is_open (status w.trace fd) ≡ true)
      → is_open (status (connected callback fd w e h).after.trace fd) ≡ true
  pub news : (fd : ℕ) (w : World) → is_open (status w.trace fd) ≡ true → IsNeutral w (flow.new fd w)

pub given-SameHeld :
    (t : List Event) (fd : ℕ) → held (status t fd) ≡ false → SameHeld t (given fd ∷ t)
unfolding status
given-SameHeld t fd free = record {
  same = λ x. elim (Bool-cases (fd == x)) [
    | inl e ↦
        let at : fd ≡ x = ground (arith, e) in
        inr (ap (λ (y : ℕ). held (status t y)) (sym at) ∙ free, simp (status, e))
    | inr e ↦ inl (simp (status, e))
  ];
}

pub foreign-SameHeld :
    (t : List Event) (fd : ℕ)
    → status t fd ≡ gone
    → SameHeld t (foreign fd ∷ t)
      × (is_open (status (foreign fd ∷ t) fd) ≡ true)
      × (held (status (foreign fd ∷ t) fd) ≡ false)
unfolding status
foreign-SameHeld t fd new = (
  record {
    same = λ x. elim (Bool-cases (fd == x)) [
      | inl e ↦
          let at : fd ≡ x = ground (arith, e) in
          inr (ap (λ (y : ℕ). held (status t y)) (sym at) ∙ ap held new, simp (status, e))
      | inr e ↦ inl (simp (status, e))
    ];
  },
  simp (status, eq→== fd fd refl),
  simp (status, eq→== fd fd refl),
)

closed-SameHeld :
    (t : List Event) (fd : ℕ) → held (status t fd) ≡ false → SameHeld t (closed fd ∷ t)
unfolding status
closed-SameHeld t fd free = record {
  same = λ x. elim (Bool-cases (fd == x)) [
    | inl e ↦
        let at : fd ≡ x = ground (arith, e) in
        inr (ap (λ (y : ℕ). held (status t y)) (sym at) ∙ free, simp (status, e))
    | inr e ↦ inl (simp (status, e))
  ];
}

pub given-open : (t : List Event) (fd : ℕ) → is_open (status (given fd ∷ t) fd) ≡ true
unfolding status
given-open t fd = simp (status, eq→== fd fd refl)

module _ {os : Os} (works : Works os) where
  pub set_option-IsNeutral :
      (name fd : ℕ) (w : World)
      → is_open (status w.trace fd) ≡ true
      → IsNeutral w (set_option os name fd w)
  unfolding set_option status
  set_option-IsNeutral name fd w h = record {
    after = called (option_set fd name) w;
    done = simp (set_option, works.optional w.trace fd h);
    same_held = record { same = λ x. inl refl };
  }

  -- The calls on a descriptor that is held and not registered.
  module _ (fd : ℕ) (w : World) (h : Holds idle fd w.trace) where
    pub socket_ready-IsNeutral : IsNeutral w (socket_ready os fd w)
    unfolding socket_ready
    socket_ready-IsNeutral =
        let one = set_option-IsNeutral 9 fd w (ap is_open h.own) in
        let h1 = SameHeld-Holds refl one.same_held h in
        let two = set_option-IsNeutral 4 fd one.after (ap is_open h1.own) in
        let h2 = SameHeld-Holds refl two.same_held h1 in
        let three = set_option-IsNeutral 5 fd two.after (ap is_open h2.own) in
        let h3 = SameHeld-Holds refl three.same_held h2 in
        let four = set_option-IsNeutral 6 fd three.after (ap is_open h3.own) in
        let h4 = SameHeld-Holds refl four.same_held h3 in
        let five = set_option-IsNeutral 18 fd four.after (ap is_open h4.own) in
        IsNeutral-then _ one
          (IsNeutral-then _ two (IsNeutral-then _ three (IsNeutral-then _ four five)))

    pub flow_socket_connected-IsNeutral :
        {flow : Flow} → IsFlow flow → IsNeutral w (flow_socket_connected os fd flow w)
    unfolding flow_socket_connected
    flow_socket_connected-IsNeutral {flow} good = elim (Option-cases flow.socket_connected) [
      | inl e ↦ simp (flow_socket_connected, e) IsNeutral-refl
      | inr (callback, e) ↦
          simp (flow_socket_connected, e) (good.connected callback fd w e (ap is_open h.own))
    ]

    pub flow_socket_ready-IsNeutral :
        {flow : Flow} → IsFlow flow → IsNeutral w (flow_socket_ready os fd flow w)
    unfolding flow_socket_ready
    flow_socket_ready-IsNeutral {flow} good =
        let first = socket_ready-IsNeutral in
        let h1 = SameHeld-Holds refl first.same_held h in
        IsNeutral-then _ first (elim (Option-cases flow.socket_ready) [
          | inl e ↦ simp e IsNeutral-refl
          | inr (callback, e) ↦ simp e (good.ready callback fd first.after e (ap is_open h1.own))
        ])

    -- After the hand-over nothing is held.
    pub flow_new-HoldsNone :
        {flow : Flow}
        → IsFlow flow
        → (w' : World) × (flow_new os fd flow w ≡ ok w') × HoldsNone w'.trace
    unfolding flow_new
    flow_new-HoldsNone {flow} good =
        let taken = good.news fd (called (given fd) w) (given-open w.trace fd) in
        (taken.after, taken.done, SameHeld-HoldsNone taken.same_held (given-HoldsNone w.trace fd h))

  pub sent_status :
      (fd : ℕ) (flow : Flow) (w : World) (x : ℕ)
      → status (flow_send_hello os fd flow w).1.trace x ≡ status w.trace x
  unfolding flow_send_hello status
  sent_status fd flow w x = elim (Bool-cases (length (flow_get_hello flow) == 0)) [
    | inl e ↦ simp (flow_send_hello, e)
    | inr e ↦ simp (flow_send_hello, e)
  ]

  -- The calls on a descriptor that was opened for the flow.
  module _ (fd : ℕ) {flow : Flow} (good : IsFlow flow) where
    pub told-IsNeutral :
        (w : World)
        → is_open (status w.trace fd) ≡ true
        → (r : IsNeutral w (flow_socket_connected os fd flow w)) × (is_open
              (status r.after.trace fd)
            ≡ true)
    unfolding flow_socket_connected
    told-IsNeutral w h = elim (Option-cases flow.socket_connected) [
      | inl e ↦ (
        record { after = w; done = simp (flow_socket_connected, e); same_held = SameHeld-refl },
        h,
      )
      | inr (callback, e) ↦
          let r = good.connected callback fd w e h in
          (
            record {
              after = r.after;
              done = simp (flow_socket_connected, e) r.done;
              same_held = r.same_held;
            },
            good.still_open callback fd w e h,
          )
    ]

    -- Whether the greeting is written or not.
    pub greeted-IsNeutral :
        (w : World)
        → is_open (status w.trace fd) ≡ true
        → held (status w.trace fd) ≡ false
        → (r : Bool × World) × (flow_new_send_hello os fd flow w ≡ ok r)
          × SameHeld w.trace r.1.trace
    unfolding flow_new_send_hello
    greeted-IsNeutral w h free =
        let greeted = flow_send_hello os fd flow w in
        let w1 = greeted.1 in
        let same : SameHeld w.trace w1.trace = record {
          same = λ x. inl (sent_status fd flow w x);
        } in
        let free1 = ap held (sent_status fd flow w fd) ∙ free in
        elim (Bool-cases greeted.0) [
          | inl e ↦
              let taken = good.news fd (called (given fd) w1) (given-open w1.trace fd) in
              (
                (true, taken.after),
                unfold flow_new in simp (flow_new_send_hello, e, taken.done),
                SameHeld-trans same
                    (SameHeld-trans (given-SameHeld w1.trace fd free1) taken.same_held),
              )
          | inr e ↦
              let shut =
                close_checked-open works fd w1 (ap is_open (sent_status fd flow w fd) ∙ h) in
              (
                (false, called (closed fd) w1),
                simp (flow_new_send_hello, e, shut),
                SameHeld-trans same (closed-SameHeld w1.trace fd free1),
              )
        ]
