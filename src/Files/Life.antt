-- ===== src/Files/Life.antt =====
-- adsbus/file.c: a file from its creation on, and which files are opened again.
use adsb_tools.Prelude.{
  ℕ, zero, suc, ◌+◌, ◌≤◌, ◌≡◌, refl, ap, sym, ◌∙◌, arith, Bool, true, false, Option, none, some,
  List, ◌∷◌, ◌==◌, eq→==, Run, ok, ◌>>=◌, Bool-cases, Option-cases, inl, inr,
}
use adsb_tools.Os.{Event, opened, closed, Os}
use adsb_tools.Os.Ledger.{gone, idle, status, is_open, held, HoldsNone, Holds, Works}
use adsb_tools.Peer.{World, called, peer_call}
use adsb_tools.Peer.Keeps.{
  SameHeld, SameHeld-HoldsNone, SameHeld-Holds, opened-Holds, closed-HoldsNone, close_checked-open,
}
use adsb_tools.Flow.{Flow, flow_ref_inc, flow_ref_dec, flow_send_hello, flow_new_send_hello}
use adsb_tools.Flow.Keeps.{IsFlow, sent_status, flow_new-HoldsNone}
use native.Mathlib.Nat.{mod-eq_of_lt}
use adsb_tools.Packet.{u32}
use adsb_tools.Wakeup.{wakeup_get_retry_delay_ms}
use adsb_tools.Wakeup.Delay.{retry_delay-bounds}
use adsb_tools.Wakeup.Keeps.{wakeup_add-SameHeld}
use adsb_tools.Files.{
  Files, File, FileHandler, open_wrapper, handle_close, file_should_retry, file_del, file_retry,
  file_handle_close, file_opened, file_open, file_handle, file_new,
}

-- What the code relies on in its own calls: descriptors are new, and the system has some left for
-- `epoll_create1`.
pub record OpensNew (files : Files) : Type 0 where
  pub open_new :
      (t : List Event) (path : List ℕ) (flags x : ℕ)
      → files.open_path t path flags ≡ some x
      → status t x ≡ gone
  pub epoll_new :
      (t : List Event) → (x : ℕ) × (files.epoll_create1 t ≡ some x) × (status t x ≡ gone)

opened_closed-SameHeld :
    (t : List Event) (fd : ℕ) → status t fd ≡ gone → SameHeld t (closed fd ∷ opened fd ∷ t)
unfolding status
opened_closed-SameHeld t fd new = record {
  same = λ x. elim (Bool-cases (fd == x)) [
    | inl e ↦
        let at : fd ≡ x = ground (arith, e) in
        inr (ap (λ (y : ℕ). held (status t y)) (sym at) ∙ ap held new, simp (status, e))
    | inr e ↦ inl (simp (status, e))
  ];
}

-- Nothing is held, and the peer has no descriptor; after a release there is no structure.
abbrev pub HoldsNothing : Option File × World → Type 0
HoldsNothing (none, w) = HoldsNone w.trace
HoldsNothing (some file, w) = (file.peer.fd ≡ none) × HoldsNone w.trace

abbrev tries : Option File → ℕ
tries none = 0
tries (some file) = file.attempt

record Leaves (attempts : ℕ) (m : Run (Option File × World)) : Type 0 where
  pub result : Option File × World
  pub done : m ≡ ok result
  pub tidy : HoldsNothing result
  pub few : tries result.0 ≤ attempts

module _ {os : Os} {files : Files} {flow : Flow} (works : Works os) (news : OpensNew files)
    (good : IsFlow flow) where
  -- Whatever the flags are.
  should_retry-asks :
      (fd : ℕ) (file : File) (w : World)
      → (epoll_fd : ℕ) × (file_should_retry os files flow fd file w
          ≡ ok (
            files.epoll_ctl (opened epoll_fd ∷ w.trace) epoll_fd fd,
            called (closed epoll_fd) (called (opened epoll_fd) w),
          ))
        × (status w.trace epoll_fd ≡ gone)
  unfolding file_should_retry
  should_retry-asks fd file w =
      let (epoll_fd, created, new) = news.epoll_new w.trace in
      let is_there : is_open (status (opened epoll_fd ∷ w.trace) epoll_fd) ≡ true =
        unfold status in simp (status, eq→== epoll_fd epoll_fd refl) in
      let shut = close_checked-open works epoll_fd (called (opened epoll_fd) w) is_there in
      elim (Bool-cases (file.flags == 0)) [
        | inl e ↦ (epoll_fd, simp (file_should_retry, e, created, shut), new)
        | inr e ↦ (epoll_fd, simp (file_should_retry, e, created, shut), new)
      ]

  retry_after-Leaves :
      (file : File) (w : World) (attempts delay : ℕ)
      → attempts ≤ 20
      → file.attempt + 1 ≤ attempts
      → file.peer.fd ≡ none
      → HoldsNone w.trace
      → wakeup_get_retry_delay_ms file.attempt (os.jitter w.trace) ≡ ok delay
      → Leaves attempts (file_retry os files flow file w)
  unfolding file_retry
  retry_after-Leaves file w attempts delay defined few unnamed h timed =
      let next : u32 (file.attempt + 1) ≡ file.attempt + 1 = mod-eq_of_lt (omega arith) in
      let (w1, added, same) = wakeup_add-SameHeld works delay w in
      record {
        result = (some (record file { attempt = file.attempt + 1; handler = open_wrapper }), w1);
        done = simp (file_retry, next, timed, added);
        tidy = (unnamed, SameHeld-HoldsNone same h);
        few = few;
      }

  retry-Leaves :
      (file : File) (w : World) (attempts : ℕ)
      → attempts ≤ 20
      → file.attempt + 1 ≤ attempts
      → file.peer.fd ≡ none
      → HoldsNone w.trace
      → Leaves attempts (file_retry os files flow file w)
  retry-Leaves file w attempts defined few unnamed h =
      let delay = retry_delay-bounds file.attempt (os.jitter w.trace) (omega arith) in
      retry_after-Leaves file w attempts delay.0 defined few unnamed h delay.1

  -- Whether the greeting is written or not.
  greeted-HoldsNone :
      (fd : ℕ) (w : World)
      → Holds idle fd w.trace
      → (r : Bool × World) × (flow_new_send_hello os fd flow w ≡ ok r) × HoldsNone r.1.trace
  unfolding flow_new_send_hello
  greeted-HoldsNone fd w h =
      let greeted = flow_send_hello os fd flow w in
      let same = sent_status works fd flow w in
      let h1 : Holds idle fd greeted.1.trace = record {
        own = same fd ∙ h.own;
        no_other = λ x other. ap held (same x) ∙ h.no_other x other;
      } in
      elim (Bool-cases greeted.0) [
        | inl e ↦
            let (w', taken, nothing) = flow_new-HoldsNone works fd greeted.1 h1 good in
            ((true, w'), simp (flow_new_send_hello, e, taken), nothing)
        | inr e ↦
            let shut = close_checked-open works fd greeted.1 (ap is_open h1.own) in
            (
              (false, called (closed fd) greeted.1),
              simp (flow_new_send_hello, e, shut),
              closed-HoldsNone greeted.1.trace fd h1,
            )
      ]

  opened-Leaves :
      (fd : ℕ) (file : File) (w : World) (attempts : ℕ)
      → attempts ≤ 20
      → 1 ≤ attempts
      → file.peer.fd ≡ none
      → Holds idle fd w.trace
      → Leaves attempts (file_opened os files flow fd file w)
  unfolding file_opened
  opened-Leaves fd file w attempts defined few unnamed h =
      let (epoll_fd, asked, new) = should_retry-asks fd file w in
      let res = files.epoll_ctl (opened epoll_fd ∷ w.trace) epoll_fd fd in
      let w1 = called (closed epoll_fd) (called (opened epoll_fd) w) in
      let h1 = SameHeld-Holds refl (opened_closed-SameHeld w.trace epoll_fd new) h in
      let (r, greeted, nothing) = greeted-HoldsNone fd w1 h1 in
      let file1 = record file { retry = res; handler = handle_close; attempt = 0 } in
      elim (Bool-cases r.0) [
        | inl e ↦ record {
          result = (some file1, r.1);
          done = simp (file_opened, asked, greeted, e);
          tidy = (unnamed, nothing);
          few = omega arith;
        }
        | inr e ↦
            simp (file_opened, asked, greeted, e)
              (retry-Leaves file1 r.1 attempts defined few unnamed nothing)
      ]

  open-Leaves :
      (file : File) (w : World) (attempts : ℕ)
      → attempts ≤ 20
      → file.attempt + 1 ≤ attempts
      → file.peer.fd ≡ none
      → HoldsNone w.trace
      → Leaves attempts (file_open os files flow file w)
  unfolding file_open
  open-Leaves file w attempts defined few unnamed h =
      elim (Option-cases (files.open_path w.trace file.path (file.flags + 0x8_0100))) [
        | inl e ↦ simp (file_open, e) (retry-Leaves file w attempts defined few unnamed h)
        | inr (fd, e) ↦
            simp (file_open, e)
              (opened-Leaves fd file (called (opened fd) w) attempts defined (omega arith) unnamed
                (opened-Holds w.trace fd h))
      ]

  handle-Leaves :
      (file : File) (w : World) (attempts : ℕ)
      → attempts ≤ 20
      → file.attempt + 1 ≤ attempts
      → HoldsNothing (some file, w)
      → Leaves attempts (file_handle os files flow file w)
  unfolding file_handle file_handle_close file_del flow_ref_dec
  handle-Leaves file w attempts defined few tidy = elim (Bool-cases file.retry) [
    | inl e ↦
        by_handler file.handler (simp e (retry-Leaves file w attempts defined few tidy.0 tidy.1))
    | inr e ↦ by_handler file.handler (
        simp e (record {
          result = (none, flow_ref_dec w);
          done = refl;
          tidy = tidy.1;
          few = omega arith;
        }))
  ]
    where
      by_handler :
          (h : FileHandler)
          → Leaves attempts (file_handle_close os files flow file w)
          → Leaves attempts (elim h [
            | open_wrapper ↦ file_open os files flow file w
            | handle_close ↦ file_handle_close os files flow file w
          ])
      by_handler open_wrapper closes = open-Leaves file w attempts defined few tidy.0 tidy.1
      by_handler handle_close closes = closes

-- `n` calls of the peer, for a timer that has run down or a flow that has closed its descriptor; a
-- structure that was released is not called again. And these after the creation.
unfoldable pub file_calls : Os → Files → Flow → ℕ → Option File × World → Run (Option File × World)
file_calls os files flow zero s = ok s
file_calls os files flow (suc n) (none, w) = ok (none, w)
file_calls os files flow (suc n) (some file, w) =
    peer_call false
      (some (λ (s : Option File × World). elim s.0 [
        | none ↦ ok s
        | some f ↦ file_handle os files flow f s.1
      ]))
      (some file, w)
    >>= λ s. file_calls os files flow n s

unfoldable pub file_life :
    Os → Files → Flow → ℕ → List ℕ → ℕ → File → World → Run (Option File × World)
file_life os files flow n path flags allocated w =
    file_new os files flow path flags allocated w >>= λ s. file_calls os files flow n s

calls-HoldsNothing :
    {os : Os} {files : Files} {flow : Flow} (works : Works os) (news : OpensNew files)
    (good : IsFlow flow) (n : ℕ) (s : Option File × World)
    → HoldsNothing s
    → tries s.0 + n ≤ 20
    → (r : Option File × World) × (file_calls os files flow n s ≡ ok r) × HoldsNothing r
unfolding file_calls peer_call
calls-HoldsNothing works news good zero s tidy few = (s, refl, tidy)
calls-HoldsNothing works news good (suc n) (none, w) tidy few = ((none, w), refl, tidy)
calls-HoldsNothing works news good (suc n) (some file, w) tidy few =
    let first =
      handle-Leaves works news good file w (file.attempt + 1) (omega arith) (omega arith) tidy in
    let rest =
      calls-HoldsNothing works news good n first.result first.tidy (omega (arith, first.few)) in
    (rest.0, simp (file_calls, peer_call, first.done) rest.1, rest.2)

-- A file with any flags, through its creation and up to nineteen calls of its peer. The conditions:
-- the system calls answer as documented for the descriptors that they are made on, and the system
-- has descriptors left; the flow's callbacks return, and open and close descriptors of their own
-- only; at the start none is held for the structure. Whatever `open` reports, whether the
-- greeting is written, and whether the file supports polling: no `assert` fails, and between the
-- calls the structure holds no descriptor, be it waiting for a retry, waiting for the flow to close
-- the file, or released.
pub file_life-HoldsNothing :
    (os : Os) (files : Files) (flow : Flow) (path : List ℕ) (flags : ℕ) (allocated : File)
    (w : World) (n : ℕ)
    → Works os
    → OpensNew files
    → IsFlow flow
    → HoldsNone w.trace
    → n ≤ 19
    → (r : Option File × World) × (file_life os files flow n path flags allocated w ≡ ok r)
      × HoldsNothing r
unfolding file_life file_new flow_ref_inc
file_life-HoldsNothing os files flow path flags allocated w n works news good h few =
    let file = record allocated {
      peer = record allocated.peer { fd = none };
      path = path;
      flags = flags;
      attempt = 0;
    } in
    let first =
      open-Leaves works news good file (flow_ref_inc w) 1 (omega arith) (omega arith) refl h in
    let rest =
      calls-HoldsNothing works news good n first.result first.tidy (omega (arith, first.few)) in
    (rest.0, simp (file_life, file_new, first.done) rest.1, rest.2)

-- A file that was opened, whose descriptor no epoll instance takes, and whose greeting was written:
-- whatever its flags are, for reading or for writing, the structure is released as
-- soon as the flow closes the descriptor, and no retry is made.
pub file_opened-gives_up :
    (os : Os) (files : Files) (flow : Flow) (fd : ℕ) (file : File) (w later : World)
    → Works os
    → OpensNew files
    → IsFlow flow
    → ((t : List Event) (epoll_fd : ℕ) → files.epoll_ctl t epoll_fd fd ≡ false)
    → ((w' : World) → (flow_send_hello os fd flow w').0 ≡ true)
    → Holds idle fd w.trace
    → (s : File × World) × (file_opened os files flow fd file w ≡ ok (some s.0, s.1))
      × (s.0.handler ≡ handle_close)
      × (file_handle os files flow s.0 later ≡ ok (none, flow_ref_dec later))
unfolding file_opened flow_new_send_hello file_handle file_handle_close file_del
file_opened-gives_up os files flow fd file w later works news good refuses greets h =
    let (epoll_fd, asked, new) = should_retry-asks works news good fd file w in
    let w1 = called (closed epoll_fd) (called (opened epoll_fd) w) in
    let h1 = SameHeld-Holds refl (opened_closed-SameHeld w.trace epoll_fd new) h in
    let greeted = flow_send_hello os fd flow w1 in
    let same = sent_status works fd flow w1 in
    let h2 : Holds idle fd greeted.1.trace = record {
      own = same fd ∙ h1.own;
      no_other = λ x other. ap held (same x) ∙ h1.no_other x other;
    } in
    let (w2, handed, _) = flow_new-HoldsNone works fd greeted.1 h2 good in
    let taken : flow_new_send_hello os fd flow w1 ≡ ok (true, w2) =
      simp (flow_new_send_hello, greets w1, handed) in
    let file1 = record file { retry = false; handler = handle_close; attempt = 0 } in
    (
      (file1, w2),
      simp (file_opened, asked, refuses (opened epoll_fd ∷ w.trace) epoll_fd, taken),
      refl,
      refl,
    )
