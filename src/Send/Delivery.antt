-- ===== src/Send/Delivery.antt =====
-- Who gets what from `send_write`.
use native.Mathlib.Decide.{ℕ_discrete}
use adsb_tools.Prelude.{
  ℕ, ◌+◌, take, drop, ◌≡◌, refl, sym, ap, ◌∙◌, arith, eq→==, true, false, List, [], ◌∷◌, ◌++◌,
  append-nil, append_assoc, ◌==◌, if◌then◌else◌, ok, abort, All, Bool-cases, inl, inr,
}
use adsb_tools.Buf.{Buf, buf_zero}
use adsb_tools.Buf.Window.{contents}
use adsb_tools.Packet.{Packet, Stat, packet_sanity_check}
use adsb_tools.Send.{
  Send, list_is_empty, Serializer, Event, wrote, shut, same_socket, short_write, output, send_one,
  send_each, send_formats, send_write,
}
use adsb_tools.Prelude.{Ssize}

-- The deliveries of a trace: the calls of `write`, without those of `shutdown`.
pub deliveries : List Event → List (ℕ × List ℕ)
deliveries [] = []
deliveries (wrote fd text ∷ rest) = (fd, text) ∷ deliveries rest
deliveries (shut fd ∷ rest) = deliveries rest

-- The choice by two decisions: the last alternative if both hold.
abbrev pub unless_both {ℓ} : {A B : Type 0} {C : Type ℓ} → Dec A → Dec B → C → C → C
unless_both (yes a) (yes b) c c' = c'
unless_both (yes a) (no nb) c c' = c
unless_both (no na) d c c' = c

-- What the consumers of one format ought to get: each the text, in their order, but for those that
-- are the socket with this device and this inode.
pub owed : Stat → List ℕ → List Send → List (ℕ × List ℕ)
owed stat text [] = []
owed stat text (s ∷ rest) =
    let others = owed stat text rest in
    unless_both (ℕ_discrete s.stat.st_dev stat.st_dev) (ℕ_discrete s.stat.st_ino stat.st_ino)
      ((s.fd, text) ∷ others) others

-- An empty text is not written.
abbrev pub owed_text : Stat → Buf → List Send → List (ℕ × List ℕ)
owed_text stat buf sends = if buf.length == 0 then [] else owed stat (contents buf) sends

-- The choice by whether there are consumers.
abbrev pub if_any {ℓ} : {A : Type ℓ} → List Send → A → A → A
if_any [] none_there some_there = none_there
if_any (s ∷ rest) none_there some_there = some_there

-- The same for all formats: a serializer is called if there are consumers of its format, on an empty
-- buffer, with the state that the one before it left.
pub owed_by_all : {S : Type 0} → Packet → List (Serializer S) → S → List (ℕ × List ℕ)
owed_by_all packet [] state = []
owed_by_all packet (f ∷ rest) state =
    if_any f.send_head (owed_by_all packet rest state) (elim (f.serialize packet buf_zero state) [
      | abort ↦ []
      | ok made ↦ owed_text packet.input_stat made.0 f.send_head ++ owed_by_all packet rest made.1
    ])

-- A serializer that does not fail on a packet, whatever its state is.
abbrev pub Works : {S : Type 0} → Packet → Serializer S → Type 0
Works {S} packet f = (state : S) → (made : Buf × S) × (f.serialize packet buf_zero state ≡ ok made)

if_any-none :
    {A : Type 0} (sends : List Send) (a b : A) → list_is_empty sends ≡ true → if_any sends a b ≡ a
if_any-none [] a b h = refl
if_any-none (s ∷ rest) a b h = cc

if_any-some :
    {A : Type 0} (sends : List Send) (a b : A) → list_is_empty sends ≡ false → if_any sends a b ≡ b
if_any-some [] a b h = cc
if_any-some (s ∷ rest) a b h = refl

-- The test of the code decides whether the two sockets are the same.
unless_both-same :
    (a b : Stat) (d : Dec (a.st_dev ≡ b.st_dev)) (i : Dec (a.st_ino ≡ b.st_ino)) {C : Type 0}
    (c c' : C)
    → same_socket a b ≡ true
    → unless_both d i c c' ≡ c'
unless_both-same a b (yes d) (yes i) c c' h = refl
unless_both-same a b (yes d) (no i) c c' h = absurd (i (ground (arith, h)))
unless_both-same a b (no d) i c c' h = absurd (d (ground (arith, h)))

unless_both-other :
    (a b : Stat) (d : Dec (a.st_dev ≡ b.st_dev)) (i : Dec (a.st_ino ≡ b.st_ino)) {C : Type 0}
    (c c' : C)
    → same_socket a b ≡ false
    → unless_both d i c c' ≡ c
unless_both-other a b (yes d) (yes i) c c' h =
    let one : (a.st_dev == b.st_dev) ≡ true = eq→== a.st_dev b.st_dev d in
    let two : (a.st_ino == b.st_ino) ≡ true = eq→== a.st_ino b.st_ino i in cc
unless_both-other a b (yes d) (no i) c c' h = refl
unless_both-other a b (no d) i c c' h = refl

deliveries-append : (a b : List Event) → deliveries (a ++ b) ≡ deliveries a ++ deliveries b
unfolding deliveries
deliveries-append [] b = refl
deliveries-append (wrote fd text ∷ a) b =
    ap (λ (l : List (ℕ × List ℕ)). (fd, text) ∷ l) (deliveries-append a b)
deliveries-append (shut fd ∷ a) b = deliveries-append a b

output-eq-contents : (buf : Buf) → output buf ≡ contents buf
output-eq-contents buf =
    let here : buf.start + 0 ≡ buf.start = omega arith in
    ap (λ (n : ℕ). take buf.length (drop n buf.bytes)) here

module _ (write : List Event → ℕ → List ℕ → Ssize) where
  send_one-deliveries :
      (buf : Buf) (s : Send) (trace : List Event)
      → deliveries (send_one write buf s trace) ≡ deliveries trace ++ (s.fd, output buf) ∷ []
  unfolding deliveries send_one
  send_one-deliveries buf s trace =
      let first : deliveries (trace ++ wrote s.fd (output buf) ∷ [])
          ≡ deliveries trace ++ (s.fd, output buf) ∷ [] =
        deliveries-append trace (wrote s.fd (output buf) ∷ []) in
      elim (Bool-cases (short_write (write trace s.fd (output buf)) buf.length)) [
        | inl e ↦
            rw (send_one, e)
              (deliveries-append (trace ++ wrote s.fd (output buf) ∷ []) (shut s.fd ∷ [])
                ∙ append-nil _
                ∙ first)
        | inr e ↦ rw (send_one, e) first
      ]

  send_each-deliveries :
      (packet : Packet) (buf : Buf) (sends : List Send) (trace : List Event)
      → deliveries (send_each write packet buf sends trace)
        ≡ deliveries trace ++ owed packet.input_stat (output buf) sends
  unfolding send_each owed
  send_each-deliveries packet buf [] trace = sym (append-nil (deliveries trace))
  send_each-deliveries packet buf (s ∷ rest) trace =
      let stat = packet.input_stat in
      let others = owed stat (output buf) rest in
      let d = ℕ_discrete s.stat.st_dev stat.st_dev in
      let i = ℕ_discrete s.stat.st_ino stat.st_ino in
      elim (Bool-cases (same_socket s.stat stat)) [
        | inl e ↦
            simp
              (
                send_each,
                owed,
                e,
                unless_both-same s.stat stat d i ((s.fd, output buf) ∷ others) others e,
              )
              (send_each-deliveries packet buf rest trace)
        | inr e ↦
            simp
              (
                send_each,
                owed,
                e,
                unless_both-other s.stat stat d i ((s.fd, output buf) ∷ others) others e,
              )
              (send_each-deliveries packet buf rest (send_one write buf s trace)
                ∙ ap (λ (l : List (ℕ × List ℕ)). l ++ others) (send_one-deliveries buf s trace)
                ∙ append_assoc (deliveries trace) ((s.fd, output buf) ∷ []) others)
      ]

  -- What follows the serializer of a format.
  after_text-deliveries :
      (packet : Packet) (buf : Buf) (sends : List Send) (trace : List Event)
      → deliveries (if buf.length == 0 then trace else send_each write packet buf sends trace)
        ≡ deliveries trace ++ owed_text packet.input_stat buf sends
  after_text-deliveries packet buf sends trace = elim (Bool-cases (buf.length == 0)) [
    | inl e ↦ simp e (sym (append-nil (deliveries trace)))
    | inr e ↦ simp e (
        send_each-deliveries packet buf sends trace
        ∙ ap (λ (text : List ℕ). deliveries trace ++ owed packet.input_stat text sends)
            (output-eq-contents buf))
  ]

  send_formats-deliveries :
      {S : Type 0} (packet : Packet) (formats : List (Serializer S)) (state : S)
      (trace : List Event)
      → All (Works packet) formats
      → (after : S × List Event) × (send_formats write packet formats state trace ≡ ok after)
        × (deliveries after.1 ≡ deliveries trace ++ owed_by_all packet formats state)
  unfolding send_formats owed_by_all
  send_formats-deliveries packet [] state trace h =
      ((state, trace), refl, sym (append-nil (deliveries trace)))
  send_formats-deliveries packet (f ∷ rest) state trace h =
      let (made, serialized) = h.0 state in
      let text = owed_text packet.input_stat made.0 f.send_head in
      let skipped = owed_by_all packet rest state in
      let written = text ++ owed_by_all packet rest made.1 in
      elim (Bool-cases (list_is_empty f.send_head)) [
        | inl e ↦
            let rec = send_formats-deliveries packet rest state trace h.1 in
            (
              rec.0,
              simp (send_formats, e) rec.1,
              simp (owed_by_all, serialized, if_any-none f.send_head skipped written e) rec.2,
            )
        | inr e ↦
            let after =
              if made.0.length == 0
              then trace
              else send_each write packet made.0 f.send_head trace in
            let rec = send_formats-deliveries packet rest made.1 after h.1 in
            (
              rec.0,
              simp (send_formats, e, serialized) rec.1,
              simp (owed_by_all, serialized, if_any-some f.send_head skipped written e)
                  (rec.2
                    ∙ ap (λ (l : List (ℕ × List ℕ)). l ++ owed_by_all packet rest made.1)
                        (after_text-deliveries packet made.0 f.send_head trace)
                    ∙ append_assoc (deliveries trace) text (owed_by_all packet rest made.1)),
            )
      ]

-- For a sane packet on which no serializer fails, in whatever state, and whatever each `write`
-- returns: `send_write` returns, and it calls `write` once for each connection whose format's text
-- is not empty and that is not the socket the packet came from - the one with the same device and
-- the same inode -, with the whole text, in the order of the formats and of their lists, and for
-- no other.
pub send_write-deliveries :
    {S : Type 0} (write : List Event → ℕ → List ℕ → Ssize) (formats : List (Serializer S))
    (packet : Packet) (state : S) (trace : List Event)
    → packet_sanity_check packet ≡ ok tt
    → All (Works packet) formats
    → (after : S × List Event) × (send_write write formats packet (state, trace) ≡ ok after)
      × (deliveries after.1 ≡ deliveries trace ++ owed_by_all packet formats state)
unfolding send_write
send_write-deliveries write formats packet state trace sane h =
    let done = send_formats-deliveries write packet formats state trace h in
    (done.0, simp (send_write, sane) done.1, done.2)
