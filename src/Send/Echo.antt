-- ===== src/Send/Echo.antt =====
-- A message does not come back to the socket that it came from.
use adsb_tools.Prelude.{
  ℕ, ◌≤◌, ◌<◌, ◌≡◌, ◌⊎◌, refl, sym, eq→==, if◌then◌else◌, Bool, true, false, Option, List, [], ◌∷◌,
  ◌++◌, length, ◌==◌, ok, All, Ssize, Bool-cases, inl, inr,
}
use mathlib.Core.Path.{subst}
use adsb_tools.Buf.{Buf, buf_len_max}
use adsb_tools.Buf.Window.{received}
use adsb_tools.Packet.{Packet, Stat}
use adsb_tools.Send.{
  Send, list_is_empty, Serializer, Event, wrote, shut, same_socket, short_write, output, send_one,
  send_each, send_formats, send_write,
}
use adsb_tools.Send.Delivery.{Works}
use adsb_tools.Parser.{Parser}
use adsb_tools.Parser.Laws.{Promises}
use adsb_tools.Os.{Os}
use adsb_tools.Receive.{Receive, Receives, receive_read}
use adsb_tools.Receive.Close.{CanClose}
use adsb_tools.Receive.Loop.{IsSendable, IsLive}
use adsb_tools.Receive.Read.{IsOpen, Reason, receive_read-keeps}

-- A consumer with this descriptor is the socket that packets come from.
abbrev pub IsSource : Stat → ℕ → Send → Type 0
IsSource stat fd s =
    ((s.fd == fd) ≡ false) ⊎ ((s.stat.st_dev ≡ stat.st_dev) × (s.stat.st_ino ≡ stat.st_ino))

abbrev event_fd : Event → ℕ
event_fd (wrote fd text) = fd
event_fd (shut fd) = fd

-- Nothing has been done to a descriptor.
abbrev pub IsUntouched : ℕ → List Event → Type 0
IsUntouched fd trace = All (λ e. (event_fd e == fd) ≡ false) trace

All-append :
    (fd : ℕ) (a b : List Event) → IsUntouched fd a → IsUntouched fd b → IsUntouched fd (a ++ b)
All-append fd [] b h k = k
All-append fd (e ∷ a) b h k = (h.0, All-append fd a b h.1 k)

module _ (write : List Event → ℕ → List ℕ → Ssize) (fd : ℕ) where
  send_one-IsUntouched :
      (buf : Buf) (s : Send) (trace : List Event)
      → (s.fd == fd) ≡ false
      → IsUntouched fd trace
      → IsUntouched fd (send_one write buf s trace)
  unfolding send_one
  send_one-IsUntouched buf s trace other h =
      let after = All-append fd trace (wrote s.fd (output buf) ∷ []) h (other, tt) in
      elim (Bool-cases (short_write (write trace s.fd (output buf)) buf.length)) [
        | inl e ↦
            rw (send_one, e)
              (All-append fd (trace ++ wrote s.fd (output buf) ∷ []) (shut s.fd ∷ []) after
                (other, tt))
        | inr e ↦ rw (send_one, e) after
      ]

  send_each-IsUntouched :
      (packet : Packet) (buf : Buf) (sends : List Send) (trace : List Event)
      → All (IsSource packet.input_stat fd) sends
      → IsUntouched fd trace
      → IsUntouched fd (send_each write packet buf sends trace)
  unfolding send_each
  send_each-IsUntouched packet buf [] trace all h = h
  send_each-IsUntouched packet buf (s ∷ rest) trace all h =
      elim (Bool-cases (same_socket s.stat packet.input_stat)) [
        | inl e ↦ rw (send_each, e) (send_each-IsUntouched packet buf rest trace all.1 h)
        | inr e ↦ elim all.0 [
          | inl other ↦
              rw (send_each, e)
                (send_each-IsUntouched packet buf rest (send_one write buf s trace) all.1
                  (send_one-IsUntouched buf s trace other h))
          | inr same ↦
              let here : same_socket s.stat packet.input_stat ≡ true = simp (
                eq→== s.stat.st_dev packet.input_stat.st_dev same.0,
                eq→== s.stat.st_ino packet.input_stat.st_ino same.1,
              ) in
              cc
        ]
      ]

  after_text-IsUntouched :
      (packet : Packet) (buf : Buf) (sends : List Send) (trace : List Event)
      → All (IsSource packet.input_stat fd) sends
      → IsUntouched fd trace
      → IsUntouched fd (if buf.length == 0 then trace else send_each write packet buf sends trace)
  after_text-IsUntouched packet buf sends trace all h = elim (Bool-cases (buf.length == 0)) [
    | inl e ↦ rw e h
    | inr e ↦ rw e (send_each-IsUntouched packet buf sends trace all h)
  ]

  send_formats-IsUntouched :
      {S : Type 0} (packet : Packet) (formats : List (Serializer S)) (state : S)
      (trace : List Event)
      → All (Works packet) formats
      → All (λ f. All (IsSource packet.input_stat fd) f.send_head) formats
      → IsUntouched fd trace
      → (after : S × List Event) × (send_formats write packet formats state trace ≡ ok after)
        × IsUntouched fd after.1
  unfolding send_formats
  send_formats-IsUntouched packet [] state trace works all h = ((state, trace), refl, h)
  send_formats-IsUntouched packet (f ∷ rest) state trace works all h =
      let (made, serialized) = works.0 state in
      elim (Bool-cases (list_is_empty f.send_head)) [
        | inl e ↦
            let rec = send_formats-IsUntouched packet rest state trace works.1 all.1 h in
            (rec.0, simp (send_formats, e) rec.1, rec.2)
        | inr e ↦
            let after =
              if made.0.length == 0
              then trace
              else send_each write packet made.0 f.send_head trace in
            let rec =
              send_formats-IsUntouched packet rest made.1 after works.1 all.1
                (after_text-IsUntouched packet made.0 f.send_head trace all.0 h) in
            (rec.0, simp (send_formats, e, serialized) rec.1, rec.2)
      ]

-- The program from a connection's descriptor to the consumers, `receive_read` with `send_write`: for a
-- sound connection with room in its buffer that can be closed, parsers that keep their promise,
-- `read` within the size that it was given, whatever each `write` returns, and serializers that do
-- not fail on a sane packet from this connection with at most the maximal number of hops. No
-- `assert` fails; the loop ends; a descriptor whose consumers are all the socket that the
-- connection reads from is not written to and not shut down; and the connection is sound and has
-- room, or was closed since `read` delivered nothing or the buffer was full.
pub receive_read-no_echo :
    {S : Type 0} (os : Os) (shutdown : Bool) (write : List Event → ℕ → List ℕ → Ssize)
    (formats : List (Serializer S)) (max_hops : ℕ) (fd : ℕ) (stat : Stat) (parsers : List Parser)
    (read : ℕ → Option (List ℕ)) (r : Receive) (before : S × List Event) (s : Receives)
    → CanClose os shutdown r.peer r.on_close s
    → All Promises parsers
    → ((n : ℕ) → length (received (read n)) ≤ n)
    → ((packet : Packet) → IsSendable stat max_hops packet → All (Works packet) formats)
    → All (λ f. All (IsSource stat fd) f.send_head) formats
    → IsLive stat r
    → r.buf.length < buf_len_max
    → IsUntouched fd before.1
    → (left : Option Receive) × (after : S × List Event) × (s' : Receives) × (receive_read
          (send_write write formats)
          max_hops
          os
          shutdown
          parsers
          read
          r
          before
          s
        ≡ ok (left, after, s'))
      × IsOpen shutdown stat r s left s'
      × Reason (send_write write formats) max_hops parsers read r before left after
      × IsUntouched fd after.1
unfolding send_write
receive_read-no_echo {S} os shutdown write formats max_hops fd stat parsers read r before s can
      promised contract works source live room h =
    let (left, after, s', done, is_open, why, quiet) =
      receive_read-keeps (send_write write formats) max_hops stat
        (λ (w : S × List Event). IsUntouched fd w.1)
        (λ packet at sendable quiet.
          let done =
            send_formats-IsUntouched write fd packet formats at.0 at.1 (works packet sendable)
              (from_stat packet formats sendable.from source) quiet in
          (done.0, simp (send_write, sendable.sane) done.1, done.2))
        os shutdown parsers read r before s can promised contract live room h in
    (left, after, s', done, is_open, why, quiet)
  where
    from_stat :
        (packet : Packet) (formats : List (Serializer S))
        → packet.input_stat ≡ stat
        → All (λ f. All (IsSource stat fd) f.send_head) formats
        → All (λ f. All (IsSource packet.input_stat fd) f.send_head) formats
    from_stat packet formats e all =
        subst (λ (t : Stat). All (λ (f : Serializer S). All (IsSource t fd) f.send_head) formats)
          (sym e) all
