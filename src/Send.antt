-- ===== src/Send.antt =====
-- adsbus/send.c: the connections that take messages, in one list for each format. What the program
-- does to them is a trace of system calls; what `write` returns is a parameter, which may depend on
-- the calls before it.
pub mod Delivery
pub mod Echo
use adsb_tools.Prelude.{
  ℕ, zero, suc, ◌+◌, ◌-◌, Bool, true, false, not, Option, none, some, List, [], ◌∷◌, ◌++◌, length,
  take, ◌==◌, ◌&&◌, if◌then◌else◌, Run, ok, abort, ◌>>=◌, ◌>>◌, Ssize, minus_one, size,
}
use adsb_tools.Buf.{Buf, buf_at, buf_zero}
use adsb_tools.Packet.{Packet, Stat, packet_sanity_check}

-- `struct send`, less the list that it stands in, its serializer and the callback of its end.
pub record Send : Type 0 where
  pub fd : ℕ
  pub stat : Stat
  pub id : List ℕ

-- `struct serializer`; `send_head` is the list in its order. `S` is the state that the
-- serializers keep.
pub record Serializer (S : Type 0) : Type 0 where
  pub name : List ℕ
  pub serialize : Packet → Buf → S → Run (Buf × S)
  pub hello : Option (List ℕ)
  pub send_head : List Send

-- A system call on a descriptor.
pub data Event : Type 0 where
  wrote : ℕ → List ℕ → Event
  shut : ℕ → Event

-- The test for the socket that a packet came from.
abbrev pub same_socket : Stat → Stat → Bool
same_socket a b = (a.st_dev == b.st_dev) && (a.st_ino == b.st_ino)

-- `write(…) != (ssize_t) buf.length`
abbrev pub short_write : Ssize → ℕ → Bool
short_write minus_one n = true
short_write (size m) n = not (m == n)

abbrev pub list_is_empty : List Send → Bool
list_is_empty [] = true
list_is_empty (s ∷ rest) = false

-- The characters that the consumers get.
abbrev pub output : Buf → List ℕ
output buf = take buf.length (buf_at buf 0)

module _ (write : List Event → ℕ → List ℕ → Ssize) where
  -- The body of the inner loop of `send_write`, from the call of `write` on.
  unfoldable pub send_one : Buf → Send → List Event → List Event
  send_one buf s trace =
      let after = trace ++ wrote s.fd (output buf) ∷ [] in
      if short_write (write trace s.fd (output buf)) buf.length
      then after ++ shut s.fd ∷ []
      else after

  -- The inner loop.
  unfoldable pub send_each : Packet → Buf → List Send → List Event → List Event
  send_each packet buf [] trace = trace
  send_each packet buf (s ∷ rest) trace =
      send_each packet buf rest
        (if same_socket s.stat packet.input_stat then trace else send_one buf s trace)

  -- The outer loop.
  unfoldable pub send_formats :
      {S : Type 0} → Packet → List (Serializer S) → S → List Event → Run (S × List Event)
  send_formats packet [] state trace = ok (state, trace)
  send_formats packet (f ∷ rest) state trace =
      let skipped = send_formats packet rest state trace in
      if list_is_empty f.send_head then skipped else (do
        made ← f.serialize packet buf_zero state
        send_formats packet rest made.1
            (if made.0.length == 0 then trace else send_each packet made.0 f.send_head trace))

  unfoldable pub send_write :
      {S : Type 0} → List (Serializer S) → Packet → S × List Event → Run (S × List Event)
  unfolding send_formats
  send_write serializers packet before =
      packet_sanity_check packet >> send_formats packet serializers before.0 before.1

-- `send_get_serializer`, with `strcasecmp` as the parameter `same_name`: the index in the table.
unfoldable pub send_get_serializer :
    {S : Type 0} → (List ℕ → List ℕ → Bool) → List ℕ → List (Serializer S) → Option ℕ
send_get_serializer same_name name [] = none
send_get_serializer same_name name (f ∷ rest) =
    let later = send_get_serializer same_name name rest in
    if same_name f.name name then some 0 else (elim later [ none ↦ none | some i ↦ some (suc i) ])

-- What `send_new` adds to the list of the serializer at an index, and to the count of consumers.
unfoldable pub send_new :
    {S : Type 0} → ℕ → Send → List (Serializer S) × ℕ → List (Serializer S) × ℕ
send_new zero s ([], peer_count_out) = ([], peer_count_out + 1)
send_new zero s (f ∷ rest, peer_count_out) =
    (record f { send_head = f.send_head ++ s ∷ [] } ∷ rest, peer_count_out + 1)
send_new (suc i) s ([], peer_count_out) = ([], peer_count_out + 1)
send_new (suc i) s (f ∷ rest, peer_count_out) =
    let (rest', count) = send_new i s (rest, peer_count_out) in (f ∷ rest', count)
