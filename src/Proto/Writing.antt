-- ===== src/Proto/Writing.antt =====
-- adsbus/proto.c: what `proto_serialize` asks of the library.
use adsb_tools.Prelude.{
  ℕ, replicate, length-replicate, take-store, ◌≤◌, ◌<◌, ◌≡◌, refl, ◌∙◌, true, false, some, [], ◌∷◌,
  length, ok, arith, leb, ◌==◌,
}
use adsb_tools.Buf.{Buf, buf_zero, buf_store, buf_len_max}
use adsb_tools.Buf.Window.{contents}
use adsb_tools.Packet.{
  Packet, PacketType, is_message, type_none, type_mode_ac, type_mode_s_short, type_mode_s_long,
}
use adsb_tools.Proto.Message.{Adsb, AdsbStream, ProtobufC, adsb_init, adsb_packet_init}
use adsb_tools.Proto.{
  proto_serialize_packet, proto_obj_to_buf, proto_wrap_to_buf, proto_serialize_mode_ac,
  proto_serialize_mode_s_short, proto_serialize_mode_s_long, proto_serialize_by, proto_serialize,
}

-- The message in which `proto_serialize` puts a packet.
unfoldable pub message_of : PacketType → Packet → Adsb
message_of type_none packet = adsb_init
message_of type_mode_ac packet = record adsb_init {
  mode_ac = some (proto_serialize_packet packet adsb_packet_init 2);
}
message_of type_mode_s_short packet = record adsb_init {
  mode_s_short = some (proto_serialize_packet packet adsb_packet_init 7);
}
message_of type_mode_s_long packet = record adsb_init {
  mode_s_long = some (proto_serialize_packet packet adsb_packet_init 14);
}

abbrev pub stream_of : Packet → AdsbStream
stream_of packet = record { msg = message_of packet.type packet ∷ [] }

-- The library packs the message of a packet in the size that it reports, which is not zero and not
-- above that of a buffer.
pub record IsPackable (lib : ProtobufC) (packet : Packet) : Type 0 where
  pub sized : length (lib.pack (stream_of packet)) ≡ lib.get_packed_size (stream_of packet)
  pub some_bytes : 0 < lib.get_packed_size (stream_of packet)
  pub fits : lib.get_packed_size (stream_of packet) ≤ buf_len_max

-- A message is wrapped into a stream of its own.
pub serialize_by-wraps :
    (lib : ProtobufC) (type : PacketType) (packet : Packet) (b : Buf)
    → is_message type ≡ true
    → proto_serialize_by lib type packet b
      ≡ proto_obj_to_buf lib (record { msg = message_of type packet ∷ [] }) b
unfolding proto_serialize_by proto_serialize_mode_ac proto_serialize_mode_s_short
    proto_serialize_mode_s_long proto_wrap_to_buf message_of
serialize_by-wraps lib type_none packet b m = cc
serialize_by-wraps lib type_mode_ac packet b m = refl
serialize_by-wraps lib type_mode_s_short packet b m = refl
serialize_by-wraps lib type_mode_s_long packet b m = refl

-- The buffer with the packed message.
abbrev pub written : ProtobufC → Packet → Buf
written lib packet = record (buf_store buf_zero 0 (lib.pack (stream_of packet))) {
  length = length (lib.pack (stream_of packet));
}

module _ (lib : ProtobufC) (packet : Packet) (h : IsPackable lib packet) where
  obj_to_buf-ok : proto_obj_to_buf lib (stream_of packet) buf_zero ≡ ok (written lib packet)
  unfolding proto_obj_to_buf buf_zero
  obj_to_buf-ok =
      let fits : leb (lib.get_packed_size (stream_of packet)) buf_len_max ≡ true =
        ground (arith, h.fits) in
      let some_bytes : (length (lib.pack (stream_of packet)) == 0) ≡ false =
        ground (arith, h.sized, h.some_bytes) in
      simp (proto_obj_to_buf, fits, some_bytes)

  -- A packet that is no header is written without an `assert` that fails.
  pub proto_serialize-ok :
      is_message packet.type ≡ true → proto_serialize lib packet buf_zero ≡ ok (written lib packet)
  unfolding proto_serialize
  proto_serialize-ok m = serialize_by-wraps lib packet.type packet buf_zero m ∙ obj_to_buf-ok

  -- The unread bytes of the buffer are the packed message.
  pub written-contents : contents (written lib packet) ≡ lib.pack (stream_of packet)
  unfolding buf_zero
  written-contents =
      take-store (replicate buf_len_max 0) (lib.pack (stream_of packet))
        (omega (arith, h.sized, h.fits, length-replicate {A = ℕ} buf_len_max 0))
