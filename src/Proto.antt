-- ===== src/Proto.antt =====
-- adsbus/proto.c: protocol buffers. The protobuf-c library is a parameter. The message that
-- `proto_prev` keeps only serves as memory for the packet's identifier, and is left out.
pub mod Message
pub mod Varint
pub mod Wire
pub mod Promise
pub mod Writing
pub mod RoundTrip
use adsb_tools.Prelude.{
  ℕ, zero, suc, ◌+◌, ◌-◌, ◌*◌, ◌%◌, ◌^◌, bit_and, bit_or, Bool, true, false, not, Option, none,
  some, List, [], ◌∷◌, ◌++◌, length, take, drop, ltb, leb, ◌==◌, ◌!=◌, ◌&&◌, ◌||◌, if◌then◌else◌,
  Run, ok, abort, ◌>>=◌, ◌>>◌, check, store,
}
use adsb_tools.Buf.{Buf, buf_zero, buf_at, buf_chr, buf_store, buf_consume, buf_len_max}
use adsb_tools.Packet.{
  Packet, PacketType, type_none, type_mode_ac, type_mode_s_short, type_mode_s_long,
  packet_validate_id, packet_mlat_timestamp_scale_in, packet_rssi_scale_in, u64, packet_mlat_mhz,
  packet_mlat_max, packet_rssi_max,
}
use adsb_tools.Parser.{ParserState, Parsed, parsed, Parser, Filled, filled}
use adsb_tools.Proto.Message.{
  AdsbHeader, AdsbPacket, Adsb, AdsbStream, ProtobufC, adsb_packet_init, adsb_init,
}

abbrev pub proto_magic : List ℕ
proto_magic = b'a' ∷ b'D' ∷ b's' ∷ b'B' ∷ 0 ∷ []

abbrev pub ssize_max : ℕ
ssize_max = 0x7fff_ffff_ffff_ffff

-- The loop of `proto_parse_varint` with `left` rounds to go: the value, or `none` for -1, and where
-- `start` is left.
unfoldable pub varint_loop : ℕ → Buf → ℕ → ℕ → ℕ → Option ℕ × ℕ
varint_loop zero buf start value shift = (none, start)
varint_loop (suc left) buf start value shift =
    let c = buf_chr buf start in
    let value' = bit_or value (u64 (bit_and c 0x7f * 2 ^ shift)) in
    let shift' = (shift + 7) % 65536 in
    let rest = varint_loop left buf (start + 1) value' shift' in
    if not (ltb start buf.length)
    then (none, start)
    else if ltb ssize_max value'
    then (none, start)
    else if bit_and c 0x80 == 0
    then (some value', start + 1)
    else if ltb 21 shift'
    then (none, start)
    else rest

-- The loop ends at the end of the buffer at the latest.
unfoldable pub proto_parse_varint : Buf → ℕ → Option ℕ × ℕ
unfolding varint_loop
proto_parse_varint buf start = varint_loop buf.length buf start 0 0

-- The parts of `proto_parse_packet` on the time stamp and the signal strength.
unfoldable pub proto_mlat : AdsbPacket → Packet → ParserState → Run (Packet × ParserState)
proto_mlat input packet state =
    if input.has_mlat_timestamp
    then (packet_mlat_timestamp_scale_in input.mlat_timestamp state.mlat_timestamp_max
          state.mlat_timestamp_mhz state.mlat_state
        >>= λ scaled.
            ok
              (record packet { mlat_timestamp = scaled.0 }, record state { mlat_state = scaled.1 }))
    else ok (packet, state)

unfoldable pub proto_rssi : AdsbPacket → Packet → ParserState → Run Packet
proto_rssi input packet state =
    if input.has_rssi
    then (packet_rssi_scale_in input.rssi state.rssi_max >>= λ rssi.
        ok (record packet { rssi = rssi }))
    else ok packet

unfoldable pub proto_parse_packet : AdsbPacket → Packet → ParserState → ℕ → Run Filled
proto_parse_packet input packet state len =
    if not state.have_header
    then ok (filled false packet state)
    else if length input.payload != len
    then ok (filled false packet state)
    else if not (packet_validate_id input.source_id)
    then ok (filled false packet state)
    else (do
      let named = record packet {
        source_id = input.source_id;
        hops = input.hops % 65536;
        payload = store packet.payload 0 (take len input.payload);
      }
      timed ← proto_mlat input named state
      heard ← proto_rssi input timed.0 timed.1
      ok (filled true heard timed.1))

-- What `proto_parse` writes after a successful parser of one kind.
unfoldable pub proto_typed : PacketType → Run Filled → Run Filled
proto_typed type parse = parse >>= λ r.
    if r.found then ok (filled true (record r.packet { type = type }) r.state) else ok r

unfoldable pub proto_serialize_packet : Packet → AdsbPacket → ℕ → AdsbPacket
proto_serialize_packet packet out len =
    let out1 = record out { source_id = packet.source_id; hops = packet.hops } in
    let out2 =
      if packet.mlat_timestamp == 0
      then out1
      else record out1 { mlat_timestamp = packet.mlat_timestamp; has_mlat_timestamp = true } in
    let out3 =
      if packet.rssi == 0 then out2 else record out2 { rssi = packet.rssi; has_rssi = true } in
    record out3 { payload = take len packet.payload }

module _ (lib : ProtobufC) where
  -- The message at the start of the buffer, and the size that it takes.
  unfoldable pub proto_unwrap : Buf → Option (Adsb × ℕ)
  proto_unwrap wrapper =
      let read = proto_parse_varint wrapper 1 in
      if ltb wrapper.length 1
      then none
      else if buf_chr wrapper 0 != 0x0a
      then none
      else (elim read.0 [
        | none ↦ none
        | some len ↦
            if ltb wrapper.length (u64 (read.1 + len))
            then none
            else (elim (lib.unpack (take len (buf_at wrapper read.1))) [
              | none ↦ none
              | some msg ↦ some (msg, read.1 + len)
            ])
      ])

  unfoldable pub proto_obj_to_buf : AdsbStream → Buf → Run Buf
  proto_obj_to_buf obj buf = do
    check (buf.length == 0)
    check (leb (lib.get_packed_size obj) buf_len_max)
    let packed = lib.pack obj
    check (not (length packed == 0))
    ok (record (buf_store buf 0 packed) { length = length packed })

  unfoldable pub proto_wrap_to_buf : Adsb → Buf → Run Buf
  proto_wrap_to_buf msg buf = proto_obj_to_buf (record { msg = msg ∷ [] }) buf

  unfoldable pub proto_serialize_mode_ac : Packet → Buf → Run Buf
  proto_serialize_mode_ac packet buf =
      let packet_out = proto_serialize_packet packet adsb_packet_init 2 in
      proto_wrap_to_buf (record adsb_init { mode_ac = some packet_out }) buf

  unfoldable pub proto_serialize_mode_s_short : Packet → Buf → Run Buf
  proto_serialize_mode_s_short packet buf =
      let packet_out = proto_serialize_packet packet adsb_packet_init 7 in
      proto_wrap_to_buf (record adsb_init { mode_s_short = some packet_out }) buf

  unfoldable pub proto_serialize_mode_s_long : Packet → Buf → Run Buf
  proto_serialize_mode_s_long packet buf =
      let packet_out = proto_serialize_packet packet adsb_packet_init 14 in
      proto_wrap_to_buf (record adsb_init { mode_s_long = some packet_out }) buf

  -- The choice by the type of the packet.
  unfoldable pub proto_serialize_by : PacketType → Packet → Buf → Run Buf
  proto_serialize_by type_none packet buf = ok buf
  proto_serialize_by type_mode_ac packet buf = proto_serialize_mode_ac packet buf
  proto_serialize_by type_mode_s_short packet buf = proto_serialize_mode_s_short packet buf
  proto_serialize_by type_mode_s_long packet buf = proto_serialize_mode_s_long packet buf

  unfoldable pub proto_serialize : Packet → Buf → Run Buf
  proto_serialize packet buf = proto_serialize_by packet.type packet buf

module _ (lib : ProtobufC) (server_id : List ℕ) where
  unfoldable pub proto_parse_header : AdsbHeader → Packet → ParserState → Filled
  proto_parse_header header packet state =
      let state' = record state {
        mlat_timestamp_mhz = header.mlat_timestamp_mhz % 65536;
        mlat_timestamp_max = header.mlat_timestamp_max;
        rssi_max = header.rssi_max;
      } in
      if not (lib.strcmp_equal header.magic proto_magic)
      then filled false packet state
      else if header.mlat_timestamp_mhz == 0
          || (ltb 0xffff header.mlat_timestamp_mhz
              || (header.mlat_timestamp_max == 0 || header.rssi_max == 0))
      then filled false packet state
      else if lib.strcmp_equal header.server_id server_id
      then filled false packet state'
      else filled true packet (record state' { have_header = true })

  -- The choice by the member that is there.
  unfoldable pub proto_parse_message : Adsb → Packet → ParserState → Run Filled
  proto_parse_message msg packet state = elim msg.header [
    | some header ↦ proto_typed type_none (ok (proto_parse_header header packet state))
    | none ↦ elim msg.mode_ac [
      | some input ↦ proto_typed type_mode_ac (proto_parse_packet input packet state 2)
      | none ↦ elim msg.mode_s_short [
        | some input ↦ proto_typed type_mode_s_short (proto_parse_packet input packet state 7)
        | none ↦ elim msg.mode_s_long [
          | some input ↦ proto_typed type_mode_s_long (proto_parse_packet input packet state 14)
          | none ↦ ok (filled false packet state)
        ]
      ]
    ]
  ]

  unfoldable pub proto_parse : Parser
  proto_parse buf packet state = elim (proto_unwrap lib buf) [
    | none ↦ ok (parsed false buf packet state)
    | some (msg, len) ↦ proto_parse_message msg packet state >>= λ r.
        if r.found
        then (buf_consume buf len >>= λ buf'. ok (parsed true buf' r.packet r.state))
        else ok (parsed false buf r.packet r.state)
  ]

  -- `proto_init`, by what it leaves in `proto_hello_buf`, where `proto_hello` points to.
  unfoldable pub proto_init : List ℕ → Run Buf
  proto_init server_version =
      let header : AdsbHeader = record {
        magic = proto_magic;
        server_version = server_version;
        server_id = server_id;
        mlat_timestamp_mhz = packet_mlat_mhz;
        mlat_timestamp_max = packet_mlat_max;
        rssi_max = packet_rssi_max;
      } in
      proto_wrap_to_buf lib (record adsb_init { header = some header }) buf_zero
