-- ===== src/Tests/Protobuf.antt =====
-- adsbus/proto.c at fixed inputs: a library that knows one message.
use adsb_tools.Prelude.{
  ap, sym, append-nil, ℕ, ◌≡◌, refl, true, some, List, [], ◌∷◌, length, ok, arith,
}
use adsb_tools.Buf.{Buf, buf_zero}
use adsb_tools.Buf.Window.{IsValid, contents}
use adsb_tools.Packet.{
  Packet, packet_validate_id, packet_payload_len, packet_mlat_max, packet_rssi_max,
}
use adsb_tools.Parser.{ParserState, parsed}
use adsb_tools.Proto.Wire.{varint}
use adsb_tools.Proto.RoundTrip.{
  framed, read_back, IsWritable, IsOwnScale, proto_parse-proto_serialize,
}
use adsb_tools.Parser.Laws.{IsServed}
use adsb_tools.Receive.{fresh_packet}
use adsb_tools.Proto.Message.{AdsbHeader, ProtobufC, adsb_init}
use adsb_tools.Proto.{proto_magic, proto_parse}
use adsb_tools.Proto.Promise.{proto_parse-IsServed}
use adsb_tools.Proto.Writing.{IsPackable, written, message_of, proto_serialize-ok}
use adsb_tools.Tests.Connections.{new_connection, new_packet-IsWellFormed, new_state-IsReady}
use adsb_tools.Tests.Formats.{short_message, same_text, server_name, filled_with}

abbrev hello : AdsbHeader
hello = record {
  magic = proto_magic;
  server_version = 0 ∷ [];
  server_id = b'y' ∷ b'o' ∷ b'u' ∷ 0 ∷ [];
  mlat_timestamp_mhz = 120;
  mlat_timestamp_max = 1000;
  rssi_max = 255;
}

abbrev pub small_library : ProtobufC
small_library = record {
  unpack = λ bytes. some (record adsb_init { header = some hello });
  get_packed_size = λ stream. 3;
  pack = λ stream. 10 ∷ 1 ∷ 7 ∷ [];
  strcmp_equal = same_text;
}

pub small_library-IsPackable : (p : Packet) → IsPackable small_library p
small_library-IsPackable p = record { sized = refl; some_bytes = omega arith; fits = omega arith }

abbrev packed_hello : List ℕ
packed_hello = 10 ∷ 1 ∷ 7 ∷ []

proto_parse-IsServed_example : IsServed (filled_with packed_hello) (fresh_packet new_connection) (
    proto_parse small_library server_name
      (filled_with packed_hello)
      (fresh_packet new_connection)
      new_connection.parser_state)
proto_parse-IsServed_example =
    proto_parse-IsServed small_library server_name (filled_with packed_hello)
      (fresh_packet new_connection) new_connection.parser_state
      (record { whole = refl; inside = omega arith }) (omega arith) new_packet-IsWellFormed
      new_state-IsReady

-- A library that knows the message of one packet.
abbrev sent_packet : Packet
sent_packet = record short_message { mlat_timestamp = 5; rssi = 7 }

abbrev packet_body : List ℕ
packet_body = 1 ∷ 2 ∷ 3 ∷ []

abbrev packet_library : ProtobufC
packet_library = record {
  unpack = λ bytes. some (message_of sent_packet.type sent_packet);
  get_packed_size = λ stream. 5;
  pack = λ stream. framed packet_body;
  strcmp_equal = same_text;
}

framed-five : framed packet_body ≡ 10 ∷ 3 ∷ packet_body
unfolding varint
framed-five = refl

packet_library-IsPackable : IsPackable packet_library sent_packet
packet_library-IsPackable = record {
  sized = ap length framed-five;
  some_bytes = omega arith;
  fits = omega arith;
}

abbrev known_scale : ParserState
known_scale = record {
  mlat_state = record { timestamp_last = 4; timestamp_generation = 0 };
  mlat_timestamp_mhz = 120;
  mlat_timestamp_max = packet_mlat_max;
  rssi_max = packet_rssi_max;
  have_header = true;
}

abbrev blank_packet : Packet
blank_packet = record short_message { mlat_timestamp = 0; rssi = 0 }

sent_packet-IsWritable : IsWritable sent_packet
unfolding packet_validate_id
sent_packet-IsWritable = record {
  message = refl;
  identified = refl;
  sized = refl;
  timed = omega arith;
  strength = omega arith;
  counted = omega arith;
}

written-IsValid : IsValid (written packet_library sent_packet)
unfolding buf_zero varint
written-IsValid = record { whole = refl; inside = omega arith }

known_scale-IsOwnScale : IsOwnScale known_scale sent_packet.mlat_timestamp
known_scale-IsOwnScale = record {
  headed = refl;
  mhz = refl;
  top = refl;
  loudest = refl;
  in_order = omega arith;
  first = refl;
}

proto_parse-proto_serialize_example :
    (buf' : Buf) × (t : ParserState) × (proto_parse packet_library server_name
        (written packet_library sent_packet)
        blank_packet
        known_scale
      ≡ ok (
          parsed true buf'
            (record (read_back sent_packet blank_packet (packet_payload_len sent_packet.type)) {
              type = sent_packet.type;
            })
            t))
    × IsValid buf'
    × (contents buf' ≡ [])
proto_parse-proto_serialize_example =
    proto_parse-proto_serialize packet_library server_name sent_packet blank_packet known_scale
      (written packet_library sent_packet) (written packet_library sent_packet) packet_body []
      packet_library-IsPackable refl refl sent_packet-IsWritable
      (proto_serialize-ok packet_library sent_packet packet_library-IsPackable refl) written-IsValid
      (sym (append-nil (contents (written packet_library sent_packet)))) known_scale-IsOwnScale
      (record { unset = refl; silent = refl })
