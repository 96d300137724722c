-- ===== src/Tests/Formats.antt =====
-- The formats of adsbus/raw.c, beast.c, airspy_adsb.c and json.c at fixed inputs.
use adsb_tools.Prelude.{
  ◌==◌, ◌&&◌, Bool, false, none, Option, ◌<◌, ◌≤◌, ℕ, ◌≡◌, refl, ap, sym, ◌%◌, ◌^◌, ◌-◌, true, some,
  List, [], ◌∷◌, ◌++◌, length, take, store, replicate, ok, arith, size, All,
}
use adsb_tools.Buf.{Buf, buf_zero, buf_store}
use adsb_tools.Buf.Window.{IsValid, contents}
use adsb_tools.Packet.{Packet, type_mode_s_short, packet_payload_len}
use adsb_tools.Parser.{parsed}
use adsb_tools.Parser.Laws.{IsServed, IsSound}
use adsb_tools.Receive.{fresh_receive, fresh_packet}
use adsb_tools.Hex.{hex_from_bin_upper}
use adsb_tools.Hex.RoundTrip.{IsByte}
use adsb_tools.Airspy.{airspy_adsb_parse}
use adsb_tools.Airspy.Promise.{airspy_adsb_parse-IsSound}
use adsb_tools.Json.{json_parse, header_text, magic_text}
use adsb_tools.Json.Library.{pos, Jansson}
use adsb_tools.Json.Promise.{json_parse-IsServed}
use adsb_tools.Raw.{raw_parse, raw_serialize}
use adsb_tools.Raw.Wire.{raw_text, raw_serialize-contents}
use adsb_tools.Raw.RoundTrip.{raw_parse-raw_serialize}
use adsb_tools.Raw.Promise.{raw_parse-IsSound}
use adsb_tools.Beast.{
  beast_parse, beast_serialize, beast_parse_mlat, beast_write_mlat, beast_unescape, beast_escape,
}
use adsb_tools.Beast.Mlat.{beast_parse_mlat-beast_write_mlat}
use adsb_tools.Beast.Escape.{escaped, appended, beast_escape-escaped, beast_unescape-escaped}
use adsb_tools.Beast.Frame.{sent}
use adsb_tools.Beast.RoundTrip.{beast_text, beast_parse-beast_serialize}
use adsb_tools.Beast.Promise.{beast_parse-IsSound}
use adsb_tools.Tests.Connections.{
  new_connection, zeros-IsValid, new_state-IsReady, new_packet-IsWellFormed,
}

-- A short message with an escape byte in it.
abbrev pub short_message : Packet
short_message = record {
  source_id = some (b'n' ∷ 0 ∷ []);
  input_stat = record { st_dev = 1; st_ino = 2 };
  type = type_mode_s_short;
  hops = 0;
  payload = 0x5d ∷ 0x1a ∷ 0xb3 ∷ 4 ∷ 5 ∷ 6 ∷ 7 ∷ replicate 7 0;
  mlat_timestamp = 12340;
  rssi = 3368601800;
}

abbrev line : List ℕ
line =
    b'*' ∷ b'5' ∷ b'D' ∷ b'1' ∷ b'A' ∷ b'B' ∷ b'3' ∷ b'0' ∷ b'4' ∷ b'0' ∷ b'5' ∷ b'0' ∷ b'6' ∷ b'0'
    ∷ b'7' ∷ b';' ∷ b'\n' ∷ []

abbrev pub filled_with : List ℕ → Buf
filled_with xs = record {
  bytes = xs ++ replicate (256 - length xs) 0;
  start = 0;
  length = length xs;
}

line-IsValid : IsValid (filled_with (line ++ b'*' ∷ []))
line-IsValid = record { whole = refl; inside = omega arith }

writes_line : raw_text short_message ≡ line
unfolding hex_from_bin_upper packet_payload_len
writes_line = refl

payload_bytes : All IsByte short_message.payload
payload_bytes = (
  omega arith,
  (
    omega arith,
    (
      omega arith,
      (
        omega arith,
        (
          omega arith,
          (
            omega arith,
            (
              omega arith,
              (
                omega arith,
                (
                  omega arith,
                  (omega arith, (omega arith, (omega arith, (omega arith, (omega arith, tt))))),
                ),
              ),
            ),
          ),
        ),
      ),
    ),
  ),
)

abbrev frame_bytes : List ℕ
frame_bytes =
    0x1a ∷ 0x32 ∷ 0 ∷ 0 ∷ 0 ∷ 0 ∷ 4 ∷ 0xd2 ∷ 200 ∷ 0x5d ∷ 0x1a ∷ 0x1a ∷ 0xb3 ∷ 4 ∷ 5 ∷ 6 ∷ 7 ∷ []

frame-IsValid : IsValid (filled_with frame_bytes)
frame-IsValid = record { whole = refl; inside = omega arith }

raw_serialize-contents_example :
    IsValid (raw_serialize short_message buf_zero)
    × (contents (raw_serialize short_message buf_zero) ≡ raw_text short_message)
unfolding buf_zero
raw_serialize-contents_example =
    raw_serialize-contents short_message buf_zero zeros-IsValid (omega arith) refl

raw_parse-raw_serialize_example :
    (buf' : Buf) × (raw_parse
        (filled_with (line ++ b'*' ∷ []))
        (fresh_packet new_connection)
        new_connection.parser_state
      ≡ ok (
          parsed true buf'
            (record (fresh_packet new_connection) {
              type = type_mode_s_short;
              payload =
                  store
                    (replicate 14 0)
                    0
                    (take (packet_payload_len type_mode_s_short) short_message.payload);
            })
            new_connection.parser_state))
    × IsValid buf'
    × (contents buf' ≡ b'*' ∷ [])
unfolding buf_zero hex_from_bin_upper packet_payload_len
raw_parse-raw_serialize_example =
    raw_parse-raw_serialize short_message buf_zero (filled_with (line ++ b'*' ∷ [])) (b'*' ∷ [])
      (fresh_packet new_connection) new_connection.parser_state refl refl payload_bytes
      zeros-IsValid (omega arith) line-IsValid
      (ap (λ (l : List ℕ). l ++ b'*' ∷ [])
        (sym (raw_serialize-contents short_message buf_zero zeros-IsValid (omega arith) refl).1))

raw_parse-IsSound_example :
    IsSound
      (filled_with line)
      (fresh_packet new_connection)
      (raw_parse (filled_with line) (fresh_packet new_connection) new_connection.parser_state)
raw_parse-IsSound_example =
    raw_parse-IsSound (filled_with line) (fresh_packet new_connection) new_connection.parser_state
      (record { whole = refl; inside = omega arith }) (omega arith) new_packet-IsWellFormed
      new_state-IsReady

beast_parse-IsSound_example : IsSound (filled_with frame_bytes) (fresh_packet new_connection) (
    beast_parse (filled_with frame_bytes) (fresh_packet new_connection) new_connection.parser_state)
beast_parse-IsSound_example =
    beast_parse-IsSound (filled_with frame_bytes) (fresh_packet new_connection)
      new_connection.parser_state frame-IsValid (omega arith) new_packet-IsWellFormed
      new_state-IsReady

beast_parse_mlat-beast_write_mlat_example :
    beast_parse_mlat (beast_write_mlat 0x123456789abc ++ 7 ∷ []) ≡ 0x123456789abc % 2 ^ 48
beast_parse_mlat-beast_write_mlat_example =
    beast_parse_mlat-beast_write_mlat 0x123456789abc (7 ∷ [])

beast_escape-escaped_example :
    beast_escape buf_zero (filled_with (0x1a ∷ 5 ∷ 0x1a ∷ []))
    ≡ appended buf_zero (escaped (contents (filled_with (0x1a ∷ 5 ∷ 0x1a ∷ []))))
beast_escape-escaped_example =
    beast_escape-escaped buf_zero (filled_with (0x1a ∷ 5 ∷ 0x1a ∷ []))
      (record { whole = refl; inside = omega arith })

beast_unescape-escaped_example :
    beast_unescape buf_zero (filled_with (0x1a ∷ 5 ∷ 0x1a ∷ 0x1a ∷ 9 ∷ [])) 3
    ≡ (size 4, buf_store buf_zero 0 (0x1a ∷ 5 ∷ 0x1a ∷ []))
beast_unescape-escaped_example =
    beast_unescape-escaped 0x1a (5 ∷ 0x1a ∷ []) (9 ∷ []) buf_zero
      (filled_with (0x1a ∷ 5 ∷ 0x1a ∷ 0x1a ∷ 9 ∷ []))
      (record { whole = refl; inside = omega arith }) refl

beast_parse-beast_serialize_example :
    (out' : Buf) × (buf' : Buf) × (beast_serialize short_message buf_zero ≡ ok out')
    × IsValid out'
    × (contents out' ≡ contents buf_zero ++ beast_text short_message 1234 200)
    × (beast_parse
          (filled_with frame_bytes)
          (fresh_packet new_connection)
          new_connection.parser_state
        ≡ ok (
            parsed true buf'
              (record (fresh_packet new_connection) {
                type = type_mode_s_short;
                mlat_timestamp = 12340;
                rssi = 3368601800;
                payload = store (replicate 14 0) 0 (sent short_message);
              })
              (record new_connection.parser_state {
                mlat_state = record { timestamp_last = 1234; timestamp_generation = 0 };
              })))
    × IsValid buf'
    × (contents buf' ≡ [])
unfolding buf_zero beast_write_mlat packet_payload_len fresh_receive
beast_parse-beast_serialize_example =
    beast_parse-beast_serialize short_message buf_zero (filled_with frame_bytes) []
      (fresh_packet new_connection) new_connection.parser_state 1234 200 refl refl (omega arith)
      (omega arith) (omega arith) (omega arith) (omega arith) zeros-IsValid (omega arith)
      frame-IsValid refl (omega arith) refl

-- A library to which every text is one header.
abbrev pub same_text : List ℕ → List ℕ → Bool
same_text [] [] = true
same_text [] (y ∷ ys) = false
same_text (x ∷ xs) [] = false
same_text (x ∷ xs) (y ∷ ys) = (x == y) && same_text xs ys

abbrev pub server_name : List ℕ
server_name = b'm' ∷ b'e' ∷ 0 ∷ []

abbrev pub first_byte : List ℕ → Option (Unit {0} × ℕ)
first_byte [] = none
first_byte (x ∷ xs) = some (tt, 1)

abbrev pub one_header : Jansson (Unit {0})
one_header = record {
  loadb = first_byte;
  type_of = λ j. some header_text;
  unpack_header = λ j. some (record {
    magic = magic_text;
    server_id = b'y' ∷ b'o' ∷ b'u' ∷ 0 ∷ [];
    mlat_timestamp_mhz = pos 12;
    mlat_timestamp_max = pos 1000;
    rssi_max = pos 255;
  });
  unpack_common = λ j. none;
  integer_at = λ j key. none;
  string_at = λ j key. none;
  strcmp_equal = same_text;
}

pub one_header-ReportsEnd :
    (text : List ℕ) (input : Unit {0}) (n : ℕ)
    → first_byte text ≡ some (input, n)
    → (0 < n) × (n ≤ length text)
one_header-ReportsEnd [] input n h = cc
one_header-ReportsEnd (x ∷ xs) input n h = let e : n ≡ 1 = cc in (omega arith, omega arith)

json_parse-IsServed_example :
    IsServed (filled_with (b'{' ∷ b'\n' ∷ [])) (fresh_packet new_connection) (
      json_parse one_header server_name
        (filled_with (b'{' ∷ b'\n' ∷ []))
        (fresh_packet new_connection)
        new_connection.parser_state)
json_parse-IsServed_example =
    json_parse-IsServed one_header server_name one_header-ReportsEnd
      (filled_with (b'{' ∷ b'\n' ∷ [])) (fresh_packet new_connection) new_connection.parser_state
      (record { whole = refl; inside = omega arith }) (omega arith) new_packet-IsWellFormed
      new_state-IsReady

abbrev airspy_line : List ℕ
airspy_line =
    b'*' ∷ b'7' ∷ b'1' ∷ b'0' ∷ b'8' ∷ b';' ∷ b'0' ∷ b'0' ∷ b'0' ∷ b'0' ∷ b'0' ∷ b'4' ∷ b'D' ∷ b'2'
    ∷ b';' ∷ b'0' ∷ b'A' ∷ b';' ∷ b'0' ∷ b'F' ∷ b'F' ∷ b'F' ∷ b';' ∷ b'\r' ∷ b'\n' ∷ []

airspy_adsb_parse-IsSound_example :
    IsSound (filled_with airspy_line) (fresh_packet new_connection) (
      airspy_adsb_parse
        (filled_with airspy_line)
        (fresh_packet new_connection)
        new_connection.parser_state)
airspy_adsb_parse-IsSound_example =
    airspy_adsb_parse-IsSound (filled_with airspy_line) (fresh_packet new_connection)
      new_connection.parser_state (record { whole = refl; inside = omega arith }) (omega arith)
      new_packet-IsWellFormed new_state-IsReady
