-- ===== src/Beast.antt =====
-- adsbus/beast.c: the binary Beast format, with 0x1a doubled behind the first byte.
pub mod Escape
pub mod Mlat
pub mod Frame
pub mod RoundTrip
pub mod Promise
use adsb_tools.Prelude.{
  ℕ, zero, suc, ◌+◌, ◌-◌, ◌*◌, ◌/◌, ◌%◌, ◌^◌, Bool, true, false, List, [], ◌∷◌, take, store, ltb,
  ◌==◌, ◌!=◌, ◌&&◌, ◌||◌, if◌then◌else◌, Run, ok, ◌>>=◌, Ssize, minus_one, size, bit_and, bit_or,
  get_or,
}
use adsb_tools.Buf.{Buf, buf_at, buf_chr, buf_store, buf_consume, buf_zero}
use adsb_tools.Packet.{
  Packet, PacketType, type_none, type_mode_ac, type_mode_s_short, type_mode_s_long,
  packet_payload_len, packet_mlat_timestamp_scale_in, packet_mlat_timestamp_scale_out,
  packet_rssi_scale_in, packet_rssi_scale_out,
}
use adsb_tools.Parser.{ParserState, Parsed, parsed, Parser}

-- `sizeof(struct beast_overlay)`: two bytes, six of time stamp and one of signal strength.
abbrev pub overlay_len : ℕ
overlay_len = 9

abbrev pub beast_mlat_mhz : ℕ
beast_mlat_mhz = 12

abbrev pub beast_mlat_max : ℕ
beast_mlat_max = 0xffff_ffff_ffff

unfoldable pub beast_parse_mlat : List ℕ → ℕ
beast_parse_mlat m =
    let at = λ (i : ℕ). get_or m i 0 in
    bit_or
      (bit_or
        (bit_or (bit_or (bit_or (at 0 * 2 ^ 40) (at 1 * 2 ^ 32)) (at 2 * 2 ^ 24)) (at 3 * 2 ^ 16))
        (at 4 * 2 ^ 8))
      (at 5)

unfoldable pub beast_write_mlat : ℕ → List ℕ
beast_write_mlat timestamp =
    bit_and (timestamp / 2 ^ 40) 0xff
    ∷ bit_and (timestamp / 2 ^ 32) 0xff
    ∷ bit_and (timestamp / 2 ^ 24) 0xff
    ∷ bit_and (timestamp / 2 ^ 16) 0xff
    ∷ bit_and (timestamp / 2 ^ 8) 0xff
    ∷ bit_and timestamp 0xff
    ∷ []

-- A byte that stands doubled.
abbrev pub is_escape : Buf → ℕ → Bool
is_escape input i = ltb 0 i && buf_chr input i == 0x1a

-- The loop of `beast_unescape`. Each round takes a byte of the input at least, so that as many rounds
-- as it has bytes are enough.
unfoldable pub beast_unescape_loop : ℕ → ℕ → ℕ → Buf → Buf → ℕ → Ssize × Buf
beast_unescape_loop zero i o out input out_bytes =
    (if o == out_bytes then size i else minus_one, out)
beast_unescape_loop (suc fuel) i o out input out_bytes =
    let plain =
      beast_unescape_loop fuel (i + 1) (o + 1) (buf_store out o (buf_chr input i ∷ [])) input
        out_bytes in
    let escaped =
      beast_unescape_loop fuel (i + 2) (o + 1) (buf_store out o (buf_chr input (i + 1) ∷ [])) input
        out_bytes in
    if ltb i input.length && ltb o out_bytes
    then (if is_escape input i
        then (if i == input.length - 1 || buf_chr input (i + 1) != 0x1a
            then (minus_one, out)
            else escaped)
        else plain)
    else (if o == out_bytes then size i else minus_one, out)

unfoldable pub beast_unescape : Buf → Buf → ℕ → Ssize × Buf
beast_unescape out input out_bytes = beast_unescape_loop input.length 0 0 out input out_bytes

abbrev pub append_byte : Buf → ℕ → Buf
append_byte out b =
    let new = buf_store out out.length (b ∷ []) in record new { length = out.length + 1 }

unfoldable pub beast_escape_loop : ℕ → ℕ → Buf → Buf → Buf
beast_escape_loop zero i out input = out
beast_escape_loop (suc left) i out input =
    let copied = append_byte out (buf_chr input i) in
    beast_escape_loop left (i + 1) (if is_escape input i then append_byte copied 0x1a else copied)
      input

unfoldable pub beast_escape : Buf → Buf → Buf
beast_escape out input = beast_escape_loop input.length 0 out input

-- What follows a successful unescape of `in_bytes` bytes into `buf2`.
unfoldable pub beast_accept : PacketType → ℕ → Buf → Parser
beast_accept type in_bytes buf2 buf packet state = do
  let bytes = packet_payload_len type
  let source_mlat = beast_parse_mlat (buf_at buf2 2)
  scaled ← packet_mlat_timestamp_scale_in source_mlat beast_mlat_max beast_mlat_mhz state.mlat_state
  rssi ← packet_rssi_scale_in (buf_chr buf2 8) 255
  buf' ← buf_consume buf in_bytes
  ok (
      parsed true buf'
        (record packet {
          type = type;
          mlat_timestamp = scaled.0;
          rssi = rssi;
          payload = store packet.payload 0 (take bytes (buf_at buf2 overlay_len));
        })
        (record state { mlat_state = scaled.1 }))

unfoldable pub beast_parse_packet : PacketType → Parser
beast_parse_packet type buf packet state =
    let (in_bytes, buf2) = beast_unescape buf_zero buf (overlay_len + packet_payload_len type) in
    elim in_bytes [
      | minus_one ↦ ok (parsed false buf packet state)
      | size n ↦ beast_accept type n buf2 buf packet state
    ]

unfoldable pub beast_parse : Parser
beast_parse buf packet state =
    let kind = buf_chr buf 1 in
    if ltb buf.length overlay_len || buf_chr buf 0 != 0x1a
    then ok (parsed false buf packet state)
    else if kind == 0x31
    then beast_parse_packet type_mode_ac buf packet state
    else if kind == 0x32
    then beast_parse_packet type_mode_s_short buf packet state
    else if kind == 0x33
    then beast_parse_packet type_mode_s_long buf packet state
    else ok (parsed false buf packet state)

-- The signal strength of a message: full scale where the packet has none.
unfoldable pub beast_rssi : Packet → Run ℕ
beast_rssi packet =
    if packet.rssi != 0
    then (packet_rssi_scale_out packet.rssi 255 >>= λ r. ok (r % 256))
    else ok 255

unfoldable pub beast_serialize_packet : Packet → Buf → ℕ → Run Buf
beast_serialize_packet packet buf beast_type = do
  let bytes = packet_payload_len packet.type
  let b1 = buf_store (buf_store buf_zero 0 (0x1a ∷ [])) 1 (beast_type ∷ [])
  let b2 = buf_store b1 overlay_len (take bytes packet.payload)
  timestamp ← packet_mlat_timestamp_scale_out packet.mlat_timestamp beast_mlat_max beast_mlat_mhz
  let b3 = buf_store b2 2 (beast_write_mlat timestamp)
  rssi ← beast_rssi packet
  let b4 = buf_store b3 8 (rssi ∷ [])
  ok (beast_escape buf (record b4 { length = overlay_len + bytes }))

abbrev pub beast_serialize_by : PacketType → Packet → Buf → Run Buf
beast_serialize_by type_none packet buf = ok buf
beast_serialize_by type_mode_ac packet buf = beast_serialize_packet packet buf 0x31
beast_serialize_by type_mode_s_short packet buf = beast_serialize_packet packet buf 0x32
beast_serialize_by type_mode_s_long packet buf = beast_serialize_packet packet buf 0x33

unfoldable pub beast_serialize : Packet → Buf → Run Buf
unfolding beast_serialize_packet
beast_serialize packet buf = beast_serialize_by packet.type packet buf
