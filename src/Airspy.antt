-- ===== src/Airspy.antt =====
-- adsbus/airspy_adsb.c: the text format of Airspy receivers. It is the raw format with a time stamp,
-- the unit of the time stamp and the signal strength between semicolons.
mod Overlay
pub mod Promise
use adsb_tools.Prelude.{
  ℕ, ◌+◌, ◌-◌, ◌*◌, ◌%◌, Bool, true, false, List, [], ◌∷◌, ltb, ◌==◌, ◌!=◌, ◌&&◌, ◌||◌,
  if◌then◌else◌, Run, ok, ◌>>=◌, Ssize, minus_one, size,
}
use adsb_tools.Buf.{Buf, buf_at, buf_chr, buf_store, buf_consume}
use adsb_tools.Packet.{
  Packet, PacketType, type_mode_ac, type_mode_s_short, type_mode_s_long, packet_payload_len,
  packet_mlat_timestamp_scale_in, packet_mlat_timestamp_scale_out, packet_rssi_scale_in,
  packet_rssi_scale_out, u32,
}
use adsb_tools.Hex.{hex_to_bin, hex_to_int, hex_from_bin_upper, hex_from_int_upper}
use adsb_tools.Airspy.Overlay
use adsb_tools.Parser.{ParserState, Parsed, parsed, Parser, or_else}

abbrev pub send_mhz : ℕ
send_mhz = 20

-- Where `struct airspy_adsb_overlay` lies for a payload of `bytes`, and where it ends.
abbrev pub overlay_start : ℕ → ℕ
overlay_start bytes = 1 + bytes * 2

abbrev pub total_len : ℕ → ℕ
total_len bytes = overlay_start bytes + 20

-- The first test of `airspy_adsb_parse_packet`.
unfoldable pub airspy_rejects : Buf → ℕ → Bool
airspy_rejects buf bytes =
    let at = λ (i : ℕ). buf_chr buf (overlay_start bytes + i) in
    ((ltb buf.length (total_len bytes - 1) || at Overlay.cr_lf != b'\n')
      && (ltb buf.length (total_len bytes) || at Overlay.cr_lf != b'\r' || at Overlay.lf != b'\n'))
    || buf_chr buf 0 != b'*'
    || at Overlay.semicolon1 != b';'
    || at Overlay.semicolon2 != b';'
    || at Overlay.semicolon3 != b';'
    || at Overlay.semicolon4 != b';'

-- How much of the buffer a message takes.
abbrev pub airspy_taken : Buf → ℕ → ℕ
airspy_taken buf bytes =
    if buf_chr buf (overlay_start bytes + Overlay.cr_lf) == b'\r'
    then total_len bytes
    else total_len bytes - 1

-- A result of `hex_to_int` cast to 16 and to 32 bits.
abbrev pub cast_16 : Ssize → ℕ
cast_16 minus_one = 0xffff
cast_16 (size n) = n % 0x1_0000

abbrev pub cast_32 : Ssize → ℕ
cast_32 minus_one = 0xffff_ffff
cast_32 (size n) = u32 n

-- What follows a time stamp that is a number.
unfoldable pub airspy_accept : PacketType → ℕ → ℕ → Parser
airspy_accept type mlat_mhz mlat_timestamp_in buf packet state = do
  let bytes = packet_payload_len type
  scaled ← packet_mlat_timestamp_scale_in mlat_timestamp_in 0xffff_ffff mlat_mhz state.mlat_state
  rssi ←
      packet_rssi_scale_in
        (cast_32 (hex_to_int (buf_at buf (overlay_start bytes + Overlay.rssi)) 2)) 0xffff
  let decoded = hex_to_bin packet.payload (buf_at buf 1) bytes
  let packet' : Packet = record packet {
    mlat_timestamp = scaled.0;
    rssi = rssi;
    type = type;
    payload = decoded.1;
  }
  let state' : ParserState = record state { mlat_state = scaled.1 }
  elim decoded.0 [
    | false ↦ ok (parsed false buf packet' state')
    | true ↦
        buf_consume buf (airspy_taken buf bytes) >>= λ buf'. ok (parsed true buf' packet' state')
  ]

unfoldable pub airspy_adsb_parse_packet : PacketType → Parser
airspy_adsb_parse_packet type buf packet state =
    let bytes = packet_payload_len type in
    let mlat_mhz =
      2
      * cast_16 (hex_to_int (buf_at buf (overlay_start bytes + Overlay.mlat_precision)) 1)
      % 0x1_0000 in
    if airspy_rejects buf bytes || mlat_mhz == 0
    then ok (parsed false buf packet state)
    else (elim (hex_to_int (buf_at buf (overlay_start bytes + Overlay.mlat_timestamp)) 4) [
      | minus_one ↦ ok (parsed false buf packet state)
      | size mlat_timestamp_in ↦ airspy_accept type mlat_mhz mlat_timestamp_in buf packet state
    ])

unfoldable pub airspy_adsb_parse : Parser
airspy_adsb_parse buf packet state =
    or_else
      (or_else (airspy_adsb_parse_packet type_mode_ac buf packet state)
        (airspy_adsb_parse_packet type_mode_s_short))
      (airspy_adsb_parse_packet type_mode_s_long)

unfoldable pub airspy_adsb_serialize : Packet → Buf → Run Buf
airspy_adsb_serialize packet buf = do
  let bytes = packet_payload_len packet.type
  let start = overlay_start bytes
  let b1 = buf_store buf 0 (b'*' ∷ [])
  let b2 = buf_store b1 (start + Overlay.semicolon1) (b';' ∷ [])
  let b3 = buf_store b2 (start + Overlay.semicolon2) (b';' ∷ [])
  let b4 = buf_store b3 (start + Overlay.semicolon3) (b';' ∷ [])
  let b5 = buf_store b4 (start + Overlay.semicolon4) (b';' ∷ [])
  let b6 = buf_store b5 (start + Overlay.cr_lf) (b'\r' ∷ [])
  let b7 = buf_store b6 (start + Overlay.lf) (b'\n' ∷ [])
  let b8 = buf_store b7 1 (hex_from_bin_upper packet.payload bytes)
  timestamp ← packet_mlat_timestamp_scale_out packet.mlat_timestamp 0xffff_ffff send_mhz
  digits ← hex_from_int_upper timestamp 4
  let b9 = buf_store b8 (start + Overlay.mlat_timestamp) digits
  precision ← hex_from_int_upper 10 1
  let b10 = buf_store b9 (start + Overlay.mlat_precision) precision
  rssi ← packet_rssi_scale_out packet.rssi 0xffff
  strength ← hex_from_int_upper rssi 2
  let b11 = buf_store b10 (start + Overlay.rssi) strength
  ok (record b11 { length = total_len bytes })
