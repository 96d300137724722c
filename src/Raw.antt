-- ===== src/Raw.antt =====
-- adsbus/raw.c: the raw text format, `*` payload `;` and a line end.
pub mod Wire
pub mod RoundTrip
pub mod Promise
use adsb_tools.Prelude.{
  ℕ, ◌+◌, ◌-◌, ◌*◌, Bool, true, false, List, [], ◌∷◌, ltb, ◌==◌, ◌!=◌, ◌&&◌, ◌||◌, if◌then◌else◌,
  Run, ok, ◌>>=◌,
}
use adsb_tools.Buf.{Buf, buf_at, buf_chr, buf_store, buf_consume}
use adsb_tools.Packet.{
  Packet, PacketType, type_mode_ac, type_mode_s_short, type_mode_s_long, packet_payload_len,
}
use adsb_tools.Hex.{hex_to_bin, hex_from_bin_upper}
use adsb_tools.Parser.{ParserState, Parsed, parsed, Parser, or_else}

-- Where `struct raw_overlay` lies for a payload of `bytes`, and where it ends.
abbrev pub overlay_start : ℕ → ℕ
overlay_start bytes = 1 + bytes * 2

abbrev pub total_len : ℕ → ℕ
total_len bytes = overlay_start bytes + 3

-- The test of `raw_parse_packet` for what stands around a payload of `bytes`.
unfoldable pub raw_rejects : Buf → ℕ → Bool
raw_rejects buf bytes =
    let semicolon = buf_chr buf (overlay_start bytes) in
    let cr_lf = buf_chr buf (overlay_start bytes + 1) in
    let lf = buf_chr buf (overlay_start bytes + 2) in
    ((ltb buf.length (total_len bytes - 1) || cr_lf != b'\n')
      && (ltb buf.length (total_len bytes) || cr_lf != b'\r' || lf != b'\n'))
    || buf_chr buf 0 != b'*'
    || semicolon != b';'

-- How much of the buffer a message takes: the line end may be one byte or two.
abbrev pub raw_taken : Buf → ℕ → ℕ
raw_taken buf bytes =
    if buf_chr buf (overlay_start bytes + 1) == b'\r' then total_len bytes else total_len bytes - 1

-- What follows the test.
unfoldable pub raw_accept : PacketType → Parser
raw_accept type buf packet state =
    let bytes = packet_payload_len type in
    let (good, payload) = hex_to_bin packet.payload (buf_at buf 1) bytes in
    elim good [
      | false ↦ ok (parsed false buf (record packet { payload = payload }) state)
      | true ↦ buf_consume buf (raw_taken buf bytes) >>= λ buf'.
          ok (parsed true buf' (record packet { type = type; payload = payload }) state)
    ]

unfoldable pub raw_parse_packet : PacketType → Parser
unfolding raw_rejects raw_accept
raw_parse_packet type buf packet state =
    if raw_rejects buf (packet_payload_len type)
    then ok (parsed false buf packet state)
    else raw_accept type buf packet state

unfoldable pub raw_parse : Parser
raw_parse buf packet state =
    or_else
      (or_else (raw_parse_packet type_mode_ac buf packet state)
        (raw_parse_packet type_mode_s_short))
      (raw_parse_packet type_mode_s_long)

unfoldable pub raw_serialize : Packet → Buf → Buf
raw_serialize packet buf =
    let bytes = packet_payload_len packet.type in
    let start = overlay_start bytes in
    let b1 = buf_store buf 0 (b'*' ∷ []) in
    let b2 = buf_store b1 start (b';' ∷ []) in
    let b3 = buf_store b2 (start + 1) (b'\n' ∷ []) in
    let b4 = buf_store b3 1 (hex_from_bin_upper packet.payload bytes) in
    record b4 { length = total_len bytes - 1 }
