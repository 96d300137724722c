-- ===== src/Json.antt =====
-- adsbus/json.c: JSON objects. The jansson library and `strcmp` are parameters. The object that
-- `json_prev` keeps only serves as memory for the packet's identifier, and is left out.
pub mod Library
pub mod Fill
pub mod Lines
pub mod Promise
pub mod Write
pub mod Text
use adsb_tools.Prelude.{
  ℕ, zero, suc, ◌+◌, ◌-◌, ◌*◌, ◌%◌, Bool, true, false, not, Option, none, some, List, [], ◌∷◌, ◌++◌,
  length, take, ltb, ◌==◌, ◌!=◌, ◌&&◌, ◌||◌, if◌then◌else◌, Run, ok, abort, ◌>>=◌, ◌>>◌, check,
}
use adsb_tools.Buf.{Buf, buf_at, buf_chr, buf_store, buf_consume, buf_len_max}
use adsb_tools.Packet.{
  Packet, PacketType, type_none, type_mode_ac, type_mode_s_short, type_mode_s_long,
  packet_payload_len, packet_validate_id, packet_mlat_timestamp_scale_in, packet_rssi_scale_in,
}
use adsb_tools.Hex.{hex_to_bin, hex_from_bin_upper}
use adsb_tools.Parser.{ParserState, Parsed, parsed, Parser, Filled, filled}
use adsb_tools.Json.Library.{ℤ, pos, negsuc, Header, Common, Value, integer, string, Jansson}

-- `val > max || val <= 0`
abbrev pub outside : ℕ → ℤ → Bool
outside max (pos n) = ltb max n || n == 0
outside max (negsuc n) = true

-- A cast to `w` values, of which there are a power of two.
abbrev pub cast : ℕ → ℤ → ℕ
cast w (pos n) = n % w
cast w (negsuc n) = w - 1 - n % w

abbrev pub magic_text : List ℕ
magic_text = b'a' ∷ b'D' ∷ b's' ∷ b'B' ∷ 0 ∷ []

-- The names of the types, as in `packet_type_names`.
abbrev pub mode_ac_text : List ℕ
mode_ac_text = b'M' ∷ b'o' ∷ b'd' ∷ b'e' ∷ b'-' ∷ b'A' ∷ b'C' ∷ 0 ∷ []

abbrev pub mode_s_short_text : List ℕ
mode_s_short_text =
    b'M' ∷ b'o' ∷ b'd' ∷ b'e' ∷ b'-' ∷ b'S' ∷ b' ' ∷ b's' ∷ b'h' ∷ b'o' ∷ b'r' ∷ b't' ∷ 0 ∷ []

abbrev pub mode_s_long_text : List ℕ
mode_s_long_text =
    b'M' ∷ b'o' ∷ b'd' ∷ b'e' ∷ b'-' ∷ b'S' ∷ b' ' ∷ b'l' ∷ b'o' ∷ b'n' ∷ b'g' ∷ 0 ∷ []

abbrev pub header_text : List ℕ
header_text = b'h' ∷ b'e' ∷ b'a' ∷ b'd' ∷ b'e' ∷ b'r' ∷ 0 ∷ []

abbrev pub mlat_timestamp_key : List ℕ
mlat_timestamp_key =
    b'm' ∷ b'l' ∷ b'a' ∷ b't' ∷ b'_' ∷ b't' ∷ b'i' ∷ b'm' ∷ b'e' ∷ b's' ∷ b't' ∷ b'a' ∷ b'm' ∷ b'p'
    ∷ 0 ∷ []

abbrev pub rssi_key : List ℕ
rssi_key = b'r' ∷ b's' ∷ b's' ∷ b'i' ∷ 0 ∷ []

abbrev pub payload_key : List ℕ
payload_key = b'p' ∷ b'a' ∷ b'y' ∷ b'l' ∷ b'o' ∷ b'a' ∷ b'd' ∷ 0 ∷ []

-- `val > state->rssi_max` on signed integers.
abbrev pub above : ℤ → ℕ → Bool
above (pos n) max = ltb max n
above (negsuc n) max = false

-- `hops < 0 || hops > UINT32_MAX`
abbrev pub hops_rejected : ℤ → Bool
hops_rejected (pos n) = ltb 0xffff_ffff n
hops_rejected (negsuc n) = true

-- The loop over the line ends behind an object; a round for each byte is enough.
unfoldable pub json_skip_lines : ℕ → Buf → Run Buf
json_skip_lines zero buf = ok buf
json_skip_lines (suc left) buf =
    let next = (buf_consume buf 1 >>= λ buf'. json_skip_lines left buf') in
    if not (buf.length == 0) && (buf_chr buf 0 == b'\r' || buf_chr buf 0 == b'\n')
    then next
    else ok buf

-- What follows a successful parser of one kind.
unfoldable pub json_taken : ℕ → Buf → Run Buf
json_taken position buf = do
  check (ltb 0 position)
  buf' ← buf_consume buf position
  json_skip_lines buf'.length buf'

module _ {J : Type 0} (lib : Jansson J) (server_id : List ℕ) where
  -- The tests of `json_parse_header`. No `json_int_t` is above the bound given for
  -- `mlat_timestamp_max`, which the code only compares with 0.
  abbrev pub header_rejected : Header → Bool
  header_rejected h =
      outside 0xffff h.mlat_timestamp_mhz
      || (outside 0xffff_ffff h.rssi_max
          || (outside 0x7fff_ffff_ffff_ffff h.mlat_timestamp_max
              || (not (lib.strcmp_equal h.magic magic_text)
                  || lib.strcmp_equal h.server_id server_id)))

  unfoldable pub json_parse_header : J → Packet → ParserState → Run Filled
  json_parse_header input packet state = elim (lib.unpack_header input) [
    | none ↦ ok (filled false packet state)
    | some h ↦
        if header_rejected h
        then ok (filled false packet state)
        else ok (
            filled true (record packet { type = type_none })
              (record state {
                mlat_timestamp_mhz = cast 0x1_0000 h.mlat_timestamp_mhz;
                mlat_timestamp_max = cast 0x1_0000_0000_0000_0000 h.mlat_timestamp_max;
                rssi_max = cast 0x1_0000_0000 h.rssi_max;
                have_header = true;
              }))
  ]

  -- The part of `json_parse_common` on the time stamp.
  unfoldable pub json_mlat : J → Packet → ParserState → Run Filled
  json_mlat input packet state = elim (lib.integer_at input mlat_timestamp_key) [
    | none ↦ ok (filled true packet state)
    | some val ↦ elim val [
      | negsuc n ↦ ok (filled false packet state)
      | pos n ↦
          packet_mlat_timestamp_scale_in n state.mlat_timestamp_max state.mlat_timestamp_mhz
            state.mlat_state
          >>= λ scaled. ok (
              filled true (record packet { mlat_timestamp = scaled.0 })
                (record state { mlat_state = scaled.1 }))
    ]
  ]

  -- The part on the signal strength.
  unfoldable pub json_rssi : J → Packet → ParserState → Run Filled
  json_rssi input packet state = elim (lib.integer_at input rssi_key) [
    | none ↦ ok (filled true packet state)
    | some val ↦
        if above val state.rssi_max
        then ok (filled false packet state)
        else packet_rssi_scale_in (cast 0x1_0000_0000 val) state.rssi_max >>= λ rssi.
            ok (filled true (record packet { rssi = rssi }) state)
  ]

  unfoldable pub json_parse_common : J → Packet → ParserState → Run Filled
  json_parse_common input packet state =
      if not state.have_header
      then ok (filled false packet state)
      else (elim (lib.unpack_common input) [
        | none ↦ ok (filled false packet state)
        | some c ↦
            let named = record packet { source_id = some c.source_id } in
            if not (packet_validate_id (some c.source_id)) || hops_rejected c.hops
            then ok (filled false named state)
            else json_mlat input (record named { hops = cast 0x1_0000 c.hops }) state >>= λ r.
                if r.found then json_rssi input r.packet r.state else ok r
      ])

  -- The part of `json_parse_payload` behind the common part.
  unfoldable pub json_decode : PacketType → J → Packet → ParserState → Run Filled
  json_decode type input packet state =
      let bytes = packet_payload_len type in
      elim (lib.string_at input payload_key) [
        | none ↦ ok (filled false packet state)
        | some s ↦
            let decoded = hex_to_bin packet.payload s.1 bytes in
            if s.0 != bytes * 2
            then ok (filled false packet state)
            else if decoded.0
            then ok (filled true (record packet { payload = decoded.1; type = type }) state)
            else ok (filled false (record packet { payload = decoded.1 }) state)
      ]

  unfoldable pub json_parse_payload : PacketType → J → Packet → ParserState → Run Filled
  json_parse_payload type input packet state = json_parse_common input packet state >>= λ r.
      if r.found then json_decode type input r.packet r.state else ok r

  -- The choice by the value of `type`.
  unfoldable pub json_parse_by : List ℕ → J → Packet → ParserState → Run Filled
  json_parse_by type_str input packet state =
      if lib.strcmp_equal type_str header_text
      then json_parse_header input packet state
      else if lib.strcmp_equal type_str mode_ac_text
      then json_parse_payload type_mode_ac input packet state
      else if lib.strcmp_equal type_str mode_s_short_text
      then json_parse_payload type_mode_s_short input packet state
      else if lib.strcmp_equal type_str mode_s_long_text
      then json_parse_payload type_mode_s_long input packet state
      else ok (filled false packet state)

  unfoldable pub json_parse : Parser
  json_parse buf packet state = elim (lib.loadb (take buf.length (buf_at buf 0))) [
    | none ↦ ok (parsed false buf packet state)
    | some (input, position) ↦ elim (lib.type_of input) [
      | none ↦ ok (parsed false buf packet state)
      | some type_str ↦ json_parse_by type_str input packet state >>= λ r.
          if not r.found
          then ok (parsed false buf r.packet r.state)
          else json_taken position buf >>= λ buf'. ok (parsed true buf' r.packet r.state)
    ]
  ]
