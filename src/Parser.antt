-- ===== src/Parser.antt =====
-- The interface of the parsers in adsbus/receive.c: what each takes and returns, the state bytes
-- that a connection keeps for them, and what a client may rely on.
pub mod Laws
pub mod Fill
use adsb_tools.Prelude.{
  ℕ, ◌≤◌, ◌<◌, ◌≡◌, refl, Bool, true, false, List, length, Run, ok, abort, ◌>>=◌,
}
use adsb_tools.Buf.{Buf}
use adsb_tools.Buf.Window.{IsValid}
use adsb_tools.Packet.{
  Packet, MlatState, packet_validate_id, packet_mlat_max, packet_rssi_max, packet_payload_len_max,
  is_message,
}

-- `parser_state` of a connection. The structures that the parsers see in these bytes,
-- `json_parser_state` and `proto_parser_state`, have the same members at the same places, and
-- `beast_parser_state` and `airspy_adsb_parser_state` are their first member.
pub record ParserState : Type 0 where
  pub mlat_state : MlatState
  pub mlat_timestamp_mhz : ℕ
  pub mlat_timestamp_max : ℕ
  pub rssi_max : ℕ
  pub have_header : Bool

-- The returned Boolean, and the arguments that a parser writes through.
pub record Parsed : Type 0 where
  pub found : Bool
  pub buf : Buf
  pub packet : Packet
  pub state : ParserState

abbrev pub Parser : Type 0
Parser = Buf → Packet → ParserState → Run Parsed

abbrev pub parsed : Bool → Buf → Packet → ParserState → Parsed
parsed found buf packet state = record { found = found; buf = buf; packet = packet; state = state }

-- `first || next` on parsers: the second sees what the first has written.
abbrev pub or_else : Run Parsed → Parser → Run Parsed
or_else first next =
    first >>= λ r. elim r.found [ true ↦ ok r | false ↦ next r.buf r.packet r.state ]

-- What a parser of one kind of message leaves.
pub record Filled : Type 0 where
  pub found : Bool
  pub packet : Packet
  pub state : ParserState

abbrev pub filled : Bool → Packet → ParserState → Filled
filled found packet state = record { found = found; packet = packet; state = state }
