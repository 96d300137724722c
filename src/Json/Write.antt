-- ===== src/Json/Write.antt =====
-- adsbus/json.c: the writing of objects, through the callback by which the library delivers text.
use adsb_tools.Prelude.{
  ℕ, ◌+◌, ◌%◌, Option, none, some, List, [], ◌∷◌, ◌++◌, length, ltb, ◌==◌, if◌then◌else◌, Run, ok,
  abort,
}
use adsb_tools.Buf.{Buf, buf_zero, buf_store, buf_len_max}
use adsb_tools.Packet.{
  Packet, PacketType, type_none, type_mode_ac, type_mode_s_short, type_mode_s_long,
  packet_payload_len, packet_mlat_mhz, packet_mlat_max, packet_rssi_max,
}
use adsb_tools.Hex.{hex_from_bin_upper}
use adsb_tools.Json.Library.{Value, integer, string, text, nothing, Writer}
use adsb_tools.Json.{
  magic_text, header_text, mode_ac_text, mode_s_short_text, mode_s_long_text, mlat_timestamp_key,
  rssi_key, payload_key,
}

-- The members of an object, in the order in which they are set.
abbrev pub Object : Type 0
Object = List (List ℕ × Value)

abbrev pub hops_key : List ℕ
hops_key = b'h' ∷ b'o' ∷ b'p' ∷ b's' ∷ 0 ∷ []

abbrev pub type_key : List ℕ
type_key = b't' ∷ b'y' ∷ b'p' ∷ b'e' ∷ 0 ∷ []

abbrev pub source_id_key : List ℕ
source_id_key = b's' ∷ b'o' ∷ b'u' ∷ b'r' ∷ b'c' ∷ b'e' ∷ b'_' ∷ b'i' ∷ b'd' ∷ 0 ∷ []

abbrev pub magic_key : List ℕ
magic_key = b'm' ∷ b'a' ∷ b'g' ∷ b'i' ∷ b'c' ∷ 0 ∷ []

abbrev pub server_version_key : List ℕ
server_version_key =
    b's' ∷ b'e' ∷ b'r' ∷ b'v' ∷ b'e' ∷ b'r' ∷ b'_' ∷ b'v' ∷ b'e' ∷ b'r' ∷ b's' ∷ b'i' ∷ b'o' ∷ b'n'
    ∷ 0 ∷ []

abbrev pub server_id_key : List ℕ
server_id_key = b's' ∷ b'e' ∷ b'r' ∷ b'v' ∷ b'e' ∷ b'r' ∷ b'_' ∷ b'i' ∷ b'd' ∷ 0 ∷ []

abbrev pub mlat_timestamp_mhz_key : List ℕ
mlat_timestamp_mhz_key =
    b'm' ∷ b'l' ∷ b'a' ∷ b't' ∷ b'_' ∷ b't' ∷ b'i' ∷ b'm' ∷ b'e' ∷ b's' ∷ b't' ∷ b'a' ∷ b'm' ∷ b'p'
    ∷ b'_' ∷ b'm' ∷ b'h' ∷ b'z' ∷ 0 ∷ []

abbrev pub mlat_timestamp_max_key : List ℕ
mlat_timestamp_max_key =
    b'm' ∷ b'l' ∷ b'a' ∷ b't' ∷ b'_' ∷ b't' ∷ b'i' ∷ b'm' ∷ b'e' ∷ b's' ∷ b't' ∷ b'a' ∷ b'm' ∷ b'p'
    ∷ b'_' ∷ b'm' ∷ b'a' ∷ b'x' ∷ 0 ∷ []

abbrev pub rssi_max_key : List ℕ
rssi_max_key = b'r' ∷ b's' ∷ b's' ∷ b'i' ∷ b'_' ∷ b'm' ∷ b'a' ∷ b'x' ∷ 0 ∷ []

abbrev pub invalid_text : List ℕ
invalid_text = b'I' ∷ b'N' ∷ b'V' ∷ b'A' ∷ b'L' ∷ b'I' ∷ b'D' ∷ 0 ∷ []

-- `packet_type_names`
abbrev pub packet_type_name : PacketType → List ℕ
packet_type_name type_none = invalid_text
packet_type_name type_mode_ac = mode_ac_text
packet_type_name type_mode_s_short = mode_s_short_text
packet_type_name type_mode_s_long = mode_s_long_text

-- A string that a pointer leads to; there is none at NULL.
abbrev pub string_of : Option (List ℕ) → Value
string_of none = nothing
string_of (some s) = string s

-- `json_object_set_new` with a new key: nothing is set without a value.
abbrev pub object_set : List ℕ → Value → Object → Object
object_set key nothing obj = obj
object_set key value obj = obj ++ ((key, value) ∷ [])

-- What the callback does: -1, which ends the writing, or the buffer with the text; `overrun` is a
-- `memcpy` that goes beyond the array.
pub data Appended : Type 0 where
  refused overrun : Appended
  appended : Buf → Appended

-- `memcpy(buf_at(buf, buf->length), …)`, and the new length.
unfoldable pub copy_behind : List ℕ → Buf → Appended
copy_behind piece buf =
    if ltb buf_len_max (buf.start + buf.length + length piece)
    then overrun
    else appended (record (buf_store buf buf.length piece) { length = buf.length + length piece })

unfoldable pub json_buf_append_callback : List ℕ → Buf → Appended
json_buf_append_callback piece buf =
    if ltb buf_len_max (buf.length + length piece + 1) then refused else copy_behind piece buf

-- `json_dump_callback` with the pieces in which the library delivers the text.
unfoldable pub append_each : List (List ℕ) → Buf → Appended
append_each [] buf = appended buf
append_each (piece ∷ pieces) buf = elim (json_buf_append_callback piece buf) [
  | refused ↦ refused
  | overrun ↦ overrun
  | appended buf' ↦ append_each pieces buf'
]

-- The line end behind the text, in the buffer that `json_dump_callback` filled.
unfoldable pub with_line_end : Appended → Appended
with_line_end refused = refused
with_line_end overrun = overrun
with_line_end (appended buf) = copy_behind (b'\n' ∷ []) buf

-- The `assert` on the result of `json_dump_callback`. A process that has written beyond the array
-- is not followed any further.
unfoldable pub end_line : Appended → Run Buf
end_line refused = abort
end_line overrun = abort
end_line (appended buf) = ok buf

unfoldable pub json_add_common : Packet → Object → Object
json_add_common packet obj =
    let obj1 = object_set hops_key (integer packet.hops) obj in
    let obj2 = object_set type_key (string (packet_type_name packet.type)) obj1 in
    let obj3 = object_set source_id_key (string_of packet.source_id) obj2 in
    let obj4 =
      if packet.mlat_timestamp == 0
      then obj3
      else object_set mlat_timestamp_key (integer (packet.mlat_timestamp % 0x7fff_ffff_ffff_ffff))
          obj3 in
    if packet.rssi == 0 then obj4 else object_set rssi_key (integer packet.rssi) obj4

-- The object of a message.
unfoldable pub payload_object : Packet → Object
payload_object packet =
    let bytes = packet_payload_len packet.type in
    let hexbuf = hex_from_bin_upper packet.payload bytes in
    json_add_common packet ((payload_key, text hexbuf) ∷ [])

module _ (writer : Writer) where
  unfoldable pub json_serialize_to_buf : Object → Buf → Run Buf
  json_serialize_to_buf obj buf = end_line (with_line_end (append_each (writer.dump obj) buf))

  unfoldable pub json_serialize_payload : Packet → Buf → Run Buf
  json_serialize_payload packet buf = json_serialize_to_buf (payload_object packet) buf

  -- The choice by the type of the packet.
  unfoldable pub json_serialize_by : PacketType → Packet → Buf → Run Buf
  json_serialize_by type_none packet buf = ok buf
  json_serialize_by type_mode_ac packet buf = json_serialize_payload packet buf
  json_serialize_by type_mode_s_short packet buf = json_serialize_payload packet buf
  json_serialize_by type_mode_s_long packet buf = json_serialize_payload packet buf

  unfoldable pub json_serialize : Packet → Buf → Run Buf
  json_serialize packet buf = json_serialize_by packet.type packet buf

  -- `json_init`, by what it leaves in `json_hello_buf`, where `json_hello` points to.
  unfoldable pub json_init : List ℕ → List ℕ → Run Buf
  json_init server_version server_id =
      json_serialize_to_buf
        ((type_key, string header_text)
          ∷ (magic_key, string magic_text)
          ∷ (server_version_key, string server_version)
          ∷ (server_id_key, string server_id)
          ∷ (mlat_timestamp_mhz_key, integer packet_mlat_mhz)
          ∷ (mlat_timestamp_max_key, integer packet_mlat_max)
          ∷ (rssi_max_key, integer packet_rssi_max)
          ∷ [])
        buf_zero
