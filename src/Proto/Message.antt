-- ===== src/Proto/Message.antt =====
-- adsbus/adsb.pb-c.h: the messages of the protocol buffer format, and what adsbus/proto.c uses of the
-- code generated for them, of the protobuf-c library and of the C library.
use adsb_tools.Prelude.{ℕ, Bool, false, Option, none, List, []}

-- A string is its bytes with the terminator. Those of a header are required members.
pub record AdsbHeader : Type 0 where
  pub magic : List ℕ
  pub server_version : List ℕ
  pub server_id : List ℕ
  pub mlat_timestamp_mhz : ℕ
  pub mlat_timestamp_max : ℕ
  pub rssi_max : ℕ

-- `payload` is the `data` of the member, in its `len`.
pub record AdsbPacket : Type 0 where
  pub source_id : Option (List ℕ)
  pub hops : ℕ
  pub has_mlat_timestamp : Bool
  pub mlat_timestamp : ℕ
  pub has_rssi : Bool
  pub rssi : ℕ
  pub payload : List ℕ

pub record Adsb : Type 0 where
  pub header : Option AdsbHeader
  pub mode_ac : Option AdsbPacket
  pub mode_s_short : Option AdsbPacket
  pub mode_s_long : Option AdsbPacket

pub record AdsbStream : Type 0 where
  pub msg : List Adsb

-- `ADSB_PACKET__INIT`
abbrev pub adsb_packet_init : AdsbPacket
adsb_packet_init = record {
  source_id = none;
  hops = 0;
  has_mlat_timestamp = false;
  mlat_timestamp = 0;
  has_rssi = false;
  rssi = 0;
  payload = [];
}

-- `ADSB__INIT`
abbrev pub adsb_init : Adsb
adsb_init = record { header = none; mode_ac = none; mode_s_short = none; mode_s_long = none }

-- The calls, by what they answer.
pub record ProtobufC : Type 0 where
  -- `adsb__unpack` on these bytes.
  pub unpack : List ℕ → Option Adsb
  -- `protobuf_c_message_get_packed_size` and `protobuf_c_message_pack` on a stream.
  pub get_packed_size : AdsbStream → ℕ
  pub pack : AdsbStream → List ℕ
  -- `strcmp(a, b) == 0`
  pub strcmp_equal : List ℕ → List ℕ → Bool
