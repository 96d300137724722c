-- ===== src/Packet.antt =====
-- adsbus/packet.h and adsbus/packet.c: the message that passes from the parsers to the serializers,
-- and the scaling of time stamps and signal strengths to common units.
pub mod Scale
pub mod Identifier
use adsb_tools.Prelude.{
  ℕ, zero, suc, ◌+◌, ◌-◌, ◌*◌, ◌/◌, ◌%◌, ◌^◌, Bool, true, false, Option, none, some, List, [], ◌∷◌,
  ltb, leb, ◌==◌, ◌||◌, if◌then◌else◌, Run, ok, abort, ◌>>=◌, ◌>>◌, check,
}

-- `enum packet_type`
pub data PacketType : Type 0 where
  type_none type_mode_ac type_mode_s_short type_mode_s_long : PacketType

unfoldable pub packet_payload_len : PacketType → ℕ
packet_payload_len type_none = 0
packet_payload_len type_mode_ac = 2
packet_payload_len type_mode_s_short = 7
packet_payload_len type_mode_s_long = 14

abbrev pub packet_payload_len_max : ℕ
packet_payload_len_max = 14

abbrev pub uuid_len : ℕ
uuid_len = 37

-- The fields of `struct stat` that the program compares.
pub record Stat : Type 0 where
  pub st_dev : ℕ
  pub st_ino : ℕ

-- `struct packet`; `source_id` is the array that the pointer leads to, or `none` for NULL.
pub record Packet : Type 0 where
  pub source_id : Option (List ℕ)
  pub input_stat : Stat
  pub type : PacketType
  pub hops : ℕ
  pub payload : List ℕ
  pub mlat_timestamp : ℕ
  pub rssi : ℕ

abbrev pub packet_mlat_mhz : ℕ
packet_mlat_mhz = 120

abbrev pub packet_mlat_max : ℕ
packet_mlat_max = 0x7fff_ffff_ffff_ffff

abbrev pub packet_rssi_max : ℕ
packet_rssi_max = 0xffff_ffff

-- `struct packet_mlat_state`
pub record MlatState : Type 0 where
  pub timestamp_last : ℕ
  pub timestamp_generation : ℕ

abbrev pub u64 : ℕ → ℕ
u64 n = n % 0x1_0000_0000_0000_0000

abbrev pub u32 : ℕ → ℕ
u32 n = n % 0x1_0000_0000

-- An integer division: by zero it traps.
abbrev pub divide : ℕ → ℕ → Run ℕ
divide a b = if b == 0 then abort else ok (a / b)

unfoldable pub packet_mlat_timestamp_scale_mhz_in : ℕ → ℕ → Run ℕ
packet_mlat_timestamp_scale_mhz_in timestamp mhz = do
  check (ltb 0 mhz)
  ok (u64 (timestamp * (packet_mlat_mhz / mhz)))

unfoldable pub packet_mlat_timestamp_scale_width_in : ℕ → ℕ → MlatState → ℕ × MlatState
packet_mlat_timestamp_scale_width_in timestamp max state =
    let generation =
      if ltb timestamp state.timestamp_last
      then u64 (state.timestamp_generation + max)
      else state.timestamp_generation in
    (
      u64 (generation + timestamp),
      record { timestamp_last = timestamp; timestamp_generation = generation },
    )

unfoldable pub packet_mlat_timestamp_scale_mhz_out : ℕ → ℕ → Run ℕ
packet_mlat_timestamp_scale_mhz_out timestamp mhz = do
  check (ltb 0 mhz)
  divide timestamp (packet_mlat_mhz / mhz)

unfoldable pub packet_mlat_timestamp_scale_width_out : ℕ → ℕ → Run ℕ
packet_mlat_timestamp_scale_width_out timestamp max = do check (ltb 0 max); ok (timestamp % max)

unfoldable pub packet_mlat_timestamp_scale_in : ℕ → ℕ → ℕ → MlatState → Run (ℕ × MlatState)
unfolding packet_mlat_timestamp_scale_mhz_in
packet_mlat_timestamp_scale_in timestamp max mhz state = do
  let wide = packet_mlat_timestamp_scale_width_in timestamp max state
  scaled ← packet_mlat_timestamp_scale_mhz_in wide.0 mhz
  ok (scaled % packet_mlat_max, wide.1)

unfoldable pub packet_mlat_timestamp_scale_out : ℕ → ℕ → ℕ → Run ℕ
unfolding packet_mlat_timestamp_scale_mhz_out packet_mlat_timestamp_scale_width_out
packet_mlat_timestamp_scale_out timestamp max mhz = do
  scaled ← packet_mlat_timestamp_scale_mhz_out timestamp mhz
  packet_mlat_timestamp_scale_width_out scaled max

unfoldable pub packet_rssi_scale_in : ℕ → ℕ → Run ℕ
packet_rssi_scale_in value max = do check (ltb 0 max); ok (u32 (value * (packet_rssi_max / max)))

unfoldable pub packet_rssi_scale_out : ℕ → ℕ → Run ℕ
packet_rssi_scale_out value max = do check (ltb 0 max); divide value (packet_rssi_max / max)

-- The loop of `packet_validate_id` with `left` rounds to go. An identifier is a whole array or a
-- terminated string, so that the loop does not come to the end of the list.
unfoldable pub validate_loop : ℕ → List ℕ → Bool
validate_loop zero id = false
validate_loop (suc left) [] = false
validate_loop (suc left) (c ∷ id) =
    let rest = validate_loop left id in
    if c == 0 then true else if ltb c 32 || ltb 126 c then false else rest

unfoldable pub packet_validate_id : Option (List ℕ) → Bool
unfolding validate_loop
packet_validate_id none = false
packet_validate_id (some id) = validate_loop uuid_len id

abbrev pub is_message : PacketType → Bool
is_message type_none = false
is_message _ = true

unfoldable pub packet_sanity_check : Packet → Run (Unit {0})
packet_sanity_check p = do
  check (packet_validate_id p.source_id)
  check (is_message p.type)
  check (leb p.mlat_timestamp packet_mlat_max)
  check (leb p.rssi packet_rssi_max)
