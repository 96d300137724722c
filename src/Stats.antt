-- ===== src/Stats.antt =====
-- adsbus/stats.c: how many messages of each type were sent, written for each thousandth.
pub mod Counts
use adsb_tools.Prelude.{
  ℕ, ◌+◌, ◌-◌, ◌%◌, Option, none, some, List, [], ◌∷◌, ◌==◌, ◌!=◌, if◌then◌else◌, Run, ok, abort,
  ◌>>=◌,
}
use adsb_tools.Buf.{Buf, buf_zero}
use adsb_tools.Packet.{
  Packet, PacketType, type_none, type_mode_ac, type_mode_s_short, type_mode_s_long, u64,
}
use adsb_tools.Json.{mode_ac_text, mode_s_short_text, mode_s_long_text}
use adsb_tools.Json.Library.{Writer, integer, counts}
use adsb_tools.Json.Write.{Object, json_serialize_to_buf}

-- `struct stats_state`; `type_count` is the array by its indices, `start` in seconds.
pub record StatsState : Type 0 where
  pub total_count : ℕ
  pub type_count : PacketType → ℕ
  pub start : ℕ

-- The state before `stats_init`, and after it; `none` is a failure of `clock_gettime`.
abbrev pub stats_initial : StatsState
stats_initial = record { total_count = 0; type_count = λ type. 0; start = 0 }

unfoldable pub stats_init : Option ℕ → StatsState → Run StatsState
stats_init now s = elim now [ none ↦ abort | some t ↦ ok (record s { start = t }) ]

abbrev pub type_index : PacketType → ℕ
type_index type_none = 0
type_index type_mode_ac = 1
type_index type_mode_s_short = 2
type_index type_mode_s_long = 3

abbrev pub counted : Option Packet → StatsState → StatsState
counted none s = s
counted (some packet) s = record s {
  total_count = u64 (s.total_count + 1);
  type_count = λ type.
      if type_index type == type_index packet.type
      then u64 (s.type_count type + 1)
      else s.type_count type;
}

abbrev pub uptime_key : List ℕ
uptime_key =
    b'u' ∷ b'p' ∷ b't' ∷ b'i' ∷ b'm' ∷ b'e' ∷ b'_' ∷ b's' ∷ b'e' ∷ b'c' ∷ b'o' ∷ b'n' ∷ b'd' ∷ b's'
    ∷ 0 ∷ []

abbrev pub packet_counts_key : List ℕ
packet_counts_key =
    b'p' ∷ b'a' ∷ b'c' ∷ b'k' ∷ b'e' ∷ b't' ∷ b'_' ∷ b'c' ∷ b'o' ∷ b'u' ∷ b'n' ∷ b't' ∷ b's' ∷ 0
    ∷ []

-- The object that is written; the clock does not go back.
abbrev pub stats_object : ℕ → StatsState → Object
stats_object now s =
    (uptime_key, integer (now - s.start))
    ∷ (
      packet_counts_key,
      counts (
          (mode_ac_text, s.type_count type_mode_ac)
          ∷ (mode_s_short_text, s.type_count type_mode_s_short)
          ∷ (mode_s_long_text, s.type_count type_mode_s_long)
          ∷ []),
    )
    ∷ []

-- `now` is what `clock_gettime` answers.
unfoldable pub stats_serialize :
    Writer → Option ℕ → Option Packet → Buf → StatsState → Run (Buf × StatsState)
stats_serialize writer now packet buf s =
    let s1 = counted packet s in
    if s1.total_count % 1000 != 0 then ok (buf, s1) else (elim now [
      | none ↦ abort
      | some t ↦ json_serialize_to_buf writer (stats_object t s1) buf >>= λ buf'. ok (buf', s1)
    ])

-- Successive messages, each with an empty buffer of its own.
unfoldable pub stats_serialize_each :
    Writer → (ℕ → Option ℕ) → List Packet → StatsState → Run (List Buf × StatsState)
stats_serialize_each writer clock [] s = ok ([], s)
stats_serialize_each writer clock (p ∷ ps) s = do
  first ← stats_serialize writer (clock s.total_count) (some p) buf_zero s
  rest ← stats_serialize_each writer clock ps first.1
  ok (first.0 ∷ rest.0, rest.1)
