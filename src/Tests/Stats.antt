-- ===== src/Tests/Stats.antt =====
-- adsbus/stats.c at a fixed input: the thousandth message.
use adsb_tools.Prelude.{◌+◌, ◌≡◌, some, List, [], ◌∷◌, length, ok, arith}
use adsb_tools.Buf.{Buf}
use adsb_tools.Stats.{StatsState, stats_serialize_each}
use adsb_tools.Stats.Counts.{HasCounted, IsCounting, Quiet, stats_serialize_each-HasCounted}
use adsb_tools.Tests.Formats.{short_message}
use adsb_tools.Tests.Hub.{small_writer}

abbrev many : StatsState
many = record { total_count = 998; type_count = λ type. 300; start = 5 }

many-IsCounting : IsCounting many 2
many-IsCounting = record { room = omega arith; parts = λ type. omega arith }

stats_serialize_each-HasCounted_example :
    (bufs : List Buf) × (s' : StatsState) × (stats_serialize_each small_writer
        (λ n. some (n + 7))
        (short_message ∷ short_message ∷ [])
        many
      ≡ ok (bufs, s'))
    × HasCounted many s' (short_message ∷ short_message ∷ [])
    × (length bufs ≡ length (short_message ∷ short_message ∷ []))
    × Quiet 998 bufs
stats_serialize_each-HasCounted_example =
    stats_serialize_each-HasCounted small_writer (λ n. n + 7) (λ t s. omega arith)
      (short_message ∷ short_message ∷ []) many many-IsCounting
