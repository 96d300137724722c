-- ===== src/Tests/Numbers.antt =====
-- adsbus/packet.c, hex.c, rand.c, uuid.c, wakeup.c and opts.c at fixed inputs.
use mathlib.Core.Logic.{◌↔◌}
use adsb_tools.Buf.{Buf}
use adsb_tools.Buf.Window.{contents}
use adsb_tools.Rand.{rand_fill, rand_fill_each}
use adsb_tools.Rand.Reuse.{total, rand_fill_each-repeats}
use adsb_tools.Uuid.{uuid_gen}
use adsb_tools.Uuid.Form.{HasForm, uuid_gen-valid}
use adsb_tools.Wakeup.{wakeup_get_retry_delay_ms, wakeup_time}
use adsb_tools.Wakeup.Delay.{retry_delay-bounds}
use adsb_tools.Opts.{opts_split}
use adsb_tools.Opts.Split.{IsFree, opts_split_iff}
use adsb_tools.Prelude.{
  none, ◌<◌, ◌*◌, ◌+◌, length, ℕ, List, replicate, Option, ◌≡◌, refl, true, some, [], ◌∷◌, ◌++◌,
  ◌>>=◌, ok, arith, size, store,
}
use adsb_tools.Packet.{
  MlatState, packet_validate_id, packet_mlat_timestamp_scale_in, packet_mlat_timestamp_scale_out,
  packet_rssi_scale_in, packet_rssi_scale_out, uuid_len,
}
use adsb_tools.Packet.Scale.{
  extended, extend_all, IsRising, extend_all-IsRising, scale_out-scale_in, rssi_out-rssi_in,
}
use adsb_tools.Packet.Identifier.{IsIdentifier, packet_validate_id_iff}
use adsb_tools.Hex.{
  hex_to_bin, hex_to_int, hex_from_bin_upper, hex_from_bin_lower, hex_from_int_upper,
}
use adsb_tools.Hex.Accepted.{IsHexText, bytes_of, hex_to_bin-true_iff}
use adsb_tools.Hex.RoundTrip.{hex_to_bin_inverts, hex_to_int-hex_from_int_upper}

abbrev fresh_mlat : MlatState
fresh_mlat = record { timestamp_last = 0; timestamp_generation = 0 }

-- A counter that wraps twice.
extend_all-IsRising_example :
    IsRising (extended fresh_mlat) (extend_all 99 fresh_mlat (90 ∷ 5 ∷ 70 ∷ 3 ∷ []))
extend_all-IsRising_example =
    extend_all-IsRising 99 fresh_mlat (90 ∷ 5 ∷ 70 ∷ 3 ∷ []) (omega arith)
      (omega arith, (omega arith, (omega arith, (omega arith, tt)))) (omega arith)

scale_out-scale_in_example :
    (packet_mlat_timestamp_scale_in 1234 0xffff_ffff_ffff 12 fresh_mlat >>= λ r.
    packet_mlat_timestamp_scale_out r.0 0xffff_ffff_ffff 12)
    ≡ ok 1234
scale_out-scale_in_example =
    scale_out-scale_in 1234 0xffff_ffff_ffff 12 0 fresh_mlat (omega arith) (omega arith)
      (omega arith) refl (omega arith)

rssi_out-rssi_in_example :
    (packet_rssi_scale_in 200 255 ≡ ok 3368601800) × (packet_rssi_scale_out 3368601800 255 ≡ ok 200)
rssi_out-rssi_in_example = rssi_out-rssi_in 200 255 (omega arith) (omega arith) (omega arith)

packet_validate_id_iff_example :
    (packet_validate_id (some (b'n' ∷ b'1' ∷ 0 ∷ [])) ≡ true)
    ↔ IsIdentifier uuid_len (b'n' ∷ b'1' ∷ 0 ∷ [])
packet_validate_id_iff_example = packet_validate_id_iff (b'n' ∷ b'1' ∷ 0 ∷ [])

hex_to_bin_inverts_example :
    (hex_to_bin (0 ∷ 0 ∷ 7 ∷ []) (hex_from_bin_upper (0x5d ∷ 0xa4 ∷ []) 2 ++ b';' ∷ []) 2
      ≡ (true, 0x5d ∷ 0xa4 ∷ 7 ∷ []))
    × (hex_to_bin (0 ∷ 0 ∷ 7 ∷ []) (hex_from_bin_lower (0x5d ∷ 0xa4 ∷ []) 2 ++ b';' ∷ []) 2
        ≡ (true, 0x5d ∷ 0xa4 ∷ 7 ∷ []))
hex_to_bin_inverts_example =
    hex_to_bin_inverts (0x5d ∷ 0xa4 ∷ []) (0 ∷ 0 ∷ 7 ∷ []) (b';' ∷ [])
      (omega arith, (omega arith, tt))

hex_to_bin-true_iff_example :
    (((hex_to_bin (0 ∷ []) (b'5' ∷ b'd' ∷ []) 1).0 ≡ true) ↔ IsHexText 2 (b'5' ∷ b'd' ∷ []))
    × ((hex_to_bin (0 ∷ []) (b'5' ∷ b'd' ∷ []) 1
          ≡ (true, store (0 ∷ []) 0 (bytes_of 1 0 (b'5' ∷ b'd' ∷ []))))
        ↔ IsHexText 2 (b'5' ∷ b'd' ∷ []))
hex_to_bin-true_iff_example =
    hex_to_bin-true_iff (0 ∷ []) (b'5' ∷ b'd' ∷ []) 1 (omega arith, (omega arith, tt))

hex_to_int-hex_from_int_upper_example :
    (text : List ℕ) × (hex_from_int_upper 0xbeef 2 ≡ ok text)
    × (length text ≡ 4)
    × (hex_to_int (text ++ b',' ∷ []) 2 ≡ size 0xbeef)
hex_to_int-hex_from_int_upper_example =
    hex_to_int-hex_from_int_upper 0xbeef 2 (b',' ∷ []) (omega arith) (omega arith) (omega arith)

-- Random bytes, as a device that repeats itself would deliver them.
abbrev just_filled : Buf
just_filled = record { bytes = replicate 256 7; start = 0; length = 256 }

abbrev nines : ℕ → Option (List ℕ)
nines n = some (replicate n 9)

-- Sixteen identifiers' worth of bytes, and one more.
rand_fill_each-repeats_example :
    (b' : Buf) × (b'' : Buf) × (rand_fill_each nines (replicate 16 16) just_filled
      ≡ ok (contents just_filled, b'))
    × (rand_fill nines 16 b' ≡ ok (replicate 16 9, b''))
    × (contents b'' ≡ contents just_filled)
unfolding total
rand_fill_each-repeats_example =
    rand_fill_each-repeats nines (replicate 16 16) 16 just_filled (replicate 16 9) refl refl refl
      refl (omega arith) refl refl

abbrev device : ℕ → Option (List ℕ)
device n = some (replicate n 0xa7)

abbrev empty_buffer : Buf
empty_buffer = record { bytes = replicate 256 0; start = 0; length = 0 }

uuid_gen-valid_example :
    (id : List ℕ) × (uuid_gen device empty_buffer
      ≡ ok (id, record { bytes = replicate 256 0; start = 0; length = 256 }))
    × (length id ≡ 37)
    × HasForm id
    × (packet_validate_id (some id) ≡ true)
unfolding rand_fill
uuid_gen-valid_example =
    uuid_gen-valid device empty_buffer (record { bytes = replicate 256 0; start = 0; length = 256 })
      (replicate 16 0xa7) refl refl
      (
        omega arith,
        (
          omega arith,
          (
            omega arith,
            (
              omega arith,
              (
                omega arith,
                (
                  omega arith,
                  (
                    omega arith,
                    (
                      omega arith,
                      (
                        omega arith,
                        (
                          omega arith,
                          (
                            omega arith,
                            (
                              omega arith,
                              (omega arith, (omega arith, (omega arith, (omega arith, tt)))),
                            ),
                          ),
                        ),
                      ),
                    ),
                  ),
                ),
              ),
            ),
          ),
        ),
      )

retry_delay-bounds_example :
    (delay : ℕ) × (wakeup_get_retry_delay_ms 3 123456 ≡ ok delay)
    × (delay < 60000)
    × (delay < 16000)
    × ((wakeup_time delay).0 * 1000000000 + (wakeup_time delay).1 ≡ delay * 1000000)
    × ((wakeup_time delay).1 < 1000000000)
retry_delay-bounds_example = retry_delay-bounds 3 123456 (omega arith)

abbrev option_text : List ℕ
option_text = b'r' ∷ b'=' ∷ b'x' ∷ []

opts_split_iff_example :
    ((opts_split option_text b'=' ≡ some (b'r' ∷ [], b'x' ∷ []))
      ↔ ((option_text ≡ b'r' ∷ [] ++ b'=' ∷ b'x' ∷ []) × IsFree b'=' (b'r' ∷ [])))
    × ((opts_split option_text b'=' ≡ none) ↔ IsFree b'=' option_text)
opts_split_iff_example = opts_split_iff option_text (b'r' ∷ []) (b'x' ∷ []) b'='
