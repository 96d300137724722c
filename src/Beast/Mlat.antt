-- ===== src/Beast/Mlat.antt =====
-- The six bytes of a time stamp.
use adsb_tools.Prelude.{
  ℕ, ◌+◌, ◌*◌, ◌/◌, ◌%◌, ◌^◌, ◌<◌, ◌≡◌, refl, ◌∙◌, List, ◌∷◌, ◌++◌, bit_or, arith,
}
use adsb_tools.Bits.{bit_or_field, bit_and_byte}
use adsb_tools.Beast.{beast_parse_mlat, beast_write_mlat}

-- A field of `k` bits joined to what stands above it, however the upper part is written.
join : (k a x r : ℕ) → x ≡ a * 2 ^ k → r < 2 ^ k → bit_or x r ≡ x + r
join k a x r e h = rw e (bit_or_field k a r h)

abbrev weigh : ℕ → ℕ → ℕ → ℕ → ℕ → ℕ → ℕ
weigh a b c d e f = a * 2 ^ 40 + b * 2 ^ 32 + c * 2 ^ 24 + d * 2 ^ 16 + e * 2 ^ 8 + f

parse_mlat_sum :
    (a b c d e f : ℕ) (rest : List ℕ)
    → b < 256
    → c < 256
    → d < 256
    → e < 256
    → f < 256
    → beast_parse_mlat (a ∷ b ∷ c ∷ d ∷ e ∷ f ∷ rest) ≡ weigh a b c d e f
unfolding beast_parse_mlat
parse_mlat_sum a b c d e f rest hb hc hd he hf = rw (
  join 40 a (a * 2 ^ 40) (b * 2 ^ 32) refl (omega arith),
  join 32 (a * 2 ^ 8 + b) (a * 2 ^ 40 + b * 2 ^ 32) (c * 2 ^ 24) (omega arith) (omega arith),
  join 24 (a * 2 ^ 16 + b * 2 ^ 8 + c) (a * 2 ^ 40 + b * 2 ^ 32 + c * 2 ^ 24) (d * 2 ^ 16)
      (omega arith) (omega arith),
  join 16 (a * 2 ^ 24 + b * 2 ^ 16 + c * 2 ^ 8 + d)
      (a * 2 ^ 40 + b * 2 ^ 32 + c * 2 ^ 24 + d * 2 ^ 16) (e * 2 ^ 8) (omega arith) (omega arith),
  join 8 (a * 2 ^ 32 + b * 2 ^ 24 + c * 2 ^ 16 + d * 2 ^ 8 + e)
      (a * 2 ^ 40 + b * 2 ^ 32 + c * 2 ^ 24 + d * 2 ^ 16 + e * 2 ^ 8) f (omega arith) (omega arith),
)

-- `beast_parse_mlat` reads back what `beast_write_mlat` wrote: the lowest 48 bits.
pub beast_parse_mlat-beast_write_mlat :
    (t : ℕ) (rest : List ℕ) → beast_parse_mlat (beast_write_mlat t ++ rest) ≡ t % 2 ^ 48
unfolding beast_write_mlat
beast_parse_mlat-beast_write_mlat t rest =
    rw
      (
        bit_and_byte (t / 2 ^ 40),
        bit_and_byte (t / 2 ^ 32),
        bit_and_byte (t / 2 ^ 24),
        bit_and_byte (t / 2 ^ 16),
        bit_and_byte (t / 2 ^ 8),
        bit_and_byte t,
      )
      (parse_mlat_sum (t / 2 ^ 40 % 256) (t / 2 ^ 32 % 256) (t / 2 ^ 24 % 256) (t / 2 ^ 16 % 256)
          (t / 2 ^ 8 % 256) (t % 256) rest (omega arith) (omega arith) (omega arith) (omega arith)
          (omega arith)
        ∙ omega arith)
