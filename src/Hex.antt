-- ===== src/Hex.antt =====
-- adsbus/hex.c: hexadecimal text to and from bytes and integers.
pub mod Accepted
pub mod Digits
pub mod RoundTrip
use adsb_tools.Prelude.{
  ℕ, zero, suc, ◌+◌, ◌-◌, ◌*◌, ◌/◌, ◌%◌, Bool, true, false, List, [], ◌∷◌, ◌++◌, get_or, replicate,
  store, ltb, ◌==◌, ◌||◌, if◌then◌else◌, bit_and, bit_or, Ssize, minus_one, size, Run, ok, ◌>>◌,
  check,
}
use adsb_tools.Packet.{u64}

abbrev pub hex_invalid : ℕ
hex_invalid = 0xff

abbrev pub hex_upper_table : List ℕ
hex_upper_table =
    b'0' ∷ b'1' ∷ b'2' ∷ b'3' ∷ b'4' ∷ b'5' ∷ b'6' ∷ b'7' ∷ b'8' ∷ b'9' ∷ b'A' ∷ b'B' ∷ b'C' ∷ b'D'
    ∷ b'E' ∷ b'F' ∷ []

abbrev pub hex_lower_table : List ℕ
hex_lower_table =
    b'0' ∷ b'1' ∷ b'2' ∷ b'3' ∷ b'4' ∷ b'5' ∷ b'6' ∷ b'7' ∷ b'8' ∷ b'9' ∷ b'a' ∷ b'b' ∷ b'c' ∷ b'd'
    ∷ b'e' ∷ b'f' ∷ []

-- One loop of `hex_init`: `count` entries from index `i` on, each written with `value i`.
unfoldable pub hex_init_loop : ℕ → ℕ → (ℕ → ℕ) → List ℕ → List ℕ
hex_init_loop zero i value table = table
hex_init_loop (suc count) i value table =
    hex_init_loop count (i + 1) value (store table i (value i ∷ []))

-- `hex_init` on a table with any entries.
unfoldable pub hex_init : List ℕ → List ℕ
unfolding hex_init_loop
hex_init table =
    let invalid = hex_init_loop 256 0 (λ i. hex_invalid) table in
    let decimal = hex_init_loop 10 b'0' (λ i. i - b'0') invalid in
    let lower = hex_init_loop 6 b'a' (λ i. 10 + i - b'a') decimal in
    hex_init_loop 6 b'A' (λ i. 10 + i - b'A') lower

-- `hex_table` after `hex_init`; it is static, so its entries are zero before.
unfoldable pub hex_table : List ℕ
unfolding hex_init
hex_table = hex_init (replicate 256 0)

unfoldable pub hex_value : ℕ → ℕ
unfolding hex_table
hex_value c = get_or hex_table c 0

-- The loop of `hex_to_bin` at index `i` with `left` rounds to go: success, and the array `out`.
unfoldable pub hex_to_bin_loop : ℕ → ℕ → List ℕ → List ℕ → Bool × List ℕ
hex_to_bin_loop zero i out input = (true, out)
hex_to_bin_loop (suc left) i out input =
    let val1 = hex_value (get_or input (2 * i) 0) in
    let val2 = hex_value (get_or input (2 * i + 1) 0) in
    let rest =
      hex_to_bin_loop left (i + 1) (store out i (bit_or (val1 * 16 % 256) val2 ∷ [])) input in
    if val1 == hex_invalid || val2 == hex_invalid then (false, out) else rest

unfoldable pub hex_to_bin : List ℕ → List ℕ → ℕ → Bool × List ℕ
unfolding hex_to_bin_loop
hex_to_bin out input bytes = hex_to_bin_loop bytes 0 out input

unfoldable pub hex_to_int_loop : ℕ → ℕ → ℕ → List ℕ → Ssize
hex_to_int_loop zero i ret input = if ltb 0x7fff_ffff_ffff_ffff ret then minus_one else size ret
hex_to_int_loop (suc left) i ret input =
    let val = hex_value (get_or input i 0) in
    let rest = hex_to_int_loop left (i + 1) (bit_or (u64 (ret * 16)) val) input in
    if val == 0xff then minus_one else rest

unfoldable pub hex_to_int : List ℕ → ℕ → Ssize
unfolding hex_to_int_loop
hex_to_int input bytes = hex_to_int_loop (bytes * 2) 0 0 input

-- What the loop of `hex_from_bin` writes for the first `bytes` elements of `input`.
unfoldable pub hex_from_bin : List ℕ → ℕ → List ℕ → List ℕ
hex_from_bin table zero input = []
hex_from_bin table (suc bytes) [] = []
hex_from_bin table (suc bytes) (b ∷ input) =
    get_or table (b / 16) 0 ∷ get_or table (bit_and b 0xf) 0 ∷ hex_from_bin table bytes input

-- What the loop of `hex_from_int` writes, which goes from the last digit to the first.
unfoldable pub hex_from_int_loop : List ℕ → ℕ → ℕ → List ℕ → List ℕ
hex_from_int_loop table zero input written = written
hex_from_int_loop table (suc left) input written =
    hex_from_int_loop table left (input / 16) (get_or table (bit_and input 0xf) 0 ∷ written)

abbrev pub ssize_max : ℕ
ssize_max = 0x7fff_ffff_ffff_ffff

-- The digits that are written to `out`.
unfoldable pub hex_from_int : List ℕ → ℕ → ℕ → Run (List ℕ)
unfolding hex_from_int_loop
hex_from_int table input bytes =
    let digits = u64 (bytes * 2) in
    check (ltb digits ssize_max) >> ok (hex_from_int_loop table digits input [])

unfoldable pub hex_from_bin_upper : List ℕ → ℕ → List ℕ
unfolding hex_from_bin
hex_from_bin_upper input bytes = hex_from_bin hex_upper_table bytes input

unfoldable pub hex_from_bin_lower : List ℕ → ℕ → List ℕ
unfolding hex_from_bin
hex_from_bin_lower input bytes = hex_from_bin hex_lower_table bytes input

unfoldable pub hex_from_int_upper : ℕ → ℕ → Run (List ℕ)
unfolding hex_from_int
hex_from_int_upper input bytes = hex_from_int hex_upper_table input bytes

unfoldable pub hex_from_int_lower : ℕ → ℕ → Run (List ℕ)
unfolding hex_from_int
hex_from_int_lower input bytes = hex_from_int hex_lower_table input bytes
