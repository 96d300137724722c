-- ===== src/Hex/Digits.antt =====
-- The digits that the tables of hex.c hold.
use adsb_tools.Prelude.{
  ℕ, ◌+◌, ◌-◌, ◌<◌, ◌≡◌, refl, true, ◌&&◌, leb, ◌==◌, ==→eq, if◌then◌else◌, get_or, List,
}
use adsb_tools.Bits.{all_below, all_below-true}
use adsb_tools.Hex.{hex_value, hex_invalid, hex_upper_table, hex_lower_table}

-- The value of a hexadecimal digit, in either case.
unfoldable pub digit_value : ℕ → ℕ
digit_value c =
    if leb b'0' c && leb c b'9'
    then c - b'0'
    else if leb b'a' c && leb c b'f'
    then c - b'a' + 10
    else if leb b'A' c && leb c b'F'
    then c - b'A' + 10
    else hex_invalid

value_table : all_below 256 (λ c. hex_value c == digit_value c) ≡ true
unfolding all_below hex_value digit_value
value_table = refl

-- After `hex_init` the table holds the value of each digit in either case, and for any other byte
-- the mark for an invalid one.
pub hex_value-eq-digit_value : (c : ℕ) → c < 256 → hex_value c ≡ digit_value c
hex_value-eq-digit_value c h = ==→eq _ _ (all_below-true 256 _ c value_table h)

upper_digits : all_below 16 (λ d. hex_value (get_or hex_upper_table d 0) == d) ≡ true
unfolding all_below hex_value
upper_digits = refl

lower_digits : all_below 16 (λ d. hex_value (get_or hex_lower_table d 0) == d) ≡ true
unfolding all_below hex_value
lower_digits = refl

-- A table of sixteen digits that `hex_table` inverts.
abbrev pub IsDigits : List ℕ → Type 0
IsDigits table = (d : ℕ) → d < 16 → hex_value (get_or table d 0) ≡ d

pub upper-IsDigits : IsDigits hex_upper_table
upper-IsDigits d h = ==→eq _ _ (all_below-true 16 _ d upper_digits h)

pub lower-IsDigits : IsDigits hex_lower_table
lower-IsDigits d h = ==→eq _ _ (all_below-true 16 _ d lower_digits h)
