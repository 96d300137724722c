-- ===== src/Bits.antt =====
-- Laws of the bitwise operations that the program uses, over native numbers.
use Prim.Native.Nat.{min, max, digits, bit_or-bitwise, bit_and-bitwise}
use native.Mathlib.Nat.{pow-suc}
use adsb_tools.Prelude.{
  ◌^◌, ap, ℕ, zero, suc, ◌+◌, ◌*◌, ◌/◌, ◌%◌, ◌≤◌, ◌<◌, ◌≡◌, refl, bit_and, bit_or, Bool, true, ◌&&◌,
  arith, ◌==◌, ==→eq,
}

-- A check of every value below a bound by evaluation.
unfoldable pub all_below : ℕ → (ℕ → Bool) → Bool
all_below zero p = true
all_below (suc n) p = p n && all_below n p

pub all_below-true : (n : ℕ) (p : ℕ → Bool) (x : ℕ) → all_below n p ≡ true → x < n → p x ≡ true
unfolding all_below
all_below-true zero p x h lt = absurd (omega arith)
all_below-true (suc n) p x h lt = ground (arith, all_below-true n p x)

-- The digit recursion behind the native operations does not depend on its fuel.
module _ (base : ℕ → ℕ) (digit : ℕ → ℕ → ℕ) where
  fuel_free : (n m a b : ℕ) → a ≤ n → a ≤ m → digits base digit n a b ≡ digits base digit m a b
  fuel_free zero zero zero b p q = refl
  fuel_free zero zero (suc a) b p q = absurd (omega arith)
  fuel_free zero (suc m) zero b p q = refl
  fuel_free zero (suc m) (suc a) b p q = absurd (omega arith)
  fuel_free (suc n) zero zero b p q = refl
  fuel_free (suc n) zero (suc a) b p q = absurd (omega arith)
  fuel_free (suc n) (suc m) zero b p q = refl
  fuel_free (suc n) (suc m) (suc a) b p q =
      omega (arith, fuel_free n m (suc a / 2) (b / 2) (omega arith) (omega arith))

bit_or_digit : (a b : ℕ) → bit_or a b ≡ bit_or (a / 2) (b / 2) * 2 + max (a % 2) (b % 2)
bit_or_digit zero b = omega (arith, bit_or-bitwise 0 b, bit_or-bitwise 0 (b / 2))
bit_or_digit (suc a) b = omega (
  arith,
  bit_or-bitwise (suc a) b,
  bit_or-bitwise (suc a / 2) (b / 2),
  fuel_free (λ y. y) max a (suc a / 2) (suc a / 2) (b / 2) (omega arith) (omega arith),
)

bit_and_digit : (a b : ℕ) → bit_and a b ≡ bit_and (a / 2) (b / 2) * 2 + min (a % 2) (b % 2)
bit_and_digit zero b = omega (arith, bit_and-bitwise 0 b, bit_and-bitwise 0 (b / 2))
bit_and_digit (suc a) b = omega (
  arith,
  bit_and-bitwise (suc a) b,
  bit_and-bitwise (suc a / 2) (b / 2),
  fuel_free (λ y. 0) min a (suc a / 2) (suc a / 2) (b / 2) (omega arith) (omega arith),
)

or_zero_below : (n a : ℕ) → a ≤ n → bit_or a 0 ≡ a
or_zero_below n zero h = refl
or_zero_below zero (suc a) h = absurd (omega arith)
or_zero_below (suc n) (suc a) h =
    omega (arith, bit_or_digit (suc a) 0, or_zero_below n (suc a / 2) (omega arith))

and_zero_below : (n a : ℕ) → a ≤ n → bit_and a 0 ≡ 0
and_zero_below n zero h = refl
and_zero_below zero (suc a) h = absurd (omega arith)
and_zero_below (suc n) (suc a) h =
    omega (arith, bit_and_digit (suc a) 0, and_zero_below n (suc a / 2) (omega arith))

or_one : (a r : ℕ) → r < 2 → bit_or (a * 2) r ≡ a * 2 + r
or_one a r h = ground (arith, bit_or_digit (a * 2) r, or_zero_below a a)

or_two : (a r : ℕ) → r < 4 → bit_or (a * 4) r ≡ a * 4 + r
or_two a r h = ground (arith, bit_or_digit (a * 4) r, or_one a (r / 2))

or_three : (a r : ℕ) → r < 8 → bit_or (a * 8) r ≡ a * 8 + r
or_three a r h = ground (arith, bit_or_digit (a * 8) r, or_two a (r / 2))

-- A nibble joined to a number with a free lowest nibble.
pub bit_or_nibble : (a r : ℕ) → r < 16 → bit_or (a * 16) r ≡ a * 16 + r
bit_or_nibble a r h = ground (arith, bit_or_digit (a * 16) r, or_three a (r / 2))

and_one : (a : ℕ) → bit_and a 1 ≡ a % 2
and_one a = omega (arith, bit_and_digit a 1, and_zero_below (a / 2) (a / 2) (omega arith))

and_three : (a : ℕ) → bit_and a 3 ≡ a % 4
and_three a = omega (arith, bit_and_digit a 3, and_one (a / 2))

and_seven : (a : ℕ) → bit_and a 7 ≡ a % 8
and_seven a = omega (arith, bit_and_digit a 7, and_three (a / 2))

-- The mask of the lowest nibble.
pub bit_and_nibble : (a : ℕ) → bit_and a 15 ≡ a % 16
bit_and_nibble a = omega (arith, bit_and_digit a 15, and_seven (a / 2))

double_field : (a k : ℕ) → a * 2 ^ suc k ≡ 2 * (a * 2 ^ k)
double_field a k = omega (arith, ap (λ (t : ℕ). a * t) (pow-suc 2 k))

-- A field of `k` bits joined to a number that leaves them free.
pub bit_or_field : (k a r : ℕ) → r < 2 ^ k → bit_or (a * 2 ^ k) r ≡ a * 2 ^ k + r
bit_or_field zero a r h =
    let e : r ≡ 0 = omega arith in rw e (omega (arith, or_zero_below (a * 1) (a * 1) (omega arith)))
bit_or_field (suc k) a r h = omega (
  arith,
  bit_or_digit (a * 2 ^ suc k) r,
  double_field a k,
  pow-suc 2 k,
  bit_or_field k a (r / 2) (omega (arith, pow-suc 2 k)),
  half (a * 2 ^ suc k) (a * 2 ^ k) (double_field a k) r,
)
  where
    half : (x y : ℕ) → x ≡ 2 * y → (r : ℕ) → bit_or (x / 2) (r / 2) ≡ bit_or y (r / 2)
    half x y e r = ap (λ (t : ℕ). bit_or t (r / 2)) (omega arith)

and_31 : (a : ℕ) → bit_and a 31 ≡ a % 32
and_31 a = omega (arith, bit_and_digit a 31, bit_and_nibble (a / 2))

pub and_63 : (a : ℕ) → bit_and a 63 ≡ a % 64
and_63 a = omega (arith, bit_and_digit a 63, and_31 (a / 2))

pub and_127 : (a : ℕ) → bit_and a 127 ≡ a % 128
and_127 a = omega (arith, bit_and_digit a 127, and_63 (a / 2))

-- The mask of the lowest byte.
pub bit_and_byte : (a : ℕ) → bit_and a 255 ≡ a % 256
bit_and_byte a = omega (arith, bit_and_digit a 255, and_127 (a / 2))

or_low_below : (n a : ℕ) → a ≤ n → bit_or 0 a ≡ a
or_low_below n zero h = refl
or_low_below zero (suc a) h = absurd (omega arith)
or_low_below (suc n) (suc a) h =
    omega (arith, bit_or_digit 0 (suc a), or_low_below n (suc a / 2) (omega arith))

-- The same with the operands exchanged.
pub bit_or_low : (k a r : ℕ) → r < 2 ^ k → bit_or r (a * 2 ^ k) ≡ a * 2 ^ k + r
bit_or_low zero a r h =
    let e : r ≡ 0 = omega arith in rw e (omega (arith, or_low_below (a * 1) (a * 1) (omega arith)))
bit_or_low (suc k) a r h = omega (
  arith,
  bit_or_digit r (a * 2 ^ suc k),
  double_field a k,
  pow-suc 2 k,
  bit_or_low k a (r / 2) (omega (arith, pow-suc 2 k)),
  half (a * 2 ^ suc k) (a * 2 ^ k) (double_field a k) r,
)
  where
    half : (x y : ℕ) → x ≡ 2 * y → (r : ℕ) → bit_or (r / 2) (x / 2) ≡ bit_or (r / 2) y
    half x y e r = ap (λ (t : ℕ). bit_or (r / 2) t) (omega arith)

-- The highest bit of a byte.
pub and_128 : (a : ℕ) → a < 256 → bit_and a 128 ≡ a / 128 * 128
unfolding all_below
and_128 a h =
    ==→eq (bit_and a 128) (a / 128 * 128)
      (all_below-true 256 (λ x. bit_and x 128 == x / 128 * 128) a refl h)
