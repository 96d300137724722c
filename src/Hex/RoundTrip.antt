-- ===== src/Hex/RoundTrip.antt =====
-- Reading back what hex.c writes, and which texts it reads.
use native.Mathlib.Numerals.{add-one}
use native.Mathlib.Decide.{ℕ_discrete}
use native.Mathlib.Nat.{pow-suc, add-zero, mod-eq_of_lt}
use adsb_tools.Prelude.{
  ok, lt→ltb, append-nil, length-store, store-nil, store-store, ℕ, zero, suc, ◌+◌, ◌*◌, ◌/◌, ◌%◌,
  ◌^◌, ◌≤◌, ◌<◌, ◌≡◌, refl, sym, ap, ◌∙◌, Bool, true, false, List, [], ◌∷◌, ◌++◌, length, get_or,
  take, drop, store, All, ltb, ◌==◌, ◌||◌, if◌then◌else◌, arith, bit_and, bit_or, Ssize, size, ◌≢◌,
  ◌↔◌, length-take, get_or_at, drop_at, minus_one, ne→==,
}
use adsb_tools.Bits.{bit_or_nibble, bit_and_nibble}
use adsb_tools.Packet.{u64}
use adsb_tools.Hex.{
  hex_value, hex_invalid, hex_to_bin_loop, hex_to_bin, hex_to_int_loop, hex_to_int, hex_from_bin,
  hex_from_int_loop, hex_from_int, hex_upper_table, hex_lower_table, hex_from_bin_upper,
  hex_from_bin_lower, hex_from_int_upper, ssize_max,
}
use adsb_tools.Hex.Digits.{IsDigits, upper-IsDigits, lower-IsDigits}

abbrev pub IsByte : ℕ → Type 0
IsByte b = b < 256

zero-add : (n : ℕ) → 0 + n ≡ n
zero-add n = omega arith

suc_add : (k m : ℕ) → suc k + m ≡ k + suc m
suc_add k m = omega arith

module _ (table : List ℕ) (good : IsDigits table) where
  pub length-hex_from_bin :
      (bs : List ℕ) → length (hex_from_bin table (length bs) bs) ≡ 2 * length bs
  unfolding hex_from_bin
  length-hex_from_bin [] = refl
  length-hex_from_bin (b ∷ bs) = omega (arith, length-hex_from_bin bs)

  byte_back :
      (b : ℕ)
      → IsByte b
      → bit_or
          (hex_value (get_or table (b / 16) 0) * 16 % 256)
          (hex_value (get_or table (bit_and b 15) 0))
        ≡ b
  byte_back b h =
      rw
        (
          bit_and_nibble b,
          good (b / 16) (omega arith),
          good (b % 16) (omega arith),
          mod_small (b / 16) (omega arith),
          bit_or_nibble (b / 16) (b % 16) (omega arith),
        )
        (omega arith)
    where
      mod_small : (a : ℕ) → a < 16 → a * 16 % 256 ≡ a * 16
      mod_small a k = omega arith

  nibbles_valid :
      (b : ℕ)
      → IsByte b
      → (hex_value (get_or table (b / 16) 0) == hex_invalid
          || hex_value (get_or table (bit_and b 15) 0) == hex_invalid)
        ≡ false
  nibbles_valid b h =
      rw (bit_and_nibble b, good (b / 16) (omega arith), good (b % 16) (omega arith)) (ground arith)

  hex_to_bin_loop-hex_from_bin :
      (bs : List ℕ) (i : ℕ) (out input rest : List ℕ)
      → All IsByte bs
      → drop (2 * i) input ≡ hex_from_bin table (length bs) bs ++ rest
      → hex_to_bin_loop (length bs) i out input ≡ (true, store out i bs)
  unfolding hex_to_bin_loop hex_from_bin
  hex_to_bin_loop-hex_from_bin [] i out input rest h e =
      ap (λ (t : List ℕ). (true, t)) (sym (store-nil out i))
  hex_to_bin_loop-hex_from_bin (b ∷ bs) i out input rest h e = rw (
    get_or_at (2 * i) input (2 * i) 0 0 e (omega arith),
    get_or_at (2 * i) input (2 * i + 1) 1 0 e (omega arith),
    nibbles_valid b h.0,
    byte_back b h.0,
    hex_to_bin_loop-hex_from_bin bs (i + 1) (store out i (b ∷ [])) input rest h.1
        (drop_at (2 * i) input (2 * (i + 1)) 2 e (omega arith)),
    add-one i,
    store-store out i b bs,
  )

  -- `hex_to_bin` reads back what `hex_from_bin` wrote with either table.
  pub hex_to_bin-hex_from_bin :
      (bs out rest : List ℕ)
      → All IsByte bs
      → hex_to_bin out (hex_from_bin table (length bs) bs ++ rest) (length bs)
        ≡ (true, store out 0 bs)
  unfolding hex_to_bin
  hex_to_bin-hex_from_bin bs out rest h = hex_to_bin_loop-hex_from_bin bs 0 out _ rest h refl

pub hex_from_bin-take :
    (table : List ℕ) (n : ℕ) (bs : List ℕ)
    → n ≤ length bs
    → hex_from_bin table n bs ≡ hex_from_bin table (length (take n bs)) (take n bs)
unfolding hex_from_bin
hex_from_bin-take table zero bs h = refl
hex_from_bin-take table (suc n) [] h = absurd (omega arith)
hex_from_bin-take table (suc n) (b ∷ bs) h =
    ap (λ (t : List ℕ). get_or table (b / 16) 0 ∷ get_or table (bit_and b 15) 0 ∷ t)
      (hex_from_bin-take table n bs (omega arith))

-- The number of digits, for a payload that is there.
pub length-hex_from_bin_upper :
    (n : ℕ) (bs : List ℕ) → n ≤ length bs → length (hex_from_bin_upper bs n) ≡ 2 * n
unfolding hex_from_bin_upper
length-hex_from_bin_upper n bs h = rw (hex_from_bin-take hex_upper_table n bs h) (
    omega (arith, length-hex_from_bin hex_upper_table upper-IsDigits (take n bs), length-take n bs))

-- `hex_to_bin` succeeds on the text that `hex_from_bin_upper` writes for a list of bytes, and on
-- that of `hex_from_bin_lower`, whatever follows it, and stores the bytes at the front of the
-- output.
pub hex_to_bin_inverts :
    (bs out rest : List ℕ)
    → All IsByte bs
    → (hex_to_bin out (hex_from_bin_upper bs (length bs) ++ rest) (length bs)
        ≡ (true, store out 0 bs))
      × (hex_to_bin out (hex_from_bin_lower bs (length bs) ++ rest) (length bs)
          ≡ (true, store out 0 bs))
unfolding hex_from_bin_upper hex_from_bin_lower
hex_to_bin_inverts bs out rest h = (
  hex_to_bin-hex_from_bin hex_upper_table upper-IsDigits bs out rest h,
  hex_to_bin-hex_from_bin hex_lower_table lower-IsDigits bs out rest h,
)

pub All-take : (n : ℕ) (bs : List ℕ) → All IsByte bs → All IsByte (take n bs)
All-take zero bs h = tt
All-take (suc n) [] h = tt
All-take (suc n) (b ∷ bs) h = (h.0, All-take n bs h.1)

-- The first `n` bytes of an array come back from the text that holds them.
pub hex_to_bin-hex_from_bin_upper :
    (n : ℕ) (bs out rest : List ℕ)
    → n ≤ length bs
    → All IsByte bs
    → hex_to_bin out (hex_from_bin_upper bs n ++ rest) n ≡ (true, store out 0 (take n bs))
unfolding hex_from_bin_upper
hex_to_bin-hex_from_bin_upper n bs out rest h k =
    let len : length (take n bs) ≡ n = omega (arith, length-take n bs) in
    rw (hex_from_bin-take hex_upper_table n bs h) (
      ap
        (λ (m : ℕ).
          hex_to_bin out (hex_from_bin hex_upper_table (length (take n bs)) (take n bs) ++ rest) m)
        (sym len)
      ∙ hex_to_bin-hex_from_bin hex_upper_table upper-IsDigits (take n bs) out rest
          (All-take n bs k))

-- The first `n` characters have valid entries in the table.
abbrev pub IsHex : ℕ → List ℕ → Type 0
IsHex n input = (j : ℕ) → j < n → hex_value (get_or input j 0) ≢ hex_invalid

hex_to_bin_loop-true :
    (left i : ℕ) (out input : List ℕ)
    → (hex_to_bin_loop left i out input).0 ≡ true
    → (j : ℕ) → 2 * i ≤ j
    → j < 2 * (i + left)
    → hex_value (get_or input j 0) ≢ hex_invalid
unfolding hex_to_bin_loop
hex_to_bin_loop-true zero i out input h j lo hi = absurd (omega arith)
hex_to_bin_loop-true (suc left) i out input h j lo hi =
    let first : hex_value (get_or input (2 * i) 0) ≢ hex_invalid = ground arith in
    let second : hex_value (get_or input (2 * i + 1) 0) ≢ hex_invalid = ground arith in
    let rest : (hex_to_bin_loop left (i + 1)
          (store out i (
            bit_or (hex_value (get_or input (2 * i) 0) * 16 % 256)
              (hex_value (get_or input (2 * i + 1) 0))
            ∷ []))
          input).0
        ≡ true =
      ground arith in
    elim (ℕ_discrete j (2 * i)) [
      | yes e ↦ rw e first
      | no ne ↦ elim (ℕ_discrete j (2 * i + 1)) [
        | yes e ↦ rw e second
        | no ne' ↦ hex_to_bin_loop-true left (i + 1) _ input rest j (omega arith) (omega arith)
      ]
    ]

hex_to_bin_loop_of_hex :
    (left i : ℕ) (out input : List ℕ)
    → ((j : ℕ) → 2 * i ≤ j → j < 2 * (i + left) → hex_value (get_or input j 0) ≢ hex_invalid)
    → (hex_to_bin_loop left i out input).0 ≡ true
unfolding hex_to_bin_loop
hex_to_bin_loop_of_hex zero i out input h = refl
hex_to_bin_loop_of_hex (suc left) i out input h =
    rw
      (
        ne→== _ _ (h (2 * i) (omega arith) (omega arith)),
        ne→== _ _ (h (2 * i + 1) (omega arith) (omega arith)),
      )
      (hex_to_bin_loop_of_hex left (i + 1) _ input (λ j lo hi. h j (omega arith) (omega arith)))

-- The entries of the table for the characters that are read.
pub hex_to_bin-IsHex_iff :
    (out input : List ℕ) (bytes : ℕ)
    → ((hex_to_bin out input bytes).0 ≡ true) ↔ IsHex (2 * bytes) input
unfolding hex_to_bin
hex_to_bin-IsHex_iff out input bytes = (
  (λ h j hj. hex_to_bin_loop-true bytes 0 out input h j (omega arith) (omega arith)),
  (λ h. hex_to_bin_loop_of_hex bytes 0 out input (λ j lo hi. h j (omega arith))),
)

-- A text that `hex_from_bin_upper` wrote has digits only.
pub hex_from_bin_upper-IsHex :
    (n : ℕ) (bs : List ℕ) → n ≤ length bs → All IsByte bs → IsHex (2 * n) (hex_from_bin_upper bs n)
hex_from_bin_upper-IsHex n bs h k = (hex_to_bin-IsHex_iff [] (hex_from_bin_upper bs n) n).0 (
    ap (λ (r : Bool × List ℕ). r.0)
      (rw (append-nil (hex_from_bin_upper bs n)) at (hex_to_bin-hex_from_bin_upper n bs [] [] h k)))

-- `hex_to_int_loop` as a walk along its input.
read_digits : ℕ → ℕ → List ℕ → Ssize
read_digits zero ret l = if ltb 0x7fff_ffff_ffff_ffff ret then minus_one else size ret
read_digits (suc n) ret l =
    let val = hex_value (get_or l 0 0) in
    let rest = read_digits n (bit_or (u64 (ret * 16)) val) (drop 1 l) in
    if val == 0xff then minus_one else rest

hex_to_int_loop-read_digits :
    (n i ret : ℕ) (input l : List ℕ)
    → drop i input ≡ l
    → hex_to_int_loop n i ret input ≡ read_digits n ret l
unfolding hex_to_int_loop read_digits
hex_to_int_loop-read_digits zero i ret input l e = refl
hex_to_int_loop-read_digits (suc n) i ret input l e = rw (
  get_or_at i input i 0 0 e (omega arith),
  hex_to_int_loop-read_digits n (i + 1) _ input (drop 1 l) (drop_at i input (i + 1) 1 e refl),
)

module _ (table : List ℕ) (good : IsDigits table) where
  read_one :
      (n v : ℕ) (l : List ℕ)
      → v < 0x1000_0000_0000_0000
      → read_digits (suc n) (v / 16) (get_or table (bit_and v 15) 0 ∷ l) ≡ read_digits n v l
  unfolding read_digits
  read_one n v l h = rw (
    bit_and_nibble v,
    good (v % 16) (omega arith),
    ne→== (v % 16) 255 (omega arith),
    no_wrap,
    bit_or_nibble (v / 16) (v % 16) (omega arith),
    whole,
  )
    where
      no_wrap : u64 (v / 16 * 16) ≡ v / 16 * 16
      no_wrap = omega arith

      whole : v / 16 * 16 + v % 16 ≡ v
      whole = omega arith

  read_digits-hex_from_int_loop :
      (k m v : ℕ) (l : List ℕ)
      → v < 16 ^ k
      → v < 0x1000_0000_0000_0000
      → read_digits (k + m) 0 (hex_from_int_loop table k v l) ≡ read_digits m v l
  unfolding hex_from_int_loop
  read_digits-hex_from_int_loop zero m v l h s = let e : v ≡ 0 = omega arith in rw (zero-add m, e)
  read_digits-hex_from_int_loop (suc k) m v l h s =
      let fits : v / 16 < 16 ^ k = omega (arith, pow-suc 16 k) in
      let digit = get_or table (bit_and v 15) 0 in
      rw (suc_add k m) (
        read_digits-hex_from_int_loop k (suc m) (v / 16) (digit ∷ l) fits (omega arith)
        ∙ read_one m v l s)

hex_from_int_loop-append :
    (table : List ℕ) (k v : ℕ) (acc rest : List ℕ)
    → hex_from_int_loop table k v (acc ++ rest) ≡ hex_from_int_loop table k v acc ++ rest
unfolding hex_from_int_loop
hex_from_int_loop-append table zero v acc rest = refl
hex_from_int_loop-append table (suc k) v acc rest =
    hex_from_int_loop-append table k (v / 16) (get_or table (bit_and v 15) 0 ∷ acc) rest

length-hex_from_int_loop :
    (table : List ℕ) (k v : ℕ) (acc : List ℕ)
    → length (hex_from_int_loop table k v acc) ≡ k + length acc
unfolding hex_from_int_loop
length-hex_from_int_loop table zero v acc = omega arith
length-hex_from_int_loop table (suc k) v acc =
    omega (arith, length-hex_from_int_loop table k (v / 16) (get_or table (bit_and v 15) 0 ∷ acc))

read_all :
    (n v : ℕ) (rest : List ℕ)
    → v < 16 ^ n
    → v < 0x1000_0000_0000_0000
    → read_digits n 0 (hex_from_int_loop hex_upper_table n v rest) ≡ size v
read_all n v rest h s =
    ap (λ (k : ℕ). read_digits k 0 (hex_from_int_loop hex_upper_table n v rest)) (sym (add-zero n))
    ∙ read_digits-hex_from_int_loop hex_upper_table upper-IsDigits n 0 v rest h s
    ∙ unfold read_digits in ground arith

-- For a number of digits that `ssize_t` can count: `hex_from_int_upper` does not fail its `assert`, and
-- writes two digits for each byte; `hex_to_int` reads back what it wrote, whatever follows it, if
-- the value fits the digits and 60 bits.
pub hex_to_int-hex_from_int_upper :
    (v bytes : ℕ) (rest : List ℕ)
    → bytes * 2 < ssize_max
    → v < 16 ^ (bytes * 2)
    → v < 0x1000_0000_0000_0000
    → (text : List ℕ) × (hex_from_int_upper v bytes ≡ ok text)
      × (length text ≡ bytes * 2)
      × (hex_to_int (text ++ rest) bytes ≡ size v)
unfolding hex_to_int hex_from_int_upper hex_from_int
hex_to_int-hex_from_int_upper v bytes rest few h s =
    let n = bytes * 2 in
    let whole : u64 n ≡ n = mod-eq_of_lt (omega (arith, few)) in
    let counts : ltb n ssize_max ≡ true = lt→ltb n ssize_max few in
    (
      hex_from_int_loop hex_upper_table n v [],
      simp (hex_from_int_upper, hex_from_int, whole, counts),
      omega (arith, length-hex_from_int_loop hex_upper_table n v []),
      rw
          (
            ← hex_from_int_loop-append hex_upper_table n v [] rest,
            hex_to_int_loop-read_digits n 0 0 (hex_from_int_loop hex_upper_table n v rest) _ refl,
          )
          (read_all n v rest h s),
    )

hex_to_bin_loop-length :
    (left i : ℕ) (out input : List ℕ) → length (hex_to_bin_loop left i out input).1 ≡ length out
unfolding hex_to_bin_loop
hex_to_bin_loop-length zero i out input = refl
hex_to_bin_loop-length (suc left) i out input =
    let byte =
      bit_or (hex_value (get_or input (2 * i) 0) * 16 % 256)
        (hex_value (get_or input (2 * i + 1) 0)) in
    ground (
      arith,
      length-store out i (byte ∷ []),
      hex_to_bin_loop-length left (i + 1) (store out i (byte ∷ [])) input,
    )

-- The array keeps its size, also where the text is bad.
pub length-hex_to_bin :
    (out input : List ℕ) (bytes : ℕ) → length (hex_to_bin out input bytes).1 ≡ length out
unfolding hex_to_bin
length-hex_to_bin out input bytes = hex_to_bin_loop-length bytes 0 out input
