-- ===== src/Hex/Accepted.antt =====
-- Which texts adsbus/hex.c reads, and the bytes that it makes of them.
use native.Mathlib.Numerals.{add-one}
use adsb_tools.Prelude.{
  ℕ, zero, suc, ◌+◌, ◌*◌, ◌%◌, ◌≤◌, ◌<◌, ◌≡◌, ◌≢◌, refl, sym, ap, Bool, true, false, List, [], ◌∷◌,
  get_or, store, All, arith, ◌↔◌, ◌⊎◌, inl, inr, store-nil, store-store, ne→==, Bool-cases, leb,
  ◌&&◌, ◌==◌,
}
use adsb_tools.Bits.{bit_or_nibble}
use adsb_tools.Hex.{hex_value, hex_invalid, hex_to_bin_loop, hex_to_bin}
use adsb_tools.Hex.Digits.{digit_value, hex_value-eq-digit_value}
use adsb_tools.Hex.RoundTrip.{IsByte, IsHex, hex_to_bin-IsHex_iff}

-- A hexadecimal digit, in either case.
abbrev pub IsHexDigit : ℕ → Type 0
IsHexDigit c = ((b'0' ≤ c) × (c ≤ b'9')) ⊎ (((b'a' ≤ c) × (c ≤ b'f')) ⊎ ((b'A' ≤ c) × (c ≤ b'F')))

-- The first `n` characters are digits.
abbrev pub IsHexText : ℕ → List ℕ → Type 0
IsHexText n input = (j : ℕ) → j < n → IsHexDigit (get_or input j 0)

-- The bytes that the pairs of digits from the `i`th on stand for.
abbrev pub bytes_of : ℕ → ℕ → List ℕ → List ℕ
bytes_of zero i input = []
bytes_of (suc n) i input =
    (digit_value (get_or input (2 * i) 0) * 16 + digit_value (get_or input (2 * i + 1) 0))
    ∷ bytes_of n (i + 1) input

digit-value : (c : ℕ) → IsHexDigit c → (hex_value c ≡ digit_value c) × (digit_value c < 16)
unfolding digit_value
digit-value c h = elim h [
  | inl d ↦ (hex_value-eq-digit_value c (omega (arith, d.0, d.1)), ground (arith, d.0, d.1))
  | inr (inl d) ↦ (hex_value-eq-digit_value c (omega (arith, d.0, d.1)), ground (arith, d.0, d.1))
  | inr (inr d) ↦ (hex_value-eq-digit_value c (omega (arith, d.0, d.1)), ground (arith, d.0, d.1))
]

valid-IsHexDigit : (c : ℕ) → c < 256 → hex_value c ≢ hex_invalid → IsHexDigit c
unfolding digit_value
valid-IsHexDigit c small valid =
    let same = hex_value-eq-digit_value c small in
    elim (Bool-cases (leb b'0' c && leb c b'9')) [
      | inl e ↦ inl (ground arith, ground arith)
      | inr e ↦ elim (Bool-cases (leb b'a' c && leb c b'f')) [
        | inl e' ↦ inr (inl (ground arith, ground arith))
        | inr e' ↦ elim (Bool-cases (leb b'A' c && leb c b'F')) [
          | inl e'' ↦ inr (inr (ground arith, ground arith))
          | inr e'' ↦ absurd (valid (simp (same, digit_value, e, e', e'')))
        ]
      ]
    ]

get_or-IsByte : (input : List ℕ) (j : ℕ) → All IsByte input → get_or input j 0 < 256
get_or-IsByte [] j h = omega arith
get_or-IsByte (x ∷ input) zero h = h.0
get_or-IsByte (x ∷ input) (suc j) h = get_or-IsByte input j h.1

IsHexText-IsHex : (n : ℕ) (input : List ℕ) → IsHexText n input → IsHex n input
IsHexText-IsHex n input h j lt e =
    let v = digit-value (get_or input j 0) (h j lt) in omega (arith, v.0, v.1, e)

hex_to_bin_loop-bytes_of :
    (left i : ℕ) (out input : List ℕ)
    → ((j : ℕ) → 2 * i ≤ j → j < 2 * (i + left) → IsHexDigit (get_or input j 0))
    → hex_to_bin_loop left i out input ≡ (true, store out i (bytes_of left i input))
unfolding hex_to_bin_loop
hex_to_bin_loop-bytes_of zero i out input h = ap (λ (t : List ℕ). (true, t)) (sym (store-nil out i))
hex_to_bin_loop-bytes_of (suc left) i out input h =
    let (same1, small1) =
      digit-value (get_or input (2 * i) 0) (h (2 * i) (omega arith) (omega arith)) in
    let (same2, small2) =
      digit-value (get_or input (2 * i + 1) 0) (h (2 * i + 1) (omega arith) (omega arith)) in
    let d1 = digit_value (get_or input (2 * i) 0) in
    let d2 = digit_value (get_or input (2 * i + 1) 0) in
    let whole : d1 * 16 % 256 ≡ d1 * 16 = omega (arith, small1) in
    let valid1 : (d1 == hex_invalid) ≡ false =
      ne→== d1 hex_invalid (λ e. omega (arith, small1, e)) in
    let valid2 : (d2 == hex_invalid) ≡ false =
      ne→== d2 hex_invalid (λ e. omega (arith, small2, e)) in
    rw
      (
        same1,
        same2,
        valid1,
        valid2,
        whole,
        bit_or_nibble d1 d2 small2,
        hex_to_bin_loop-bytes_of left (i + 1) (store out i ((d1 * 16 + d2) ∷ [])) input
            (λ j lo hi. h j (omega arith) (omega arith)),
        add-one i,
        store-store out i (d1 * 16 + d2) (bytes_of left (suc i) input),
      )
      refl

-- On a text of bytes, `hex_to_bin` succeeds exactly when each of the characters that it reads is one
-- of 0 to 9, a to f and A to F, and exactly then it has stored the bytes that the pairs of digits
-- stand for at the front of the output.
pub hex_to_bin-true_iff :
    (out input : List ℕ) (bytes : ℕ)
    → All IsByte input
    → (((hex_to_bin out input bytes).0 ≡ true) ↔ IsHexText (2 * bytes) input)
      × ((hex_to_bin out input bytes ≡ (true, store out 0 (bytes_of bytes 0 input)))
          ↔ IsHexText (2 * bytes) input)
unfolding hex_to_bin
hex_to_bin-true_iff out input bytes h =
    let digits : (hex_to_bin out input bytes).0 ≡ true → IsHexText (2 * bytes) input = λ e j lt.
      valid-IsHexDigit (get_or input j 0) (get_or-IsByte input j h)
        ((hex_to_bin-IsHex_iff out input bytes).0 e j lt) in
    (
      (
        digits,
        (λ text. (hex_to_bin-IsHex_iff out input bytes).1 (IsHexText-IsHex (2 * bytes) input text)),
      ),
      (
        (λ e. digits (ap (λ (r : Bool × List ℕ). r.0) e)),
        (λ text. hex_to_bin_loop-bytes_of bytes 0 out input (λ j lo hi. text j (omega arith))),
      ),
    )
