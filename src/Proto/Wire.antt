-- ===== src/Proto/Wire.antt =====
-- adsbus/proto.c: a length as it is written, and how it is read.
use native.Mathlib.Nat.{mod-eq_of_lt, pow-suc, pow-le-pow_right, mul-le-mul_right}
use adsb_tools.Prelude.{
  ℕ, zero, suc, ◌+◌, ◌*◌, ◌/◌, ◌%◌, ◌^◌, ◌≤◌, ◌<◌, ◌≡◌, ap, ◌∙◌, bit_and, bit_or, some, List, [],
  ◌∷◌, length, ltb, if◌then◌else◌, arith, Bool-cases, inl, inr, get_or, lt→ltb, ge→ltb,
}
use adsb_tools.Bits.{bit_or_low, and_127, and_128}
use adsb_tools.Packet.{u64}
use adsb_tools.Buf.{Buf, buf_chr}
use adsb_tools.Proto.{ssize_max, varint_loop}

-- A number in at most so many bytes, seven bits in each, the lowest first; all but the last byte
-- have the highest bit set. It is what the format's definition prescribes.
unfoldable pub varint : ℕ → ℕ → List ℕ
varint zero n = []
varint (suc k) n =
    let rest = varint k (n / 128) in if ltb n 128 then n ∷ [] else (128 + n % 128) ∷ rest

-- The value so far and the seven bits that come next.
joined :
    (shift v x : ℕ)
    → v < 2 ^ shift
    → x * 2 ^ shift < 0x1_0000_0000_0000_0000
    → bit_or v (u64 (x * 2 ^ shift)) ≡ v + x * 2 ^ shift
joined shift v x h fits =
    ap (λ (t : ℕ). bit_or v t) (mod-eq_of_lt fits) ∙ omega (arith, bit_or_low shift x v h)

pow_seven : (s : ℕ) → 2 ^ (s + 7) ≡ 128 * 2 ^ s
pow_seven s =
    ap (λ (t : ℕ). 2 ^ t) (steps s)
    ∙ omega (
      arith,
      pow-suc 2 s,
      pow-suc 2 (suc s),
      pow-suc 2 (suc (suc s)),
      pow-suc 2 (suc (suc (suc s))),
      pow-suc 2 (suc (suc (suc (suc s)))),
      pow-suc 2 (suc (suc (suc (suc (suc s))))),
      pow-suc 2 (suc (suc (suc (suc (suc (suc s)))))),
    )
  where
    steps : (s : ℕ) → s + 7 ≡ suc (suc (suc (suc (suc (suc (suc s))))))
    steps s = omega arith

-- Seven bits more leave the value below the next power.
seven_more :
    (s v x : ℕ)
    → s ≤ 21
    → v < 2 ^ s
    → x < 128
    → (v + x * 2 ^ s < 2 ^ (s + 7))
      × (v + x * 2 ^ s ≤ ssize_max)
      × (x * 2 ^ s < 0x1_0000_0000_0000_0000)
seven_more s v x short h small =
    let cap : 2 ^ s ≤ 2 ^ 21 = pow-le-pow_right (omega arith) short in
    let room : x * 2 ^ s ≤ 127 * 2 ^ s = mul-le-mul_right (2 ^ s) (omega arith) in
    (omega (arith, pow_seven s, room), omega (arith, cap, room), omega (arith, cap, room))

-- One byte is read: the last one, or one that is followed by more.
module _ (left : ℕ) (b : Buf) (start v s : ℕ) (inside : start < b.length) (short : s ≤ 21)
    (low : v < 2 ^ s) where
  last_byte :
      (n : ℕ)
      → n < 128
      → buf_chr b start ≡ n
      → varint_loop (suc left) b start v s ≡ (some (v + n * 2 ^ s), start + 1)
  unfolding varint_loop
  last_byte n small here =
      let fits = seven_more s v n short low small in
      let bits : bit_and n 127 ≡ n = and_127 n ∙ mod-eq_of_lt small in
      let top : bit_and n 128 ≡ 0 = and_128 n (omega arith) ∙ omega arith in
      simp (
        varint_loop,
        here,
        lt→ltb start b.length inside,
        bits,
        joined s v n low fits.2,
        ge→ltb ssize_max (v + n * 2 ^ s) fits.1,
        top,
      )

  inner_byte :
      (n : ℕ)
      → s + 7 ≤ 21
      → buf_chr b start ≡ 128 + n % 128
      → varint_loop (suc left) b start v s
        ≡ varint_loop left b (start + 1) (v + n % 128 * 2 ^ s) (s + 7)
  unfolding varint_loop
  inner_byte n more here =
      let fits = seven_more s v (n % 128) short low (omega arith) in
      let bits : bit_and (128 + n % 128) 127 ≡ n % 128 = and_127 (128 + n % 128) ∙ omega arith in
      let top : bit_and (128 + n % 128) 128 ≡ 128 =
        and_128 (128 + n % 128) (omega arith) ∙ omega arith in
      let shift : (s + 7) % 65536 ≡ s + 7 = mod-eq_of_lt (omega arith) in
      simp (
        varint_loop,
        here,
        lt→ltb start b.length inside,
        bits,
        joined s v (n % 128) low fits.2,
        ge→ltb ssize_max (v + n % 128 * 2 ^ s) fits.1,
        top,
        shift,
        ge→ltb 21 (s + 7) more,
      )

varint-last : (k n : ℕ) → n < 128 → varint (suc k) n ≡ n ∷ []
unfolding varint
varint-last k n h = simp (varint, lt→ltb n 128 h)

varint-inner : (k n : ℕ) → 128 ≤ n → varint (suc k) n ≡ (128 + n % 128) ∷ varint k (n / 128)
unfolding varint
varint-inner k n h = simp (varint, ge→ltb n 128 h)

-- What is left of a number after its lowest seven bits, at their place.
digits_join : (v n P : ℕ) → v + n % 128 * P + n / 128 * (128 * P) ≡ v + n * P
digits_join v n P =
    let whole : n * P ≡ (n / 128 * 128 + n % 128) * P = ap (λ (t : ℕ). t * P) (omega arith) in
    omega (arith, whole)

-- Bytes of the buffer from a place on.
abbrev Spells : Buf → ℕ → List ℕ → Type 0
Spells b start xs = (j : ℕ) → j < length xs → buf_chr b (start + j) ≡ get_or xs j 0

Spells-tail :
    (b : Buf) (start x : ℕ) (xs : List ℕ) → Spells b start (x ∷ xs) → Spells b (start + 1) xs
Spells-tail b start x xs h j lt =
    ap (λ (t : ℕ). buf_chr b t) (omega arith) ∙ h (suc j) (omega arith)

Spells-head : (b : Buf) (start x : ℕ) (xs : List ℕ) → Spells b start (x ∷ xs) → buf_chr b start ≡ x
Spells-head b start x xs h = ap (λ (t : ℕ). buf_chr b t) (omega arith) ∙ h 0 (omega arith)

varint_positive : (k n : ℕ) → 0 < length (varint (suc k) n)
unfolding varint
varint_positive k n = elim (Bool-cases (ltb n 128)) [
  | inl e ↦ simp (varint, e) (omega arith)
  | inr e ↦ simp (varint, e) (omega arith)
]

read_last :
    (k left : ℕ) (b : Buf) (start v s n : ℕ)
    → s + 7 * suc k ≡ 28
    → n < 128
    → v < 2 ^ s
    → start + length (varint (suc k) n) ≤ b.length
    → Spells b start (varint (suc k) n)
    → varint_loop (suc left) b start v s ≡ (some (v + n * 2 ^ s), start + length (varint (suc k) n))
read_last k left b start v s n place small low inside spells =
    let e = varint-last k n small in
    let inside' = simp e at inside in
    let spells' = simp e at spells in
    simp e (
      last_byte left b start v s (omega (arith, inside')) (omega arith) low n small
        (Spells-head b start n [] spells'))

-- The bytes of a number are read as the number.
pub varint_loop-varint :
    (k left : ℕ) (b : Buf) (start v s n : ℕ)
    → s + 7 * suc k ≡ 28
    → n < 128 ^ suc k
    → v < 2 ^ s
    → length (varint (suc k) n) ≤ left
    → start + length (varint (suc k) n) ≤ b.length
    → Spells b start (varint (suc k) n)
    → varint_loop left b start v s ≡ (some (v + n * 2 ^ s), start + length (varint (suc k) n))
varint_loop-varint k zero b start v s n place bound low rounds inside spells =
    absurd (omega (arith, varint_positive k n, rounds))
varint_loop-varint zero (suc left) b start v s n place bound low rounds inside spells =
    read_last zero left b start v s n place (omega arith) low inside spells
varint_loop-varint (suc k) (suc left) b start v s n place bound low rounds inside spells =
    elim (Bool-cases (ltb n 128)) [
      | inl small ↦
          read_last (suc k) left b start v s n place (ground (arith, small)) low inside spells
      | inr large ↦
          let big : 128 ≤ n = ground (arith, large) in
          let e = varint-inner (suc k) n big in
          let spells' = simp e at spells in
          let inside' = simp e at inside in
          let rounds' = simp e at rounds in
          let short : s + 7 ≤ 21 = omega arith in
          let fits = seven_more s v (n % 128) (omega arith) low (omega arith) in
          let smaller : n / 128 < 128 ^ suc k = omega (arith, pow-suc 128 (suc k)) in
          let one =
            inner_byte left b start v s (omega (arith, inside')) (omega arith) low n short
              (Spells-head b start (128 + n % 128) (varint (suc k) (n / 128)) spells') in
          let rest =
            varint_loop-varint k left b (start + 1) (v + n % 128 * 2 ^ s) (s + 7) (n / 128)
              (omega arith) smaller fits.0 (omega (arith, rounds')) (omega (arith, inside'))
              (Spells-tail b start (128 + n % 128) (varint (suc k) (n / 128)) spells') in
          let value : v + n % 128 * 2 ^ s + n / 128 * 2 ^ (s + 7) ≡ v + n * 2 ^ s =
            ap (λ (t : ℕ). v + n % 128 * 2 ^ s + n / 128 * t) (pow_seven s)
            ∙ digits_join v n (2 ^ s) in
          let behind : start + 1 + length (varint (suc k) (n / 128))
              ≡ start + length (varint (suc (suc k)) n) =
            simp e (omega arith) in
          one
          ∙ rest
          ∙ ap (λ (t : ℕ). (some t, start + 1 + length (varint (suc k) (n / 128)))) value
          ∙ ap (λ (t : ℕ). (some (v + n * 2 ^ s), t)) behind
    ]

-- A length of less than `2 ^ 14` takes two bytes at most.
pub varint-short : (n : ℕ) → n < 16384 → length (varint 4 n) ≤ 2
unfolding varint
varint-short n h = elim (Bool-cases (ltb n 128)) [
  | inl e ↦ simp (varint, e) (omega arith)
  | inr e ↦
      let small : n / 128 < 128 = omega arith in
      simp (varint, e, lt→ltb (n / 128) 128 small) (omega arith)
]
