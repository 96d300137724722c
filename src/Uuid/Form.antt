-- ===== src/Uuid/Form.antt =====
-- The identifiers that adsbus/uuid.c makes are such as adsbus/packet.c accepts.
use mathlib.Core.Path.{subst}
use adsb_tools.Prelude.{
  ℕ, zero, suc, ◌+◌, ◌*◌, ◌/◌, ◌≤◌, ◌<◌, ◌≡◌, refl, sym, ap, ◌∙◌, true, some, Option, List, [], ◌∷◌,
  ◌++◌, append_assoc, ◌&&◌, leb, length, get_or, drop, store, All, bit_and, bit_or, ok, arith,
  length-append, length-store, length-drop, leb→le, store-nil,
}
use adsb_tools.Bits.{all_below, all_below-true, bit_and_nibble, and_63}
use adsb_tools.Buf.{Buf}
use adsb_tools.Packet.{packet_validate_id, uuid_len}
use adsb_tools.Packet.Identifier.{IsPrintable, IsIdentifier, packet_validate_id_iff}
use adsb_tools.Hex.{hex_from_bin, hex_lower_table, hex_from_bin_lower}
use adsb_tools.Hex.RoundTrip.{IsByte}
use adsb_tools.Rand.{rand_fill}
use adsb_tools.Uuid.{dashed, uuid_mark, uuid_text, uuid_gen}

printable_digits :
    all_below 16 (λ d. leb 32 (get_or hex_lower_table d 0) && leb (get_or hex_lower_table d 0) 126)
    ≡ true
unfolding all_below
printable_digits = refl

digit-IsPrintable : (d : ℕ) → d < 16 → IsPrintable (get_or hex_lower_table d 0)
digit-IsPrintable d h =
    let e = all_below-true 16 _ d printable_digits h in (ground arith, ground arith)

hex-IsPrintable :
    (n : ℕ) (bs : List ℕ) → All IsByte bs → All IsPrintable (hex_from_bin hex_lower_table n bs)
unfolding hex_from_bin
hex-IsPrintable zero bs h = tt
hex-IsPrintable (suc n) [] h = tt
hex-IsPrintable (suc n) (b ∷ bs) h = (
  digit-IsPrintable (b / 16) (omega (arith, h.0)),
  (digit-IsPrintable (bit_and b 15) (omega (arith, bit_and_nibble b)), hex-IsPrintable n bs h.1),
)

length-hex :
    (n : ℕ) (bs : List ℕ) → n ≤ length bs → length (hex_from_bin hex_lower_table n bs) ≡ 2 * n
unfolding hex_from_bin
length-hex zero bs h = refl
length-hex (suc n) [] h = absurd (omega arith)
length-hex (suc n) (b ∷ bs) h = omega (arith, length-hex n bs)

All-append : (xs ys : List ℕ) → All IsPrintable xs → All IsPrintable ys → All IsPrintable (xs ++ ys)
All-append [] ys h k = k
All-append (x ∷ xs) ys h k = (h.0, All-append xs ys h.1 k)

All-drop : (n : ℕ) (xs : List ℕ) → All IsByte xs → All IsByte (drop n xs)
All-drop zero xs h = h
All-drop (suc n) [] h = tt
All-drop (suc n) (x ∷ xs) h = All-drop n xs h.1

All-store : (i b : ℕ) (xs : List ℕ) → IsByte b → All IsByte xs → All IsByte (store xs i (b ∷ []))
All-store i b [] h k = tt
All-store zero b (x ∷ xs) h k = (h, subst (All IsByte) (sym (store-nil xs 0)) k.1)
All-store (suc i) b (x ∷ xs) h k = (k.0, All-store i b xs h k.1)

versions : all_below 16 (λ x. leb (bit_or x 0x40) 255) ≡ true
unfolding all_below
versions = refl

variants : all_below 64 (λ x. leb (bit_or x 0x80) 255) ≡ true
unfolding all_below
variants = refl

version-IsByte : (v : ℕ) → IsByte (bit_or (bit_and v 0x0f) 0x40)
version-IsByte v =
    let e =
      leb→le _ _ (all_below-true 16 _ (bit_and v 15) versions (omega (arith, bit_and_nibble v))) in
    omega (arith, e)

variant-IsByte : (v : ℕ) → IsByte (bit_or (bit_and v 0x3f) 0x80)
variant-IsByte v =
    let e = leb→le _ _ (all_below-true 64 _ (bit_and v 63) variants (omega (arith, and_63 v))) in
    omega (arith, e)

uuid_mark-bytes :
    (uuid : List ℕ)
    → All IsByte uuid
    → All IsByte (uuid_mark uuid) × (length (uuid_mark uuid) ≡ length uuid)
unfolding uuid_mark
uuid_mark-bytes uuid h =
    let mark6 = bit_or (bit_and (get_or uuid 6 0) 0x0f) 0x40 in
    let versioned = store uuid 6 (mark6 ∷ []) in
    let mark8 = bit_or (bit_and (get_or versioned 8 0) 0x3f) 0x80 in
    (
      All-store 8 mark8 versioned (variant-IsByte (get_or versioned 8 0))
          (All-store 6 mark6 uuid (version-IsByte (get_or uuid 6 0)) h),
      length-store versioned 8 (mark8 ∷ []) ∙ length-store uuid 6 (mark6 ∷ []),
    )

-- The groups of digits.
abbrev group : ℕ → ℕ → List ℕ → List ℕ
group n k uuid = hex_from_bin hex_lower_table n (drop k uuid)

-- The text before the terminator.
abbrev printed : List ℕ → List ℕ
printed uuid =
    dashed (group 4 0 uuid) (
      dashed (group 2 4 uuid) (dashed (group 2 6 uuid) (dashed (group 2 8 uuid) (group 6 10 uuid))))

dash-IsPrintable :
    (xs ys : List ℕ) → All IsPrintable xs → All IsPrintable ys → All IsPrintable (dashed xs ys)
dash-IsPrintable xs ys h k = All-append xs (b'-' ∷ ys) h ((omega arith, omega arith), k)

printed-IsPrintable : (uuid : List ℕ) → All IsByte uuid → All IsPrintable (printed uuid)
printed-IsPrintable uuid h =
    let part = λ (n : ℕ) (k : ℕ). hex-IsPrintable n (drop k uuid) (All-drop k uuid h) in
    dash-IsPrintable _ _ (part 4 0) (
      dash-IsPrintable _ _ (part 2 4)
        (dash-IsPrintable _ _ (part 2 6) (dash-IsPrintable _ _ (part 2 8) (part 6 10))))

length-dashed :
    (xs ys : List ℕ) (n m : ℕ) → length xs ≡ n → length ys ≡ m → length (dashed xs ys) ≡ n + 1 + m
length-dashed xs ys n m h k = omega (arith, length-append xs (b'-' ∷ ys))

length-group :
    (n k : ℕ) (uuid : List ℕ) → length uuid ≡ 16 → n + k ≤ 16 → length (group n k uuid) ≡ 2 * n
length-group n k uuid h fits = length-hex n (drop k uuid) (omega (arith, length-drop k uuid))

length-printed : (uuid : List ℕ) → length uuid ≡ 16 → length (printed uuid) ≡ 36
length-printed uuid h =
    let part = λ (n : ℕ) (k : ℕ) (fits : n + k ≤ 16). length-group n k uuid h fits in
    length-dashed _ _ 8 27 (part 4 0 (omega arith)) (
      length-dashed _ _ 4 22 (part 2 4 (omega arith)) (
        length-dashed _ _ 4 17 (part 2 6 (omega arith))
          (length-dashed _ _ 4 12 (part 2 8 (omega arith)) (part 6 10 (omega arith)))))

dashed-append : (xs ys zs : List ℕ) → dashed xs ys ++ zs ≡ dashed xs (ys ++ zs)
dashed-append xs ys zs = append_assoc xs (b'-' ∷ ys) zs

terminated : (uuid : List ℕ) → uuid_text uuid ≡ printed uuid ++ (0 ∷ [])
unfolding uuid_text hex_from_bin_lower
terminated uuid = simp dashed-append

-- Five groups of 8, 4, 4, 4 and 12 printable characters, joined by dashes, and a terminator.
pub record HasForm (id : List ℕ) : Type 0 where
  pub first : List ℕ
  pub second : List ℕ
  pub third : List ℕ
  pub fourth : List ℕ
  pub fifth : List ℕ
  pub whole : id ≡ dashed first (dashed second (dashed third (dashed fourth (fifth ++ (0 ∷ [])))))
  pub lengths :
      (length first ≡ 8)
      × (length second ≡ 4)
      × (length third ≡ 4)
      × (length fourth ≡ 4)
      × (length fifth ≡ 12)
  pub printable : All (All IsPrintable) (first ∷ second ∷ third ∷ fourth ∷ fifth ∷ [])

text-HasForm : (uuid : List ℕ) → length uuid ≡ 16 → All IsByte uuid → HasForm (uuid_text uuid)
unfolding uuid_text hex_from_bin_lower
text-HasForm uuid h bytes =
    let part = λ (n : ℕ) (k : ℕ). hex-IsPrintable n (drop k uuid) (All-drop k uuid bytes) in
    record {
      first = group 4 0 uuid;
      second = group 2 4 uuid;
      third = group 2 6 uuid;
      fourth = group 2 8 uuid;
      fifth = group 6 10 uuid;
      whole = refl;
      lengths = (
        length-group 4 0 uuid h (omega arith),
        length-group 2 4 uuid h (omega arith),
        length-group 2 6 uuid h (omega arith),
        length-group 2 8 uuid h (omega arith),
        length-group 6 10 uuid h (omega arith),
      );
      printable = (part 4 0, (part 2 4, (part 2 6, (part 2 8, (part 6 10, tt)))));
    }

uuid_text-valid :
    (uuid : List ℕ)
    → length uuid ≡ 16
    → All IsByte uuid
    → (length (uuid_text (uuid_mark uuid)) ≡ uuid_len)
      × (packet_validate_id (some (uuid_text (uuid_mark uuid))) ≡ true)
unfolding IsIdentifier
uuid_text-valid uuid h bytes =
    let (marked, len) = uuid_mark-bytes uuid bytes in
    let front = length-printed (uuid_mark uuid) (len ∙ h) in
    let text = printed (uuid_mark uuid) in
    (
      omega (arith, ap length (terminated (uuid_mark uuid)), length-append text (0 ∷ []), front),
      (packet_validate_id_iff (uuid_text (uuid_mark uuid))).1 (
        text,
        [],
        terminated (uuid_mark uuid),
        omega (arith, front),
        printed-IsPrintable (uuid_mark uuid) marked,
      ),
    )

-- When the random source delivers 16 bytes, `uuid_gen` returns an identifier that fills its array
-- exactly: five groups of 8, 4, 4, 4 and 12 printable characters, joined by dashes, which are 36
-- characters, and a terminator. `packet_validate_id` accepts it.
pub uuid_gen-valid :
    (readv : ℕ → Option (List ℕ)) (rand_buf rand_buf' : Buf) (uuid : List ℕ)
    → rand_fill readv 16 rand_buf ≡ ok (uuid, rand_buf')
    → length uuid ≡ 16
    → All IsByte uuid
    → (id : List ℕ) × (uuid_gen readv rand_buf ≡ ok (id, rand_buf'))
      × (length id ≡ uuid_len)
      × HasForm id
      × (packet_validate_id (some id) ≡ true)
unfolding uuid_gen
uuid_gen-valid readv rand_buf rand_buf' uuid filled h bytes =
    let v = uuid_text-valid uuid h bytes in
    let (marked, len) = uuid_mark-bytes uuid bytes in
    (
      uuid_text (uuid_mark uuid),
      simp (uuid_gen, filled),
      v.0,
      text-HasForm (uuid_mark uuid) (len ∙ h) marked,
      v.1,
    )
