-- ===== src/Prelude/Lists.antt =====
-- Lists measured and indexed by native numbers, under the library's names, and arrays in memory.
use Prim.Native.Nat.{ℕ, zero, suc, ◌+◌, ◌-◌, ◌≤◌, ◌<◌, min}
use mathlib.Core.Path.{◌≡◌, refl, sym, ap, ap₂, ◌∙◌}
use mathlib.Core.List.{List, [], ◌∷◌, ◌++◌}
use native.Mathlib.Omega.{arith}
use adsb_tools.Prelude.Tests.{ltb, if◌then◌else◌}

module _ {ℓ} {A : Type ℓ} where
  abbrev pub length : List A → ℕ
  length [] = 0
  length (x ∷ xs) = suc (length xs)

  -- `a[i]`, with `d` for a read past the end.
  abbrev pub get_or : List A → ℕ → A → A
  get_or [] i d = d
  get_or (x ∷ xs) zero d = x
  get_or (x ∷ xs) (suc i) d = get_or xs i d

  abbrev pub take : ℕ → List A → List A
  take zero xs = []
  take (suc n) [] = []
  take (suc n) (x ∷ xs) = x ∷ take n xs

  abbrev pub drop : ℕ → List A → List A
  drop zero xs = xs
  drop (suc n) [] = []
  drop (suc n) (x ∷ xs) = drop n xs

  abbrev pub replicate : ℕ → A → List A
  replicate zero a = []
  replicate (suc n) a = a ∷ replicate n a

  -- The array after a `memcpy` of `xs` to index `i`; what lies past the end is not written.
  abbrev pub store : List A → ℕ → List A → List A
  store [] i xs = []
  store (y ∷ ys) zero [] = y ∷ ys
  store (y ∷ ys) zero (x ∷ xs) = x ∷ store ys zero xs
  store (y ∷ ys) (suc i) xs = y ∷ store ys i xs

  abbrev pub All {κ} : (A → Type κ) → List A → Type κ
  All P [] = Unit {κ}
  All P (x ∷ xs) = P x × All P xs

zero-add : (n : ℕ) → 0 + n ≡ n
zero-add n = omega arith

suc-add : (m n : ℕ) → suc m + n ≡ suc (m + n)
suc-add m n = omega arith

suc_sub_suc : (m n : ℕ) → suc m - suc n ≡ m - n
suc_sub_suc m n = omega arith

module _ {ℓ} {A : Type ℓ} where
  pub length-append : (xs ys : List A) → length (xs ++ ys) ≡ length xs + length ys
  length-append [] ys = omega arith
  length-append (x ∷ xs) ys = omega (arith, length-append xs ys)

  pub length-take : (n : ℕ) (xs : List A) → length (take n xs) ≡ min n (length xs)
  length-take zero xs = omega arith
  length-take (suc n) [] = omega arith
  length-take (suc n) (x ∷ xs) = omega (arith, length-take n xs)

  pub length-drop : (n : ℕ) (xs : List A) → length (drop n xs) ≡ length xs - n
  length-drop zero xs = omega arith
  length-drop (suc n) [] = omega arith
  length-drop (suc n) (x ∷ xs) = omega (arith, length-drop n xs)

  pub length-replicate : (n : ℕ) (a : A) → length (replicate n a) ≡ n
  length-replicate zero a = refl
  length-replicate (suc n) a = ap suc (length-replicate n a)

  pub length-store : (ys : List A) (i : ℕ) (xs : List A) → length (store ys i xs) ≡ length ys
  length-store [] i xs = refl
  length-store (y ∷ ys) zero [] = refl
  length-store (y ∷ ys) zero (x ∷ xs) = ap suc (length-store ys zero xs)
  length-store (y ∷ ys) (suc i) xs = ap suc (length-store ys i xs)

  pub take-append : (xs ys : List A) → take (length xs) (xs ++ ys) ≡ xs
  take-append [] ys = refl
  take-append (x ∷ xs) ys = ap (λ t. x ∷ t) (take-append xs ys)

  pub drop-append : (xs ys : List A) → drop (length xs) (xs ++ ys) ≡ ys
  drop-append [] ys = refl
  drop-append (x ∷ xs) ys = drop-append xs ys

  pub take-append-drop : (n : ℕ) (xs : List A) → take n xs ++ drop n xs ≡ xs
  take-append-drop zero xs = refl
  take-append-drop (suc n) [] = refl
  take-append-drop (suc n) (x ∷ xs) = ap (λ t. x ∷ t) (take-append-drop n xs)

  pub drop-nil : (n : ℕ) → drop {A = A} n [] ≡ []
  drop-nil zero = refl
  drop-nil (suc n) = refl

  pub drop-drop : (n m : ℕ) (xs : List A) → drop n (drop m xs) ≡ drop (m + n) xs
  drop-drop n zero xs = rw (zero-add n)
  drop-drop n (suc m) [] = rw (drop-nil n, drop-nil (suc m + n))
  drop-drop n (suc m) (x ∷ xs) = rw (suc-add m n) (drop-drop n m xs)

  pub get_or-drop : (n i : ℕ) (xs : List A) (d : A) → get_or (drop n xs) i d ≡ get_or xs (n + i) d
  get_or-drop zero i xs d = rw (zero-add i)
  get_or-drop (suc n) i [] d = refl
  get_or-drop (suc n) i (x ∷ xs) d = rw (suc-add n i) (get_or-drop n i xs d)

  pub get_or-take : (n i : ℕ) (xs : List A) (d : A) → i < n → get_or (take n xs) i d ≡ get_or xs i d
  get_or-take zero i xs d h = absurd (omega arith)
  get_or-take (suc n) i [] d h = refl
  get_or-take (suc n) zero (x ∷ xs) d h = refl
  get_or-take (suc n) (suc i) (x ∷ xs) d h = get_or-take n i xs d (omega arith)

  pub get_or-append_left :
      (xs ys : List A) (i : ℕ) (d : A) → i < length xs → get_or (xs ++ ys) i d ≡ get_or xs i d
  get_or-append_left [] ys i d h = absurd (omega arith)
  get_or-append_left (x ∷ xs) ys zero d h = refl
  get_or-append_left (x ∷ xs) ys (suc i) d h = get_or-append_left xs ys i d (omega arith)

  pub get_or-append_right :
      (xs ys : List A) (i : ℕ) (d : A)
      → length xs ≤ i
      → get_or (xs ++ ys) i d ≡ get_or ys (i - length xs) d
  get_or-append_right [] ys i d h = ap (λ (k : ℕ). get_or ys k d) (omega arith)
  get_or-append_right (x ∷ xs) ys zero d h = absurd (omega arith)
  get_or-append_right (x ∷ xs) ys (suc i) d h =
      rw (suc_sub_suc i (length xs)) (get_or-append_right xs ys i d (omega arith))

module _ {A : Type 0} where
  -- Reads and a further advance through a pointer whose target is known.
  pub get_or_at :
      (n : ℕ) (xs : List A) {ys : List A} (k j : ℕ) (d : A)
      → drop n xs ≡ ys
      → k ≡ n + j
      → get_or xs k d ≡ get_or ys j d
  get_or_at n xs k j d e h =
      ap (λ (m : ℕ). get_or xs m d) h
      ∙ sym (get_or-drop n j xs d)
      ∙ ap (λ (l : List A). get_or l j d) e

  pub drop_at :
      (n : ℕ) (xs : List A) {ys : List A} (k j : ℕ)
      → drop n xs ≡ ys
      → k ≡ n + j
      → drop k xs ≡ drop j ys
  drop_at n xs k j e h =
      ap (λ (m : ℕ). drop m xs) h ∙ sym (drop-drop j n xs) ∙ ap (λ (l : List A). drop j l) e

  -- A read after a `memcpy` within the array.
  pub get_or-store :
      (ys : List A) (at : ℕ) (xs : List A) (i : ℕ) (d : A)
      → at + length xs ≤ length ys
      → get_or (store ys at xs) i d ≡ (
          if ltb i at
          then get_or ys i d
          else if ltb i (at + length xs)
          then get_or xs (i - at) d
          else get_or ys i d)
  get_or-store [] at [] i d h = ground arith
  get_or-store [] at (x ∷ xs) i d h = absurd (omega arith)
  get_or-store (y ∷ ys) zero [] i d h = ground arith
  get_or-store (y ∷ ys) zero (x ∷ xs) zero d h = ground arith
  get_or-store (y ∷ ys) zero (x ∷ xs) (suc i) d h = ground (arith, get_or-store ys zero xs i d)
  get_or-store (y ∷ ys) (suc at) xs zero d h = ground arith
  get_or-store (y ∷ ys) (suc at) xs (suc i) d h = ground (arith, get_or-store ys at xs i d)

  pub get_or-append :
      (xs ys : List A) (i : ℕ) (d : A)
      → get_or (xs ++ ys) i d
        ≡ (if ltb i (length xs) then get_or xs i d else get_or ys (i - length xs) d)
  get_or-append [] ys i d = ground arith
  get_or-append (x ∷ xs) ys zero d = ground arith
  get_or-append (x ∷ xs) ys (suc i) d = ground (arith, get_or-append xs ys i d)

  pub list_ext :
      (xs ys : List A) (d : A)
      → length xs ≡ length ys
      → ((i : ℕ) → i < length xs → get_or xs i d ≡ get_or ys i d)
      → xs ≡ ys
  list_ext [] [] d h e = refl
  list_ext [] (y ∷ ys) d h e = absurd (omega arith)
  list_ext (x ∷ xs) [] d h e = absurd (omega arith)
  list_ext (x ∷ xs) (y ∷ ys) d h e =
      ap₂ ◌∷◌ (e 0 (omega arith)) (list_ext xs ys d (omega arith) (λ i hi. e (suc i) (omega arith)))

  pub store-nil : (out : List A) (i : ℕ) → store out i [] ≡ out
  store-nil [] i = refl
  store-nil (x ∷ out) zero = refl
  store-nil (x ∷ out) (suc i) = ap (λ (t : List A). x ∷ t) (store-nil out i)

  -- A store of one element and one of those behind it are a store of all.
  pub store-store :
      (out : List A) (i : ℕ) (b : A) (bs : List A)
      → store (store out i (b ∷ [])) (suc i) bs ≡ store out i (b ∷ bs)
  store-store [] i b bs = refl
  store-store (x ∷ []) zero b bs = refl
  store-store (x ∷ y ∷ out) zero b [] = refl
  store-store (x ∷ y ∷ out) zero b (c ∷ bs) = refl
  store-store (x ∷ out) (suc i) b bs = ap (λ (t : List A). x ∷ t) (store-store out i b bs)

  pub take-store :
      (out xs : List A) → length xs ≤ length out → take (length xs) (store out 0 xs) ≡ xs
  take-store out [] h = refl
  take-store [] (x ∷ xs) h = absurd (omega arith)
  take-store (y ∷ out) (x ∷ xs) h = ap (λ (t : List A). x ∷ t) (take-store out xs (omega arith))

  pub store_front :
      (out xs : List A) → length xs ≤ length out → store out 0 xs ≡ xs ++ drop (length xs) out
  store_front [] [] h = refl
  store_front (y ∷ out) [] h = refl
  store_front [] (x ∷ xs) h = absurd (omega arith)
  store_front (y ∷ out) (x ∷ xs) h = ap (λ (t : List A). x ∷ t) (store_front out xs (omega arith))
