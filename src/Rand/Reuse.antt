-- ===== src/Rand/Reuse.antt =====
-- Which bytes the requests to adsbus/rand.c deliver.
use adsb_tools.Prelude.{
  ℕ, zero, suc, drop-nil, ◌+◌, ◌-◌, ◌≤◌, ◌<◌, ◌≡◌, refl, sym, ap, ◌∙◌, true, false, Option, some,
  List, [], ◌∷◌, ◌++◌, length, take, drop, store, leb, ◌==◌, ok, arith, store-nil, Bool-cases, inl,
  inr,
}
use adsb_tools.Buf.{Buf, consumed, buf_len_max}
use adsb_tools.Buf.Window.{IsValid, contents, buf_consume-contents}
use adsb_tools.Rand.{rand_refill, rand_fill, rand_fill_each}

unfoldable pub total : List ℕ → ℕ
total [] = 0
total (n ∷ sizes) = n + total sizes

-- The bytes that a consumption leaves in the array.
consumed-bytes : (b : Buf) (n : ℕ) → (consumed b n).bytes ≡ b.bytes
unfolding consumed
consumed-bytes b n = elim (Bool-cases (b.length - n == 0)) [
  | inl e ↦ rw (consumed, e)
  | inr e ↦ rw (consumed, e)
]

-- An empty buffer starts at the front of the array.
abbrev IsReset : Buf → Type 0
IsReset b = b.length ≡ 0 → b.start ≡ 0

consumed-IsReset : (b : Buf) (n : ℕ) → IsReset (consumed b n)
unfolding consumed
consumed-IsReset b n = elim (Bool-cases (b.length - n == 0)) [
  | inl e ↦ rw (consumed, e) (λ h. refl)
  | inr e ↦ rw (consumed, e) (λ h. ground (arith, e, h))
]

-- A request that the buffer can serve.
rand_fill-served :
    (readv : ℕ → Option (List ℕ)) (n : ℕ) (b : Buf)
    → IsValid b
    → n ≤ b.length
    → rand_fill readv n b ≡ ok (take n (drop b.start b.bytes), consumed b n)
unfolding rand_fill
rand_fill-served readv n b v h =
    let fits : leb n b.length ≡ true = ground (arith, h) in
    let here : b.start + 0 ≡ b.start = omega arith in
    simp (rand_fill, fits, (buf_consume-contents b n v h).0)
      (ap (λ (i : ℕ). ok (take n (drop i b.bytes), consumed b n)) here)

take-take : (n k : ℕ) (xs : List ℕ) → n ≤ k → take n (take k xs) ≡ take n xs
take-take zero k xs h = refl
take-take (suc n) zero xs h = absurd (omega arith)
take-take (suc n) (suc k) [] h = refl
take-take (suc n) (suc k) (x ∷ xs) h = ap (λ (l : List ℕ). x ∷ l) (take-take n k xs (omega arith))

take-sum : (n k : ℕ) (xs : List ℕ) → take n xs ++ take k (drop n xs) ≡ take (n + k) xs
take-sum zero k xs = ap (λ (m : ℕ). take m xs) (omega arith)
take-sum (suc n) k [] =
    ap (λ (l : List ℕ). take k l) (drop-nil (suc n)) ∙ take-nil k ∙ sym (take-nil (suc n + k))
  where
    take-nil : (m : ℕ) → take {A = ℕ} m [] ≡ []
    take-nil zero = refl
    take-nil (suc m) = refl
take-sum (suc n) k (x ∷ xs) =
    ap (λ (l : List ℕ). x ∷ l) (take-sum n k xs) ∙ ap (λ (m : ℕ). take m (x ∷ xs)) (sum n k)
  where
    sum : (n k : ℕ) → suc (n + k) ≡ suc n + k
    sum n k = omega arith

-- Requests that the buffer can serve deliver its bytes in their order.
rand_fill_each-served :
    (readv : ℕ → Option (List ℕ)) (sizes : List ℕ) (b : Buf)
    → IsValid b
    → total sizes ≤ b.length
    → IsReset b
    → (b' : Buf) × (rand_fill_each readv sizes b ≡ ok (take (total sizes) (contents b), b'))
      × IsValid b'
      × (b'.bytes ≡ b.bytes)
      × (b'.length ≡ b.length - total sizes)
      × IsReset b'
unfolding rand_fill_each total
rand_fill_each-served readv [] b v h reset = (b, refl, v, refl, omega arith, reset)
rand_fill_each-served readv (n ∷ sizes) b v h reset =
    let (done, v', holds, left) = buf_consume-contents b n v (omega arith) in
    let (b', rest, vr, same, len, reset') =
      rand_fill_each-served readv sizes (consumed b n) v' (omega (arith, left))
        (consumed-IsReset b n) in
    (
      b',
      simp (rand_fill_each, rand_fill-served readv n b v (omega arith), rest)
          (ap (λ (l : List ℕ). ok (l, b'))
            (ap (λ (l : List ℕ). l ++ take (total sizes) (contents (consumed b n)))
                (sym (take-take n b.length (drop b.start b.bytes) (omega arith)))
              ∙ ap (λ (l : List ℕ). take n (contents b) ++ take (total sizes) l) holds
              ∙ take-sum n (total sizes) (contents b))),
      vr,
      same ∙ consumed-bytes b n,
      omega (arith, len, left),
      reset',
    )

-- A refill of no part of the buffer.
refill_nothing :
    (b : Buf) (xs : List ℕ)
    → b.start ≡ 0
    → rand_refill b xs ≡ (xs, record { bytes = b.bytes; start = 0; length = buf_len_max })
refill_nothing b xs e =
    ap
      (λ (i : ℕ). (
        drop i xs,
        record { bytes = store b.bytes 0 (take i xs); start = 0; length = buf_len_max },
      ))
      e
    ∙ ap (λ (l : List ℕ). (xs, record { bytes = l; start = 0; length = buf_len_max }))
        (store-nil b.bytes 0)

-- A buffer that was just filled, requests that take all of it, and one more request of at least one
-- byte, which the device delivers: the bytes of the buffer are delivered to the first requests in
-- their order, and after the last one the buffer holds the same bytes again, to be delivered once
-- more.
pub rand_fill_each-repeats :
    (readv : ℕ → Option (List ℕ)) (sizes : List ℕ) (n : ℕ) (b : Buf) (xs : List ℕ)
    → length b.bytes ≡ buf_len_max
    → b.start ≡ 0
    → b.length ≡ buf_len_max
    → total sizes ≡ buf_len_max
    → 0 < n
    → readv n ≡ some xs
    → length xs ≡ n
    → (b' : Buf) × (b'' : Buf) × (rand_fill_each readv sizes b ≡ ok (contents b, b'))
      × (rand_fill readv n b' ≡ ok (xs, b''))
      × (contents b'' ≡ contents b)
unfolding rand_fill
rand_fill_each-repeats readv sizes n b xs whole start full all some_more delivered len =
    let (b', done, v, same, left, reset) =
      rand_fill_each-served readv sizes b (record { whole = whole; inside = omega arith })
        (omega arith) (λ h. absurd (omega (arith, h))) in
    let empty : b'.length ≡ 0 = omega arith in
    let front : b'.start ≡ 0 = reset empty in
    let large : leb n b'.length ≡ false = ground arith in
    let size : (length xs == b'.start + n) ≡ true = ground arith in
    let asked : readv (b'.start + n) ≡ some xs = ap readv (omega arith) ∙ delivered in
    (
      b',
      record { bytes = b'.bytes; start = 0; length = buf_len_max },
      done
          ∙ ap (λ (m : ℕ). ok (take m (contents b), b')) (all ∙ sym full)
          ∙ ap (λ (l : List ℕ). ok (l, b'))
              (take-take b.length b.length (drop b.start b.bytes) (omega arith)),
      simp (rand_fill, large, asked, size) (ap ok (refill_nothing b' xs front)),
      ap (λ (l : List ℕ). take buf_len_max l) same
          ∙ ap (λ (m : ℕ). take m b.bytes) (sym full)
          ∙ ap (λ (i : ℕ). take b.length (drop i b.bytes)) (sym start),
    )
