-- ===== src/Buf/Window.antt =====
-- The bytes that a buffer holds, and what filling and consuming do to them.
use adsb_tools.Prelude.{
  take-append-drop, append_assoc, drop-append, ℕ, zero, suc, ◌+◌, ◌-◌, ◌≤◌, ◌<◌, ◌≡◌, refl, sym, ap,
  ◌∙◌, Option, none, some, List, [], ◌∷◌, ◌++◌, append-nil, inl, inr, length, get_or, take, drop,
  store, ◌==◌, ok, abort, Ssize, minus_one, size, arith, Bool-cases, length-take, length-drop,
  length-store, length-append, get_or-drop, get_or-take, get_or-store, get_or-append, list_ext,
  drop-drop,
}
use adsb_tools.Buf.{
  Buf, buf_len_max, buf_at, buf_chr, buf_space, buf_compact, buf_filled, buf_fill, consumed,
  buf_consume,
}

sub-zero : (n : ℕ) → n - 0 ≡ n
sub-zero n = omega arith

zero-sub : (n : ℕ) → 0 - n ≡ 0
zero-sub n = omega arith

suc_sub_suc : (m n : ℕ) → suc m - suc n ≡ m - n
suc_sub_suc m n = omega arith

take-nil : (n : ℕ) → take {A = ℕ} n [] ≡ []
take-nil zero = refl
take-nil (suc n) = refl

pub record IsValid (b : Buf) : Type 0 where
  pub whole : length b.bytes ≡ buf_len_max
  pub inside : b.start + b.length ≤ buf_len_max

-- The unread bytes.
abbrev pub contents : Buf → List ℕ
contents b = take b.length (drop b.start b.bytes)

pub length-contents : (b : Buf) → IsValid b → length (contents b) ≡ b.length
length-contents b v =
    omega (arith, length-take b.length (drop b.start b.bytes), length-drop b.start b.bytes)

pub get_or-contents : (b : Buf) (i : ℕ) → i < b.length → get_or (contents b) i 0 ≡ buf_chr b i
get_or-contents b i h =
    get_or-take b.length i (drop b.start b.bytes) 0 h ∙ get_or-drop b.start i b.bytes 0

drop-take : (n k : ℕ) (xs : List ℕ) → drop k (take n xs) ≡ take (n - k) (drop k xs)
drop-take n zero xs = rw (sub-zero n)
drop-take zero (suc k) xs = rw (zero-sub (suc k))
drop-take (suc n) (suc k) [] = rw (take-nil (suc n - suc k))
drop-take (suc n) (suc k) (x ∷ xs) = rw (suc_sub_suc n k) (drop-take n k xs)

contents-consumed : (b : Buf) (n : ℕ) → n ≤ b.length → contents (consumed b n) ≡ drop n (contents b)
unfolding consumed
contents-consumed b n h = elim (Bool-cases (b.length - n == 0)) [
  | inl e ↦
      let z : b.length - n ≡ 0 = ground arith in
      rw (e, drop-take b.length n (drop b.start b.bytes), z)
  | inr e ↦ rw (e, drop-take b.length n (drop b.start b.bytes), drop-drop n b.start b.bytes)
]

-- Consuming `n` bytes that a valid buffer holds succeeds, drops exactly these from the front of
-- what it holds, and keeps it valid.
pub buf_consume-contents :
    (b : Buf) (n : ℕ)
    → IsValid b
    → n ≤ b.length
    → (buf_consume b n ≡ ok (consumed b n))
      × IsValid (consumed b n)
      × (contents (consumed b n) ≡ drop n (contents b))
      × ((consumed b n).length ≡ b.length - n)
unfolding buf_consume
buf_consume-contents b n v h = (
  ground arith,
  unfold consumed in ground arith,
  contents-consumed b n h,
  unfold consumed in ground arith,
)

-- `buf_consume` stops the process when more is consumed than the buffer holds.
pub buf_consume_too_much : (b : Buf) (n : ℕ) → b.length < n → buf_consume b n ≡ abort
unfolding buf_consume
buf_consume_too_much b n h = ground arith

-- A buffer holds the list that its reads spell.
pub contents_ext :
    (b : Buf) (xs : List ℕ)
    → IsValid b
    → length xs ≡ b.length
    → ((i : ℕ) → i < b.length → buf_chr b i ≡ get_or xs i 0)
    → contents b ≡ xs
contents_ext b xs v len same = list_ext (contents b) xs 0 (length-contents b v ∙ sym len) (λ i hi.
    let h : i < b.length = omega (arith, length-contents b v) in get_or-contents b i h ∙ same i h)

contents-filled :
    (b : Buf) (x : ℕ) (xs : List ℕ)
    → IsValid b
    → length (x ∷ xs) ≤ buf_space b
    → contents (buf_filled b (some (x ∷ xs))).1 ≡ contents b ++ (x ∷ xs)
unfolding buf_filled
contents-filled b x xs v h =
    contents_ext (buf_filled b (some (x ∷ xs))).1 (contents b ++ (x ∷ xs))
      (ground (arith, length-store b.bytes (b.start + b.length) (x ∷ xs)))
      (ground (arith, length-append (contents b) (x ∷ xs), length-contents b v))
      (λ i hi. ground (
        arith,
        get_or-store b.bytes (b.start + b.length) (x ∷ xs) (b.start + i) 0,
        get_or-append (contents b) (x ∷ xs) i 0,
        length-contents b v,
        get_or-contents b i,
      ))

-- What `buf_compact` stores when it moves the unread bytes.
abbrev moved : Buf → Buf
moved b = record b { bytes = store b.bytes 0 (take b.length (buf_at b 0)); start = 0 }

contents-moved : (b : Buf) → IsValid b → contents (moved b) ≡ contents b
contents-moved b v =
    contents_ext (moved b) (contents b)
      (ground (arith, length-store b.bytes 0 (take b.length (buf_at b 0)))) (length-contents b v)
      (λ i hi. ground (
        arith,
        get_or-store b.bytes 0 (take b.length (buf_at b 0)) i 0,
        length-take b.length (buf_at b 0),
        length-drop (b.start + 0) b.bytes,
        get_or-take b.length i (buf_at b 0) 0,
        get_or-drop (b.start + 0) i b.bytes 0,
        get_or-contents b i,
      ))

record Compacted (b b' : Buf) : Type 0 where
  done : buf_compact b ≡ ok b'
  valid : IsValid b'
  same_length : b'.length ≡ b.length
  same : contents b' ≡ contents b
  room : 0 < buf_space b'

buf_compact-ok : (b : Buf) → IsValid b → b.length < buf_len_max → (b' : Buf) × Compacted b b'
buf_compact-ok b v h = elim (Bool-cases (b.start + b.length == buf_len_max)) [
  | inl e ↦ (
    moved b,
    record {
      done = unfold buf_compact in rw e (ground arith);
      valid = ground (arith, length-store b.bytes 0 (take b.length (buf_at b 0)));
      same_length = refl;
      same = contents-moved b v;
      room = ground arith;
    },
  )
  | inr e ↦ (
    b,
    record {
      done = unfold buf_compact in rw e;
      valid = v;
      same_length = refl;
      same = refl;
      room = ground arith;
    },
  )
]

-- The bytes that a call of `read` delivered.
abbrev pub received : Option (List ℕ) → List ℕ
received none = []
received (some xs) = xs

filled-IsValid :
    (b : Buf) (got : Option (List ℕ))
    → IsValid b
    → length (received got) ≤ buf_space b
    → IsValid (buf_filled b got).1 × (contents (buf_filled b got).1 ≡ contents b ++ received got)
filled-IsValid b none v h = unfold buf_filled in (v, sym (append-nil (contents b)))
filled-IsValid b (some []) v h = unfold buf_filled in (v, sym (append-nil (contents b)))
filled-IsValid b (some (x ∷ xs)) v h = (
  unfold buf_filled in ground (arith, length-store b.bytes (b.start + b.length) (x ∷ xs)),
  contents-filled b x xs v h,
)

-- The return value of such a call.
abbrev pub read_count : Option (List ℕ) → Ssize
read_count none = minus_one
read_count (some xs) = size (length xs)

filled-count : (b : Buf) (got : Option (List ℕ)) → (buf_filled b got).0 ≡ read_count got
unfolding buf_filled
filled-count b none = refl
filled-count b (some []) = refl
filled-count b (some (x ∷ xs)) = refl

-- For a valid buffer that is not full, and a `read` that stores no more than the size that it is
-- given: `buf_fill` calls `read` with room for one byte at least, does not fail its `assert`,
-- returns what `read` returned, appends exactly the bytes that were read, and keeps the buffer
-- valid.
pub buf_fill-contents :
    (read : ℕ → Option (List ℕ)) (b : Buf)
    → ((n : ℕ) → length (received (read n)) ≤ n)
    → IsValid b
    → b.length < buf_len_max
    → (space : ℕ) × (b' : Buf) × (0 < space)
      × (buf_fill read b ≡ ok (read_count (read space), b'))
      × IsValid b'
      × (contents b' ≡ contents b ++ received (read space))
buf_fill-contents read b contract v h =
    let (b', c) = buf_compact-ok b v h in
    let got = read (buf_space b') in
    let f = filled-IsValid b' got c.valid (contract (buf_space b')) in
    (
      buf_space b',
      (buf_filled b' got).1,
      c.room,
      unfold buf_fill in rw (c.done, ← filled-count b' got),
      f.0,
      f.1 ∙ ap (λ (t : List ℕ). t ++ received got) c.same,
    )

module _ (b : Buf) (front rest : List ℕ) (v : IsValid b) (holds : contents b ≡ front ++ rest) where
  -- A buffer that starts with `front`: its length, and what is read from that part.
  pub length_of_front : b.length ≡ length front + length rest
  length_of_front = omega (arith, length-contents b v, ap length holds, length-append front rest)

  pub buf_chr-front : (i : ℕ) → i < length front → buf_chr b i ≡ get_or front i 0
  buf_chr-front i h =
      sym (get_or-contents b i (omega (arith, length_of_front)))
      ∙ ap (λ (l : List ℕ). get_or l i 0) holds
      ∙ ground (arith, get_or-append front rest i 0)

  -- What lies behind the pointer to the start: the front, and some more.
  pub buf_at_start : drop b.start b.bytes ≡ front ++ (rest ++ drop b.length (drop b.start b.bytes))
  buf_at_start =
      sym (take-append-drop b.length (drop b.start b.bytes))
      ∙ ap (λ (l : List ℕ). l ++ drop b.length (drop b.start b.bytes)) holds
      ∙ append_assoc front rest (drop b.length (drop b.start b.bytes))

  -- Consuming the front leaves the rest.
  pub consume_front :
      (buf_consume b (length front) ≡ ok (consumed b (length front)))
      × IsValid (consumed b (length front))
      × (contents (consumed b (length front)) ≡ rest)
  consume_front =
      let c = buf_consume-contents b (length front) v (omega (arith, length_of_front)) in
      (c.0, c.1, c.2 ∙ ap (drop (length front)) holds ∙ drop-append front rest)
