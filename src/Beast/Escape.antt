-- ===== src/Beast/Escape.antt =====
-- Escaping against its description on lists, and unescaping as its inverse.
use mathlib.Core.Path.{subst}
use adsb_tools.Prelude.{
  ℕ, zero, suc, ◌+◌, ◌-◌, ◌*◌, ◌≤◌, ◌<◌, ◌≡◌, refl, sym, ap, ◌∙◌, Bool, true, false, List, [], ◌∷◌,
  ◌++◌, length, get_or, store, ltb, ◌==◌, ◌&&◌, if◌then◌else◌, Ssize, size, arith, lt→ltb, ge→ltb,
  ne→==, eq→==, ==→eq, get_or-store, Bool-cases, inl, inr, length-append, length-store, store-store,
  store-nil, get_or-append,
}
use adsb_tools.Buf.{Buf, buf_chr, buf_store, buf_len_max}
use adsb_tools.Buf.Window.{IsValid, contents, contents_ext, length-contents, get_or-contents}
use adsb_tools.Beast.{
  beast_unescape_loop, beast_unescape, append_byte, beast_escape_loop, beast_escape,
}

-- Each 0x1a doubled.
abbrev pub stuff : List ℕ → List ℕ
stuff [] = []
stuff (b ∷ bs) = if b == 0x1a then b ∷ b ∷ stuff bs else b ∷ stuff bs

-- The escaped form of a message: its first byte stays as it is.
abbrev pub escaped : List ℕ → List ℕ
escaped [] = []
escaped (b ∷ bs) = b ∷ stuff bs

-- A buffer with more bytes behind those that it holds.
abbrev pub appended : Buf → List ℕ → Buf
appended out xs = record out {
  bytes = store out.bytes (out.start + out.length) xs;
  length = out.length + length xs;
}

appended-nil : (out : Buf) → appended out [] ≡ out
appended-nil out = rw (store-nil out.bytes (out.start + out.length), add_zero out.length)
  where
    add_zero : (n : ℕ) → n + 0 ≡ n
    add_zero n = omega arith

appended-append_byte :
    (out : Buf) (b : ℕ) (xs : List ℕ) → appended (append_byte out b) xs ≡ appended out (b ∷ xs)
appended-append_byte out b xs = rw (
  index out.start out.length,
  store-store out.bytes (out.start + out.length) b xs,
  sum out.length (length xs),
)
  where
    index : (s l : ℕ) → s + (l + 1) ≡ suc (s + l)
    index s l = omega arith

    sum : (l n : ℕ) → l + 1 + n ≡ l + suc n
    sum l n = omega arith

-- From index `i` on the buffer reads as the list.
abbrev Reads : Buf → ℕ → List ℕ → Type 0
Reads input i l = (j : ℕ) → j < length l → buf_chr input (i + j) ≡ get_or l j 0

Reads-tail : (input : Buf) (i b : ℕ) (l : List ℕ) → Reads input i (b ∷ l) → Reads input (i + 1) l
Reads-tail input i b l r j h = ap (λ (k : ℕ). buf_chr input k) (shift i j) ∙ r (suc j) (omega arith)
  where
    shift : (i j : ℕ) → i + 1 + j ≡ i + suc j
    shift i j = omega arith

Reads-head : (input : Buf) (i b : ℕ) (l : List ℕ) → Reads input i (b ∷ l) → buf_chr input i ≡ b
Reads-head input i b l r = ap (λ (k : ℕ). buf_chr input k) (zero_right i) ∙ r 0 (omega arith)
  where
    zero_right : (i : ℕ) → i ≡ i + 0
    zero_right i = omega arith

escape_tail :
    (bs : List ℕ) (i : ℕ) (out input : Buf)
    → 0 < i
    → Reads input i bs
    → beast_escape_loop (length bs) i out input ≡ appended out (stuff bs)
unfolding beast_escape_loop
escape_tail [] i out input pos r = sym (appended-nil out)
escape_tail (b ∷ bs) i out input pos r = elim (Bool-cases (b == 0x1a)) [
  | inl e ↦
      rw (beast_escape_loop, lt→ltb 0 i pos, Reads-head input i b bs r, e)
        (escape_tail bs (i + 1) (append_byte (append_byte out b) 0x1a) input (omega arith)
            (Reads-tail input i b bs r)
          ∙ appended-append_byte (append_byte out b) 0x1a (stuff bs)
          ∙ appended-append_byte out b (0x1a ∷ stuff bs)
          ∙ ap (λ (c : ℕ). appended out (b ∷ c ∷ stuff bs)) (sym (==→eq b 0x1a e)))
  | inr e ↦
      rw (beast_escape_loop, lt→ltb 0 i pos, Reads-head input i b bs r, e)
        (escape_tail bs (i + 1) (append_byte out b) input (omega arith) (Reads-tail input i b bs r)
          ∙ appended-append_byte out b (stuff bs))
]

escape_whole :
    (bs : List ℕ) (out input : Buf)
    → Reads input 0 bs
    → beast_escape_loop (length bs) 0 out input ≡ appended out (escaped bs)
unfolding beast_escape_loop
escape_whole [] out input r = sym (appended-nil out)
escape_whole (b ∷ bs) out input r =
    rw (beast_escape_loop, Reads-head input 0 b bs r)
      (escape_tail bs 1 (append_byte out b) input (omega arith) (Reads-tail input 0 b bs r)
        ∙ appended-append_byte out b (stuff bs))

Reads-contents : (input : Buf) → IsValid input → Reads input 0 (contents input)
Reads-contents input v j h =
    ap (λ (k : ℕ). buf_chr input k) (zero_left j)
    ∙ sym (get_or-contents input j (omega (arith, length-contents input v)))
  where
    zero_left : (j : ℕ) → 0 + j ≡ j
    zero_left j = omega arith

-- `beast_escape` of a valid buffer appends the escaped form of what it holds to the output, byte
-- by byte, and nothing else.
pub beast_escape-escaped :
    (out input : Buf)
    → IsValid input
    → beast_escape out input ≡ appended out (escaped (contents input))
unfolding beast_escape
beast_escape-escaped out input v =
    ap (λ (n : ℕ). beast_escape_loop n 0 out input) (sym (length-contents input v))
    ∙ escape_whole (contents input) out input (Reads-contents input v)

pub appended-contents :
    (out : Buf) (xs : List ℕ)
    → IsValid out
    → out.start + out.length + length xs ≤ buf_len_max
    → IsValid (appended out xs) × (contents (appended out xs) ≡ contents out ++ xs)
appended-contents out xs v room =
    let valid : IsValid (appended out xs) =
      omega (arith, length-store out.bytes (out.start + out.length) xs) in
    (
      valid,
      contents_ext (appended out xs) (contents out ++ xs) valid
          (omega (arith, length-append (contents out) xs, length-contents out v))
          (λ i hi. ground (
            arith,
            get_or-store out.bytes (out.start + out.length) xs (out.start + i) 0,
            get_or-append (contents out) xs i 0,
            length-contents out v,
            get_or-contents out i,
          )),
    )

pub length-stuff :
    (bs : List ℕ) → (length bs ≤ length (stuff bs)) × (length (stuff bs) ≤ 2 * length bs)
length-stuff [] = omega arith
length-stuff (b ∷ bs) = ground (arith, length-stuff bs)

buf_store-buf_store :
    (out : Buf) (o b : ℕ) (bs : List ℕ)
    → buf_store (buf_store out o (b ∷ [])) (o + 1) bs ≡ buf_store out o (b ∷ bs)
buf_store-buf_store out o b bs = rw (index out.start o, store-store out.bytes (out.start + o) b bs)
  where
    index : (s l : ℕ) → s + (l + 1) ≡ suc (s + l)
    index s l = omega arith

module _ (input : Buf) (n : ℕ) where
  unescape_done :
      (fuel i o : ℕ) (out : Buf) → o ≡ n → beast_unescape_loop fuel i o out input n ≡ (size i, out)
  unfolding beast_unescape_loop
  unescape_done zero i o out e = ground arith
  unescape_done (suc fuel) i o out e =
      rw (beast_unescape_loop, ge→ltb o n (omega arith), eq→== o n e) (ground arith)

  unescape_plain :
      (fuel i o b : ℕ) (out : Buf)
      → i < input.length
      → o < n
      → buf_chr input i ≡ b
      → (b == 0x1a) ≡ false
      → beast_unescape_loop (suc fuel) i o out input n
        ≡ beast_unescape_loop fuel (i + 1) (o + 1) (buf_store out o (b ∷ [])) input n
  unfolding beast_unescape_loop
  unescape_plain fuel i o b out hi ho e h =
      rw (beast_unescape_loop, lt→ltb i input.length hi, lt→ltb o n ho, e, h, and_false (ltb 0 i))
    where
      and_false : (t : Bool) → (t && false) ≡ false
      and_false true = refl
      and_false false = refl

  -- The first byte is never taken for a doubled one.
  unescape_first :
      (fuel b : ℕ) (out : Buf)
      → 0 < input.length
      → 0 < n
      → buf_chr input 0 ≡ b
      → beast_unescape_loop (suc fuel) 0 0 out input n
        ≡ beast_unescape_loop fuel 1 1 (buf_store out 0 (b ∷ [])) input n
  unfolding beast_unescape_loop
  unescape_first fuel b out hi ho e =
      rw (beast_unescape_loop, lt→ltb 0 input.length hi, lt→ltb 0 n ho, e)

  unescape_doubled :
      (fuel i o : ℕ) (out : Buf)
      → 0 < i
      → i + 1 < input.length
      → o < n
      → buf_chr input i ≡ 0x1a
      → buf_chr input (i + 1) ≡ 0x1a
      → beast_unescape_loop (suc fuel) i o out input n
        ≡ beast_unescape_loop fuel (i + 2) (o + 1) (buf_store out o (0x1a ∷ [])) input n
  unfolding beast_unescape_loop
  unescape_doubled fuel i o out pos hi ho e e' = rw (
    beast_unescape_loop,
    lt→ltb i input.length (omega arith),
    lt→ltb o n ho,
    lt→ltb 0 i pos,
    e,
    e',
    ne→== i (input.length - 1) (omega arith),
  )

-- Two stores in a row, and where the reading has come to.
landed :
    (out : Buf) (o b : ℕ) (bs : List ℕ) (k k' : ℕ)
    → k ≡ k'
    → ◌≡◌ {A = Ssize × Buf}
        (size k, buf_store (buf_store out o (b ∷ [])) (o + 1) bs)
        (size k', buf_store out o (b ∷ bs))
landed out o b bs k k' e = rw (e, buf_store-buf_store out o b bs)

Reads-next : (input : Buf) (i : ℕ) (l : List ℕ) → Reads input (i + 1 + 1) l → Reads input (i + 2) l
Reads-next input i l r j h = ap (λ (k : ℕ). buf_chr input k) (two i j) ∙ r j h
  where
    two : (i j : ℕ) → i + 2 + j ≡ i + 1 + 1 + j
    two i j = omega arith

-- The loop of `beast_unescape` on what is left of an escaped message.
unescape_tail :
    (bs rest : List ℕ) (i o n fuel : ℕ) (out input : Buf)
    → 0 < i
    → Reads input i (stuff bs ++ rest)
    → input.length ≡ i + length (stuff bs ++ rest)
    → n ≡ o + length bs
    → length (stuff bs) ≤ fuel
    → beast_unescape_loop fuel i o out input n ≡ (size (i + length (stuff bs)), buf_store out o bs)
unescape_tail [] rest i o n fuel out input pos r len e f =
    unescape_done input n fuel i o out (omega arith)
    ∙ rw (store-nil out.bytes (out.start + o), add_zero i)
  where
    add_zero : (n : ℕ) → n + 0 ≡ n
    add_zero n = omega arith
unescape_tail (b ∷ bs) rest i o n zero out input pos r len e f = absurd (ground arith)
unescape_tail (b ∷ bs) rest i o n (suc fuel) out input pos r len e f =
    elim (Bool-cases (b == 0x1a)) [
      | inl h ↦
          let r' : Reads input i (b ∷ b ∷ (stuff bs ++ rest)) = rw h at r in
          let l' : input.length ≡ i + suc (suc (length (stuff bs ++ rest))) = rw h at len in
          let f' : suc (suc (length (stuff bs))) ≤ suc fuel = rw h at f in
          let r1 = Reads-tail input i b (b ∷ (stuff bs ++ rest)) r' in
          let is : b ≡ 0x1a = ==→eq b 0x1a h in
          let ih =
            unescape_tail bs rest (i + 2) (o + 1) n fuel (buf_store out o (0x1a ∷ [])) input
              (omega arith)
              (Reads-next input i (stuff bs ++ rest)
                (Reads-tail input (i + 1) b (stuff bs ++ rest) r1))
              (omega arith) (omega arith) (omega arith) in
          rw h (
            unescape_doubled input n fuel i o out pos (omega arith) (omega arith)
              (Reads-head input i b (b ∷ (stuff bs ++ rest)) r' ∙ is)
              (Reads-head input (i + 1) b (stuff bs ++ rest) r1 ∙ is)
            ∙ ih
            ∙ landed out o 0x1a bs (i + 2 + length (stuff bs)) (i + suc (suc (length (stuff bs))))
                (omega arith)
            ∙ ap (λ (c : ℕ). (size (i + suc (suc (length (stuff bs)))), buf_store out o (c ∷ bs)))
                (sym is))
      | inr h ↦
          let r' : Reads input i (b ∷ (stuff bs ++ rest)) = rw h at r in
          let l' : input.length ≡ i + suc (length (stuff bs ++ rest)) = rw h at len in
          let f' : suc (length (stuff bs)) ≤ suc fuel = rw h at f in
          let ih =
            unescape_tail bs rest (i + 1) (o + 1) n fuel (buf_store out o (b ∷ [])) input
              (omega arith) (Reads-tail input i b (stuff bs ++ rest) r') (omega arith) (omega arith)
              (omega arith) in
          rw h (
            unescape_plain input n fuel i o b out (omega arith) (omega arith)
              (Reads-head input i b (stuff bs ++ rest) r') h
            ∙ ih
            ∙ landed out o b bs (i + 1 + length (stuff bs)) (i + suc (length (stuff bs)))
                (omega arith))
    ]

Reads-front :
    (input : Buf) (l rest : List ℕ)
    → IsValid input
    → contents input ≡ l ++ rest
    → Reads input 0 (l ++ rest)
Reads-front input l rest v e = subst (λ (t : List ℕ). Reads input 0 t) e (Reads-contents input v)

-- `beast_unescape` on a valid buffer that starts with the escaped form of a message of the wanted
-- length, which is not empty, takes exactly that form and writes the message at the front of the
-- output, whatever follows in the buffer.
pub beast_unescape-escaped :
    (b : ℕ) (bs rest : List ℕ) (out input : Buf)
    → IsValid input
    → contents input ≡ escaped (b ∷ bs) ++ rest
    → beast_unescape out input (length (b ∷ bs))
      ≡ (size (length (escaped (b ∷ bs))), buf_store out 0 (b ∷ bs))
unfolding beast_unescape
beast_unescape-escaped b bs rest out input v e =
    let r = Reads-front input (escaped (b ∷ bs)) rest v e in
    let fuel = length (stuff bs ++ rest) in
    let whole : input.length ≡ suc fuel = omega (arith, length-contents input v, ap length e) in
    let n = length (b ∷ bs) in
    ap (λ (k : ℕ). beast_unescape_loop k 0 0 out input n) whole
    ∙ unescape_first input n fuel b out (omega arith) (omega arith)
        (Reads-head input 0 b (stuff bs ++ rest) r)
    ∙ unescape_tail bs rest 1 1 n fuel (buf_store out 0 (b ∷ [])) input (omega arith)
        (Reads-tail input 0 b (stuff bs ++ rest) r) (omega arith) (omega arith)
        (omega (arith, length-append (stuff bs) rest))
    ∙ landed out 0 b bs (1 + length (stuff bs)) (suc (length (stuff bs))) (omega arith)
