-- ===== src/Buf.antt =====
-- adsbus/buf.h and adsbus/buf.c: the buffer between a file descriptor and a parser.
pub mod Window
use adsb_tools.Prelude.{
  ℕ, zero, suc, ◌+◌, ◌-◌, ◌≤◌, ◌<◌, ◌≡◌, Bool, Option, none, some, List, [], ◌∷◌, ◌++◌, length,
  get_or, take, drop, replicate, store, ltb, leb, ◌==◌, if◌then◌else◌, Run, ok, abort, ◌>>=◌, ◌>>◌,
  check, Ssize, minus_one, size,
}

abbrev pub buf_len_max : ℕ
buf_len_max = 256

-- `struct buf`; `bytes` is the array `buf`.
pub record Buf : Type 0 where
  pub bytes : List ℕ
  pub start : ℕ
  pub length : ℕ

-- `struct buf buf = BUF_INIT`: what the initialiser does not name is zero.
unfoldable pub buf_zero : Buf
buf_zero = record { bytes = replicate buf_len_max 0; start = 0; length = 0 }

-- The pointer `buf_at(buf, at)`, as the array from there on.
abbrev pub buf_at : Buf → ℕ → List ℕ
buf_at b i = drop (b.start + i) b.bytes

abbrev pub buf_chr : Buf → ℕ → ℕ
buf_chr b i = get_or b.bytes (b.start + i) 0

-- Writes through `buf_at(buf, at)`.
abbrev pub buf_store : Buf → ℕ → List ℕ → Buf
buf_store b i xs = record b { bytes = store b.bytes (b.start + i) xs }

unfoldable pub buf_init : Buf → Buf
buf_init b = record b { start = 0; length = 0 }

-- The move of the unread bytes to the front when the end of the array is reached.
unfoldable pub buf_compact : Buf → Run Buf
buf_compact b =
    if b.start + b.length == buf_len_max
    then (do
      check (ltb 0 b.start)
      ok (record b { bytes = store b.bytes 0 (take b.length (buf_at b 0)); start = 0 }))
    else ok b

abbrev pub buf_space : Buf → ℕ
buf_space b = buf_len_max - b.length - b.start

-- What `read` returned: `none` is -1, and the list holds the bytes that it stored.
unfoldable pub buf_filled : Buf → Option (List ℕ) → Ssize × Buf
buf_filled b none = (minus_one, b)
buf_filled b (some []) = (size 0, b)
buf_filled b (some (x ∷ xs)) =
    let new = buf_store b b.length (x ∷ xs) in
    (size (length (x ∷ xs)), record new { length = b.length + length (x ∷ xs) })

-- `read` is the system call on the descriptor; its argument is the size that it is given.
unfoldable pub buf_fill : (ℕ → Option (List ℕ)) → Buf → Run (Ssize × Buf)
unfolding buf_compact buf_filled
buf_fill read b = do b' ← buf_compact b; ok (buf_filled b' (read (buf_space b')))

-- The body of `buf_consume` below its `assert`.
unfoldable pub consumed : Buf → ℕ → Buf
consumed b n =
    let left = b.length - n in
    if left == 0
    then record b { start = 0; length = left }
    else record b { start = b.start + n; length = left }

unfoldable pub buf_consume : Buf → ℕ → Run Buf
unfolding consumed
buf_consume b n = do check (leb n b.length); ok (consumed b n)
