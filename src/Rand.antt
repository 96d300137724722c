-- ===== src/Rand.antt =====
-- adsbus/rand.c: a buffer of random bytes. `readv` from the random device is a parameter: its argument
-- is the total size that it is given, its result what it stored.
pub mod Reuse
use adsb_tools.Prelude.{
  ℕ, ◌+◌, ◌-◌, Option, none, some, List, [], ◌∷◌, ◌++◌, length, take, drop, store, leb, ◌==◌,
  if◌then◌else◌, Run, ok, abort, ◌>>=◌, ◌>>◌, check,
}
use adsb_tools.Buf.{Buf, buf_at, buf_consume, buf_len_max}

-- The buffer after a `readv` that delivered `xs`, and the value.
abbrev pub rand_refill : Buf → List ℕ → List ℕ × Buf
rand_refill b xs = (
  drop b.start xs,
  record { bytes = store b.bytes 0 (take b.start xs); start = 0; length = buf_len_max },
)

unfoldable pub rand_fill : (ℕ → Option (List ℕ)) → ℕ → Buf → Run (List ℕ × Buf)
rand_fill readv n b =
    if leb n b.length
    then (do b' ← buf_consume b n; ok (take n (buf_at b 0), b'))
    else (elim (readv (b.start + n)) [
      | none ↦ abort
      | some xs ↦ check (length xs == b.start + n) >> ok (rand_refill b xs)
    ])

-- Successive requests, with the values one behind the other.
unfoldable pub rand_fill_each : (ℕ → Option (List ℕ)) → List ℕ → Buf → Run (List ℕ × Buf)
rand_fill_each readv [] b = ok ([], b)
rand_fill_each readv (n ∷ sizes) b = do
  first ← rand_fill readv n b
  rest ← rand_fill_each readv sizes first.1
  ok (first.0 ++ rest.0, rest.1)
