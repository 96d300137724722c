-- ===== src/Tests/Buffers.antt =====
-- adsbus/buf.c at fixed inputs.
use adsb_tools.Prelude.{
  ℕ, ◌≡◌, refl, ◌<◌, ◌≤◌, some, Option, List, [], ◌∷◌, ◌++◌, length, drop, take, replicate, ok,
  arith, length-take,
}
use adsb_tools.Buf.{Buf, buf_consume, buf_fill, consumed}
use adsb_tools.Buf.Window.{
  IsValid, contents, received, read_count, buf_consume-contents, buf_fill-contents,
}

-- A buffer with three bytes that stand at its end.
abbrev at_end : Buf
at_end = record { bytes = replicate 253 0 ++ 5 ∷ 6 ∷ 7 ∷ []; start = 253; length = 3 }

at_end-IsValid : IsValid at_end
at_end-IsValid = record { whole = refl; inside = omega arith }

buf_consume-contents_example :
    (buf_consume at_end 2 ≡ ok (consumed at_end 2))
    × IsValid (consumed at_end 2)
    × (contents (consumed at_end 2) ≡ drop 2 (contents at_end))
    × ((consumed at_end 2).length ≡ 1)
buf_consume-contents_example = buf_consume-contents at_end 2 at_end-IsValid (omega arith)

-- A descriptor that has two bytes.
abbrev two_bytes : ℕ → Option (List ℕ)
two_bytes n = some (take n (8 ∷ 9 ∷ []))

two_bytes-fit : (n : ℕ) → length (received (two_bytes n)) ≤ n
two_bytes-fit n = ground (arith, length-take {A = ℕ} n (8 ∷ 9 ∷ []))

buf_fill-contents_example :
    (space : ℕ) × (b' : Buf) × (0 < space)
    × (buf_fill two_bytes at_end ≡ ok (read_count (two_bytes space), b'))
    × IsValid b'
    × (contents b' ≡ contents at_end ++ received (two_bytes space))
buf_fill-contents_example =
    buf_fill-contents two_bytes at_end two_bytes-fit at_end-IsValid (omega arith)
