-- ===== src/Uuid.antt =====
-- adsbus/uuid.c: random identifiers of connections.
pub mod Form
use adsb_tools.Prelude.{
  ℕ, Option, List, [], ◌∷◌, ◌++◌, drop, get_or, store, bit_and, bit_or, Run, ok, ◌>>=◌,
}
use adsb_tools.Buf.{Buf}
use adsb_tools.Hex.{hex_from_bin_lower}
use adsb_tools.Rand.{rand_fill}

-- The marks of version and variant.
unfoldable pub uuid_mark : List ℕ → List ℕ
uuid_mark uuid =
    let versioned = store uuid 6 (bit_or (bit_and (get_or uuid 6 0) 0x0f) 0x40 ∷ []) in
    store versioned 8 (bit_or (bit_and (get_or versioned 8 0) 0x3f) 0x80 ∷ [])

abbrev pub dashed : List ℕ → List ℕ → List ℕ
dashed xs ys = xs ++ (b'-' ∷ ys)

-- The array `out`, every byte of which is written.
unfoldable pub uuid_text : List ℕ → List ℕ
uuid_text uuid = dashed (hex_from_bin_lower uuid 4) (
    dashed (hex_from_bin_lower (drop 4 uuid) 2) (
      dashed (hex_from_bin_lower (drop 6 uuid) 2) (
        dashed (hex_from_bin_lower (drop 8 uuid) 2)
          (hex_from_bin_lower (drop 10 uuid) 6 ++ 0 ∷ []))))

unfoldable pub uuid_gen : (ℕ → Option (List ℕ)) → Buf → Run (List ℕ × Buf)
uuid_gen readv rand_buf = do
  filled ← rand_fill readv 16 rand_buf
  ok (uuid_text (uuid_mark filled.0), filled.1)
