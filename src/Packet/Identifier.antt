-- ===== src/Packet/Identifier.antt =====
-- Which source identifiers `packet_validate_id` accepts.
use adsb_tools.Prelude.{
  ℕ, zero, suc, ◌≤◌, ◌<◌, ◌≡◌, refl, List, [], ◌∷◌, ◌++◌, true, some, ◌==◌, length, All, arith, ◌↔◌,
  Bool-cases, inl, inr, ==→eq,
}
use adsb_tools.Packet.{uuid_len, validate_loop, packet_validate_id}

abbrev pub IsPrintable : ℕ → Type 0
IsPrintable c = (32 ≤ c) × (c ≤ 126)

-- Printable characters, fewer than the limit, and a terminator behind them.
unfoldable pub IsIdentifier : ℕ → List ℕ → Type 0
IsIdentifier limit id =
    (text : List ℕ) × (rest : List ℕ) × (id ≡ text ++ (0 ∷ rest))
    × (length text < limit)
    × All IsPrintable text

accepts :
    (n : ℕ) (text rest : List ℕ)
    → length text < n
    → All IsPrintable text
    → validate_loop n (text ++ (0 ∷ rest)) ≡ true
unfolding validate_loop
accepts zero text rest h p = absurd (omega arith)
accepts (suc n) [] rest h p = refl
accepts (suc n) (c ∷ text) rest h p = ground (arith, accepts n text rest (omega arith) p.1)

validate_loop_sound : (n : ℕ) (id : List ℕ) → validate_loop n id ≡ true → IsIdentifier n id
unfolding validate_loop IsIdentifier
validate_loop_sound zero id h = cc
validate_loop_sound (suc n) [] h = cc
validate_loop_sound (suc n) (c ∷ id) h = elim (Bool-cases (c == 0)) [
  | inl e ↦ ([], id, rw (==→eq c 0 e), omega arith, tt)
  | inr e ↦
      let (text, rest, eq, short, printable) = validate_loop_sound n id (ground arith) in
      (c ∷ text, rest, rw eq, omega arith, (ground arith, printable))
]

validate_loop_complete : (n : ℕ) (id : List ℕ) → IsIdentifier n id → validate_loop n id ≡ true
unfolding IsIdentifier
validate_loop_complete n id (text, rest, eq, short, printable) =
    rw eq (accepts n text rest short printable)

-- `packet_validate_id` accepts exactly the terminated texts of printable characters that fit, with
-- their terminator, the array of a packet.
pub packet_validate_id_iff :
    (id : List ℕ) → (packet_validate_id (some id) ≡ true) ↔ IsIdentifier uuid_len id
unfolding packet_validate_id
packet_validate_id_iff id = (validate_loop_sound uuid_len id, validate_loop_complete uuid_len id)
