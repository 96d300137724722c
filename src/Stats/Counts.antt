-- ===== src/Stats/Counts.antt =====
-- What adsbus/stats.c has counted after a sequence of messages.
use native.Mathlib.Nat.{mod-eq_of_lt}
use adsb_tools.Prelude.{
  ℕ, suc, ◌+◌, ◌%◌, ◌≤◌, ◌<◌, ◌≡◌, refl, ap, some, List, [], ◌∷◌, ◌++◌, length, ◌==◌, ◌!=◌,
  if◌then◌else◌, Run, ok, arith, ◌⊎◌, Bool-cases, inl, inr, ge→ltb,
}
use adsb_tools.Buf.{Buf, buf_zero, buf_len_max}
use adsb_tools.Packet.{Packet, PacketType}
use adsb_tools.Json.Library.{Writer}
use adsb_tools.Json.Text.{joined, holding, json_serialize_to_buf-holding}
use adsb_tools.Stats.{
  StatsState, type_index, counted, stats_object, stats_serialize, stats_serialize_each,
}

-- How many packets of a list have a type.
pub count : PacketType → List Packet → ℕ
count type [] = 0
count type (p ∷ ps) =
    let rest = count type ps in if type_index type == type_index p.type then rest + 1 else rest

-- The state after a sequence: the totals are the numbers of messages.
pub record HasCounted (s s' : StatsState) (ps : List Packet) : Type 0 where
  pub total : s'.total_count ≡ s.total_count + length ps
  pub by_type : (type : PacketType) → s'.type_count type ≡ s.type_count type + count type ps

-- The buffers for the messages after the first `n`: nothing is written but for each thousandth
-- message.
abbrev pub Quiet : ℕ → List Buf → Type 0
Quiet n [] = Unit {0}
Quiet n (b ∷ bs) = ((b ≡ buf_zero) ⊎ ((n + 1) % 1000 ≡ 0)) × Quiet (n + 1) bs

-- Counters that have not wrapped around, and will not.
pub record IsCounting (s : StatsState) (left : ℕ) : Type 0 where
  pub room : s.total_count + left < 0x1_0000_0000_0000_0000
  pub parts : (type : PacketType) → s.type_count type ≤ s.total_count

counted-total :
    (p : Packet) (s : StatsState) (left : ℕ)
    → IsCounting s (suc left)
    → (counted (some p) s).total_count ≡ s.total_count + 1
counted-total p s left c = mod-eq_of_lt (omega (arith, c.room))

counted-type :
    (p : Packet) (s : StatsState) (left : ℕ) (type : PacketType)
    → IsCounting s (suc left)
    → (counted (some p) s).type_count type ≡ s.type_count type + count type (p ∷ [])
unfolding count
counted-type p s left type c = elim (Bool-cases (type_index type == type_index p.type)) [
  | inl e ↦ simp (e, count) (mod-eq_of_lt (omega (arith, c.room, c.parts type)))
  | inr e ↦ simp (e, count) (omega arith)
]

count-one : (type : PacketType) (p : Packet) → count type (p ∷ []) ≤ 1
unfolding count
count-one type p = elim (Bool-cases (type_index type == type_index p.type)) [
  | inl e ↦ simp (e, count) (omega arith)
  | inr e ↦ simp (e, count) (omega arith)
]

count-more :
    (type : PacketType) (p : Packet) (ps : List Packet)
    → count type (p ∷ ps) ≡ count type (p ∷ []) + count type ps
unfolding count
count-more type p ps = elim (Bool-cases (type_index type == type_index p.type)) [
  | inl e ↦ simp (e, count) (omega arith)
  | inr e ↦ simp (e, count) (omega arith)
]

counted-IsCounting :
    (p : Packet) (s : StatsState) (left : ℕ)
    → IsCounting s (suc left)
    → IsCounting (counted (some p) s) left
counted-IsCounting p s left c = record {
  room = omega (arith, c.room, counted-total p s left c);
  parts = λ type. omega (
    arith,
    counted-total p s left c,
    counted-type p s left type c,
    count-one type p,
    c.parts type,
  );
}

-- One message, when the library keeps to the size of a buffer.
record Writes (s : StatsState) (p : Packet) (m : Run (Buf × StatsState)) : Type 0 where
  pub buf : Buf
  pub done : m ≡ ok (buf, counted (some p) s)
  pub quiet : (buf ≡ buf_zero) ⊎ ((counted (some p) s).total_count % 1000 ≡ 0)

module _ (writer : Writer) (clock : ℕ → ℕ)
    (fits : (t : ℕ) (s : StatsState)
      → length (joined (writer.dump (stats_object t s))) < buf_len_max) where
  serialize-Writes :
      (p : Packet) (s : StatsState)
      → Writes s p (stats_serialize writer (some (clock s.total_count)) (some p) buf_zero s)
  unfolding stats_serialize
  serialize-Writes p s =
      let s1 = counted (some p) s in
      elim (Bool-cases (s1.total_count % 1000 != 0)) [
        | inl e ↦ record { buf = buf_zero; done = simp (stats_serialize, e); quiet = inl refl }
        | inr e ↦
            let obj = stats_object (clock s.total_count) s1 in
            let short =
              ge→ltb 255 (length (joined (writer.dump obj)))
                (omega (arith, fits (clock s.total_count) s1)) in
            let whole = json_serialize_to_buf-holding writer obj in
            let wrote = simp short at whole in
            record {
              buf = holding (joined (writer.dump obj) ++ (b'\n' ∷ []));
              done = simp (stats_serialize, e, wrote);
              quiet = inr (ground (arith, e));
            }
      ]

  -- While the counters do not wrap around, the clock answers, and the library writes the report
  -- in less than a buffer: after a sequence of messages the total has grown by their number, and
  -- the count of each type by the number of those of this type; for each message there is one
  -- buffer, which is empty unless the total has become a multiple of a thousand.
  pub stats_serialize_each-HasCounted :
      (ps : List Packet) (s : StatsState)
      → IsCounting s (length ps)
      → (bufs : List Buf) × (s' : StatsState) × (stats_serialize_each writer
            (λ n. some (clock n))
            ps
            s
          ≡ ok (bufs, s'))
        × HasCounted s s' ps
        × (length bufs ≡ length ps)
        × Quiet s.total_count bufs
  unfolding stats_serialize_each count
  stats_serialize_each-HasCounted [] s c =
      ([], s, refl, record { total = omega arith; by_type = λ type. omega arith }, refl, tt)
  stats_serialize_each-HasCounted (p ∷ ps) s c =
      let first = serialize-Writes p s in
      let s1 = counted (some p) s in
      let total = counted-total p s (length ps) c in
      let (bufs, s', done, counts, same, quiet) =
        stats_serialize_each-HasCounted ps s1 (counted-IsCounting p s (length ps) c) in
      let quiet_first = first.quiet in
      (
        first.buf ∷ bufs,
        s',
        simp (stats_serialize_each, first.done, done),
        record {
          total = omega (arith, counts.total, total);
          by_type = λ type. omega (
            arith,
            counts.by_type type,
            counted-type p s (length ps) type c,
            count-more type p ps,
          );
        },
        ap suc same,
        (simp total at quiet_first, simp total at quiet),
      )
