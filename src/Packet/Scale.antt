-- ===== src/Packet/Scale.antt =====
-- What the scaling of time stamps and of signal strengths keeps.
use mathlib.Core.Path.{subst}
use native.Mathlib.Nat.{
  mul-div_cancel, mul-add-mod_self_right, mod-eq_of_lt, le-div_iff_mul-le, mul-div-le,
}
use adsb_tools.Prelude.{
  ℕ, suc, ◌+◌, ◌*◌, ◌/◌, ◌%◌, ◌≤◌, ◌<◌, ◌≡◌, refl, sym, ap, List, [], ◌∷◌, ltb, length, All, ok,
  arith, ◌>>=◌, inl, inr, Bool-cases, lt→ltb, ne→==,
}
use adsb_tools.Packet.{
  MlatState, u64, packet_mlat_mhz, packet_mlat_max, packet_rssi_max,
  packet_mlat_timestamp_scale_width_in, packet_mlat_timestamp_scale_in,
  packet_mlat_timestamp_scale_out, packet_rssi_scale_in, packet_rssi_scale_out,
}

-- The last value that a source's counter was extended to.
abbrev pub extended : MlatState → ℕ
extended s = s.timestamp_generation + s.timestamp_last

-- The extended values of successive readings of one counter.
pub extend_all : ℕ → MlatState → List ℕ → List ℕ
extend_all max s [] = []
extend_all max s (t ∷ ts) =
    let (wide, s') = packet_mlat_timestamp_scale_width_in t max s in wide ∷ extend_all max s' ts

-- No element is below the one before it, and the first is not below `low`.
abbrev pub IsRising : ℕ → List ℕ → Type 0
IsRising low [] = Unit {0}
IsRising low (x ∷ xs) = (low ≤ x) × IsRising x xs

width_in_step :
    (t max : ℕ) (s : MlatState)
    → s.timestamp_last ≤ max
    → t ≤ max
    → s.timestamp_generation + max + max < 0x1_0000_0000_0000_0000
    → let (wide, s') = packet_mlat_timestamp_scale_width_in t max s in
      (extended s ≤ wide)
      × (wide ≡ extended s')
      × (s'.timestamp_last ≡ t)
      × (s'.timestamp_generation ≤ s.timestamp_generation + max)
unfolding packet_mlat_timestamp_scale_width_in
width_in_step t max s h k fits = ground arith

-- For every list of readings of a counter, none above its greatest value `max`, from a state
-- whose last reading is not above it either, and as long as 64 bits hold the last generation,
-- `max` and `max` once more for each reading: however often the counter wraps, the extended
-- readings never fall, and the first is not below the last one before.
pub extend_all-IsRising :
    (max : ℕ) (s : MlatState) (ts : List ℕ)
    → s.timestamp_last ≤ max
    → All (λ t. t ≤ max) ts
    → s.timestamp_generation + max + length ts * max < 0x1_0000_0000_0000_0000
    → IsRising (extended s) (extend_all max s ts)
unfolding extend_all
extend_all-IsRising max s [] h k fits = tt
extend_all-IsRising max s (t ∷ ts) h k fits =
    let st = width_in_step t max s h k.0 (omega arith) in
    let s' = (packet_mlat_timestamp_scale_width_in t max s).1 in
    (
      st.0,
      subst (λ w. IsRising w (extend_all max s' ts)) (sym st.1)
          (extend_all-IsRising max s' ts (omega (arith, st.2, k.0)) k.1 (omega (arith, st.3))),
    )

-- Scaling in at a nonzero frequency succeeds, with a time stamp that `packet_sanity_check` lets pass.
pub scale_in-lt-max :
    (t max mhz : ℕ) (s : MlatState)
    → 0 < mhz
    → (r : ℕ × MlatState) × (packet_mlat_timestamp_scale_in t max mhz s ≡ ok r)
      × (r.0 < packet_mlat_max)
      × (r.1 ≡ (packet_mlat_timestamp_scale_width_in t max s).1)
unfolding packet_mlat_timestamp_scale_in
scale_in-lt-max t max mhz s h =
    let wide = packet_mlat_timestamp_scale_width_in t max s in
    (
      (u64 (wide.0 * (packet_mlat_mhz / mhz)) % packet_mlat_max, wide.1),
      rw (lt→ltb 0 mhz h),
      omega arith,
      refl,
    )

scale_back :
    (e q max t k : ℕ)
    → e ≡ k * max + t
    → t < max
    → 0 < q
    → e * q < packet_mlat_max
    → u64 (e * q) % packet_mlat_max / q % max ≡ t
scale_back e q max t k he ht hq fits =
    let small : u64 (e * q) % packet_mlat_max ≡ e * q = omega arith in
    rw (small, mul-div_cancel e hq, he, mul-add-mod_self_right k max t, mod-eq_of_lt ht)

mul_le : (a b q : ℕ) → a ≤ b → a * q ≤ b * q
mul_le a b q h = grind arith

div_pos : (a b : ℕ) → 0 < b → b ≤ a → 0 < a / b
div_pos a b h k = (le-div_iff_mul-le h).1 (omega arith)

width_in_form :
    (t max k : ℕ) (s : MlatState)
    → s.timestamp_generation ≡ k * max
    → s.timestamp_generation + max + t < packet_mlat_max
    → (j : ℕ) × ((packet_mlat_timestamp_scale_width_in t max s).0 ≡ j * max + t)
      × (j * max ≤ s.timestamp_generation + max)
unfolding packet_mlat_timestamp_scale_width_in
width_in_form t max k s hg fits = elim (Bool-cases (ltb t s.timestamp_last)) [
  | inl e ↦ (suc k, rw e (omega arith), omega arith)
  | inr e ↦ (k, rw e (omega arith), omega arith)
]

-- For a reading below `max` of a source of at most 120 MHz, in a state whose generation is a
-- multiple of `max`, if the scaled value, with one more generation, is below the greatest time
-- stamp: scaling it in and out again gives the reading.
pub scale_out-scale_in :
    (t max mhz k : ℕ) (s : MlatState)
    → t < max
    → 0 < mhz
    → mhz ≤ packet_mlat_mhz
    → s.timestamp_generation ≡ k * max
    → (s.timestamp_generation + max + t) * (packet_mlat_mhz / mhz) < packet_mlat_max
    → (packet_mlat_timestamp_scale_in t max mhz s >>= λ r.
        packet_mlat_timestamp_scale_out r.0 max mhz)
      ≡ ok t
unfolding packet_mlat_timestamp_scale_in packet_mlat_timestamp_scale_out
scale_out-scale_in t max mhz k s ht hm hm' hg fits =
    let q = packet_mlat_mhz / mhz in
    let hq : 0 < q = div_pos packet_mlat_mhz mhz hm hm' in
    let (j, e, hj) = width_in_form t max k s hg (grind arith) in
    let wide = (packet_mlat_timestamp_scale_width_in t max s).0 in
    let small : wide ≤ s.timestamp_generation + max + t = omega arith in
    let fits' : wide * q < packet_mlat_max = omega (arith, mul_le wide _ q small) in
    rw (lt→ltb 0 mhz hm, ne→== q 0 (omega arith), lt→ltb 0 max (omega arith))
      (ap ok (scale_back wide q max t j e ht hq fits'))

-- For a strength up to the full scale `max` of a source, where `max` is not 0 and fits 32 bits:
-- scaling it in multiplies it by the whole quotient of the scales, without a wrap, and scaling
-- that out gives it back.
pub rssi_out-rssi_in :
    (v max : ℕ)
    → v ≤ max
    → 0 < max
    → max ≤ packet_rssi_max
    → (packet_rssi_scale_in v max ≡ ok (v * (packet_rssi_max / max)))
      × (packet_rssi_scale_out (v * (packet_rssi_max / max)) max ≡ ok v)
unfolding packet_rssi_scale_in packet_rssi_scale_out
rssi_out-rssi_in v max h hm hm' =
    let q = packet_rssi_max / max in
    let hq : 0 < q = div_pos packet_rssi_max max hm hm' in
    let top : v * q ≤ packet_rssi_max = grind (arith, mul-div-le packet_rssi_max max) in
    (
      rw (lt→ltb 0 max hm) (ap ok (mod-eq_of_lt (omega arith))),
      rw (lt→ltb 0 max hm, ne→== q 0 (omega arith), mul-div_cancel v hq),
    )
