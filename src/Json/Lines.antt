-- ===== src/Json/Lines.antt =====
-- adsbus/json.c: the line ends behind an object.
use adsb_tools.Prelude.{
  ℕ, zero, suc, ◌≤◌, ◌<◌, ◌≡◌, refl, not, Run, ok, arith, Bool-cases, inl, inr, lt→ltb, ◌==◌, ◌||◌,
  ◌&&◌,
}
use adsb_tools.Buf.{Buf, buf_chr, consumed}
use adsb_tools.Buf.Window.{IsValid, buf_consume-contents}
use adsb_tools.Json.{json_skip_lines, json_taken}

-- A buffer that was consumed from, or left alone.
record IsShorter (b : Buf) (m : Run Buf) : Type 0 where
  pub left : Buf
  pub done : m ≡ ok left
  pub valid : IsValid left
  pub no_longer : left.length ≤ b.length

json_skip_lines-IsShorter : (n : ℕ) (b : Buf) → IsValid b → IsShorter b (json_skip_lines n b)
unfolding json_skip_lines
json_skip_lines-IsShorter zero b v = record {
  left = b;
  done = refl;
  valid = v;
  no_longer = omega arith;
}
json_skip_lines-IsShorter (suc n) b v =
    elim (Bool-cases (not (b.length == 0) && (buf_chr b 0 == b'\r' || buf_chr b 0 == b'\n'))) [
      | inr e ↦ record {
        left = b;
        done = simp (json_skip_lines, e);
        valid = v;
        no_longer = omega arith;
      }
      | inl e ↦
          let eaten = buf_consume-contents b 1 v (ground (arith, e)) in
          let rest = json_skip_lines-IsShorter n (consumed b 1) eaten.1 in
          record {
            left = rest.left;
            done = simp (json_skip_lines, e, eaten.0) rest.done;
            valid = rest.valid;
            no_longer = omega (arith, rest.no_longer, eaten.3);
          }
    ]

pub json_taken-IsShorter :
    (n : ℕ) (b : Buf)
    → IsValid b
    → 0 < n
    → n ≤ b.length
    → (left : Buf) × (json_taken n b ≡ ok left) × IsValid left × (left.length < b.length)
unfolding json_taken
json_taken-IsShorter n b v some_read fits =
    let eaten = buf_consume-contents b n v fits in
    let rest = json_skip_lines-IsShorter (consumed b n).length (consumed b n) eaten.1 in
    (
      rest.left,
      simp (json_taken, lt→ltb 0 n some_read, eaten.0) rest.done,
      rest.valid,
      omega (arith, rest.no_longer, eaten.3),
    )
