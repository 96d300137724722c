-- ===== src/Proto/Varint.antt =====
-- adsbus/proto.c: the length before a message.
use adsb_tools.Prelude.{
  ℕ, zero, suc, ◌+◌, ◌*◌, ◌%◌, ◌^◌, ◌≤◌, ◌≡◌, refl, bit_and, bit_or, Bool, true, false, not, Option,
  none, some, ltb, ◌==◌, if◌then◌else◌, arith,
}
use adsb_tools.Buf.{Buf, buf_chr}
use adsb_tools.Packet.{u64}
use adsb_tools.Proto.{ssize_max, varint_loop, proto_parse_varint}

-- Where a value and a position come to lie.
pub record IsRead (b : Buf) (start : ℕ) (r : Option ℕ × ℕ) : Type 0 where
  pub forth : start ≤ r.1
  pub inside : r.1 ≤ b.length
  pub signed : (v : ℕ) → r.0 ≡ some v → v ≤ ssize_max

missed : (b : Buf) (start : ℕ) → start ≤ b.length → IsRead b start (none, start)
missed b start h = record { forth = omega arith; inside = h; signed = λ v e. cc }

branch :
    {b : Buf} {start : ℕ} {r r' : Option ℕ × ℕ} (t : Bool)
    → (t ≡ true → IsRead b start r)
    → (t ≡ false → IsRead b start r')
    → IsRead b start (if t then r else r')
branch true h k = h refl
branch false h k = k refl

varint_taken :
    (b : Buf) (start value : ℕ)
    → start ≤ b.length
    → not (ltb start b.length) ≡ false
    → ltb ssize_max value ≡ false
    → IsRead b start (some value, start + 1)
varint_taken b start value h more small = record {
  forth = omega arith;
  inside = ground (arith, more);
  signed = λ v e. let fits : value ≤ ssize_max = ground (arith, small) in grind (arith, e, fits);
}

varint_loop-IsRead :
    (left : ℕ) (b : Buf) (start value shift : ℕ)
    → start ≤ b.length
    → IsRead b start (varint_loop left b start value shift)
unfolding varint_loop
varint_loop-IsRead zero b start value shift h = missed b start h
varint_loop-IsRead (suc left) b start value shift h =
    let value' = bit_or value (u64 (bit_and (buf_chr b start) 127 * 2 ^ shift)) in
    let shift' = (shift + 7) % 65536 in
    let taken = varint_taken b start value' h in
    branch (not (ltb start b.length)) (λ _. missed b start h)
      (λ more.
        branch (ltb ssize_max value') (λ _. missed b start h)
          (λ small.
            branch {r = (some value', start + 1)} (bit_and (buf_chr b start) 0x80 == 0)
              (λ _. taken more small)
              (λ _.
                branch (ltb 21 shift') (λ _. missed b start h)
                  (λ _.
                    let rest =
                      varint_loop-IsRead left b (start + 1) value' shift' (ground (arith, more)) in
                    record {
                      forth = omega (arith, rest.forth);
                      inside = rest.inside;
                      signed = rest.signed;
                    }))))

pub proto_parse_varint-IsRead :
    (b : Buf) (start : ℕ) → start ≤ b.length → IsRead b start (proto_parse_varint b start)
unfolding proto_parse_varint
proto_parse_varint-IsRead b start h = varint_loop-IsRead b.length b start 0 0 h
