-- ===== src/Beast/Promise.antt =====
-- `beast_parse` keeps the promise of a parser on every buffer.
use adsb_tools.Prelude.{
  ℕ, zero, suc, ◌+◌, ◌*◌, ◌≤◌, ◌<◌, ◌≡◌, refl, [], ◌∷◌, take, store, ok, Ssize, size, minus_one,
  arith, length-store,
}
use adsb_tools.Buf.{Buf, buf_at, buf_chr, buf_store, buf_zero}
use adsb_tools.Buf.Window.{IsValid}
use adsb_tools.Packet.{
  Packet, PacketType, packet_payload_len, packet_rssi_scale_in, packet_rssi_max, type_mode_ac,
  type_mode_s_short, type_mode_s_long, u32,
}
use adsb_tools.Packet.Scale.{scale_in-lt-max}
use adsb_tools.Parser.{ParserState}
use adsb_tools.Parser.Laws.{
  IsWellFormed, IsReady, IsSound, KeepsSound, rejected-IsSound, taken-IsSound, branch-IsSound,
}
use adsb_tools.Beast.{
  overlay_len, beast_mlat_max, beast_mlat_mhz, beast_parse_mlat, beast_unescape_loop,
  beast_unescape, beast_accept, beast_parse_packet, beast_parse,
}

-- A successful unescape has read no more than there is, and a byte at least for each that it wrote.
unescape_loop_bounds :
    (fuel i o : ℕ) (out input : Buf) (n k : ℕ)
    → i ≤ input.length
    → o ≤ i
    → (beast_unescape_loop fuel i o out input n).0 ≡ size k
    → (k ≤ input.length) × (n ≤ k)
unfolding beast_unescape_loop
unescape_loop_bounds zero i o out input n k hi ho e = ground arith
unescape_loop_bounds (suc fuel) i o out input n k hi ho e = ground (
  arith,
  unescape_loop_bounds fuel (i + 1) (o + 1) (buf_store out o (buf_chr input i ∷ [])) input n k,
  unescape_loop_bounds fuel (i + 2) (o + 1) (buf_store out o (buf_chr input (i + 1) ∷ [])) input n
      k,
)

pub beast_unescape_bounds :
    (out input : Buf) (n k : ℕ)
    → (beast_unescape out input n).0 ≡ size k
    → (k ≤ input.length) × (n ≤ k)
unfolding beast_unescape
beast_unescape_bounds out input n k e =
    unescape_loop_bounds input.length 0 0 out input n k (omega arith) (omega arith) e

rssi_in_bound : (v : ℕ) → (r : ℕ) × (packet_rssi_scale_in v 255 ≡ ok r) × (r ≤ packet_rssi_max)
unfolding packet_rssi_scale_in
rssi_in_bound v = (u32 (v * 16843009), refl, omega arith)

accept-IsSound :
    (type : PacketType) (n : ℕ) (buf2 b : Buf) (p : Packet) (s : ParserState)
    → IsValid b
    → n ≤ b.length
    → 0 < n
    → IsWellFormed p
    → IsReady s
    → IsSound b p (beast_accept type n buf2 b p s)
unfolding beast_accept
accept-IsSound type n buf2 b p s v fits pos w ready =
    let source = beast_parse_mlat (buf_at buf2 2) in
    let (m, em, lm, _) =
      scale_in-lt-max source beast_mlat_max beast_mlat_mhz s.mlat_state (omega arith) in
    let (r, er, lr) = rssi_in_bound (buf_chr buf2 8) in
    let sent = take (packet_payload_len type) (buf_at buf2 overlay_len) in
    let p' : Packet = record p {
      type = type;
      mlat_timestamp = m.0;
      rssi = r;
      payload = store p.payload 0 sent;
    } in
    rw (beast_accept, em, er)
      (taken-IsSound b p p' (record s { mlat_state = m.1 }) v
        (record {
          identified = w.identified;
          sized = rw (length-store p.payload 0 sent) w.sized;
          timed = omega arith;
          strength = lr;
          counted = w.counted;
        })
        refl (record { mhz_pos = ready.mhz_pos; rssi_pos = ready.rssi_pos }) n fits pos)

beast_parse_packet-KeepsSound : (type : PacketType) → KeepsSound (beast_parse_packet type)
unfolding beast_parse_packet
beast_parse_packet-KeepsSound type b p s v pos w ready =
    let out = beast_unescape buf_zero b (overlay_len + packet_payload_len type) in
    by_result out refl
  where
    by_result :
        (out : Ssize × Buf)
        → beast_unescape buf_zero b (overlay_len + packet_payload_len type) ≡ out
        → IsSound b p (beast_parse_packet type b p s)
    by_result (minus_one, buf2) e =
        rw (beast_parse_packet, e) (rejected-IsSound b p p s v w refl ready)
    by_result (size n, buf2) e =
        let bounds =
          beast_unescape_bounds buf_zero b (overlay_len + packet_payload_len type) n (rw e) in
        rw (beast_parse_packet, e, e)
          (accept-IsSound type n buf2 b p s v bounds.0 (omega (arith, bounds)) w ready)

-- For a valid buffer that holds something, a well-formed packet and a state that is fit for
-- scaling: `beast_parse` returns, after success with one byte at least consumed and after a
-- failure with nothing, and the buffer, the packet and the state that it leaves are as they were
-- required to be.
pub beast_parse-IsSound :
    (b : Buf) (p : Packet) (s : ParserState)
    → IsValid b
    → 0 < b.length
    → IsWellFormed p
    → IsReady s
    → IsSound b p (beast_parse b p s)
unfolding beast_parse
beast_parse-IsSound b p s v pos w ready =
    let refuse = rejected-IsSound b p p s v w refl ready in
    branch-IsSound _ refuse (
      branch-IsSound _ (beast_parse_packet-KeepsSound type_mode_ac b p s v pos w ready) (
        branch-IsSound _ (beast_parse_packet-KeepsSound type_mode_s_short b p s v pos w ready) (
          branch-IsSound _ (beast_parse_packet-KeepsSound type_mode_s_long b p s v pos w ready)
            refuse)))
