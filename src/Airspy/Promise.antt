-- ===== src/Airspy/Promise.antt =====
-- `airspy_adsb_parse` keeps the promise of a parser on every buffer.
use adsb_tools.Prelude.{
  ℕ, ◌+◌, ◌*◌, ◌%◌, ◌≤◌, ◌<◌, ◌≡◌, refl, false, ok, Ssize, size, minus_one, arith, Bool-cases, inl,
  inr, ◌==◌, ◌||◌,
}
use adsb_tools.Buf.{Buf, buf_at}
use adsb_tools.Buf.Window.{IsValid}
use adsb_tools.Packet.{
  Packet, PacketType, packet_payload_len, packet_rssi_scale_in, packet_rssi_max, u32, type_mode_ac,
  type_mode_s_short, type_mode_s_long,
}
use adsb_tools.Packet.Scale.{scale_in-lt-max}
use adsb_tools.Hex.{hex_to_bin, hex_to_int}
use adsb_tools.Hex.RoundTrip.{length-hex_to_bin}
use adsb_tools.Parser.{ParserState, parsed}
use adsb_tools.Parser.Laws.{
  IsWellFormed, IsReady, IsSound, rejected-IsSound, taken-IsSound, KeepsSound, or_else-IsSound,
}
use adsb_tools.Airspy.Overlay
use adsb_tools.Airspy.{
  overlay_start, airspy_rejects, airspy_taken, cast_16, cast_32, airspy_accept,
  airspy_adsb_parse_packet, airspy_adsb_parse,
}

-- What is consumed was there.
airspy_taken-le-length :
    (b : Buf) (n : ℕ)
    → airspy_rejects b n ≡ false
    → (airspy_taken b n ≤ b.length) × (0 < airspy_taken b n)
unfolding airspy_rejects
airspy_taken-le-length b n h = ground arith

rssi_in_bound : (v : ℕ) → (r : ℕ) × (packet_rssi_scale_in v 0xffff ≡ ok r) × (r ≤ packet_rssi_max)
unfolding packet_rssi_scale_in
rssi_in_bound v = (u32 (v * 65537), refl, omega arith)

airspy_accept-IsSound :
    (type : PacketType) (mhz t : ℕ) (b : Buf) (p : Packet) (s : ParserState)
    → IsValid b
    → IsWellFormed p
    → IsReady s
    → airspy_rejects b (packet_payload_len type) ≡ false
    → 0 < mhz
    → IsSound b p (airspy_accept type mhz t b p s)
unfolding airspy_accept
airspy_accept-IsSound type mhz t b p s v w ready h pos =
    let n = packet_payload_len type in
    let out = hex_to_bin p.payload (buf_at b 1) n in
    let (fits, some_taken) = airspy_taken-le-length b n h in
    let (m, em, lm, _) = scale_in-lt-max t 0xffff_ffff mhz s.mlat_state pos in
    let (r, er, lr) =
      rssi_in_bound (cast_32 (hex_to_int (buf_at b (overlay_start n + Overlay.rssi)) 2)) in
    let p' : Packet = record p { mlat_timestamp = m.0; rssi = r; type = type; payload = out.1 } in
    let s' : ParserState = record s { mlat_state = m.1 } in
    let w' : IsWellFormed p' = record {
      identified = w.identified;
      sized = rw (length-hex_to_bin p.payload (buf_at b 1) n) w.sized;
      timed = omega (arith, lm);
      strength = lr;
      counted = w.counted;
    } in
    let ready' : IsReady s' = record { mhz_pos = ready.mhz_pos; rssi_pos = ready.rssi_pos } in
    elim (Bool-cases out.0) [
      | inl e ↦
          rw (airspy_accept, em, er, e)
            (taken-IsSound b p p' s' v w' refl ready' (airspy_taken b n) fits some_taken)
      | inr e ↦ rw (airspy_accept, em, er, e) (rejected-IsSound b p p' s' v w' refl ready')
    ]

by_time-IsSound :
    (type : PacketType) (mhz : ℕ) (time : Ssize) (b : Buf) (p : Packet) (s : ParserState)
    → IsValid b
    → IsWellFormed p
    → IsReady s
    → (airspy_rejects b (packet_payload_len type) || mhz == 0) ≡ false
    → IsSound b p (elim time [
      | minus_one ↦ ok (parsed false b p s)
      | size t ↦ airspy_accept type mhz t b p s
    ])
by_time-IsSound type mhz minus_one b p s v w r e = rejected-IsSound b p p s v w refl r
by_time-IsSound type mhz (size t) b p s v w r e =
    airspy_accept-IsSound type mhz t b p s v w r (ground arith) (ground arith)

-- The unit of the time stamp.
abbrev unit_of : PacketType → Buf → ℕ
unit_of type b =
    2
    * cast_16
        (hex_to_int (buf_at b (overlay_start (packet_payload_len type) + Overlay.mlat_precision)) 1)
    % 0x1_0000

airspy_adsb_parse_packet-KeepsSound :
    (type : PacketType) → KeepsSound (airspy_adsb_parse_packet type)
unfolding airspy_adsb_parse_packet
airspy_adsb_parse_packet-KeepsSound type b p s v pos w r =
    elim (Bool-cases (airspy_rejects b (packet_payload_len type) || unit_of type b == 0)) [
      | inl e ↦ rw e (rejected-IsSound b p p s v w refl r)
      | inr e ↦ rw e (
          by_time-IsSound type (unit_of type b)
            (hex_to_int
              (buf_at b (overlay_start (packet_payload_len type) + Overlay.mlat_timestamp)) 4)
            b p s v w r e)
    ]

-- For a valid buffer that holds something, a well-formed packet and a state that is fit for
-- scaling: `airspy_adsb_parse` returns, after success with one byte at least consumed and after a
-- failure with nothing, and the buffer, the packet and the state that it leaves are as they were
-- required to be.
pub airspy_adsb_parse-IsSound :
    (b : Buf) (p : Packet) (s : ParserState)
    → IsValid b
    → 0 < b.length
    → IsWellFormed p
    → IsReady s
    → IsSound b p (airspy_adsb_parse b p s)
unfolding airspy_adsb_parse
airspy_adsb_parse-IsSound b p s v pos w r =
    or_else-IsSound (airspy_adsb_parse_packet type_mode_s_long) pos
      (or_else-IsSound (airspy_adsb_parse_packet type_mode_s_short) pos
        (airspy_adsb_parse_packet-KeepsSound type_mode_ac b p s v pos w r)
        (airspy_adsb_parse_packet-KeepsSound type_mode_s_short))
      (airspy_adsb_parse_packet-KeepsSound type_mode_s_long)
