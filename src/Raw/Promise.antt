-- ===== src/Raw/Promise.antt =====
-- `raw_parse` keeps the promise of a parser on every buffer.
use adsb_tools.Prelude.{ℕ, ◌≤◌, ◌<◌, ◌≡◌, refl, false, arith, Bool-cases, inl, inr}
use adsb_tools.Buf.{Buf, buf_at}
use adsb_tools.Buf.Window.{IsValid}
use adsb_tools.Packet.{
  Packet, PacketType, packet_payload_len, type_mode_ac, type_mode_s_short, type_mode_s_long,
}
use adsb_tools.Hex.{hex_to_bin}
use adsb_tools.Hex.RoundTrip.{length-hex_to_bin}
use adsb_tools.Parser.{ParserState}
use adsb_tools.Parser.Laws.{
  IsWellFormed, IsReady, IsSound, IsWellFormed-payload, rejected-IsSound, taken-IsSound, KeepsSound,
  or_else-IsSound,
}
use adsb_tools.Raw.{raw_rejects, raw_taken, raw_accept, raw_parse_packet, raw_parse}

-- What is consumed was there.
taken-le-length :
    (b : Buf) (n : ℕ) → raw_rejects b n ≡ false → (raw_taken b n ≤ b.length) × (0 < raw_taken b n)
unfolding raw_rejects
taken-le-length b n h = ground arith

raw_accept-IsSound :
    (type : PacketType) (b : Buf) (p : Packet) (s : ParserState)
    → IsValid b
    → IsWellFormed p
    → IsReady s
    → raw_rejects b (packet_payload_len type) ≡ false
    → IsSound b p (raw_accept type b p s)
unfolding raw_accept
raw_accept-IsSound type b p s v w r h =
    let n = packet_payload_len type in
    let out = hex_to_bin p.payload (buf_at b 1) n in
    let (fits, pos) = taken-le-length b n h in
    let w' = IsWellFormed-payload type out.1 w (length-hex_to_bin p.payload (buf_at b 1) n) in
    let w'' = IsWellFormed-payload p.type out.1 w (length-hex_to_bin p.payload (buf_at b 1) n) in
    elim (Bool-cases out.0) [
      | inl e ↦
          rw (raw_accept, e)
            (taken-IsSound b p (record p { type = type; payload = out.1 }) s v w' refl r
              (raw_taken b n) fits pos)
      | inr e ↦
          rw (raw_accept, e) (rejected-IsSound b p (record p { payload = out.1 }) s v w'' refl r)
    ]

raw_parse_packet-KeepsSound : (type : PacketType) → KeepsSound (raw_parse_packet type)
unfolding raw_parse_packet
raw_parse_packet-KeepsSound type b p s v pos w r =
    elim (Bool-cases (raw_rejects b (packet_payload_len type))) [
      | inl e ↦ rw e (rejected-IsSound b p p s v w refl r)
      | inr e ↦ rw e (raw_accept-IsSound type b p s v w r e)
    ]

-- For a valid buffer that holds something, a well-formed packet and a state that is fit for
-- scaling: `raw_parse` returns, after success with one byte at least consumed and after a failure
-- with nothing, and the buffer, the packet and the state that it leaves are as they were required
-- to be.
pub raw_parse-IsSound :
    (b : Buf) (p : Packet) (s : ParserState)
    → IsValid b
    → 0 < b.length
    → IsWellFormed p
    → IsReady s
    → IsSound b p (raw_parse b p s)
unfolding raw_parse
raw_parse-IsSound b p s v pos w r =
    or_else-IsSound (raw_parse_packet type_mode_s_long) pos
      (or_else-IsSound (raw_parse_packet type_mode_s_short) pos
        (raw_parse_packet-KeepsSound type_mode_ac b p s v pos w r)
        (raw_parse_packet-KeepsSound type_mode_s_short))
      (raw_parse_packet-KeepsSound type_mode_s_long)
