-- ===== src/Beast/RoundTrip.antt =====
-- `beast_parse` on what `beast_serialize` writes.
use adsb_tools.Prelude.{
  ℕ, ◌+◌, ◌*◌, ◌/◌, ◌%◌, ◌^◌, ◌≤◌, ◌<◌, ◌≡◌, ◌≢◌, refl, sym, ap, ◌∙◌, true, List, [], ◌∷◌, ◌++◌,
  append_assoc, length, get_or, take, drop, store, replicate, ok, size, arith, length-append,
  length-replicate, take-append, store_front, ge→ltb, ne→==,
}
use adsb_tools.Buf.{Buf, buf_at, buf_chr, buf_store, buf_zero, consumed, buf_len_max}
use adsb_tools.Buf.Window.{IsValid, contents, length_of_front, buf_chr-front, consume_front}
use adsb_tools.Packet.{
  Packet, MlatState, PacketType, type_none, type_mode_ac, type_mode_s_short, type_mode_s_long,
  packet_payload_len, packet_payload_len_max, is_message, packet_mlat_timestamp_scale_in,
  packet_mlat_timestamp_scale_out, packet_rssi_scale_in, packet_rssi_scale_out,
  packet_mlat_timestamp_scale_width_in, u32,
}
use adsb_tools.Raw.Wire.{payload_len-le-max}
use adsb_tools.Parser.{ParserState, parsed}
use adsb_tools.Beast.{
  overlay_len, beast_mlat_max, beast_mlat_mhz, beast_parse_mlat, beast_write_mlat, beast_unescape,
  beast_accept, beast_parse_packet, beast_parse, beast_rssi, beast_serialize, beast_serialize_by,
  beast_serialize_packet,
}
use adsb_tools.Beast.Mlat.{beast_parse_mlat-beast_write_mlat}
use adsb_tools.Beast.Escape.{
  escaped, appended, appended-contents, length-stuff, beast_unescape-escaped,
}
use adsb_tools.Beast.Frame.{
  frame, sent, length-sent, length-beast_write_mlat, beast_serialize_packet-frame,
}

module _ (kind t r : ℕ) (payload : List ℕ) (short : length payload ≤ 14) where
  length-frame : length (frame kind t r payload) ≡ overlay_len + length payload
  length-frame =
      omega (arith, length-append (beast_write_mlat t) (r ∷ payload), length-beast_write_mlat t)

  -- The buffer that the frame is unescaped into.
  buf2 : Buf
  buf2 = buf_store buf_zero 0 (frame kind t r payload)

  zeros : List ℕ
  zeros = drop (length (frame kind t r payload)) (replicate 256 0)

  bytes-buf2 : store (replicate 256 0) 0 (frame kind t r payload) ≡ frame kind t r payload ++ zeros
  unfolding zeros
  bytes-buf2 =
      store_front (replicate 256 0) (frame kind t r payload)
        (omega (arith, length-frame, length-replicate {A = ℕ} 256 0))

  mlat_of : t < 2 ^ 48 → beast_parse_mlat (buf_at buf2 2) ≡ t
  unfolding buf2 buf_zero
  mlat_of h =
      rw (bytes-buf2, append_assoc (beast_write_mlat t) (r ∷ payload) zeros)
        (beast_parse_mlat-beast_write_mlat t ((r ∷ payload) ++ zeros) ∙ omega arith)

  rssi_of : buf_chr buf2 8 ≡ r
  unfolding buf2 buf_zero
  rssi_of = rw bytes-buf2 (unfold beast_write_mlat in refl)

  payload_of : take (length payload) (buf_at buf2 overlay_len) ≡ payload
  unfolding buf2 buf_zero
  payload_of = rw bytes-buf2 (unfold beast_write_mlat in take-append payload zeros)

-- What a parse makes of the packet that it is handed.
abbrev pub beast_received : PacketType → ℕ → ℕ → List ℕ → Packet → Packet
beast_received type timestamp rssi payload p = record p {
  type = type;
  mlat_timestamp = timestamp;
  rssi = rssi;
  payload = store p.payload 0 payload;
}

rssi_in_byte : (r : ℕ) → r ≤ 255 → packet_rssi_scale_in r 255 ≡ ok (r * 16843009)
unfolding packet_rssi_scale_in
rssi_in_byte r h = ap ok (small r h)
  where
    small : (r : ℕ) → r ≤ 255 → u32 (r * 16843009) ≡ r * 16843009
    small r h = omega arith

module _ (type : PacketType) (kind t r : ℕ) (payload : List ℕ) (buf : Buf) (rest : List ℕ)
    (sized : length payload ≡ packet_payload_len type) (known : kind ≢ 0x1a) (fits : t < 2 ^ 48)
    (byte : r ≤ 255) (v : IsValid buf)
    (holds : contents buf ≡ escaped (frame kind t r payload) ++ rest) where
  abbrev text : List ℕ
  text = escaped (frame kind t r payload)

  short : length payload ≤ 14
  short = omega (arith, sized, payload_len-le-max type)

  unescapes :
      beast_unescape buf_zero buf (overlay_len + packet_payload_len type)
      ≡ (size (length text), buf2 kind t r payload short)
  unfolding buf2
  unescapes =
      ap (beast_unescape buf_zero buf) (omega (arith, sized, length-frame kind t r payload short))
      ∙ beast_unescape-escaped 0x1a ((kind ∷ []) ++ (beast_write_mlat t ++ (r ∷ payload))) rest
          buf_zero buf v holds

  payload_at :
      take (packet_payload_len type) (buf_at (buf2 kind t r payload short) overlay_len) ≡ payload
  payload_at =
      ap (λ (n : ℕ). take n (buf_at (buf2 kind t r payload short) overlay_len)) (sym sized)
      ∙ payload_of kind t r payload short

  accepts :
      (p : Packet) (s : ParserState) (scaled : ℕ) (m : MlatState)
      → packet_mlat_timestamp_scale_in t beast_mlat_max beast_mlat_mhz s.mlat_state ≡ ok (scaled, m)
      → beast_accept type (length text) (buf2 kind t r payload short) buf p s
        ≡ ok (
            parsed true
              (consumed buf (length text))
              (beast_received type scaled (r * 16843009) payload p)
              (record s { mlat_state = m }))
  unfolding beast_accept
  accepts p s scaled m e = rw (
    mlat_of kind t r payload short fits,
    e,
    rssi_of kind t r payload short,
    rssi_in_byte r byte,
    (consume_front buf text rest v holds).0,
    payload_at,
  )

  takes_frame :
      (p : Packet) (s : ParserState) (scaled : ℕ) (m : MlatState)
      → packet_mlat_timestamp_scale_in t beast_mlat_max beast_mlat_mhz s.mlat_state ≡ ok (scaled, m)
      → beast_parse_packet type buf p s
        ≡ ok (
            parsed true
              (consumed buf (length text))
              (beast_received type scaled (r * 16843009) payload p)
              (record s { mlat_state = m }))
  unfolding beast_parse_packet
  takes_frame p s scaled m e =
      rw (beast_parse_packet, unescapes, unescapes) (accepts p s scaled m e)

  head_bytes : (buf_chr buf 0 ≡ 0x1a) × (buf_chr buf 1 ≡ kind) × (overlay_len ≤ buf.length)
  head_bytes =
      let body : List ℕ = beast_write_mlat t ++ (r ∷ payload) in
      let long = length-stuff (kind ∷ body) in
      let whole = length_of_front buf text rest v holds in
      let size_of = length-frame kind t r payload short in
      (
        buf_chr-front buf text rest v holds 0 (omega arith),
        buf_chr-front buf text rest v holds 1 (omega (arith, long, size_of))
            ∙ second (kind ∷ body) refl,
        omega (arith, long, whole, size_of),
      )
    where
      second :
          (l : List ℕ) → l ≡ kind ∷ (beast_write_mlat t ++ (r ∷ payload)) → get_or text 1 0 ≡ kind
      second l e = rw (ne→== kind 0x1a known)

-- The type byte of a message.
abbrev pub kind_of : PacketType → ℕ
kind_of type_none = 0
kind_of type_mode_ac = 0x31
kind_of type_mode_s_short = 0x32
kind_of type_mode_s_long = 0x33

kind_of-ne-escape : (type : PacketType) → kind_of type ≢ 0x1a
kind_of-ne-escape type_none = omega arith
kind_of-ne-escape type_mode_ac = omega arith
kind_of-ne-escape type_mode_s_short = omega arith
kind_of-ne-escape type_mode_s_long = omega arith

dispatches :
    (type : PacketType) (buf : Buf) (p : Packet) (s : ParserState)
    → is_message type ≡ true
    → buf_chr buf 0 ≡ 0x1a
    → buf_chr buf 1 ≡ kind_of type
    → overlay_len ≤ buf.length
    → beast_parse buf p s ≡ beast_parse_packet type buf p s
unfolding beast_parse
dispatches type_none buf p s m h0 h1 len = cc
dispatches type_mode_ac buf p s m h0 h1 len = rw (ge→ltb buf.length overlay_len len, h0, h1)
dispatches type_mode_s_short buf p s m h0 h1 len = rw (ge→ltb buf.length overlay_len len, h0, h1)
dispatches type_mode_s_long buf p s m h0 h1 len = rw (ge→ltb buf.length overlay_len len, h0, h1)

serializes_as :
    (type : PacketType) (packet : Packet) (out : Buf) {out' : Buf}
    → is_message type ≡ true
    → packet.type ≡ type
    → beast_serialize_packet packet out (kind_of type) ≡ ok out'
    → beast_serialize packet out ≡ ok out'
serializes_as type_none packet out m e h = cc
serializes_as type_mode_ac packet out m e h =
    unfold beast_serialize in ap (λ (ty : PacketType). beast_serialize_by ty packet out) e ∙ h
serializes_as type_mode_s_short packet out m e h =
    unfold beast_serialize in ap (λ (ty : PacketType). beast_serialize_by ty packet out) e ∙ h
serializes_as type_mode_s_long packet out m e h =
    unfold beast_serialize in ap (λ (ty : PacketType). beast_serialize_by ty packet out) e ∙ h

-- The bytes of a message with the time stamp `t` in units of 1/12 microsecond and the strength `r`.
abbrev pub beast_text : Packet → ℕ → ℕ → List ℕ
beast_text packet t r = escaped (frame (kind_of packet.type) t r (sent packet))

scaled_out :
    (t : ℕ)
    → t < beast_mlat_max
    → packet_mlat_timestamp_scale_out (t * 10) beast_mlat_max beast_mlat_mhz ≡ ok t
unfolding packet_mlat_timestamp_scale_out
scaled_out t h = ap ok (back t h)
  where
    back : (t : ℕ) → t < beast_mlat_max → t * 10 / 10 % beast_mlat_max ≡ t
    back t h = omega arith

strength_out :
    (packet : Packet) (r : ℕ)
    → packet.rssi ≡ r * 16843009
    → 0 < r
    → r ≤ 255
    → beast_rssi packet ≡ ok r
unfolding beast_rssi packet_rssi_scale_out
strength_out packet r e pos h = ground arith

scaled_in :
    (t : ℕ) (m : MlatState)
    → t < beast_mlat_max
    → m.timestamp_last ≤ t
    → m.timestamp_generation ≡ 0
    → packet_mlat_timestamp_scale_in t beast_mlat_max beast_mlat_mhz m
      ≡ ok (t * 10, record { timestamp_last = t; timestamp_generation = 0 })
unfolding packet_mlat_timestamp_scale_in packet_mlat_timestamp_scale_width_in
scaled_in t m h later gen = ground arith

-- For a message whose payload array has 14 bytes, whose time stamp is a whole number of ticks of
-- 12 MHz below the counter's end, not earlier than the source's last, in a source whose counter
-- has not wrapped, and whose strength is a step from 1 to 255; a valid output buffer with room;
-- and a valid input buffer that starts with the text: serializing succeeds and appends the text;
-- parsing finds type, payload, time stamp and strength as they were, takes the text, and changes
-- nothing else of the packet, and of the state only the counter.
pub beast_parse-beast_serialize :
    (packet : Packet) (out buf : Buf) (rest : List ℕ) (p : Packet) (s : ParserState) (t r : ℕ)
    → is_message packet.type ≡ true
    → length packet.payload ≡ packet_payload_len_max
    → packet.mlat_timestamp ≡ t * 10
    → t < beast_mlat_max
    → packet.rssi ≡ r * 16843009
    → 0 < r
    → r ≤ 255
    → IsValid out
    → out.start + out.length + length (beast_text packet t r) ≤ buf_len_max
    → IsValid buf
    → contents buf ≡ beast_text packet t r ++ rest
    → s.mlat_state.timestamp_last ≤ t
    → s.mlat_state.timestamp_generation ≡ 0
    → (out' : Buf) × (buf' : Buf) × (beast_serialize packet out ≡ ok out')
      × IsValid out'
      × (contents out' ≡ contents out ++ beast_text packet t r)
      × (beast_parse buf p s
          ≡ ok (
              parsed true buf'
                (record p {
                  type = packet.type;
                  mlat_timestamp = packet.mlat_timestamp;
                  rssi = packet.rssi;
                  payload = store p.payload 0 (sent packet);
                })
                (record s {
                  mlat_state = record { timestamp_last = t; timestamp_generation = 0 };
                })))
      × IsValid buf'
      × (contents buf' ≡ rest)
beast_parse-beast_serialize packet out buf rest p s t r m sized time ht strength pos hr vo room v
      holds later gen =
    let text = beast_text packet t r in
    let kind = kind_of packet.type in
    let len = length-sent packet sized in
    let known = kind_of-ne-escape packet.type in
    let t48 : t < 2 ^ 48 = omega arith in
    let head = head_bytes packet.type kind t r (sent packet) buf rest len known t48 hr v holds in
    let frame_in =
      takes_frame packet.type kind t r (sent packet) buf rest len known t48 hr v holds p s (t * 10)
        (record { timestamp_last = t; timestamp_generation = 0 })
        (scaled_in t s.mlat_state ht later gen) in
    let left = consume_front buf text rest v holds in
    let grown = appended-contents out text vo room in
    (
      appended out text,
      consumed buf (length text),
      serializes_as packet.type packet out m refl (
          beast_serialize_packet-frame packet out kind t r sized (rw time (scaled_out t ht))
            (strength_out packet r strength pos hr)),
      grown.0,
      grown.1,
      dispatches packet.type buf p s m head.0 head.1 head.2 ∙ rw (time, strength) frame_in,
      left.1,
      left.2,
    )
