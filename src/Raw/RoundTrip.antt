-- ===== src/Raw/RoundTrip.antt =====
-- `raw_parse` on what `raw_serialize` writes.
use adsb_tools.Prelude.{
  ℕ, ◌+◌, ◌*◌, ◌≤◌, ◌<◌, ◌≡◌, refl, sym, ap, ◌∙◌, ◌≢◌, true, false, List, [], ◌∷◌, ◌++◌,
  append_assoc, length, get_or, take, drop, store, All, ok, arith, get_or-append, drop_at,
}
use adsb_tools.Buf.{Buf, buf_len_max, buf_at, buf_chr, consumed}
use adsb_tools.Buf.Window.{
  IsValid, contents, length_of_front, buf_chr-front, buf_at_start, consume_front,
}
use adsb_tools.Packet.{
  Packet, PacketType, type_none, type_mode_ac, type_mode_s_short, type_mode_s_long,
  packet_payload_len, packet_payload_len_max, is_message,
}
use adsb_tools.Hex.{hex_value, hex_to_bin, hex_from_bin_upper}
use adsb_tools.Hex.RoundTrip.{
  IsByte, length-hex_from_bin_upper, hex_to_bin-hex_from_bin_upper, hex_from_bin_upper-IsHex,
}
use adsb_tools.Parser.{ParserState, parsed}
use adsb_tools.Raw.{
  overlay_start, total_len, raw_rejects, raw_taken, raw_accept, raw_parse_packet, raw_parse,
  raw_serialize,
}
use adsb_tools.Raw.Wire.{raw_serialize-contents, raw_text, length-raw_text, payload_len-le-max}

digit_no_line_end : (c : ℕ) → hex_value c ≢ 255 → (c ≢ b'\n') × (c ≢ b'\r')
unfolding hex_value
digit_no_line_end c h = ((λ e. h (rw e)), (λ e. h (rw e)))

module _ (packet : Packet) (buf : Buf) (rest : List ℕ)
    (sized : length packet.payload ≡ packet_payload_len_max) (bytes : All IsByte packet.payload)
    (v : IsValid buf) (holds : contents buf ≡ raw_text packet ++ rest) where
  abbrev digits : List ℕ
  digits = hex_from_bin_upper packet.payload (packet_payload_len packet.type)

  length-digits : length digits ≡ 2 * packet_payload_len packet.type
  length-digits =
      length-hex_from_bin_upper (packet_payload_len packet.type) packet.payload
        (omega (arith, payload_len-le-max packet.type))

  -- The byte at an index of the message.
  byte_at :
      (i : ℕ)
      → i < 3 + 2 * packet_payload_len packet.type
      → buf_chr buf i ≡ get_or (raw_text packet) i 0
  byte_at i h =
      buf_chr-front buf (raw_text packet) rest v holds i
        (omega (arith, length-raw_text packet sized))

  digit_at :
      (i : ℕ) → i < 2 * packet_payload_len packet.type → buf_chr buf (1 + i) ≡ get_or digits i 0
  digit_at i h =
      byte_at (1 + i) (omega arith)
      ∙ ground (arith, length-digits, get_or-append (b'*' ∷ digits) (b';' ∷ b'\n' ∷ []) (1 + i) 0)

  -- Where a shorter payload would end there is a digit, and no line end.
  no_line_end :
      (i : ℕ)
      → i < 2 * packet_payload_len packet.type
      → (buf_chr buf (1 + i) ≢ b'\n') × (buf_chr buf (1 + i) ≢ b'\r')
  no_line_end i h = rw (digit_at i h) (
      digit_no_line_end (get_or digits i 0) (
        hex_from_bin_upper-IsHex (packet_payload_len packet.type) packet.payload
          (omega (arith, payload_len-le-max packet.type)) bytes i h))

  -- The test rejects a shorter type.
  rejects_shorter : (m : ℕ) → m < packet_payload_len packet.type → raw_rejects buf m ≡ true
  unfolding raw_rejects
  rejects_shorter m h =
      let e : 1 + m * 2 + 1 ≡ 1 + (m * 2 + 1) = omega arith in
      rw e (ground (arith, no_line_end (m * 2 + 1)))

  -- The bytes behind the digits.
  tail_at :
      (buf_chr buf (overlay_start (packet_payload_len packet.type)) ≡ b';')
      × (buf_chr buf (overlay_start (packet_payload_len packet.type) + 1) ≡ b'\n')
      × (buf_chr buf 0 ≡ b'*')
  tail_at =
      let n = packet_payload_len packet.type in
      let back : List ℕ = b';' ∷ b'\n' ∷ [] in
      (
        byte_at (overlay_start n) (omega arith)
            ∙ ground (arith, length-digits, get_or-append (b'*' ∷ digits) back (overlay_start n) 0),
        byte_at (overlay_start n + 1) (omega arith)
            ∙ ground
                (arith, length-digits, get_or-append (b'*' ∷ digits) back (overlay_start n + 1) 0),
        byte_at 0 (omega arith),
      )

  not_rejected : raw_rejects buf (packet_payload_len packet.type) ≡ false
  unfolding raw_rejects
  not_rejected = ground (
    arith,
    tail_at,
    length_of_front buf (raw_text packet) rest v holds,
    length-raw_text packet sized,
  )

  taken : raw_taken buf (packet_payload_len packet.type) ≡ length (raw_text packet)
  taken = ground (arith, tail_at, length-raw_text packet sized)

  behind_star :
      buf_at buf 1
      ≡ digits ++ ((b';' ∷ b'\n' ∷ []) ++ (rest ++ drop buf.length (drop buf.start buf.bytes)))
  behind_star =
      drop_at buf.start buf.bytes (buf.start + 1) 1
        (buf_at_start buf (raw_text packet) rest v holds) refl
      ∙ append_assoc digits (b';' ∷ b'\n' ∷ []) (rest ++ drop buf.length (drop buf.start buf.bytes))

  decodes :
      (p : Packet)
      → hex_to_bin p.payload (buf_at buf 1) (packet_payload_len packet.type)
        ≡ (true, store p.payload 0 (take (packet_payload_len packet.type) packet.payload))
  decodes p =
      let n = packet_payload_len packet.type in
      rw behind_star (
        hex_to_bin-hex_from_bin_upper n packet.payload p.payload _
          (omega (arith, payload_len-le-max packet.type)) bytes)

  -- What a parse of the message makes of the packet that it is handed.
  abbrev pub raw_received : Packet → Packet
  raw_received p = record p {
    type = packet.type;
    payload = store p.payload 0 (take (packet_payload_len packet.type) packet.payload);
  }

  accepts_own :
      (p : Packet) (state : ParserState)
      → raw_parse_packet packet.type buf p state
        ≡ ok (parsed true (consumed buf (length (raw_text packet))) (raw_received p) state)
  unfolding raw_parse_packet
  accepts_own p state = rw (
    not_rejected,
    raw_accept,
    decodes p,
    taken,
    (consume_front buf (raw_text packet) rest v holds).0,
    decodes p,
  )

  passes_over :
      (type : PacketType) (p : Packet) (state : ParserState)
      → packet_payload_len type < packet_payload_len packet.type
      → raw_parse_packet type buf p state ≡ ok (parsed false buf p state)
  unfolding raw_parse_packet
  passes_over type p state h = rw (rejects_shorter (packet_payload_len type) h)

  own_as :
      (type : PacketType) (p : Packet) (state : ParserState)
      → packet.type ≡ type
      → raw_parse_packet type buf p state
        ≡ ok (parsed true (consumed buf (length (raw_text packet))) (raw_received p) state)
  own_as type p state e =
      ap (λ (t : PacketType). raw_parse_packet t buf p state) (sym e) ∙ accepts_own p state

  -- The chain of `raw_parse` comes to the type of the message.
  chain :
      (type : PacketType) (p : Packet) (state : ParserState)
      → packet.type ≡ type
      → is_message type ≡ true
      → raw_parse buf p state
        ≡ ok (parsed true (consumed buf (length (raw_text packet))) (raw_received p) state)
  unfolding raw_parse
  chain type_none p state e m = cc
  chain type_mode_ac p state e m = rw (own_as type_mode_ac p state e)
  chain type_mode_s_short p state e m = rw (
    passes_over type_mode_ac p state (rw e (unfold packet_payload_len in omega arith)),
    own_as type_mode_s_short p state e,
  )
  chain type_mode_s_long p state e m = rw (
    passes_over type_mode_ac p state (rw e (unfold packet_payload_len in omega arith)),
    passes_over type_mode_s_short p state (rw e (unfold packet_payload_len in omega arith)),
    own_as type_mode_s_long p state e,
  )

-- For a message whose payload array has its 14 bytes, a valid output buffer with room behind its
-- start for the longest message, and a valid input buffer that starts with what `raw_serialize`
-- wrote there: `raw_parse` finds the type and the payload, changes nothing else of the packet and
-- nothing of the state, and leaves exactly what follows the text.
pub raw_parse-raw_serialize :
    (packet : Packet) (out buf : Buf) (rest : List ℕ) (p : Packet) (state : ParserState)
    → is_message packet.type ≡ true
    → length packet.payload ≡ packet_payload_len_max
    → All IsByte packet.payload
    → IsValid out
    → out.start + total_len packet_payload_len_max ≤ buf_len_max
    → IsValid buf
    → contents buf ≡ contents (raw_serialize packet out) ++ rest
    → (buf' : Buf) × (raw_parse buf p state
        ≡ ok (
            parsed true buf'
              (record p {
                type = packet.type;
                payload = store p.payload 0 (take (packet_payload_len packet.type) packet.payload);
              })
              state))
      × IsValid buf'
      × (contents buf' ≡ rest)
raw_parse-raw_serialize packet out buf rest p state m sized bytes vo room v e =
    let holds : contents buf ≡ raw_text packet ++ rest =
      e ∙ ap (λ (l : List ℕ). l ++ rest) (raw_serialize-contents packet out vo room sized).1 in
    let left = consume_front buf (raw_text packet) rest v holds in
    (
      consumed buf (length (raw_text packet)),
      chain packet buf rest sized bytes v holds packet.type p state refl m,
      left.1,
      left.2,
    )
