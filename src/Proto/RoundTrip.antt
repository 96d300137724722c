-- ===== src/Proto/RoundTrip.antt =====
-- adsbus/proto.c: what `proto_serialize` writes, `proto_parse` reads.
use native.Mathlib.Nat.{mod-eq_of_lt}
use adsb_tools.Prelude.{
  ℕ, zero, suc, ◌+◌, ◌≤◌, ◌<◌, ◌≡◌, refl, ap, ◌∙◌, sym, true, false, not, some, List, [], ◌∷◌, ◌++◌,
  length, take, drop, store, get_or, ok, arith, Bool-cases, inl, inr, ltb, ge→ltb, ==→eq, ◌==◌,
  ◌!=◌, append_assoc, length-append, length-take, take-append, drop-append, drop_at,
  get_or-append_left,
}
use adsb_tools.Buf.{Buf, buf_zero, buf_at, buf_chr, buf_len_max, consumed}
use adsb_tools.Buf.Window.{
  IsValid, contents, length_of_front, buf_chr-front, buf_at_start, consume_front,
}
use adsb_tools.Packet.{
  Packet, PacketType, MlatState, type_none, type_mode_ac, type_mode_s_short, type_mode_s_long,
  is_message, packet_payload_len, packet_validate_id, packet_mlat_max, packet_mlat_mhz,
  packet_rssi_max, packet_payload_len_max, u64, packet_mlat_timestamp_scale_in,
  packet_mlat_timestamp_scale_width_in, packet_mlat_timestamp_scale_mhz_in, packet_rssi_scale_in,
}
use adsb_tools.Parser.{ParserState, parsed, filled}
use adsb_tools.Proto.Message.{AdsbPacket, Adsb, ProtobufC, adsb_packet_init}
use adsb_tools.Proto.{
  proto_serialize, proto_parse_varint, proto_unwrap, proto_mlat, proto_rssi, proto_serialize_packet,
  proto_parse_packet, proto_typed, proto_parse_message, proto_parse,
}
use adsb_tools.Proto.Wire.{varint, varint_loop-varint}
use adsb_tools.Proto.Writing.{
  proto_serialize-ok, written, written-contents, message_of, stream_of, IsPackable,
}

-- The message of a packet, member by member.
wire : Packet → ℕ → AdsbPacket
wire packet len = record {
  source_id = packet.source_id;
  hops = packet.hops;
  has_mlat_timestamp = not (packet.mlat_timestamp == 0);
  mlat_timestamp = packet.mlat_timestamp;
  has_rssi = not (packet.rssi == 0);
  rssi = packet.rssi;
  payload = take len packet.payload;
}

serialize_packet-wire :
    (packet : Packet) (len : ℕ)
    → proto_serialize_packet packet adsb_packet_init len ≡ wire packet len
unfolding wire proto_serialize_packet
serialize_packet-wire packet len = elim (Bool-cases (packet.mlat_timestamp == 0)) [
  | inl e ↦ elim (Bool-cases (packet.rssi == 0)) [
    | inl e' ↦ simp (proto_serialize_packet, ==→eq _ 0 e, ==→eq _ 0 e')
    | inr e' ↦ simp (proto_serialize_packet, e', ==→eq _ 0 e)
  ]
  | inr e ↦ elim (Bool-cases (packet.rssi == 0)) [
    | inl e' ↦ simp (proto_serialize_packet, e, ==→eq _ 0 e')
    | inr e' ↦ simp (proto_serialize_packet, e, e')
  ]
]

-- A state after the header that this program sends, whose last time stamp is not later.
pub record IsOwnScale (s : ParserState) (t : ℕ) : Type 0 where
  pub headed : s.have_header ≡ true
  pub mhz : s.mlat_timestamp_mhz ≡ packet_mlat_mhz
  pub top : s.mlat_timestamp_max ≡ packet_mlat_max
  pub loudest : s.rssi_max ≡ packet_rssi_max
  pub in_order : s.mlat_state.timestamp_last ≤ t
  pub first : s.mlat_state.timestamp_generation ≡ 0

-- Between two programs with the same units nothing is scaled.
scale_in-same :
    (t : ℕ) (s : MlatState)
    → t < packet_mlat_max
    → s.timestamp_last ≤ t
    → s.timestamp_generation ≡ 0
    → packet_mlat_timestamp_scale_in t packet_mlat_max packet_mlat_mhz s
      ≡ ok (t, record { timestamp_last = t; timestamp_generation = 0 })
unfolding packet_mlat_timestamp_scale_in packet_mlat_timestamp_scale_width_in
    packet_mlat_timestamp_scale_mhz_in
scale_in-same t s small order first =
    let same : MlatState = record { timestamp_last = t; timestamp_generation = 0 } in
    simp (ge→ltb t s.timestamp_last order, first) (ap (λ (m : ℕ). ok (m, same)) (omega arith))

rssi_in-same : (v : ℕ) → v ≤ packet_rssi_max → packet_rssi_scale_in v packet_rssi_max ≡ ok v
unfolding packet_rssi_scale_in
rssi_in-same v small = ap ok (omega arith)

-- What a packet that was read agrees on with the one that was written.
abbrev pub read_back : Packet → Packet → ℕ → Packet
read_back packet p len = record p {
  source_id = packet.source_id;
  hops = packet.hops;
  payload = store p.payload 0 (take len packet.payload);
  mlat_timestamp = packet.mlat_timestamp;
  rssi = packet.rssi;
}

-- The parts of the parser on the message of a packet.
module _ (packet p : Packet) (s : ParserState) (len : ℕ) (own : IsOwnScale s packet.mlat_timestamp)
    (timed : packet.mlat_timestamp < packet_mlat_max) (strength : packet.rssi ≤ packet_rssi_max)
    (unset : p.mlat_timestamp ≡ 0) (silent : p.rssi ≡ 0) where
  mlat_back :
      (t : ParserState) × (proto_mlat (wire packet len) p s
        ≡ ok (record p { mlat_timestamp = packet.mlat_timestamp }, t))
      × (t.rssi_max ≡ packet_rssi_max)
  unfolding proto_mlat wire
  mlat_back = elim (Bool-cases (packet.mlat_timestamp == 0)) [
    | inl e ↦ (s, simp (proto_mlat, ==→eq _ 0 e, ← unset), own.loudest)
    | inr e ↦
        let scaled =
          scale_in-same packet.mlat_timestamp s.mlat_state timed own.in_order own.first in
        (
          record s {
            mlat_state = record {
              timestamp_last = packet.mlat_timestamp;
              timestamp_generation = 0;
            };
          },
          simp (proto_mlat, e, own.top, own.mhz, scaled),
          own.loudest,
        )
  ]

  rssi_back :
      (q : Packet) (t : ParserState)
      → q.rssi ≡ 0
      → t.rssi_max ≡ packet_rssi_max
      → proto_rssi (wire packet len) q t ≡ ok (record q { rssi = packet.rssi })
  unfolding proto_rssi wire
  rssi_back q t quiet top = elim (Bool-cases (packet.rssi == 0)) [
    | inl e ↦ simp (proto_rssi, ==→eq _ 0 e, ← quiet)
    | inr e ↦ simp (proto_rssi, e, top, rssi_in-same packet.rssi strength)
  ]

same-ne : (n : ℕ) → (n != n) ≡ false
same-ne n = ground arith

take_twice : (n : ℕ) (xs : List ℕ) → take n (take n xs) ≡ take n xs
take_twice zero xs = refl
take_twice (suc n) [] = refl
take_twice (suc n) (x ∷ xs) = ap (λ (t : List ℕ). x ∷ t) (take_twice n xs)

-- A packet that can be sent.
pub record IsWritable (packet : Packet) : Type 0 where
  pub message : is_message packet.type ≡ true
  pub identified : packet_validate_id packet.source_id ≡ true
  pub sized : length packet.payload ≡ packet_payload_len_max
  pub timed : packet.mlat_timestamp < packet_mlat_max
  pub strength : packet.rssi ≤ packet_rssi_max
  pub counted : packet.hops < 65536

-- The packet that `receive_read` hands to a parser, as far as it matters.
pub record IsBlank (p : Packet) : Type 0 where
  pub unset : p.mlat_timestamp ≡ 0
  pub silent : p.rssi ≡ 0

module _ (packet p : Packet) (s : ParserState) (own : IsOwnScale s packet.mlat_timestamp)
    (writable : IsWritable packet) (blank : IsBlank p) where
  packet_back :
      (len : ℕ)
      → len ≤ packet_payload_len_max
      → (t : ParserState) × (proto_parse_packet (wire packet len) p s len
          ≡ ok (filled true (read_back packet p len) t))
  unfolding proto_parse_packet wire
  packet_back len fits =
      let named : Packet = record p {
        source_id = packet.source_id;
        hops = packet.hops;
        payload = store p.payload 0 (take len packet.payload);
      } in
      let (t, timed, top) =
        mlat_back packet named s len own writable.timed writable.strength blank.unset
          blank.silent in
      let heard =
        rssi_back packet named s len own writable.timed writable.strength blank.unset blank.silent
          (record named { mlat_timestamp = packet.mlat_timestamp }) t blank.silent top in
      let exact : length (take len packet.payload) ≡ len =
        omega (arith, length-take len packet.payload, writable.sized) in
      (
        t,
        simp (
          proto_parse_packet,
          own.headed,
          exact,
          same-ne len,
          writable.identified,
          mod-eq_of_lt writable.counted,
          take_twice len packet.payload,
          timed,
          heard,
        ),
      )

  message_back :
      (lib : ProtobufC) (server_id : List ℕ) (type : PacketType)
      → is_message type ≡ true
      → (t : ParserState) × (proto_parse_message lib server_id (message_of type packet) p s
          ≡ ok (
              filled true
                (record (read_back packet p (packet_payload_len type)) { type = type })
                t))
  unfolding proto_parse_message proto_typed message_of packet_payload_len
  message_back lib server_id type_none m = cc
  message_back lib server_id type_mode_ac m =
      let (t, back) = packet_back 2 (omega arith) in
      (t, simp (proto_parse_message, serialize_packet-wire packet 2, proto_typed, back))
  message_back lib server_id type_mode_s_short m =
      let (t, back) = packet_back 7 (omega arith) in
      (t, simp (proto_parse_message, serialize_packet-wire packet 7, proto_typed, back))
  message_back lib server_id type_mode_s_long m =
      let (t, back) = packet_back 14 (omega arith) in
      (t, simp (proto_parse_message, serialize_packet-wire packet 14, proto_typed, back))

after_one : (j : ℕ) → 1 + j ≡ suc j
after_one j = omega arith

-- A message in a stream: the number of the member and the kind of its value, the length, the bytes.
abbrev pub framed : List ℕ → List ℕ
framed body = 10 ∷ (varint 4 (length body) ++ body)

module _ (lib : ProtobufC) (buf : Buf) (body rest : List ℕ) (msg : Adsb) (v : IsValid buf)
    (holds : contents buf ≡ framed body ++ rest) (short : length body < 16384)
    (read : lib.unpack body ≡ some msg) where
  length_back : proto_parse_varint buf 1 ≡ (some (length body), 1 + length (varint 4 (length body)))
  unfolding proto_parse_varint
  length_back =
      let text = varint 4 (length body) in
      let all = length_of_front buf (framed body) rest v holds in
      let few = length-append text body in
      varint_loop-varint 3 buf.length buf 1 0 0 (length body) refl (omega arith) (omega arith)
        (omega (arith, all, few)) (omega (arith, all, few))
        (λ j lt.
          buf_chr-front buf (framed body) rest v holds (1 + j) (omega (arith, few))
          ∙ ap (λ (m : ℕ). get_or (framed body) m 0) (after_one j)
          ∙ get_or-append_left text body j 0 lt)
      ∙ ap (λ (n : ℕ). (some n, 1 + length text)) (omega arith)

  body_back : take (length body) (buf_at buf (1 + length (varint 4 (length body)))) ≡ body
  body_back =
      let text = varint 4 (length body) in
      let more = rest ++ drop buf.length (drop buf.start buf.bytes) in
      let behind : drop (1 + length text) (framed body ++ more) ≡ body ++ more =
        ap (λ (n : ℕ). drop n (framed body ++ more)) (after_one (length text))
        ∙ ap (drop (length text)) (append_assoc text body more)
        ∙ drop-append text (body ++ more) in
      ap (take (length body)) (
        drop_at buf.start buf.bytes (buf.start + (1 + length text)) (1 + length text)
          (buf_at_start buf (framed body) rest v holds) refl
        ∙ behind)
      ∙ take-append body more

  unwrap_back : proto_unwrap lib buf ≡ some (msg, length (framed body))
  unfolding proto_unwrap
  unwrap_back =
      let text = varint 4 (length body) in
      let all = length_of_front buf (framed body) rest v holds in
      let few = length-append text body in
      let some_bytes : ltb buf.length 1 ≡ false = ge→ltb buf.length 1 (omega (arith, all)) in
      let tag : buf_chr buf 0 ≡ 10 = buf_chr-front buf (framed body) rest v holds 0 (omega arith) in
      let narrow : u64 (1 + length text + length body) ≡ 1 + length text + length body =
        mod-eq_of_lt (omega (arith, all, few, v.inside)) in
      let inside : ltb buf.length (1 + length text + length body) ≡ false =
        ge→ltb buf.length (1 + length text + length body) (omega (arith, all, few)) in
      simp (proto_unwrap, some_bytes, tag, length_back, narrow, inside, body_back, read)
        (ap (λ (n : ℕ). some (msg, n)) (omega (arith, few)))

ok-injective : {A : Type 0} {a b : A} → ok a ≡ ok b → a ≡ b
ok-injective h = cc

-- What `proto_serialize` writes of a packet with an identifier, 14 bytes of payload, a time stamp
-- below the greatest, and at most 65535 hops, `proto_parse` reads back, from a valid buffer that
-- starts with it, into a packet without time stamp and signal strength: the identifier, the hops,
-- the payload, the time stamp, the signal strength and the type are those that were written, and
-- what follows the message is left in the buffer. The conditions on the library: it packs the message
-- within a buffer, in the frame that the format prescribes, and unpacks what it packed. Those on the
-- reader's state: the units are the program's own, no later time stamp was seen and none has
-- wrapped around.
pub proto_parse-proto_serialize :
    (lib : ProtobufC) (server_id : List ℕ) (packet p : Packet) (s : ParserState) (out buf : Buf)
    (body rest : List ℕ)
    → IsPackable lib packet
    → lib.pack (stream_of packet) ≡ framed body
    → lib.unpack body ≡ some (message_of packet.type packet)
    → IsWritable packet
    → proto_serialize lib packet buf_zero ≡ ok out
    → IsValid buf
    → contents buf ≡ contents out ++ rest
    → IsOwnScale s packet.mlat_timestamp
    → IsBlank p
    → (buf' : Buf) × (t : ParserState) × (proto_parse lib server_id buf p s
        ≡ ok (
            parsed true buf'
              (record (read_back packet p (packet_payload_len packet.type)) { type = packet.type })
              t))
      × IsValid buf'
      × (contents buf' ≡ rest)
unfolding proto_parse
proto_parse-proto_serialize lib server_id packet p s out buf body rest packable frames unpacks
      writable wrote v follows own blank =
    let same : written lib packet ≡ out =
      ok-injective (sym (proto_serialize-ok lib packet packable writable.message) ∙ wrote) in
    let text : contents out ≡ framed body =
      sym (ap contents same) ∙ written-contents lib packet packable ∙ frames in
    let holds : contents buf ≡ framed body ++ rest =
      follows ∙ ap (λ (t : List ℕ). t ++ rest) text in
    let size : length (framed body) ≤ buf_len_max =
      omega (arith, packable.fits, packable.sized, ap length frames) in
    let short : length body < 16384 =
      omega (arith, size, length-append (varint 4 (length body)) body) in
    let found =
      unwrap_back lib buf body rest (message_of packet.type packet) v holds short unpacks in
    let (t, back) =
      message_back packet p s own writable blank lib server_id packet.type writable.message in
    let left = consume_front buf (framed body) rest v holds in
    (
      consumed buf (length (framed body)),
      t,
      simp (proto_parse, found, back, left.0),
      left.1,
      left.2,
    )
