-- ===== src/Proto/Promise.antt =====
-- `proto_parse` keeps the promise of a parser.
use adsb_tools.Prelude.{
  ℕ, ◌%◌, ◌≤◌, ◌<◌, ◌≡◌, refl, ◌∙◌, Bool, true, false, some, List, length, take, store,
  length-store, Run, ok, arith, Bool-cases, Option-cases, inl, inr, ◌==◌, ◌!=◌, ◌||◌, or_false, ltb,
}
use adsb_tools.Buf.{Buf, buf_at, consumed}
use adsb_tools.Buf.Window.{IsValid, buf_consume-contents}
use adsb_tools.Packet.{
  Packet, PacketType, packet_validate_id, packet_rssi_max, type_none, type_mode_ac,
  type_mode_s_short, type_mode_s_long,
}
use adsb_tools.Packet.Scale.{scale_in-lt-max}
use adsb_tools.Parser.{ParserState, parsed, Filled, filled}
use adsb_tools.Parser.Laws.{IsWellFormed, IsReady, IsServed}
use adsb_tools.Parser.Fill.{IsFilled, refused, accepted, rssi_in_bound, rejected}
use adsb_tools.Proto.Message.{AdsbHeader, AdsbPacket, Adsb, ProtobufC}
use adsb_tools.Proto.{
  proto_magic, proto_parse_varint, proto_mlat, proto_rssi, proto_parse_packet, proto_typed,
  proto_unwrap, proto_parse_header, proto_parse_message, proto_parse,
}
use adsb_tools.Proto.Varint.{proto_parse_varint-IsRead}

-- What the parts of `proto_parse_packet` leave.
record IsTimed (p : Packet) (s : ParserState) (m : Run (Packet × ParserState)) : Type 0 where
  pub result : Packet × ParserState
  pub done : m ≡ ok result
  pub well_formed : IsWellFormed result.0
  pub same_input : result.0.input_stat ≡ p.input_stat
  pub ready : IsReady result.1
  pub headed : result.1.have_header ≡ s.have_header

proto_mlat-IsTimed :
    (input : AdsbPacket) (p : Packet) (s : ParserState)
    → IsWellFormed p
    → IsReady s
    → s.have_header ≡ true
    → IsTimed p s (proto_mlat input p s)
unfolding proto_mlat
proto_mlat-IsTimed input p s w ready h = elim (Bool-cases input.has_mlat_timestamp) [
  | inr e ↦
      rw (proto_mlat, e)
        (record {
          result = (p, s);
          done = refl;
          well_formed = w;
          same_input = refl;
          ready = ready;
          headed = refl;
        })
  | inl e ↦
      let (m, em, lm, _) =
        scale_in-lt-max input.mlat_timestamp s.mlat_timestamp_max s.mlat_timestamp_mhz s.mlat_state
          (ready.mhz_pos h) in
      record {
        result = (record p { mlat_timestamp = m.0 }, record s { mlat_state = m.1 });
        done = simp (proto_mlat, e, em);
        well_formed = record {
          identified = w.identified;
          sized = w.sized;
          timed = omega (arith, lm);
          strength = w.strength;
          counted = w.counted;
        };
        same_input = refl;
        ready = record { mhz_pos = ready.mhz_pos; rssi_pos = ready.rssi_pos };
        headed = refl;
      }
]

proto_rssi-ok :
    (input : AdsbPacket) (p : Packet) (s : ParserState)
    → IsReady s
    → s.have_header ≡ true
    → p.rssi ≤ packet_rssi_max
    → (r : ℕ) × (proto_rssi input p s ≡ ok (record p { rssi = r })) × (r ≤ packet_rssi_max)
unfolding proto_rssi
proto_rssi-ok input p s ready h fits = elim (Bool-cases input.has_rssi) [
  | inr e ↦ (p.rssi, simp (proto_rssi, e), fits)
  | inl e ↦
      let (r, er, lr) = rssi_in_bound input.rssi s.rssi_max (ready.rssi_pos h) in
      (r, simp (proto_rssi, e, er), lr)
]

proto_parse_packet-IsFilled :
    (input : AdsbPacket) (p : Packet) (s : ParserState) (len : ℕ)
    → IsWellFormed p
    → IsReady s
    → IsFilled p s (proto_parse_packet input p s len)
unfolding proto_parse_packet
proto_parse_packet-IsFilled input p s len w ready = elim (Bool-cases s.have_header) [
  | inr headless ↦ simp (proto_parse_packet, headless) (refused p p s refl ready)
  | inl head ↦ elim (Bool-cases (length input.payload != len)) [
    | inl long ↦ simp (proto_parse_packet, head, long) (refused p p s refl ready)
    | inr fits ↦ elim (Bool-cases (packet_validate_id input.source_id)) [
      | inr bad ↦ simp (proto_parse_packet, head, fits, bad) (refused p p s refl ready)
      | inl good ↦
          let named = record p {
            source_id = input.source_id;
            hops = input.hops % 65536;
            payload = store p.payload 0 (take len input.payload);
          } in
          let w' : IsWellFormed named = record {
            identified = good;
            sized = length-store p.payload 0 (take len input.payload) ∙ w.sized;
            timed = w.timed;
            strength = w.strength;
            counted = omega arith;
          } in
          let timed = proto_mlat-IsTimed input named s w' ready head in
          let (r, heard, strength) =
            proto_rssi-ok input timed.result.0 timed.result.1 timed.ready (timed.headed ∙ head)
              timed.well_formed.strength in
          simp (proto_parse_packet, head, fits, good, timed.done, heard)
            (accepted p (record (timed.result.0) { rssi = r }) s timed.result.1
              (record {
                identified = timed.well_formed.identified;
                sized = timed.well_formed.sized;
                timed = timed.well_formed.timed;
                strength = strength;
                counted = timed.well_formed.counted;
              })
              timed.same_input timed.ready (λ x. timed.headed ∙ x))
    ]
  ]
]

proto_typed-IsFilled :
    {p : Packet} {s : ParserState} {m : Run Filled} (type : PacketType)
    → IsFilled p s m
    → IsFilled p s (proto_typed type m)
unfolding proto_typed
proto_typed-IsFilled type h = elim (Bool-cases h.result.found) [
  | inr e ↦ record {
    result = h.result;
    done = simp (proto_typed, h.done, e);
    well_formed = h.well_formed;
    same_input = h.same_input;
    ready = h.ready;
    headed = h.headed;
  }
  | inl e ↦
      let w = h.well_formed e in
      record {
        result = filled true (record h.result.packet { type = type }) h.result.state;
        done = simp (proto_typed, h.done, e);
        well_formed = λ _. record {
          identified = w.identified;
          sized = w.sized;
          timed = w.timed;
          strength = w.strength;
          counted = w.counted;
        };
        same_input = h.same_input;
        ready = h.ready;
        headed = h.headed;
      }
]

module _ (lib : ProtobufC) (server_id : List ℕ) where
  proto_parse_header-IsFilled :
      (header : AdsbHeader) (p : Packet) (s : ParserState)
      → IsWellFormed p
      → IsReady s
      → IsFilled p s (ok (proto_parse_header lib server_id header p s))
  unfolding proto_parse_header
  proto_parse_header-IsFilled header p s w ready =
      elim (Bool-cases (lib.strcmp_equal header.magic proto_magic)) [
        | inr e ↦ simp (proto_parse_header, e) (refused p p s refl ready)
        | inl e ↦
            elim (Bool-cases (
              header.mlat_timestamp_mhz == 0
              || (ltb 0xffff header.mlat_timestamp_mhz
                  || (header.mlat_timestamp_max == 0 || header.rssi_max == 0)))) [
                    | inl bad ↦ simp (proto_parse_header, e, bad) (refused p p s refl ready)
                    | inr good ↦
                        let mhz = or_false (header.mlat_timestamp_mhz == 0) _ good in
                        let top = or_false (ltb 0xffff header.mlat_timestamp_mhz) _ mhz.1 in
                        let rssi =
                          or_false (header.mlat_timestamp_max == 0) (header.rssi_max == 0) top.1 in
                        let fast : 0 < header.mlat_timestamp_mhz % 65536 =
                          ground (arith, mhz.0, top.0) in
                        let loud : 0 < header.rssi_max = ground (arith, rssi.1) in
                        elim (Bool-cases (lib.strcmp_equal header.server_id server_id)) [
                          | inl own ↦
                              simp (proto_parse_header, e, good, own)
                                (refused' (s.have_header) fast loud)
                          | inr other ↦
                              simp (proto_parse_header, e, good, other)
                                (accepted p p s _ w refl (at_header true fast loud) (λ x. refl))
                        ]
                  ]
      ]
    where
      at_header :
          (known : Bool)
          → 0 < header.mlat_timestamp_mhz % 65536
          → 0 < header.rssi_max
          → IsReady (record s {
            mlat_timestamp_mhz = header.mlat_timestamp_mhz % 65536;
            mlat_timestamp_max = header.mlat_timestamp_max;
            rssi_max = header.rssi_max;
            have_header = known;
          })
      at_header known fast loud = record { mhz_pos = λ _. fast; rssi_pos = λ _. loud }

      refused' :
          (known : Bool)
          → 0 < header.mlat_timestamp_mhz % 65536
          → 0 < header.rssi_max
          → IsFilled p s (
              ok (
                filled false p (record s {
                  mlat_timestamp_mhz = header.mlat_timestamp_mhz % 65536;
                  mlat_timestamp_max = header.mlat_timestamp_max;
                  rssi_max = header.rssi_max;
                })))
      refused' known fast loud = record {
        result = _;
        done = refl;
        well_formed = λ x. cc;
        same_input = refl;
        ready = record { mhz_pos = λ _. fast; rssi_pos = λ _. loud };
        headed = λ x. x;
      }

  proto_parse_message-IsFilled :
      (msg : Adsb) (p : Packet) (s : ParserState)
      → IsWellFormed p
      → IsReady s
      → IsFilled p s (proto_parse_message lib server_id msg p s)
  unfolding proto_parse_message
  proto_parse_message-IsFilled msg p s w ready = elim (Option-cases msg.header) [
    | inr (h, e) ↦
        simp (proto_parse_message, e)
          (proto_typed-IsFilled type_none (proto_parse_header-IsFilled h p s w ready))
    | inl e ↦ elim (Option-cases msg.mode_ac) [
      | inr (input, ea) ↦
          simp (proto_parse_message, e, ea)
            (proto_typed-IsFilled type_mode_ac (proto_parse_packet-IsFilled input p s 2 w ready))
      | inl ea ↦ elim (Option-cases msg.mode_s_short) [
        | inr (input, es) ↦
            simp (proto_parse_message, e, ea, es)
              (proto_typed-IsFilled type_mode_s_short
                (proto_parse_packet-IsFilled input p s 7 w ready))
        | inl es ↦ elim (Option-cases msg.mode_s_long) [
          | inr (input, el) ↦
              simp (proto_parse_message, e, ea, es, el)
                (proto_typed-IsFilled type_mode_s_long
                  (proto_parse_packet-IsFilled input p s 14 w ready))
          | inl el ↦ simp (proto_parse_message, e, ea, es, el) (refused p p s refl ready)
        ]
      ]
    ]
  ]

  -- Where the message that `proto_unwrap` found ends.
  proto_unwrap-end :
      (b : Buf) (msg : Adsb) (n : ℕ)
      → IsValid b
      → 0 < b.length
      → proto_unwrap lib b ≡ some (msg, n)
      → (0 < n) × (n ≤ b.length)
  unfolding proto_unwrap
  proto_unwrap-end b msg n v holds h =
      let read = proto_parse_varint b 1 in
      let at = proto_parse_varint-IsRead b 1 holds in
      elim (Option-cases read.0) [
        | inl e ↦ ground (arith, h, e)
        | inr (len, e) ↦ elim (Option-cases (lib.unpack (take len (buf_at b read.1)))) [
          | inl eu ↦ ground (arith, h, e, eu)
          | inr (m, eu) ↦
              let fits = at.signed len e in
              ground (arith, h, e, eu, fits, at.forth, at.inside, v.inside, holds)
        ]
      ]

  -- For a valid buffer that holds something, a well-formed packet and a state that is fit for
  -- scaling, whatever message the generated code unpacks from whatever bytes: `proto_parse` fails
  -- no `assert`; after success a byte at least is consumed and the packet is well formed; after a
  -- failure nothing is consumed; the buffer stays valid, and the state fit for scaling.
  pub proto_parse-IsServed :
      (b : Buf) (p : Packet) (s : ParserState)
      → IsValid b
      → 0 < b.length
      → IsWellFormed p
      → IsReady s
      → IsServed b p (proto_parse lib server_id b p s)
  unfolding proto_parse
  proto_parse-IsServed b p s v holds w ready = elim (Option-cases (proto_unwrap lib b)) [
    | inl e ↦ simp (proto_parse, e) (rejected b p p s v refl ready)
    | inr ((msg, n), e) ↦
        let h = proto_parse_message-IsFilled msg p s w ready in
        elim (Bool-cases h.result.found) [
          | inr missed ↦
              simp (proto_parse, e, h.done, missed)
                (rejected b p h.result.packet h.result.state v h.same_input h.ready)
          | inl found ↦
              let (some_read, fits) = proto_unwrap-end b msg n v holds e in
              let eaten = buf_consume-contents b n v fits in
              record {
                result = parsed true (consumed b n) h.result.packet h.result.state;
                done = simp (proto_parse, e, h.done, found, eaten.0);
                valid = eaten.1;
                shorter = λ _. omega (arith, eaten.3);
                kept = λ x. cc;
                well_formed = λ _. h.well_formed found;
                same_input = λ _. h.same_input;
                ready = h.ready;
              }
        ]
  ]
