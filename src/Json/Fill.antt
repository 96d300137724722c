-- ===== src/Json/Fill.antt =====
-- adsbus/json.c: what the parsers of one kind of object leave.
use native.Mathlib.Nat.{mod-eq_of_lt}
use adsb_tools.Prelude.{
  ℕ, ◌*◌, ◌<◌, ◌≡◌, refl, ◌∙◌, true, false, not, some, List, arith, Bool-cases, Option-cases, inl,
  inr, ◌!=◌, ◌||◌, or_false, not-false,
}
use adsb_tools.Packet.{
  Packet, PacketType, packet_payload_len, packet_validate_id, type_none, type_mode_ac,
  type_mode_s_short, type_mode_s_long,
}
use adsb_tools.Packet.Scale.{scale_in-lt-max}
use adsb_tools.Hex.{hex_to_bin}
use adsb_tools.Hex.RoundTrip.{length-hex_to_bin}
use adsb_tools.Parser.{ParserState}
use adsb_tools.Parser.Laws.{IsWellFormed, IsReady}
use adsb_tools.Json.Library.{ℤ, pos, negsuc, Jansson}
use adsb_tools.Json.{
  outside, cast, above, hops_rejected, header_rejected, json_parse_header, json_mlat, json_rssi,
  json_parse_common, json_decode, json_parse_payload, json_parse_by, mlat_timestamp_key, rssi_key,
  payload_key, header_text, mode_ac_text, mode_s_short_text, mode_s_long_text,
}
use adsb_tools.Parser.Fill.{IsFilled, refused, accepted, then_next, branch, as_of, rssi_in_bound}

cast_16-lt : (v : ℤ) → cast 0x1_0000 v < 0x1_0000
cast_16-lt (pos n) = omega arith
cast_16-lt (negsuc n) = omega arith

outside-cast : (max w : ℕ) (v : ℤ) → max < w → outside max v ≡ false → 0 < cast w v
outside-cast max w (pos n) h e =
    let small : n < w = ground arith in rw (mod-eq_of_lt small) (ground arith)
outside-cast max w (negsuc n) h e = cc

module _ {J : Type 0} (lib : Jansson J) (server_id : List ℕ) where
  json_rssi-IsFilled :
      (input : J) (p : Packet) (s : ParserState)
      → IsWellFormed p
      → IsReady s
      → s.have_header ≡ true
      → IsFilled p s (json_rssi lib server_id input p s)
  unfolding json_rssi
  json_rssi-IsFilled input p s w ready h = elim (Option-cases (lib.integer_at input rssi_key)) [
    | inl e ↦ rw (json_rssi, e) (accepted p p s s w refl ready (λ x. x))
    | inr (v, e) ↦ elim (Bool-cases (above v s.rssi_max)) [
      | inl high ↦ rw (json_rssi, e, high) (refused p p s refl ready)
      | inr low ↦
          let (r, er, lr) = rssi_in_bound (cast 0x1_0000_0000 v) s.rssi_max (ready.rssi_pos h) in
          rw (json_rssi, e, low, er)
            (accepted p (record p { rssi = r }) s s
              (record {
                identified = w.identified;
                sized = w.sized;
                timed = w.timed;
                strength = lr;
                counted = w.counted;
              })
              refl ready (λ x. x))
    ]
  ]

  json_mlat-IsFilled :
      (input : J) (p : Packet) (s : ParserState)
      → IsWellFormed p
      → IsReady s
      → s.have_header ≡ true
      → IsFilled p s (json_mlat lib server_id input p s)
  unfolding json_mlat
  json_mlat-IsFilled input p s w ready h =
      elim (Option-cases (lib.integer_at input mlat_timestamp_key)) [
        | inl e ↦ rw (json_mlat, e) (accepted p p s s w refl ready (λ x. x))
        | inr (negsuc n, e) ↦ rw (json_mlat, e) (refused p p s refl ready)
        | inr (pos n, e) ↦
            let (m, em, lm, _) =
              scale_in-lt-max n s.mlat_timestamp_max s.mlat_timestamp_mhz s.mlat_state
                (ready.mhz_pos h) in
            rw (json_mlat, e, em)
              (accepted p (record p { mlat_timestamp = m.0 }) s (record s { mlat_state = m.1 })
                (record {
                  identified = w.identified;
                  sized = w.sized;
                  timed = omega (arith, lm);
                  strength = w.strength;
                  counted = w.counted;
                })
                refl (record { mhz_pos = ready.mhz_pos; rssi_pos = ready.rssi_pos }) (λ x. x))
      ]

  json_parse_common-IsFilled :
      (input : J) (p : Packet) (s : ParserState)
      → IsWellFormed p
      → IsReady s
      → IsFilled p s (json_parse_common lib server_id input p s)
  unfolding json_parse_common
  json_parse_common-IsFilled input p s w ready = elim (Bool-cases s.have_header) [
    | inr headless ↦ simp (json_parse_common, headless) (refused p p s refl ready)
    | inl head ↦ elim (Option-cases (lib.unpack_common input)) [
      | inl e ↦ simp (json_parse_common, head, e) (refused p p s refl ready)
      | inr (c, e) ↦
          elim (Bool-cases (not (packet_validate_id (some c.source_id)) || hops_rejected c.hops)) [
            | inl bad ↦
                simp (json_parse_common, head, e, bad)
                  (refused p (record p { source_id = some c.source_id }) s refl ready)
            | inr good ↦
                let named = record p {
                  source_id = some c.source_id;
                  hops = cast 0x1_0000 c.hops;
                } in
                let identified =
                  not-false (packet_validate_id (some c.source_id)) (or_false _ _ good).0 in
                let w' : IsWellFormed named = record {
                  identified = identified;
                  sized = w.sized;
                  timed = w.timed;
                  strength = w.strength;
                  counted = cast_16-lt c.hops;
                } in
                simp (json_parse_common, head, e, good)
                  (as_of {q = named} refl (
                    then_next (json_rssi lib server_id input)
                      (json_mlat-IsFilled input named s w' ready head)
                      (λ q t wq rt headed. json_rssi-IsFilled input q t wq rt (headed head))))
          ]
    ]
  ]

  json_decode-IsFilled :
      (type : PacketType) (input : J) (p : Packet) (s : ParserState)
      → IsWellFormed p
      → IsReady s
      → IsFilled p s (json_decode lib server_id type input p s)
  unfolding json_decode
  json_decode-IsFilled type input p s w ready =
      elim (Option-cases (lib.string_at input payload_key)) [
        | inl e ↦ rw (json_decode, e) (refused p p s refl ready)
        | inr (t, e) ↦ elim (Bool-cases (t.0 != packet_payload_len type * 2)) [
          | inl long ↦ rw (json_decode, e, long) (refused p p s refl ready)
          | inr fits ↦
              let out = hex_to_bin p.payload t.1 (packet_payload_len type) in
              elim (Bool-cases out.0) [
                | inl yes' ↦
                    rw (json_decode, e, fits, yes')
                      (accepted p (record p { payload = out.1; type = type }) s s
                        (record {
                          identified = w.identified;
                          sized =
                              length-hex_to_bin p.payload t.1 (packet_payload_len type) ∙ w.sized;
                          timed = w.timed;
                          strength = w.strength;
                          counted = w.counted;
                        })
                        refl ready (λ x. x))
                | inr no' ↦
                    rw (json_decode, e, fits, no')
                      (refused p (record p { payload = out.1 }) s refl ready)
              ]
        ]
      ]

  json_parse_payload-IsFilled :
      (type : PacketType) (input : J) (p : Packet) (s : ParserState)
      → IsWellFormed p
      → IsReady s
      → IsFilled p s (json_parse_payload lib server_id type input p s)
  unfolding json_parse_payload
  json_parse_payload-IsFilled type input p s w ready =
      then_next (json_decode lib server_id type input)
        (json_parse_common-IsFilled input p s w ready)
        (λ q t wq rt headed. json_decode-IsFilled type input q t wq rt)

  json_parse_header-IsFilled :
      (input : J) (p : Packet) (s : ParserState)
      → IsWellFormed p
      → IsReady s
      → IsFilled p s (json_parse_header lib server_id input p s)
  unfolding json_parse_header
  json_parse_header-IsFilled input p s w ready = elim (Option-cases (lib.unpack_header input)) [
    | inl e ↦ simp (json_parse_header, e) (refused p p s refl ready)
    | inr (h, e) ↦ elim (Bool-cases (header_rejected lib server_id h)) [
      | inl bad ↦ simp (json_parse_header, e, bad) (refused p p s refl ready)
      | inr good ↦
          let mhz = or_false _ _ good in
          let rssi = or_false _ _ mhz.1 in
          simp (json_parse_header, e, good)
            (accepted p (record p { type = type_none }) s
              (record s {
                mlat_timestamp_mhz = cast 0x1_0000 h.mlat_timestamp_mhz;
                mlat_timestamp_max = cast 0x1_0000_0000_0000_0000 h.mlat_timestamp_max;
                rssi_max = cast 0x1_0000_0000 h.rssi_max;
                have_header = true;
              })
              (record {
                identified = w.identified;
                sized = w.sized;
                timed = w.timed;
                strength = w.strength;
                counted = w.counted;
              })
              refl
              (record {
                mhz_pos =
                    λ _. outside-cast 0xffff 0x1_0000 h.mlat_timestamp_mhz (omega arith) mhz.0;
                rssi_pos =
                    λ _. outside-cast 0xffff_ffff 0x1_0000_0000 h.rssi_max (omega arith) rssi.0;
              })
              (λ x. refl))
    ]
  ]

  pub json_parse_by-IsFilled :
      (type_str : List ℕ) (input : J) (p : Packet) (s : ParserState)
      → IsWellFormed p
      → IsReady s
      → IsFilled p s (json_parse_by lib server_id type_str input p s)
  unfolding json_parse_by
  json_parse_by-IsFilled type_str input p s w ready =
      branch (lib.strcmp_equal type_str header_text) (json_parse_header-IsFilled input p s w ready)
        (branch (lib.strcmp_equal type_str mode_ac_text)
          (json_parse_payload-IsFilled type_mode_ac input p s w ready)
          (branch (lib.strcmp_equal type_str mode_s_short_text)
            (json_parse_payload-IsFilled type_mode_s_short input p s w ready)
            (branch (lib.strcmp_equal type_str mode_s_long_text)
              (json_parse_payload-IsFilled type_mode_s_long input p s w ready)
              (refused p p s refl ready))))
