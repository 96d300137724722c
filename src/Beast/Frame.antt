-- ===== src/Beast/Frame.antt =====
-- The message that `beast_serialize_packet` escapes.
use adsb_tools.Prelude.{
  ℕ, ◌+◌, ◌-◌, ◌≤◌, ◌<◌, ◌≡◌, refl, sym, ap, ◌∙◌, List, [], ◌∷◌, ◌++◌, length, get_or, take, store,
  replicate, ok, arith, length-append, length-store, length-take, length-replicate, get_or-append,
  get_or-store,
}
use adsb_tools.Buf.{Buf, buf_zero, buf_store, buf_len_max}
use adsb_tools.Buf.Window.{IsValid, contents, contents_ext}
use adsb_tools.Packet.{
  Packet, packet_payload_len, packet_payload_len_max, packet_mlat_timestamp_scale_out,
}
use adsb_tools.Raw.Wire.{payload_len-le-max}
use adsb_tools.Beast.{
  overlay_len, beast_mlat_max, beast_mlat_mhz, beast_write_mlat, beast_rssi, beast_escape,
  beast_serialize_packet,
}
use adsb_tools.Beast.Escape.{escaped, appended, beast_escape-escaped}

-- `struct beast_overlay` and the payload behind it.
abbrev pub frame : ℕ → ℕ → ℕ → List ℕ → List ℕ
frame kind timestamp rssi payload =
    (0x1a ∷ kind ∷ []) ++ (beast_write_mlat timestamp ++ (rssi ∷ payload))

pub length-beast_write_mlat : (t : ℕ) → length (beast_write_mlat t) ≡ 6
unfolding beast_write_mlat
length-beast_write_mlat t = refl

-- The array after the stores of `beast_serialize_packet`.
abbrev framed : Buf → ℕ → List ℕ → ℕ → List ℕ → Buf
framed z kind mlat rssi payload =
    let b1 = buf_store (buf_store z 0 (0x1a ∷ [])) 1 (kind ∷ []) in
    let b2 = buf_store b1 overlay_len payload in
    let b4 = buf_store (buf_store b2 2 mlat) 8 (rssi ∷ []) in
    record b4 { length = overlay_len + length payload }

-- The five stores on an array, one below the other.
laid_out :
    (l mlat payload : List ℕ) (kind rssi i : ℕ)
    → length l ≡ buf_len_max
    → length mlat ≡ 6
    → length payload ≤ 14
    → i < 9 + length payload
    → get_or
        (store
          (store (store (store (store l 0 (0x1a ∷ [])) 1 (kind ∷ [])) 9 payload) 2 mlat)
          8
          (rssi ∷ []))
        i
        0
      ≡ get_or ((0x1a ∷ kind ∷ []) ++ (mlat ++ (rssi ∷ payload))) i 0
laid_out l mlat payload kind rssi i whole six short hi =
    let l1 = store l 0 (0x1a ∷ []) in
    let l2 = store l1 1 (kind ∷ []) in
    let l3 = store l2 9 payload in
    let l4 = store l3 2 mlat in
    ground (
      arith,
      length-store l 0 (0x1a ∷ []),
      length-store l1 1 (kind ∷ []),
      length-store l2 9 payload,
      length-store l3 2 mlat,
      get_or-store l4 8 (rssi ∷ []) i 0,
      get_or-store l3 2 mlat i 0,
      get_or-store l2 9 payload i 0,
      get_or-store l1 1 (kind ∷ []) i 0,
      get_or-store l 0 (0x1a ∷ []) i 0,
      get_or-append (0x1a ∷ kind ∷ []) (mlat ++ (rssi ∷ payload)) i 0,
      get_or-append mlat (rssi ∷ payload) (i - 2) 0,
      get_or-append (rssi ∷ []) payload (i - 2 - 6) 0,
    )

abbrev empty_at : List ℕ → Buf
empty_at l = record { bytes = l; start = 0; length = 0 }

framed-holds :
    (l mlat payload : List ℕ) (kind rssi : ℕ)
    → length l ≡ buf_len_max
    → length mlat ≡ 6
    → length payload ≤ 14
    → let b = framed (empty_at l) kind mlat rssi payload in
      IsValid b × (contents b ≡ (0x1a ∷ kind ∷ []) ++ (mlat ++ (rssi ∷ payload)))
framed-holds l mlat payload kind rssi whole six short =
    let b = framed (empty_at l) kind mlat rssi payload in
    let l1 = store l 0 (0x1a ∷ []) in
    let l2 = store l1 1 (kind ∷ []) in
    let l3 = store l2 9 payload in
    let l4 = store l3 2 mlat in
    let valid : IsValid b = omega (
      arith,
      length-store l 0 (0x1a ∷ []),
      length-store l1 1 (kind ∷ []),
      length-store l2 9 payload,
      length-store l3 2 mlat,
      length-store l4 8 (rssi ∷ []),
    ) in
    (
      valid,
      contents_ext b ((0x1a ∷ kind ∷ []) ++ (mlat ++ (rssi ∷ payload))) valid
          (omega (arith, length-append mlat (rssi ∷ payload)))
          (λ i hi.
            ap (λ (k : ℕ). get_or b.bytes k 0) (zero_left i)
            ∙ laid_out l mlat payload kind rssi i whole six short hi),
    )
  where
    zero_left : (i : ℕ) → 0 + i ≡ i
    zero_left i = omega arith

-- The payload that is sent: the first bytes of the array.
abbrev pub sent : Packet → List ℕ
sent packet = take (packet_payload_len packet.type) packet.payload

pub length-sent :
    (packet : Packet)
    → length packet.payload ≡ packet_payload_len_max
    → length (sent packet) ≡ packet_payload_len packet.type
length-sent packet h = omega (
  arith,
  payload_len-le-max packet.type,
  length-take (packet_payload_len packet.type) packet.payload,
)

-- `beast_serialize_packet` appends the escaped frame of the message.
pub beast_serialize_packet-frame :
    (packet : Packet) (out : Buf) (kind t r : ℕ)
    → length packet.payload ≡ packet_payload_len_max
    → packet_mlat_timestamp_scale_out packet.mlat_timestamp beast_mlat_max beast_mlat_mhz ≡ ok t
    → beast_rssi packet ≡ ok r
    → beast_serialize_packet packet out kind
      ≡ ok (appended out (escaped (frame kind t r (sent packet))))
unfolding beast_serialize_packet
beast_serialize_packet-frame packet out kind t r sized ht hr =
    rw (ht, hr)
      (ap ok (
        ap (λ (n : ℕ). beast_escape out (record four { length = overlay_len + n })) (sym len)
        ∙ unfold buf_zero in esc))
  where
    len : length (sent packet) ≡ packet_payload_len packet.type
    len = length-sent packet sized

    four : Buf
    four =
        buf_store
          (buf_store
            (buf_store (buf_store (buf_store buf_zero 0 (0x1a ∷ [])) 1 (kind ∷ [])) overlay_len
              (sent packet))
            2 (beast_write_mlat t))
          8 (r ∷ [])

    esc :
        beast_escape out
          (framed (empty_at (replicate 256 0)) kind (beast_write_mlat t) r (sent packet))
        ≡ appended out (escaped (frame kind t r (sent packet)))
    esc =
        let f =
          framed-holds (replicate 256 0) (beast_write_mlat t) (sent packet) kind r
            (length-replicate {A = ℕ} 256 0) (length-beast_write_mlat t)
            (omega (arith, len, payload_len-le-max packet.type)) in
        beast_escape-escaped out _ f.0 ∙ ap (λ (l : List ℕ). appended out (escaped l)) f.1
