-- ===== src/Raw/Wire.antt =====
-- The bytes that `raw_serialize` writes.
use adsb_tools.Prelude.{
  ℕ, ◌+◌, ◌-◌, ◌*◌, ◌≤◌, ◌<◌, ◌≡◌, List, [], ◌∷◌, ◌++◌, length, get_or, store, arith, length-append,
  length-store, get_or-append, get_or-store,
}
use adsb_tools.Buf.{Buf, buf_len_max}
use adsb_tools.Buf.Window.{IsValid, contents, contents_ext}
use adsb_tools.Packet.{
  Packet, PacketType, type_none, type_mode_ac, type_mode_s_short, type_mode_s_long,
  packet_payload_len, packet_payload_len_max,
}
use adsb_tools.Hex.{hex_from_bin_upper}
use adsb_tools.Hex.RoundTrip.{length-hex_from_bin_upper}
use adsb_tools.Raw.{overlay_start, total_len, raw_serialize}

pub payload_len-le-max : (type : PacketType) → packet_payload_len type ≤ packet_payload_len_max
unfolding packet_payload_len
payload_len-le-max type_none = omega arith
payload_len-le-max type_mode_ac = omega arith
payload_len-le-max type_mode_s_short = omega arith
payload_len-le-max type_mode_s_long = omega arith

-- The message in the raw format, as a text.
abbrev pub raw_text : Packet → List ℕ
raw_text packet =
    b'*'
    ∷ (hex_from_bin_upper packet.payload (packet_payload_len packet.type) ++ (b';' ∷ b'\n' ∷ []))

-- Four stores from index `s` on that lay a text with `n` bytes of payload out in an array.
laid_out :
    (s n i : ℕ) (l hex : List ℕ)
    → s + (3 + n * 2) ≤ length l
    → length hex ≡ 2 * n
    → i < 3 + n * 2
    → get_or
        (store
          (store
            (store (store l (s + 0) (b'*' ∷ [])) (s + overlay_start n) (b';' ∷ []))
            (s + (overlay_start n + 1))
            (b'\n' ∷ []))
          (s + 1)
          hex)
        (s + i)
        0
      ≡ get_or (b'*' ∷ (hex ++ (b';' ∷ b'\n' ∷ []))) i 0
laid_out s n i l hex room len hi =
    let l1 = store l (s + 0) (b'*' ∷ []) in
    let l2 = store l1 (s + overlay_start n) (b';' ∷ []) in
    let l3 = store l2 (s + (overlay_start n + 1)) (b'\n' ∷ []) in
    ground (
      arith,
      length-store l (s + 0) (b'*' ∷ []),
      length-store l1 (s + overlay_start n) (b';' ∷ []),
      length-store l2 (s + (overlay_start n + 1)) (b'\n' ∷ []),
      get_or-store l3 (s + 1) hex (s + i) 0,
      get_or-store l2 (s + (overlay_start n + 1)) (b'\n' ∷ []) (s + i) 0,
      get_or-store l1 (s + overlay_start n) (b';' ∷ []) (s + i) 0,
      get_or-store l (s + 0) (b'*' ∷ []) (s + i) 0,
      get_or-append (b'*' ∷ hex) (b';' ∷ b'\n' ∷ []) i 0,
    )

raw_serialize-IsValid :
    (packet : Packet) (buf : Buf)
    → IsValid buf
    → buf.start + total_len packet_payload_len_max ≤ buf_len_max
    → IsValid (raw_serialize packet buf)
unfolding raw_serialize
raw_serialize-IsValid packet buf v room =
    let n = packet_payload_len packet.type in
    let l1 = store buf.bytes (buf.start + 0) (b'*' ∷ []) in
    let l2 = store l1 (buf.start + overlay_start n) (b';' ∷ []) in
    let l3 = store l2 (buf.start + (overlay_start n + 1)) (b'\n' ∷ []) in
    omega (
      arith,
      payload_len-le-max packet.type,
      length-store buf.bytes (buf.start + 0) (b'*' ∷ []),
      length-store l1 (buf.start + overlay_start n) (b';' ∷ []),
      length-store l2 (buf.start + (overlay_start n + 1)) (b'\n' ∷ []),
      length-store l3 (buf.start + 1) (hex_from_bin_upper packet.payload n),
    )

pub length-raw_text :
    (packet : Packet)
    → length packet.payload ≡ packet_payload_len_max
    → length (raw_text packet) ≡ total_len (packet_payload_len packet.type) - 1
length-raw_text packet len =
    let n = packet_payload_len packet.type in
    omega (
      arith,
      payload_len-le-max packet.type,
      length-hex_from_bin_upper n packet.payload,
      length-append (hex_from_bin_upper packet.payload n) (b';' ∷ b'\n' ∷ []),
    )

-- `raw_serialize` of a message whose payload array has 14 bytes, into a valid buffer with room
-- behind its start for the longest message, leaves a valid buffer that holds the text of the
-- message and nothing else.
pub raw_serialize-contents :
    (packet : Packet) (buf : Buf)
    → IsValid buf
    → buf.start + total_len packet_payload_len_max ≤ buf_len_max
    → length packet.payload ≡ packet_payload_len_max
    → IsValid (raw_serialize packet buf) × (contents (raw_serialize packet buf) ≡ raw_text packet)
raw_serialize-contents packet buf v room len =
    let valid = raw_serialize-IsValid packet buf v room in
    let n = packet_payload_len packet.type in
    (
      valid,
      contents_ext (raw_serialize packet buf) (raw_text packet) valid
          (unfold raw_serialize in length-raw_text packet len)
          (λ i hi.
            unfold raw_serialize in
            laid_out buf.start n i buf.bytes (hex_from_bin_upper packet.payload n)
              (omega (arith, payload_len-le-max packet.type))
              (length-hex_from_bin_upper n packet.payload
                (omega (arith, payload_len-le-max packet.type)))
              (unfold raw_serialize in omega arith)),
    )
