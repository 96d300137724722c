-- ===== src/Json/Text.antt =====
-- adsbus/json.c: the text that is written fits the buffer, or nothing is.
use adsb_tools.Prelude.{
  ℕ, ◌+◌, ◌≤◌, ◌<◌, ◌≡◌, refl, ap, sym, ◌∙◌, true, false, List, [], ◌∷◌, ◌++◌, length, store,
  replicate, ltb, if◌then◌else◌, ok, abort, arith, ◌⊎◌, Bool-cases, inl, inr, length-append,
  length-store, length-replicate, append_assoc, append-nil, store-nil, take-store, ge→ltb,
}
use adsb_tools.Buf.{Buf, buf_zero, buf_store, buf_len_max}
use adsb_tools.Buf.Window.{IsValid, contents}
use adsb_tools.Packet.{
  Packet, PacketType, is_message, type_none, type_mode_ac, type_mode_s_short, type_mode_s_long,
}
use adsb_tools.Json.Library.{Writer}
use adsb_tools.Json.Write.{
  Object, refused, appended, copy_behind, json_buf_append_callback, append_each, with_line_end,
  end_line, payload_object, json_serialize_to_buf, json_serialize_payload, json_serialize_by,
  json_serialize,
}

store_behind : (out xs ys : List ℕ) → store (store out 0 xs) (length xs) ys ≡ store out 0 (xs ++ ys)
store_behind out [] ys = ap (λ (t : List ℕ). store t 0 ys) (store-nil out 0)
store_behind [] (x ∷ xs) ys = refl
store_behind (o ∷ out) (x ∷ xs) ys = ap (λ (t : List ℕ). x ∷ t) (store_behind out xs ys)

-- An empty buffer into which a text was written.
abbrev pub holding : List ℕ → Buf
holding xs = record (buf_store buf_zero 0 xs) { length = length xs }

pub holding-contents :
    (xs : List ℕ) → length xs ≤ buf_len_max → IsValid (holding xs) × (contents (holding xs) ≡ xs)
unfolding buf_zero
holding-contents xs fits = (
  record {
    whole = length-store (replicate buf_len_max 0) 0 xs ∙ length-replicate {A = ℕ} buf_len_max 0;
    inside = omega (arith, fits);
  },
  take-store (replicate buf_len_max 0) xs
      (omega (arith, fits, length-replicate {A = ℕ} buf_len_max 0)),
)

-- Writing behind it.
holding_more :
    (xs ys : List ℕ)
    → record (buf_store (holding xs) (holding xs).length ys) { length = length xs + length ys }
      ≡ holding (xs ++ ys)
unfolding buf_zero
holding_more xs ys =
    let zeros : List ℕ = replicate buf_len_max 0 in
    let bytes : store (store zeros 0 xs) (0 + length xs) ys ≡ store zeros 0 (xs ++ ys) =
      ap (λ (n : ℕ). store (store zeros 0 xs) n ys) (zero_before (length xs))
      ∙ store_behind zeros xs ys in
    ap (λ (t : List ℕ). buffer t (length xs + length ys)) bytes
    ∙ ap (λ (n : ℕ). buffer (store zeros 0 (xs ++ ys)) n) (sym (length-append xs ys))
  where
    buffer : List ℕ → ℕ → Buf
    buffer bytes n = record { bytes = bytes; start = 0; length = n }

    zero_before : (n : ℕ) → 0 + n ≡ n
    zero_before n = omega arith

abbrev pub joined : List (List ℕ) → List ℕ
joined [] = []
joined (piece ∷ pieces) = piece ++ joined pieces

-- The copy stays within the array.
copy_behind-holding :
    (piece xs : List ℕ)
    → length xs + length piece ≤ buf_len_max
    → copy_behind piece (holding xs) ≡ appended (holding (xs ++ piece))
unfolding copy_behind buf_zero
copy_behind-holding piece xs fits =
    let room : ltb buf_len_max (0 + length xs + length piece) ≡ false =
      ge→ltb buf_len_max (0 + length xs + length piece) (omega (arith, fits)) in
    simp (copy_behind, room, holding_more xs piece)

append_each-joined :
    (pieces : List (List ℕ)) (xs : List ℕ)
    → length xs < buf_len_max
    → append_each pieces (holding xs) ≡ (
        if ltb 255 (length (xs ++ joined pieces))
        then refused
        else appended (holding (xs ++ joined pieces)))
unfolding append_each json_buf_append_callback
append_each-joined [] xs fits = rw (append-nil xs, ge→ltb 255 (length xs) (omega arith)) refl
append_each-joined (piece ∷ pieces) xs fits =
    let all = length-append xs (piece ++ joined pieces) in
    let some_of = length-append piece (joined pieces) in
    elim (Bool-cases (ltb buf_len_max (length xs + length piece + 1))) [
      | inl long ↦
          let too_long : ltb 255 (length (xs ++ (piece ++ joined pieces))) ≡ true =
            ground (arith, long, all, some_of) in
          simp (append_each, json_buf_append_callback, long, too_long)
      | inr short ↦
          let fits' : length (xs ++ piece) < buf_len_max =
            ground (arith, short, length-append xs piece) in
          let rest = append_each-joined pieces (xs ++ piece) fits' in
          let rest = simp (append_assoc xs piece (joined pieces)) at rest in
          let copied = copy_behind-holding piece xs (ground (arith, short)) in
          simp (append_each, json_buf_append_callback, short, copied, rest)
    ]

empty_buffer : buf_zero ≡ holding []
unfolding buf_zero
empty_buffer = refl

with_line_end-holding :
    (pieces : List (List ℕ))
    → with_line_end (append_each pieces buf_zero) ≡ (
        if ltb 255 (length (joined pieces))
        then refused
        else appended (holding (joined pieces ++ (b'\n' ∷ []))))
unfolding with_line_end
with_line_end-holding pieces =
    let line = joined pieces in
    let written =
      ap (append_each pieces) empty_buffer ∙ append_each-joined pieces [] (omega arith) in
    elim (Bool-cases (ltb 255 (length line))) [
      | inl long ↦ simp (written, long, with_line_end)
      | inr short ↦
          let copied = copy_behind-holding (b'\n' ∷ []) line (ground (arith, short)) in
          simp (written, short, with_line_end, copied)
    ]

pub json_serialize_to_buf-holding :
    (writer : Writer) (obj : Object)
    → json_serialize_to_buf writer obj buf_zero ≡ (
        if ltb 255 (length (joined (writer.dump obj)))
        then abort
        else ok (holding (joined (writer.dump obj) ++ (b'\n' ∷ []))))
unfolding json_serialize_to_buf end_line
json_serialize_to_buf-holding writer obj =
    let whole = with_line_end-holding (writer.dump obj) in
    elim (Bool-cases (ltb 255 (length (joined (writer.dump obj))))) [
      | inl long ↦ simp (json_serialize_to_buf, whole, long, end_line)
      | inr short ↦ simp (json_serialize_to_buf, whole, short, end_line)
    ]

-- The line that is written for a message.
abbrev pub line_of : Writer → Packet → List ℕ
line_of writer packet = joined (writer.dump (payload_object packet)) ++ (b'\n' ∷ [])

serialize_by-payload :
    (writer : Writer) (type : PacketType) (packet : Packet)
    → is_message type ≡ true
    → json_serialize_by writer type packet buf_zero
      ≡ json_serialize_to_buf writer (payload_object packet) buf_zero
unfolding json_serialize_by json_serialize_payload
serialize_by-payload writer type_none packet m = cc
serialize_by-payload writer type_mode_ac packet m = refl
serialize_by-payload writer type_mode_s_short packet m = refl
serialize_by-payload writer type_mode_s_long packet m = refl

-- A packet that is no header, and an empty buffer: if the text that the library delivers for its
-- object, in whatever pieces, leaves room for a line end in the buffer, `json_serialize` leaves a
-- valid buffer that contains just the text and the line end; otherwise the callback refuses a piece,
-- and an `assert` fails. In both cases no copy goes beyond the array, neither one of the callback's nor
-- the line end.
pub json_serialize-contents :
    (writer : Writer) (packet : Packet)
    → is_message packet.type ≡ true
    → ((b : Buf) × (json_serialize writer packet buf_zero ≡ ok b)
        × IsValid b
        × (contents b ≡ line_of writer packet)
        × (length (line_of writer packet) ≤ buf_len_max)
        × (with_line_end (append_each (writer.dump (payload_object packet)) buf_zero) ≡ appended b))
      ⊎ ((json_serialize writer packet buf_zero ≡ abort)
          × (buf_len_max < length (line_of writer packet))
          × (with_line_end (append_each (writer.dump (payload_object packet)) buf_zero) ≡ refused))
unfolding json_serialize
json_serialize-contents writer packet m =
    let text = joined (writer.dump (payload_object packet)) in
    let same = serialize_by-payload writer packet.type packet m in
    let whole = json_serialize_to_buf-holding writer (payload_object packet) in
    let copies = with_line_end-holding (writer.dump (payload_object packet)) in
    let longer = length-append text (b'\n' ∷ []) in
    elim (Bool-cases (ltb 255 (length text))) [
      | inl long ↦
          inr (same ∙ simp long at whole, ground (arith, long, longer), simp long at copies)
      | inr short ↦
          let fits : length (line_of writer packet) ≤ buf_len_max = ground (arith, short, longer) in
          let held = holding-contents (line_of writer packet) fits in
          inl (
            holding (line_of writer packet),
            same ∙ simp short at whole,
            held.0,
            held.1,
            fits,
            simp short at copies,
          )
    ]

pub json_serialize-ok :
    (writer : Writer) (packet : Packet)
    → is_message packet.type ≡ true
    → length (line_of writer packet) ≤ buf_len_max
    → json_serialize writer packet buf_zero ≡ ok (holding (line_of writer packet))
unfolding json_serialize
json_serialize-ok writer packet m fits =
    let text = joined (writer.dump (payload_object packet)) in
    let longer = length-append text (b'\n' ∷ []) in
    let short : ltb 255 (length text) ≡ false =
      ge→ltb 255 (length text) (omega (arith, fits, longer)) in
    let whole = json_serialize_to_buf-holding writer (payload_object packet) in
    serialize_by-payload writer packet.type packet m ∙ simp short at whole
