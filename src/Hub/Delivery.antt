-- ===== src/Hub/Delivery.antt =====
-- The program from the descriptor of a producer to the consumers.
use adsb_tools.Prelude.{
  true, some, ℕ, ◌≡◌, ◌≤◌, ◌<◌, refl, Option, List, length, Run, ok, ◌>>=◌, arith, All, Ssize,
  Bool-cases, inl, inr, ◌/◌, ◌%◌, ◌==◌, ◌!=◌, Bool, [], ◌∷◌, ◌++◌, ltb, false, ge→ltb,
}
use adsb_tools.Buf.{Buf, buf_zero, buf_len_max}
use adsb_tools.Buf.Window.{received}
use adsb_tools.Packet.{
  Packet, PacketType, Stat, is_message, packet_sanity_check, type_none, type_mode_ac,
  type_mode_s_short, type_mode_s_long, packet_mlat_timestamp_scale_out, packet_rssi_scale_out,
}
use adsb_tools.Parser.Laws.{IsSound-IsServed, Promises}
use adsb_tools.Airspy.{airspy_adsb_serialize}
use adsb_tools.Airspy.Promise.{airspy_adsb_parse-IsSound}
use adsb_tools.Beast.{beast_serialize, beast_serialize_packet, beast_rssi, beast_serialize_by}
use adsb_tools.Beast.Promise.{beast_parse-IsSound}
use adsb_tools.Hex.{hex_from_int_upper}
use adsb_tools.Json.Library.{Jansson, Writer}
use adsb_tools.Json.Write.{json_serialize}
use adsb_tools.Json.Text.{
  holding, joined, line_of, json_serialize_to_buf-holding, json_serialize-ok,
}
use adsb_tools.Json.Promise.{json_parse-IsServed}
use adsb_tools.Proto.Message.{ProtobufC}
use adsb_tools.Proto.{proto_serialize}
use adsb_tools.Proto.Promise.{proto_parse-IsServed}
use adsb_tools.Proto.Writing.{written, IsPackable, proto_serialize-ok}
use adsb_tools.Raw.{raw_serialize}
use adsb_tools.Raw.Promise.{raw_parse-IsSound}
use adsb_tools.Os.{Os}
use adsb_tools.Stats.{StatsState, counted, stats_object, stats_serialize}
use adsb_tools.Receive.{Receive, Receives, receive_read}
use adsb_tools.Receive.Close.{CanClose}
use adsb_tools.Receive.Loop.{IsSendable, IsLive}
use adsb_tools.Receive.Read.{IsOpen, Reason}
use adsb_tools.Send.{Event, send_write}
use adsb_tools.Send.Delivery.{Works}
use adsb_tools.Send.Echo.{IsSource, IsUntouched, receive_read-no_echo}
use adsb_tools.Hub.{parsers, keeping, serializers, Consumers}

-- The library reports where the object that it read ends: behind its start, and within the text.
abbrev pub ReportsEnd : {J : Type 0} → Jansson J → Type 0
ReportsEnd {J} lib =
    (text : List ℕ) (input : J) (n : ℕ)
    → lib.loadb text ≡ some (input, n)
    → (0 < n) × (n ≤ length text)

parsers-Promise :
    {J : Type 0} (lib : Jansson J) (server_id : List ℕ) (protobuf : ProtobufC)
    → ReportsEnd lib
    → All Promises (parsers lib protobuf server_id)
parsers-Promise lib server_id protobuf ends = (
  λ b p s v holds w ready. IsSound-IsServed (airspy_adsb_parse-IsSound b p s v holds w ready),
  (
    λ b p s v holds w ready. IsSound-IsServed (beast_parse-IsSound b p s v holds w ready),
    (
      json_parse-IsServed lib server_id ends,
      (
        proto_parse-IsServed protobuf server_id,
        (λ b p s v holds w ready. IsSound-IsServed (raw_parse-IsSound b p s v holds w ready), tt),
      ),
    ),
  ),
)

-- Code that does not stop the process.
abbrev Returns : {A : Type 0} → Run A → Type 0
Returns {A} m = (a : A) × (m ≡ ok a)

>>=-Returns :
    {A B : Type 0} {m : Run A} {f : A → Run B}
    → Returns m
    → ((a : A) → Returns (f a))
    → Returns (m >>= f)
>>=-Returns first rest = let (b, e) = rest first.0 in (b, rw first.1 e)

-- A packet that is sane is no header.
sane-is_message : (p : Packet) → packet_sanity_check p ≡ ok tt → is_message p.type ≡ true
unfolding packet_sanity_check
sane-is_message p h = ground (arith, h)

airspy_adsb_serialize-Returns : (p : Packet) (b : Buf) → Returns (airspy_adsb_serialize p b)
unfolding airspy_adsb_serialize packet_mlat_timestamp_scale_out packet_rssi_scale_out
    hex_from_int_upper
airspy_adsb_serialize-Returns p b = (_, refl)

beast_rssi-Returns : (p : Packet) → Returns (beast_rssi p)
unfolding beast_rssi packet_rssi_scale_out
beast_rssi-Returns p = elim (Bool-cases (p.rssi == 0)) [
  | inl e ↦ (255, ground arith)
  | inr e ↦ (p.rssi / 16843009 % 256, ground arith)
]

beast_serialize_packet-Returns :
    (p : Packet) (b : Buf) (kind : ℕ) → Returns (beast_serialize_packet p b kind)
unfolding beast_serialize_packet packet_mlat_timestamp_scale_out
beast_serialize_packet-Returns p b kind = >>=-Returns (beast_rssi-Returns p) (λ r. (_, refl))

by_type-Returns : (type : PacketType) (p : Packet) (b : Buf) → Returns (beast_serialize_by type p b)
by_type-Returns type_none p b = (b, refl)
by_type-Returns type_mode_ac p b = beast_serialize_packet-Returns p b 0x31
by_type-Returns type_mode_s_short p b = beast_serialize_packet-Returns p b 0x32
by_type-Returns type_mode_s_long p b = beast_serialize_packet-Returns p b 0x33

beast_serialize-Returns : (p : Packet) (b : Buf) → Returns (beast_serialize p b)
unfolding beast_serialize
beast_serialize-Returns p b = by_type-Returns p.type p b

stats_serialize-Returns :
    (json : Writer) (now : Option ℕ) (p : Packet) (state : StatsState)
    → ((t : ℕ) × (now ≡ some t))
    → ((t : ℕ) (st : StatsState) → length (joined (json.dump (stats_object t st))) < buf_len_max)
    → Returns (stats_serialize json now (some p) buf_zero state)
unfolding stats_serialize
stats_serialize-Returns json now p state answers fits =
    let st = counted (some p) state in
    let object = stats_object answers.0 st in
    let short : ltb 255 (length (joined (json.dump object))) ≡ false =
      ge→ltb 255 _ (omega (arith, fits answers.0 st)) in
    let whole = json_serialize_to_buf-holding json object in
    elim (Bool-cases (st.total_count % 1000 != 0)) [
      | inl e ↦ ((buf_zero, st), simp (stats_serialize, e))
      | inr e ↦ (
        (holding (joined (json.dump object) ++ (b'\n' ∷ [])), st),
        simp (stats_serialize, e, answers.1, whole, short),
      )
    ]

keeping-Works :
    (serialize : Packet → Buf → Run Buf) (p : Packet)
    → Returns (serialize p buf_zero)
    → (state : StatsState) → Returns (keeping serialize p buf_zero state)
keeping-Works serialize p returns state = ((returns.0, state), simp (returns.1))

serializers-Works :
    (json : Writer) (json_hello : Buf) (protobuf : ProtobufC) (hello : Buf) (clock : ℕ → Option ℕ)
    (c : Consumers) (p : Packet)
    → Returns (json_serialize json p buf_zero)
    → Returns (proto_serialize protobuf p buf_zero)
    → ((n : ℕ) → (t : ℕ) × (clock n ≡ some t))
    → ((t : ℕ) (st : StatsState) → length (joined (json.dump (stats_object t st))) < buf_len_max)
    → All (Works p) (serializers json json_hello protobuf hello clock c)
serializers-Works json json_hello protobuf hello clock c p hj hp ticks fits = (
  keeping-Works airspy_adsb_serialize p (airspy_adsb_serialize-Returns p buf_zero),
  (
    keeping-Works beast_serialize p (beast_serialize-Returns p buf_zero),
    (
      keeping-Works (json_serialize json) p hj,
      (
        keeping-Works (proto_serialize protobuf) p hp,
        (
          keeping-Works (λ packet buf. ok (raw_serialize packet buf)) p
              (raw_serialize p buf_zero, refl),
          (
            (λ state.
                stats_serialize-Returns json (clock state.total_count) p state
                  (ticks state.total_count) fits),
            tt,
          ),
        ),
      ),
    ),
  ),
)

-- The hub, from a producer's descriptor to the consumers: `receive_read` and `send_write` with the
-- tables of the program. The conditions: the connection is sound and its buffer has room, and it
-- can be closed, as `receive_del` does it; `read` delivers no more than it was asked for; the JSON
-- library reports where the object that it read ends, behind its start and within the text; for
-- each sane packet with at most the maximal number of hops it writes the object in a line that fits
-- a buffer, and so does it for each report of the statistics; the clock can be read; the
-- library for protocol buffers packs the message into at most a buffer; the consumers with the
-- descriptor `fd` are all the socket that the connection reads from, by device and inode. Whatever
-- each `write` returns, and whatever has been counted: no `assert` fails, the loop ends, nothing is
-- written to `fd` and it is not shut down, and the connection is sound and has room, or, if `read`
-- delivered nothing or the buffer is full after the loop, was closed and its callback called.
pub hub_read-no_echo :
    {J : Type 0} (os : Os) (shutdown : Bool) (lib : Jansson J) (server_id : List ℕ)
    (protobuf : ProtobufC) (json_hello hello : Buf) (json : Writer) (clock : ℕ → Option ℕ)
    (c : Consumers) (write : List Event → ℕ → List ℕ → Ssize) (max_hops fd : ℕ) (stat : Stat)
    (read : ℕ → Option (List ℕ)) (r : Receive) (before : StatsState × List Event) (s : Receives)
    → CanClose os shutdown r.peer r.on_close s
    → ReportsEnd lib
    → ((p : Packet) → IsSendable stat max_hops p → length (line_of json p) ≤ buf_len_max)
    → ((p : Packet) → IsSendable stat max_hops p → IsPackable protobuf p)
    → ((n : ℕ) → (t : ℕ) × (clock n ≡ some t))
    → ((t : ℕ) (st : StatsState) → length (joined (json.dump (stats_object t st))) < buf_len_max)
    → ((n : ℕ) → length (received (read n)) ≤ n)
    → All
        (λ f. All (IsSource stat fd) f.send_head)
        (serializers json json_hello protobuf hello clock c)
    → IsLive stat r
    → r.buf.length < buf_len_max
    → IsUntouched fd before.1
    → (left : Option Receive) × (after : StatsState × List Event) × (s' : Receives) × (receive_read
          (send_write write (serializers json json_hello protobuf hello clock c))
          max_hops
          os
          shutdown
          (parsers lib protobuf server_id)
          read
          r
          before
          s
        ≡ ok (left, after, s'))
      × IsOpen shutdown stat r s left s'
      × Reason
          (send_write write (serializers json json_hello protobuf hello clock c))
          max_hops
          (parsers lib protobuf server_id)
          read
          r
          before
          left
          after
      × IsUntouched fd after.1
hub_read-no_echo os shutdown lib server_id protobuf json_hello hello json clock c write max_hops fd
      stat read r before s can pj hj hp ticks fits contract source live room h =
    receive_read-no_echo os shutdown write (serializers json json_hello protobuf hello clock c)
      max_hops fd stat (parsers lib protobuf server_id) read r before s can
      (parsers-Promise lib server_id protobuf pj) contract
      (λ p ok_p.
        serializers-Works json json_hello protobuf hello clock c p
          (
            holding (line_of json p),
            json_serialize-ok json p (sane-is_message p ok_p.sane) (hj p ok_p),
          )
          (
            written protobuf p,
            proto_serialize-ok protobuf p (hp p ok_p) (sane-is_message p ok_p.sane),
          )
          ticks fits)
      source live room h
