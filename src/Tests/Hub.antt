-- ===== src/Tests/Hub.antt =====
-- adsbus/send.c and the whole hub at fixed inputs: a producer whose socket is a consumer too.
use adsb_tools.Prelude.{
  ◌⊎◌, ◌≤◌, ◌<◌, length, abort, ℕ, ◌≡◌, refl, none, some, ◌+◌, false, Option, List, [], ◌∷◌, ◌++◌,
  ok, arith, Ssize, size, inl, inr,
}
use adsb_tools.Buf.{Buf, buf_zero, buf_len_max}
use adsb_tools.Buf.Window.{IsValid, contents}
use adsb_tools.Json.Library.{Writer}
use adsb_tools.Json.Write.{
  json_serialize, payload_object, append_each, with_line_end, refused, appended,
}
use adsb_tools.Json.Text.{line_of, json_serialize-contents}
use adsb_tools.Packet.{packet_sanity_check, packet_validate_id}
use adsb_tools.Receive.{Receive, Receives, fresh_receive, receive_read}
use adsb_tools.Receive.Read.{IsOpen, Reason}
use adsb_tools.Raw.{raw_serialize}
use adsb_tools.Send.{Send, Serializer, Event, send_write}
use adsb_tools.Send.Delivery.{deliveries, owed_by_all, send_write-deliveries}
use adsb_tools.Send.Echo.{IsUntouched}
use adsb_tools.Hub.{Consumers, parsers, serializers}
use adsb_tools.Stats.{StatsState}
use adsb_tools.Hub.Delivery.{hub_read-no_echo}
use adsb_tools.Tests.Sockets.{willing}
use adsb_tools.Tests.Connections.{
  one_connection, one_connection-CanClose, socket_stat, new_connection, new_connection-IsLive,
  line_in, line_in-fits,
}
use adsb_tools.Tests.Protobuf.{small_library, small_library-IsPackable}
use adsb_tools.Tests.Formats.{one_header, one_header-ReportsEnd, server_name, short_message}

-- A library that writes an empty object in two pieces.
abbrev pub small_writer : Writer
small_writer = record { dump = λ obj. (b'{' ∷ []) ∷ ((b'}' ∷ []) ∷ []) }

json_serialize-contents_example :
    ((b : Buf) × (json_serialize small_writer short_message buf_zero ≡ ok b)
      × IsValid b
      × (contents b ≡ line_of small_writer short_message)
      × (length (line_of small_writer short_message) ≤ buf_len_max)
      × (with_line_end (append_each (small_writer.dump (payload_object short_message)) buf_zero)
          ≡ appended b))
    ⊎ ((json_serialize small_writer short_message buf_zero ≡ abort)
        × (buf_len_max < length (line_of small_writer short_message))
        × (with_line_end (append_each (small_writer.dump (payload_object short_message)) buf_zero)
            ≡ refused))
json_serialize-contents_example = json_serialize-contents small_writer short_message refl

abbrev back : Send
back = record { fd = 5; stat = socket_stat; id = b'b' ∷ 0 ∷ [] }

abbrev other : Send
other = record { fd = 6; stat = record { st_dev = 8; st_ino = 78 }; id = b'o' ∷ 0 ∷ [] }

abbrev consumers : Consumers
consumers = record {
  airspy_adsb = [];
  beast = other ∷ [];
  json = [];
  proto = [];
  raw = back ∷ other ∷ [];
  stats = other ∷ [];
}

abbrev clock : ℕ → Option ℕ
clock n = some (n + 5)

abbrev formats : List (Serializer StatsState)
formats = serializers small_writer buf_zero small_library buf_zero clock consumers

-- The message that comes in is the thousandth.
abbrev counted_so_far : StatsState
counted_so_far = record { total_count = 999; type_count = λ type. 333; start = 0 }

-- A `write` that fails.
abbrev failing : List Event → ℕ → List ℕ → Ssize
failing trace fd text = size 0

hub_read-no_echo_example :
    (left : Option Receive) × (after : StatsState × List Event) × (s : Receives) × (receive_read
        (send_write failing formats)
        10
        willing
        false
        (parsers one_header small_library server_name)
        line_in
        new_connection
        (counted_so_far, [])
        one_connection
      ≡ ok (left, after, s))
    × IsOpen false socket_stat new_connection one_connection left s
    × Reason
        (send_write failing formats)
        10
        (parsers one_header small_library server_name)
        line_in
        new_connection
        (counted_so_far, [])
        left
        after
    × IsUntouched 5 after.1
unfolding fresh_receive
hub_read-no_echo_example =
    hub_read-no_echo willing false one_header server_name small_library buf_zero buf_zero
      small_writer clock consumers failing 10 5 socket_stat line_in new_connection
      (counted_so_far, []) one_connection one_connection-CanClose one_header-ReportsEnd
      (λ p h. omega arith) (λ p h. small_library-IsPackable p) (λ n. (n + 5, refl))
      (λ t st. omega arith) line_in-fits
      (tt, ((inl refl, tt), (tt, (tt, ((inr (refl, refl), (inl refl, tt)), ((inl refl, tt), tt))))))
      new_connection-IsLive (omega arith) tt

abbrev raw_format : Serializer ℕ
raw_format = record {
  name = b'r' ∷ b'a' ∷ b'w' ∷ [];
  serialize = λ packet buf count. ok (raw_serialize packet buf, count + 1);
  hello = none;
  send_head = back ∷ other ∷ [];
}

send_write-deliveries_example :
    (after : ℕ × List Event) × (send_write failing (raw_format ∷ []) short_message (3, [])
      ≡ ok after)
    × (deliveries after.1 ≡ deliveries [] ++ owed_by_all short_message (raw_format ∷ []) 3)
unfolding packet_sanity_check packet_validate_id
send_write-deliveries_example =
    send_write-deliveries failing (raw_format ∷ []) short_message 3 [] refl
      ((λ count. ((raw_serialize short_message buf_zero, count + 1), refl)), tt)
