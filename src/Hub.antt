-- ===== src/Hub.antt =====
-- The tables of adsbus/receive.c and adsbus/send.c, which join the formats to the connections.
pub mod Delivery
use adsb_tools.Prelude.{ℕ, Option, none, some, List, [], ◌∷◌, Run, ok, ◌>>=◌}
use adsb_tools.Buf.{Buf}
use adsb_tools.Buf.Window.{contents}
use adsb_tools.Packet.{Packet}
use adsb_tools.Parser.{Parser}
use adsb_tools.Airspy.{airspy_adsb_parse, airspy_adsb_serialize}
use adsb_tools.Beast.{beast_parse, beast_serialize}
use adsb_tools.Json.{json_parse}
use adsb_tools.Json.Library.{Jansson, Writer}
use adsb_tools.Json.Write.{json_serialize}
use adsb_tools.Proto.Message.{ProtobufC}
use adsb_tools.Proto.{proto_parse, proto_serialize}
use adsb_tools.Raw.{raw_parse, raw_serialize}
use adsb_tools.Stats.{StatsState, stats_serialize}
use adsb_tools.Send.{Send, Serializer}

-- `parsers` of receive.c, in its order.
abbrev pub parsers : {J : Type 0} → Jansson J → ProtobufC → List ℕ → List Parser
parsers lib protobuf server_id =
    airspy_adsb_parse
    ∷ beast_parse
    ∷ json_parse lib server_id
    ∷ proto_parse protobuf server_id
    ∷ raw_parse
    ∷ []

-- A serializer without a state.
abbrev pub keeping : (Packet → Buf → Run Buf) → Packet → Buf → StatsState → Run (Buf × StatsState)
keeping serialize packet buf state = serialize packet buf >>= λ buf'. ok (buf', state)

-- The lists of the consumers, one for each format.
pub record Consumers : Type 0 where
  pub airspy_adsb : List Send
  pub beast : List Send
  pub json : List Send
  pub proto : List Send
  pub raw : List Send
  pub stats : List Send

-- `serializers` of send.c, in its order; `json_hello_buf` and `proto_hello_buf` hold what `json_init` and
-- `proto_init` left there. The state is that of the statistics; `clock` is what `clock_gettime`
-- answers, by the number of messages that were counted before.
abbrev pub serializers :
    Writer → Buf → ProtobufC → Buf → (ℕ → Option ℕ) → Consumers → List (Serializer StatsState)
serializers json json_hello_buf protobuf proto_hello_buf clock c =
    record {
      name = b'a' ∷ b'i' ∷ b'r' ∷ b's' ∷ b'p' ∷ b'y' ∷ b'_' ∷ b'a' ∷ b'd' ∷ b's' ∷ b'b' ∷ [];
      serialize = keeping airspy_adsb_serialize;
      hello = none;
      send_head = c.airspy_adsb;
    }
    ∷ record {
      name = b'b' ∷ b'e' ∷ b'a' ∷ b's' ∷ b't' ∷ [];
      serialize = keeping beast_serialize;
      hello = none;
      send_head = c.beast;
    }
    ∷ record {
      name = b'j' ∷ b's' ∷ b'o' ∷ b'n' ∷ [];
      serialize = keeping (json_serialize json);
      hello = some (contents json_hello_buf);
      send_head = c.json;
    }
    ∷ record {
      name = b'p' ∷ b'r' ∷ b'o' ∷ b't' ∷ b'o' ∷ [];
      serialize = keeping (proto_serialize protobuf);
      hello = some (contents proto_hello_buf);
      send_head = c.proto;
    }
    ∷ record {
      name = b'r' ∷ b'a' ∷ b'w' ∷ [];
      serialize = keeping (λ packet buf. ok (raw_serialize packet buf));
      hello = none;
      send_head = c.raw;
    }
    ∷ record {
      name = b's' ∷ b't' ∷ b'a' ∷ b't' ∷ b's' ∷ [];
      serialize = λ packet buf state.
          stats_serialize json (clock state.total_count) (some packet) buf state;
      hello = none;
      send_head = c.stats;
    }
    ∷ []
