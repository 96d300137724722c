-- ===== src/Receive.antt =====
-- adsbus/receive.c: a connection that delivers messages. The table of parsers and `send_write` are
-- parameters: what they promise is in `Parser/Laws` and in `Receive/Read`.
pub mod Autodetect
pub mod Close
pub mod Loop
pub mod Read
use adsb_tools.Prelude.{
  ℕ, zero, suc, ◌+◌, Bool, not, true, false, Option, none, some, List, [], ◌∷◌, replicate, ltb,
  ◌==◌, ◌++◌, if◌then◌else◌, Run, ok, abort, ◌>>=◌, Ssize, minus_one, size,
}
use adsb_tools.Buf.{Buf, buf_fill, buf_len_max}
use adsb_tools.Packet.{Packet, PacketType, Stat, MlatState, type_none, u32, is_message}
use adsb_tools.Os.{Os}
use adsb_tools.Peer.{Peer, World, epollin, list_without, peer_epoll_add, peer_close, peer_call}
use adsb_tools.Parser.{ParserState, Parsed, parsed, Parser}

-- `struct receive`, less its place in the list; `on_close` is the handler of the peer that it points
-- to. The parser is `none` as long as `parser_wrapper` is `receive_autodetect_parse`.
pub record Receive : Type 0 where
  pub peer : Peer
  pub on_close : Option (World → Run World)
  pub stat : Stat
  pub id : List ℕ
  pub buf : Buf
  pub parser_state : ParserState
  pub parser : Option Parser

-- What the connections share: `ref_count` of the world is `peer_count_in`, which `receive_flow`
-- names, and `receive_head` is the list of all connections, by the addresses of their peers.
pub record Receives : Type 0 where
  pub world : World
  pub receive_head : List ℕ

-- `peer_count_in++` and `peer_count_in--`
abbrev pub count_in : ℕ → World → World
count_in step w = record w { ref_count = u32 (w.ref_count + step) }

-- `struct packet packet = { .source_id = …, .input_stat = … }`
abbrev pub fresh_packet : Receive → Packet
fresh_packet r = record {
  source_id = some r.id;
  input_stat = r.stat;
  type = type_none;
  hops = 0;
  payload = replicate 14 0;
  mlat_timestamp = 0;
  rssi = 0;
}

-- The loop of `receive_autodetect_parse`: what the parser left, and which one found a message.
unfoldable pub autodetect_loop :
    List Parser → Packet → Buf → Packet → ParserState → Run (Parsed × Option Parser)
autodetect_loop [] original buf packet state = ok (parsed false buf packet state, none)
autodetect_loop (parse ∷ []) original buf packet state = do
  r ← parse buf packet state
  ok (r, if r.found then some parse else none)
autodetect_loop (parse ∷ next ∷ others) original buf packet state = parse buf packet state >>= λ r.
    elim r.found [
      | true ↦ ok (r, some parse)
      | false ↦ autodetect_loop (next ∷ others) original r.buf original r.state
    ]

unfoldable pub receive_autodetect_parse :
    List Parser → Buf → Packet → ParserState → Run (Parsed × Option Parser)
unfolding autodetect_loop
receive_autodetect_parse parsers buf packet state = autodetect_loop parsers packet buf packet state

-- The call through `parser_wrapper`, with the parser that is set after it.
unfoldable pub parser_wrapper :
    List Parser → Option Parser → Buf → Packet → ParserState → Run (Parsed × Option Parser)
parser_wrapper parsers none buf packet state = receive_autodetect_parse parsers buf packet state
parser_wrapper parsers (some parse) buf packet state = do
  r ← parse buf packet state
  ok (r, some parse)

-- `shutdown` is `peer_shutdown_flag`.
unfoldable pub receive_del : Os → Bool → Receive → Receives → Run Receives
receive_del os shutdown r s = do
  closed ← peer_close os r.peer (count_in 0xffff_ffff s.world)
  w1 ← peer_call shutdown r.on_close closed.1
  ok (record { world = w1; receive_head = list_without r.peer.self s.receive_head })

-- What becomes of a message that was found.
module _ {W : Type 0} (send_write : Packet → W → Run W) (receive_max_hops : ℕ) where
  unfoldable pub receive_forward : Packet → W → Run W
  receive_forward packet w =
      let counted = record packet { hops = u32 (packet.hops + 1) } in
      let sent = send_write counted w in
      if not (is_message packet.type)
      then ok w
      else if ltb receive_max_hops counted.hops
      then ok w
      else sent

  -- The `while` loop of `receive_read`. It ends with `abort` if the rounds given do not suffice.
  unfoldable pub receive_loop : List Parser → ℕ → Receive → W → Run (Receive × W)
  receive_loop parsers zero r w = abort
  receive_loop parsers (suc rounds) r w = elim (r.buf.length == 0) [
    | true ↦ ok (r, w)
    | false ↦ parser_wrapper parsers r.parser r.buf (fresh_packet r) r.parser_state >>= λ out.
        let r' = record r { buf = out.0.buf; parser_state = out.0.state; parser = out.1 } in
        elim out.0.found [
          | false ↦ ok (r', w)
          | true ↦ receive_forward out.0.packet w >>= λ w'. receive_loop parsers rounds r' w'
        ]
  ]

  -- `receive_read`; `none` is a connection that `receive_del` has closed.
  unfoldable pub receive_read :
      Os
      → Bool
      → List Parser
      → (ℕ → Option (List ℕ))
      → Receive
      → W
      → Receives
      → Run (Option Receive × W × Receives)
  receive_read os shutdown parsers read r w s = buf_fill read r.buf >>= λ filled. elim filled.0 [
    | minus_one ↦ receive_del os shutdown r s >>= λ s1. ok (none, w, s1)
    | size n ↦ elim n [
      | zero ↦ receive_del os shutdown r s >>= λ s1. ok (none, w, s1)
      | suc m ↦
          receive_loop parsers (suc filled.1.length) (record r { buf = filled.1 }) w >>= λ done.
          let closed = (receive_del os shutdown done.0 s >>= λ s1. ok (none, done.1, s1)) in
          if done.0.buf.length == buf_len_max then closed else ok (some done.0, done.1, s)
    ]
  ]

-- The members that `receive_new` sets: the identifier comes from `uuid_gen`, the array of the buffer
-- and the rest of the peer are what `malloc` delivered.
unfoldable pub fresh_receive :
    Peer → ℕ → Option (World → Run World) → List ℕ → Stat → List ℕ → Receive
fresh_receive allocated fd on_close id stat bytes = record {
  peer = record allocated { fd = some fd };
  on_close = on_close;
  stat = stat;
  id = id;
  buf = record { bytes = bytes; start = 0; length = 0 };
  parser_state = record {
    mlat_state = record { timestamp_last = 0; timestamp_generation = 0 };
    mlat_timestamp_mhz = 0;
    mlat_timestamp_max = 0;
    rssi_max = 0;
    have_header = false;
  };
  parser = none;
}

-- The status comes from `fstat`, if that succeeds.
unfoldable pub receive_new :
    Os
    → Peer
    → ℕ
    → Option (World → Run World)
    → List ℕ
    → Option Stat
    → List ℕ
    → Receives
    → Run (Receive × Receives)
receive_new os allocated fd on_close id got bytes s = elim got [
  | none ↦ abort
  | some stat ↦ do
    let r = fresh_receive allocated fd on_close id stat bytes
    added ← peer_epoll_add os r.peer epollin (count_in 1 s.world)
    let head = s.receive_head ++ allocated.self ∷ []
    ok (record r { peer = added.0 }, record { world = added.1; receive_head = head })
]
