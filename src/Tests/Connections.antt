-- ===== src/Tests/Connections.antt =====
-- adsbus/receive.c at a fixed input: a new connection that delivers a message in the raw format.
use adsb_tools.Prelude.{
  ℕ, ◌≡◌, refl, ◌≤◌, none, some, Option, List, [], ◌∷◌, length, take, replicate, ok, arith, Run,
  All, length-take, inl, false,
}
use adsb_tools.Buf.{buf_zero, buf_fill}
use adsb_tools.Buf.Window.{IsValid, received}
use adsb_tools.Packet.{Packet, Stat, packet_validate_id}
use adsb_tools.Parser.{Parser}
use adsb_tools.Parser.Laws.{IsSound-IsServed, IsWellFormed, IsReady}
use adsb_tools.Receive.{Receive, Receives, fresh_receive, receive_read, receive_del, fresh_packet}
use adsb_tools.Receive.Close.{CanClose}
use adsb_tools.Os.{foreign, watched, closed, unwatched}
use adsb_tools.Peer.{peer_call, peer_close, peer_epoll_del, close_checked}
use adsb_tools.Tests.Sockets.{willing, start, allocated}
use adsb_tools.Receive.Loop.{IsSendable, IsLive}
use adsb_tools.Receive.Read.{IsOpen, Reason, receive_read-keeps}
use adsb_tools.Raw.{raw_parse}
use adsb_tools.Raw.Promise.{raw_parse-IsSound}
use adsb_tools.Beast.{beast_parse}
use adsb_tools.Beast.Promise.{beast_parse-IsSound}

abbrev pub socket_stat : Stat
socket_stat = record { st_dev = 8; st_ino = 77 }

abbrev pub new_connection : Receive
new_connection =
    fresh_receive allocated 7 (some (λ w. ok w)) (b'r' ∷ b'1' ∷ 0 ∷ []) socket_stat
      (replicate 256 0)

-- Its descriptor is registered, and it stands in the list with another one.
abbrev pub one_connection : Receives
one_connection = record {
  world = record start { trace = watched 7 1 ∷ foreign 7 ∷ []; ref_count = 2 };
  receive_head = 64 ∷ 4096 ∷ [];
}

pub one_connection-CanClose :
    CanClose willing false new_connection.peer new_connection.on_close one_connection
unfolding fresh_receive peer_call
one_connection-CanClose = record {
  fd = 7;
  named = refl;
  known = inl refl;
  open_there = refl;
  open_still = refl;
  returns = λ w. (w, refl);
}

pub zeros-IsValid : IsValid buf_zero
unfolding buf_zero
zeros-IsValid = record { whole = refl; inside = omega arith }

pub new_state-IsReady : IsReady new_connection.parser_state
unfolding fresh_receive
new_state-IsReady = record { mhz_pos = λ h. cc; rssi_pos = λ h. cc }

pub new_packet-IsWellFormed : IsWellFormed (fresh_packet new_connection)
unfolding fresh_receive packet_validate_id
new_packet-IsWellFormed = record {
  identified = refl;
  sized = refl;
  timed = omega arith;
  strength = omega arith;
  counted = omega arith;
}

pub new_connection-IsLive : IsLive socket_stat new_connection
unfolding fresh_receive packet_validate_id
new_connection-IsLive = record {
  valid = record { whole = refl; inside = omega arith };
  identified = refl;
  ready = new_state-IsReady;
  known = tt;
  from = refl;
}

abbrev pub line_in : ℕ → Option (List ℕ)
line_in n = some (take n (b'*' ∷ b'7' ∷ b'1' ∷ b'0' ∷ b'8' ∷ b';' ∷ b'\n' ∷ []))

pub line_in-fits : (n : ℕ) → length (received (line_in n)) ≤ n
line_in-fits n =
    ground (arith, length-take {A = ℕ} n (b'*' ∷ b'7' ∷ b'1' ∷ b'0' ∷ b'8' ∷ b';' ∷ b'\n' ∷ []))

-- A `send_write` that keeps a record of what it was given.
abbrev remember : Packet → List Packet → Run (List Packet)
remember p sent = ok (p ∷ sent)

abbrev AllSendable : List Packet → Type 0
AllSendable = All (IsSendable socket_stat 10)

abbrev two_parsers : List Parser
two_parsers = beast_parse ∷ raw_parse ∷ []

receive_read-keeps_example :
    (left : Option Receive) × (sent : List Packet) × (s : Receives) × (receive_read remember 10
        willing false two_parsers line_in new_connection [] one_connection
      ≡ ok (left, sent, s))
    × IsOpen false socket_stat new_connection one_connection left s
    × Reason remember 10 two_parsers line_in new_connection [] left sent
    × AllSendable sent
unfolding fresh_receive
receive_read-keeps_example =
    receive_read-keeps remember 10 socket_stat AllSendable
      (λ p sent ok_p all_p. (p ∷ sent, refl, (ok_p, all_p))) willing false two_parsers line_in
      new_connection [] one_connection one_connection-CanClose
      (
        λ b p s v pos w ready. IsSound-IsServed (beast_parse-IsSound b p s v pos w ready),
        (λ b p s v pos w ready. IsSound-IsServed (raw_parse-IsSound b p s v pos w ready), tt),
      )
      line_in-fits new_connection-IsLive (omega arith) tt

-- A connection at its end of file: it is closed, counted and taken out of the list.
closing :
    receive_read remember 10 willing false two_parsers
      (λ n. some [])
      new_connection
      []
      one_connection
    ≡ ok (
      none,
      [],
      record {
        world = record start {
          trace = closed 7 ∷ unwatched 7 ∷ watched 7 1 ∷ foreign 7 ∷ [];
          ref_count = 1;
        };
        receive_head = 64 ∷ [];
      },
    )
unfolding receive_read fresh_receive receive_del peer_close peer_epoll_del close_checked peer_call
    buf_fill
closing = refl
