-- ===== src/Lib.antt =====
-- adsbus, the hub for aircraft transponder messages in adsbus/: it reads messages in several formats
-- from sockets, files and programs, and writes each to every consumer in the consumer's format.
--
-- The parts. A connection that delivers messages (adsbus/receive.c) fills a buffer (adsbus/buf.c)
-- from its descriptor and calls a parser on it until the parser finds no further message. The parser
-- is one of a table (adsbus/raw.c, adsbus/beast.c, adsbus/airspy_adsb.c, adsbus/json.c, adsbus/proto.c), found by
-- trying each until one succeeds. A parser fills in a packet (adsbus/packet.c), scaling the source's units to common ones
-- and decoding hexadecimal digits (adsbus/hex.c). The packet goes to `send_write` unless it has made
-- too many hops, which writes it in each consumer's format (adsbus/send.c).
-- The descriptors come from sockets that the program connects (adsbus/outgoing.c) or listens on
-- (adsbus/incoming.c); each is a peer of the event loop (adsbus/peer.c), retries by timers
-- (adsbus/wakeup.c) and hands connected sockets to a flow (adsbus/flow.c).
--
-- The files.
--   Prelude, Prelude/*: lists over the native numbers, Boolean tests, and `Run`, the result of code
--     that stops the process when an `assert` fails.
--   Buf: `struct buf` and its operations; Buf/Window: the unread bytes, `contents`, as a list.
--   Bits: masks and shifts as arithmetic.
--   Packet: `struct packet`, the scaling functions, the test of identifiers, `packet_sanity_check`.
--   Hex: the tables and the four conversions; Hex/Digits, Hex/RoundTrip and
--     Hex/Accepted.
--   Parser: what a parser takes and returns, and the state that a connection keeps for it;
--     Parser/Laws: what receive.c asks of a parser, whatever its format (`IsServed`), and what the
--     parsers without a library keep (`IsSound`).
--   Raw, Beast, Airspy: the parser and the serializer of these formats; Promise, in each: the parser
--     on every buffer; RoundTrip, in the first two, with the text that the serializer writes.
--   Json: the parser of JSON objects; Json/Library: what is used of the jansson library;
--     Json/Fill, Json/Lines, Json/Promise: the parser on every buffer; Json/Write: the serializer;
--     Json/Text: what it leaves in the buffer.
--   Proto: the parser and the serializer of protocol buffers; Proto/Message: the messages and what is
--     used of the protobuf-c library; Proto/Varint and Proto/Wire: the length of a
--     message; Proto/Promise: the parser on every buffer; Proto/Writing: what the serializer asks of
--     the library; Proto/RoundTrip: what is written is read.
--   Send: `struct send`, the table's entries and `send_write`, as a trace of `write` and `shutdown`;
--     Send/Delivery: who gets what; Send/Echo: what the source of a message gets.
--   Hub: the tables of receive.c and send.c; Hub/Delivery: the path from a producer to the consumers.
--   Receive: `struct receive`, the choice of a parser, `receive_read`, the creation and the release of
--     a connection; Receive/Autodetect, Receive/Loop, Receive/Close, Receive/Read: the steps
--     of a call.
--   Os: the system calls, as a trace and the answers to it; Os/Ledger: which descriptors are held,
--     read off the trace, and what the program relies on in the calls.
--   Peer: adsbus/peer.c; Flow: adsbus/flow.c, and the socket options that it sets. Wakeup/Timer: the
--     timers of adsbus/wakeup.c. Keeps, in each: what a call does to the descriptors that are held.
--   Outgoing, Incoming: the handlers of adsbus/outgoing.c and adsbus/incoming.c; Tidy, in each: the
--     states that they leave; Life: a structure from its creation on; Incoming/Stale: what a failure
--     to bind leaves; Outgoing/Reconnect: the way back to a connection.
--   Files: adsbus/file.c; Files/Life: a file from its creation on, and what is opened again.
--   SendReceive: adsbus/send_receive.c; SendReceive/Halves: when the whole connection is closed.
--   Links: adsbus/list.c over a store of pointers; Links/Chain, Links/Distinct, Links/Refines: the
--     pointers hold a list; Links/Sequence: sequences of calls.
--   Stats, Stats/Counts: the counters of adsbus/stats.c and what they have counted.
--   Rand: the buffer of random bytes; Rand/Reuse: which bytes the requests deliver.
--   Uuid, Uuid/Form: the identifiers of connections. Wakeup, Wakeup/Delay: the delay before a retry.
--   Opts, Opts/Split: the parts of an option's argument.
--   Tests: runs at fixed inputs.
--
-- How the code is rendered. A structure is a record and an array is a list of bytes with its whole
-- length; a pointer into the buffer is an offset. A parser that writes through its arguments returns
-- them. Integers are natural numbers with the wrap-around of their width written out where a result
-- can reach it. A failed `assert` and a division by zero are `abort`. `read`, `write`,
-- the parsers that receive.c chooses from and `send_write` are arguments of the code that calls them.
--
-- Bounds. The buffer has 256 bytes. The loop of `receive_read` is given one round more than the
-- buffer has bytes, which suffices since every message takes a byte at least; the loop of
-- `beast_unescape` has as many rounds as its input has bytes.
--
-- Not modelled: system calls, the code generated for protocol buffers, name resolution, programs
-- and standard streams, logging, and most of the command line.
pub mod Prelude
pub mod Buf
pub mod Bits
pub mod Packet
pub mod Hex
pub mod Parser
pub mod Raw
pub mod Beast
pub mod Airspy
pub mod Json
pub mod Send
pub mod Receive
pub mod Hub
pub mod Rand
pub mod Uuid
pub mod Wakeup
pub mod Opts
pub mod Proto
pub mod Os
pub mod Peer
pub mod Flow
pub mod Outgoing
pub mod Incoming
pub mod Links
pub mod Stats
pub mod Files
pub mod SendReceive
pub mod Tests
