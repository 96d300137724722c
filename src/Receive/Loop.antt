-- ===== src/Receive/Loop.antt =====
-- The loop of `receive_read` ends, keeps a connection sound and hands on sendable messages only.
use adsb_tools.Prelude.{
  ℕ, zero, suc, ◌+◌, ◌≤◌, ◌<◌, ◌≡◌, refl, ◌∙◌, true, false, Option, some, List, All, length, ltb,
  leb, ◌==◌, Run, ok, ◌>>=◌, arith, Bool-cases, inl, inr,
}
use adsb_tools.Buf.Window.{IsValid}
use adsb_tools.Packet.{
  Packet, Stat, packet_validate_id, packet_sanity_check, packet_mlat_max, packet_rssi_max,
  packet_payload_len_max, is_message, u32,
}
use adsb_tools.Parser.{Parsed, Parser}
use adsb_tools.Parser.Laws.{IsWellFormed, IsReady, Promises}
use adsb_tools.Peer.{Peer, World}
use adsb_tools.Receive.{Receive, fresh_packet, receive_forward, receive_loop}
use adsb_tools.Receive.Autodetect.{MayPromise, IsChosen, parser_wrapper-IsChosen}

-- What `send_write` is called with.
pub record IsSendable (stat : Stat) (max_hops : ℕ) (p : Packet) : Type 0 where
  pub sane : packet_sanity_check p ≡ ok tt
  pub whole : length p.payload ≡ packet_payload_len_max
  pub from : p.input_stat ≡ stat
  pub relayed : 0 < p.hops
  pub near : p.hops ≤ max_hops

-- A connection between two calls of `receive_read`.
pub record IsLive (stat : Stat) (r : Receive) : Type 0 where
  pub valid : IsValid r.buf
  pub identified : packet_validate_id (some r.id) ≡ true
  pub ready : IsReady r.parser_state
  pub known : MayPromise r.parser
  pub from : r.stat ≡ stat

-- The descriptor and the callback of a connection.
abbrev pub IsAttached : Peer → Option (World → Run World) → Receive → Type 0
IsAttached peer on_close r = (r.peer ≡ peer) × (r.on_close ≡ on_close)

fresh_packet-IsWellFormed :
    (r : Receive) → packet_validate_id (some r.id) ≡ true → IsWellFormed (fresh_packet r)
fresh_packet-IsWellFormed r h = record {
  identified = h;
  sized = refl;
  timed = ground arith;
  strength = ground arith;
  counted = ground arith;
}

counted_up-IsSendable :
    (p : Packet) {stat : Stat} (max_hops : ℕ)
    → IsWellFormed p
    → is_message p.type ≡ true
    → p.input_stat ≡ stat
    → ltb max_hops (u32 (p.hops + 1)) ≡ false
    → IsSendable stat max_hops (record p { hops = u32 (p.hops + 1) })
counted_up-IsSendable p max_hops h message from near =
    let timed_ok : leb p.mlat_timestamp packet_mlat_max ≡ true = ground (arith, h.timed) in
    let strong_ok : leb p.rssi packet_rssi_max ≡ true = ground (arith, h.strength) in
    record {
      sane = unfold packet_sanity_check in simp (h.identified, message, timed_ok, strong_ok);
      whole = h.sized;
      from = from;
      relayed = omega (arith, h.counted);
      near = ground (arith, near);
    }

module _ {W : Type 0} (send_write : Packet → W → Run W) (max_hops : ℕ) (stat : Stat)
    (Inv : W → Type 0)
    (keeps : (p : Packet) (w : W)
      → IsSendable stat max_hops p
      → Inv w
      → (w' : W) × (send_write p w ≡ ok w') × Inv w') where
  receive_forward-keeps :
      (p : Packet) (w : W)
      → IsWellFormed p
      → p.input_stat ≡ stat
      → Inv w
      → (w' : W) × (receive_forward send_write max_hops p w ≡ ok w') × Inv w'
  unfolding receive_forward
  receive_forward-keeps p w h from i = elim (Bool-cases (is_message p.type)) [
    | inr e ↦ (w, simp e, i)
    | inl e ↦ elim (Bool-cases (ltb max_hops (u32 (p.hops + 1)))) [
      | inl far ↦ (w, simp (e, far), i)
      | inr near ↦
          let sent =
            keeps (record p { hops = u32 (p.hops + 1) }) w
              (counted_up-IsSendable p max_hops h e from near) i in
          (sent.0, simp (e, near) sent.1, sent.2)
    ]
  ]

  -- The connection after a call of a parser.
  went_on :
      (r : Receive) {m : Run (Parsed × Option Parser)}
      → IsLive stat r
      → (c : IsChosen r.buf (fresh_packet r) m)
      → IsLive stat (record r {
        buf = c.sound.result.buf;
        parser_state = c.sound.result.state;
        parser = c.choice;
      })
  went_on r live c = record {
    valid = c.sound.valid;
    identified = live.identified;
    ready = c.sound.ready;
    known = c.promising;
    from = live.from;
  }

  pub record Finished (peer : Peer) (on_close : Option (World → Run World)) (m : Run (Receive × W))
      : Type 0 where
    pub after : Receive
    pub world : W
    pub returns : m ≡ ok (after, world)
    pub attached : IsAttached peer on_close after
    pub live : IsLive stat after
    pub held : Inv world

  -- What the loop does with the result of a parser.
  after_parse-Finished :
      (r : Receive) (w : W) {m : Run (Parsed × Option Parser)}
      (again : Receive → W → Run (Receive × W)) {peer : Peer}
      {on_close : Option (World → Run World)}
      → IsAttached peer on_close r
      → IsLive stat r
      → Inv w
      → IsChosen r.buf (fresh_packet r) m
      → ((r' : Receive) (w' : W)
          → r'.buf.length < r.buf.length
          → IsAttached peer on_close r'
          → IsLive stat r'
          → Inv w'
          → Finished peer on_close (again r' w'))
      → Finished peer on_close (
          m >>= λ out.
          let r' = record r { buf = out.0.buf; parser_state = out.0.state; parser = out.1 } in
          elim out.0.found [
            | false ↦ ok (r', w)
            | true ↦ receive_forward send_write max_hops out.0.packet w >>= λ w'. again r' w'
          ])
  after_parse-Finished r w again at live i c next = elim (Bool-cases c.sound.result.found) [
    | inl found ↦
        let from = c.sound.same_input found ∙ live.from in
        let sent =
          receive_forward-keeps c.sound.result.packet w (c.sound.well_formed found) from i in
        let r' = record r {
          buf = c.sound.result.buf;
          parser_state = c.sound.result.state;
          parser = c.choice;
        } in
        let rest = next r' sent.0 (c.sound.shorter found) at (went_on r live c) sent.2 in
        record {
          after = rest.after;
          world = rest.world;
          returns = simp (c.returns, found, sent.1) rest.returns;
          attached = rest.attached;
          live = rest.live;
          held = rest.held;
        }
    | inr missed ↦ record {
      after = record r {
        buf = c.sound.result.buf;
        parser_state = c.sound.result.state;
        parser = c.choice;
      };
      world = w;
      returns = simp (c.returns, missed);
      attached = at;
      live = went_on r live c;
      held = i;
    }
  ]

  pub receive_loop-Finished :
      (parsers : List Parser) (rounds : ℕ) (r : Receive) (w : W) {peer : Peer}
      {on_close : Option (World → Run World)}
      → All Promises parsers
      → r.buf.length < rounds
      → IsAttached peer on_close r
      → IsLive stat r
      → Inv w
      → Finished peer on_close (receive_loop send_write max_hops parsers rounds r w)
  unfolding receive_loop
  receive_loop-Finished parsers zero r w all h at live i = absurd (omega (arith, h))
  receive_loop-Finished parsers (suc rounds) r w all h at live i =
      elim (Bool-cases (r.buf.length == 0)) [
        | inl empty ↦ record {
          after = r;
          world = w;
          returns = simp (receive_loop, empty);
          attached = at;
          live = live;
          held = i;
        }
        | inr some_left ↦
            let go_on =
              after_parse-Finished r w (receive_loop send_write max_hops parsers rounds) at live i
                (parser_wrapper-IsChosen parsers r.parser r.buf (fresh_packet r) r.parser_state all
                  live.known live.valid (ground (arith, some_left))
                  (fresh_packet-IsWellFormed r live.identified) live.ready)
                (λ r' w' shorter at' live' i'.
                  receive_loop-Finished parsers rounds r' w' all (omega (arith, h, shorter)) at'
                    live' i') in
            record {
              after = go_on.after;
              world = go_on.world;
              returns = simp (receive_loop, some_left) go_on.returns;
              attached = go_on.attached;
              live = go_on.live;
              held = go_on.held;
            }
      ]
