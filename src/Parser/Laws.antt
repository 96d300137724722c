-- ===== src/Parser/Laws.antt =====
-- What every parser promises to the code that calls it.
use adsb_tools.Prelude.{
  if◌then◌else◌, ℕ, ◌≤◌, ◌<◌, ◌≡◌, refl, ◌∙◌, List, Bool, true, false, length, Run, ok, ◌>>=◌,
  arith, inl, inr, Bool-cases,
}
use adsb_tools.Buf.{Buf, buf_consume, consumed}
use adsb_tools.Buf.Window.{IsValid, buf_consume-contents}
use adsb_tools.Packet.{
  Packet, PacketType, packet_validate_id, packet_mlat_max, packet_rssi_max, packet_payload_len_max,
}
use adsb_tools.Parser.{ParserState, Parsed, parsed, Parser, or_else}

-- A packet that passes the tests of `packet_sanity_check`, its type aside, and whose payload is the
-- whole array.
pub record IsWellFormed (p : Packet) : Type 0 where
  pub identified : packet_validate_id p.source_id ≡ true
  pub sized : length p.payload ≡ packet_payload_len_max
  pub timed : p.mlat_timestamp ≤ packet_mlat_max
  pub strength : p.rssi ≤ packet_rssi_max
  pub counted : p.hops < 65536

-- What a header leaves behind is fit for scaling.
pub record IsReady (s : ParserState) : Type 0 where
  pub mhz_pos : s.have_header ≡ true → 0 < s.mlat_timestamp_mhz
  pub rssi_pos : s.have_header ≡ true → 0 < s.rssi_max

-- A call on a buffer and a packet: it does not abort; success consumes a byte at least, and failure
-- nothing; the buffer stays valid, the packet well formed, its input as it was.
pub record IsSound (b : Buf) (p : Packet) (m : Run Parsed) : Type 0 where
  pub result : Parsed
  pub done : m ≡ ok result
  pub valid : IsValid result.buf
  pub shorter : result.found ≡ true → result.buf.length < b.length
  pub kept : result.found ≡ false → result.buf ≡ b
  pub well_formed : IsWellFormed result.packet
  pub same_input : result.packet.input_stat ≡ p.input_stat
  pub ready : IsReady result.state

-- The same, less what a caller does not use after a failure: the packet.
pub record IsServed (b : Buf) (p : Packet) (m : Run Parsed) : Type 0 where
  pub result : Parsed
  pub done : m ≡ ok result
  pub valid : IsValid result.buf
  pub shorter : result.found ≡ true → result.buf.length < b.length
  pub kept : result.found ≡ false → result.buf ≡ b
  pub well_formed : result.found ≡ true → IsWellFormed result.packet
  pub same_input : result.found ≡ true → result.packet.input_stat ≡ p.input_stat
  pub ready : IsReady result.state

pub IsSound-IsServed : {b : Buf} {p : Packet} {m : Run Parsed} → IsSound b p m → IsServed b p m
IsSound-IsServed h = record {
  result = h.result;
  done = h.done;
  valid = h.valid;
  shorter = h.shorter;
  kept = h.kept;
  well_formed = λ _. h.well_formed;
  same_input = λ _. h.same_input;
  ready = h.ready;
}

-- What receive.c relies on, for every buffer that holds something.
abbrev pub Promises : Parser → Type 0
Promises parse =
    (b : Buf) (p : Packet) (s : ParserState)
    → IsValid b
    → 0 < b.length
    → IsWellFormed p
    → IsReady s
    → IsServed b p (parse b p s)

-- What the parts of a parser keep among themselves.
abbrev pub KeepsSound : Parser → Type 0
KeepsSound parse =
    (b : Buf) (p : Packet) (s : ParserState)
    → IsValid b
    → 0 < b.length
    → IsWellFormed p
    → IsReady s
    → IsSound b p (parse b p s)

pub IsWellFormed-payload :
    {p : Packet} (type : PacketType) (payload : List ℕ)
    → IsWellFormed p
    → length payload ≡ length p.payload
    → IsWellFormed (record p { type = type; payload = payload })
IsWellFormed-payload type payload w e = record {
  identified = w.identified;
  sized = e ∙ w.sized;
  timed = w.timed;
  strength = w.strength;
  counted = w.counted;
}

module _ (b : Buf) (p p' : Packet) (s : ParserState) (v : IsValid b) (w : IsWellFormed p')
    (same : p'.input_stat ≡ p.input_stat) (r : IsReady s) where
  -- The two ways in which a parser returns.
  pub rejected-IsSound : IsSound b p (ok (parsed false b p' s))
  rejected-IsSound = record {
    result = parsed false b p' s;
    done = refl;
    valid = v;
    shorter = λ x. cc;
    kept = λ _. refl;
    well_formed = w;
    same_input = same;
    ready = r;
  }

  pub taken-IsSound :
      (n : ℕ)
      → n ≤ b.length
      → 0 < n
      → IsSound b p (buf_consume b n >>= λ b'. ok (parsed true b' p' s))
  taken-IsSound n fits pos =
      let eaten = buf_consume-contents b n v fits in
      record {
        result = parsed true (consumed b n) p' s;
        done = rw eaten.0;
        valid = eaten.1;
        shorter = λ _. omega (arith, eaten.3);
        kept = λ x. cc;
        well_formed = w;
        same_input = same;
        ready = r;
      }

-- The promise passes through `||`.
pub or_else-IsSound :
    {b : Buf} {p : Packet} {m : Run Parsed} (next : Parser)
    → 0 < b.length
    → IsSound b p m
    → KeepsSound next
    → IsSound b p (or_else m next)
or_else-IsSound {b} {p} {m} next pos first promise = elim (Bool-cases first.result.found) [
  | inl e ↦ record {
    result = first.result;
    done = simp (first.done, e);
    valid = first.valid;
    shorter = first.shorter;
    kept = first.kept;
    well_formed = first.well_formed;
    same_input = first.same_input;
    ready = first.ready;
  }
  | inr e ↦
      let r = first.result in
      let same = first.kept e in
      let second =
        promise r.buf r.packet r.state first.valid (rw same pos) first.well_formed first.ready in
      record {
        result = second.result;
        done = simp (first.done, e) second.done;
        valid = second.valid;
        shorter = λ h. rw (← same) (second.shorter h);
        kept = λ h. second.kept h ∙ same;
        well_formed = second.well_formed;
        same_input = second.same_input ∙ first.same_input;
        ready = second.ready;
      }
]

-- A test between two ways to go on.
pub branch-IsSound :
    {b : Buf} {p : Packet} {m n : Run Parsed} (t : Bool)
    → IsSound b p m
    → IsSound b p n
    → IsSound b p (if t then m else n)
branch-IsSound true h k = h
branch-IsSound false h k = k
