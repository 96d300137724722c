-- ===== src/Parser/Fill.antt =====
-- What the parsers of messages with a header keep: those of adsbus/json.c and adsbus/proto.c, whose
-- parts fill in a packet and a state before anything is consumed.
use adsb_tools.Prelude.{
  ℕ, ◌*◌, ◌/◌, ◌≤◌, ◌<◌, ◌≡◌, refl, ◌∙◌, Bool, true, false, Run, ok, ◌>>=◌, arith, Bool-cases, inl,
  inr, if◌then◌else◌,
}
use adsb_tools.Buf.{Buf}
use adsb_tools.Buf.Window.{IsValid}
use adsb_tools.Packet.{Packet, packet_rssi_scale_in, packet_rssi_max, u32}
use adsb_tools.Parser.{ParserState, parsed, Filled, filled}
use adsb_tools.Parser.Laws.{IsWellFormed, IsReady, IsServed}

-- What a parser of one kind of message leaves of a packet and a state.
pub record IsFilled (p : Packet) (s : ParserState) (m : Run Filled) : Type 0 where
  pub result : Filled
  pub done : m ≡ ok result
  pub well_formed : result.found ≡ true → IsWellFormed result.packet
  pub same_input : result.packet.input_stat ≡ p.input_stat
  pub ready : IsReady result.state
  pub headed : s.have_header ≡ true → result.state.have_header ≡ true

pub refused :
    (p q : Packet) (s : ParserState)
    → q.input_stat ≡ p.input_stat
    → IsReady s
    → IsFilled p s (ok (filled false q s))
refused p q s same ready = record {
  result = filled false q s;
  done = refl;
  well_formed = λ h. cc;
  same_input = same;
  ready = ready;
  headed = λ h. h;
}

pub accepted :
    (p q : Packet) (s t : ParserState)
    → IsWellFormed q
    → q.input_stat ≡ p.input_stat
    → IsReady t
    → (s.have_header ≡ true → t.have_header ≡ true)
    → IsFilled p s (ok (filled true q t))
accepted p q s t w same ready headed = record {
  result = filled true q t;
  done = refl;
  well_formed = λ _. w;
  same_input = same;
  ready = ready;
  headed = headed;
}

-- A second part is tried only after a first that succeeded.
pub then_next :
    {p : Packet} {s : ParserState} {m : Run Filled} (f : Packet → ParserState → Run Filled)
    → IsFilled p s m
    → ((q : Packet) (t : ParserState)
        → IsWellFormed q
        → IsReady t
        → (s.have_header ≡ true → t.have_header ≡ true)
        → IsFilled q t (f q t))
    → IsFilled p s (m >>= λ r. if r.found then f r.packet r.state else ok r)
then_next {p} {s} f h next = elim (Bool-cases h.result.found) [
  | inl e ↦
      let k = next h.result.packet h.result.state (h.well_formed e) h.ready h.headed in
      record {
        result = k.result;
        done = simp (h.done, e) k.done;
        well_formed = k.well_formed;
        same_input = k.same_input ∙ h.same_input;
        ready = k.ready;
        headed = λ x. k.headed (h.headed x);
      }
  | inr e ↦ record {
    result = h.result;
    done = simp (h.done, e);
    well_formed = h.well_formed;
    same_input = h.same_input;
    ready = h.ready;
    headed = h.headed;
  }
]

pub branch :
    {p : Packet} {s : ParserState} {m n : Run Filled} (t : Bool)
    → IsFilled p s m
    → IsFilled p s n
    → IsFilled p s (if t then m else n)
branch true h k = h
branch false h k = k

-- The same, seen from another packet of the same input.
pub as_of :
    {p q : Packet} {s : ParserState} {m : Run Filled}
    → q.input_stat ≡ p.input_stat
    → IsFilled q s m
    → IsFilled p s m
as_of same h = record {
  result = h.result;
  done = h.done;
  well_formed = h.well_formed;
  same_input = h.same_input ∙ same;
  ready = h.ready;
  headed = h.headed;
}

pub rssi_in_bound :
    (v max : ℕ) → 0 < max → (r : ℕ) × (packet_rssi_scale_in v max ≡ ok r) × (r ≤ packet_rssi_max)
unfolding packet_rssi_scale_in
rssi_in_bound v max h = (u32 (v * (packet_rssi_max / max)), ground (arith, h), omega arith)

pub rejected :
    (b : Buf) (p q : Packet) (s : ParserState)
    → IsValid b
    → q.input_stat ≡ p.input_stat
    → IsReady s
    → IsServed b p (ok (parsed false b q s))
rejected b p q s v same ready = record {
  result = parsed false b q s;
  done = refl;
  valid = v;
  shorter = λ h. cc;
  kept = λ _. refl;
  well_formed = λ h. cc;
  same_input = λ _. same;
  ready = ready;
}
