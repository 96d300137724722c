-- ===== src/Json/Promise.antt =====
-- `json_parse` keeps the promise of a parser, if the library reports positions in the text.
use adsb_tools.Prelude.{
  ℕ, ◌≤◌, ◌<◌, ◌≡◌, refl, true, some, List, length, take, arith, Bool-cases, Option-cases, inl, inr,
  length-take,
}
use adsb_tools.Buf.{Buf, buf_at}
use adsb_tools.Buf.Window.{IsValid}
use adsb_tools.Packet.{Packet}
use adsb_tools.Parser.{ParserState, parsed}
use adsb_tools.Parser.Laws.{IsWellFormed, IsReady, IsServed}
use adsb_tools.Json.Library.{Jansson}
use adsb_tools.Json.{json_parse}
use adsb_tools.Parser.Fill.{rejected}
use adsb_tools.Json.Fill.{json_parse_by-IsFilled}
use adsb_tools.Json.Lines.{json_taken-IsShorter}

module _ {J : Type 0} (lib : Jansson J) (server_id : List ℕ) where
  -- For a valid buffer that holds something, a well-formed packet, a state that is fit for
  -- scaling, and a library that reports where the object that it read ends, behind its start and
  -- within the text: `json_parse` fails no `assert`; after success a byte at least is consumed
  -- and the packet is well formed, whatever the object holds; after a failure nothing is
  -- consumed; the buffer stays valid, and the state fit for scaling.
  pub json_parse-IsServed :
      ((text : List ℕ) (input : J) (n : ℕ)
        → lib.loadb text ≡ some (input, n)
        → (0 < n) × (n ≤ length text))
      → (b : Buf) (p : Packet) (s : ParserState) → IsValid b
      → 0 < b.length
      → IsWellFormed p
      → IsReady s
      → IsServed b p (json_parse lib server_id b p s)
  unfolding json_parse
  json_parse-IsServed placed b p s v holds w ready =
      elim (Option-cases (lib.loadb (take b.length (buf_at b 0)))) [
        | inl e ↦ simp (json_parse, e) (rejected b p p s v refl ready)
        | inr ((input, n), e) ↦ elim (Option-cases (lib.type_of input)) [
          | inl untyped ↦ simp (json_parse, e, untyped) (rejected b p p s v refl ready)
          | inr (type_str, typed) ↦
              let h = json_parse_by-IsFilled lib server_id type_str input p s w ready in
              elim (Bool-cases h.result.found) [
                | inr missed ↦
                    simp (json_parse, e, typed, h.done, missed)
                      (rejected b p h.result.packet h.result.state v h.same_input h.ready)
                | inl found ↦
                    let at = placed (take b.length (buf_at b 0)) input n e in
                    let (left, taken, valid, shorter) =
                      json_taken-IsShorter n b v at.0
                        (omega (arith, at.1, length-take b.length (buf_at b 0))) in
                    record {
                      result = parsed true left h.result.packet h.result.state;
                      done = simp (json_parse, e, typed, h.done, found, taken);
                      valid = valid;
                      shorter = λ _. shorter;
                      kept = λ x. cc;
                      well_formed = λ _. h.well_formed found;
                      same_input = λ _. h.same_input;
                      ready = h.ready;
                    }
              ]
        ]
      ]
