-- ===== src/Receive/Autodetect.antt =====
-- The choice of a parser keeps the promise that each of the parsers gives.
use adsb_tools.Prelude.{
  ◌<◌, ◌≡◌, refl, ◌∙◌, Bool, true, false, Option, none, some, List, [], ◌∷◌, All, if◌then◌else◌,
  Run, ok, Bool-cases, inl, inr,
}
use adsb_tools.Buf.{Buf}
use adsb_tools.Buf.Window.{IsValid}
use adsb_tools.Packet.{Packet}
use adsb_tools.Parser.{ParserState, Parsed, parsed, Parser}
use adsb_tools.Parser.Laws.{IsWellFormed, IsReady, IsServed, Promises}
use adsb_tools.Receive.{autodetect_loop, receive_autodetect_parse, parser_wrapper}

-- A parser that may be unknown still.
abbrev pub MayPromise : Option Parser → Type 0
MayPromise none = Unit {0}
MayPromise (some parse) = Promises parse

-- What a call through the wrapper leaves.
pub record IsChosen (b : Buf) (p : Packet) (m : Run (Parsed × Option Parser)) : Type 0 where
  pub run : Run Parsed
  pub sound : IsServed b p run
  pub choice : Option Parser
  pub returns : m ≡ ok (sound.result, choice)
  pub promising : MayPromise choice

restart :
    {b b' : Buf} {p p' : Packet} {m : Run (Parsed × Option Parser)}
    → b' ≡ b
    → p'.input_stat ≡ p.input_stat
    → IsChosen b' p' m
    → IsChosen b p m
restart {b} {b'} {p} {p'} e same c = record {
  run = c.run;
  choice = c.choice;
  returns = c.returns;
  sound = record {
    result = c.sound.result;
    done = c.sound.done;
    valid = c.sound.valid;
    shorter = λ h. rw (← e) (c.sound.shorter h);
    kept = λ h. c.sound.kept h ∙ e;
    well_formed = c.sound.well_formed;
    same_input = λ h. c.sound.same_input h ∙ same;
    ready = c.sound.ready;
  };
  promising = c.promising;
}

if_some : (t : Bool) (parse : Parser) → Promises parse → MayPromise (if t then some parse else none)
if_some true parse h = h
if_some false parse h = tt

autodetect_loop-IsChosen :
    (parsers : List Parser) (original : Packet) (b : Buf) (p : Packet) (s : ParserState)
    → All Promises parsers
    → IsValid b
    → 0 < b.length
    → IsWellFormed original
    → IsWellFormed p
    → p.input_stat ≡ original.input_stat
    → IsReady s
    → IsChosen b original (autodetect_loop parsers original b p s)
unfolding autodetect_loop
autodetect_loop-IsChosen [] original b p s all v pos wo w same ready = record {
  run = ok (parsed false b p s);
  choice = none;
  returns = refl;
  sound = record {
    result = parsed false b p s;
    done = refl;
    valid = v;
    shorter = λ h. cc;
    kept = λ _. refl;
    well_formed = λ h. cc;
    same_input = λ h. cc;
    ready = ready;
  };
  promising = tt;
}
autodetect_loop-IsChosen (parse ∷ []) original b p s all v pos wo w same ready =
    let h = all.0 b p s v pos w ready in
    restart refl same (record {
      run = parse b p s;
      choice = if h.result.found then some parse else none;
      returns = rw h.done;
      sound = h;
      promising = if_some h.result.found parse all.0;
    })
autodetect_loop-IsChosen (parse ∷ next ∷ others) original b p s all v pos wo w same ready =
    let h = all.0 b p s v pos w ready in
    elim (Bool-cases h.result.found) [
      | inl e ↦ restart refl same (record {
        run = parse b p s;
        choice = some parse;
        returns = simp (h.done, e);
        sound = h;
        promising = all.0;
      })
      | inr e ↦
          let later =
            autodetect_loop-IsChosen (next ∷ others) original h.result.buf original h.result.state
              all.1 h.valid (rw (h.kept e) pos) wo wo refl h.ready in
          restart (h.kept e) refl (record {
            run = later.run;
            choice = later.choice;
            returns = simp (h.done, e) later.returns;
            sound = later.sound;
            promising = later.promising;
          })
    ]

-- The call through the wrapper: with no parser known, and with the one that was found before.
pub parser_wrapper-IsChosen :
    (parsers : List Parser) (known : Option Parser) (b : Buf) (p : Packet) (s : ParserState)
    → All Promises parsers
    → MayPromise known
    → IsValid b
    → 0 < b.length
    → IsWellFormed p
    → IsReady s
    → IsChosen b p (parser_wrapper parsers known b p s)
unfolding parser_wrapper receive_autodetect_parse
parser_wrapper-IsChosen parsers none b p s all may v pos w ready =
    autodetect_loop-IsChosen parsers p b p s all v pos w w refl ready
parser_wrapper-IsChosen parsers (some parse) b p s all may v pos w ready =
    let h = may b p s v pos w ready in
    record {
      run = parse b p s;
      choice = some parse;
      returns = rw h.done;
      sound = h;
      promising = may;
    }
