-- ===== src/Opts.antt =====
-- adsbus/opts.c: the parts of an option's argument. A string is its characters, without the terminator.
pub mod Split
use adsb_tools.Prelude.{ℕ, Option, none, some, List, [], ◌∷◌, ◌==◌, if◌then◌else◌}

-- The text before the first delimiter, and what `*arg` points to afterwards.
unfoldable pub opts_split : List ℕ → ℕ → Option (List ℕ × List ℕ)
opts_split [] delim = none
opts_split (c ∷ arg) delim =
    let later = opts_split arg delim in
    if c == delim
    then some ([], arg)
    else (elim later [ none ↦ none | some s ↦ some (c ∷ s.0, s.1) ])
