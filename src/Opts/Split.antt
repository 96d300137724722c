-- ===== src/Opts/Split.antt =====
-- What `opts_split` finds.
use mathlib.Core.Logic.{◌↔◌}
use mathlib.Core.Path.{subst}
use adsb_tools.Prelude.{
  ℕ, ◌≡◌, refl, ap, ◌∙◌, false, Option, none, some, List, [], ◌∷◌, ◌++◌, ◌==◌, ==→eq, eq→==, All,
  Bool-cases, inl, inr,
}
use adsb_tools.Opts.{opts_split}

-- No character of the text is the delimiter.
abbrev pub IsFree : ℕ → List ℕ → Type 0
IsFree delim text = All (λ c. (c == delim) ≡ false) text

finds_split :
    (a b : List ℕ) (delim : ℕ) → IsFree delim a → opts_split (a ++ delim ∷ b) delim ≡ some (a, b)
unfolding opts_split
finds_split [] b delim h = let e = eq→== delim delim refl in simp (opts_split, e)
finds_split (c ∷ a) b delim h = simp (opts_split, h.0, finds_split a b delim h.1)

not_found : (arg : List ℕ) (delim : ℕ) → IsFree delim arg → opts_split arg delim ≡ none
unfolding opts_split
not_found [] delim h = refl
not_found (c ∷ arg) delim h = simp (opts_split, h.0, not_found arg delim h.1)

-- What a result says of the argument.
abbrev Describes : ℕ → List ℕ → Option (List ℕ × List ℕ) → Type 0
Describes delim arg none = IsFree delim arg
Describes delim arg (some (a, b)) = (arg ≡ a ++ delim ∷ b) × IsFree delim a

one_more :
    (c : ℕ) (arg : List ℕ) (delim : ℕ) (o : Option (List ℕ × List ℕ))
    → (c == delim) ≡ false
    → Describes delim arg o
    → Describes delim (c ∷ arg) (elim o [ none ↦ none | some s ↦ some (c ∷ s.0, s.1) ])
one_more c arg delim none e h = (e, h)
one_more c arg delim (some (a, b)) e h = (ap (λ (l : List ℕ). c ∷ l) h.0, (e, h.1))

opts_split-Describes : (arg : List ℕ) (delim : ℕ) → Describes delim arg (opts_split arg delim)
unfolding opts_split
opts_split-Describes [] delim = tt
opts_split-Describes (c ∷ arg) delim = elim (Bool-cases (c == delim)) [
  | inl e ↦ rw (opts_split, e) (ap (λ (d : ℕ). d ∷ arg) (==→eq c delim e), tt)
  | inr e ↦
      rw (opts_split, e)
        (one_more c arg delim (opts_split arg delim) e (opts_split-Describes arg delim))
]

-- `opts_split` returns the texts `a` and `b` exactly when the argument is `a`, the delimiter and `b`, and
-- the delimiter is not in `a`; and it fails exactly when the delimiter is not in the argument.
pub opts_split_iff :
    (arg a b : List ℕ) (delim : ℕ)
    → ((opts_split arg delim ≡ some (a, b)) ↔ ((arg ≡ a ++ delim ∷ b) × IsFree delim a))
      × ((opts_split arg delim ≡ none) ↔ IsFree delim arg)
opts_split_iff arg a b delim = (
  (
    λ h. subst (Describes delim arg) h (opts_split-Describes arg delim),
    λ h. ap (λ (l : List ℕ). opts_split l delim) h.0 ∙ finds_split a b delim h.1,
  ),
  (λ h. subst (Describes delim arg) h (opts_split-Describes arg delim), not_found arg delim),
)
