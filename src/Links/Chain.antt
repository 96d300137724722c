-- ===== src/Links/Chain.antt =====
-- Chains of entries, which point to each other in both directions.
use adsb_tools.Prelude.{ℕ, ◌≡◌, ◌≢◌, ◌∙◌, List, [], ◌∷◌, ◌++◌, All}
use adsb_tools.Links.{Links}

-- From `a` through the entries to `b`.
abbrev pub Chain : Links → ℕ → List ℕ → ℕ → Type 0
Chain l a [] b = (l.next a ≡ b) × (l.prev b ≡ a)
Chain l a (x ∷ xs) b = (l.next a ≡ x) × (l.prev x ≡ a) × Chain l x xs b

abbrev pub Distinct : List ℕ → Type 0
Distinct [] = Unit {0}
Distinct (x ∷ xs) = All (λ y. x ≢ y) xs × Distinct xs

-- The last entry, or `a` where there is none.
abbrev pub last : ℕ → List ℕ → ℕ
last a [] = a
last a (x ∷ xs) = last x xs

pub last_differs : (a x : ℕ) (xs : List ℕ) → All (λ y. a ≢ y) (x ∷ xs) → a ≢ last x xs
last_differs a x [] h = h.0
last_differs a x (y ∷ xs) h = last_differs a y xs h.1

-- The pointer back from the end leads to the last entry.
pub prev-last : (l : Links) (a : ℕ) (xs : List ℕ) (b : ℕ) → Chain l a xs b → l.prev b ≡ last a xs
prev-last l a [] b h = h.1
prev-last l a (x ∷ xs) b h = prev-last l x xs b h.2

-- A chain that ends elsewhere: only the last entry points forth to another end.
pub Chain-retarget :
    (l l' : Links) (a : ℕ) (xs : List ℕ) (b c : ℕ)
    → Chain l a xs b
    → Distinct (a ∷ xs)
    → All (λ y. y ≢ last a xs → l'.next y ≡ l.next y) (a ∷ xs)
    → All (λ y. l'.prev y ≡ l.prev y) xs
    → l'.next (last a xs) ≡ c
    → l'.prev c ≡ last a xs
    → Chain l' a xs c
Chain-retarget l l' a [] b c h d nexts prevs forth back = (forth, back)
Chain-retarget l l' a (x ∷ xs) b c h d nexts prevs forth back = (
  nexts.0 (last_differs a x xs d.0) ∙ h.0,
  prevs.0 ∙ h.1,
  Chain-retarget l l' x xs b c h.2 d.1 nexts.1 prevs.1 forth back,
)

-- A chain that the changes leave alone.
pub Chain-frame :
    (l l' : Links) (a : ℕ) (xs : List ℕ) (b : ℕ)
    → Chain l a xs b
    → All (λ y. l'.next y ≡ l.next y) (a ∷ xs)
    → All (λ y. l'.prev y ≡ l.prev y) xs
    → l'.prev b ≡ l.prev b
    → Chain l' a xs b
Chain-frame l l' a [] b h nexts prevs back = (nexts.0 ∙ h.0, back ∙ h.1)
Chain-frame l l' a (x ∷ xs) b h nexts prevs back =
    (nexts.0 ∙ h.0, prevs.0 ∙ h.1, Chain-frame l l' x xs b h.2 nexts.1 prevs.1 back)

pub Chain-join :
    (l : Links) (a : ℕ) (xs : List ℕ) (e : ℕ) (ys : List ℕ) (b : ℕ)
    → Chain l a xs e
    → Chain l e ys b
    → Chain l a (xs ++ (e ∷ ys)) b
Chain-join l a [] e ys b h k = (h.0, h.1, k)
Chain-join l a (x ∷ xs) e ys b h k = (h.0, h.1, Chain-join l x xs e ys b h.2 k)

pub Chain-split :
    (l : Links) (a : ℕ) (xs : List ℕ) (e : ℕ) (ys : List ℕ) (b : ℕ)
    → Chain l a (xs ++ (e ∷ ys)) b
    → Chain l a xs e × Chain l e ys b
Chain-split l a [] e ys b h = ((h.0, h.1), h.2)
Chain-split l a (x ∷ xs) e ys b h =
    let rest = Chain-split l x xs e ys b h.2 in ((h.0, h.1, rest.0), rest.1)
