-- ===== src/Links/Distinct.antt =====
-- Lists without repetitions, around an entry.
use adsb_tools.Prelude.{ℕ, ◌≢◌, sym, List, [], ◌∷◌, ◌++◌, All}
use adsb_tools.Links.Chain.{Distinct, last}

module _ {A : Type 0} where
  pub All-map : {P Q : A → Type 0} → ((x : A) → P x → Q x) → (xs : List A) → All P xs → All Q xs
  All-map f [] h = tt
  All-map f (x ∷ xs) h = (f x h.0, All-map f xs h.1)

  pub All-both :
      {P Q R : A → Type 0}
      → ((x : A) → P x → Q x → R x)
      → (xs : List A) → All P xs
      → All Q xs
      → All R xs
  All-both f [] h k = tt
  All-both f (x ∷ xs) h k = (f x h.0 k.0, All-both f xs h.1 k.1)

-- An entry that is not in a list.
abbrev pub Misses : ℕ → List ℕ → Type 0
Misses a xs = All (λ y. a ≢ y) xs

Misses-append : (a : ℕ) (xs ys : List ℕ) → Misses a xs → Misses a ys → Misses a (xs ++ ys)
Misses-append a [] ys h k = k
Misses-append a (x ∷ xs) ys h k = (h.0, Misses-append a xs ys h.1 k)

pub Misses-front : (a : ℕ) (xs ys : List ℕ) → Misses a (xs ++ ys) → Misses a xs
Misses-front a [] ys h = tt
Misses-front a (x ∷ xs) ys h = (h.0, Misses-front a xs ys h.1)

Misses-back : (a : ℕ) (xs ys : List ℕ) → Misses a (xs ++ ys) → Misses a ys
Misses-back a [] ys h = h
Misses-back a (x ∷ xs) ys h = Misses-back a xs ys h.1

pub Distinct-append :
    (xs : List ℕ) (e : ℕ) → Distinct xs → All (λ y. e ≢ y) xs → Distinct (xs ++ (e ∷ []))
Distinct-append [] e d h = (tt, tt)
Distinct-append (x ∷ xs) e d h =
    (Misses-append x xs (e ∷ []) d.0 ((λ s. h.0 (sym s)), tt), Distinct-append xs e d.1 h.1)

-- The entries in front of `e`, and those behind it.
pub record Apart (zs : List ℕ) (e : ℕ) (ys : List ℕ) : Type 0 where
  pub front : Distinct zs
  pub back : Distinct ys
  pub front_e : All (λ z. e ≢ z) zs
  pub back_e : All (λ y. e ≢ y) ys
  pub across : All (λ z. All (λ y. z ≢ y) ys) zs
  pub without : Distinct (zs ++ ys)

pub Distinct-Apart : (zs : List ℕ) (e : ℕ) (ys : List ℕ) → Distinct (zs ++ (e ∷ ys)) → Apart zs e ys
Distinct-Apart [] e ys d = record {
  front = tt;
  back = d.1;
  front_e = tt;
  back_e = d.0;
  across = tt;
  without = d.1;
}
Distinct-Apart (z ∷ zs) e ys d =
    let rest = Distinct-Apart zs e ys d.1 in
    let ahead = Misses-front z zs (e ∷ ys) d.0 in
    let behind = Misses-back z zs (e ∷ ys) d.0 in
    record {
      front = (ahead, rest.front);
      back = rest.back;
      front_e = ((λ s. behind.0 (sym s)), rest.front_e);
      back_e = rest.back_e;
      across = (behind.1, rest.across);
      without = (Misses-append z zs ys ahead behind.1, rest.without);
    }

pub last-All : (P : ℕ → Type 0) (a : ℕ) (xs : List ℕ) → All P (a ∷ xs) → P (last a xs)
last-All P a [] h = h.0
last-All P a (x ∷ xs) h = last-All P x xs h.1
