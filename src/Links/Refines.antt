-- ===== src/Links/Refines.antt =====
-- The pointers of adsbus/list.c hold a list, and its functions are those of lists.
use adsb_tools.Prelude.{
  ℕ, zero, suc, ◌<◌, ◌≡◌, ◌≢◌, refl, sym, ◌∙◌, Bool, true, false, some, List, [], ◌∷◌, ◌++◌, All,
  length, append-nil, ◌==◌, if◌then◌else◌, arith, eq→==, ne→==,
}
use adsb_tools.Links.{Links, list_head_init, list_is_empty, list_add, list_del, list_for_each}
use adsb_tools.Links.Chain.{
  Chain, Distinct, last, prev-last, Chain-retarget, Chain-frame, Chain-join, Chain-split,
}
use adsb_tools.Links.Distinct.{
  All-map, All-both, Distinct-append, Distinct-Apart, Apart, last-All, Misses,
}

-- The entries of the list at `head`, in order.
pub record Represents (l : Links) (head : ℕ) (xs : List ℕ) : Type 0 where
  pub chain : Chain l head xs head
  pub distinct : Distinct (head ∷ xs)

module _ (new head : ℕ) (l : Links) where
  list_add-next :
      (y : ℕ)
      → (list_add new head l).next y
        ≡ (if y == l.prev head then new else if y == new then head else l.next y)
  unfolding list_add
  list_add-next y = simp (list_add, eq→== new new refl)

  list_add-prev :
      (y : ℕ)
      → (list_add new head l).prev y
        ≡ (if y == head then new else if y == new then l.prev head else l.prev y)
  unfolding list_add
  list_add-prev y = refl

module _ (e : ℕ) (l : Links) (h : e ≢ l.next e) where
  pub list_del-next :
      (y : ℕ)
      → (list_del e l).next y ≡ (if y == e then 0 else if y == l.prev e then l.next e else l.next y)
  unfolding list_del
  list_del-next y = simp (list_del, ne→== e (l.next e) h)

  list_del-prev :
      (y : ℕ)
      → (list_del e l).prev y ≡ (if y == e then 0 else if y == l.next e then l.prev e else l.prev y)
  unfolding list_del
  list_del-prev y = refl

-- What is in no list so far comes to its end.
pub list_add-Represents :
    (l : Links) (head : ℕ) (xs : List ℕ) (new : ℕ)
    → Represents l head xs
    → Misses new (head ∷ xs)
    → Represents (list_add new head l) head (xs ++ (new ∷ []))
list_add-Represents l head xs new r fresh =
    let l' = list_add new head l in
    let p = last head xs in
    let at_p : l.prev head ≡ p = prev-last l head xs head r.chain in
    let new_p : new ≢ p = last-All (λ y. new ≢ y) head xs fresh in
    record {
      chain =
          Chain-join l' head xs new [] head
            (Chain-retarget l l' head xs head new r.chain r.distinct
              (All-map
                (λ y miss other.
                  list_add-next new head l y
                  ∙ simp (at_p, ne→== y p other, ne→== y new (λ s. miss (sym s))))
                (head ∷ xs) fresh)
              (All-both
                (λ y miss miss'.
                  list_add-prev new head l y
                  ∙ simp (ne→== y head (λ s. miss (sym s)), ne→== y new (λ s. miss' (sym s))))
                xs r.distinct.0 fresh.1)
              (list_add-next new head l p ∙ simp (at_p, eq→== p p refl))
              (list_add-prev new head l new
                ∙ simp (ne→== new head fresh.0, eq→== new new refl, at_p)))
            (
              list_add-next new head l new ∙ simp (at_p, ne→== new p new_p, eq→== new new refl),
              list_add-prev new head l head ∙ simp (eq→== head head refl),
            );
      distinct = Distinct-append (head ∷ xs) new r.distinct fresh;
    }

-- An entry taken out, from between those in front of it and those behind it.
module _ (l : Links) (head : ℕ) (xs : List ℕ) (e : ℕ) (ys : List ℕ)
    (r : Represents l head (xs ++ (e ∷ ys))) where
  parts : Chain l head xs e × Chain l e ys head
  parts = Chain-split l head xs e ys head r.chain

  apart : Apart (head ∷ xs) e ys
  apart = Distinct-Apart (head ∷ xs) e ys r.distinct

  before : l.prev e ≡ last head xs
  before = prev-last l head xs e parts.0

  -- The chain in front of the entry comes to lead to what follows it.
  front-Chain : (c : ℕ) → l.next e ≡ c → e ≢ c → Misses c xs → Chain (list_del e l) head xs c
  front-Chain c after other misses =
      let p = last head xs in
      let skip : e ≢ l.next e = λ s. other (s ∙ after) in
      let e_p : e ≢ p = last-All (λ y. e ≢ y) head xs apart.front_e in
      Chain-retarget l (list_del e l) head xs e c parts.0 apart.front
        (All-map
          (λ y miss differs.
            list_del-next e l skip y
            ∙ simp (ne→== y e (λ s. miss (sym s)), before, ne→== y p differs))
          (head ∷ xs) apart.front_e)
        (All-both
          (λ y miss miss'.
            list_del-prev e l skip y
            ∙ simp (ne→== y e (λ s. miss (sym s)), after, ne→== y c (λ s. miss' (sym s))))
          xs apart.front_e.1 misses)
        (list_del-next e l skip p
          ∙ simp (ne→== p e (λ s. e_p (sym s)), before, eq→== p p refl, after))
        (list_del-prev e l skip c
          ∙ simp (ne→== c e (λ s. other (sym s)), after, eq→== c c refl, before))

flip-Misses : (y : ℕ) (zs : List ℕ) → All (λ z. z ≢ y) zs → Misses y zs
flip-Misses y zs h = All-map (λ z differs s. differs (sym s)) zs h

-- The entries behind `y` are not affected.
back-Chain :
    (l : Links) (head : ℕ) (xs : List ℕ) (e y : ℕ) (ys : List ℕ)
    → Represents l head (xs ++ (e ∷ (y ∷ ys)))
    → Chain (list_del e l) y ys head
back-Chain l head xs e y ys r =
    let apart = Distinct-Apart (head ∷ xs) e (y ∷ ys) r.distinct in
    let parts = Chain-split l head xs e (y ∷ ys) head r.chain in
    let after : l.next e ≡ y = parts.1.0 in
    let p = last head xs in
    let before : l.prev e ≡ p = prev-last l head xs e parts.0 in
    let skip : e ≢ l.next e = λ s. apart.back_e.0 (s ∙ after) in
    let p_misses : Misses p (y ∷ ys) = last-All (λ z. Misses z (y ∷ ys)) head xs apart.across in
    Chain-frame l (list_del e l) y ys head parts.1.2
      (All-both
        (λ z miss miss'.
          list_del-next e l skip z
          ∙ simp (ne→== z e (λ s. miss (sym s)), before, ne→== z p (λ s. miss' (sym s))))
        (y ∷ ys) apart.back_e p_misses)
      (All-both
        (λ z miss miss'.
          list_del-prev e l skip z
          ∙ simp (ne→== z e (λ s. miss (sym s)), after, ne→== z y (λ s. miss' (sym s))))
        ys apart.back_e.1 apart.back.0)
      (list_del-prev e l skip head
        ∙ simp (ne→== head e (λ s. apart.front_e.0 (sym s)), after, ne→== head y apart.across.0.0))

pub list_del-Represents :
    (l : Links) (head : ℕ) (xs : List ℕ) (e : ℕ) (ys : List ℕ)
    → Represents l head (xs ++ (e ∷ ys))
    → Represents (list_del e l) head (xs ++ ys)
list_del-Represents l head xs e [] r =
    let apart = Distinct-Apart (head ∷ xs) e [] r.distinct in
    let parts = Chain-split l head xs e [] head r.chain in
    record {
      chain =
          rw (append-nil xs)
            (front-Chain l head xs e [] r head parts.1.0 apart.front_e.0 apart.front.0);
      distinct = apart.without;
    }
list_del-Represents l head xs e (y ∷ ys) r =
    let apart = Distinct-Apart (head ∷ xs) e (y ∷ ys) r.distinct in
    let parts = Chain-split l head xs e (y ∷ ys) head r.chain in
    let misses : Misses y xs = flip-Misses y xs (All-map (λ z h. h.0) xs apart.across.1) in
    record {
      chain =
          Chain-join (list_del e l) head xs y ys head
            (front-Chain l head xs e (y ∷ ys) r y parts.1.0 apart.back_e.0 misses)
            (back-Chain l head xs e y ys r);
      distinct = apart.without;
    }

pub list_head_init-Represents : (l : Links) (head : ℕ) → Represents (list_head_init head l) head []
unfolding list_head_init
list_head_init-Represents l head = record {
  chain =
      (simp (list_head_init, eq→== head head refl), simp (list_head_init, eq→== head head refl));
  distinct = (tt, tt);
}

abbrev pub is_nil : List ℕ → Bool
is_nil [] = true
is_nil (x ∷ xs) = false

pub list_is_empty-is_nil :
    (l : Links) (head : ℕ) (xs : List ℕ) → Represents l head xs → list_is_empty head l ≡ is_nil xs
unfolding list_is_empty
list_is_empty-is_nil l head [] r = eq→== (l.next head) head r.chain.0
list_is_empty-is_nil l head (x ∷ xs) r =
    ne→== (l.next head) head (λ s. r.distinct.0.0 (sym s ∙ r.chain.0))

-- The visits of `list_for_each_entry`, from an entry to the end.
pub for_each_from :
    (l : Links) (head a : ℕ) (xs : List ℕ) (rounds : ℕ)
    → Chain l a xs head
    → Misses head xs
    → length xs < rounds
    → list_for_each rounds (l.next a) head l ≡ some xs
unfolding list_for_each
for_each_from l head a xs zero c h enough = absurd (omega arith)
for_each_from l head a [] (suc rounds) c h enough = simp (list_for_each, eq→== (l.next a) head c.0)
for_each_from l head a (x ∷ xs) (suc rounds) c h enough = simp (
  list_for_each,
  c.0,
  ne→== x head (λ s. h.0 (sym s)),
  for_each_from l head x xs rounds c.2 h.1 (omega arith),
)
