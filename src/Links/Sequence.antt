-- ===== src/Links/Sequence.antt =====
-- Sequences of calls of adsbus/list.c, against the same calls on a list.
use adsb_tools.Prelude.{
  ℕ, suc, ◌≡◌, ◌≢◌, refl, sym, ◌∙◌, ap, Bool, true, false, some, List, [], ◌∷◌, ◌++◌, length, ◌==◌,
  ◌||◌, if◌then◌else◌, arith, Bool-cases, inl, inr, eq→==, ne→==, ==→eq,
}
use adsb_tools.Links.{
  Links, list_head_init, list_is_empty, list_add, list_del, list_for_each, list_for_each_safe,
}
use adsb_tools.Links.Chain.{Chain}
use adsb_tools.Links.Distinct.{Misses}
use adsb_tools.Links.Refines.{
  Represents, is_nil, list_add-Represents, list_del-Represents, list_head_init-Represents,
  list_is_empty-is_nil, for_each_from, list_del-next,
}

pub data Call : Type 0 where
  add del : ℕ → Call

abbrev pub call : ℕ → Call → Links → Links
call head (add x) l = list_add x head l
call head (del x) l = list_del x l

pub calls : ℕ → List Call → Links → Links
calls head [] l = l
calls head (c ∷ cs) l = calls head cs (call head c l)

-- The same on a list: what is added comes to the end.
abbrev pub remove : ℕ → List ℕ → List ℕ
remove x [] = []
remove x (y ∷ ys) = let rest = remove x ys in if x == y then ys else y ∷ rest

abbrev pub contains : ℕ → List ℕ → Bool
contains x [] = false
contains x (y ∷ ys) = let rest = contains x ys in x == y || rest

abbrev pub on_list : Call → List ℕ → List ℕ
on_list (add x) xs = xs ++ (x ∷ [])
on_list (del x) xs = remove x xs

pub on_lists : List Call → List ℕ → List ℕ
on_lists [] xs = xs
on_lists (c ∷ cs) xs = on_lists cs (on_list c xs)

-- What is added is not listed and not the head, and what is taken out is listed.
abbrev Allowed : ℕ → Call → List ℕ → Type 0
Allowed head (add x) xs = Misses x (head ∷ xs)
Allowed head (del x) xs = contains x xs ≡ true

abbrev pub AllAllowed : ℕ → List Call → List ℕ → Type 0
AllAllowed head [] xs = Unit {0}
AllAllowed head (c ∷ cs) xs = Allowed head c xs × AllAllowed head cs (on_list c xs)

-- The entries in front of one that is listed, and those behind it.
record Listed (x : ℕ) (xs : List ℕ) : Type 0 where
  pub front : List ℕ
  pub back : List ℕ
  pub whole : xs ≡ front ++ (x ∷ back)
  pub removed : remove x xs ≡ front ++ back

contains-Listed : (x : ℕ) (xs : List ℕ) → contains x xs ≡ true → Listed x xs
contains-Listed x [] h = cc
contains-Listed x (y ∷ ys) h = elim (Bool-cases (x == y)) [
  | inl e ↦ record {
    front = [];
    back = ys;
    whole = ap (λ (t : ℕ). t ∷ ys) (sym (==→eq x y e));
    removed = simp e;
  }
  | inr e ↦
      let rest = contains-Listed x ys (simp e at h) in
      record {
        front = y ∷ rest.front;
        back = rest.back;
        whole = ap (λ (t : List ℕ). y ∷ t) rest.whole;
        removed = simp e (ap (λ (t : List ℕ). y ∷ t) rest.removed);
      }
]

call-Represents :
    (head : ℕ) (c : Call) (l : Links) (xs : List ℕ)
    → Represents l head xs
    → Allowed head c xs
    → Represents (call head c l) head (on_list c xs)
call-Represents head (add x) l xs r h = list_add-Represents l head xs x r h
call-Represents head (del x) l xs r h =
    let at = contains-Listed x xs h in
    rw at.removed (list_del-Represents l head at.front x at.back (rw (← at.whole) r))

calls-Represents :
    (head : ℕ) (cs : List Call) (l : Links) (xs : List ℕ)
    → Represents l head xs
    → AllAllowed head cs xs
    → Represents (calls head cs l) head (on_lists cs xs)
unfolding calls on_lists
calls-Represents head [] l xs r h = r
calls-Represents head (c ∷ cs) l xs r h =
    calls-Represents head cs (call head c l) (on_list c xs) (call-Represents head c l xs r h.0) h.1

-- After `list_head_init` and any sequence of `list_add`, on what is not listed, and `list_del`, on
-- what is: the pointers form a ring in both directions through the entries of the list that results
-- from the same sequence on a list, where `list_add` appends; `list_is_empty` tells whether this
-- list is empty; and `list_for_each_entry` visits its entries in order, and then ends.
pub links_refine :
    (head : ℕ) (cs : List Call) (l : Links)
    → AllAllowed head cs []
    → Represents (calls head cs (list_head_init head l)) head (on_lists cs [])
      × (list_is_empty head (calls head cs (list_head_init head l)) ≡ is_nil (on_lists cs []))
      × (list_for_each
            (suc (length (on_lists cs [])))
            ((calls head cs (list_head_init head l)).next head)
            head
            (calls head cs (list_head_init head l))
          ≡ some (on_lists cs []))
links_refine head cs l h =
    let r =
      calls-Represents head cs (list_head_init head l) [] (list_head_init-Represents l head) h in
    let l' = calls head cs (list_head_init head l) in
    let xs = on_lists cs [] in
    (
      r,
      list_is_empty-is_nil l' head xs r,
      for_each_from l' head head xs (suc (length xs)) r.chain r.distinct.0 (omega arith),
    )

next_differs :
    (l : Links) (head x : ℕ) (xs : List ℕ)
    → Chain l x xs head
    → Misses x xs
    → head ≢ x
    → x ≢ l.next x
next_differs l head x [] c misses other s = other (sym (s ∙ c.0))
next_differs l head x (y ∷ ys) c misses other s = misses.0 (s ∙ c.0)

-- The clean-up loops of the program: `list_for_each_entry_safe` with `list_del` on every entry of a
-- list ends after one round for each entry and one more, and leaves the list empty.
pub list_for_each_safe-empties :
    (l : Links) (head : ℕ) (xs : List ℕ)
    → Represents l head xs
    → (l' : Links) × (list_for_each_safe list_del
          (suc (length xs))
          (l.next head)
          (l.next (l.next head))
          head
          l
        ≡ some l')
      × Represents l' head []
unfolding list_for_each_safe
list_for_each_safe-empties l head [] r =
    (l, simp (list_for_each_safe, eq→== (l.next head) head r.chain.0), r)
list_for_each_safe-empties l head (x ∷ xs) r =
    let at : l.next head ≡ x = r.chain.0 in
    let head_x : head ≢ x = r.distinct.0.0 in
    let at_x : Chain l x xs head = r.chain.2 in
    let l1 = list_del x l in
    let (l', done, empty) =
      list_for_each_safe-empties l1 head xs (list_del-Represents l head [] x xs r) in
    let follows : l1.next head ≡ l.next x =
      list_del-next x l (next_differs l head x xs at_x r.distinct.1.0 head_x) head
      ∙ simp (ne→== head x head_x, r.chain.1, eq→== head head refl) in
    (l', simp (list_for_each_safe, at, ne→== x head (λ s. head_x (sym s)), ← follows) done, empty)
