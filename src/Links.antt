-- ===== src/Links.antt =====
-- adsbus/list.h and adsbus/list.c: linked lists through the structures that are listed. The store maps
-- the address of a `struct list_head` to its two members; NULL is 0.
pub mod Chain
pub mod Distinct
pub mod Refines
pub mod Sequence
use adsb_tools.Prelude.{ℕ, zero, suc, Bool, Option, none, some, List, [], ◌∷◌, ◌==◌, if◌then◌else◌}

-- The members of every `struct list_head`.
pub record Links : Type 0 where
  pub next : ℕ → ℕ
  pub prev : ℕ → ℕ

-- `p->next = v` and `p->prev = v`.
abbrev pub set_next : ℕ → ℕ → Links → Links
set_next p v l = record l { next = λ y. if y == p then v else l.next y }

abbrev pub set_prev : ℕ → ℕ → Links → Links
set_prev p v l = record l { prev = λ y. if y == p then v else l.prev y }

unfoldable pub list_head_init : ℕ → Links → Links
list_head_init head l = set_next head head (set_prev head head l)

unfoldable pub list_is_empty : ℕ → Links → Bool
list_is_empty head l = l.next head == head

unfoldable pub list_add : ℕ → ℕ → Links → Links
list_add new head l =
    let l1 = set_next new head l in
    let l2 = set_prev new (l1.prev head) l1 in
    let l3 = set_next (l2.prev new) new l2 in set_prev head new l3

unfoldable pub list_del : ℕ → Links → Links
list_del entry l =
    let l1 = set_prev (l.next entry) (l.prev entry) l in
    let l2 = set_next (l1.prev entry) (l1.next entry) l1 in set_prev entry 0 (set_next entry 0 l2)

-- `list_for_each_entry` from `pos` on, with the addresses that it visits; `none` when the rounds are
-- used up before the head is reached.
unfoldable pub list_for_each : ℕ → ℕ → ℕ → Links → Option (List ℕ)
list_for_each zero pos head l = none
list_for_each (suc rounds) pos head l =
    let rest = list_for_each rounds (l.next pos) head l in
    if pos == head then some [] else (elim rest [ none ↦ none | some xs ↦ some (pos ∷ xs) ])

-- `list_for_each_entry_safe` from `pos` on, with `n` read before the body runs on the entry.
unfoldable pub list_for_each_safe : (ℕ → Links → Links) → ℕ → ℕ → ℕ → ℕ → Links → Option Links
list_for_each_safe body zero pos n head l = none
list_for_each_safe body (suc rounds) pos n head l =
    let l1 = body pos l in
    let rest = list_for_each_safe body rounds n (l1.next n) head l1 in
    if pos == head then some l else rest
