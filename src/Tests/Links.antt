-- ===== src/Tests/Links.antt =====
-- adsbus/list.c at fixed inputs: three structures and a head.
use adsb_tools.Prelude.{suc, ◌≡◌, refl, List, [], ◌∷◌, some, length, arith}
use adsb_tools.Links.{
  Links, list_head_init, list_is_empty, list_del, list_for_each, list_for_each_safe,
}
use adsb_tools.Links.Refines.{Represents, is_nil}
use adsb_tools.Links.Sequence.{
  Call, add, del, calls, on_lists, links_refine, list_for_each_safe-empties,
}

abbrev blank : Links
blank = record { next = λ p. 0; prev = λ p. 0 }

abbrev some_calls : List Call
some_calls = add 10 ∷ (add 20 ∷ (add 30 ∷ (del 20 ∷ [])))

abbrev after_calls : Links
after_calls = calls 5 some_calls (list_head_init 5 blank)

links_refine_example :
    Represents after_calls 5 (on_lists some_calls [])
    × (list_is_empty 5 after_calls ≡ is_nil (on_lists some_calls []))
    × (list_for_each (suc (length (on_lists some_calls []))) (after_calls.next 5) 5 after_calls
        ≡ some (on_lists some_calls []))
links_refine_example = links_refine 5 some_calls blank (
  ((λ e. omega (arith, e)), tt),
  (
    ((λ e. omega (arith, e)), ((λ e. omega (arith, e)), tt)),
    (
      ((λ e. omega (arith, e)), ((λ e. omega (arith, e)), ((λ e. omega (arith, e)), tt))),
      (refl, tt),
    ),
  ),
)

list_for_each_safe-empties_example :
    (l' : Links) × (list_for_each_safe list_del
        (suc (length (on_lists some_calls [])))
        (after_calls.next 5)
        (after_calls.next (after_calls.next 5))
        5
        after_calls
      ≡ some l')
    × Represents l' 5 []
list_for_each_safe-empties_example =
    list_for_each_safe-empties after_calls 5 (on_lists some_calls []) links_refine_example.0
