-- ===== src/Tests/Sets.antt =====
-- The multiset of jni/simi.c and the page hash of jni/mem.c.
use mathlib.Core.List.{Perm}
use memdump.Base.{
  ℕ, ◌+◌, ◌≡◌, ◌≢◌, ◌==◌, ◌||◌, refl, List, [], ◌∷◌, ok, arith, if◌then◌else◌, fault,
}
use memdump.RbTree.{Data, leaf, values}
use memdump.RbTree.Plain.{plain}
use memdump.Simi.{
  Set, set_init, set_add, set_in, set_found_in, set_jaccard, set_free, set_print, set_first,
  set_size, data_init, count_in, count_out, value_of, set_next,
}
use memdump.Simi.Order.{insert_after}
use memdump.Simi.Insert.{IsValid, set_add_lem, set_init-IsValid}
use memdump.Simi.Search.{set_in-set_add}
use memdump.Simi.Free.{set_free_lem}
use memdump.Simi.Clients.{
  Call, new, add_to, ask, size_of, print_of, walk_of, compare_found, compare_jaccard, answers, bags,
  sets_of_simi,
}
use mathlib.Core.Equiv.{IsEquiv}
use memdump.Simi.Bag
use memdump.Simi.Shown.{bag_shown, shown_of, bag_shown-IsEquiv}
use memdump.Simi.Refine.{answers_of_simi}
use memdump.Simi.Canonical.{add_all, add_all-IsValid}
use memdump.Base.{suc}
use memdump.Base.Loop.{fold_run, for_each}
use memdump.RbTree.Walk.{nodes, entries}
use memdump.Simi.Cursor.{do_while_next, do_while_next_lem}
use memdump.Mem.Hash.{page_hash, hash_byte, hash_end}
use memdump.Mem.Hash.Laws.{page_hash_tells}

abbrev datum : ℕ → Data
datum v = record { v = v }

-- {a, b, b} and {b, b, c}, as in the comment on `set_jaccard`.
abbrev abb : List Data
abb = datum 2 ∷ datum 1 ∷ datum 2 ∷ []

abbrev bbc : List Data
bbc = datum 2 ∷ datum 3 ∷ datum 2 ∷ []

abbrev left_set : Set
left_set = add_all abb set_init

abbrev right_set : Set
right_set = add_all bbc set_init

left_set-IsValid : IsValid left_set
left_set-IsValid = add_all-IsValid abb set_init set_init-IsValid

right_set-IsValid : IsValid right_set
right_set-IsValid = add_all-IsValid bbc set_init set_init-IsValid

-- The two examples of the comments in simi.h.
jaccard_run : set_jaccard left_set right_set ≡ ok (2, 4)
unfolding set_jaccard set_add set_init
jaccard_run = refl

found_in_run : set_found_in left_set right_set ≡ ok 2
unfolding set_found_in set_add set_init
found_in_run = refl

print_run : set_print left_set ≡ ok (1 ∷ 2 ∷ 2 ∷ [])
unfolding set_print set_add set_init
print_run = refl

-- The hash of the single byte 1, computed by hand from the C code.
hash_run : page_hash (1 ∷ []) 1 ≡ ok 0x124e_a49d
unfolding page_hash hash_byte hash_end for_each
hash_run = refl

set_add_lem_example :
    IsValid (set_add left_set (datum 5))
    × (values (set_add left_set (datum 5)).root ≡ insert_after 5 (values left_set.root))
set_add_lem_example = set_add_lem left_set (datum 5) left_set-IsValid

set_in-set_add_example :
    set_in (set_add left_set (datum 5)) (datum 2) ≡ ((5 == 2) || set_in left_set (datum 2))
set_in-set_add_example = set_in-set_add left_set (datum 5) (datum 2) left_set-IsValid

set_free_lem_example :
    (freed : List ℕ) × (set_free left_set ≡ ok (leaf, freed)) × Perm freed (values left_set.root)
set_free_lem_example = set_free_lem left_set left_set-IsValid

bag_shown-IsEquiv_example :
    IsEquiv bag_shown
    × (bag_shown (shown_of set_init set_init-IsValid) ≡ Bag.empty)
    × (bag_shown (
          shown_of
            (set_add left_set (data_init 7))
            (set_add_lem left_set (data_init 7) left_set-IsValid).0)
        ≡ Bag.put 7 (bag_shown (shown_of left_set left_set-IsValid)))
bag_shown-IsEquiv_example = bag_shown-IsEquiv left_set 7 left_set-IsValid

page_hash_tells_example : page_hash (0 ∷ 1 ∷ 0 ∷ []) 3 ≢ page_hash (0 ∷ 2 ∷ 0 ∷ []) 3
page_hash_tells_example =
    page_hash_tells (0 ∷ []) (0 ∷ []) 1 2 (omega arith) (omega arith) (omega arith)

do_while_next_lem_example :
    do_while_next left_set
      (λ (d : Data) (n : ℕ). ok (n + d.v))
      (suc (nodes left_set.root))
      (set_first left_set)
      0
    ≡ (if nodes left_set.root == 0
        then fault
        else fold_run (λ (d : Data) (n : ℕ). ok (n + d.v)) (entries left_set.root) 0)
do_while_next_lem_example = do_while_next_lem left_set (λ (d : Data) (n : ℕ). ok (n + d.v)) 0

-- {1, 2, 2} and {2, 2}, as in jni/simi_test.c.
abbrev calls : List Call
calls =
    new
    ∷ add_to 0 1
    ∷ add_to 0 2
    ∷ add_to 0 2
    ∷ new
    ∷ add_to 1 2
    ∷ add_to 1 2
    ∷ ask 1 1
    ∷ size_of 0
    ∷ compare_found 0 1
    ∷ compare_jaccard 0 1
    ∷ print_of 0
    ∷ walk_of 1
    ∷ []

answers_of_simi_example : answers sets_of_simi calls [] ≡ answers bags calls []
answers_of_simi_example = answers_of_simi calls

calls_run : answers sets_of_simi calls [] ≡ ok (0 ∷ 3 ∷ 2 ∷ 2 ∷ 3 ∷ 1 ∷ 2 ∷ 2 ∷ 2 ∷ 2 ∷ [])
unfolding set_add set_init set_in set_found_in set_jaccard set_size set_print data_init count_in
    count_out do_while_next value_of set_first set_next
calls_run = refl
