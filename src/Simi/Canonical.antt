-- ===== src/Simi/Canonical.antt =====
-- A set forgets the order in which its entries were added: its values in order depend only on how
-- often each value was added.
use memdump.Base.{Bool, ℕ, ◌+◌, ◌≡◌, ap, List, [], ◌∷◌, arith, count, count_if, ◌==◌}
use memdump.Base.Loop.{fold}
use memdump.RbTree.{Data, RbTree, values}
use memdump.Simi.{Set, set_add, set_init}
use memdump.Simi.Order.{sorted_ext, count_if-insert_after}
use memdump.Simi.Insert.{IsValid, set_init-IsValid, set_add_lem}

module _ ⦃rb : RbTree⦄ where
  -- The set that `set_add` makes from a list of entries.
  abbrev pub add_all : List Data → Set → Set
  add_all ds s = fold (λ d s. set_add s d) ds s

  pub add_all-IsValid : (ds : List Data) (s : Set) → IsValid s → IsValid (add_all ds s)
  add_all-IsValid [] s h = h
  add_all-IsValid (d ∷ ds) s h = add_all-IsValid ds (set_add s d) (set_add_lem s d h).0

  pub count_if-add_all :
      (q : ℕ → Bool) (ds : List Data) (s : Set)
      → IsValid s
      → count_if q (values (add_all ds s).root)
        ≡ count_if (λ (d : Data). q d.v) ds + count_if q (values s.root)
  count_if-add_all q [] s h = omega arith
  count_if-add_all q (d ∷ ds) s h =
      let (valid, added) = set_add_lem s d h in
      omega (
        arith,
        count_if-add_all q ds (set_add s d) valid,
        ap (count_if q) added,
        count_if-insert_after q d.v (values s.root),
      )

  pub count-add_all :
      (v : ℕ) (ds : List Data) (s : Set)
      → IsValid s
      → count v (values (add_all ds s).root)
        ≡ count_if (λ (d : Data). d.v == v) ds + count v (values s.root)
  count-add_all v = count_if-add_all (λ x. x == v)

module _ ⦃rb : RbTree⦄ where
  -- Two runs of additions to an empty set that add every value equally often end with the same
  -- values in the same order, whatever the order of the additions.
  pub add_all_canonical :
      (ds es : List Data)
      → ((v : ℕ) → count_if (λ (d : Data). d.v == v) ds ≡ count_if (λ (d : Data). d.v == v) es)
      → values (add_all ds set_init).root ≡ values (add_all es set_init).root
  add_all_canonical ds es same =
      let init = set_init-IsValid in
      sorted_ext _ _ (add_all-IsValid ds set_init init).ordered
        (add_all-IsValid es set_init init).ordered
        (λ v.
          omega (arith, count-add_all v ds set_init init, count-add_all v es set_init init, same v))
