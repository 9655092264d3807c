-- ===== src/Simi/Insert.antt =====
-- `set_add` of jni/simi.c: the invariant of a set, and what one more entry does to it.
use memdump.Base.{
  ℕ, ◌≡◌, refl, sym, ap, ◌∙◌, true, [], ◌∷◌, Bool-cases, inl, inr, arith, tests, ltb, length,
}
use mathlib.Core.Path.{subst}
use memdump.RbTree.{Data, Tree, leaf, node, plug, RbTree, values, is_null_link}
use memdump.Simi.{Set, set_init, find_link, set_add}
use memdump.Simi.Order.{
  IsSorted, insert_after, IsSorted-middle, insert_after-IsSorted, insert_after-append_left,
  insert_after-append_right, length-insert_after,
}

-- The tree is coloured as the library wants it, its values are in order, and `size` counts them.
pub record IsValid ⦃rb : RbTree⦄ (s : Set) : Type 0 where
  pub coloured : rb.is_rb s.root ≡ true
  pub ordered : IsSorted (values s.root)
  pub counted : s.size ≡ length (values s.root)

-- The link that is found holds NULL.
find_link_null : (t : Tree) (v : ℕ) → is_null_link (find_link t v) t ≡ true
unfolding find_link
find_link_null leaf v = refl
find_link_null (node c l d r) v = ground (arith, find_link_null l v, find_link_null r v)

values-plug :
    (t u : Tree) (v : ℕ)
    → IsSorted (values t)
    → values u ≡ v ∷ []
    → values (plug (find_link t v) u t) ≡ insert_after v (values t)
unfolding find_link
values-plug leaf u v h e = e
values-plug (node c l d r) u v h e =
    let (front, below, above, back) = IsSorted-middle (values l) d.v (values r) h in
    elim (Bool-cases (ltb v d.v)) [
      | inl lt ↦
          rw (lt, values-plug l u v front e)
            (sym (insert_after-append_left v d.v (values l) (values r) (omega tests)))
      | inr ge ↦
          rw (ge, values-plug r u v back e)
            (sym (insert_after-append_right v d.v (values l) (values r) below (ground arith)))
    ]

module _ ⦃rb : RbTree⦄ where
  pub set_init-IsValid : IsValid set_init
  unfolding set_init
  set_init-IsValid = record { coloured = rb.leaf_rb; ordered = tt; counted = refl }

  pub values-set_add :
      (s : Set) (d : Data)
      → IsValid s
      → values (set_add s d).root ≡ insert_after d.v (values s.root)
  unfolding set_add
  values-set_add s d h =
      rb.insert_values (find_link s.root d.v) d s.root h.coloured (find_link_null s.root d.v)
      ∙ values-plug s.root (rb.rb_link_node d) d.v h.ordered (rb.link_values d)

  -- Adding to a valid set leaves it valid, with the new value behind the values that are not
  -- greater than it, and the others as they were.
  pub set_add_lem :
      (s : Set) (d : Data)
      → IsValid s
      → IsValid (set_add s d) × (values (set_add s d).root ≡ insert_after d.v (values s.root))
  unfolding set_add
  set_add_lem s d h =
      let e = values-set_add s d h in
      (
        record {
          coloured =
              rb.insert_rb (find_link s.root d.v) d s.root h.coloured (find_link_null s.root d.v);
          ordered = subst IsSorted (sym e) (insert_after-IsSorted d.v (values s.root) h.ordered);
          counted = omega (
            arith,
            ap (length {0} {A = ℕ}) e,
            length-insert_after d.v (values s.root),
            h.counted,
          );
        },
        e,
      )
