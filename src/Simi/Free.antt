-- ===== src/Simi/Free.antt =====
-- `set_free` of jni/simi.c: the loop ends with the tree empty, each entry erased and freed once.
use mathlib.Core.List.{Perm, perm_middle}
use mathlib.Core.List.Perm
use memdump.Base.{
  ℕ, zero, suc, ◌≤◌, ◌≡◌, refl, ap, true, List, [], ◌∷◌, ◌++◌, arith, length, ok, append-nil,
  append_assoc, length-append,
}
use memdump.RbTree.{Tree, leaf, node, RbTree, values}
use memdump.RbTree.Walk.{nodes, length-values}
use memdump.Simi.{Set, set_free, free_nodes}
use memdump.Simi.Insert.{IsValid}

root_last : (v : ℕ) (xs ys out : List ℕ) → Perm ((v ∷ out) ++ (xs ++ ys)) (out ++ (xs ++ (v ∷ ys)))
root_last v xs ys out =
    rw (← append_assoc out xs (v ∷ ys), ← append_assoc out xs ys)
      (Perm.symm (perm_middle (out ++ xs) ys))

module _ ⦃rb : RbTree⦄ where
  free_nodes_lem :
      (fuel : ℕ) (t : Tree) (out : List ℕ)
      → rb.is_rb t ≡ true
      → nodes t ≤ fuel
      → (freed : List ℕ) × (free_nodes fuel t out ≡ ok (leaf, freed)) × Perm freed (out ++ values t)
  unfolding free_nodes
  free_nodes_lem fuel leaf out h fits = (out, refl, rw append-nil (Perm.refl out))
  free_nodes_lem zero (node c l d r) out h fits = absurd (omega arith)
  free_nodes_lem (suc fuel) (node c l d r) out h fits =
      let t' = rb.rb_erase [] (node c l d r) in
      let e : values t' ≡ values l ++ values r = rb.erase_values [] (node c l d r) h refl in
      let smaller : nodes t' ≤ fuel = omega (
        arith,
        length-values t',
        ap (length {0} {A = ℕ}) e,
        length-append {0} (values l) (values r),
        length-values l,
        length-values r,
      ) in
      let (freed, runs, perm) =
        free_nodes_lem fuel t' (d.v ∷ out) (rb.erase_rb [] (node c l d r) h refl) smaller in
      (freed, runs, Perm.trans perm (rw e (root_last d.v (values l) (values r) out)))

  -- `set_free` of a valid set ends with no node left, and frees each entry exactly once.
  pub set_free_lem :
      (s : Set)
      → IsValid s
      → (freed : List ℕ) × (set_free s ≡ ok (leaf, freed)) × Perm freed (values s.root)
  unfolding set_free
  set_free_lem s h = free_nodes_lem (nodes s.root) s.root [] h.coloured (omega arith)
