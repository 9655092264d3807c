-- ===== src/Simi/Found.antt =====
-- The loops of jni/simi.c over a whole set: `set_found_in`, `set_jaccard` and `set_print`.
use mathlib.Core.Path.{fun_ext}
use native.Mathlib.Nat.{zero-add}
use memdump.Base.{
  ℕ, ◌+◌, ◌≡◌, refl, sym, ap, ◌∙◌, Bool, not, List, [], ◌∷◌, ◌++◌, map, Bool-cases, inl, inr, arith,
  if◌then◌else◌, length, mem, count_if, to_nat, length-map, Run, ok, append_assoc, append-nil,
}
use memdump.Base.Loop.{fold}
use memdump.Base.Loop.Laws.{fold_run_pure, fold_count, count_if-map}
use memdump.RbTree.{Data, Tree, RbTree, values}
use memdump.RbTree.Walk.{entries, for_nodes, for_nodes_lem, map-entries}
use memdump.Simi.{Set, set_in, set_found_in, set_jaccard, count_in, count_out, set_print}
use memdump.Simi.Insert.{IsValid}
use memdump.Simi.Search.{set_in-eq-mem}

module _ ⦃rb : RbTree⦄ where
  count_entries :
      (t : Tree) (p : Data → Bool) (q : ℕ → Bool)
      → ((d : Data) → p d ≡ q d.v)
      → count_if p (entries t) ≡ count_if q (values t)
  count_entries t p q h =
      ap (λ (r : Data → Bool). count_if r (entries t)) (fun_ext h)
      ∙ sym (count_if-map q (λ (d : Data). d.v) (entries t))
      ∙ ap (count_if q) (map-entries t)

  for_nodes_pure {ℓ} :
      {S : Type ℓ} (t : Tree) (f : Data → S → Run S) (g : Data → S → S) (s : S)
      → ((d : Data) (s : S) → f d s ≡ ok (g d s))
      → for_nodes t f s ≡ ok (fold g (entries t) s)
  for_nodes_pure t f g s h = for_nodes_lem t f s ∙ fold_run_pure f g h (entries t) s

  -- The loop ends, and counts the elements of `a`, each as often as it occurs, that occur in `b`.
  pub set_found_in_lem :
      (a b : Set)
      → IsValid b
      → set_found_in a b ≡ ok (count_if (λ v. mem v (values b.root)) (values a.root))
  unfolding set_found_in
  set_found_in_lem a b h =
      for_nodes_pure a.root _ (λ d cnt. if set_in b d then cnt + 1 else cnt) 0 (λ d s. refl)
      ∙ ap ok (
          fold_count (set_in b) (entries a.root) 0
          ∙ zero-add _
          ∙ count_entries a.root (set_in b) (λ v. mem v (values b.root)) (λ d. set_in-eq-mem b d h))

  -- The two counts of the first loop of `set_jaccard`.
  abbrev tally : Set → Data → ℕ × ℕ → ℕ × ℕ
  tally b d (x, y) = if set_in b d then (x, y + 1) else (x + 1, y)

  tally_step :
      (b : Set) (d : Data) (p : ℕ × ℕ)
      → ((tally b d p).0 + (tally b d p).1 ≡ p.0 + p.1 + 1)
        × ((tally b d p).1 ≡ p.1 + to_nat (set_in b d))
  tally_step b d p = elim (Bool-cases (set_in b d)) [
    | inl e ↦ rw e (omega arith, omega arith)
    | inr e ↦ rw e (omega arith, omega arith)
  ]

  fold-tally :
      (b : Set) (ds : List Data) (p : ℕ × ℕ)
      → ((fold (tally b) ds p).0 + (fold (tally b) ds p).1 ≡ p.0 + p.1 + length ds)
        × ((fold (tally b) ds p).1 ≡ p.1 + count_if (set_in b) ds)
  fold-tally b [] p = omega arith
  fold-tally b (d ∷ ds) p = omega (arith, tally_step b d p, fold-tally b ds (tally b d p))

  length-entries : (t : Tree) → length (entries t) ≡ length (values t)
  length-entries t =
      sym (length-map (λ (d : Data). d.v) (entries t)) ∙ ap (length {0} {A = ℕ}) (map-entries t)

  -- The numerator of `set_jaccard` counts the elements of `a` that occur in `b`; the denominator
  -- counts all of `a` and the elements of `b` that do not occur in `a`.
  pub set_jaccard_lem :
      (a b : Set)
      → IsValid a
      → IsValid b
      → set_jaccard a b
        ≡ ok (
          count_if (λ v. mem v (values b.root)) (values a.root),
          length (values a.root) + count_if (λ v. not (mem v (values a.root))) (values b.root),
        )
  unfolding set_jaccard
  set_jaccard_lem a b h k =
      let (all, hits) = fold-tally b (entries a.root) (0, 0) in
      let z = fold (λ d n. if not (set_in a d) then n + 1 else n) (entries b.root) 0 in
      let first =
        for_nodes_pure a.root (count_in b) (tally b) (0, 0) (λ d p. unfold count_in in refl) in
      let second : for_nodes b.root (count_out a) 0 ≡ ok z =
        for_nodes_pure b.root (count_out a) _ 0 (λ d n. unfold count_out in ground arith) in
      rw (first, second)
        (ap ok (
          ground (
            arith,
            all,
            hits,
            fold_count (λ d. not (set_in a d)) (entries b.root) 0,
            length-entries a.root,
            count_entries a.root (set_in b) (λ v. mem v (values b.root)) (λ d. set_in-eq-mem b d k),
            count_entries b.root (λ d. not (set_in a d)) (λ v. not (mem v (values a.root)))
                (λ d. ap not (set_in-eq-mem a d h)),
          )))

  -- The loop of `set_print` ends, and prints the stored values in order.
  pub set_print_lem : (s : Set) → set_print s ≡ ok (values s.root)
  unfolding set_print
  set_print_lem s =
      for_nodes_pure s.root _ (λ d out. out ++ (d.v ∷ [])) [] (λ d out. refl)
      ∙ ap ok (collect (entries s.root) [] ∙ map-entries s.root)
    where
      collect :
          (ds : List Data) (out : List ℕ)
          → fold (λ d out. out ++ (d.v ∷ [])) ds out ≡ out ++ map (λ (d : Data). d.v) ds
      collect [] out = sym (append-nil out)
      collect (d ∷ ds) out = collect ds (out ++ (d.v ∷ [])) ∙ append_assoc out (d.v ∷ []) _
