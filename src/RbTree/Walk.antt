-- ===== src/RbTree/Walk.antt =====
-- The loop `for (p = rb_first(root); p; p = rb_next(p))` of jni/simi.c, and that it visits the
-- entries in order, each once.
use Prim.Native.Nat.{ℕ, zero, suc, ◌+◌, ◌<◌}
use memdump.Base.{
  ◌≡◌, refl, sym, ap, ap₂, ◌∙◌, Option, none, some, List, [], ◌∷◌, ◌++◌, map, get_elem?, head?,
  length, drop, lt_of_get_elem?, arith, Run, ok, fault, deref, ◌>>=◌, length-append, inl, inr,
  Option-cases, length-map,
}
use mathlib.Core.List.{map-append}
use mathlib.Core.Path.{fun_ext}
use memdump.Base.Loop.{fold_run}
use memdump.Base.Loop.Laws.{fold_run-append, fold_run-map, drop_split}
use memdump.RbTree.{Data, Tree, leaf, node, Dir, left, right, entry, values, paths, RbTree}

-- The number of nodes, the fuel of the loops over a tree.
abbrev pub nodes : Tree → ℕ
nodes leaf = 0
nodes (node c l d r) = suc (nodes l + nodes r)

module _ {ℓ} {S : Type ℓ} ⦃rb : RbTree⦄ (t : Tree) (body : Data → S → Run S) where
  -- `fault` also stands for fuel that runs out.
  unfoldable pub walk : ℕ → Option (List Dir) → S → Run S
  walk fuel none s = ok s
  walk zero (some p) s = fault
  walk (suc fuel) (some p) s = do
    d ← deref (entry t p)
    s' ← body d s
    walk fuel (rb.rb_next t p) s'

  unfoldable pub for_nodes : S → Run S
  unfolding walk
  for_nodes s = walk (suc (nodes t)) (rb.rb_first t) s

-- The entries in order.
abbrev pub entries : Tree → List Data
entries leaf = []
entries (node c l d r) = entries l ++ (d ∷ entries r)

pub map-entries : (t : Tree) → map (λ (d : Data). d.v) (entries t) ≡ values t
map-entries leaf = refl
map-entries (node c l d r) =
    map-append _ (entries l) (d ∷ entries r)
    ∙ ap₂ (λ (xs ys : List ℕ). xs ++ (d.v ∷ ys)) (map-entries l) (map-entries r)

pub length-values : (t : Tree) → length (values t) ≡ nodes t
length-values leaf = refl
length-values (node c l d r) =
    omega (arith, length-append {0} (values l) (d.v ∷ values r), length-values l, length-values r)

pub length-paths : (t : Tree) → length (paths t) ≡ nodes t
length-paths leaf = refl
length-paths (node c l d r) = omega (
  arith,
  length-append {0} (map (◌∷◌ left) (paths l)) ([] ∷ map (◌∷◌ right) (paths r)),
  length-map {0, 0} (◌∷◌ left) (paths l),
  length-map {0, 0} (◌∷◌ right) (paths r),
  length-paths l,
  length-paths r,
)

module _ {ℓ} {A : Type ℓ} where
  drop_end : (i : ℕ) (xs : List A) → get_elem? xs i ≡ none → drop i xs ≡ []
  drop_end zero [] e = refl
  drop_end (suc i) [] e = refl
  drop_end zero (x ∷ xs) e = cc
  drop_end (suc i) (x ∷ xs) e = drop_end i xs e

  head_is_first : (xs : List A) → head? xs ≡ get_elem? xs 0
  head_is_first [] = refl
  head_is_first (x ∷ xs) = refl

module _ {ℓ} {S : Type ℓ} where
  bind_step :
      (o : Option Data) (f : Data → Run S) {k k' : S → Run S}
      → ((s : S) → k s ≡ k' s)
      → (deref o >>= λ d. f d >>= k) ≡ ((deref o >>= f) >>= k')
  bind_step none f h = refl
  bind_step (some d) f h = ap (λ (k : S → Run S). f d >>= k) (fun_ext h)

  -- The body, at the entry that a pointer leads to.
  abbrev visit : Tree → (Data → S → Run S) → List Dir → S → Run S
  visit t body p s = deref (entry t p) >>= λ d. body d s

  visit_all :
      (t : Tree) (body : Data → S → Run S) (s : S)
      → fold_run (visit t body) (paths t) s ≡ fold_run body (entries t) s
  visit_all leaf body s = refl
  visit_all (node c l d r) body s =
      fold_run-append _ (map (◌∷◌ left) (paths l)) ([] ∷ map (◌∷◌ right) (paths r)) s
      ∙ ap₂ (λ (m : Run S) k. m >>= k) (fold_run-map _ (◌∷◌ left) (paths l) s ∙ visit_all l body s)
          (fun_ext λ s'.
            ap (λ (k : S → Run S). body d s' >>= k)
              (fun_ext λ s''. fold_run-map _ (◌∷◌ right) (paths r) s'' ∙ visit_all r body s''))
      ∙ sym (fold_run-append body (entries l) (d ∷ entries r) s)

  module _ ⦃rb : RbTree⦄ (t : Tree) (body : Data → S → Run S) where
    walk_lem :
        (fuel i : ℕ) (s : S)
        → nodes t < fuel + i
        → walk t body fuel (get_elem? (paths t) i) s ≡ fold_run (visit t body) (drop i (paths t)) s
    unfolding walk
    walk_lem zero i s h = elim (Option-cases (get_elem? (paths t) i)) [
      | inl e ↦ rw (e, drop_end i (paths t) e) refl
      | inr (p, e) ↦ absurd (omega (arith, lt_of_get_elem? (paths t) i e, length-paths t))
    ]
    walk_lem (suc fuel) i s h = elim (Option-cases (get_elem? (paths t) i)) [
      | inl e ↦ rw (e, drop_end i (paths t) e) refl
      | inr (p, e) ↦
          rw (e, drop_split i (paths t) p e)
            (bind_step (entry t p) (λ d. body d s)
              (λ s'.
                ap (λ q. walk t body fuel q s') (rb.next_path t i p e)
                ∙ walk_lem fuel (suc i) s' (omega arith)))
    ]

    -- The loop visits the entries in order, each once, and ends.
    pub for_nodes_lem : (s : S) → for_nodes t body s ≡ fold_run body (entries t) s
    unfolding for_nodes
    for_nodes_lem s =
        ap (λ q. walk t body (suc (nodes t)) q s) (rb.first_path t ∙ head_is_first (paths t))
        ∙ walk_lem (suc (nodes t)) 0 s (omega arith)
        ∙ visit_all t body s
