-- ===== src/Simi/Search.antt =====
-- `rb_search_data` and `set_in` of jni/simi.c: the search finds a value exactly when it is stored.
use memdump.Base.{
  ℕ, ◌≤◌, ◌<◌, ◌≡◌, refl, sym, ap, ◌∙◌, Bool, true, false, ◌||◌, List, [], ◌∷◌, All, arith, ◌==◌,
  mem, Option, some, none, mem-append,
}
use memdump.RbTree.{Data, Tree, leaf, node, RbTree, values}
use memdump.Simi.{Set, set_in, rb_search_data, set_add}
use memdump.Simi.Order.{IsSorted, IsSorted-middle, mem-insert_after}
use memdump.Simi.Insert.{IsValid, set_add_lem}

mem_above : (v x : ℕ) (xs : List ℕ) → v < x → All (λ y. x ≤ y) xs → mem v xs ≡ false
mem_above v x [] h k = refl
mem_above v x (y ∷ ys) h k = ground (arith, mem_above v x ys)

mem_below : (v x : ℕ) (xs : List ℕ) → x < v → All (λ y. y ≤ x) xs → mem v xs ≡ false
mem_below v x [] h k = refl
mem_below v x (y ∷ ys) h k = ground (arith, mem_below v x ys)

abbrev is_some : Option Data → Bool
is_some none = false
is_some (some d) = true

search-eq-mem :
    (t : Tree) (v : ℕ) → IsSorted (values t) → is_some (rb_search_data t v) ≡ mem v (values t)
unfolding rb_search_data
search-eq-mem leaf v h = refl
search-eq-mem (node c l d r) v h =
    let (front, below, above, back) = IsSorted-middle (values l) d.v (values r) h in
    ground (
      arith,
      search-eq-mem l v front,
      search-eq-mem r v back,
      mem-append v (values l) (d.v ∷ values r),
      mem_above v d.v (values r),
      mem_below v d.v (values l),
    )

-- What the search returns is an entry with the value asked for.
pub rb_search_data_found : (t : Tree) (v : ℕ) (d : Data) → rb_search_data t v ≡ some d → d.v ≡ v
unfolding rb_search_data
rb_search_data_found leaf v d e = cc
rb_search_data_found (node c l x r) v d e =
    ground (arith, rb_search_data_found l v d, rb_search_data_found r v d)

module _ ⦃rb : RbTree⦄ where
  -- On a valid set the search answers whether the value is stored.
  pub set_in-eq-mem : (s : Set) (d : Data) → IsValid s → set_in s d ≡ mem d.v (values s.root)
  unfolding set_in
  set_in-eq-mem s d h = ground (arith, search-eq-mem s.root d.v h.ordered)

  -- After an addition to a valid set, exactly the value added and the values found before are found.
  pub set_in-set_add :
      (s : Set) (d e : Data) → IsValid s → set_in (set_add s d) e ≡ ((d.v == e.v) || set_in s e)
  set_in-set_add s d e h =
      let (valid, added) = set_add_lem s d h in
      set_in-eq-mem (set_add s d) e valid
      ∙ ap (mem e.v) added
      ∙ mem-insert_after e.v d.v (values s.root)
      ∙ ap (λ b. (d.v == e.v) || b) (sym (set_in-eq-mem s e h))
