-- ===== src/RbTree.antt =====
-- The search tree as jni/simi.c sees it. The red-black tree library (jni/rbtree.c and rbtree.h, the
-- Linux kernel's) is not modelled: it is a record of its functions with what they are documented
-- to do.
-- A tree holds the fields that the client reads, `rb_left`, `rb_right` and the entry; the parent
-- pointer is given by the shape, and the colour is a number that only the library looks at.
-- A pointer to a node is the path that leads to it from the root, so that it tells apart nodes
-- with equal entries; `none` is NULL.
pub mod Walk
pub mod Plain
use memdump.Base.{
  ℕ, suc, ◌≡◌, Bool, true, false, Option, none, some, List, [], ◌∷◌, ◌++◌, map, get_elem?, head?,
}

-- `struct Data`: the value searched by. The embedded node is the tree node that holds it.
pub record Data : Type 0 where
  pub v : ℕ

pub data Tree : Type 0 where
  leaf : Tree
  node : ℕ → Tree → Data → Tree → Tree

pub data Dir : Type 0 where
  left right : Dir

-- The entry that a pointer leads to (`rb_entry`), with the sentinel `none` for a path outside.
abbrev pub entry : Tree → List Dir → Option Data
entry leaf p = none
entry (node c l d r) [] = some d
entry (node c l d r) (left ∷ p) = entry l p
entry (node c l d r) (right ∷ p) = entry r p

-- The stored values in order, and the pointers in the same order.
abbrev pub values : Tree → List ℕ
values leaf = []
values (node c l d r) = values l ++ (d.v ∷ values r)

abbrev pub paths : Tree → List (List Dir)
paths leaf = []
paths (node c l d r) = map (◌∷◌ left) (paths l) ++ ([] ∷ map (◌∷◌ right) (paths r))

-- The values in order, less the one that a pointer leads to.
abbrev pub values_without : List Dir → Tree → List ℕ
values_without p leaf = []
values_without [] (node c l d r) = values l ++ values r
values_without (left ∷ p) (node c l d r) = values_without p l ++ (d.v ∷ values r)
values_without (right ∷ p) (node c l d r) = values l ++ (d.v ∷ values_without p r)

-- The tree with the subtree at a link replaced: what `*link = …` does.
abbrev pub plug : List Dir → Tree → Tree → Tree
plug [] u t = u
plug (d ∷ p) u leaf = leaf
plug (left ∷ p) u (node c l d r) = node c (plug p u l) d r
plug (right ∷ p) u (node c l d r) = node c l d (plug p u r)

-- Is the pointer stored at the link NULL?
abbrev pub is_null_link : List Dir → Tree → Bool
is_null_link [] leaf = true
is_null_link (d ∷ p) leaf = false
is_null_link [] (node c l d r) = false
is_null_link (left ∷ p) (node c l d r) = is_null_link p l
is_null_link (right ∷ p) (node c l d r) = is_null_link p r

-- The functions of the library. `rb_link_node d` is what the link points to afterwards,
-- `rb_insert_color p t` and `rb_erase p t` are the tree under the root afterwards, and `is_rb` is
-- what the library keeps of the colours.
-- The laws say that linking makes a node with no children, that rebalancing after a link keeps
-- the order of the entries, that erasing takes out one entry, and that `rb_first` and `rb_next`
-- go in sort order.
pub record RbTree : Type 0 where
  pub is_rb : Tree → Bool
  pub rb_link_node : Data → Tree
  pub rb_insert_color : List Dir → Tree → Tree
  pub rb_erase : List Dir → Tree → Tree
  pub rb_first : Tree → Option (List Dir)
  pub rb_next : Tree → List Dir → Option (List Dir)
  pub leaf_rb : is_rb leaf ≡ true
  pub link_values : (d : Data) → values (rb_link_node d) ≡ d.v ∷ []
  pub insert_rb :
      (p : List Dir) (d : Data) (t : Tree)
      → is_rb t ≡ true
      → is_null_link p t ≡ true
      → is_rb (rb_insert_color p (plug p (rb_link_node d) t)) ≡ true
  pub insert_values :
      (p : List Dir) (d : Data) (t : Tree)
      → is_rb t ≡ true
      → is_null_link p t ≡ true
      → values (rb_insert_color p (plug p (rb_link_node d) t)) ≡ values (plug p (rb_link_node d) t)
  pub erase_rb :
      (p : List Dir) (t : Tree) {d : Data}
      → is_rb t ≡ true
      → entry t p ≡ some d
      → is_rb (rb_erase p t) ≡ true
  pub erase_values :
      (p : List Dir) (t : Tree) {d : Data}
      → is_rb t ≡ true
      → entry t p ≡ some d
      → values (rb_erase p t) ≡ values_without p t
  pub first_path : (t : Tree) → rb_first t ≡ head? (paths t)
  pub next_path :
      (t : Tree) (i : ℕ) (p : List Dir)
      → get_elem? (paths t) i ≡ some p
      → rb_next t p ≡ get_elem? (paths t) (suc i)
