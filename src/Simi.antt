-- ===== src/Simi.antt =====
-- jni/simi.c: a multiset of 32-bit hashes on a search tree.
-- A `struct Set *` is the record, passed through the calls that change it. The memory that `malloc`
-- returns is taken to be there (simi.c checks it in `data_init` alone, and exits).
pub mod Order
pub mod Insert
pub mod Search
pub mod Found
pub mod Free
pub mod Cursor
pub mod Canonical
pub mod Bag
pub mod Clients
pub mod Refine
pub mod Shown
use memdump.Base.{
  ℕ, zero, suc, ◌+◌, ltb, if◌then◌else◌, Bool, true, false, Option, none, some, List, [], ◌∷◌, ◌++◌,
  Run, ok, fault, deref, ◌>>=◌, to_nat,
}
use memdump.RbTree.{Data, Tree, leaf, node, Dir, left, right, entry, plug, RbTree}
use memdump.RbTree.Walk.{nodes, for_nodes}

-- `struct Set`. `size` is an `int`: it counts allocated nodes, so it is exact below 2 ^ 31.
pub record Set : Type 0 where
  pub root : Tree
  pub size : ℕ

unfoldable pub data_init : ℕ → Data
data_init v = record { v = v }

-- The `while` of `rb_search_data`, by the tree that `node` leads to.
unfoldable pub rb_search_data : Tree → ℕ → Option Data
rb_search_data leaf v = none
rb_search_data (node c l cur_data r) v =
    let go_left = rb_search_data l v in
    let go_right = rb_search_data r v in
    if ltb v cur_data.v then go_left else (if ltb cur_data.v v then go_right else some cur_data)

-- The `while` of `rb_insert_data`: where `link` ends.
unfoldable pub find_link : Tree → ℕ → List Dir
find_link leaf value = []
find_link (node c l cur_data r) value =
    let go_left = left ∷ find_link l value in
    let go_right = right ∷ find_link r value in if ltb value cur_data.v then go_left else go_right

unfoldable pub set_size : Set → ℕ
set_size s = s.size

unfoldable pub set_in : Set → Data → Bool
unfolding rb_search_data
set_in s data_ = elim (rb_search_data s.root data_.v) [ none ↦ false | some d ↦ true ]

unfoldable pub set_init : Set
set_init = record { root = leaf; size = 0 }

-- The body of the first loop of `set_jaccard`, on (x, y).
unfoldable pub count_in : Set → Data → ℕ × ℕ → Run (ℕ × ℕ)
unfolding set_in
count_in b d (x, y) = ok (if set_in b d then (x, y + 1) else (x + 1, y))

-- The body of the second loop, on z.
unfoldable pub count_out : Set → Data → ℕ → Run ℕ
unfolding set_in
count_out a d z = ok (if set_in a d then z else z + 1)

module _ ⦃rb : RbTree⦄ where
  unfoldable pub rb_insert_data : Tree → Data → Tree
  unfolding find_link
  rb_insert_data root new =
      let link = find_link root new.v in
      rb.rb_insert_color link (plug link (rb.rb_link_node new) root)

  unfoldable pub set_add : Set → Data → Set
  unfolding rb_insert_data
  set_add s data_ = record { root = rb_insert_data s.root data_; size = s.size + 1 }

  -- The `while` of `set_free`, with fuel; the second part lists the entries that are freed.
  unfoldable pub free_nodes : ℕ → Tree → List ℕ → Run (Tree × List ℕ)
  free_nodes fuel leaf freed = ok (leaf, freed)
  free_nodes zero (node c l d r) freed = fault
  free_nodes (suc fuel) (node c l d r) freed = do
    data_ ← deref (entry (node c l d r) [])
    free_nodes fuel (rb.rb_erase [] (node c l d r)) (data_.v ∷ freed)

  unfoldable pub set_free : Set → Run (Tree × List ℕ)
  unfolding free_nodes
  set_free s = free_nodes (nodes s.root) s.root []

  -- `fprintf` to stderr: the numbers that are printed, in order.
  unfoldable pub set_print : Set → Run (List ℕ)
  unfolding for_nodes
  set_print s = for_nodes s.root (λ d out. ok (out ++ d.v ∷ [])) []

  unfoldable pub set_found_in : Set → Set → Run ℕ
  unfolding for_nodes set_in
  set_found_in a b = for_nodes a.root (λ d cnt. ok (if set_in b d then cnt + 1 else cnt)) 0

  -- The counts y and x + y + z of `set_jaccard`; it returns their quotient as doubles.
  unfoldable pub set_jaccard : Set → Set → Run (ℕ × ℕ)
  unfolding for_nodes count_in count_out
  set_jaccard a b = do
    (x, y) ← for_nodes a.root (count_in b) (0, 0)
    z ← for_nodes b.root (count_out a) 0
    ok (y, x + y + z)

-- A `struct Data *` that `set_first` and `set_next` give out. `wild` is `rb_entry(NULL)`, which is
-- not NULL: it points `offsetof(struct Data, node)` bytes below address 0.
pub data DataPtr : Type 0 where
  null wild : DataPtr
  at : List Dir → DataPtr

unfoldable pub rb_entry : Option (List Dir) → DataPtr
rb_entry none = wild
rb_entry (some p) = at p

-- `if (!n) return NULL; return rb_entry(n, …);`
abbrev pub next_ptr : Option (List Dir) → DataPtr
next_ptr none = null
next_ptr (some n) = at n

-- `d->v`.
unfoldable pub value_of : Set → DataPtr → Run Data
value_of s null = fault
value_of s wild = fault
value_of s (at p) = deref (entry s.root p)

module _ ⦃rb : RbTree⦄ where
  unfoldable pub set_first : Set → DataPtr
  unfolding rb_entry
  set_first s = rb_entry (rb.rb_first s.root)

  -- `rb_next(&d->node)` reads the node: at `wild` that is a read through NULL.
  unfoldable pub set_next : Set → DataPtr → Run DataPtr
  set_next s null = ok null
  set_next s wild = fault
  set_next s (at p) = ok (next_ptr (rb.rb_next s.root p))
