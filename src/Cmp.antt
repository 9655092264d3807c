-- ===== src/Cmp.antt =====
-- jni/cmp.c: the regions of two processes that have pages in common. `main` reads the processes
-- and calls `print_simi`. Counts of pairs of regions are taken to fit an `int`.
pub mod Sort
pub mod Pairs
pub mod Laws
pub mod Main
use memdump.Base.{
  ℕ, ◌+◌, ◌*◌, ◌==◌, ◌≡◌, ◌⊎◌, if◌then◌else◌, Bool, true, Option, List, [], ◌∷◌, ◌++◌, get_elem?,
  count_if, All, Run, ok, deref, ◌>>=◌,
}
use memdump.Base.Int.{ℤ, pos, pos_part, sub_ℕ, lt_int, le_int}
use memdump.Base.Loop.{for_each}
use memdump.Mem.{
  MemReg, Process, proc_mr_num, proc_get_mr, mr_page_num, page_is_zero, page_count, page_to_u32,
  mr_get_name, mr_get_start,
}
use memdump.RbTree.{RbTree}
use memdump.Simi.{Set, set_init, data_init, set_add, set_found_in}
use memdump.SetCmp.{free_sets}

-- `struct Redund`.
pub record Redund : Type 0 where
  pub dup : ℕ
  pub m1 : MemReg
  pub m2 : MemReg

-- The difference of two `int` that are not negative does not overflow.
unfoldable pub comp_redunds : Redund → Redund → ℤ
comp_redunds a b = sub_ℕ a.dup b.dup

-- What a comparison function must be for `qsort`.
pub record IsConsistent {ℓ} {A : Type ℓ} (compar : A → A → ℤ) : Type ℓ where
  pub total :
      (a b : A) → (le_int (compar a b) (pos 0) ≡ true) ⊎ (le_int (compar b a) (pos 0) ≡ true)
  pub transitive :
      (a b c : A)
      → le_int (compar a b) (pos 0) ≡ true
      → le_int (compar b c) (pos 0) ≡ true
      → le_int (compar a c) (pos 0) ≡ true

abbrev pub IsSortedBy {ℓ} : {A : Type ℓ} → (A → A → ℤ) → List A → Type 0
IsSortedBy compar [] = Unit
IsSortedBy compar (x ∷ xs) = All (λ y. le_int (compar x y) (pos 0) ≡ true) xs × IsSortedBy compar xs

-- C's `qsort`: the array afterwards has the same elements, each as often, in ascending order.
pub record Qsort {ℓ} (A : Type ℓ) : Type ℓ where
  pub qsort : (A → A → ℤ) → List A → List A
  pub qsort_count_if :
      (compar : A → A → ℤ) (p : A → Bool) (xs : List A)
      → IsConsistent compar
      → count_if p (qsort compar xs) ≡ count_if p xs
  pub qsort_sorted :
      (compar : A → A → ℤ) (xs : List A) → IsConsistent compar → IsSortedBy compar (qsort compar xs)

-- What is printed of one element of `redunds`.
pub record Line : Type 0 where
  pub dup : ℕ
  pub page_num_1 : ℤ
  pub page_num_2 : ℤ
  pub name_1 : Option (List ℕ)
  pub start_1 : ℕ
  pub name_2 : Option (List ℕ)
  pub start_2 : ℕ

unfoldable pub line : Redund → Line
line r = record {
  dup = r.dup;
  page_num_1 = mr_page_num r.m1;
  page_num_2 = mr_page_num r.m2;
  name_1 = mr_get_name r.m1;
  start_1 = mr_get_start r.m1;
  name_2 = mr_get_name r.m2;
  start_2 = mr_get_start r.m2;
}

-- The loop that prints.
unfoldable pub print_redunds : ℕ → List Redund → Run (List Line)
print_redunds total redunds =
    for_each total 0 redunds (λ _ r out. if r.dup == 0 then ok out else ok (out ++ (line r ∷ [])))
      []

module _ ⦃rb : RbTree⦄ where
  -- The element number `i * n2 + j` of `redunds`.
  unfoldable pub redund : List Set → List Set → ℕ → MemReg → ℕ → MemReg → Run Redund
  redund sets1 sets2 i m1 j m2 = do
    s1 ← deref (get_elem? sets1 i)
    s2 ← deref (get_elem? sets2 j)
    dup ← set_found_in s1 s2
    ok (record { dup = dup; m1 = m1; m2 = m2 })

  -- The body of the outer loop, for region `i`: `redunds` is filled from the front.
  unfoldable pub redunds_of :
      Process → List Set → List Set → ℕ → MemReg → List Redund → Run (List Redund)
  unfolding redund
  redunds_of p2 sets1 sets2 i m1 redunds =
      for_each (pos_part (proc_mr_num p2)) 0 p2.maps
        (λ j m2 redunds. do r ← redund sets1 sets2 i m1 j m2; ok (redunds ++ (r ∷ []))) redunds

module _ (zero_page_hash : ℕ) ⦃rb : RbTree⦄ where
  unfoldable pub build_set_from_mr : MemReg → Run Set
  build_set_from_mr m =
      for_each (pos_part (mr_page_num m)) 0 m.pages
        (λ _ page s.
          if page_is_zero zero_page_hash page
          then ok s
          else (if lt_int (pos 1) (page_count page)
              then ok s
              else ok (set_add s (data_init (page_to_u32 page)))))
        set_init

  -- `sets[i] = build_set_from_mr(proc_get_mr(p, i))` for each region.
  unfoldable pub build_sets : Process → Run (List Set)
  unfolding build_set_from_mr
  build_sets p =
      for_each (pos_part (proc_mr_num p)) 0 p.maps
        (λ _ m sets. do s ← build_set_from_mr m; ok (sets ++ (s ∷ []))) []

  unfoldable pub print_simi : ⦃sort : Qsort Redund⦄ → Process → Process → Run (List Line)
  unfolding build_sets redunds_of print_redunds
  print_simi ⦃sort⦄ p1 p2 = do
    let n1 = pos_part (proc_mr_num p1)
    let n2 = pos_part (proc_mr_num p2)
    sets1 ← build_sets p1
    sets2 ← build_sets p2
    redunds ← for_each n1 0 p1.maps (redunds_of p2 sets1 sets2) []
    out ← print_redunds (n1 * n2) (sort.qsort comp_redunds redunds)
    _ ← free_sets sets1 n1
    _ ← free_sets sets2 n2
    ok out
