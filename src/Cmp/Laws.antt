-- ===== src/Cmp/Laws.antt =====
-- `print_simi` of jni/cmp.c: which pairs of regions are printed, and in which order.
use native.Mathlib.Nat.{zero-mul, suc-mul}
use memdump.Base.{
  ℕ, ◌*◌, ◌≤◌, ◌<◌, ◌≡◌, ◌==◌, refl, sym, ap, ◌∙◌, ◌&&◌, not, Bool, true, List, [], ◌∷◌, ◌++◌,
  length, arith, ok, select, map, count_if, All, flat_map, get_elem?, some, if◌then◌else◌,
  length-map, length-append, length-take, append_assoc, append-nil, take_all, get_elem?-map-take,
}
use memdump.Base.Int.{pos_part}
use memdump.Base.Loop.{fold}
use memdump.Base.Loop.Laws.{flat_map_lem, for_each_pure}
use memdump.Mem.{MemReg, Process, proc_mr_num, regions_of}
use memdump.RbTree.{RbTree}
use memdump.Simi.{Set}
use memdump.Simi.Insert.{IsValid}
use memdump.Simi.Order.{IsSorted}
use memdump.SetCmp.Sets.{IsLoaded}
use memdump.SetCmp.Arrays.{free_all_lem}
use memdump.Cmp.{
  Redund, Line, line, redund, redunds_of, print_redunds, print_simi, Qsort, comp_redunds,
}
use memdump.Cmp.Sort.{comp_redunds-IsConsistent, select-IsSortedBy, dup-IsSorted}
use memdump.Cmp.Pairs.{dup_count, region_set, region_set-IsValid, build_sets_lem, found_regions}

-- All pairs of a region of each process, with the number of their common pages.
abbrev pub pair : ℕ → MemReg → MemReg → Redund
pair zero_page_hash m1 m2 = record { dup = dup_count zero_page_hash m1 m2; m1 = m1; m2 = m2 }

abbrev pub region_pairs : ℕ → Process → Process → List Redund
region_pairs zero_page_hash p1 p2 =
    flat_map (λ m1. map (pair zero_page_hash m1) (regions_of p2)) (regions_of p1)

abbrev pub has_dup : Redund → Bool
has_dup r = not (r.dup == 0)

module _ {ℓ κ} {A : Type ℓ} {B : Type κ} where
  flat_map-singleton : (f : A → B) (xs : List A) → flat_map (λ x. f x ∷ []) xs ≡ map f xs
  flat_map-singleton f [] = refl
  flat_map-singleton f (x ∷ xs) = ap (◌∷◌ (f x)) (flat_map-singleton f xs)

module _ {ℓ κ μ} {A : Type ℓ} {B : Type κ} {C : Type μ} where
  length-flat_map :
      (f : A → B → C) (xs : List A) (ys : List B)
      → length (flat_map (λ x. map (f x) ys) xs) ≡ length xs * length ys
  length-flat_map f [] ys = sym (zero-mul (length ys))
  length-flat_map f (x ∷ xs) ys = omega (
    arith,
    length-append (map (f x) ys) (flat_map (λ x. map (f x) ys) xs),
    length-map (f x) ys,
    length-flat_map f xs ys,
    suc-mul (length xs) (length ys),
  )

count_if-selected {ℓ} :
    {A : Type ℓ} (p q : A → Bool) (xs : List A)
    → count_if q (select p xs) ≡ count_if (λ x. p x && q x) xs
count_if-selected p q [] = refl
count_if-selected p q (x ∷ xs) = ground (arith, count_if-selected p q xs)

length-count_if {ℓ} : {A : Type ℓ} (xs : List A) → length xs ≡ count_if (λ _. true) xs
length-count_if [] = refl
length-count_if (x ∷ xs) = omega (arith, length-count_if xs)

fold_lines :
    (rs : List Redund) (out : List Line)
    → fold (λ r out. if r.dup == 0 then out else out ++ (line r ∷ [])) rs out
      ≡ out ++ map line (select has_dup rs)
fold_lines [] out = sym (append-nil out)
fold_lines (r ∷ rs) out = ground (
  arith,
  fold_lines rs out,
  fold_lines rs (out ++ (line r ∷ [])),
  append_assoc out (line r ∷ []) (map line (select has_dup rs)),
)

print_redunds_lem :
    (total : ℕ) (rs : List Redund)
    → total ≡ length rs
    → print_redunds total rs ≡ ok (map line (select has_dup rs))
unfolding print_redunds
print_redunds_lem total rs e =
    for_each_pure _ (λ r out. if r.dup == 0 then out else out ++ (line r ∷ [])) total rs []
      (λ r out. ground arith) (omega arith)
    ∙ rw (take_all total rs e) (ap ok (fold_lines rs []))

module _ (zero_page_hash : ℕ) ⦃rb : RbTree⦄ where
  abbrev region_sets : Process → List Set
  region_sets p = map (region_set zero_page_hash) (regions_of p)

  redunds_of_lem :
      (p1 p2 : Process) (i : ℕ) (m1 : MemReg) (out : List Redund)
      → i < pos_part (proc_mr_num p1)
      → get_elem? p1.maps i ≡ some m1
      → pos_part (proc_mr_num p2) ≤ length p2.maps
      → redunds_of p2 (region_sets p1) (region_sets p2) i m1 out
        ≡ ok (out ++ map (pair zero_page_hash m1) (regions_of p2))
  unfolding redunds_of redund
  redunds_of_lem p1 p2 i m1 out lt at fits =
      let set_at = get_elem?-map-take (region_set zero_page_hash) in
      flat_map_lem (pos_part (proc_mr_num p2)) p2.maps _ (λ m2. pair zero_page_hash m1 m2 ∷ [])
        (λ j m2 out lt' at'.
          rw
            (
              set_at (pos_part (proc_mr_num p1)) i p1.maps m1 lt at,
              set_at (pos_part (proc_mr_num p2)) j p2.maps m2 lt' at',
              found_regions zero_page_hash m1 m2,
            )
            refl)
        fits (pos_part (proc_mr_num p2)) 0 out (omega arith)
      ∙ ap (λ rs. ok (out ++ rs)) (flat_map-singleton (pair zero_page_hash m1) (regions_of p2))

  region_sets-IsValid : (ms : List MemReg) → All IsValid (map (region_set zero_page_hash) ms)
  region_sets-IsValid [] = tt
  region_sets-IsValid (m ∷ ms) = (region_set-IsValid zero_page_hash m, region_sets-IsValid ms)

  length-region_sets :
      (p : Process) → IsLoaded p → pos_part (proc_mr_num p) ≡ length (region_sets p)
  length-region_sets p h = omega (
    arith,
    length-map (region_set zero_page_hash) (regions_of p),
    length-take (pos_part (proc_mr_num p)) p.maps h.0,
  )

  -- For two loaded processes the comparison ends, with no access out of range. It prints exactly
  -- the pairs of a region of each that have common pages, each once, in ascending order of their
  -- number; a page counts if it is neither zero nor shared.
  pub print_simi_lem :
      ⦃sort : Qsort Redund⦄ (p1 p2 : Process)
      → IsLoaded p1
      → IsLoaded p2
      → (rs : List Redund) × (print_simi zero_page_hash p1 p2 ≡ ok (map line rs))
        × IsSorted (map (λ (r : Redund). r.dup) rs)
        × ((q : Redund → Bool)
            → count_if q rs ≡ count_if (λ r. has_dup r && q r) (region_pairs zero_page_hash p1 p2))
  unfolding print_simi
  print_simi_lem ⦃sort⦄ p1 p2 h1 h2 =
      let pairs = region_pairs zero_page_hash p1 p2 in
      let rs = sort.qsort comp_redunds pairs in
      let same =
        λ (q : Redund → Bool). sort.qsort_count_if comp_redunds q pairs comp_redunds-IsConsistent in
      let n1 = pos_part (proc_mr_num p1) in
      let n2 = pos_part (proc_mr_num p2) in
      let filled =
        flat_map_lem n1 p1.maps (redunds_of p2 (region_sets p1) (region_sets p2))
          (λ m1. map (pair zero_page_hash m1) (regions_of p2))
          (λ i m1 out lt at. redunds_of_lem p1 p2 i m1 out lt at h2.0) h1.0 n1 0 [] (omega arith) in
      let size : n1 * n2 ≡ length rs =
        ap (λ (n : ℕ). n * n2) (sym (length-take n1 p1.maps h1.0))
        ∙ ap (λ (n : ℕ). length (regions_of p1) * n) (sym (length-take n2 p2.maps h2.0))
        ∙ sym (length-flat_map (pair zero_page_hash) (regions_of p1) (regions_of p2))
        ∙ length-count_if pairs
        ∙ sym (same (λ _. true))
        ∙ sym (length-count_if rs) in
      (
        select has_dup rs,
        rw
            (
              build_sets_lem zero_page_hash p1 h1,
              build_sets_lem zero_page_hash p2 h2,
              filled,
              print_redunds_lem (n1 * n2) rs size,
              free_all_lem (region_sets p1) n1 (length-region_sets p1 h1)
                  (region_sets-IsValid (regions_of p1)),
              free_all_lem (region_sets p2) n2 (length-region_sets p2 h2)
                  (region_sets-IsValid (regions_of p2)),
            )
            refl,
        dup-IsSorted (select has_dup rs) (
            select-IsSortedBy comp_redunds has_dup rs
              (sort.qsort_sorted comp_redunds pairs comp_redunds-IsConsistent)),
        λ q. count_if-selected has_dup q rs ∙ same (λ r. has_dup r && q r),
      )
