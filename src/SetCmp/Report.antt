-- ===== src/SetCmp/Report.antt =====
-- The other reports of jni/setcmp.c: the total over distinct pages, the similarity matrix, and the
-- reports per memory region. Only `print_total_dup` is called by `main`.
use memdump.Base.{
  ℕ, suc, ◌+◌, ◌==◌, if◌then◌else◌, List, [], ◌∷◌, ◌++◌, get_elem?, Run, ok, deref, ◌>>=◌, Option,
}
use memdump.Base.Int.{ℤ, pos_part, sub_ℕ}
use memdump.Base.Loop.{for_each}
use memdump.Mem.{Page, MemReg, Process, proc_mr_num, page_is_zero, page_to_u32, mr_get_name}
use memdump.RbTree.{Data, RbTree}
use memdump.RbTree.Walk.{nodes}
use memdump.Simi.{Set, set_size, set_free, set_found_in, set_first, data_init}
use memdump.Simi.Cursor.{do_while_next}
use memdump.SetCmp.{
  store, found_in_other_sets, sets_of, free_sets, set_from_proc, cand_set_from_proc,
  uniq_set_from_proc, set_from_mr, uniq_set_from_mr, for_pages, for_regions,
}

module _ ⦃rb : RbTree⦄ where
  -- The `do … while` of `print_total_dup`: the entries of set `i` found in the other sets.
  unfoldable pub total_body : List Set → ℕ → ℕ → Data → ℕ → Run ℕ
  total_body uniq_set num i d dup = do
    found ← found_in_other_sets uniq_set num d i
    ok (dup + found)

  unfoldable pub total_dup : List Set → ℕ → ℕ → Set → Run ℕ
  total_dup uniq_set num i u =
      do_while_next u (total_body uniq_set num i) (suc (nodes u.root)) (set_first u) 0

  -- One row of `print_simi_matrix`.
  unfoldable pub matrix_row : List Set → ℕ → ℕ → Set → Run (List ℕ)
  matrix_row set num i cand =
      for_each num 0 set
        (λ j s row. do n ← if i == j then ok 0 else set_found_in cand s; ok (row ++ (n ∷ []))) []

module _ (zero_page_hash : ℕ) ⦃rb : RbTree⦄ where
  -- The sets are not freed.
  unfoldable pub print_total_dup : List Process → ℕ → Run (List (ℕ × ℕ))
  print_total_dup proc num = do
    (set, uniq_set) ←
        for_each num 0 proc
          (λ i p arrays. do
            s ← set_from_proc zero_page_hash p
            set ← store i s arrays.0
            u ← uniq_set_from_proc zero_page_hash p
            uniq_set ← store i u arrays.1
            ok (set, uniq_set))
          ([], [])
    for_each num 0 uniq_set
        (λ i u out. do
          dup ← total_dup uniq_set num i u
          s ← deref (get_elem? set i)
          ok (out ++ ((dup, set_size s) ∷ [])))
        []

  unfoldable pub print_simi_matrix : List Process → ℕ → Run (List (List ℕ))
  unfolding sets_of
  print_simi_matrix proc num = do
    set ← sets_of (set_from_proc zero_page_hash) proc num
    cand_set ← sets_of (cand_set_from_proc zero_page_hash) proc num
    rows ←
        for_each num 0 cand_set
          (λ i cand rows. do row ← matrix_row set num i cand; ok (rows ++ (row ∷ []))) []
    _ ← free_sets set num
    _ ← free_sets cand_set num
    ok rows

  unfoldable pub dup_page : List Set → ℕ → ℕ → Page → ℕ → Run ℕ
  dup_page set num this page dup = if page_is_zero zero_page_hash page then ok dup else (do
    found ← found_in_other_sets set num (data_init (page_to_u32 page)) this
    ok (dup + found))

  -- How many pages of the region can be found in other processes.
  unfoldable pub mr_dup_inter : List Set → ℕ → MemReg → ℕ → Run ℕ
  unfolding dup_page
  mr_dup_inter set num mr this = for_pages zero_page_hash mr (dup_page set num this) 0

  unfoldable pub mr_nonzero_num : MemReg → Run ℕ
  mr_nonzero_num mr =
      for_pages zero_page_hash mr
        (λ page n. ok (if page_is_zero zero_page_hash page then n else n + 1)) 0

  -- The line of a region: its duplicates, its used pages and its name, if there are duplicates.
  unfoldable pub inter_simi_mr :
      List Set
      → ℕ
      → ℕ
      → MemReg
      → List (ℕ × ℕ × Option (List ℕ))
      → Run (List (ℕ × ℕ × Option (List ℕ)))
  inter_simi_mr set num i mr out = do
    dup ← mr_dup_inter set num mr i
    if dup == 0
        then ok out
        else (do n ← mr_nonzero_num mr; ok (out ++ ((dup, n, mr_get_name mr) ∷ [])))

  unfoldable pub print_inter_simi_mr : List Process → ℕ → Run (List (ℕ × ℕ × Option (List ℕ)))
  unfolding sets_of
  print_inter_simi_mr proc num = do
    set ← sets_of (set_from_proc zero_page_hash) proc num
    for_each num 0 proc (λ i p out. for_regions zero_page_hash p (inter_simi_mr set num i) out) []

  unfoldable pub intra_mr_simi : MemReg → Run ℤ
  intra_mr_simi mr = do
    set ← set_from_mr zero_page_hash mr
    uniq_set ← uniq_set_from_mr zero_page_hash mr
    let dup = sub_ℕ (set_size set) (set_size uniq_set)
    _ ← set_free set
    _ ← set_free uniq_set
    ok dup

  -- The pages of region `i` that are found in another region of the process, zero pages included
  -- in the search.
  unfoldable pub intra_dup : List Set → ℕ → ℕ → MemReg → Run ℕ
  intra_dup set n_mr i mr =
      for_pages zero_page_hash mr
        (λ page dup. do
          found ← found_in_other_sets set n_mr (data_init (page_to_u32 page)) i
          ok (dup + found))
        0

  -- The line of a region: duplicates within it, duplicates in other regions, and its name.
  unfoldable pub intra_line :
      List Set
      → ℕ
      → ℕ
      → MemReg
      → List (ℤ × ℕ × Option (List ℕ))
      → Run (List (ℤ × ℕ × Option (List ℕ)))
  intra_line set n_mr i mr out = do
    dup ← intra_dup set n_mr i mr
    if dup == 0
        then ok out
        else (do same ← intra_mr_simi mr; ok (out ++ ((same, dup, mr_get_name mr) ∷ [])))

  -- `set` is allocated for `n_mr` entries.
  unfoldable pub intra_proc_simi_mr : Process → Run (List (ℤ × ℕ × Option (List ℕ)))
  intra_proc_simi_mr p = do
    let n_mr = pos_part (proc_mr_num p)
    set ←
        for_each n_mr 0 p.maps
          (λ _ mr sets. do s ← set_from_mr zero_page_hash mr; ok (sets ++ (s ∷ []))) []
    out ← for_each n_mr 0 p.maps (intra_line set n_mr) []
    _ ← free_sets set n_mr
    ok out

  unfoldable pub print_intra_process_simi_mr :
      List Process → ℕ → Run (List (ℤ × ℕ × Option (List ℕ)))
  print_intra_process_simi_mr proc num =
      for_each num 0 proc (λ _ p out. do lines ← intra_proc_simi_mr p; ok (out ++ lines)) []
