-- ===== src/SetCmp/Matrix.antt =====
-- `print_simi_matrix` of jni/setcmp.c.
use mathlib.Core.Path.{fun_ext}
use memdump.Base.{
  ℕ, ◌≤◌, ◌≡◌, ◌==◌, refl, sym, ap, ◌∙◌, Bool, List, [], ◌∷◌, ◌++◌, length, All, All₂, map_index,
  take-length, take_all, length-take, arith, ok, ◌>>=◌, take, select, count_if, if◌then◌else◌, ◌&&◌,
  mem,
}
use memdump.Base.Loop.{for_each}
use memdump.Base.Loop.Laws.{collect_lem, map_index_rel}
use memdump.Mem.{Process, Page, page_to_u32}
use memdump.RbTree.{RbTree, values, Data}
use memdump.Simi.{Set, set_found_in, set_init, data_init}
use memdump.Simi.Insert.{IsValid, set_init-IsValid}
use memdump.Simi.Found.{set_found_in_lem}
use memdump.Simi.Canonical.{add_all, add_all-IsValid, count_if-add_all}
use memdump.SetCmp.{max_pid, set_from_proc, cand_set_from_proc}
use memdump.SetCmp.Sets.{IsLoaded, all_pages, is_candidate, cand_set_from_proc_runs, data_of}
use memdump.SetCmp.Content.{set_from_proc_lem}
use memdump.SetCmp.Family.{All₂-IsValid}
use memdump.SetCmp.Arrays.{sets_of_lem, free_all_lem}
use memdump.SetCmp.Inter.{used_hashes, Content-IsValid, Content}
use memdump.SetCmp.Report.{matrix_row, print_simi_matrix}

-- How many candidate pages of one process have a hash that a used page of the other has.
abbrev pub similar : ℕ → Process → Process → ℕ
similar zero_page_hash p q =
    count_if
      (λ page.
        is_candidate zero_page_hash page && mem (page_to_u32 page) (used_hashes zero_page_hash q))
      (all_pages p)

module _ (zero_page_hash : ℕ) ⦃rb : RbTree⦄ where
  -- The set of all candidate pages.
  record IsCand (p : Process) (s : Set) : Type 0 where
    valid : IsValid s
    counts :
        (q : ℕ → Bool)
        → count_if q (values s.root)
          ≡ count_if
              (λ page. is_candidate zero_page_hash page && q (page_to_u32 page))
              (all_pages p)

  pub count_if-data_of :
      (q : ℕ → Bool) (pages : List Page)
      → count_if (λ (d : Data). q d.v) (data_of (select (is_candidate zero_page_hash) pages))
        ≡ count_if (λ page. is_candidate zero_page_hash page && q (page_to_u32 page)) pages
  unfolding data_init
  count_if-data_of q [] = refl
  count_if-data_of q (page ∷ pages) = ground (arith, count_if-data_of q pages)

  cand_set_from_proc_lem :
      (p : Process)
      → IsLoaded p
      → (s : Set) × (cand_set_from_proc zero_page_hash p ≡ ok s) × IsCand p s
  cand_set_from_proc_lem p h =
      let ds = data_of (select (is_candidate zero_page_hash) (all_pages p)) in
      (
        add_all ds set_init,
        cand_set_from_proc_runs zero_page_hash p h,
        record {
          valid = add_all-IsValid ds set_init set_init-IsValid;
          counts = λ q.
              unfold set_init in
              omega (
                arith,
                count_if-add_all q ds set_init set_init-IsValid,
                count_if-data_of q (all_pages p),
              );
        },
      )

  IsCand-IsValid :
      (ps : List Process) (ss : List Set)
      → All₂ IsCand ps ss
      → All IsValid ss × (length ss ≡ length ps)
  IsCand-IsValid = All₂-IsValid IsCand (λ p s h. h.valid)

  -- The entries as they are found in the sets, and as they stand for the processes.
  abbrev found_row : ℕ → List Set → Set → List ℕ
  found_row i ss c =
      map_index (λ j s. if i == j then 0 else count_if (λ v. mem v (values s.root)) (values c.root))
        0 ss

  abbrev pub row_spec : ℕ → List Process → Process → List ℕ
  row_spec i ps p = map_index (λ j q. if i == j then 0 else similar zero_page_hash p q) 0 ps

  matrix_row_lem :
      (ss : List Set) (num i : ℕ) (c : Set)
      → num ≡ length ss
      → All IsValid ss
      → matrix_row ss num i c ≡ ok (found_row i ss c)
  unfolding matrix_row
  matrix_row_lem ss num i c e h =
      let found : ℕ → Set → ℕ =
        λ j s. if i == j then 0 else count_if (λ v. mem v (values s.root)) (values c.root) in
      rw e (
        collect_lem IsValid (λ j s. if i == j then ok 0 else set_found_in c s) found
          (λ j s valid. ground (arith, set_found_in_lem c s valid)) (length ss) 0 ss []
          (omega arith) (rw take-length h)
        ∙ ap (λ xs. ok (map_index found 0 xs)) (take-length ss))

  found_row_lem :
      (ps : List Process) (ss : List Set) (i : ℕ) (p : Process) (c : Set)
      → IsCand p c
      → All₂ (Content zero_page_hash) ps ss
      → found_row i ss c ≡ row_spec i ps p
  found_row_lem ps ss i p c h =
      map_index_rel (Content zero_page_hash) _ _
        (λ j q s k.
          ap (λ (n : ℕ). if i == j then 0 else n)
            (h.counts (λ v. mem v (values s.root))
              ∙ ap
                  (λ (m : ℕ → Bool).
                    count_if (λ page. is_candidate zero_page_hash page && m (page_to_u32 page))
                      (all_pages p))
                  (fun_ext k.found)))
        0 ps ss

  rows_lem :
      (ps : List Process) (ss cs : List Set) (num : ℕ)
      → num ≡ length ss
      → num ≡ length cs
      → All₂ (Content zero_page_hash) ps ss
      → All₂ IsCand ps cs
      → for_each num 0 cs (λ i c rows. matrix_row ss num i c >>= λ row. ok (rows ++ (row ∷ []))) []
        ≡ ok (map_index (λ i p. row_spec i ps p) 0 ps)
  rows_lem ps ss cs num e e' h k =
      let valid = (Content-IsValid zero_page_hash ps ss h).0 in
      let runs =
        collect_lem IsValid (matrix_row ss num) (λ i c. found_row i ss c)
          (λ i c _. matrix_row_lem ss num i c e valid) num 0 cs [] (omega arith)
          (rw (take_all num cs e') (IsCand-IsValid ps cs k).0) in
      runs
      ∙ ap ok (
          ap (map_index (λ i c. found_row i ss c) 0) (take_all num cs e')
          ∙ map_index_rel IsCand (λ i p. row_spec i ps p) (λ i c. found_row i ss c)
              (λ i p c m. found_row_lem ps ss i p c m h) 0 ps cs k)

  -- For at most `MAX_PID` loaded processes the matrix is printed, with no access out of range. Its
  -- entry for two processes is 0 if they are the same, and else how many pages of the first,
  -- neither zero nor shared, have the hash of a page of the second that is not zero.
  pub print_simi_matrix_lem :
      (proc : List Process) (num : ℕ)
      → num ≤ max_pid
      → num ≤ length proc
      → All IsLoaded (take num proc)
      → print_simi_matrix zero_page_hash proc num
        ≡ ok (
            map_index
              (λ i p.
                map_index
                  (λ j q. if i == j then 0 else similar zero_page_hash p q)
                  0
                  (take num proc))
              0
              (take num proc))
  unfolding print_simi_matrix
  print_simi_matrix_lem proc num small fits h =
      let (ss, runs, contents) =
        sets_of_lem (Content zero_page_hash) (set_from_proc zero_page_hash)
          (set_from_proc_lem zero_page_hash) num 0 proc [] (omega arith) (omega arith) h in
      let (valid, same) = Content-IsValid zero_page_hash (take num proc) ss contents in
      let size : num ≡ length ss = sym (same ∙ length-take num proc fits) in
      let (cs, runs', cands) =
        sets_of_lem IsCand (cand_set_from_proc zero_page_hash) cand_set_from_proc_lem num 0 proc []
          (omega arith) (omega arith) h in
      let (valid', same') = IsCand-IsValid (take num proc) cs cands in
      let size' : num ≡ length cs = sym (same' ∙ length-take num proc fits) in
      rw (
        runs,
        runs',
        rows_lem (take num proc) ss cs num size size' contents cands,
        free_all_lem ss num size valid,
        free_all_lem cs num size' valid',
      )
