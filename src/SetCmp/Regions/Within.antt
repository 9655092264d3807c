-- ===== src/SetCmp/Regions/Within.antt =====
-- `print_intra_process_simi_mr` of jni/setcmp.c: the pages of each region that occur again within
-- it, and in the other regions of its process.
use native.Mathlib.Nat.{zero-add}
use memdump.Base.{
  ℕ, suc, ◌+◌, ◌≤◌, ◌≡◌, ◌==◌, refl, sym, ap, ◌∙◌, ◌&&◌, true, false, List, [], ◌∷◌, ◌++◌, length,
  All, All₂, take_all, length-take, length-map, arith, ok, map, take, select, count_if,
  if◌then◌else◌, Option, append-nil, flat_map, flat_map_index, flat_map_index_const,
  map_index_const, Bool-cases, inl, inr, mem, to_nat,
}
use memdump.Base.Int.{ℤ, pos_part, sub_ℕ}
use memdump.Base.Loop.Laws.{fold_count, collect_lem}
use memdump.Base.Loop.Along.{flat_map_index_lem}
use memdump.Mem.{
  MemReg, Process, Page, page_to_u32, page_is_zero, pages_of, regions_of, mr_get_name, proc_mr_num,
}
use memdump.RbTree.{RbTree}
use memdump.Simi.{Set, data_init, set_init}
use memdump.Simi.Free.{set_free_lem}
use memdump.Simi.Canonical.{add_all}
use memdump.SetCmp.{found_in_other_sets, set_from_mr}
use memdump.SetCmp.Report.{
  intra_mr_simi, intra_dup, intra_line, intra_proc_simi_mr, print_intra_process_simi_mr,
}
use memdump.SetCmp.Sets.{
  IsRead, IsLoaded, is_used, is_candidate, data_of, pages_lem, set_from_mr_runs,
  uniq_set_from_mr_runs,
}
use memdump.SetCmp.Content.{hashes_of, IsContent, add_all-IsContent}
use memdump.SetCmp.Distinct.{distinct, fold-add_new-IsUnique}
use memdump.SetCmp.Elsewhere.{occurs_elsewhere, found_from_lem}
use memdump.SetCmp.Family.{All₂-IsValid, occurs_in_family}
use memdump.SetCmp.Arrays.{free_all_lem}

abbrev pub Line : Type 0
Line = ℤ × ℕ × Option (List ℕ)

-- The hashes of the used pages of a region.
abbrev pub region_hashes : ℕ → MemReg → List ℕ
region_hashes zero_page_hash mr = hashes_of (select (is_used zero_page_hash) (pages_of mr))

-- The used pages of a region whose hash a used page of another region than number `i` has.
abbrev pub within_dup : ℕ → List MemReg → ℕ → MemReg → ℕ
within_dup zero_page_hash mrs i mr =
    count_if
      (λ page.
        is_used zero_page_hash page
        && occurs_elsewhere i (page_to_u32 page) 0 (map (region_hashes zero_page_hash) mrs))
      (pages_of mr)

-- The used pages of a region, less the distinct hashes of those that are not shared.
abbrev pub same_dup : ℕ → MemReg → ℤ
same_dup zero_page_hash mr =
    sub_ℕ (count_if (is_used zero_page_hash) (pages_of mr))
      (distinct (hashes_of (select (is_candidate zero_page_hash) (pages_of mr))))

-- The line of region number `i`, if it has a page that occurs in another one.
abbrev pub within_line : ℕ → List MemReg → ℕ → MemReg → List Line
within_line zero_page_hash mrs i mr =
    if within_dup zero_page_hash mrs i mr == 0
    then []
    else (same_dup zero_page_hash mr, within_dup zero_page_hash mrs i mr, mr_get_name mr) ∷ []

abbrev pub within_lines : ℕ → Process → List Line
within_lines zero_page_hash p =
    flat_map_index (within_line zero_page_hash (regions_of p)) 0 (regions_of p)

-- The sets leave the pages of zeros out, so these are not found.
zero-hashes :
    (zero_page_hash v : ℕ) (pages : List Page)
    → (v == zero_page_hash) ≡ true
    → mem v (hashes_of (select (is_used zero_page_hash) pages)) ≡ false
unfolding page_is_zero page_to_u32
zero-hashes zero_page_hash v [] h = refl
zero-hashes zero_page_hash v (page ∷ pages) h = ground (arith, zero-hashes zero_page_hash v pages)

zero-elsewhere :
    (zero_page_hash v this i : ℕ) (mrs : List MemReg)
    → (v == zero_page_hash) ≡ true
    → occurs_elsewhere this v i (map (region_hashes zero_page_hash) mrs) ≡ false
zero-elsewhere zero_page_hash v this i [] h = refl
zero-elsewhere zero_page_hash v this i (mr ∷ mrs) h =
    rw (zero-hashes zero_page_hash v (pages_of mr) h)
      (ground (arith, zero-elsewhere zero_page_hash v this (suc i) mrs))

module _ (zero_page_hash : ℕ) ⦃rb : RbTree⦄ where
  abbrev Holds : MemReg → Set → Type 0
  Holds mr s = IsContent zero_page_hash (pages_of mr) s

  abbrev used_set : MemReg → Set
  used_set mr = add_all (data_of (select (is_used zero_page_hash) (pages_of mr))) set_init

  used_sets-Holds : (mrs : List MemReg) → All₂ Holds mrs (map used_set mrs)
  used_sets-Holds [] = tt
  used_sets-Holds (mr ∷ mrs) = (add_all-IsContent zero_page_hash (pages_of mr), used_sets-Holds mrs)

  found_page :
      (mrs : List MemReg) (ss : List Set) (num i : ℕ) (page : Page)
      → num ≡ length ss
      → All₂ Holds mrs ss
      → found_in_other_sets ss num (data_init (page_to_u32 page)) i
        ≡ ok (
            to_nat (
              is_used zero_page_hash page
              && occurs_elsewhere i (page_to_u32 page) 0 (map (region_hashes zero_page_hash) mrs)))
  unfolding found_in_other_sets data_init page_is_zero page_to_u32
  found_page mrs ss num i page e h =
      let d = data_init (page_to_u32 page) in
      let valid = (All₂-IsValid Holds (λ mr s k. k.valid) mrs ss h).0 in
      let found = found_from_lem num 0 ss d i (omega arith) (rw (take_all num ss e) valid) in
      let same =
        occurs_in_family Holds (region_hashes zero_page_hash) (λ mr s k. k.found) i
          (page_to_u32 page) 0 mrs ss h in
      elim (Bool-cases (page_is_zero zero_page_hash page)) [
        | inl is_zero ↦ ground (
          arith,
          found,
          same,
          take_all num ss e,
          zero-elsewhere zero_page_hash (page_to_u32 page) i 0 mrs is_zero,
        )
        | inr is_not ↦ ground (arith, found, same, take_all num ss e)
      ]

  intra_dup_lem :
      (mrs : List MemReg) (ss : List Set) (num i : ℕ) (mr : MemReg)
      → num ≡ length ss
      → All₂ Holds mrs ss
      → IsRead mr
      → intra_dup zero_page_hash ss num i mr ≡ ok (within_dup zero_page_hash mrs i mr)
  unfolding intra_dup
  intra_dup_lem mrs ss num i mr e h read =
      let test = λ (page : Page).
        is_used zero_page_hash page
        && occurs_elsewhere i (page_to_u32 page) 0 (map (region_hashes zero_page_hash) mrs) in
      pages_lem _ (λ page dup. if test page then dup + 1 else dup)
        (λ page dup. rw (found_page mrs ss num i page e h) (ground arith)) mr 0 read
      ∙ ap ok (fold_count test (pages_of mr) 0 ∙ zero-add _)

  intra_mr_simi_lem :
      (mr : MemReg) → IsRead mr → intra_mr_simi zero_page_hash mr ≡ ok (same_dup zero_page_hash mr)
  unfolding intra_mr_simi
  intra_mr_simi_lem mr read =
      let used = add_all-IsContent zero_page_hash (pages_of mr) in
      let unique = fold-add_new-IsUnique zero_page_hash (pages_of mr) in
      let (freed, frees, perm) = set_free_lem _ used.valid in
      let (freed', frees', perm') = set_free_lem _ unique.valid in
      rw
        (
          set_from_mr_runs zero_page_hash mr read,
          uniq_set_from_mr_runs zero_page_hash mr read,
          frees,
          frees',
          used.sized,
          unique.sized,
        )
        refl

  intra_line_lem :
      (mrs : List MemReg) (ss : List Set) (num i : ℕ) (mr : MemReg) (out : List Line)
      → num ≡ length ss
      → All₂ Holds mrs ss
      → IsRead mr
      → intra_line zero_page_hash ss num i mr out ≡ ok (out ++ within_line zero_page_hash mrs i mr)
  unfolding intra_line
  intra_line_lem mrs ss num i mr out e h read =
      elim (Bool-cases (within_dup zero_page_hash mrs i mr == 0)) [
        | inl none_there ↦
            rw (intra_dup_lem mrs ss num i mr e h read, none_there) (ap ok (sym (append-nil out)))
        | inr some_there ↦
            rw (intra_dup_lem mrs ss num i mr e h read, some_there, intra_mr_simi_lem mr read) refl
      ]

  intra_proc_simi_mr_lem :
      (p : Process)
      → IsLoaded p
      → intra_proc_simi_mr zero_page_hash p ≡ ok (within_lines zero_page_hash p)
  unfolding intra_proc_simi_mr
  intra_proc_simi_mr_lem p (fits, read) =
      let n = pos_part (proc_mr_num p) in
      let ss = map used_set (regions_of p) in
      let holds = used_sets-Holds (regions_of p) in
      let size : n ≡ length ss =
        omega (arith, length-map used_set (regions_of p), length-take n p.maps fits) in
      let built =
        collect_lem IsRead (λ _. set_from_mr zero_page_hash) (λ _. used_set)
          (λ _. set_from_mr_runs zero_page_hash) n 0 p.maps [] (omega arith) read
        ∙ ap ok (map_index_const used_set 0 (regions_of p)) in
      let report =
        flat_map_index_lem IsRead (intra_line zero_page_hash ss n)
          (within_line zero_page_hash (regions_of p))
          (λ i mr out. intra_line_lem (regions_of p) ss n i mr out size holds) n 0 p.maps []
          (omega arith) read in
      let valid = (All₂-IsValid Holds (λ mr s k. k.valid) (regions_of p) ss holds).0 in
      rw (built, report, free_all_lem ss n size valid) refl

  -- For loaded processes the report is printed, with no access out of range. Its lines are, process
  -- by process and in order, the regions with a page, not zero, whose hash a page of another region
  -- of the process has: the number of its pages that are not zero less the distinct hashes of those
  -- that are not shared either, the number of such pages, and its name. Pages of zeros, which the
  -- loop looks up too, are never found.
  pub print_intra_process_simi_mr_lem :
      (proc : List Process) (num : ℕ)
      → num ≤ length proc
      → All IsLoaded (take num proc)
      → print_intra_process_simi_mr zero_page_hash proc num
        ≡ ok (flat_map (within_lines zero_page_hash) (take num proc))
  unfolding print_intra_process_simi_mr
  print_intra_process_simi_mr_lem proc num fits h =
      flat_map_index_lem IsLoaded _ (λ _. within_lines zero_page_hash)
        (λ i p out loaded. rw (intra_proc_simi_mr_lem p loaded) refl) num 0 proc [] (omega arith) h
      ∙ ap ok (flat_map_index_const (within_lines zero_page_hash) 0 (take num proc))
