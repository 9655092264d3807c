-- ===== src/SetCmp/Regions.antt =====
-- `print_inter_simi_mr` of jni/setcmp.c: the pages of each region that occur in other processes.
pub mod Within
use native.Mathlib.Nat.{zero-add}
use mathlib.Core.List.{map-append}
use memdump.Base.Loop.Along.{flat_map_index_lem}
use memdump.Base.{
  select-append, flat_map_index, ℕ, zero, suc, ◌+◌, ◌≤◌, ◌≡◌, ◌==◌, refl, sym, ap, ◌∙◌, ◌&&◌, not,
  Bool, List, [], ◌∷◌, ◌++◌, length, All, All₂, take-length, length-take, arith, Run, ok, ◌>>=◌,
  map, take, drop, select, count_if, if◌then◌else◌, Option, append-nil, append_assoc, flat_map,
  Bool-cases, inl, inr,
}
use memdump.Base.Int.{pos_part}
use memdump.Base.Loop.{for_each, fold_run}
use memdump.Base.Loop.Laws.{fold_count, for_each-eq-fold_run}
use memdump.Mem.{
  MemReg, Process, Page, page_to_u32, page_is_zero, pages_of, regions_of, mr_get_name, proc_mr_num,
}
use memdump.RbTree.{RbTree}
use memdump.Simi.{Set, data_init}
use memdump.Simi.Insert.{IsValid}
use memdump.SetCmp.{max_pid, found_in_other_sets, set_from_proc}
use memdump.SetCmp.Report.{
  dup_page, mr_dup_inter, mr_nonzero_num, inter_simi_mr, print_inter_simi_mr,
}
use memdump.SetCmp.Sets.{IsRead, IsLoaded, is_used, pages_lem}
use memdump.SetCmp.Content.{set_from_proc_lem}
use memdump.SetCmp.Elsewhere.{occurs_elsewhere, found_from_lem}
use memdump.SetCmp.Arrays.{sets_of_lem}
use memdump.SetCmp.Inter.{used_hashes, Content, Content-IsValid, occurs_in_sets}

-- A line of the report.
abbrev pub Line : Type 0
Line = ℕ × ℕ × Option (List ℕ)

-- The used pages of a region whose hash a used page of another process than number `i` has.
abbrev pub region_dup : ℕ → List Process → ℕ → MemReg → ℕ
region_dup zero_page_hash ps i mr =
    count_if
      (λ page.
        is_used zero_page_hash page
        && occurs_elsewhere i (page_to_u32 page) 0 (map (used_hashes zero_page_hash) ps))
      (pages_of mr)

abbrev pub region_line : ℕ → List Process → ℕ → MemReg → Line
region_line zero_page_hash ps i mr = (
  region_dup zero_page_hash ps i mr,
  count_if (is_used zero_page_hash) (pages_of mr),
  mr_get_name mr,
)

-- The lines of a process: the regions with such pages.
abbrev pub region_lines : ℕ → List Process → ℕ → Process → List Line
region_lines zero_page_hash ps i p =
    map (region_line zero_page_hash ps i)
      (select (λ mr. not (region_dup zero_page_hash ps i mr == 0)) (regions_of p))

module _ (zero_page_hash : ℕ) ⦃rb : RbTree⦄ where
  dup_page_lem :
      (ps : List Process) (ss : List Set) (i : ℕ) (page : Page) (dup : ℕ)
      → All₂ (Content zero_page_hash) ps ss
      → dup_page zero_page_hash ss (length ss) i page dup
        ≡ ok (
            if is_used zero_page_hash page
              && occurs_elsewhere i (page_to_u32 page) 0 (map (used_hashes zero_page_hash) ps)
            then dup + 1
            else dup)
  unfolding dup_page found_in_other_sets data_init
  dup_page_lem ps ss i page dup h =
      let d = data_init (page_to_u32 page) in
      let valid : All IsValid (take (length ss) (drop 0 ss)) =
        rw take-length (Content-IsValid zero_page_hash ps ss h).0 in
      let found = found_from_lem (length ss) 0 ss d i (omega arith) valid in
      let same = occurs_in_sets zero_page_hash i (page_to_u32 page) 0 ps ss h in
      ground (arith, found, same, take-length ss)

  mr_dup_inter_lem :
      (ps : List Process) (ss : List Set) (i : ℕ) (mr : MemReg)
      → All₂ (Content zero_page_hash) ps ss
      → IsRead mr
      → mr_dup_inter zero_page_hash ss (length ss) mr i ≡ ok (region_dup zero_page_hash ps i mr)
  unfolding mr_dup_inter
  mr_dup_inter_lem ps ss i mr h read =
      pages_lem _ _ (λ page dup. dup_page_lem ps ss i page dup h) mr 0 read
      ∙ ap ok (fold_count _ (pages_of mr) 0 ∙ zero-add _)

  pub mr_nonzero_num_lem :
      (mr : MemReg)
      → IsRead mr
      → mr_nonzero_num zero_page_hash mr ≡ ok (count_if (is_used zero_page_hash) (pages_of mr))
  unfolding mr_nonzero_num
  mr_nonzero_num_lem mr read =
      pages_lem _ (λ page n. if is_used zero_page_hash page then n + 1 else n)
        (λ page n. ground arith) mr 0 read
      ∙ ap ok (fold_count _ (pages_of mr) 0 ∙ zero-add _)

  inter_simi_mr_lem :
      (ps : List Process) (ss : List Set) (num i : ℕ) (mr : MemReg) (out : List Line)
      → num ≡ length ss
      → All₂ (Content zero_page_hash) ps ss
      → IsRead mr
      → inter_simi_mr zero_page_hash ss num i mr out
        ≡ ok (
            out
            ++ map
                (region_line zero_page_hash ps i)
                (select (λ mr. not (region_dup zero_page_hash ps i mr == 0)) (mr ∷ [])))
  unfolding inter_simi_mr
  inter_simi_mr_lem ps ss num i mr out e h read =
      elim (Bool-cases (region_dup zero_page_hash ps i mr == 0)) [
        | inl none_there ↦
            rw (e, mr_dup_inter_lem ps ss i mr h read, none_there) (ap ok (sym (append-nil out)))
        | inr some_there ↦
            rw (e, mr_dup_inter_lem ps ss i mr h read, some_there, mr_nonzero_num_lem mr read) refl
      ]

  regions_lem :
      (ps : List Process) (ss : List Set) (num i : ℕ) (mrs : List MemReg) (out : List Line)
      → num ≡ length ss
      → All₂ (Content zero_page_hash) ps ss
      → All IsRead mrs
      → fold_run (inter_simi_mr zero_page_hash ss num i) mrs out
        ≡ ok (
            out
            ++ map
                (region_line zero_page_hash ps i)
                (select (λ mr. not (region_dup zero_page_hash ps i mr == 0)) mrs))
  regions_lem ps ss num i [] out e h read = ap ok (sym (append-nil out))
  regions_lem ps ss num i (mr ∷ mrs) out e h read =
      let q = λ (mr : MemReg). not (region_dup zero_page_hash ps i mr == 0) in
      let line = region_line zero_page_hash ps i in
      rw (inter_simi_mr_lem ps ss num i mr out e h read.0) (
        regions_lem ps ss num i mrs (out ++ map line (select q (mr ∷ []))) e h read.1
        ∙ ap ok (
            append_assoc out _ _
            ∙ ap (◌++◌ out) (
                sym (map-append line (select q (mr ∷ [])) (select q mrs))
                ∙ ap (map line) (sym (select-append q (mr ∷ []) mrs)))))

  -- For at most `MAX_PID` loaded processes the report is printed, with no access out of range. Its
  -- lines are, process by process and in order, the regions with a page, not zero, whose hash a
  -- page of another process has: how many such pages it has, how many that are not zero, and its
  -- name.
  pub print_inter_simi_mr_lem :
      (proc : List Process) (num : ℕ)
      → num ≤ max_pid
      → num ≤ length proc
      → All IsLoaded (take num proc)
      → print_inter_simi_mr zero_page_hash proc num
        ≡ ok (flat_map_index (region_lines zero_page_hash (take num proc)) 0 (take num proc))
  unfolding print_inter_simi_mr
  print_inter_simi_mr_lem proc num small fits h =
      let (ss, runs, contents) =
        sets_of_lem (Content zero_page_hash) (set_from_proc zero_page_hash)
          (set_from_proc_lem zero_page_hash) num 0 proc [] (omega arith) (omega arith) h in
      let (valid, same) = Content-IsValid zero_page_hash (take num proc) ss contents in
      let size : num ≡ length ss = sym (same ∙ length-take num proc fits) in
      rw runs (
        flat_map_index_lem IsLoaded
          (λ i p out.
            for_each (pos_part (proc_mr_num p)) 0 p.maps
              (λ _. inter_simi_mr zero_page_hash ss num i) out)
          (region_lines zero_page_hash (take num proc))
          (λ i p out loaded.
            for_each-eq-fold_run _ (pos_part (proc_mr_num p)) 0 p.maps out (omega (arith, loaded.0))
            ∙ regions_lem (take num proc) ss num i (regions_of p) out size contents loaded.1)
          num 0 proc [] (omega arith) h)
