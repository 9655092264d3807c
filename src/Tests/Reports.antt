-- ===== src/Tests/Reports.antt =====
-- The reports of jni/setcmp.c on two small processes.
use memdump.Base.{
  ◌<◌, flat_map, flat_map_index, ℕ, ◌+◌, ◌*◌, ◌≡◌, refl, List, [], ◌∷◌, length, ok, fault, arith,
  none, some, map, map_index,
}
use memdump.Base.Int.{pos}
use memdump.RbTree.Plain.{plain}
use memdump.Mem.{
  Page, MemReg, Process, proc_mr_num, mr_page_num, page_is_zero, page_count, page_to_u32,
}
use memdump.Simi.{Set, set_init}
use memdump.Simi.Insert.{IsValid, set_init-IsValid}
use memdump.Simi.Canonical.{add_all, add_all-IsValid}
use memdump.SetCmp.{uniq_set_from_proc, print_intra_simi, print_inter_simi}
use memdump.SetCmp.Report.{print_total_dup, print_inter_simi_mr, print_intra_process_simi_mr}
use memdump.SetCmp.Sets.{IsLoaded, all_pages}
use memdump.SetCmp.Distinct.{IsUnique, uniq_set_from_proc_lem}
use memdump.SetCmp.Intra.{intra_count, print_intra_simi_lem}
use memdump.SetCmp.Inter.{inter_count, print_inter_simi_lem}
use memdump.SetCmp.Total.{candidates, print_total_dup_fault}
use memdump.SetCmp.Total.Success.{total_line, print_total_dup_lem}
use memdump.SetCmp.Regions.{region_lines, print_inter_simi_mr_lem}
use memdump.SetCmp.Regions.Within.{within_lines, print_intra_process_simi_mr_lem}

abbrev page : ℕ → ℕ → Page
page h n = record { hash = h; share = pos n }

-- A region of as many pages as are given, and a process of one region.
abbrev region : List Page → MemReg
region pages = record {
  start = 4096;
  end = 4096 * (length pages + 1);
  pathname = none;
  pages = pages;
  r = b'r';
  w = b'w';
  x = b'-';
  s = b'p';
}

abbrev process : List Page → Process
process pages = record {
  pid = pos 1;
  maps = region pages ∷ [];
  maps_size = 1;
  maps_cap = 4;
  maps_file = some 3;
  mem_file = some 4;
  pagemap_fd = pos 5;
  no_name_cnt = 0;
}

-- Pages with the hashes 7, 7 and 9, a zero page, and a page with the hash 5 that is shared.
abbrev first : Process
first = process (page 7 1 ∷ page 7 1 ∷ page 9 1 ∷ page 0 1 ∷ page 5 2 ∷ [])

abbrev second : Process
second = process (page 7 1 ∷ page 5 1 ∷ [])

-- Only a zero page.
abbrev bare : Process
bare = process (page 0 1 ∷ [])

first-IsLoaded : IsLoaded first
unfolding proc_mr_num mr_page_num
first-IsLoaded = omega arith

second-IsLoaded : IsLoaded second
unfolding proc_mr_num mr_page_num
second-IsLoaded = omega arith

bare-IsLoaded : IsLoaded bare
unfolding proc_mr_num mr_page_num
bare-IsLoaded = omega arith

uniq_set_from_proc_lem_example :
    (s : Set) × (uniq_set_from_proc 0 first ≡ ok s) × IsUnique 0 (all_pages first) s
uniq_set_from_proc_lem_example = uniq_set_from_proc_lem 0 first first-IsLoaded

print_intra_simi_lem_example :
    print_intra_simi 0 (first ∷ second ∷ []) 2 ≡ ok (map (intra_count 0) (first ∷ second ∷ []))
print_intra_simi_lem_example =
    print_intra_simi_lem 0 (first ∷ second ∷ []) 2 (omega arith)
      (first-IsLoaded, (second-IsLoaded, tt))

print_inter_simi_lem_example :
    print_inter_simi 0 (first ∷ second ∷ []) 2
    ≡ ok (map_index (inter_count 0 (first ∷ second ∷ [])) 0 (first ∷ second ∷ []))
print_inter_simi_lem_example =
    print_inter_simi_lem 0 (first ∷ second ∷ []) 2 (omega arith) (omega arith)
      (first-IsLoaded, (second-IsLoaded, tt))

none_left : candidates 0 bare ≡ 0
unfolding proc_mr_num mr_page_num page_is_zero page_count page_to_u32
none_left = refl

print_total_dup_fault_example : print_total_dup 0 (first ∷ bare ∷ []) 2 ≡ fault
print_total_dup_fault_example =
    print_total_dup_fault 0 (first ∷ bare ∷ []) 2 1 bare (omega arith) (omega arith)
      (first-IsLoaded, (bare-IsLoaded, tt)) refl none_left

some_left : (0 < candidates 0 first) × (0 < candidates 0 second)
unfolding proc_mr_num mr_page_num page_is_zero page_count page_to_u32
some_left = omega arith

print_total_dup_lem_example :
    print_total_dup 0 (first ∷ second ∷ []) 2
    ≡ ok (map_index (total_line 0 (first ∷ second ∷ [])) 0 (first ∷ second ∷ []))
print_total_dup_lem_example =
    print_total_dup_lem 0 (first ∷ second ∷ []) 2 (omega arith) (omega arith)
      (first-IsLoaded, (second-IsLoaded, tt)) (some_left.0, (some_left.1, tt))

print_inter_simi_mr_lem_example :
    print_inter_simi_mr 0 (first ∷ second ∷ []) 2
    ≡ ok (flat_map_index (region_lines 0 (first ∷ second ∷ [])) 0 (first ∷ second ∷ []))
print_inter_simi_mr_lem_example =
    print_inter_simi_mr_lem 0 (first ∷ second ∷ []) 2 (omega arith) (omega arith)
      (first-IsLoaded, (second-IsLoaded, tt))

print_intra_process_simi_mr_lem_example :
    print_intra_process_simi_mr 0 (first ∷ second ∷ []) 2
    ≡ ok (flat_map (within_lines 0) (first ∷ second ∷ []))
print_intra_process_simi_mr_lem_example =
    print_intra_process_simi_mr_lem 0 (first ∷ second ∷ []) 2 (omega arith)
      (first-IsLoaded, (second-IsLoaded, tt))

abbrev set_of : List ℕ → Set
set_of vs = add_all (map (λ (v : ℕ). record { v = v }) vs) set_init

set_of-IsValid : (vs : List ℕ) → IsValid (set_of vs)
set_of-IsValid vs = add_all-IsValid (map (λ (v : ℕ). record { v = v }) vs) set_init set_init-IsValid
