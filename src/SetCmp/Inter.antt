-- ===== src/SetCmp/Inter.antt =====
-- `print_inter_simi` of jni/setcmp.c: the pages of each process that occur in another one.
use native.Mathlib.Nat.{zero-add}
use memdump.Base.{
  ℕ, ◌+◌, ◌≤◌, ◌≡◌, sym, ap, ◌∙◌, ◌&&◌, List, [], length, All, All₂, map_index, take-length,
  length-take, arith, ok, map, take, drop, select, count_if, if◌then◌else◌,
}
use memdump.Base.Loop.Laws.{collect_lem, fold_count}
use memdump.Mem.{Process, Page, page_to_u32}
use memdump.RbTree.{RbTree}
use memdump.Simi.{Set, data_init}
use memdump.Simi.Insert.{IsValid}
use memdump.SetCmp.{
  max_pid, found_in_other_sets, inter_page, inter_simi, print_inter_simi, set_from_proc,
}
use memdump.SetCmp.Sets.{IsLoaded, all_pages, is_used, is_candidate, process_lem}
use memdump.SetCmp.Content.{set_from_proc_lem, hashes_of, IsContent}
use memdump.SetCmp.Elsewhere.{occurs_elsewhere, values_of, found_from_lem}
use memdump.SetCmp.Family.{All₂-IsValid, occurs_in_family}
use memdump.SetCmp.Arrays.{sets_of_lem, free_all_lem}

-- The hashes of the used pages of a process.
abbrev pub used_hashes : ℕ → Process → List ℕ
used_hashes zero_page_hash p = hashes_of (select (is_used zero_page_hash) (all_pages p))

-- How many candidate pages of process number `i` have a hash that a used page of another has.
abbrev pub inter_count : ℕ → List Process → ℕ → Process → ℕ
inter_count zero_page_hash proc i p =
    count_if
      (λ page.
        is_candidate zero_page_hash page
        && occurs_elsewhere i (page_to_u32 page) 0 (map (used_hashes zero_page_hash) proc))
      (all_pages p)

module _ (zero_page_hash : ℕ) ⦃rb : RbTree⦄ where
  abbrev pub Content : Process → Set → Type 0
  Content p s = IsContent zero_page_hash (all_pages p) s

  pub Content-IsValid :
      (ps : List Process) (ss : List Set)
      → All₂ Content ps ss
      → All IsValid ss × (length ss ≡ length ps)
  Content-IsValid = All₂-IsValid Content (λ p s h. h.valid)

  -- Looking up in the sets is looking up among the hashes of the processes.
  pub occurs_in_sets :
      (this v i : ℕ) (ps : List Process) (ss : List Set)
      → All₂ Content ps ss
      → occurs_elsewhere this v i (map values_of ss)
        ≡ occurs_elsewhere this v i (map (used_hashes zero_page_hash) ps)
  occurs_in_sets = occurs_in_family Content (used_hashes zero_page_hash) (λ p s h. h.found)

  inter_page_lem :
      (ps : List Process) (ss : List Set) (i : ℕ) (page : Page) (dup : ℕ)
      → All₂ Content ps ss
      → inter_page zero_page_hash ss (length ss) i page dup
        ≡ ok (
            if is_candidate zero_page_hash page
              && occurs_elsewhere i (page_to_u32 page) 0 (map (used_hashes zero_page_hash) ps)
            then dup + 1
            else dup)
  unfolding inter_page found_in_other_sets data_init
  inter_page_lem ps ss i page dup h =
      let d = data_init (page_to_u32 page) in
      let valid : All IsValid (take (length ss) (drop 0 ss)) =
        rw take-length (Content-IsValid ps ss h).0 in
      let found = found_from_lem (length ss) 0 ss d i (omega arith) valid in
      let same = occurs_in_sets i (page_to_u32 page) 0 ps ss h in
      ground (arith, found, same, take-length ss)

  inter_simi_lem :
      (ps : List Process) (ss : List Set) (num i : ℕ) (p : Process)
      → num ≡ length ss
      → All₂ Content ps ss
      → IsLoaded p
      → inter_simi zero_page_hash ss num i p ≡ ok (inter_count zero_page_hash ps i p)
  unfolding inter_simi
  inter_simi_lem ps ss num i p e h loaded = rw e (
      process_lem _ _ (λ page dup. inter_page_lem ps ss i page dup h) p 0 loaded
      ∙ ap ok (fold_count _ (all_pages p) 0 ∙ zero-add _))

  -- For at most `MAX_PID` loaded processes the report ends, with no access out of range. For each
  -- process, in order, it has the number of its pages that are neither zero nor shared and whose
  -- hash is that of a page, not zero, of another process.
  pub print_inter_simi_lem :
      (proc : List Process) (num : ℕ)
      → num ≤ max_pid
      → num ≤ length proc
      → All IsLoaded (take num proc)
      → print_inter_simi zero_page_hash proc num
        ≡ ok (map_index (inter_count zero_page_hash (take num proc)) 0 (take num proc))
  unfolding print_inter_simi
  print_inter_simi_lem proc num small fits h =
      let (ss, runs, contents) =
        sets_of_lem Content (set_from_proc zero_page_hash) (set_from_proc_lem zero_page_hash) num 0
          proc [] (omega arith) (omega arith) h in
      let (valid, same) = Content-IsValid (take num proc) ss contents in
      let size : num ≡ length ss = sym (same ∙ length-take num proc fits) in
      let report =
        collect_lem IsLoaded (inter_simi zero_page_hash ss num)
          (inter_count zero_page_hash (take num proc))
          (λ i p. inter_simi_lem (take num proc) ss num i p size contents) num 0 proc []
          (omega arith) h in
      rw (runs, report, free_all_lem ss num size valid)
