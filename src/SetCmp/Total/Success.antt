-- ===== src/SetCmp/Total/Success.antt =====
-- `print_total_dup` of jni/setcmp.c where no set is empty.
use mathlib.Core.Path.{fun_ext}
use memdump.Base.{
  Bool, ℕ, lt_of_get_elem?, ◌≤◌, ◌<◌, ◌≡◌, ◌==◌, false, sym, ap, ap₂, ◌∙◌, List, [], ◌∷◌, ◌++◌,
  length, All, All₂, map_index, length-take, arith, ok, map, take, select, count_if, get_elem?,
  some,
}
use memdump.Base.Loop.Along.{All_at, All₂-length, All₂_at, for_each_along}
use memdump.Base.Loop.Laws.{elem_at}
use memdump.Mem.{Process}
use memdump.RbTree.{RbTree, values}
use memdump.RbTree.Walk.{nodes, length-values}
use memdump.Simi.{Set, set_size}
use memdump.SetCmp.{max_pid}
use memdump.SetCmp.Sets.{IsLoaded, all_pages, is_used, is_candidate}
use memdump.SetCmp.Content.{hashes_of}
use memdump.SetCmp.Distinct.{distinct}
use memdump.SetCmp.Family.{occurs_in_family}
use memdump.SetCmp.Elsewhere.{occurs_elsewhere, values_of}
use memdump.SetCmp.Report.{print_total_dup}
use memdump.SetCmp.Total.{
  candidates, total_dup_lem, Content, Unique, build_lem, Unique-IsValid, line,
}

abbrev pub candidate_hashes : ℕ → Process → List ℕ
candidate_hashes zero_page_hash p = hashes_of (select (is_candidate zero_page_hash) (all_pages p))

-- The line of process number `i`: how many distinct hashes of its pages, neither zero nor shared,
-- another process has for such a page too, and how many of its pages are not zero.
abbrev pub total_line : ℕ → List Process → ℕ → Process → ℕ × ℕ
total_line zero_page_hash ps i p = (
  distinct (
      select (λ v. occurs_elsewhere i v 0 (map (candidate_hashes zero_page_hash) ps))
        (candidate_hashes zero_page_hash p)),
  count_if (is_used zero_page_hash) (all_pages p),
)

module _ (zero_page_hash : ℕ) ⦃rb : RbTree⦄ where
  -- Looking up in the sets is looking up among the hashes of the processes.
  occurs_in_uniques :
      (this v i : ℕ) (ps : List Process) (us : List Set)
      → All₂ (Unique zero_page_hash) ps us
      → occurs_elsewhere this v i (map values_of us)
        ≡ occurs_elsewhere this v i (map (candidate_hashes zero_page_hash) ps)
  occurs_in_uniques =
      occurs_in_family (Unique zero_page_hash) (candidate_hashes zero_page_hash) (λ p u h. h.found)

  line_lem :
      (ps : List Process) (ss us : List Set) (num i : ℕ) (p : Process) (u : Set)
      (out : List (ℕ × ℕ))
      → num ≡ length us
      → All₂ (Content zero_page_hash) ps ss
      → All₂ (Unique zero_page_hash) ps us
      → 0 < candidates zero_page_hash p
      → get_elem? ps i ≡ some p
      → get_elem? us i ≡ some u
      → line zero_page_hash ss us num i u out ≡ ok (out ++ (total_line zero_page_hash ps i p ∷ []))
  unfolding set_size
  line_lem ps ss us num i p u out size contents uniques some_left at_p at_u =
      let ps_ss = All₂-length (Content zero_page_hash) ps ss contents in
      let (s, at_s) = elem_at i ss (omega (arith, lt_of_get_elem? ps i at_p)) in
      let content = All₂_at (Content zero_page_hash) ps ss i p s contents at_p at_s in
      let unique = All₂_at (Unique zero_page_hash) ps us i p u uniques at_p at_u in
      let full : (nodes u.root == 0) ≡ false =
        ground (arith, unique.sized, unique.valid.counted, length-values u.root) in
      let found =
        ap (λ (q : ℕ → Bool). count_if q (values u.root))
          (fun_ext λ v. occurs_in_uniques i v 0 ps us uniques)
        ∙ unique.counted _ in
      rw (total_dup_lem us num i u size (Unique-IsValid zero_page_hash ps us uniques).0, full, at_s)
        (ap₂ (λ (dup all : ℕ). ok (out ++ ((dup, all) ∷ []))) found content.sized)

  -- For at most `MAX_PID` loaded processes, each with a page that is neither zero nor shared, the
  -- report is printed, with no access out of range. For each process it has the number of distinct
  -- hashes of such pages that another process has for such a page too, and the number of its pages
  -- that are not zero.
  pub print_total_dup_lem :
      (proc : List Process) (num : ℕ)
      → num ≤ max_pid
      → num ≤ length proc
      → All IsLoaded (take num proc)
      → All (λ p. 0 < candidates zero_page_hash p) (take num proc)
      → print_total_dup zero_page_hash proc num
        ≡ ok (map_index (total_line zero_page_hash (take num proc)) 0 (take num proc))
  unfolding print_total_dup
  print_total_dup_lem proc num small fits h some_left =
      let (ss, us, runs, contents, uniques) =
        build_lem zero_page_hash num 0 proc [] [] (omega arith) (omega arith) h in
      let (valid, same) = Unique-IsValid zero_page_hash (take num proc) us uniques in
      let size : num ≡ length us = sym (same ∙ length-take num proc fits) in
      rw runs (
        for_each_along (take num proc) us (line zero_page_hash ss us num)
          (total_line zero_page_hash (take num proc)) same
          (λ i p u out at_p at_u.
            line_lem (take num proc) ss us num i p u out size contents uniques
              (All_at (λ p. 0 < candidates zero_page_hash p) (take num proc) i p some_left at_p)
              at_p at_u)
          num 0 [] (omega (arith, length-take num proc fits)))
