-- ===== src/Cmp/Pairs.antt =====
-- The sets of jni/cmp.c: one for each region, with the hashes of its candidate pages.
use mathlib.Core.Path.{fun_ext}
use memdump.Base.{
  ℕ, ◌≡◌, ap, ◌∙◌, ◌&&◌, Bool, List, [], arith, ok, select, map, count_if, mem, map_index_const,
  if◌then◌else◌,
}
use memdump.Base.Int.{pos, pos_part, lt_int}
use memdump.Base.Loop.Laws.{collect_lem}
use memdump.Mem.{
  Page, MemReg, Process, proc_mr_num, page_is_zero, page_count, page_to_u32, pages_of, regions_of,
}
use memdump.RbTree.{Data, RbTree, values}
use memdump.Simi.{Set, set_init, data_init, set_add, set_found_in}
use memdump.Simi.Insert.{IsValid, set_init-IsValid}
use memdump.Simi.Found.{set_found_in_lem}
use memdump.Simi.Canonical.{add_all, add_all-IsValid, count_if-add_all}
use memdump.SetCmp.Sets.{IsRead, IsLoaded, is_candidate, data_of, pages_lem, adding, fold-adding}
use memdump.SetCmp.Content.{hashes_of, mem-add_all, values-data_of}
use memdump.SetCmp.Matrix.{count_if-data_of}
use memdump.Cmp.{build_set_from_mr, build_sets}

-- The pages of the first region, neither zero nor shared, whose hash a page of the second region,
-- neither zero nor shared, has too.
abbrev pub dup_count : ℕ → MemReg → MemReg → ℕ
dup_count zero_page_hash m1 m2 =
    count_if
      (λ page.
        is_candidate zero_page_hash page
        && mem (page_to_u32 page) (hashes_of (select (is_candidate zero_page_hash) (pages_of m2))))
      (pages_of m1)

module _ (zero_page_hash : ℕ) ⦃rb : RbTree⦄ where
  abbrev pub region_data : MemReg → List Data
  region_data m = data_of (select (is_candidate zero_page_hash) (pages_of m))

  abbrev pub region_set : MemReg → Set
  region_set m = add_all (region_data m) set_init

  pub region_set-IsValid : (m : MemReg) → IsValid (region_set m)
  region_set-IsValid m = add_all-IsValid (region_data m) set_init set_init-IsValid

  build_page_lem :
      (page : Page) (s : Set)
      → (if page_is_zero zero_page_hash page
          then ok s
          else (if lt_int (pos 1) (page_count page)
              then ok s
              else ok (set_add s (data_init (page_to_u32 page)))))
        ≡ ok (adding zero_page_hash (is_candidate zero_page_hash) (λ d s. set_add s d) page s)
  build_page_lem page s = ground arith

  build_set_from_mr_lem :
      (m : MemReg) → IsRead m → build_set_from_mr zero_page_hash m ≡ ok (region_set m)
  unfolding build_set_from_mr
  build_set_from_mr_lem m h =
      pages_lem _ _ build_page_lem m set_init h
      ∙ ap ok (fold-adding zero_page_hash _ _ (pages_of m) set_init)

  pub build_sets_lem :
      (p : Process) → IsLoaded p → build_sets zero_page_hash p ≡ ok (map region_set (regions_of p))
  unfolding build_sets
  build_sets_lem p (fits, read) =
      collect_lem IsRead (λ _. build_set_from_mr zero_page_hash) (λ _. region_set)
        (λ _. build_set_from_mr_lem) (pos_part (proc_mr_num p)) 0 p.maps [] (omega arith) read
      ∙ ap ok (map_index_const region_set 0 (regions_of p))

  mem-region_set :
      (v : ℕ) (m : MemReg)
      → mem v (values (region_set m).root)
        ≡ mem v (hashes_of (select (is_candidate zero_page_hash) (pages_of m)))
  mem-region_set v m =
      unfold set_init in
      ground (
        arith,
        mem-add_all v (region_data m) set_init set_init-IsValid,
        ap (mem v) (values-data_of (select (is_candidate zero_page_hash) (pages_of m))),
      )

  pub found_regions :
      (m1 m2 : MemReg)
      → set_found_in (region_set m1) (region_set m2) ≡ ok (dup_count zero_page_hash m1 m2)
  found_regions m1 m2 =
      let q = λ (v : ℕ). mem v (hashes_of (select (is_candidate zero_page_hash) (pages_of m2))) in
      set_found_in_lem (region_set m1) (region_set m2) (region_set-IsValid m2)
      ∙ ap ok (
          ap (λ (q : ℕ → Bool). count_if q (values (region_set m1).root))
            (fun_ext λ v. mem-region_set v m2)
          ∙ unfold set_init in
            omega (
              arith,
              count_if-add_all q (region_data m1) set_init set_init-IsValid,
              count_if-data_of zero_page_hash q (pages_of m1),
            ))
