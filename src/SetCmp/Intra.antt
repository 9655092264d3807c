-- ===== src/SetCmp/Intra.antt =====
-- `print_intra_simi` of jni/setcmp.c: the duplicates within each process.
use memdump.Base.{
  ℕ, ◌≤◌, ◌≡◌, sym, ap, ap₂, ◌∙◌, List, [], ◌∷◌, ◌++◌, length, All, arith, ok, ◌>>=◌, map, take,
  append-nil, append_assoc, select, count_if,
}
use memdump.Base.Int.{ℤ, sub_ℕ}
use memdump.Base.Loop.{fold_run}
use memdump.Base.Loop.Laws.{for_each-eq-fold_run}
use memdump.Mem.{Process}
use memdump.RbTree.{RbTree}
use memdump.Simi.Free.{set_free_lem}
use memdump.SetCmp.{intra_simi, print_intra_simi}
use memdump.SetCmp.Sets.{IsLoaded, all_pages, is_used, is_candidate}
use memdump.SetCmp.Content.{set_from_proc_lem, hashes_of}
use memdump.SetCmp.Distinct.{uniq_set_from_proc_lem, distinct}

module _ (zero_page_hash : ℕ) ⦃rb : RbTree⦄ where
  -- The number of pages that are not zero, less the number of distinct hashes of those that are
  -- not shared either.
  abbrev pub intra_count : Process → ℤ
  intra_count p =
      sub_ℕ (count_if (is_used zero_page_hash) (all_pages p))
        (distinct (hashes_of (select (is_candidate zero_page_hash) (all_pages p))))

  intra_simi_lem : (p : Process) → IsLoaded p → intra_simi zero_page_hash p ≡ ok (intra_count p)
  unfolding intra_simi
  intra_simi_lem p h =
      let (s, runs, content) = set_from_proc_lem zero_page_hash p h in
      let (u, runs', unique) = uniq_set_from_proc_lem zero_page_hash p h in
      let (freed, frees, perm) = set_free_lem s content.valid in
      let (freed', frees', perm') = set_free_lem u unique.valid in
      rw (runs, runs', frees, frees') (ap ok (ap₂ sub_ℕ content.sized unique.sized))

  -- For loaded processes the report ends, with one number for each process, in order: its pages
  -- that are not zero, less the distinct hashes among those that are not shared either.
  pub print_intra_simi_lem :
      (proc : List Process) (num : ℕ)
      → num ≤ length proc
      → All IsLoaded (take num proc)
      → print_intra_simi zero_page_hash proc num ≡ ok (map intra_count (take num proc))
  unfolding print_intra_simi
  print_intra_simi_lem proc num fits h =
      for_each-eq-fold_run (λ p out. intra_simi zero_page_hash p >>= λ dup. ok (out ++ (dup ∷ [])))
        num 0 proc [] (omega arith)
      ∙ collect (take num proc) [] h
    where
      collect :
          (ps : List Process) (out : List ℤ)
          → All IsLoaded ps
          → fold_run (λ p out. intra_simi zero_page_hash p >>= λ dup. ok (out ++ (dup ∷ []))) ps out
            ≡ ok (out ++ map intra_count ps)
      collect [] out h = ap ok (sym (append-nil out))
      collect (p ∷ ps) out h = rw (intra_simi_lem p h.0) (
          collect ps (out ++ (intra_count p ∷ [])) h.1
          ∙ ap ok (append_assoc out (intra_count p ∷ []) (map intra_count ps)))
