-- ===== src/SetCmp/Sets.antt =====
-- The loops of jni/setcmp.c over the pages of a process, as plain loops over lists: where the
-- arrays are as long as the counts say, no read is out of range.
use memdump.Base.{
  ℕ, ◌≤◌, ◌≡◌, refl, sym, ap, ◌∙◌, Bool, not, ◌&&◌, List, [], ◌∷◌, ◌++◌, length, All, arith, Run,
  ok, select, if◌then◌else◌, map,
}
use memdump.Base.Int.{pos, pos_part, lt_int}
use memdump.Base.Loop.{for_each, fold_run, fold}
use memdump.Base.Loop.Laws.{for_each-eq-fold_run, for_each_pure, fold-append}
use memdump.Mem.{
  Page, MemReg, Process, proc_mr_num, mr_page_num, page_is_zero, page_count, page_to_u32, pages_of,
  regions_of,
}
use memdump.RbTree.{Data, RbTree}
use memdump.Simi.{Set, set_init, data_init, set_add, set_in}
use memdump.Simi.Canonical.{add_all}
use memdump.SetCmp.{
  set_from_mr, uniq_set_from_mr, add_page, cand_add_page, uniq_add_page, set_from_proc, set_add_mr,
  uniq_set_from_proc, cand_set_from_proc, cand_set_add_mr,
}

-- The arrays of regions and of pages have as many elements as the program counts.
abbrev pub IsRead : MemReg → Type 0
IsRead mr = pos_part (mr_page_num mr) ≤ length mr.pages

abbrev pub IsLoaded : Process → Type 0
IsLoaded p = (pos_part (proc_mr_num p) ≤ length p.maps) × All IsRead (regions_of p)

-- The pages of a process, in the order of the loops.
abbrev pub pages_in : List MemReg → List Page
pages_in [] = []
pages_in (mr ∷ mrs) = pages_of mr ++ pages_in mrs

abbrev pub all_pages : Process → List Page
all_pages p = pages_in (regions_of p)

-- A page counts if it is not zero; it is a candidate if it is not shared either.
abbrev pub is_used : ℕ → Page → Bool
is_used zero_page_hash page = not (page_is_zero zero_page_hash page)

abbrev pub is_candidate : ℕ → Page → Bool
is_candidate zero_page_hash page =
    is_used zero_page_hash page && not (lt_int (pos 1) (page_count page))

abbrev pub data_of : List Page → List Data
data_of pages = map (λ page. data_init (page_to_u32 page)) pages

module _ {ℓ} {S : Type ℓ} (f : Page → S → Run S) (g : Page → S → S)
    (h : (page : Page) (s : S) → f page s ≡ ok (g page s)) where
  pub pages_lem :
      (mr : MemReg) (s : S)
      → IsRead mr
      → for_each (pos_part (mr_page_num mr)) 0 mr.pages (λ _. f) s ≡ ok (fold g (pages_of mr) s)
  pages_lem mr s fits = for_each_pure f g _ mr.pages s h fits

  regions_lem :
      (mrs : List MemReg) (s : S)
      → All IsRead mrs
      → fold_run (λ mr s. for_each (pos_part (mr_page_num mr)) 0 mr.pages (λ _. f) s) mrs s
        ≡ ok (fold g (pages_in mrs) s)
  regions_lem [] s fits = refl
  regions_lem (mr ∷ mrs) s fits =
      rw (pages_lem mr s fits.0)
        (regions_lem mrs _ fits.1 ∙ ap ok (sym (fold-append g (pages_of mr) (pages_in mrs) s)))

  pub process_lem :
      (p : Process) (s : S)
      → IsLoaded p
      → for_each
          (pos_part (proc_mr_num p))
          0
          p.maps
          (λ _ mr s. for_each (pos_part (mr_page_num mr)) 0 mr.pages (λ _. f) s)
          s
        ≡ ok (fold g (all_pages p) s)
  process_lem p s (fits, read) =
      for_each-eq-fold_run _ _ 0 p.maps s (omega arith) ∙ regions_lem (regions_of p) s read

fold-select {ℓ κ} :
    {A : Type ℓ} {S : Type κ} (q : A → Bool) (f : A → S → S) (xs : List A) (s : S)
    → fold (λ x s. if q x then f x s else s) xs s ≡ fold f (select q xs) s
fold-select q f [] s = refl
fold-select q f (x ∷ xs) s = ground (arith, fold-select q f xs s, fold-select q f xs (f x s))

fold-map {ℓ κ} :
    {A : Type ℓ} {S : Type κ} (f : Data → S → S) (g : A → Data) (xs : List A) (s : S)
    → fold (λ x s. f (g x) s) xs s ≡ fold f (map g xs) s
fold-map f g [] s = refl
fold-map f g (x ∷ xs) s = fold-map f g xs (f (g x) s)

module _ ⦃rb : RbTree⦄ where
  -- The entry is added unless its value is stored already.
  abbrev pub add_new : Data → Set → Set
  add_new d s = if set_in s d then s else set_add s d

module _ (zero_page_hash : ℕ) ⦃rb : RbTree⦄ where
  -- A loop body that adds the pages that pass a test.
  abbrev pub adding : (Page → Bool) → (Data → Set → Set) → Page → Set → Set
  adding q f page s = if q page then f (data_init (page_to_u32 page)) s else s

  pub fold-adding :
      (q : Page → Bool) (f : Data → Set → Set) (pages : List Page) (s : Set)
      → fold (adding q f) pages s ≡ fold f (data_of (select q pages)) s
  fold-adding q f pages s =
      fold-select q (λ page s. f (data_init (page_to_u32 page)) s) pages s
      ∙ fold-map f (λ page. data_init (page_to_u32 page)) (select q pages) s

  add_page_lem :
      (page : Page) (s : Set)
      → add_page zero_page_hash page s
        ≡ ok (adding (is_used zero_page_hash) (λ d s. set_add s d) page s)
  unfolding add_page
  add_page_lem page s = ground arith

  cand_add_page_lem :
      (page : Page) (s : Set)
      → cand_add_page zero_page_hash page s
        ≡ ok (adding (is_candidate zero_page_hash) (λ d s. set_add s d) page s)
  unfolding cand_add_page
  cand_add_page_lem page s = ground arith

  uniq_add_page_lem :
      (page : Page) (s : Set)
      → uniq_add_page zero_page_hash page s
        ≡ ok (adding (is_candidate zero_page_hash) add_new page s)
  unfolding uniq_add_page
  uniq_add_page_lem page s = ground arith

  pub set_from_mr_runs :
      (mr : MemReg)
      → IsRead mr
      → set_from_mr zero_page_hash mr
        ≡ ok (add_all (data_of (select (is_used zero_page_hash) (pages_of mr))) set_init)
  unfolding set_from_mr set_add_mr
  set_from_mr_runs mr h =
      pages_lem _ _ add_page_lem mr set_init h ∙ ap ok (fold-adding _ _ (pages_of mr) set_init)

  pub uniq_set_from_mr_runs :
      (mr : MemReg)
      → IsRead mr
      → uniq_set_from_mr zero_page_hash mr
        ≡ ok (fold add_new (data_of (select (is_candidate zero_page_hash) (pages_of mr))) set_init)
  unfolding uniq_set_from_mr
  uniq_set_from_mr_runs mr h =
      pages_lem _ _ uniq_add_page_lem mr set_init h ∙ ap ok (fold-adding _ _ (pages_of mr) set_init)

  pub set_from_proc_runs :
      (p : Process)
      → IsLoaded p
      → set_from_proc zero_page_hash p
        ≡ ok (add_all (data_of (select (is_used zero_page_hash) (all_pages p))) set_init)
  unfolding set_from_proc set_add_mr
  set_from_proc_runs p h =
      process_lem _ _ add_page_lem p set_init h ∙ ap ok (fold-adding _ _ (all_pages p) set_init)

  pub cand_set_from_proc_runs :
      (p : Process)
      → IsLoaded p
      → cand_set_from_proc zero_page_hash p
        ≡ ok (add_all (data_of (select (is_candidate zero_page_hash) (all_pages p))) set_init)
  unfolding cand_set_from_proc cand_set_add_mr
  cand_set_from_proc_runs p h =
      process_lem _ _ cand_add_page_lem p set_init h
      ∙ ap ok (fold-adding _ _ (all_pages p) set_init)

  pub uniq_set_from_proc_runs :
      (p : Process)
      → IsLoaded p
      → uniq_set_from_proc zero_page_hash p
        ≡ ok (fold add_new (data_of (select (is_candidate zero_page_hash) (all_pages p))) set_init)
  unfolding uniq_set_from_proc
  uniq_set_from_proc_runs p h =
      process_lem _ _ uniq_add_page_lem p set_init h
      ∙ ap ok (fold-adding _ _ (all_pages p) set_init)
