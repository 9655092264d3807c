-- ===== src/SetCmp/Content.antt =====
-- What is in the set of all used pages of a process (`set_from_proc` of jni/setcmp.c).
use memdump.Base.{
  ℕ, ◌+◌, ◌≡◌, refl, ap, ◌∙◌, ◌&&◌, ◌||◌, ◌==◌, List, [], ◌∷◌, length, arith, ok, select, map,
  count, count_if, mem, length-map, count_if-select,
}
use memdump.Mem.{Page, Process, page_to_u32}
use memdump.RbTree.{Data, RbTree, values}
use memdump.Simi.{Set, set_init, set_add, set_size, data_init}
use memdump.Simi.Order.{mem-insert_after}
use memdump.Simi.Insert.{IsValid, set_add_lem, set_init-IsValid}
use memdump.Simi.Canonical.{add_all, add_all-IsValid, count-add_all}
use memdump.SetCmp.{set_from_proc}
use memdump.SetCmp.Sets.{IsLoaded, all_pages, is_used, data_of, set_from_proc_runs}

abbrev pub hashes_of : List Page → List ℕ
hashes_of pages = map page_to_u32 pages

module _ ⦃rb : RbTree⦄ where
  size-add_all : (ds : List Data) (s : Set) → (add_all ds s).size ≡ length ds + s.size
  unfolding set_add
  size-add_all [] s = omega arith
  size-add_all (d ∷ ds) s = omega (arith, size-add_all ds (set_add s d))

  pub mem-add_all :
      (v : ℕ) (ds : List Data) (s : Set)
      → IsValid s
      → mem v (values (add_all ds s).root)
        ≡ (mem v (map (λ (d : Data). d.v) ds) || mem v (values s.root))
  mem-add_all v [] s h = refl
  mem-add_all v (d ∷ ds) s h =
      let (valid, added) = set_add_lem s d h in
      ground (
        arith,
        mem-add_all v ds (set_add s d) valid,
        ap (mem v) added,
        mem-insert_after v d.v (values s.root),
      )

  -- What the set of all used pages holds.
  pub record IsContent (zero_page_hash : ℕ) (pages : List Page) (s : Set) : Type 0 where
    pub valid : IsValid s
    pub sized : set_size s ≡ count_if (is_used zero_page_hash) pages
    pub counted :
        (v : ℕ)
        → count v (values s.root)
          ≡ count_if (λ page. is_used zero_page_hash page && page_to_u32 page == v) pages
    pub found :
        (v : ℕ) → mem v (values s.root) ≡ mem v (hashes_of (select (is_used zero_page_hash) pages))

pub values-data_of : (pages : List Page) → map (λ (d : Data). d.v) (data_of pages) ≡ hashes_of pages
unfolding data_init
values-data_of [] = refl
values-data_of (page ∷ pages) = ap (◌∷◌ (page_to_u32 page)) (values-data_of pages)

count-data_of :
    (zero_page_hash v : ℕ) (pages : List Page)
    → count_if (λ (d : Data). d.v == v) (data_of (select (is_used zero_page_hash) pages))
      ≡ count_if (λ page. is_used zero_page_hash page && page_to_u32 page == v) pages
unfolding data_init
count-data_of zero_page_hash v [] = refl
count-data_of zero_page_hash v (page ∷ pages) = ground (arith, count-data_of zero_page_hash v pages)

length-data_of :
    (zero_page_hash : ℕ) (pages : List Page)
    → length (data_of (select (is_used zero_page_hash) pages)) + 0
      ≡ count_if (is_used zero_page_hash) pages
length-data_of zero_page_hash pages = omega (
  arith,
  length-map (λ page. data_init (page_to_u32 page)) (select (is_used zero_page_hash) pages),
  count_if-select (is_used zero_page_hash) pages,
)

module _ (zero_page_hash : ℕ) ⦃rb : RbTree⦄ where
  -- The set made of the used pages.
  pub add_all-IsContent :
      (pages : List Page)
      → IsContent zero_page_hash pages
          (add_all (data_of (select (is_used zero_page_hash) pages)) set_init)
  add_all-IsContent pages =
      let ds = data_of (select (is_used zero_page_hash) pages) in
      let init = set_init-IsValid in
      record {
        valid = add_all-IsValid ds set_init init;
        sized =
            unfold set_size set_init in
            size-add_all ds set_init ∙ length-data_of zero_page_hash pages;
        counted = λ v.
            unfold set_init in
            omega (arith, count-add_all v ds set_init init, count-data_of zero_page_hash v pages);
        found = λ v.
            unfold set_init in
            ground (
              arith,
              mem-add_all v ds set_init init,
              ap (mem v) (values-data_of (select (is_used zero_page_hash) pages)),
            );
      }

  -- Where the arrays of the process are as long as its counts say, the loops end with no read out
  -- of range, in a valid set that holds the hash of each page that is not zero, as often as there
  -- are such pages, and whose `size` is their number.
  pub set_from_proc_lem :
      (p : Process)
      → IsLoaded p
      → (s : Set) × (set_from_proc zero_page_hash p ≡ ok s)
        × IsContent zero_page_hash (all_pages p) s
  set_from_proc_lem p h = (
    add_all (data_of (select (is_used zero_page_hash) (all_pages p))) set_init,
    set_from_proc_runs zero_page_hash p h,
    add_all-IsContent (all_pages p),
  )
