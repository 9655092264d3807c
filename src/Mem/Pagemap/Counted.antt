-- ===== src/Mem/Pagemap/Counted.antt =====
-- How far the pagemap of a region has been read: the counts of the pages, and the lines of those
-- that are swapped out.
use mathlib.Core.Option.{some-injective}
use memdump.Base.{
  ℕ, zero, suc, ◌+◌, ◌==◌, ==_iff, ◌≡◌, ◌≢◌, ◌∙◌, ltb, true, false, Bool, if◌then◌else◌, List, [],
  ◌++◌, length, length-set, get_elem?, get_elem?-set_self, get_elem?-set_ne, lt_of_get_elem?, some,
  set, arith, inl, inr, Bool-cases, refl, sym, ap, ap₂,
}
use memdump.Base.Int.{to_int}
use memdump.Mem.{Page}
use memdump.Mem.Flags.{PageFlags}
use memdump.Mem.Pagemap.{pagemap_pfn}
use memdump.Mem.Pagemap.Laws.{swap_lines}

module _ (entry count : ℕ → ℕ) where
  -- A page after its entry: it has the count of its frame, if it has a frame.
  abbrev pub counted : ℕ → Page → Page
  counted val page =
      if pagemap_pfn val == 0
      then page
      else record page { share = to_int (count (pagemap_pfn val)) }

  -- The lines of `n` pages from the page `first` of the address space on.
  abbrev pub lines_from : ℕ → ℕ → List PageFlags
  lines_from first zero = []
  lines_from first (suc n) = lines_from first n ++ swap_lines (first + n) (entry (first + n))

  -- The first `n` pages are done.
  pub record IsCountedTo (first n : ℕ) (pages : List Page) (s : List Page × List PageFlags)
      : Type 0 where
    pub size : length s.0 ≡ length pages
    pub page :
        (i : ℕ) (page : Page)
        → get_elem? pages i ≡ some page
        → get_elem? s.0 i ≡ some (if ltb i n then counted (entry (first + i)) page else page)
    pub lines : s.1 ≡ lines_from first n

  -- The pages after the entry `val` of page number `n`, which was `page`.
  abbrev pub stored : ℕ → ℕ → Page → List Page → List Page
  stored val n page now =
      if pagemap_pfn val == 0
      then now
      else set now n (record page { share = to_int (count (pagemap_pfn val)) })

  stored_lem :
      (val n : ℕ) (page : Page) (now : List Page)
      → get_elem? now n ≡ some page
      → (get_elem? (stored val n page now) n ≡ some (counted val page))
        × ((i : ℕ) → n ≢ i → get_elem? (stored val n page now) i ≡ get_elem? now i)
        × (length (stored val n page now) ≡ length now)
  stored_lem val n page now at = elim (Bool-cases (pagemap_pfn val == 0)) [
    | inl e ↦ rw e (at, (λ i ne. refl), refl)
    | inr e ↦ rw e (
      get_elem?-set_self now n _ (lt_of_get_elem? now n at),
      (λ i ne. get_elem?-set_ne now n i _ ne),
      length-set now n _,
    )
  ]

  pub IsCountedTo-none : (first : ℕ) (pages : List Page) → IsCountedTo first 0 pages (pages, [])
  IsCountedTo-none first pages = record {
    size = refl;
    page = λ i page at.
        let none_yet : ltb i 0 ≡ false = ground arith in
        at
        ∙ ap (λ (b : Bool). some (if b then counted (entry (first + i)) page else page))
            (sym none_yet);
    lines = refl;
  }

  -- The page `i`, when the page `n` has just been done.
  stored-page :
      (first n i : ℕ) (page q : Page) (now : List Page)
      → get_elem? now n ≡ some page
      → (n ≡ i → page ≡ q)
      → get_elem? now i ≡ some (if ltb i n then counted (entry (first + i)) q else q)
      → get_elem? (stored (entry (first + n)) n page now) i
        ≡ some (if ltb i (suc n) then counted (entry (first + i)) q else q)
  stored-page first n i page q now at the_same before =
      let lem = stored_lem (entry (first + n)) n page now at in
      elim (Bool-cases (n == i)) [
        | inl e ↦
            let same : n ≡ i = (==_iff n i).0 e in
            let new : ltb i (suc n) ≡ true = ground arith in
            ap (get_elem? (stored (entry (first + n)) n page now)) (sym same)
            ∙ lem.0
            ∙ ap₂ (λ (j : ℕ) (r : Page). some (counted (entry (first + j)) r)) same (the_same same)
            ∙ rw new refl
        | inr e ↦
            let differ : n ≢ i = λ same. let yes = (==_iff n i).1 same in cc in
            let old : ltb i n ≡ ltb i (suc n) = ground arith in
            lem.1 i differ
            ∙ before
            ∙ ap (λ (b : Bool). some (if b then counted (entry (first + i)) q else q)) old
      ]

  pub IsCountedTo-stored :
      (first n : ℕ) (pages : List Page) (s : List Page × List PageFlags) (page : Page)
      → get_elem? pages n ≡ some page
      → get_elem? s.0 n ≡ some page
      → IsCountedTo first n pages s
      → IsCountedTo first
          (suc n)
          pages
          (stored (entry (first + n)) n page s.0, s.1 ++ swap_lines (first + n) (entry (first + n)))
  IsCountedTo-stored first n pages s page at now inv = record {
    size = (stored_lem (entry (first + n)) n page s.0 now).2 ∙ inv.size;
    page = λ i q at_i.
        stored-page first n i page q s.0 now
          (λ same. some-injective page q (sym at ∙ ap (get_elem? pages) same ∙ at_i))
          (inv.page i q at_i);
    lines = ap (λ out. out ++ swap_lines (first + n) (entry (first + n))) inv.lines;
  }
