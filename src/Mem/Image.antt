-- ===== src/Mem/Image.antt =====
-- The pages of a process as its memory and the kernel's files have them, where each page has
-- a frame.
use mathlib.Core.Option.{some-injective}
use mathlib.Core.List.{map-append}
use memdump.Base.{
  ℕ, zero, suc, ◌+◌, ◌*◌, ◌/◌, ◌<◌, ◌==◌, ◌≡◌, ◌∙◌, false, refl, sym, ap, ap₂, some, List, [], ◌∷◌,
  ◌++◌, map, get_elem?, take, All, All₂, Run, ok, exit, fault, arith,
}
use memdump.Base.Int.{ℤ, pos_part, to_int, to_int_fits}
use memdump.Mem.{page_size, Page, MemReg, Process, mr_page_num, span, pages_of, regions_of}
use memdump.Mem.Hash.{page_hash}
use memdump.Mem.Pagemap.{pagemap_pfn}
use memdump.Mem.Files.Content.{IsGood, HasMemory}
use memdump.SetCmp.Sets.{pages_in, all_pages}

-- The hash of a page of bytes.
abbrev value_or_zero : Run ℕ → ℕ
value_or_zero (ok n) = n
value_or_zero exit = 0
value_or_zero fault = 0

abbrev pub digest : List ℕ → ℕ
digest bytes = value_or_zero (page_hash bytes page_size)

-- A page that a process holds: its bytes, and how many page tables refer to its frame.
pub record Held : Type 0 where
  pub bytes : List ℕ
  pub users : ℤ

-- What the program keeps of it.
abbrev pub kept : Held → Page
kept held = record { hash = digest held.bytes; share = held.users }

module _ (content : ℕ → List ℕ) (entry count : ℕ → ℕ) where
  abbrev pub held_at : MemReg → ℕ → Held
  held_at mr j = record {
    bytes = content (mr.start + j * 4096);
    users = to_int (count (pagemap_pfn (entry (mr.start / 4096 + j))));
  }

  abbrev pub held_from : MemReg → ℕ → ℕ → List Held
  held_from mr j zero = []
  held_from mr j (suc n) = held_at mr j ∷ held_from mr (suc j) n

  -- The pages that a process with these regions holds, in order.
  abbrev pub held_of : List MemReg → List Held
  held_of [] = []
  held_of (mr ∷ mrs) = held_from mr 0 (span mr / 4096) ++ held_of mrs

  abbrev pub page_image : MemReg → ℕ → Page
  page_image mr j = kept (held_at mr j)

  abbrev pub images : MemReg → ℕ → ℕ → List Page
  images mr j zero = []
  images mr j (suc n) = page_image mr j ∷ images mr (suc j) n

  -- What the program keeps of the pages of the regions, in order.
  abbrev pub image_of : List MemReg → List Page
  image_of [] = []
  image_of (mr ∷ mrs) = images mr 0 (span mr / 4096) ++ image_of mrs

  pub images-held_from : (mr : MemReg) (n j : ℕ) → images mr j n ≡ map kept (held_from mr j n)
  images-held_from mr zero j = refl
  images-held_from mr (suc n) j = ap (◌∷◌ (page_image mr j)) (images-held_from mr n (suc j))

  pub image_of-held_of : (mrs : List MemReg) → image_of mrs ≡ map kept (held_of mrs)
  image_of-held_of [] = refl
  image_of-held_of (mr ∷ mrs) =
      ap₂ ◌++◌ (images-held_from mr (span mr / 4096) 0) (image_of-held_of mrs)
      ∙ sym (map-append kept (held_from mr 0 (span mr / 4096)) (held_of mrs))

  -- Each page of the region has a frame.
  abbrev pub IsPresent : MemReg → Type 0
  IsPresent mr =
      (j : ℕ) → j < span mr / 4096 → (pagemap_pfn (entry (mr.start / 4096 + j)) == 0) ≡ false

  take-images :
      (mr : MemReg) (n j : ℕ) (pages : List Page)
      → ((i : ℕ) → i < n → get_elem? pages i ≡ some (page_image mr (j + i)))
      → take n pages ≡ images mr j n
  take-images mr zero j pages at = refl
  take-images mr (suc n) j [] at = absurd (cc (at 0 (omega arith)))
  take-images mr (suc n) j (page ∷ pages) at =
      let here : j + 0 ≡ j = omega arith in
      ap₂ ◌∷◌ (some-injective _ _ (at 0 (omega arith) ∙ ap (λ i. some (page_image mr i)) here)) (
        take-images mr n (suc j) pages (λ i below.
          let there : j + suc i ≡ suc j + i = omega arith in
          at (suc i) (omega arith) ∙ ap (λ i. some (page_image mr i)) there))

  pub take-HasMemory :
      (mr mr' : MemReg)
      → IsGood mr
      → IsPresent mr
      → HasMemory content entry count mr mr'
      → take (span mr / 4096) mr'.pages ≡ images mr 0 (span mr / 4096)
  take-HasMemory mr mr' good present (only, shows) =
      take-images mr (span mr / 4096) 0 mr'.pages (λ i below.
        let (hash, left_there, hashed, at) = shows i (omega arith) in
        let number : i ≡ 0 + i = omega arith in
        let same : hash ≡ digest (content (mr.start + i * 4096)) = sym (ap value_or_zero hashed) in
        at
        ∙ rw (present i below) (
            ap
              (λ hash. some (record {
                hash = hash;
                share = to_int (count (pagemap_pfn (entry (mr.start / 4096 + i))));
              }))
              same)
        ∙ ap (λ i. some (page_image mr i)) number)

  pub pages_of-images :
      (mr mr' : MemReg)
      → IsGood mr
      → IsPresent mr
      → HasMemory content entry count mr mr'
      → pages_of mr' ≡ images mr 0 (span mr / 4096)
  unfolding mr_page_num
  pages_of-images mr mr' good present holds =
      let number : pos_part (to_int (span mr' / 4096)) ≡ span mr / 4096 =
        ap (λ mr. pos_part (to_int (span mr / 4096))) holds.0
        ∙ ap pos_part (to_int_fits (span mr / 4096) (omega arith)) in
      ap (λ n. take n mr'.pages) number ∙ take-HasMemory mr mr' good present holds

  -- A process that holds the regions holds their pages.
  pub all_pages-image :
      (mrs : List MemReg) (p : Process)
      → All IsGood mrs
      → All IsPresent mrs
      → All₂ (HasMemory content entry count) mrs (regions_of p)
      → all_pages p ≡ image_of mrs
  all_pages-image mrs p good present holds = go mrs (regions_of p) good present holds
    where
      go :
          (mrs more : List MemReg)
          → All IsGood mrs
          → All IsPresent mrs
          → All₂ (HasMemory content entry count) mrs more
          → pages_in more ≡ image_of mrs
      go [] [] good present h = refl
      go [] (mr' ∷ more) good present h = absurd h
      go (mr ∷ mrs) [] good present h = absurd h
      go (mr ∷ mrs) (mr' ∷ more) good present h =
          ap₂ ◌++◌ (pages_of-images mr mr' good.0 present.0 h.0) (go mrs more good.1 present.1 h.1)
