-- ===== src/Tests/Swap.antt =====
-- A region whose pages are in memory, swapped out, or neither, in jni/mem.c.
use memdump.Base.{
  All, All₂, flat_map, true, ℕ, zero, suc, ◌+◌, ◌*◌, ◌/◌, ◌≡◌, ◌==◌, ◌<◌, ◌∙◌, ltb, if◌then◌else◌,
  List, [], ◌∷◌, length, replicate, length-replicate, get_elem?, some, ok, arith, refl, ap,
}
use memdump.Base.Int.{pos}
use memdump.Mem.{Page, Process, regions_of, mr_is_anon, mr_page_num}
use memdump.Mem.Pagemap.{File, pagemap, kpageflags, kpagecount, Kernel, mr_parse_pagemap}
use memdump.Mem.Pagemap.Counted.{counted, lines_from}
use memdump.Mem.Pagemap.Region.{Provides, mr_parse_pagemap_content}
use memdump.Mem.Maps.{region_of}
use memdump.Mem.Read.{proc_do}
use memdump.Mem.Files.{parse_regions}
use memdump.Mem.Files.Content.{IsGood, region_lines, HasMemory, proc_do_content}
use memdump.Memdump.Laws.{kept_of}
use memdump.Tests.Dumper.{
  region, page, stdio, started, lines, lines_read, few_kept, zeros, zeros-HasSize, zero_content,
  zeros-IsReadable, zeros-Mine,
}

-- The page 1 is in the frame 5, the page 2 is swapped out, and no other page is anywhere.
abbrev entry : ℕ → ℕ
entry i =
    if i == 1 then 9_223_372_036_854_775_813 else if i == 2 then 4_611_686_018_427_388_064 else 0

abbrev entries : ℕ → ℕ → List ℕ
entries index zero = []
entries index (suc n) = entry index ∷ entries (suc index) n

length-entries : (index n : ℕ) → length (entries index n) ≡ n
length-entries index zero = refl
length-entries index (suc n) = ap suc (length-entries (suc index) n)

get_elem?-entries :
    (index n i : ℕ) → i < n → get_elem? (entries index n) i ≡ some (entry (index + i))
get_elem?-entries index zero i below = absurd (omega arith)
get_elem?-entries index (suc n) zero below =
    let same : index ≡ index + 0 = omega arith in ap (λ i. some (entry i)) same
get_elem?-entries index (suc n) (suc i) below =
    let same : suc index + i ≡ index + suc i = omega arith in
    get_elem?-entries (suc index) n i (omega arith) ∙ ap (λ i. some (entry i)) same

abbrev words : File → ℕ → ℕ → List ℕ
words pagemap index n = entries index n
words kpageflags index n = replicate n 3
words kpagecount index n = replicate n 3

length-words : (file : File) (index n : ℕ) → length (words file index n) ≡ n
length-words pagemap index n = length-entries index n
length-words kpageflags index n = length-replicate {A = ℕ} n 3
length-words kpagecount index n = length-replicate {A = ℕ} n 3

abbrev swapping : Kernel
swapping = record {
  pread = λ file bytes offset. (pos (bytes / 8 * 8), words file (offset / 8) (bytes / 8));
  pread_le = λ file bytes offset. omega arith;
  pread_fills = λ file bytes offset. omega (arith, length-words file (offset / 8) (bytes / 8));
}

swapping-Provides : Provides swapping entry (λ pfn. 3)
swapping-Provides = record {
  entries = λ index n top.
      let number : n * 8 / 8 ≡ n = omega arith in
      let first : index * 8 / 8 ≡ index = omega arith in
      (entries index n, rw (number, first) refl, get_elem?-entries index n);
  flags = λ pfn small. (3, ([], refl));
  counts = λ pfn small. ([], refl);
}

mr_parse_pagemap_content_example :
    (pages : List Page) × (mr_parse_pagemap swapping (region 4096 (page 7 ∷ page 7 ∷ []))
      ≡ ok (
        record (region 4096 (page 7 ∷ page 7 ∷ [])) { pages = pages },
        lines_from entry (λ pfn. 3) 1 2,
      ))
    × (length pages ≡ 2)
    × ((i : ℕ) (page' : Page)
        → get_elem? (page 7 ∷ page 7 ∷ []) i ≡ some page'
        → get_elem? pages i
          ≡ some (if ltb i 2 then counted entry (λ pfn. 3) (entry (1 + i)) page' else page'))
mr_parse_pagemap_content_example =
    mr_parse_pagemap_content entry (λ pfn. 3) swapping (region 4096 (page 7 ∷ page 7 ∷ []))
      swapping-Provides (omega arith) refl (omega arith) (omega arith)

kept-IsGood : All IsGood (kept_of stdio true lines_read)
unfolding region_of mr_is_anon mr_page_num
kept-IsGood = omega arith

proc_do_content_example :
    (read marked : Process) × (file' : ℕ) × (proc_do zeros stdio started lines 0 ≡ ok (read, file'))
    × (parse_regions swapping read
        ≡ ok (marked, flat_map (region_lines entry (λ pfn. 3)) (kept_of stdio true lines_read)))
    × All₂
        (HasMemory zero_content entry (λ pfn. 3))
        (kept_of stdio true lines_read)
        (regions_of marked)
proc_do_content_example =
    proc_do_content zeros zero_content zeros-IsReadable entry (λ pfn. 3) swapping swapping-Provides
      stdio started lines lines_read 0 zeros-HasSize (zeros-Mine 0) (refl, (refl, (refl, tt)))
      kept-IsGood few_kept
