-- ===== src/Mem/Pagemap/Region.antt =====
-- What `mr_parse_pagemap` makes of a whole region: the counts of all its pages, and the lines of
-- those that are swapped out.
use native.Mathlib.Numerals.{add-one}
use mathlib.Core.Path.{subst}
use memdump.Base.{
  ℕ, zero, suc, ◌+◌, ◌-◌, ◌*◌, ◌/◌, ◌%◌, ◌^◌, ◌==◌, ◌≡◌, ◌≤◌, ◌<◌, ◌∙◌, ltb, true, false,
  if◌then◌else◌, List, [], ◌++◌, length, get_elem?, some, min, ok, arith, refl, ap,
}
use memdump.Base.Int.{pos}
use memdump.Base.Loop.{for_each}
use memdump.Base.Loop.Laws.{elem_at}
use memdump.Mem.{Page, MemReg, span}
use memdump.Mem.Flags.{PageFlags}
use memdump.Mem.Read.{u64}
use memdump.Mem.Read.Laws.{IsMapped}
use memdump.Mem.Pagemap.{
  pagemap, kpageflags, kpagecount, Kernel, pagemap_pfn, do_u64_read, walk_entry, walk_pagemap,
  mr_parse_pagemap,
}
use memdump.Mem.Pagemap.Laws.{swap_lines, show_swapped_lem}
use memdump.Mem.Pagemap.Content.{Answers, pagemap_pfn-lt, count_entry-share}
use memdump.Mem.Pagemap.Counted.{
  counted, lines_from, IsCountedTo, stored, IsCountedTo-stored, IsCountedTo-none,
}

-- A kernel that answers each read in full: the entry of each page, and the count of each frame.
pub record Provides (k : Kernel) (entry count : ℕ → ℕ) : Type 0 where
  pub entries :
      (index n : ℕ)
      → index + n ≤ 2 ^ 52
      → (buf : List ℕ) × (k.pread pagemap (n * 8) (index * 8) ≡ (pos (n * 8), buf))
        × ((i : ℕ) → i < n → get_elem? buf i ≡ some (entry (index + i)))
  pub flags : (pfn : ℕ) → pfn < 2 ^ 55 → (word : ℕ) × Answers k kpageflags pfn word
  pub counts : (pfn : ℕ) → pfn < 2 ^ 55 → Answers k kpagecount pfn (count pfn)

module _ (entry count : ℕ → ℕ) where
  module _ (k : Kernel) (provides : Provides k entry count) (start : ℕ) (aligned : start % 4096 ≡ 0)
      (pages : List Page) (low : start / 4096 + length pages ≤ 2 ^ 52) where
    walk_entry-step :
        (index i n : ℕ) (s : List Page × List PageFlags)
        → index + i ≡ start / 4096 + n
        → n < length pages
        → IsCountedTo entry count (start / 4096) n pages s
        → (s' : List Page × List PageFlags) × (walk_entry k start index i
              (entry (start / 4096 + n))
              s
            ≡ ok s')
          × IsCountedTo entry count (start / 4096) (suc n) pages s'
    unfolding walk_entry
    walk_entry-step index i n s here below inv =
        let val = entry (start / 4096 + n) in
        let (page, at) = elem_at n pages below in
        let b : ltb n n ≡ false = ground arith in
        let now : get_elem? s.0 n ≡ some page = inv.page n page at ∙ rw b refl in
        let small = pagemap_pfn-lt val in
        let (word, answer) = provides.flags (pagemap_pfn val) small in
        let runs =
          count_entry-share k start index i val word (count (pagemap_pfn val)) n s.0 page aligned
            here (omega arith) now answer (provides.counts (pagemap_pfn val) small) in
        let number : u64 (index + i) ≡ start / 4096 + n = omega arith in
        (
          (stored entry count val n page s.0, s.1 ++ swap_lines (start / 4096 + n) val),
          rw (runs, number, show_swapped_lem (start / 4096 + n) val s.1) refl,
          IsCountedTo-stored entry count (start / 4096) n pages s page at now inv,
        )

    walk_entries-step :
        (buf : List ℕ) (index m : ℕ)
        → ((i : ℕ) → i < m → get_elem? buf i ≡ some (entry (index + i)))
        → (left i n : ℕ) (s : List Page × List PageFlags) → i + left ≤ m
        → index + i ≡ start / 4096 + n
        → n + left ≤ length pages
        → IsCountedTo entry count (start / 4096) n pages s
        → (s' : List Page × List PageFlags) × (for_each left i buf (walk_entry k start index) s
            ≡ ok s')
          × IsCountedTo entry count (start / 4096) (n + left) pages s'
    unfolding for_each
    walk_entries-step buf index m at zero i n s fits here below inv =
        (s, refl, subst (λ n. IsCountedTo entry count (start / 4096) n pages s) (omega arith) inv)
    walk_entries-step buf index m at (suc left) i n s fits here below inv =
        let (s1, runs, inv1) = walk_entry-step index i n s here (omega arith) inv in
        let (s2, rest, inv2) =
          walk_entries-step buf index m at left (suc i) (suc n) s1 (omega arith) (omega arith)
            (omega arith) inv1 in
        let same : entry (index + i) ≡ entry (start / 4096 + n) = ap entry here in
        (
          s2,
          rw (at i (omega arith), same, runs, add-one) rest,
          subst (λ n. IsCountedTo entry count (start / 4096) n pages s2) (omega arith) inv2,
        )

    read_entries :
        (index n : ℕ)
        → index + n ≤ 2 ^ 52
        → (buf : List ℕ) × (do_u64_read k pagemap index n ≡ ok (n, buf))
          × ((i : ℕ) → i < n → get_elem? buf i ≡ some (entry (index + i)))
    unfolding do_u64_read
    read_entries index n top =
        let (buf, answer, at) = provides.entries index n top in
        let inside : ltb ((2 ^ 64 - 1) / 8) index ≡ false = ground arith in
        let bytes : u64 (n * 8) ≡ n * 8 = omega arith in
        let offset : u64 (index * 8) ≡ index * 8 = omega arith in
        let whole : (n * 8 % 8 == 0) ≡ true = ground arith in
        let words : n * 8 / 8 ≡ n = omega arith in
        (buf, rw (inside, bytes, offset, answer, whole, words) refl, at)

    walk_pagemap-batch :
        (fuel index rest batch : ℕ) (buf : List ℕ) (s s1 s2 : List Page × List PageFlags)
        → batch ≡ min (suc rest) 16_384
        → index + suc rest ≤ 2 ^ 52
        → do_u64_read k pagemap index batch ≡ ok (batch, buf)
        → for_each batch 0 buf (walk_entry k start index) s ≡ ok s1
        → walk_pagemap k fuel (index + batch) (suc rest - batch) start s1 ≡ ok s2
        → walk_pagemap k (suc fuel) index (suc rest) start s ≡ ok s2
    unfolding walk_pagemap
    walk_pagemap-batch fuel index rest batch buf s s1 s2 size top reads runs ends =
        let more : (suc rest == 0) ≡ false = ground arith in
        let some_read : (batch == 0) ≡ false = ground arith in
        let next : u64 (index + batch) ≡ index + batch = omega arith in
        let left : u64 (suc rest + 2 ^ 64 - batch) ≡ suc rest - batch = omega arith in
        rw (more, ← size, reads, some_read, runs, next, left) ends

    walk_pagemap-step :
        (fuel index left n : ℕ) (s : List Page × List PageFlags)
        → left ≤ fuel
        → index ≡ start / 4096 + n
        → n + left ≤ length pages
        → IsCountedTo entry count (start / 4096) n pages s
        → (s' : List Page × List PageFlags) × (walk_pagemap k fuel index left start s ≡ ok s')
          × IsCountedTo entry count (start / 4096) (n + left) pages s'
    unfolding walk_pagemap
    walk_pagemap-step zero index zero n s more here below inv =
        (s, refl, subst (λ n. IsCountedTo entry count (start / 4096) n pages s) (omega arith) inv)
    walk_pagemap-step zero index (suc count) n s more here below inv = absurd (omega arith)
    walk_pagemap-step (suc fuel) index zero n s more here below inv =
        (s, refl, subst (λ n. IsCountedTo entry count (start / 4096) n pages s) (omega arith) inv)
    walk_pagemap-step (suc fuel) index (suc rest) n s more here below inv =
        let batch = min (suc rest) 16_384 in
        let (buf, reads, at) = read_entries index batch (omega arith) in
        let (s1, runs, inv1) =
          walk_entries-step buf index batch at batch 0 n s (omega arith) (omega arith) (omega arith)
            inv in
        let (s2, ends, inv2) =
          walk_pagemap-step fuel (index + batch) (suc rest - batch) (n + batch) s1 (omega arith)
            (omega arith) (omega arith) inv1 in
        (
          s2,
          walk_pagemap-batch fuel index rest batch buf s s1 s2 refl (omega arith) reads runs ends,
          subst (λ n. IsCountedTo entry count (start / 4096) n pages s2) (omega arith) inv2,
        )

  -- For a mapped region of whole pages and a kernel that answers each read in full, the pagemap is
  -- read to the end. Afterwards each page of the region that has a frame has the count of its frame,
  -- as an `int`; a page that has none keeps what its field `share` held, and no other page and no
  -- other field changes. Exactly the lines of the pages that are swapped out are printed, in order.
  pub mr_parse_pagemap_content :
      (k : Kernel) (mr : MemReg)
      → Provides k entry count
      → IsMapped mr
      → mr.start % 4096 ≡ 0
      → span mr / 4096 ≤ length mr.pages
      → mr.start / 4096 + length mr.pages ≤ 2 ^ 52
      → (pages : List Page) × (mr_parse_pagemap k mr
          ≡ ok (
            record mr { pages = pages },
            lines_from entry count (mr.start / 4096) (span mr / 4096),
          ))
        × (length pages ≡ length mr.pages)
        × ((i : ℕ) (page : Page)
            → get_elem? mr.pages i ≡ some page
            → get_elem? pages i
              ≡ some (
                  if ltb i (span mr / 4096)
                  then counted entry count (entry (mr.start / 4096 + i)) page
                  else page))
  unfolding mr_parse_pagemap
  mr_parse_pagemap_content k mr provides mapped aligned fits low =
      let n = span mr / 4096 in
      let (s, runs, inv_all) =
        walk_pagemap-step k provides mr.start aligned mr.pages low n (mr.start / 4096) n 0
          (mr.pages, []) (omega arith) (omega arith) (omega (arith, fits))
          (IsCountedTo-none entry count (mr.start / 4096) mr.pages) in
      let all : 0 + n ≡ n = omega arith in
      let inv = subst (λ m. IsCountedTo entry count (mr.start / 4096) m mr.pages s) all inv_all in
      (s.0, rw runs (ap (λ out. ok (record mr { pages = s.0 }, out)) inv.lines), inv.size, inv.page)
