-- ===== src/Mem/Pagemap.antt =====
-- The pagemap part of jni/mem.c: how many page tables refer to each page, and
-- the lines of those that are swapped out.
pub mod Laws
pub mod Content
pub mod Counted
pub mod Region
use memdump.Base.{
  ℕ, zero, suc, ◌+◌, ◌-◌, ◌*◌, ◌/◌, ◌%◌, ◌^◌, ◌==◌, ◌≡◌, ◌≤◌, ltb, if◌then◌else◌, Bool, List, [],
  ◌∷◌, ◌++◌, length, get_elem?, set, min, Run, ok, exit, fault, deref, ◌>>=◌,
}
use memdump.Base.Int.{ℤ, pos, negsuc, pos_part, to_int}
use memdump.Base.Loop.{for_each}
use memdump.Mem.{page_size, Page, MemReg, Process, proc_mr_num, span}
use memdump.Mem.Read.{u64}
use memdump.Mem.Flags.{has_bit, PageFlags, walk_swap}

-- The files that are open.
pub data File : Type 0 where
  pagemap kpageflags kpagecount : File

-- `pread` of a number of bytes at an offset: its result, and the buffer afterwards as words. A read
-- that succeeds returns no more than was asked for, and fills that much of the buffer.
pub record Kernel : Type 0 where
  pub pread : File → ℕ → ℕ → ℤ × List ℕ
  pub pread_le : (file : File) (bytes offset : ℕ) → pos_part (pread file bytes offset).0 ≤ bytes
  pub pread_fills :
      (file : File) (bytes offset : ℕ)
      → pos_part (pread file bytes offset).0 / 8 ≤ length (pread file bytes offset).1

-- The bits `PM_PRESENT` and `PM_SWAP`, and `PM_PFRAME`.
abbrev pub pm_present : ℕ → Bool
pm_present val = val / 2 ^ 63 % 2 == 1

abbrev pub pm_pframe : ℕ → ℕ
pm_pframe val = val % 2 ^ 55

unfoldable pub pagemap_pfn : ℕ → ℕ
pagemap_pfn val = if pm_present val then pm_pframe val else 0

-- The number of words read, and the buffer.
abbrev pub words_of : ℤ × List ℕ → Run (ℕ × List ℕ)
words_of (pos bytes, buf) = if bytes % 8 == 0 then ok (bytes / 8, buf) else exit
words_of (negsuc n, buf) = exit

-- The line of an entry that is swapped out.
unfoldable pub show_swapped : ℕ → ℕ → List PageFlags → Run (List PageFlags)
show_swapped voffset val out =
    if has_bit 62 val then (do line ← walk_swap voffset val; ok (out ++ (line ∷ []))) else ok out

module _ (k : Kernel) where
  unfoldable pub do_u64_read : File → ℕ → ℕ → Run (ℕ × List ℕ)
  do_u64_read file index count =
      if ltb ((2 ^ 64 - 1) / 8) index
      then exit
      else words_of (k.pread file (u64 (count * 8)) (u64 (index * 8)))

  -- `mr->pages[page_off].share = cnt[i]` for the page at `voffset + i`.
  unfoldable pub set_share : ℕ → ℕ → ℕ → ℕ → List Page → Run (List Page)
  set_share start voffset i cnt pages = do
    let vaddr = u64 (u64 (voffset + i) * page_size)
    let page_off = u64 (vaddr + 2 ^ 64 - start) / page_size
    page ← deref (get_elem? pages page_off)
    ok (set pages page_off (record page { share = to_int cnt }))

  -- The loop, with fuel, on the pages of a region that begins at `start`. `kpagecount_fd` is open.
  unfoldable pub walk_pfn : ℕ → ℕ → ℕ → ℕ → ℕ → List Page → Run (List Page)
  unfolding set_share do_u64_read
  walk_pfn zero voffset index count start pages = if count == 0 then ok pages else fault
  walk_pfn (suc fuel) voffset index count start pages = if count == 0 then ok pages else (do
    (n, buf) ← do_u64_read kpageflags index (min count 65_536)
    if n == 0 then ok pages else (do
      (c, cnt) ← do_u64_read kpagecount index n
      if c == n
          then (do
            pages' ← for_each n 0 cnt (set_share start voffset) pages
            walk_pfn fuel voffset (u64 (index + n)) (u64 (count + 2 ^ 64 - n)) start pages')
          else exit))

  -- The body for the pagemap entry number `index + i`: its share in the counts,
  -- and all of it, with what is printed.
  unfoldable pub count_entry : ℕ → ℕ → ℕ → ℕ → List Page → Run (List Page)
  unfolding walk_pfn
  count_entry start index i val pages =
      if pagemap_pfn val == 0
      then ok pages
      else walk_pfn 1 (u64 (index + i)) (pagemap_pfn val) 1 start pages

  unfoldable pub walk_entry :
      ℕ → ℕ → ℕ → ℕ → List Page × List PageFlags → Run (List Page × List PageFlags)
  unfolding count_entry show_swapped
  walk_entry start index i val s = do
    pages ← count_entry start index i val s.0
    out ← show_swapped (u64 (index + i)) val s.1
    ok (pages, out)

  unfoldable pub walk_pagemap :
      ℕ → ℕ → ℕ → ℕ → List Page × List PageFlags → Run (List Page × List PageFlags)
  unfolding walk_entry do_u64_read
  walk_pagemap zero index count start s = if count == 0 then ok s else fault
  walk_pagemap (suc fuel) index count start s = if count == 0 then ok s else (do
    (n, buf) ← do_u64_read pagemap index (min count 16_384)
    if n == 0 then ok s else (do
      s' ← for_each n 0 buf (walk_entry start index) s
      walk_pagemap fuel (u64 (index + n)) (u64 (count + 2 ^ 64 - n)) start s'))

  unfoldable pub mr_parse_pagemap : MemReg → Run (MemReg × List PageFlags)
  unfolding walk_pagemap
  mr_parse_pagemap mr = do
    let count = span mr / page_size
    (pages, out) ← walk_pagemap count (mr.start / page_size) count mr.start (mr.pages, [])
    ok (record mr { pages = pages }, out)
