-- ===== src/Mem/Print.antt =====
-- What jni/mem.c prints of a process: its regions, and their pages.
pub mod Laws
use memdump.Base.{
  ℕ, zero, suc, ◌+◌, ◌/◌, ltb, if◌then◌else◌, Bool, Option, List, [], ◌∷◌, ◌++◌, get_elem?, Run, ok,
  fault, deref, ◌>>=◌,
}
use memdump.Base.Int.{ℤ, pos, pos_part, eq_int}
use memdump.Base.Loop.{for_each}
use memdump.Mem.{page_size, Page, MemReg, Process, proc_mr_num, mr_page_num, span}
use memdump.Mem.Read.{u64}

pub record MapLine : Type 0 where
  pub start : ℕ
  pub end : ℕ
  pub page_num : ℤ
  pub name : Option (List ℕ)

unfoldable pub proc_print_maps : Process → Run (List MapLine)
proc_print_maps p =
    for_each (pos_part (proc_mr_num p)) 0 p.maps
      (λ _ mr out. ok (
        out
        ++ (record { start = mr.start; end = mr.end; page_num = mr_page_num mr; name = mr.pathname }
            ∷ [])))
      []

pub record PageLine : Type 0 where
  pub share : ℤ
  pub addr : ℕ
  pub hash : ℕ

-- The line of a page, unless no page table refers to it.
abbrev pub page_line : ℕ → Page → List PageLine
page_line addr page =
    if eq_int page.share (pos 0)
    then []
    else record { share = page.share; addr = addr; hash = page.hash } ∷ []

-- The loop of `mem_print_pages`, with fuel.
unfoldable pub print_pages : ℕ → ℕ → ℕ → ℕ → List Page → List PageLine → Run (List PageLine)
print_pages zero end addr i pages out = if ltb addr end then fault else ok out
print_pages (suc fuel) end addr i pages out =
    if ltb addr end
    then (do
      page ← deref (get_elem? pages i)
      print_pages fuel end (u64 (addr + page_size)) (i + 1) pages (out ++ page_line addr page))
    else ok out

unfoldable pub mem_print_pages : MemReg → Run (List PageLine)
unfolding print_pages
mem_print_pages mr = print_pages (span mr / page_size + 1) mr.end mr.start 0 mr.pages []

-- The heading of a region, and its pages.
pub record RegionPages : Type 0 where
  pub start : ℕ
  pub end : ℕ
  pub name : Option (List ℕ)
  pub lines : List PageLine

unfoldable pub proc_print_pages : Process → Run (List RegionPages)
unfolding mem_print_pages
proc_print_pages p =
    for_each (pos_part (proc_mr_num p)) 0 p.maps
      (λ _ mr out. do
        lines ← mem_print_pages mr
        ok (
            out
            ++ (record { start = mr.start; end = mr.end; name = mr.pathname; lines = lines } ∷ [])))
      []
