-- ===== src/Mem/Print/Laws.antt =====
-- The printing of the pages of a process.
use native.Mathlib.Numerals.{add-one}
use memdump.Base.{
  ℕ, zero, suc, ◌+◌, ◌*◌, ◌/◌, ◌^◌, ◌≤◌, ◌<◌, ◌≡◌, ltb, true, false, refl, sym, ap, ◌∙◌, List, [],
  ◌++◌, length, take, drop, map, flat_map_index, ok, arith, append-nil, append_assoc,
}
use memdump.Base.Int.{pos_part}
use memdump.Base.Loop.Along.{for_each-map}
use memdump.Base.Loop.Laws.{elem_at, drop_split}
use memdump.Mem.{Page, MemReg, Process, proc_mr_num, span, regions_of}
use memdump.Mem.Read.{u64}
use memdump.Mem.Files.Laws.{IsReady, HasPages}
use memdump.Mem.Print.{
  PageLine, page_line, print_pages, mem_print_pages, RegionPages, proc_print_pages,
}

-- The lines of a region: its pages that a page table refers to, with their addresses.
abbrev pub lines_of : MemReg → List PageLine
lines_of mr =
    flat_map_index (λ i page. page_line (mr.start + i * 4096) page) 0
      (take (span mr / 4096) mr.pages)

abbrev pub pages_of : MemReg → RegionPages
pages_of mr = record { start = mr.start; end = mr.end; name = mr.pathname; lines = lines_of mr }

print_pages_lem :
    (start end left i fuel : ℕ) (pages : List Page) (out : List PageLine)
    → end + 4096 < 2 ^ 64
    → end ≡ start + (i + left) * 4096
    → left ≤ fuel
    → i + left ≤ length pages
    → print_pages fuel end (start + i * 4096) i pages out
      ≡ ok (
          out
          ++ flat_map_index
              (λ i page. page_line (start + i * 4096) page)
              i
              (take left (drop i pages)))
unfolding print_pages
print_pages_lem start end zero i zero pages out low e enough fits =
    let stop : ltb (start + i * 4096) end ≡ false = ground arith in
    rw stop (ap ok (sym (append-nil out)))
print_pages_lem start end zero i (suc fuel) pages out low e enough fits =
    let stop : ltb (start + i * 4096) end ≡ false = ground arith in
    rw stop (ap ok (sym (append-nil out)))
print_pages_lem start end (suc left) i zero pages out low e enough fits = absurd (omega arith)
print_pages_lem start end (suc left) i (suc fuel) pages out low e enough fits =
    let go : ltb (start + i * 4096) end ≡ true = ground arith in
    let (page, at) = elem_at i pages (omega arith) in
    let next : u64 (start + i * 4096 + 4096) ≡ start + suc i * 4096 = omega arith in
    rw (go, at, next, drop_split i pages page at, add-one)
      (print_pages_lem start end left (suc i) fuel pages (out ++ page_line (start + i * 4096) page)
          low (omega arith) (omega arith) (omega arith)
        ∙ ap ok (append_assoc out (page_line (start + i * 4096) page) _))

mem_print_pages_lem : (mr : MemReg) → HasPages mr → mem_print_pages mr ≡ ok (lines_of mr)
unfolding mem_print_pages
mem_print_pages_lem mr (paged, fits) =
    let first : mr.start ≡ mr.start + 0 * 4096 = omega arith in
    ap (λ a. print_pages (span mr / 4096 + 1) mr.end a 0 mr.pages []) first
    ∙ print_pages_lem mr.start mr.end (span mr / 4096) 0 (span mr / 4096 + 1) mr.pages []
        (omega (arith, paged)) (omega (arith, paged)) (omega arith) (omega (arith, fits))

pub proc_print_pages_lem :
    (p : Process) → IsReady p → proc_print_pages p ≡ ok (map pages_of (regions_of p))
unfolding proc_print_pages
proc_print_pages_lem p (loaded, pages) =
    for_each-map HasPages _ pages_of (λ i mr out h. rw (mem_print_pages_lem mr h) refl)
      (pos_part (proc_mr_num p)) 0 p.maps [] (omega (arith, loaded.0)) pages
