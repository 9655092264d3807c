-- ===== src/Mem/Files/Laws.antt =====
-- How the calls of jni/mem.c end where the system does what it documents: the process is loaded,
-- or the program exits. Which files are open, and which processes are stopped.
pub mod Life
pub mod Taken
pub mod Deleted
pub mod Steps
use memdump.Base.{
  ℕ, zero, suc, ◌+◌, ◌/◌, ◌%◌, ◌^◌, ◌≤◌, ◌<◌, ◌==◌, ◌≡◌, ◌||◌, ◌&&◌, not, Bool, true, false, refl,
  sym, ap, ◌∙◌, ◌⊎◌, inl, inr, Option, none, some, Option-cases, List, [], ◌∷◌, ◌++◌, length, All,
  All₂, take, drop, Run, ok, exit, arith, append-nil, append_assoc, take_all, length-take,
}
use memdump.Base
use memdump.Base.Int.{ℤ, pos, pos_part, to_int}
use memdump.Base.Loop.{for_each}
use memdump.Base.Loop.Laws.{elem_at, drop_split}
use native.Mathlib.Numerals.{add-one}
use memdump.Mem.{MemReg, Process, proc_mr_num, mr_page_num, span, regions_of}
use memdump.Mem.Maps.{Fields, with_maps}
use memdump.Mem.Read.{HasSize}
use memdump.Mem.Read.Laws.{IsMapped, Reads}
use memdump.Mem.Flags.{PageFlags}
use memdump.Mem.Pagemap.{Kernel, mr_parse_pagemap}
use memdump.Mem.Pagemap.Laws.{mr_parse_pagemap_lem}
use memdump.SetCmp.Sets.{IsRead, IsLoaded}
use memdump.Memdump.Laws.{kept_of, proc_do_lem}
use memdump.Mem.Files.{parse_region, parse_regions, open_proc_file, checked_open, open_proc_files}
use memdump.Sys.{FileName, maps_of, mem_of, pagemap_of, opened, History, Os, is_open, is_stopped}
use memdump.Sys.Ends.{Ends, Ends-bind}

-- A region of whole pages.
abbrev pub IsPaged : MemReg → Type 0
IsPaged mr = IsMapped mr × (mr.start % 4096 ≡ 0) × (mr.end % 4096 ≡ 0)

-- A process whose regions are paged and have arrays for their pages.
abbrev pub HasPages : MemReg → Type 0
HasPages mr = IsPaged mr × (span mr / 4096 ≤ length mr.pages)

abbrev pub IsReady : Process → Type 0
IsReady p = IsLoaded p × All HasPages (regions_of p)

-- What the program relies on: `malloc` returns arrays of the size asked for, and the kernel writes
-- lines that `sscanf` reads, for regions of pages, fewer than 2 ^ 31.
pub record IsLinux {T F : Type 0} (os : Os T F) : Type 0 where
  pub sized : HasSize os.stream
  pub fields : History T → ℕ → List Fields
  pub parsed :
      (h : History T) (fd : ℕ)
      → All₂ (λ line f. os.stdio.sscanf line ≡ some f) (os.lines h fd) (fields h fd)
  pub paged : (h : History T) (fd : ℕ) → All IsPaged (kept_of os.stdio true (fields h fd))
  pub few : (h : History T) (fd : ℕ) → length (kept_of os.stdio true (fields h fd)) < 2 ^ 31

-- What `mr_parse_pagemap` makes of a region.
abbrev Counts : MemReg → MemReg → Type 0
Counts mr mr' = (mr' ≡ record mr { pages = mr'.pages }) × (length mr'.pages ≡ length mr.pages)

parse_regions_loop :
    (k : Kernel) (left i : ℕ) (maps out : List MemReg) (lines : List PageFlags)
    → i + left ≤ length maps
    → All HasPages (take left (drop i maps))
    → ((more : List MemReg) × (lines' : List PageFlags) × (for_each left i maps
            (parse_region k)
            (out, lines)
          ≡ ok (out ++ more, lines'))
        × All₂ Counts (take left (drop i maps)) more)
      ⊎ (for_each left i maps (parse_region k) (out, lines) ≡ exit)
unfolding for_each
parse_regions_loop k zero i maps out lines fits h =
    inl ([], lines, ap (λ out. ok (out, lines)) (sym (append-nil out)), tt)
parse_regions_loop k (suc left) i maps out lines fits h =
    let (mr, at) = elem_at i maps (omega arith) in
    let split = drop_split i maps mr at in
    let good : HasPages mr × All HasPages (take left (drop (suc i) maps)) = rw split at h in
    elim (mr_parse_pagemap_lem k mr good.0.0.0 good.0.0.1 good.0.1) [
      | inr stop ↦ inr (rw (at, stop) refl)
      | inl (mr', seen, runs, only, same) ↦
          elim (parse_regions_loop k left (suc i) maps (out ++ (mr' ∷ [])) (lines ++ seen)
            (omega arith) good.1) [
              | inr stop ↦ inr (rw (at, runs, add-one) stop)
              | inl (more, lines', rest, all) ↦ inl (
                mr' ∷ more,
                lines',
                rw (at, runs, add-one)
                    (rest ∙ ap (λ out. ok (out, lines')) (append_assoc out (mr' ∷ []) more)),
                rw split ((only, same), all),
              )
            ]
    ]

Counts-HasPages :
    (mrs more : List MemReg)
    → All HasPages mrs
    → All IsRead mrs
    → All₂ Counts mrs more
    → All HasPages more × All IsRead more × (length more ≡ length mrs)
unfolding mr_page_num
Counts-HasPages [] [] pages read h = (tt, tt, refl)
Counts-HasPages [] (mr' ∷ more) pages read h = absurd h
Counts-HasPages (mr ∷ mrs) [] pages read h = absurd h
Counts-HasPages (mr ∷ mrs) (mr' ∷ more) pages read h =
    let (pages', read', same) = Counts-HasPages mrs more pages.1 read.1 h.1 in
    let start : mr'.start ≡ mr.start = ap (λ (m : MemReg). m.start) h.0.0 in
    let end : mr'.end ≡ mr.end = ap (λ (m : MemReg). m.end) h.0.0 in
    let same_span : span mr' ≡ span mr = ap span h.0.0 in
    let fits = ap (λ (n : ℕ). pos_part (to_int (n / 4096))) same_span in
    (
      (omega (arith, pages.0, h.0.1), pages'),
      (omega (arith, read.0, h.0.1, fits), read'),
      ap suc same,
    )

pub parse_regions_lem :
    (k : Kernel) (p : Process)
    → IsReady p
    → ((p' : Process) × (lines : List PageFlags) × (parse_regions k p ≡ ok (p', lines))
        × IsReady p'
        × (p' ≡ record p { maps = p'.maps }))
      ⊎ (parse_regions k p ≡ exit)
unfolding parse_regions proc_mr_num
parse_regions_lem k p (loaded, pages) =
    let n = pos_part (proc_mr_num p) in
    elim (parse_regions_loop k n 0 p.maps [] [] (omega (arith, loaded.0)) pages) [
      | inr stop ↦ inr (rw stop refl)
      | inl (more, lines, runs, counts) ↦
          let (pages', read', same) = Counts-HasPages (regions_of p) more pages loaded.1 counts in
          let size : n ≡ length more = sym (same ∙ length-take n p.maps loaded.0) in
          inl (
            record p { maps = more },
            lines,
            rw runs refl,
            ((omega arith, rw (take_all n more size) read'), rw (take_all n more size) pages'),
            refl,
          )
    ]
