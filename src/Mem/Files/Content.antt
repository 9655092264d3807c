-- ===== src/Mem/Files/Content.antt =====
-- What a process holds after its memory and its pagemap were read: for each page the hash of its
-- content, and the number of page tables that refer to it.
use native.Mathlib.Numerals.{add-one}
use memdump.Base.{
  ℕ, zero, suc, ◌+◌, ◌*◌, ◌/◌, ◌%◌, ◌^◌, ◌≤◌, ◌<◌, ◌≡◌, ◌∙◌, ltb, true, refl, sym, ap, ap₂, some,
  List, [], ◌∷◌, ◌++◌, length, get_elem?, All, All₂, take, drop, flat_map, if◌then◌else◌, ok, arith,
  append-nil, append_assoc, take_all, length-take,
}
use memdump.Base.Int.{ℤ, pos_part}
use memdump.Base.Loop.{for_each}
use memdump.Base.Loop.Along.{All₂-length}
use memdump.Base.Loop.Laws.{elem_at, drop_split}
use memdump.Mem.{page_size, Page, MemReg, Process, proc_mr_num, span, regions_of}
use memdump.Mem.Maps.{Fields, Stdio, with_maps}
use memdump.Mem.Hash.{page_hash}
use memdump.Mem.Read.{Stream, HasSize, proc_do}
use memdump.Mem.Read.Laws.{IsMapped}
use memdump.Mem.Read.Content.{IsReadable, HasContent, read_region_content}
use memdump.Mem.Flags.{PageFlags}
use memdump.Mem.Pagemap.{Kernel}
use memdump.Mem.Pagemap.Counted.{counted, lines_from}
use memdump.Mem.Pagemap.Region.{Provides, mr_parse_pagemap_content}
use memdump.Mem.Files.{parse_region, parse_regions}
use memdump.Mem.Files.Laws.{HasPages}
use memdump.Memdump.Laws.{kept_of, proc_do_each}

-- The pages of the array lie below the end of the address space.
abbrev IsLow : MemReg → Type 0
IsLow mr = HasPages mr × (mr.start / 4096 + length mr.pages ≤ 2 ^ 52)

module _ (entry count : ℕ → ℕ) where
  -- The lines for the swapped pages of a region.
  abbrev pub region_lines : MemReg → List PageFlags
  region_lines mr = lines_from entry count (mr.start / 4096) (span mr / 4096)

  -- Each page of the region that has a frame has its count; nothing else changed.
  abbrev HasCounts : MemReg → MemReg → Type 0
  HasCounts mr mr' =
      (mr' ≡ record mr { pages = mr'.pages })
      × ((i : ℕ) (page : Page)
          → get_elem? mr.pages i ≡ some page
          → get_elem? mr'.pages i
            ≡ some (
                if ltb i (span mr / 4096)
                then counted entry count (entry (mr.start / 4096 + i)) page
                else page))

  module _ (k : Kernel) (provides : Provides k entry count) where
    parse_regions_loop :
        (left i : ℕ) (maps out : List MemReg) (lines : List PageFlags)
        → i + left ≤ length maps
        → All IsLow (take left (drop i maps))
        → (more : List MemReg) × (for_each left i maps (parse_region k) (out, lines)
            ≡ ok (out ++ more, lines ++ flat_map region_lines (take left (drop i maps))))
          × All₂ HasCounts (take left (drop i maps)) more
    unfolding for_each
    parse_regions_loop zero i maps out lines fits h =
        ([], rw (append-nil out, append-nil lines) refl, tt)
    parse_regions_loop (suc left) i maps out lines fits h =
        let (mr, at) = elem_at i maps (omega arith) in
        let split = drop_split i maps mr at in
        let good : IsLow mr × All IsLow (take left (drop (suc i) maps)) = rw split at h in
        let (pages, runs, size, shares) =
          mr_parse_pagemap_content entry count k mr provides good.0.0.0.0 good.0.0.0.1 good.0.0.1
            good.0.1 in
        let mr' = record mr { pages = pages } in
        let (more, rest, all) =
          parse_regions_loop left (suc i) maps (out ++ (mr' ∷ [])) (lines ++ region_lines mr)
            (omega arith) good.1 in
        (
          mr' ∷ more,
          rw (at, runs, add-one, split)
              (rest
                ∙ rw (append_assoc out (mr' ∷ []) more, append_assoc lines (region_lines mr) _)
                    refl),
          rw split ((refl, shares), all),
        )

    parse_regions_content :
        (p : Process)
        → pos_part (proc_mr_num p) ≤ length p.maps
        → All IsLow (regions_of p)
        → (p' : Process) × (parse_regions k p ≡ ok (p', flat_map region_lines (regions_of p)))
          × All₂ HasCounts (regions_of p) (regions_of p')
          × (p' ≡ record p { maps = p'.maps })
    unfolding parse_regions proc_mr_num
    parse_regions_content p fits h =
        let n = pos_part (proc_mr_num p) in
        let (more, runs, counts) = parse_regions_loop n 0 p.maps [] [] (omega arith) h in
        let size : n ≡ length more =
          sym (All₂-length HasCounts (regions_of p) more counts ∙ length-take n p.maps fits) in
        (record p { maps = more }, rw runs refl, rw (take_all n more size) counts, refl)

-- A region of whole pages that is not too long to be counted by an `int`.
abbrev pub IsGood : MemReg → Type 0
IsGood mr =
    (IsMapped mr × (mr.start % 4096 ≡ 0) × (mr.end % 4096 ≡ 0)) × (span mr / 4096 + 1 < 2 ^ 31)

module _ (content : ℕ → List ℕ) (entry count : ℕ → ℕ) where
  -- The page number `j` of a region: its hash is that of its content. If it has a frame it has the
  -- count of its frame, else what `malloc` left in the field.
  abbrev pub Shows : MemReg → List Page → ℕ → Type 0
  Shows mr pages j =
      (hash : ℕ) × (left_there : ℤ) × (page_hash (content (mr.start + j * 4096)) page_size
        ≡ ok hash)
      × (get_elem? pages j
          ≡ some (
              counted entry count (entry (mr.start / 4096 + j))
                (record { hash = hash; share = left_there })))

  -- A region of the maps, and what the program holds of it.
  abbrev pub HasMemory : MemReg → MemReg → Type 0
  HasMemory mr mr' =
      (mr' ≡ record mr { pages = mr'.pages })
      × ((j : ℕ) → mr.start + j * 4096 < mr.end → Shows mr mr'.pages j)

  region-HasMemory :
      (mr mr1 mr' : MemReg)
      → IsGood mr
      → HasContent content mr mr1
      → HasCounts entry count mr1 mr'
      → HasMemory mr mr'
  region-HasMemory mr mr1 mr' good ((only, size), holds) (only', shares) =
      let start : mr1.start ≡ mr.start = ap (λ (m : MemReg). m.start) only in
      let same_span : span mr1 ≡ span mr = ap span only in
      (
        only' ∙ ap (λ (m : MemReg). record m { pages = mr'.pages }) only,
        λ j inside.
            let (page, at, hashed) = holds j inside in
            let below : ltb j (span mr1 / 4096) ≡ true = ground arith in
            (
              page.hash,
              page.share,
              hashed,
              shares j page at
                  ∙ rw below (
                      ap (λ (s : ℕ). some (counted entry count (entry (s / 4096 + j)) page)) start),
            ),
      )

  region-IsLow : (mr mr1 : MemReg) → IsGood mr → HasContent content mr mr1 → IsLow mr1
  region-IsLow mr mr1 good ((only, size), holds) =
      let start : mr1.start ≡ mr.start = ap (λ (m : MemReg). m.start) only in
      let end : mr1.end ≡ mr.end = ap (λ (m : MemReg). m.end) only in
      let same_span : span mr1 ≡ span mr = ap span only in omega arith

  regions-IsLow :
      (mrs more : List MemReg)
      → All IsGood mrs
      → All₂ (HasContent content) mrs more
      → All IsLow more
        × (flat_map (region_lines entry count) more ≡ flat_map (region_lines entry count) mrs)
  regions-IsLow [] [] good h = (tt, refl)
  regions-IsLow [] (mr1 ∷ more) good h = absurd h
  regions-IsLow (mr ∷ mrs) [] good h = absurd h
  regions-IsLow (mr ∷ mrs) (mr1 ∷ more) good h =
      let (low, same) = regions-IsLow mrs more good.1 h.1 in
      ((region-IsLow mr mr1 good.0 h.0, low), ap₂ ◌++◌ (ap (region_lines entry count) h.0.0.0) same)

  regions-HasMemory :
      (mrs mrs1 mrs' : List MemReg)
      → All IsGood mrs
      → All₂ (HasContent content) mrs mrs1
      → All₂ (HasCounts entry count) mrs1 mrs'
      → All₂ HasMemory mrs mrs'
  regions-HasMemory [] [] [] good h k = tt
  regions-HasMemory [] [] (mr' ∷ mrs') good h k = absurd k
  regions-HasMemory [] (mr1 ∷ mrs1) mrs' good h k = absurd h
  regions-HasMemory (mr ∷ mrs) [] mrs' good h k = absurd h
  regions-HasMemory (mr ∷ mrs) (mr1 ∷ mrs1) [] good h k = absurd k
  regions-HasMemory (mr ∷ mrs) (mr1 ∷ mrs1) (mr' ∷ mrs') good h k =
      (region-HasMemory mr mr1 mr' good.0 h.0 k.0, regions-HasMemory mrs mrs1 mrs' good.1 h.1 k.1)

  -- The pagemap loop on regions whose contents were read.
  pub parse_regions-HasMemory :
      (k : Kernel) (mrs : List MemReg) (p : Process)
      → Provides k entry count
      → pos_part (proc_mr_num p) ≤ length p.maps
      → All IsGood mrs
      → All₂ (HasContent content) mrs (regions_of p)
      → (p' : Process) × (parse_regions k p ≡ ok (p', flat_map (region_lines entry count) mrs))
        × All₂ HasMemory mrs (regions_of p')
        × (p' ≡ record p { maps = p'.maps })
  parse_regions-HasMemory k mrs p provides fits good contents =
      let (low, same) = regions-IsLow mrs (regions_of p) good contents in
      let (p', counts, all, only) = parse_regions_content entry count k provides p fits low in
      (
        p',
        counts ∙ ap (λ seen. ok (p', seen)) same,
        regions-HasMemory mrs (regions_of p) (regions_of p') good contents all,
        only,
      )

module _ {ℓ} {F : Type ℓ} (io : Stream F) (content : ℕ → List ℕ)
    (memory : IsReadable io content) where
  pub proc_do-HasContent :
      (stdio : Stdio) (p : Process) (lines : List (List ℕ)) (fs : List Fields) (file : F)
      → HasSize io
      → memory.Mine file
      → All₂ (λ line f. stdio.sscanf line ≡ some f) lines fs
      → All IsGood (kept_of stdio true fs)
      → length (kept_of stdio true fs) < 2 ^ 31
      → (p' : Process) × (file' : F) × (proc_do io stdio p lines file ≡ ok (p', file'))
        × (pos_part (proc_mr_num p') ≡ length p'.maps)
        × All₂ (HasContent content) (kept_of stdio true fs) (regions_of p')
        × (p' ≡ with_maps p p'.maps p'.maps_size p'.maps_cap)
  proc_do-HasContent stdio p lines fs file sized mine parsed good few =
      proc_do_each io {I = memory.Mine} {P = IsGood} {R = HasContent content}
        (λ mr file mine good.
          let (mr', file', runs, mine', reads, holds) =
            read_region_content io content memory mr file sized mine good.0.0 good.1 in
          (mr', file', runs, mine', (reads, holds)))
        stdio p lines fs file parsed mine good few

  module _ (entry count : ℕ → ℕ) where
    -- Where `sscanf` reads every line, the regions that are kept consist of whole pages, fewer than
    -- 2 ^ 31 in number and each of fewer than 2 ^ 31 - 1 pages, the memory can be read and the kernel
    -- answers each read of its files in full, `proc_do` and the pagemap loop after it end. The process
    -- then holds the regions that are kept, in order, and for each of their pages the hash of its
    -- content and, if it has a frame, the count of the frame. The lines of the swapped pages are
    -- printed, in order.
    pub proc_do_content :
        (k : Kernel)
        → Provides k entry count
        → (stdio : Stdio) (p : Process) (lines : List (List ℕ)) (fs : List Fields) (file : F)
        → HasSize io
        → memory.Mine file
        → All₂ (λ line f. stdio.sscanf line ≡ some f) lines fs
        → All IsGood (kept_of stdio true fs)
        → length (kept_of stdio true fs) < 2 ^ 31
        → (read marked : Process) × (file' : F) × (proc_do io stdio p lines file ≡ ok (read, file'))
          × (parse_regions k read
              ≡ ok (marked, flat_map (region_lines entry count) (kept_of stdio true fs)))
          × All₂ (HasMemory content entry count) (kept_of stdio true fs) (regions_of marked)
    proc_do_content k provides stdio p lines fs file sized mine parsed good few =
        let (p1, file', runs, size, contents, only) =
          proc_do-HasContent stdio p lines fs file sized mine parsed good few in
        let (p2, counts, all, only2) =
          parse_regions-HasMemory content entry count k (kept_of stdio true fs) p1 provides
            (omega arith) good contents in
        (p1, p2, file', runs, counts, all)
