-- ===== src/Mem/Read/Laws.antt =====
-- `read_mem` ends, writes inside the arrays it allocates, and leaves them as long as the program
-- counts, whatever the reads return.
use native.Mathlib.Numerals.{add-one}
use memdump.Base.{
  ltb, ℕ, zero, suc, ◌+◌, ◌*◌, ◌/◌, ◌^◌, ◌≤◌, ◌<◌, ◌≡◌, ◌==◌, refl, sym, ap, ◌∙◌, List, [], ◌∷◌,
  ◌++◌, length, set, length-set, arith, Run, ok, ◌>>=◌, take, drop, All, All₂, Bool-cases, inl, inr,
  append-nil, append_assoc, length-take, take_all, ltb→lt, ==_iff,
}
use memdump.Base.Int.{pos, pos_part, to_int, to_int-le, eq_int}
use memdump.Base.Loop.{for_each}
use memdump.Base.Loop.Laws.{elem_at, drop_split}
use memdump.Base.Loop.Along.{All₂-length}
use memdump.Mem.{page_size, Page, MemReg, Process, proc_mr_num, mr_page_num, span, regions_of}
use memdump.Mem.Hash.Laws.{page_hash_lem}
use memdump.Mem.Read.{Stream, HasSize, u64, set_hash, read_pages, read_region, read_mem}
use memdump.SetCmp.Sets.{IsRead, IsLoaded}

-- A region as the kernel gives them: the addresses are in order, and do not reach the end of the
-- address space.
abbrev pub IsMapped : MemReg → Type 0
IsMapped mr = (mr.start ≤ mr.end) × (mr.end + 4096 < 2 ^ 64)

-- What `read_mem` makes of a region: only the pages change, one more than the region has.
abbrev pub Reads : MemReg → MemReg → Type 0
Reads mr mr' =
    (mr' ≡ record mr { pages = mr'.pages }) × (length mr'.pages ≡ span mr / page_size + 1)

set_hash_lem :
    (pages : List Page) (idx hash : ℕ)
    → idx < length pages
    → (pages' : List Page) × (set_hash pages idx hash ≡ ok pages') × (length pages' ≡ length pages)
unfolding set_hash
set_hash_lem pages idx hash h =
    let (page, at) = elem_at idx pages h in
    let changed = record page { hash = hash } in
    (set pages idx changed, rw at refl, length-set pages idx changed)

module _ {ℓ} {F : Type ℓ} (io : Stream F) where
  read_pages_lem :
      (fuel end num_pages addr idx : ℕ) (pages : List Page) (file : F)
      → end + 4096 < 2 ^ 64
      → end ≤ addr + fuel * 4096
      → end + idx * 4096 ≤ addr + num_pages * 4096
      → length pages ≡ num_pages
      → (pages' : List Page) × (file' : F) × (read_pages io fuel end num_pages addr idx pages file
          ≡ ok (pages', file'))
        × (length pages' ≡ num_pages)
  unfolding read_pages
  read_pages_lem zero end num_pages addr idx pages file low fuel room size =
      (pages, file, ground arith, size)
  read_pages_lem (suc fuel) end num_pages addr idx pages file low more room size =
      elim (Bool-cases (ltb addr end)) [
        | inr stop ↦ (pages, file, rw stop refl, size)
        | inl go ↦
            let in_range = ltb→lt addr end go in
            let (file', page) = io.fread page_size file in
            let next : u64 (addr + 4096) ≡ addr + 4096 = omega arith in
            elim (Bool-cases (length page == page_size)) [
              | inr short ↦
                  let (pages', file'', runs, size') =
                    read_pages_lem fuel end num_pages (u64 (addr + 4096)) idx pages file' low
                      (omega arith) (omega arith) size in
                  (pages', file'', rw (go, short) runs, size')
              | inl full ↦
                  let (hash, hashed, _) =
                    page_hash_lem page page_size (omega (arith, (==_iff _ _).0 full)) in
                  let (pages1, stored, size1) = set_hash_lem pages idx hash (omega arith) in
                  elim (Bool-cases (eq_int (pos (idx + 1)) (to_int num_pages))) [
                    | inl last ↦
                        (pages1, file', rw (go, full, hashed, stored, last) refl, size1 ∙ size)
                    | inr more_left ↦
                        let (pages', file'', runs, size') =
                          read_pages_lem fuel end num_pages (u64 (addr + 4096)) (idx + 1) pages1
                            file' low (omega arith) (omega arith) (size1 ∙ size) in
                        (pages', file'', rw (go, full, hashed, stored, more_left) runs, size')
                  ]
            ]
      ]

  pub read_region_lem :
      (mr : MemReg) (file : F)
      → HasSize io
      → IsMapped mr
      → (mr' : MemReg) × (file' : F) × (read_region io mr file ≡ ok (mr', file')) × Reads mr mr'
  unfolding read_region
  read_region_lem mr file sized (order, low) =
      let num_pages = span mr / page_size + 1 in
      let (pages, file', runs, size) =
        read_pages_lem num_pages mr.end num_pages mr.start 0 (io.malloc num_pages)
          (io.fseeko mr.start file) low (omega arith) (omega arith) (sized num_pages) in
      (record mr { pages = pages }, file', rw runs refl, (refl, size))

  abbrev read_next : ℕ → MemReg → List MemReg × F → Run (List MemReg × F)
  read_next i mr acc = read_region io mr acc.1 >>= λ r. ok (acc.0 ++ (r.0 ∷ []), r.1)

  -- What `read_region` makes of each region with `P`.
  -- `I` is kept by the stream.
  abbrev pub Makes : (F → Type ℓ) → (MemReg → Type 0) → (MemReg → MemReg → Type 0) → Type ℓ
  Makes I P R =
      (mr : MemReg) (file : F)
      → I file
      → P mr
      → (mr' : MemReg) × (file' : F) × (read_region io mr file ≡ ok (mr', file'))
        × I file'
        × R mr mr'

  read_regions_lem :
      {I : F → Type ℓ} {P : MemReg → Type 0} {R : MemReg → MemReg → Type 0}
      → Makes I P R
      → (left i : ℕ) (maps : List MemReg) (acc : List MemReg) (file : F) → i + left ≤ length maps
      → I file
      → All P (take left (drop i maps))
      → (more : List MemReg) × (file' : F) × (for_each left i maps read_next (acc, file)
          ≡ ok (acc ++ more, file'))
        × All₂ R (take left (drop i maps)) more
  unfolding for_each
  read_regions_lem makes zero i maps acc file fits mine h =
      ([], file, ap (λ (ms : List MemReg). ok (ms, file)) (sym (append-nil acc)), tt)
  read_regions_lem {P} makes (suc left) i maps acc file fits mine h =
      let (mr, at) = elem_at i maps (omega arith) in
      let split = drop_split i maps mr at in
      let good : P mr × All P (take left (drop (suc i) maps)) = rw split at h in
      let (mr', file1, runs, mine1, reads) = makes mr file mine good.0 in
      let (more, file', rest, all) =
        read_regions_lem makes left (suc i) maps (acc ++ (mr' ∷ [])) file1 (omega arith) mine1
          good.1 in
      (
        mr' ∷ more,
        file',
        rw (at, runs, add-one)
            (rest ∙ ap (λ (ms : List MemReg). ok (ms, file')) (append_assoc acc (mr' ∷ []) more)),
        rw split (reads, all),
      )

  -- `read_mem` does to each region of the process what `read_region` does to one.
  pub read_mem_each :
      {I : F → Type ℓ} {P : MemReg → Type 0} {R : MemReg → MemReg → Type 0}
      → Makes I P R
      → (p : Process) (file : F) → pos_part (proc_mr_num p) ≤ length p.maps
      → I file
      → All P (regions_of p)
      → (p' : Process) × (file' : F) × (read_mem io p file ≡ ok (p', file'))
        × (pos_part (proc_mr_num p') ≡ length p'.maps)
        × All₂ R (regions_of p) (regions_of p')
        × (p' ≡ record p { maps = p'.maps })
  unfolding read_mem proc_mr_num
  read_mem_each {R = R} makes p file fits mine h =
      let n = pos_part (proc_mr_num p) in
      let (more, file', runs, reads) =
        read_regions_lem makes n 0 p.maps [] file (omega arith) mine h in
      let size : n ≡ length more =
        sym (All₂-length R (regions_of p) more reads ∙ length-take n p.maps fits) in
      (record p { maps = more }, file', rw runs refl, size, rw (take_all n more size) reads, refl)

  pub Reads-IsRead : (mrs more : List MemReg) → All₂ Reads mrs more → All IsRead more
  unfolding mr_page_num
  Reads-IsRead [] [] h = tt
  Reads-IsRead [] (mr' ∷ more) h = absurd h
  Reads-IsRead (mr ∷ mrs) [] h = absurd h
  Reads-IsRead (mr ∷ mrs) (mr' ∷ more) h =
      let same_span : span mr' ≡ span mr = ap span h.0.0 in
      let short = to_int-le (span mr' / page_size) in
      (omega (arith, h.0.1), Reads-IsRead mrs more h.1)

  -- For the mapped regions of a process, whatever the reads of its memory return, the loops end,
  -- and each write of a hash is inside the array that was allocated. Afterwards the process is
  -- loaded: the regions are the same but for their pages, and their arrays have one page more
  -- than they span. No other field of the process changes.
  pub read_mem_lem :
      (p : Process) (file : F)
      → HasSize io
      → pos_part (proc_mr_num p) ≤ length p.maps
      → All IsMapped (regions_of p)
      → (p' : Process) × (file' : F) × (read_mem io p file ≡ ok (p', file'))
        × IsLoaded p'
        × All₂ Reads (regions_of p) (regions_of p')
        × (p' ≡ record p { maps = p'.maps })
  read_mem_lem p file sized fits h =
      let (p', file', runs, size, reads, only) =
        read_mem_each {I = λ file. Unit} {P = IsMapped} {R = Reads}
          (λ mr file u mapped.
            let (mr', file', runs, reads) = read_region_lem mr file sized mapped in
            (mr', file', runs, u, reads))
          p file fits tt h in
      (p', file', runs, (omega arith, Reads-IsRead _ _ reads), reads, only)
