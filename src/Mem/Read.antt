-- ===== src/Mem/Read.antt =====
-- `read_mem` of jni/mem.c: the pages of the regions, read from /proc/<pid>/mem and hashed.
pub mod Laws
pub mod Content
use memdump.Base.{
  ◌≡◌, ℕ, zero, suc, ◌+◌, ◌*◌, ◌/◌, ◌%◌, ◌^◌, ◌==◌, ltb, if◌then◌else◌, Bool, true, false, not,
  Option, none, some, List, [], ◌∷◌, ◌++◌, length, get_elem?, set, Run, ok, fault, deref, ◌>>=◌,
}
use memdump.Base.Int.{ℤ, pos, pos_part, to_int, eq_int}
use memdump.Base.Loop.{for_each}
use memdump.Mem.{page_size, Page, MemReg, Process, proc_mr_num, span}
use memdump.Mem.Hash.{page_hash}
use memdump.Mem.Maps.{Stdio, parse_maps}

-- The library behind `p->pMemFile`: the state of the stream, `fseeko` to an offset, `fread` of
-- a number of bytes with the bytes that were read, and what a fresh array of pages holds.
pub record Stream {ℓ} (F : Type ℓ) : Type ℓ where
  pub fseeko : ℕ → F → F
  pub fread : ℕ → F → F × List ℕ
  pub malloc : ℕ → List Page

abbrev pub HasSize {ℓ} : {F : Type ℓ} → Stream F → Type 0
HasSize io = (n : ℕ) → length (io.malloc n) ≡ n

abbrev pub u64 : ℕ → ℕ
u64 n = n % 2 ^ 64

-- `pages[idx].hash = …`; `share` is left as it is.
unfoldable pub set_hash : List Page → ℕ → ℕ → Run (List Page)
set_hash pages idx hash = do
  page ← deref (get_elem? pages idx)
  ok (set pages idx (record page { hash = hash }))

module _ {ℓ} {F : Type ℓ} (io : Stream F) where
  -- The loop over the addresses of a region, with fuel.
  unfoldable pub read_pages : ℕ → ℕ → ℕ → ℕ → ℕ → List Page → F → Run (List Page × F)
  unfolding set_hash
  read_pages zero end num_pages addr idx pages file =
      if ltb addr end then fault else ok (pages, file)
  read_pages (suc fuel) end num_pages addr idx pages file =
      let (file', page) = io.fread page_size file in
      let next = u64 (addr + page_size) in
      let go_on = read_pages fuel end num_pages next idx pages file' in
      let store = (do
        hash ← page_hash page page_size
        pages' ← set_hash pages idx hash
        let rest = read_pages fuel end num_pages next (idx + 1) pages' file'
        if eq_int (pos (idx + 1)) (to_int num_pages) then ok (pages', file') else rest) in
      if ltb addr end then (if length page == page_size then store else go_on) else ok (pages, file)

  -- `/ pageSize + 1` elements are allocated. The loop ends after as many rounds.
  unfoldable pub read_region : MemReg → F → Run (MemReg × F)
  unfolding read_pages
  read_region mr file = do
    let num_pages = span mr / page_size + 1
    (pages, file') ←
        read_pages num_pages mr.end num_pages mr.start 0 (io.malloc num_pages)
          (io.fseeko mr.start file)
    ok (record mr { pages = pages }, file')

  unfoldable pub read_mem : Process → F → Run (Process × F)
  unfolding read_region
  read_mem p file = do
    (maps, file') ←
        for_each (pos_part (proc_mr_num p)) 0 p.maps
          (λ _ mr acc. do (mr', file') ← read_region mr acc.1; ok (acc.0 ++ (mr' ∷ []), file'))
          ([], file)
    ok (record p { maps = maps }, file')

  -- After the files are opened; the timer is left out.
  unfoldable pub proc_do : Stdio → Process → List (List ℕ) → F → Run (Process × F)
  unfolding parse_maps read_mem
  proc_do stdio p lines file = do p' ← parse_maps stdio p true (pos 0) lines; read_mem p' file
