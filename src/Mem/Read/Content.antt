-- ===== src/Mem/Read/Content.antt =====
-- What `read_mem` of jni/mem.c finds in a region whose memory can be read: the hash of each page.
use native.Mathlib.Decide.{ℕ_discrete}
use mathlib.Core.Path.{subst}
use memdump.Base.{
  true, All, All₂, ℕ, zero, suc, ◌+◌, ◌*◌, ◌/◌, ◌^◌, ◌≤◌, ◌<◌, ◌≡◌, ◌≢◌, ◌==◌, refl, sym, ap, ◌∙◌,
  some, List, length, get_elem?, set, length-set, get_elem?-set_self, get_elem?-set_ne, arith, ok,
  Bool-cases, inl, inr, ltb→lt, ltb, ==_iff,
}
use memdump.Base.Int.{pos, pos_part, to_int, to_int_fits, eq_int}
use memdump.Base.Loop.Laws.{elem_at}
use memdump.Mem.{page_size, Page, MemReg, Process, proc_mr_num, span, regions_of}
use memdump.Mem.Hash.{page_hash}
use memdump.Mem.Hash.Laws.{page_hash_lem}
use memdump.Mem.Read.{Stream, HasSize, u64, set_hash, read_pages, read_region, read_mem}
use memdump.Mem.Read.Laws.{IsMapped, Reads, read_mem_each}

-- A stream on memory that can be read, of the files that are `Mine`: from offset `a`, where
-- `content a` is the page there, `fread` returns the whole page and goes on behind it.
pub record IsReadable {ℓ} {F : Type ℓ} (io : Stream F) (content : ℕ → List ℕ) : Type (ℓ + 1) where
  pub Mine : F → Type ℓ
  pub At : ℕ → F → Type ℓ
  pub seeks : (a : ℕ) (file : F) → Mine file → At a (io.fseeko a file)
  pub stays : (a : ℕ) (file : F) → At a file → Mine file
  pub reads : (a : ℕ) (file : F) → At a file → (io.fread page_size file).1 ≡ content a
  pub moves : (a : ℕ) (file : F) → At a file → At (a + page_size) (io.fread page_size file).0
  pub whole : (a : ℕ) → length (content a) ≡ page_size

-- The element at an index holds the hash of a page.
abbrev pub Holds : List Page → ℕ → List ℕ → Type 0
Holds pages j bytes =
    (page : Page) × (get_elem? pages j ≡ some page) × (page_hash bytes page_size ≡ ok page.hash)

set_hash_at :
    (pages : List Page) (idx hash : ℕ)
    → idx < length pages
    → (pages' : List Page) × (page : Page) × (set_hash pages idx hash ≡ ok pages')
      × (length pages' ≡ length pages)
      × (get_elem? pages' idx ≡ some page)
      × (page.hash ≡ hash)
      × ((j : ℕ) → idx ≢ j → get_elem? pages' j ≡ get_elem? pages j)
unfolding set_hash
set_hash_at pages idx hash h =
    let (page, at) = elem_at idx pages h in
    let changed = record page { hash = hash } in
    (
      set pages idx changed,
      changed,
      rw at refl,
      length-set pages idx changed,
      get_elem?-set_self pages idx changed h,
      refl,
      λ j ne. get_elem?-set_ne pages idx j changed ne,
    )

last_page :
    (idx num_pages : ℕ)
    → num_pages < 2 ^ 31
    → (eq_int (pos (idx + 1)) (to_int num_pages) ≡ true)
    → idx + 1 ≡ num_pages
last_page idx num_pages small e = ground (arith, to_int_fits num_pages small)

-- The regions whose content is read, and what becomes of one: each page that starts in it has the
-- hash of its content.
abbrev pub IsShort : MemReg → Type 0
IsShort mr = IsMapped mr × (span mr / page_size + 1 < 2 ^ 31)

abbrev pub HasContent : (ℕ → List ℕ) → MemReg → MemReg → Type 0
HasContent content mr mr' =
    Reads mr mr'
    × ((j : ℕ) → mr.start + j * 4096 < mr.end → Holds mr'.pages j (content (mr.start + j * 4096)))

module _ {ℓ} {F : Type ℓ} (io : Stream F) (content : ℕ → List ℕ)
    (memory : IsReadable io content) where
  held :
      (pages : List Page) (start addr idx j : ℕ)
      → addr ≡ start + idx * 4096
      → j ≡ idx
      → Holds pages idx (content addr)
      → Holds pages j (content (start + j * 4096))
  held pages start addr idx j here e h =
      subst (λ i. Holds pages i (content (start + i * 4096))) (sym e)
        (subst (λ a. Holds pages idx (content a)) here h)

  -- From page number `idx` on, the pages are read; the others stay.
  read_pages_content :
      (fuel end num_pages start addr idx : ℕ) (pages : List Page) (file : F)
      → memory.At addr file
      → addr ≡ start + idx * 4096
      → end + 4096 < 2 ^ 64
      → end ≤ addr + fuel * 4096
      → end ≤ start + num_pages * 4096
      → num_pages < 2 ^ 31
      → length pages ≡ num_pages
      → (pages' : List Page) × (file' : F) × (read_pages io fuel end num_pages addr idx pages file
          ≡ ok (pages', file'))
        × memory.Mine file'
        × (length pages' ≡ num_pages)
        × ((j : ℕ) → j < idx → get_elem? pages' j ≡ get_elem? pages j)
        × ((j : ℕ) → idx ≤ j → start + j * 4096 < end → Holds pages' j (content (start + j * 4096)))
  unfolding read_pages
  read_pages_content zero end num_pages start addr idx pages file at here low fuel room small size =
      (
        pages,
        file,
        ground arith,
        memory.stays addr file at,
        size,
        λ j h. refl,
        λ j h k. absurd (omega arith),
      )
  read_pages_content (suc fuel) end num_pages start addr idx pages file at here low more room small
        size =
      elim (Bool-cases (ltb addr end)) [
        | inr stop ↦ (
          pages,
          file,
          rw stop refl,
          memory.stays addr file at,
          size,
          λ j h. refl,
          λ j h k. absurd (ground arith),
        )
        | inl go ↦
            let in_range = ltb→lt addr end go in
            let full : (length (io.fread page_size file).1 == page_size) ≡ true =
              (==_iff _ _).1 (ap length (memory.reads addr file at) ∙ memory.whole addr) in
            let file1 = (io.fread page_size file).0 in
            let (hash, hashed, _) =
              page_hash_lem (content addr) page_size (omega (arith, memory.whole addr)) in
            let hashed' =
              ap (λ bytes. page_hash bytes page_size) (memory.reads addr file at) ∙ hashed in
            let (pages1, page, stored, size1, there, same, others) =
              set_hash_at pages idx hash (omega arith) in
            let next : u64 (addr + 4096) ≡ addr + 4096 = omega arith in
            elim (Bool-cases (eq_int (pos (idx + 1)) (to_int num_pages))) [
              | inl last ↦ (
                pages1,
                file1,
                rw (go, full, hashed', stored, last) refl,
                memory.stays (addr + 4096) file1 (memory.moves addr file at),
                size1 ∙ size,
                λ j h. others j (λ e. omega arith),
                λ j h k.
                    let e : j ≡ idx = omega (arith, last_page idx num_pages small last) in
                    held pages1 start addr idx j here e (page, there, hashed ∙ ap ok (sym same)),
              )
              | inr more_left ↦
                  let (pages', file', runs, mine, size', before, after) =
                    read_pages_content fuel end num_pages start (u64 (addr + 4096)) (idx + 1) pages1
                      file1 (subst (λ a. memory.At a file1) (sym next) (memory.moves addr file at))
                      (omega arith) low (omega arith) room small (size1 ∙ size) in
                  (
                    pages',
                    file',
                    rw (go, full, hashed', stored, more_left) runs,
                    mine,
                    size',
                    λ j h. before j (omega arith) ∙ others j (λ e. omega arith),
                    λ j h k. elim (ℕ_discrete j idx) [
                      | yes e ↦
                          held pages' start addr idx j here e
                            (page, before idx (omega arith) ∙ there, hashed ∙ ap ok (sym same))
                      | no ne ↦ after j (omega arith) k
                    ],
                  )
            ]
      ]

  -- In a mapped region of fewer than 2 ^ 31 - 1 pages whose memory can be read, each page that
  -- starts in the region gets the hash of its content.
  pub read_region_content :
      (mr : MemReg) (file : F)
      → HasSize io
      → memory.Mine file
      → IsMapped mr
      → span mr / page_size + 1 < 2 ^ 31
      → (mr' : MemReg) × (file' : F) × (read_region io mr file ≡ ok (mr', file'))
        × memory.Mine file'
        × Reads mr mr'
        × ((j : ℕ)
            → mr.start + j * 4096 < mr.end
            → Holds mr'.pages j (content (mr.start + j * 4096)))
  unfolding read_region
  read_region_content mr file sized mine (order, low) small =
      let num_pages = span mr / page_size + 1 in
      let (pages, file', runs, mine', size, before, after) =
        read_pages_content num_pages mr.end num_pages mr.start mr.start 0 (io.malloc num_pages)
          (io.fseeko mr.start file) (memory.seeks mr.start file mine) (omega arith) low
          (omega arith) (omega arith) small (sized num_pages) in
      (
        record mr { pages = pages },
        file',
        rw runs refl,
        mine',
        (refl, size),
        λ j h. after j (omega arith) h,
      )

  -- For a process whose regions are mapped and have fewer than 2 ^ 31 - 1 pages, and whose memory
  -- can be read, `read_mem` ends and gives each page that starts in a region the hash of its content.
  -- Only the pages of the regions change.
  pub read_mem_content :
      (p : Process) (file : F)
      → HasSize io
      → memory.Mine file
      → pos_part (proc_mr_num p) ≤ length p.maps
      → All IsShort (regions_of p)
      → (p' : Process) × (file' : F) × (read_mem io p file ≡ ok (p', file'))
        × (pos_part (proc_mr_num p') ≡ length p'.maps)
        × All₂ (HasContent content) (regions_of p) (regions_of p')
        × (p' ≡ record p { maps = p'.maps })
  read_mem_content p file sized mine fits h =
      read_mem_each io {I = memory.Mine} {P = IsShort} {R = HasContent content}
        (λ mr file mine short.
          let (mr', file', runs, mine', reads, holds) =
            read_region_content mr file sized mine short.0 short.1 in
          (mr', file', runs, mine', (reads, holds)))
        p file fits mine h
