-- ===== src/Mem/Pagemap/Content.antt =====
-- What an entry of the pagemap makes of a page: the number of page tables that refer to it.
use memdump.Base.{
  ℕ, ◌+◌, ◌*◌, ◌/◌, ◌%◌, ◌-◌, ◌^◌, ◌==◌, ◌≡◌, ◌<◌, ltb, false, if◌then◌else◌, List, ◌∷◌, get_elem?,
  some, set, ok, arith, inl, inr, Bool-cases, refl,
}
use memdump.Base.Int.{pos, to_int}
use memdump.Base.Loop.{for_each}
use memdump.Mem.{Page}
use memdump.Mem.Read.{u64}
use memdump.Mem.Pagemap.{
  File, kpageflags, kpagecount, Kernel, pagemap_pfn, do_u64_read, set_share, walk_pfn, count_entry,
}

pub pagemap_pfn-lt : (val : ℕ) → pagemap_pfn val < 2 ^ 55
unfolding pagemap_pfn
pagemap_pfn-lt val = ground arith

module _ (k : Kernel) where
  -- The kernel answers a read of one word of the file, at the index `i`.
  abbrev pub Answers : File → ℕ → ℕ → Type 0
  Answers file i word = (rest : List ℕ) × (k.pread file 8 (i * 8) ≡ (pos 8, word ∷ rest))

  do_u64_read-one :
      (file : File) (i word : ℕ)
      → i < 2 ^ 55
      → (a : Answers file i word) → do_u64_read k file i 1 ≡ ok (1, word ∷ a.0)
  unfolding do_u64_read
  do_u64_read-one file i word small (rest, answer) =
      let low : ltb ((2 ^ 64 - 1) / 8) i ≡ false = ground arith in
      let offset : u64 (i * 8) ≡ i * 8 = omega arith in rw (low, offset, answer) refl

  set_share-at :
      (start voffset cnt j : ℕ) (pages : List Page) (page : Page)
      → start % 4096 ≡ 0
      → voffset ≡ start / 4096 + j
      → voffset < 2 ^ 52
      → get_elem? pages j ≡ some page
      → set_share k start voffset 0 cnt pages
        ≡ ok (set pages j (record page { share = to_int cnt }))
  unfolding set_share
  set_share-at start voffset cnt j pages page aligned here low at =
      let off : u64 (u64 (u64 (voffset + 0) * 4096) + 2 ^ 64 - start) / 4096 ≡ j = omega arith in
      rw (off, at) refl

  -- With the kernel's answers for its frame, an entry sets the count of its page and of no other.
  pub count_entry-share :
      (start index i val flags cnt j : ℕ) (pages : List Page) (page : Page)
      → start % 4096 ≡ 0
      → index + i ≡ start / 4096 + j
      → index + i < 2 ^ 52
      → get_elem? pages j ≡ some page
      → Answers kpageflags (pagemap_pfn val) flags
      → Answers kpagecount (pagemap_pfn val) cnt
      → count_entry k start index i val pages
        ≡ ok (
            if pagemap_pfn val == 0
            then pages
            else set pages j (record page { share = to_int cnt }))
  unfolding count_entry walk_pfn for_each
  count_entry-share start index i val flags cnt j pages page aligned here low at answer count =
      elim (Bool-cases (pagemap_pfn val == 0)) [
        | inl none_there ↦ rw none_there refl
        | inr frame ↦
            let small = pagemap_pfn-lt val in
            let number : u64 (index + i) ≡ index + i = omega arith in
            rw
              (
                frame,
                number,
                do_u64_read-one kpageflags (pagemap_pfn val) flags small answer,
                do_u64_read-one kpagecount (pagemap_pfn val) cnt small count,
                set_share-at start (index + i) cnt j pages page aligned here low at,
              )
              refl
      ]
