-- ===== src/Mem/Pagemap/Laws.antt =====
-- The pagemap loops end, and write inside the arrays, whatever the files of the kernel hold.
use native.Mathlib.Numerals.{add-one}
use memdump.Base.{
  Bool, false, if◌then◌else◌, ◌>>=◌, sym, ap, append-nil, ℕ, zero, suc, ◌+◌, ◌-◌, ◌*◌, ◌/◌, ◌%◌,
  ◌^◌, ◌==◌, ◌≡◌, ◌≤◌, ◌<◌, ◌∙◌, ltb, true, List, [], ◌∷◌, ◌++◌, length, length-set, set, min, Run,
  ok, exit, arith, ◌⊎◌, inl, inr, Bool-cases, ==_iff, refl,
}
use memdump.Base.Int.{ℤ, pos, negsuc, pos_part, to_int}
use memdump.Base.Loop.{for_each}
use memdump.Base.Loop.Laws.{elem_at}
use memdump.Mem.{page_size, Page, MemReg, span}
use memdump.Mem.Read.{u64}
use memdump.Mem.Read.Laws.{IsMapped}
use memdump.Mem.Flags.{has_bit, PageFlags, walk_swap}
use memdump.Mem.Flags.Laws.{swap_line, walk_swap_lem}
use memdump.Mem.Pagemap.{
  File, pagemap, kpageflags, kpagecount, Kernel, pagemap_pfn, words_of, do_u64_read, set_share,
  walk_pfn, count_entry, show_swapped, walk_entry, walk_pagemap, mr_parse_pagemap,
}

-- The run ends with as many pages as before, or exits with a message.
abbrev Ends {ℓ} : {S : Type ℓ} → (S → List Page) → ℕ → Run S → Type ℓ
Ends {S} pages n r = ((s : S) × (r ≡ ok s) × (length (pages s) ≡ n)) ⊎ (r ≡ exit)

for_each-Ends {ℓ} :
    {S : Type ℓ} (pages : S → List Page) (n bound : ℕ) (xs : List ℕ) (f : ℕ → ℕ → S → Run S)
    → ((i x : ℕ) (s : S) → i < bound → length (pages s) ≡ n → Ends pages n (f i x s))
    → bound ≤ length xs
    → (left i : ℕ) (s : S) → i + left ≤ bound
    → length (pages s) ≡ n
    → Ends pages n (for_each left i xs f s)
unfolding for_each
for_each-Ends pages n bound xs f each fits zero i s lt size = inl (s, refl, size)
for_each-Ends pages n bound xs f each fits (suc left) i s lt size =
    let (x, at) = elem_at i xs (omega arith) in
    elim (each i x s (omega arith) size) [
      | inr stop ↦ inr (rw (at, stop) refl)
      | inl (s', runs, size') ↦
          elim (for_each-Ends pages n bound xs f each fits left (suc i) s' (omega arith) size') [
            | inl (s'', rest, size'') ↦ inl (s'', rw (at, runs, add-one) rest, size'')
            | inr stop ↦ inr (rw (at, runs, add-one) stop)
          ]
    ]

abbrev itself : List Page → List Page
itself pages = pages

abbrev pages_in : List Page × List PageFlags → List Page
pages_in s = s.0

-- What is printed of an entry.
abbrev pub swap_lines : ℕ → ℕ → List PageFlags
swap_lines voffset val = if has_bit 62 val then swap_line voffset val ∷ [] else []

shown :
    (swapped : Bool) (r : Run PageFlags) (line : PageFlags) (out : List PageFlags)
    → r ≡ ok line
    → (if swapped then r >>= (λ line. ok (out ++ (line ∷ []))) else ok out)
      ≡ ok (out ++ (if swapped then line ∷ [] else []))
shown false r line out e = ap ok (sym (append-nil out))
shown true r line out e = rw e refl

pub show_swapped_lem :
    (voffset val : ℕ) (out : List PageFlags)
    → show_swapped voffset val out ≡ ok (out ++ swap_lines voffset val)
unfolding show_swapped
show_swapped_lem voffset val out =
    shown (has_bit 62 val) (walk_swap voffset val) (swap_line voffset val) out
      (walk_swap_lem voffset val)

module _ (k : Kernel) where
  words_of_lem :
      (r : ℤ × List ℕ)
      → pos_part r.0 / 8 ≤ length r.1
      → ((n : ℕ) × (buf : List ℕ) × (words_of r ≡ ok (n, buf))
          × (n * 8 ≤ pos_part r.0)
          × (n ≤ length buf))
        ⊎ (words_of r ≡ exit)
  words_of_lem (negsuc n, buf) h = inr refl
  words_of_lem (pos bytes, buf) h = elim (Bool-cases (bytes % 8 == 0)) [
    | inl e ↦ inl (bytes / 8, buf, rw e refl, omega arith, h)
    | inr e ↦ inr (rw e refl)
  ]

  do_u64_read_lem :
      (file : File) (index count : ℕ)
      → count < 2 ^ 60
      → ((n : ℕ) × (buf : List ℕ) × (do_u64_read k file index count ≡ ok (n, buf))
          × (n ≤ count)
          × (n ≤ length buf))
        ⊎ (do_u64_read k file index count ≡ exit)
  unfolding do_u64_read
  do_u64_read_lem file index count small = elim (Bool-cases (ltb ((2 ^ 64 - 1) / 8) index)) [
    | inl e ↦ inr (rw e refl)
    | inr e ↦
        let bytes = u64 (count * 8) in
        let offset = u64 (index * 8) in
        let le = k.pread_le file bytes offset in
        elim (words_of_lem (k.pread file bytes offset) (k.pread_fills file bytes offset)) [
          | inl (n, buf, runs, few, fits) ↦ inl (n, buf, rw e runs, omega arith, fits)
          | inr stop ↦ inr (rw e stop)
        ]
  ]

  set_share_lem :
      (start voffset i cnt n : ℕ) (pages : List Page)
      → start % 4096 ≡ 0
      → start / 4096 ≤ voffset + i
      → voffset + i < 2 ^ 52
      → voffset + i < start / 4096 + n
      → length pages ≡ n
      → Ends itself n (set_share k start voffset i cnt pages)
  unfolding set_share
  set_share_lem start voffset i cnt n pages aligned above low below size =
      let vaddr = u64 (u64 (voffset + i) * page_size) in
      let page_off = u64 (vaddr + 2 ^ 64 - start) / page_size in
      let inside : page_off < length pages = omega arith in
      let (page, at) = elem_at page_off pages inside in
      inl (
        set pages page_off (record page { share = to_int cnt }),
        rw at refl,
        length-set pages page_off (record page { share = to_int cnt }) ∙ size,
      )

  walk_pfn_lem :
      (voffset pfn start n : ℕ) (pages : List Page)
      → start % 4096 ≡ 0
      → start / 4096 ≤ voffset
      → voffset < 2 ^ 52
      → voffset < start / 4096 + n
      → length pages ≡ n
      → Ends itself n (walk_pfn k 1 voffset pfn 1 start pages)
  unfolding walk_pfn
  walk_pfn_lem voffset pfn start n pages aligned above low below size =
      elim (do_u64_read_lem kpageflags pfn 1 (omega arith)) [
        | inr stop ↦ inr (rw stop refl)
        | inl (m, buf, runs, few, fits) ↦ elim (Bool-cases (m == 0)) [
          | inl e ↦ inl (pages, rw (runs, e) refl, size)
          | inr e ↦ elim (do_u64_read_lem kpagecount pfn m (omega arith)) [
            | inr stop ↦ inr (rw (runs, e, stop) refl)
            | inl (c, cnt, runs', few', fits') ↦ elim (Bool-cases (c == m)) [
              | inr ne ↦ inr (rw (runs, e, runs', ne) refl)
              | inl same ↦
                  let all : m ≤ length cnt = omega (arith, (==_iff c m).0 same) in
                  let done : (u64 (1 + 2 ^ 64 - m) == 0) ≡ true = ground arith in
                  elim (for_each-Ends itself n m cnt (set_share k start voffset)
                    (λ i x pages lt size.
                      set_share_lem start voffset i x n pages aligned (omega arith) (omega arith)
                        (omega arith) size)
                    all m 0 pages (omega arith) size) [
                      | inr stop ↦ inr (rw (runs, e, runs', same, stop) refl)
                      | inl (pages', loop, size') ↦
                          inl (pages', rw (runs, e, runs', same, loop, done) refl, size')
                    ]
            ]
          ]
        ]
      ]

  count_entry_lem :
      (start index i val n : ℕ) (pages : List Page)
      → start % 4096 ≡ 0
      → start / 4096 ≤ index + i
      → index + i < 2 ^ 52
      → index + i < start / 4096 + n
      → length pages ≡ n
      → Ends itself n (count_entry k start index i val pages)
  unfolding count_entry
  count_entry_lem start index i val n pages aligned above low below size =
      elim (Bool-cases (pagemap_pfn val == 0)) [
        | inl e ↦ inl (pages, rw e refl, size)
        | inr e ↦ rw e (
            walk_pfn_lem (u64 (index + i)) (pagemap_pfn val) start n pages aligned (omega arith)
              (omega arith) (omega arith) size)
      ]

  walk_entry_lem :
      (start index i val n : ℕ) (s : List Page × List PageFlags)
      → start % 4096 ≡ 0
      → start / 4096 ≤ index + i
      → index + i < 2 ^ 52
      → index + i < start / 4096 + n
      → length s.0 ≡ n
      → Ends pages_in n (walk_entry k start index i val s)
  unfolding walk_entry
  walk_entry_lem start index i val n s aligned above low below size =
      elim (count_entry_lem start index i val n s.0 aligned above low below size) [
        | inr stop ↦ inr (rw stop refl)
        | inl (pages', runs, size') ↦ inl (
          (pages', s.1 ++ swap_lines (u64 (index + i)) val),
          rw (runs, show_swapped_lem (u64 (index + i)) val s.1) refl,
          size',
        )
      ]

  walk_pagemap_lem :
      (fuel index count start n : ℕ) (s : List Page × List PageFlags)
      → start % 4096 ≡ 0
      → start / 4096 ≤ index
      → count ≤ fuel
      → index + count ≤ 2 ^ 52
      → index + count ≤ start / 4096 + n
      → length s.0 ≡ n
      → Ends pages_in n (walk_pagemap k fuel index count start s)
  unfolding walk_pagemap
  walk_pagemap_lem zero index count start n s aligned above more low below size =
      inl (s, ground arith, size)
  walk_pagemap_lem (suc fuel) index count start n s aligned above more low below size =
      elim (Bool-cases (count == 0)) [
        | inl e ↦ inl (s, rw e refl, size)
        | inr left ↦ elim (do_u64_read_lem pagemap index (min count 16_384) (omega arith)) [
          | inr stop ↦ inr (rw (left, stop) refl)
          | inl (m, buf, runs, few, fits) ↦ elim (Bool-cases (m == 0)) [
            | inl e ↦ inl (s, rw (left, runs, e) refl, size)
            | inr e ↦
                let advances : 0 < m = ground arith in
                elim (for_each-Ends pages_in n m buf (walk_entry k start index)
                  (λ i x s lt size.
                    walk_entry_lem start index i x n s aligned (omega arith) (omega arith)
                      (omega arith) size)
                  fits m 0 s (omega arith) size) [
                    | inr stop ↦ inr (rw (left, runs, e, stop) refl)
                    | inl (s', loop, size') ↦
                        rw (left, runs, e, loop)
                          (walk_pagemap_lem fuel (u64 (index + m)) (u64 (count + 2 ^ 64 - m)) start
                            n s' aligned (omega (arith, advances)) (omega (arith, advances))
                            (omega (arith, advances)) (omega (arith, advances)) size')
                  ]
          ]
        ]
      ]

  -- In a mapped region at the start of a page, with an array for all its pages, the loops over the
  -- pagemap end, whatever the kernel's files hold. Each write of a count is inside the array: the
  -- result is the same region but for the counts, or the program exits.
  pub mr_parse_pagemap_lem :
      (mr : MemReg)
      → IsMapped mr
      → mr.start % 4096 ≡ 0
      → span mr / 4096 ≤ length mr.pages
      → ((mr' : MemReg) × (lines : List PageFlags) × (mr_parse_pagemap k mr ≡ ok (mr', lines))
          × (mr' ≡ record mr { pages = mr'.pages })
          × (length mr'.pages ≡ length mr.pages))
        ⊎ (mr_parse_pagemap k mr ≡ exit)
  unfolding mr_parse_pagemap
  mr_parse_pagemap_lem mr (order, low) aligned fits =
      elim (walk_pagemap_lem (span mr / page_size) (mr.start / page_size) (span mr / page_size)
        mr.start (length mr.pages) (mr.pages, []) aligned (omega arith) (omega arith) (omega arith)
        (omega arith) refl) [
          | inr stop ↦ inr (rw stop refl)
          | inl ((pages', lines), runs, size) ↦
              inl (record mr { pages = pages' }, lines, rw runs refl, refl, size)
        ]
