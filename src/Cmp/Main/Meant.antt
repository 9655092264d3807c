-- ===== src/Cmp/Main/Meant.antt =====
-- `main` of jni/cmp.c prints what it is meant to, where the hash tells the pages apart.
use memdump.Base.{
  ℕ, ◌/◌, ◌==◌, ◌&&◌, ◌≡◌, ◌∙◌, ◌⊎◌, not, Bool, false, refl, ap, ap₂, inl, inr, List, [], ◌∷◌, ◌++◌,
  map, flat_map, count_if, mem, All, All-split, ok, exit,
}
use memdump.Base.Int.{ℤ, pos, to_int}
use memdump.Mem.{MemReg, span, page_to_u32}
use memdump.Mem.Image.{Held, kept, held_from, held_of, images-held_from}
use memdump.Mem.Files.Laws.{IsLinux}
use memdump.Mem.Files.World.{World, IsLive}
use memdump.RbTree.{RbTree}
use memdump.Simi.Order.{IsSorted}
use memdump.SetCmp.Main.Bytes.{is_alone, is_among, alone_of}
use memdump.SetCmp.Main.Kept.{AreHeld, count_if-kept, All-select}
use memdump.SetCmp.Main.Told.{mem-digest, candidates_in-kept, is_candidate-kept}
use memdump.SetCmp.Main.Meant.{IsHeld, Tells, held-AreHeld}
use memdump.Cmp.{Redund, Qsort, Line}
use memdump.Cmp.Main.{Printed, pids, simi, main}
use memdump.Cmp.Main.Images.{common, pair_image, pair_images}
use memdump.Cmp.Main.World.{main-pair_images}
use memdump.Sys.{Os, History, Refuses, is_stopped, outputs}

-- How many pages of the first list that are alone hold what such a page of the second holds.
abbrev pub common_held : List Held → List Held → ℕ
common_held pages1 pages2 =
    count_if (λ (held : Held). is_alone held && is_among held.bytes (alone_of pages2)) pages1

module _ (w : World) where
  abbrev pub region_held : ℤ → MemReg → List Held
  region_held pid mr = held_from (w.content pid) (w.entry pid) w.count mr 0 (span mr / 4096)

  module _ (pid1 pid2 : ℤ) where
    -- The line of a region of each process, by content.
    abbrev pub pair_held : MemReg → MemReg → Line
    pair_held m1 m2 = record {
      dup = common_held (region_held pid1 m1) (region_held pid2 m2);
      page_num_1 = to_int (span m1 / 4096);
      page_num_2 = to_int (span m2 / 4096);
      name_1 = m1.pathname;
      start_1 = m1.start;
      name_2 = m2.pathname;
      start_2 = m2.start;
    }

    abbrev pub all_pairs_held : List Line
    all_pairs_held = flat_map (λ m1. map (pair_held m1) (w.regions pid2)) (w.regions pid1)

  module _ (tells : Tells w) where
    common-kept :
        (pages1 pages2 : List Held)
        → AreHeld (IsHeld w) pages1
        → AreHeld (IsHeld w) pages2
        → common (map kept pages1) (map kept pages2) ≡ common_held pages1 pages2
    unfolding page_to_u32
    common-kept pages1 pages2 all1 all2 =
        count_if-kept (IsHeld w) _ (λ held. is_alone held && is_among held.bytes (alone_of pages2))
          (λ held is. ap₂ ◌&&◌ (is_candidate-kept (IsHeld w) tells (inr refl) held is) (
            ap (λ vs. mem (page_to_u32 (kept held)) vs)
              (candidates_in-kept (IsHeld w) tells (inr refl) pages2 all2)
            ∙ mem-digest (IsHeld w) tells (inr refl) held.bytes (alone_of pages2) is
                (All-select (IsHeld w) is_alone pages2 all2)))
          pages1 all1

    pair-held :
        (pid1 pid2 : ℤ) (m1 m2 : MemReg)
        → AreHeld (IsHeld w) (region_held pid1 m1)
        → AreHeld (IsHeld w) (region_held pid2 m2)
        → pair_image w pid1 pid2 m1 m2 ≡ pair_held pid1 pid2 m1 m2
    pair-held pid1 pid2 m1 m2 all1 all2 =
        ap
          (λ (dup : ℕ). record {
            dup = dup;
            page_num_1 = to_int (span m1 / 4096);
            page_num_2 = to_int (span m2 / 4096);
            name_1 = m1.pathname;
            start_1 = m1.start;
            name_2 = m2.pathname;
            start_2 = m2.start;
          })
          (ap₂ common
              (images-held_from (w.content pid1) (w.entry pid1) w.count m1 (span m1 / 4096) 0)
              (images-held_from (w.content pid2) (w.entry pid2) w.count m2 (span m2 / 4096) 0)
            ∙ common-kept (region_held pid1 m1) (region_held pid2 m2) all1 all2)

    -- The regions of a process hold what it holds.
    regions-AreHeld :
        (pid : ℤ) (mrs : List MemReg)
        → AreHeld (IsHeld w) (held_of (w.content pid) (w.entry pid) w.count mrs)
        → All (λ mr. AreHeld (IsHeld w) (region_held pid mr)) mrs
    regions-AreHeld pid [] all = tt
    regions-AreHeld pid (mr ∷ mrs) all =
        let (front, back) =
          All-split (λ (held : Held). IsHeld w held.bytes) (region_held pid mr)
            (held_of (w.content pid) (w.entry pid) w.count mrs) all in
        (front, regions-AreHeld pid mrs back)

    row-held :
        (pid1 pid2 : ℤ) (m1 : MemReg) (mrs : List MemReg)
        → AreHeld (IsHeld w) (region_held pid1 m1)
        → All (λ mr. AreHeld (IsHeld w) (region_held pid2 mr)) mrs
        → map (pair_image w pid1 pid2 m1) mrs ≡ map (pair_held pid1 pid2 m1) mrs
    row-held pid1 pid2 m1 [] is all = refl
    row-held pid1 pid2 m1 (mr ∷ mrs) is all =
        ap₂ ◌∷◌ (pair-held pid1 pid2 m1 mr is all.0) (row-held pid1 pid2 m1 mrs is all.1)

    rows-held :
        (pid1 pid2 : ℤ) (mrs2 mrs : List MemReg)
        → All (λ mr. AreHeld (IsHeld w) (region_held pid2 mr)) mrs2
        → All (λ mr. AreHeld (IsHeld w) (region_held pid1 mr)) mrs
        → flat_map (λ m1. map (pair_image w pid1 pid2 m1) mrs2) mrs
          ≡ flat_map (λ m1. map (pair_held pid1 pid2 m1) mrs2) mrs
    rows-held pid1 pid2 mrs2 [] all2 all = refl
    rows-held pid1 pid2 mrs2 (mr ∷ mrs) all2 all =
        ap₂ ◌++◌ (row-held pid1 pid2 mr mrs2 all.0 all2) (rows-held pid1 pid2 mrs2 mrs all2 all.1)

    pair_images-held : (pid1 pid2 : ℤ) → pair_images w pid1 pid2 ≡ all_pairs_held pid1 pid2
    pair_images-held pid1 pid2 =
        let all = λ (pid : ℤ). regions-AreHeld pid (w.regions pid) (held-AreHeld w (pid ∷ [])).0 in
        rows-held pid1 pid2 (w.regions pid2) (w.regions pid1) (all pid2) (all pid1)

    module _ {F : Type 0} (os : Os Printed F) (linux : IsLinux os) (live : IsLive os linux w) where
      -- Where the system does what it documents, the files of each process have what it holds, in
      -- regions of whole pages that each have a frame, and no two different pages that processes
      -- hold, or the zero page, have the same hash, `main` with two processes exits only where the
      -- system refuses a call. Else it returns 0 and leaves no process stopped, and has printed
      -- the numbers of the processes and, in ascending order of the number of common pages,
      -- exactly the pairs of a region of each that have pages in common, by content: each line as
      -- often as it is one of such a pair.
      pub main-all_pairs_held :
          ⦃rb : RbTree⦄ ⦃sort : Qsort Redund⦄ (name arg1 arg2 : List ℕ)
          → let pid1 = os.atoi arg1 in
            let pid2 = os.atoi arg2 in
            ((h : History Printed) × (main os (name ∷ arg1 ∷ arg2 ∷ []) [] ≡ (exit, h))
              × Refuses os h)
            ⊎ ((lines : List Line) × (h : History Printed) × (main os (name ∷ arg1 ∷ arg2 ∷ []) []
                  ≡ (ok (pos 0), h))
                × (outputs h ≡ simi lines ∷ pids pid1 pid2 ∷ [])
                × IsSorted (map (λ (l : Line). l.dup) lines)
                × ((q : Line → Bool)
                    → count_if q lines
                      ≡ count_if (λ (l : Line). not (l.dup == 0) && q l) (all_pairs_held pid1 pid2))
                × ((pid : ℤ) → is_stopped pid h ≡ false))
      main-all_pairs_held name arg1 arg2 = elim (main-pair_images os linux w live name arg1 arg2) [
        | inl stops ↦ inl stops
        | inr (lines, h, runs, out, sorted, counts, calm) ↦ inr (
          lines,
          h,
          runs,
          out,
          sorted,
          λ q.
              counts q
              ∙ ap (count_if (λ (l : Line). not (l.dup == 0) && q l))
                  (pair_images-held (os.atoi arg1) (os.atoi arg2)),
          calm,
        )
      ]
