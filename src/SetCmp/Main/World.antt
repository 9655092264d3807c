-- ===== src/SetCmp/Main/World.antt =====
-- What `main` of jni/setcmp.c prints, by what the processes hold in their memory.
use mathlib.Core.Option
use mathlib.Core.Path.{subst}
use memdump.Base.Loop.Along.{All₂-length}
use memdump.Mem.Files.Laws.Steps.{IsStored}
use memdump.Base.{
  ℕ, ◌-◌, ◌<◌, ◌≤◌, ◌≡◌, ◌∙◌, ◌⊎◌, refl, sym, ap, ap₂, inl, inr, some, List, [], ◌∷◌, ◌++◌, length,
  get_elem?, take, drop, map, map_index, All, All₂, ok, exit, fault, arith, take_all, zero, suc,
}
use memdump.Base.Int.{pos}
use memdump.Mem.{Page, Process}
use memdump.Mem.Files.{read_process}
use memdump.Mem.Files.Laws.{IsLinux}
use memdump.Mem.Files.World.{World, IsLive, image, read_process-image}
use memdump.RbTree.{RbTree}
use memdump.SetCmp.{max_pid}
use memdump.SetCmp.Sets.{all_pages}
use memdump.SetCmp.Distinct.{distinct}
use memdump.SetCmp.Inter.{inter_count}
use memdump.SetCmp.Intra.{intra_count}
use memdump.SetCmp.Total.{candidates}
use memdump.SetCmp.Main.{Printed, intra, inter, read_processes, main}
use memdump.SetCmp.Main.Numbers.{candidates_in, first_two, all_three, first_two_lem, reports_lem}
use memdump.SetCmp.Main.Outcome.{
  HasRead, HasRead_lem, every_or_one, main-stops, main-prints, main-faults,
}
use memdump.Sys.{Os, History, Refuses, outputs, pure}
use memdump.Sys.Ends.{same_value, same_end, Ends, Ends-bind, Ends-imp}
use memdump.Sys.Collect.{act_each-collect}

module _ {F : Type 0} (os : Os Printed F) (linux : IsLinux os) (w : World)
    (live : IsLive os linux w) where
  abbrev HasImage : Process → Process → Type 0
  HasImage p p' = all_pages p' ≡ image w p.pid

  read_processes-image :
      (proc : List Process) (n : ℕ) (h : History Printed)
      → n ≤ length proc
      → Ends (λ done h'. All₂ HasImage (take n proc) done) (Refuses os) (read_processes os n proc h)
  unfolding read_processes
  read_processes-image proc n h fits =
      Ends-imp _ (λ done h' r. rw r.1 r.2) (λ h' e. e)
        (act_each-collect HasImage (λ done h. Unit) (Refuses os) _
          (λ i p done h' u.
            Ends-bind (read_process os p) (λ p'. pure (done ++ (p' ∷ []))) h'
              (read_process-image os linux w live p h')
              (λ p' h'' same. inl (done ++ (p' ∷ []), h'', refl, (p', refl, same, tt))))
          n 0 proc [] h (omega arith) tt)

  read_processes-Refuses :
      (made : List Process) (n : ℕ) (h : History Printed)
      → n ≤ length made
      → read_processes os n made [] ≡ (exit, h)
      → Refuses os h
  read_processes-Refuses made n h fits stop = elim (read_processes-image made n [] fits) [
    | inl (done, h', runs, all) ↦ absurd (cc (sym stop ∙ runs))
    | inr (h', stop', refused) ↦ subst (Refuses os) (same_end h' h (sym stop' ∙ stop)) refused
  ]

  map-image :
      (made proc : List Process)
      → All₂ HasImage made proc
      → map all_pages proc ≡ map (image w) (map (λ (p : Process). p.pid) made)
  map-image [] [] h = refl
  map-image [] (p' ∷ proc) h = absurd h
  map-image (p ∷ made) [] h = absurd h
  map-image (p ∷ made) (p' ∷ proc) h = ap₂ ◌∷◌ h.0 (map-image made proc h.1)

  -- What the processes hold when all were read.
  HasRead-images :
      (argv : List (List ℕ)) (proc : List Process) (h : History Printed)
      → 2 < length argv
      → HasRead os argv proc h
      → map all_pages proc ≡ map (image w) (map os.atoi (drop 1 argv))
  HasRead-images argv proc h enough r =
      let n = length argv - 1 in
      let size : n ≡ length r.made = sym r.counted ∙ All₂-length IsStored r.made proc r.stored in
      elim (read_processes-image r.made n [] (omega arith)) [
        | inr (h', stop, u) ↦ absurd (cc (sym r.reads ∙ stop))
        | inl (done, h', runs, all) ↦
            let same : done ≡ proc = same_value done proc h' h (sym runs ∙ r.reads) in
            let here = subst (λ ps. All₂ HasImage (take n r.made) ps) same all in
            map-image r.made proc
              (subst (λ ps. All₂ HasImage ps proc) (take_all n r.made size) here)
            ∙ ap (map (image w)) r.pids
      ]

  All-images :
      (proc : List Process)
      → All (λ p. 0 < candidates 0 p) proc
      → All (λ pages. 0 < distinct (candidates_in pages)) (map all_pages proc)
  All-images [] h = tt
  All-images (p ∷ proc) h = (h.0, All-images proc h.1)

  at-images :
      (j : ℕ) (proc : List Process) (p : Process)
      → get_elem? proc j ≡ some p
      → get_elem? (map all_pages proc) j ≡ some (all_pages p)
  at-images j [] p e = cc
  at-images zero (q ∷ proc) p e = ap (Option.map all_pages) e
  at-images (suc j) (q ∷ proc) p e = at-images j proc p e

  -- Where the system does what it documents, and the files of each process have what it holds, in
  -- regions of whole pages that each have a frame, `main`, for two to 30 processes, exits only
  -- where the system refuses a call. Else the reports that it prints are those of the pages of the
  -- processes of its arguments, by the hash of each page's content and the count of its frame. If
  -- each process has a page that is neither zero nor shared, all three are printed, and `main`
  -- returns 0; else the first two are, and it ends in a fault.
  pub main-images :
      ⦃rb : RbTree⦄ (argv : List (List ℕ))
      → 2 < length argv
      → length argv < max_pid
      → ((h : History Printed) × (main os argv [] ≡ (exit, h)) × Refuses os h)
        ⊎ ((images : List (List Page)) × (h : History Printed) × (images
              ≡ map (image w) (map os.atoi (drop 1 argv)))
            × ((All (λ pages. 0 < distinct (candidates_in pages)) images
                  × (main os argv [] ≡ (ok (pos 0), h))
                  × (outputs h ≡ all_three images))
                ⊎ ((j : ℕ) × (pages : List Page) × (get_elem? images j ≡ some pages)
                    × (distinct (candidates_in pages) ≡ 0)
                    × (main os argv [] ≡ (fault, h))
                    × (outputs h ≡ first_two images))))
  main-images argv enough few = elim (HasRead_lem os argv linux enough) [
    | inl (h, made, makes, size, stop, e) ↦ inl (
      h,
      main-stops os argv enough few made h makes stop,
      read_processes-Refuses made _ h (omega (arith, size)) stop,
    )
    | inr (proc, h1, r) ↦
        let same = HasRead-images argv proc h1 enough r in
        elim (every_or_one proc) [
          | inl all ↦
              let (h, runs, out, calm, leaks) = main-prints os argv enough few proc h1 r all in
              inr (
                map all_pages proc,
                h,
                same,
                inl (All-images proc all, runs, out ∙ reports_lem proc),
              )
          | inr (j, p, at, none_left) ↦ inr (
            map all_pages proc,
            _,
            same,
            inr (
              j,
              all_pages p,
              at-images j proc p at,
              none_left,
              main-faults os argv enough few proc h1 r j p at none_left,
              ap
                    (λ out.
                      inter (map_index (inter_count 0 proc) 0 proc)
                      ∷ (intra (map (intra_count 0) proc) ∷ out))
                    r.quiet.1
                  ∙ first_two_lem proc,
            ),
          )
        ]
  ]
