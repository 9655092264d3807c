-- ===== src/Cmp/Main/World.antt =====
-- What `main` of jni/cmp.c prints of two processes, by what they hold in their memory.
use mathlib.Core.Path.{subst}
use memdump.Base.{
  ℕ, ◌==◌, ◌&&◌, ◌≡◌, ◌∙◌, ◌⊎◌, not, Bool, false, refl, sym, ap, inl, inr, List, [], ◌∷◌, map,
  count_if, All, ok, exit,
}
use memdump.Base.Int.{ℤ, pos}
use memdump.Mem.{MemReg, Process, proc_init, regions_of}
use memdump.Mem.Image.{IsPresent}
use memdump.Mem.Files.{new_process, proc_attach, proc_do_files, proc_parse_pagemap}
use memdump.Mem.Files.Content.{IsGood}
use memdump.Mem.Files.Laws.{IsLinux}
use memdump.Mem.Files.Laws.Taken.{attach_first}
use memdump.Mem.Files.World.{
  World, IsLive, HoldsAll, IsRead-Keeps, proc_do_files-IsRead, proc_parse_pagemap-HoldsAll,
}
use memdump.RbTree.{RbTree}
use memdump.Simi.Order.{IsSorted}
use memdump.Cmp.{Redund, Qsort, Line, line}
use memdump.Cmp.Laws.{region_pairs}
use memdump.Cmp.Main.Images.{
  pair_images, IsFramed, rows_lem, count_if-map, map-dup-line, count_if-dup-line,
}
use memdump.Cmp.Main.{Printed, pids, simi, read_both, main}
use memdump.Cmp.Main.Outcome.{cmp_main_lem}
use memdump.Sys.{Os, History, Refuses, is_stopped, outputs, waited, attached}
use memdump.Sys.Ends.{Ends, Ends-bind, ended, same_value, same_end}

module _ {F : Type 0} (os : Os Printed F) (linux : IsLinux os) (w : World)
    (live : IsLive os linux w) where
  attach-Ends :
      (p : Process) (h : History Printed)
      → Ends (λ u h'. h' ≡ waited ∷ (attached p.pid ∷ h)) (Refuses os) (proc_attach os p h)
  attach-Ends p h = elim (attach_first os p h) [
    | inl runs ↦ inl (tt, waited ∷ (attached p.pid ∷ h), runs, refl)
    | inr (stop, refused) ↦ inr (h, stop, inl (p.pid, refused))
  ]

  read_both-HoldsAll :
      (pid1 pid2 : ℤ)
      → Ends
          (λ ps h. HoldsAll os linux w live pid1 ps.0 × HoldsAll os linux w live pid2 ps.1)
          (Refuses os)
          (read_both os pid1 pid2 [])
  unfolding read_both new_process proc_init
  read_both-HoldsAll pid1 pid2 =
      let m = os.malloc [] in
      let p1 = proc_init pid1 m.0 m.1 m.2 in
      let p2 = proc_init pid2 m.0 m.1 m.2 in
      Ends-bind (proc_attach os p1) _ [] (attach-Ends p1 []) (λ u1 h1 e1.
        Ends-bind (proc_attach os p2) _ h1 (attach-Ends p2 h1) (λ u2 h2 e2.
          Ends-bind (proc_do_files os p1) _ h2 (proc_do_files-IsRead os linux w live p1 h2)
            (λ q1 h3 (r1, keeps1).
              Ends-bind (proc_do_files os p2) _ h3 (proc_do_files-IsRead os linux w live p2 h3)
                (λ q2 h4 (r2, keeps2).
                  Ends-bind (proc_parse_pagemap os q1) _ h4
                    (proc_parse_pagemap-HoldsAll os linux w live p1 q1 h4
                      (IsRead-Keeps os linux w live p1 q1 h3 h4 r1 keeps2))
                    (λ s1 h5 (holds1, keeps3).
                      Ends-bind (proc_parse_pagemap os q2) _ h5
                        (proc_parse_pagemap-HoldsAll os linux w live p2 q2 h5
                          (IsRead-Keeps os linux w live p2 q2 h4 h5 r2 keeps3))
                        (λ s2 h6 (holds2, keeps4). inl ((s1, s2), h6, refl, (holds1, holds2))))))))

  All-IsFramed :
      (pid : ℤ) (mrs : List MemReg)
      → All IsGood mrs
      → All (IsPresent (w.content pid) (w.entry pid) w.count) mrs
      → All (IsFramed w pid) mrs
  All-IsFramed pid [] good present = tt
  All-IsFramed pid (mr ∷ mrs) good present =
      ((good.0, present.0), All-IsFramed pid mrs good.1 present.1)

  -- Where the system does what it documents, and the files of each process have what it holds, in
  -- regions of whole pages that each have a frame, `main` with two processes exits only where the
  -- system refuses a call. Else it returns 0 and leaves no process stopped, and has printed the
  -- numbers of the processes and, in ascending order of the number of common pages, exactly the
  -- pairs of a region of each that have common pages by the hash of their content: each line as
  -- often as it is one of such a pair.
  pub main-pair_images :
      ⦃rb : RbTree⦄ ⦃sort : Qsort Redund⦄ (name arg1 arg2 : List ℕ)
      → let pid1 = os.atoi arg1 in
        let pid2 = os.atoi arg2 in
        ((h : History Printed) × (main os (name ∷ arg1 ∷ arg2 ∷ []) [] ≡ (exit, h)) × Refuses os h)
        ⊎ ((lines : List Line) × (h : History Printed) × (main os (name ∷ arg1 ∷ arg2 ∷ []) []
              ≡ (ok (pos 0), h))
            × (outputs h ≡ simi lines ∷ pids pid1 pid2 ∷ [])
            × IsSorted (map (λ (l : Line). l.dup) lines)
            × ((q : Line → Bool)
                → count_if q lines
                  ≡ count_if (λ (l : Line). not (l.dup == 0) && q l) (pair_images w pid1 pid2))
            × ((pid : ℤ) → is_stopped pid h ≡ false))
  main-pair_images name arg1 arg2 =
      let pid1 = os.atoi arg1 in
      let pid2 = os.atoi arg2 in
      elim (cmp_main_lem os name arg1 arg2 linux) [
        | inl (h, stop, stops) ↦ elim (read_both-HoldsAll pid1 pid2) [
          | inl (ps, h', reads, holds) ↦ absurd (ended ps h' h (sym reads ∙ stop))
          | inr (h', stop', refused) ↦
              inl (h, stops, subst (Refuses os) (same_end h' h (sym stop' ∙ stop)) refused)
        ]
        | inr (p1, p2, h1, h, rs, reads, both, runs, out, sorted, counts, calm) ↦
            elim (read_both-HoldsAll pid1 pid2) [
              | inr (h', stop, refused) ↦ absurd (ended (p1, p2) h1 h' (sym reads ∙ stop))
              | inl (ps, h', reads', holds) ↦
                  let same = same_value ps (p1, p2) h' h1 (sym reads' ∙ reads) in
                  let (holds1, holds2) =
                    subst
                      (λ (ps : Process × Process).
                        HoldsAll os linux w live pid1 ps.0 × HoldsAll os linux w live pid2 ps.1)
                      same holds in
                  let all = λ (pid : ℤ).
                    All-IsFramed pid (w.regions pid) (live.good pid) (live.present pid) in
                  let lines =
                    rows_lem w pid1 pid2 (w.regions pid2) (regions_of p2) (all pid2) holds2
                      (w.regions pid1) (regions_of p1) (all pid1) holds1 in
                  inr (
                    map line rs,
                    h,
                    runs,
                    out,
                    subst IsSorted (sym (map-dup-line rs)) sorted,
                    λ q.
                        count_if-map line q rs
                        ∙ counts (λ r. q (line r))
                        ∙ count_if-dup-line q (region_pairs 0 p1 p2)
                        ∙ ap (count_if (λ (l : Line). not (l.dup == 0) && q l)) lines,
                    calm,
                  )
            ]
      ]
