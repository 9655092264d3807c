-- ===== src/Cmp/Main/Outcome.antt =====
-- How `main` of jni/cmp.c ends.
use memdump.Base.{
  ℕ, ◌≡◌, ◌&&◌, ◌||◌, not, Bool, true, false, refl, ap, ◌∙◌, ◌⊎◌, inl, inr, List, [], ◌∷◌, map,
  count_if, ok, exit,
}
use memdump.Base.Int.{ℤ, pos, eq_int}
use memdump.Mem.{Process, proc_init}
use memdump.Mem.Hash.Laws.{page_hash_zeros}
use memdump.Mem.Files.{new_process, proc_attach, proc_detach, proc_do_files, proc_parse_pagemap}
use memdump.Mem.Files.Laws.{IsLinux}
use memdump.Mem.Files.Laws.Steps.{
  IsStored, proc_attach-Ends, proc_do_files-Still, proc_parse_pagemap-Still, proc_del-Still,
}
use memdump.RbTree.{RbTree}
use memdump.Simi.Order.{IsSorted}
use memdump.Cmp.{Redund, Qsort, line}
use memdump.Cmp.Laws.{has_dup, region_pairs, print_simi_lem}
use memdump.Cmp.Main.{Printed, pids, simi, read_both, main}
use memdump.Sys.{Os, History, printed, continued, detached, is_stopped, outputs}
use memdump.Sys.Ends.{Ends, Ends-bind}

-- The two processes are loaded, and they alone are stopped.
pub record BothRead (pid1 pid2 : ℤ) (p1 p2 : Process) (h : History Printed) : Type 0 where
  pub from1 : Process
  pub from2 : Process
  pub stored1 : IsStored from1 p1
  pub stored2 : IsStored from2 p2
  pub pid1_kept : p1.pid ≡ pid1
  pub pid2_kept : p2.pid ≡ pid2
  pub silent : outputs h ≡ []
  pub stopped : (pid : ℤ) → is_stopped pid h ≡ (eq_int pid2 pid || (eq_int pid1 pid || false))

let_go_two : (a b : Bool) → (not b && (not b && (not a && (not a && (b || (a || false)))))) ≡ false
let_go_two false false = refl
let_go_two false true = refl
let_go_two true false = refl
let_go_two true true = refl

module _ {F : Type 0} (os : Os Printed F) where
  read_both_lem :
      (pid1 pid2 : ℤ)
      → IsLinux os
      → Ends (λ ps h. BothRead pid1 pid2 ps.0 ps.1 h) (λ h. Unit {0}) (read_both os pid1 pid2 [])
  unfolding read_both new_process proc_init
  read_both_lem pid1 pid2 linux =
      let m = os.malloc [] in
      let p1 = proc_init pid1 m.0 m.1 m.2 in
      let p2 = proc_init pid2 m.0 m.1 m.2 in
      Ends-bind (proc_attach os p1) _ [] (proc_attach-Ends os p1 []) (λ u1 h1 e1.
        Ends-bind (proc_attach os p2) _ h1 (proc_attach-Ends os p2 h1) (λ u2 h2 e2.
          Ends-bind (proc_do_files os p1) _ h2 (proc_do_files-Still os p1 h2 linux) (λ q1 h3 s1.
            Ends-bind (proc_do_files os p2) _ h3 (proc_do_files-Still os p2 h3 linux) (λ q2 h4 s2.
              Ends-bind (proc_parse_pagemap os q1) _ h4 (proc_parse_pagemap-Still os p1 q1 h4 s1.0)
                (λ r1 h5 s3.
                  Ends-bind (proc_parse_pagemap os q2) _ h5
                    (proc_parse_pagemap-Still os p2 q2 h5 s2.0)
                    (λ r2 h6 s4. inl (
                      (r1, r2),
                      h6,
                      refl,
                      record {
                        from1 = p1;
                        from2 = p2;
                        stored1 = s3.0;
                        stored2 = s4.0;
                        pid1_kept = s3.0.1;
                        pid2_kept = s4.0.1;
                        silent = s4.1.1 ∙ s3.1.1 ∙ s2.1.1 ∙ s1.1.1 ∙ ap outputs e2 ∙ ap outputs e1;
                        stopped = λ pid.
                            s4.1.0 pid
                            ∙ s3.1.0 pid
                            ∙ s2.1.0 pid
                            ∙ s1.1.0 pid
                            ∙ ap (is_stopped pid) e2
                            ∙ ap (λ b. eq_int pid2 pid || b) (ap (is_stopped pid) e1);
                      },
                    )))))))

  -- Where the system does what it documents, `main` exits while it stops or reads the processes of
  -- its two arguments, or it has read both and returns 0. Then it has printed their numbers and, in
  -- ascending order, exactly the pairs of a region of each that have common pages. It has resumed both
  -- processes, and no other is stopped.
  pub cmp_main_lem :
      ⦃rb : RbTree⦄ ⦃sort : Qsort Redund⦄ (name arg1 arg2 : List ℕ)
      → IsLinux os
      → ((h : History Printed) × (read_both os (os.atoi arg1) (os.atoi arg2) [] ≡ (exit, h))
          × (main os (name ∷ arg1 ∷ arg2 ∷ []) [] ≡ (exit, h)))
        ⊎ ((p1 p2 : Process) × (h1 h : History Printed) × (rs : List Redund) × (read_both os
                (os.atoi arg1)
                (os.atoi arg2)
                []
              ≡ (ok (p1, p2), h1))
            × BothRead (os.atoi arg1) (os.atoi arg2) p1 p2 h1
            × (main os (name ∷ arg1 ∷ arg2 ∷ []) [] ≡ (ok (pos 0), h))
            × (outputs h ≡ simi (map line rs) ∷ pids (os.atoi arg1) (os.atoi arg2) ∷ [])
            × IsSorted (map (λ (r : Redund). r.dup) rs)
            × ((q : Redund → Bool)
                → count_if q rs ≡ count_if (λ r. has_dup r && q r) (region_pairs 0 p1 p2))
            × ((pid : ℤ) → is_stopped pid h ≡ false))
  unfolding main proc_detach
  cmp_main_lem name arg1 arg2 linux =
      let pid1 = os.atoi arg1 in
      let pid2 = os.atoi arg2 in
      elim (read_both_lem pid1 pid2 linux) [
        | inr (h, stop, u) ↦ inl (h, stop, rw (page_hash_zeros.1, stop) refl)
        | inl (ps, h1, reads, r) ↦
            let (rs, prints, sorted, counts) =
              print_simi_lem 0 ps.0 ps.1 r.stored1.0.0 r.stored2.0.0 in
            let h2 : History Printed =
              detached ps.1.pid
              ∷ (continued ps.1.pid
                  ∷ (detached ps.0.pid
                      ∷ (continued ps.0.pid
                          ∷ (printed (simi (map line rs)) ∷ (printed (pids pid1 pid2) ∷ h1))))) in
            let (h3, dels1, still1) = proc_del-Still os r.from1 ps.0 h2 r.stored1 in
            let (h4, dels2, still2) = proc_del-Still os r.from2 ps.1 h3 r.stored2 in
            inr (
              ps.0,
              ps.1,
              h1,
              h4,
              rs,
              reads,
              r,
              rw (page_hash_zeros.1, reads, prints, dels1, dels2) refl,
              still2.1
                  ∙ still1.1
                  ∙ ap (λ out. simi (map line rs) ∷ (pids pid1 pid2 ∷ out)) r.silent,
              sorted,
              counts,
              λ pid.
                  still2.0 pid
                  ∙ still1.0 pid
                  ∙ rw (r.stopped pid, r.pid1_kept, r.pid2_kept)
                      (let_go_two (eq_int pid1 pid) (eq_int pid2 pid)),
            )
      ]
