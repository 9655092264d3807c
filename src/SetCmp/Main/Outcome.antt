-- ===== src/SetCmp/Main/Outcome.antt =====
-- How `main` of jni/setcmp.c ends.
use mathlib.Core.Path.{subst}
use memdump.SetCmp.Main.Open.{AreOpen}
use memdump.Base.{
  ℕ, suc, ◌-◌, ◌<◌, ◌≡◌, ◌||◌, leb, false, refl, sym, ap, ◌∙◌, ◌⊎◌, inl, inr, some, List, [], ◌∷◌,
  ◌++◌, length, get_elem?, take, drop, map, map_index, All, All₂, ok, exit, fault, arith,
  Bool-cases, take_all, append-nil,
}
use memdump.Base.Int.{ℤ, pos}
use memdump.Base.Loop.Along.{All₂-length}
use memdump.Mem.{Process}
use memdump.Mem.Hash.Laws.{page_hash_zeros}
use memdump.Mem.Files.Laws.{IsLinux}
use memdump.RbTree.{RbTree}
use memdump.SetCmp.{max_pid, print_intra_simi, print_inter_simi}
use memdump.SetCmp.Sets.{IsLoaded}
use memdump.SetCmp.Report.{print_total_dup}
use memdump.SetCmp.Intra.{print_intra_simi_lem, intra_count}
use memdump.SetCmp.Inter.{print_inter_simi_lem, inter_count}
use memdump.SetCmp.Total.{candidates, print_total_dup_fault}
use memdump.SetCmp.Total.Success.{print_total_dup_lem, total_line}
use memdump.SetCmp.Main.{Printed, intra, inter, total, make_processes, read_processes, main}
use memdump.Sys.{Os, History, printed, is_stopped, outputs}
use memdump.Mem.Files.Laws.Steps.{IsStored}
use memdump.SetCmp.Main.Laws.{
  Leaks, IsQuiet, AtMostOne, make_processes_lem, read_processes_lem, delete_processes_lem,
}

-- The processes that `main` has read, in the order of its arguments.
pub record HasRead {F : Type 0} (os : Os Printed F) (argv : List (List ℕ)) (proc : List Process)
    (h : History Printed) : Type 0 where
  pub made : List Process
  pub makes : make_processes os (length argv - 1) argv [] ≡ (ok made, [])
  pub reads : read_processes os (length argv - 1) made [] ≡ (ok proc, h)
  pub pids : map (λ (p : Process). p.pid) made ≡ map os.atoi (drop 1 argv)
  pub stored : All₂ IsStored made proc
  pub quiet : IsQuiet proc h
  pub counted : length proc ≡ length argv - 1

-- The reports of `main`, the last first.
abbrev pub reports : ⦃rb : RbTree⦄ → List Process → List Printed
reports proc =
    total (map_index (total_line 0 proc) 0 proc)
    ∷ (inter (map_index (inter_count 0 proc) 0 proc) ∷ (intra (map (intra_count 0) proc) ∷ []))

pub every_or_one :
    (ps : List Process)
    → All (λ p. 0 < candidates 0 p) ps
      ⊎ ((j : ℕ) × (p : Process) × (get_elem? ps j ≡ some p) × (candidates 0 p ≡ 0))
every_or_one [] = inl tt
every_or_one (p ∷ ps) = elim (every_or_one ps) [
  | inr (j, q, at, none_left) ↦ inr (suc j, q, at, none_left)
  | inl all ↦ elim (Bool-cases (leb 1 (candidates 0 p))) [
    | inl some_left ↦ inl (ground arith, all)
    | inr none_left ↦ inr (0, p, refl, ground arith)
  ]
]

All₂-IsLoaded : (made proc : List Process) → All₂ IsStored made proc → All IsLoaded proc
All₂-IsLoaded [] [] h = tt
All₂-IsLoaded [] (p ∷ ps) h = absurd h
All₂-IsLoaded (q ∷ qs) [] h = absurd h
All₂-IsLoaded (q ∷ qs) (p ∷ ps) h = (h.0.0.0, All₂-IsLoaded qs ps h.1)

drop_argv : (argv : List (List ℕ)) → length (drop 1 argv) ≡ length argv - 1
drop_argv [] = refl
drop_argv (arg ∷ argv) = omega arith

module _ {F : Type 0} (os : Os Printed F) where
  pub HasRead_lem :
      (argv : List (List ℕ))
      → IsLinux os
      → 2 < length argv
      → ((h : History Printed) × (made : List Process) × (make_processes os
              (length argv - 1)
              argv
              []
            ≡ (ok made, []))
          × (length made ≡ length argv - 1)
          × (read_processes os (length argv - 1) made [] ≡ (exit, h))
          × AtMostOne h)
        ⊎ ((proc : List Process) × (h : History Printed) × HasRead os argv proc h)
  HasRead_lem argv linux enough =
      let n = length argv - 1 in
      let (made, makes, size, pids) = make_processes_lem os argv n [] (omega arith) in
      let whole = take_all n made (omega (arith, size)) in
      elim (read_processes_lem os made n [] linux (omega (arith, size))
        ((λ pid. refl), refl, ([], refl, λ fd. refl))) [
          | inr (h, stop, e) ↦ inl (h, made, makes, size, stop, e)
          | inl (proc, h, reads, (stored, quiet)) ↦ inr (
            proc,
            h,
            record {
              made = made;
              makes = makes;
              reads = reads;
              pids =
                  pids
                  ∙ ap (map os.atoi) (take_all n (drop 1 argv) (omega (arith, drop_argv argv)));
              stored = rw (← whole) stored;
              quiet = quiet;
              counted = All₂-length IsStored made proc (rw (← whole) stored) ∙ size;
            },
          )
        ]

  module _ (argv : List (List ℕ)) (enough : 2 < length argv) (few : length argv < max_pid) where
    in_range : (leb (length argv) 2 || leb max_pid (length argv)) ≡ false
    in_range = ground arith

    pub main-stops :
        ⦃rb : RbTree⦄ (made : List Process) (h : History Printed)
        → make_processes os (length argv - 1) argv [] ≡ (ok made, [])
        → read_processes os (length argv - 1) made [] ≡ (exit, h)
        → main os argv [] ≡ (exit, h)
    unfolding main
    main-stops made h makes stop = rw (in_range, page_hash_zeros.1, makes, stop) refl

    module _ (proc : List Process) (h1 : History Printed) (r : HasRead os argv proc h1) where
      whole : take (length argv - 1) proc ≡ proc
      whole = take_all (length argv - 1) proc (sym r.counted)

      loaded : All IsLoaded (take (length argv - 1) proc)
      loaded = rw whole (All₂-IsLoaded r.made proc r.stored)

      module _ ⦃rb : RbTree⦄ where
        intras : print_intra_simi 0 proc (length argv - 1) ≡ ok (map (intra_count 0) proc)
        intras =
            print_intra_simi_lem 0 proc _ (omega (arith, r.counted)) loaded
            ∙ ap (λ ps. ok (map (intra_count 0) ps)) whole

        inters :
            print_inter_simi 0 proc (length argv - 1) ≡ ok (map_index (inter_count 0 proc) 0 proc)
        inters =
            print_inter_simi_lem 0 proc _ (omega arith) (omega (arith, r.counted)) loaded
            ∙ ap (λ ps. ok (map_index (inter_count 0 ps) 0 ps)) whole

        totals :
            All (λ p. 0 < candidates 0 p) proc
            → print_total_dup 0 proc (length argv - 1) ≡ ok (map_index (total_line 0 proc) 0 proc)
        totals all =
            print_total_dup_lem 0 proc _ (omega arith) (omega (arith, r.counted)) loaded
              (rw whole all)
            ∙ ap (λ ps. ok (map_index (total_line 0 ps) 0 ps)) whole

        pub main-prints :
            All (λ p. 0 < candidates 0 p) proc
            → (h : History Printed) × (main os argv [] ≡ (ok (pos 0), h))
              × (outputs h ≡ reports proc)
              × ((pid : ℤ) → is_stopped pid h ≡ false)
              × Leaks [] (length argv - 1) h
        unfolding main
        main-prints all =
            let (flags, size, opens) = r.quiet.2 in
            let (h, runs, traced, same_out, left_open) =
              delete_processes_lem os r.made proc (length argv - 1) flags
                (printed (total (map_index (total_line 0 proc) 0 proc))
                  ∷ (printed (inter (map_index (inter_count 0 proc) 0 proc))
                      ∷ (printed (intra (map (intra_count 0) proc)) ∷ h1)))
                (sym r.counted) r.stored opens in
            (
              h,
              rw (in_range, page_hash_zeros.1, r.makes, r.reads, intras, inters, totals all, runs)
                  refl,
              same_out ∙ ap (λ out. reports proc ++ out) r.quiet.1,
              λ pid. traced pid ∙ r.quiet.0 pid,
              (
                flags,
                size ∙ r.counted,
                subst (λ fds. AreOpen fds h) (sym (append-nil flags)) left_open,
              ),
            )

        pub main-faults :
            (j : ℕ) (p : Process)
            → get_elem? proc j ≡ some p
            → candidates 0 p ≡ 0
            → main os argv [] ≡ (
              fault,
              printed (inter (map_index (inter_count 0 proc) 0 proc))
                  ∷ (printed (intra (map (intra_count 0) proc)) ∷ h1),
            )
        unfolding main
        main-faults j p at none_left =
            let fails =
              print_total_dup_fault 0 proc (length argv - 1) j p (omega arith)
                (omega (arith, r.counted)) loaded (rw whole at) none_left in
            rw (in_range, page_hash_zeros.1, r.makes, r.reads, intras, inters, fails) refl
