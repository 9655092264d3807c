-- ===== src/Tests/Comparison.antt =====
-- `main` of jni/cmp.c on the small system of Tests/System.antt.
use memdump.Base.{◌==◌, not, ◌≡◌, ◌&&◌, Bool, false, ◌⊎◌, List, [], ◌∷◌, map, count_if, ok, exit}
use memdump.Base.Int.{ℤ, pos}
use memdump.RbTree.Plain.{plain}
use memdump.Mem.{Process}
use memdump.Simi.Order.{IsSorted}
use memdump.Cmp.{Redund, Line, line}
use memdump.Cmp.Sort.{insertion}
use memdump.Cmp.Laws.{has_dup, region_pairs}
use memdump.Cmp.Main.{Printed, simi, pids, read_both, main}
use memdump.Cmp.Main.Outcome.{BothRead, cmp_main_lem}
use memdump.Cmp.Main.Images.{pair_images}
use memdump.Cmp.Main.World.{main-pair_images}
use memdump.Cmp.Main.Meant.{all_pairs_held, main-all_pairs_held}
use memdump.Tests.World.{tells, linux, is_linux, world, world-IsLive}
use memdump.Sys.{Refuses, History, is_stopped, outputs}
use memdump.Tests.System.{system, system_is_linux, program_name, seven, forty_two}

cmp_main_lem_example :
    ((h : History Printed) × (read_both (system Printed) (pos 1) (pos 2) [] ≡ (exit, h))
      × (main (system Printed) (program_name ∷ seven ∷ forty_two ∷ []) [] ≡ (exit, h)))
    ⊎ ((p1 p2 : Process) × (h1 h : History Printed) × (rs : List Redund) × (read_both
            (system Printed)
            (pos 1)
            (pos 2)
            []
          ≡ (ok (p1, p2), h1))
        × BothRead (pos 1) (pos 2) p1 p2 h1
        × (main (system Printed) (program_name ∷ seven ∷ forty_two ∷ []) [] ≡ (ok (pos 0), h))
        × (outputs h ≡ simi (map line rs) ∷ pids (pos 1) (pos 2) ∷ [])
        × IsSorted (map (λ (r : Redund). r.dup) rs)
        × ((q : Redund → Bool)
            → count_if q rs ≡ count_if (λ r. has_dup r && q r) (region_pairs 0 p1 p2))
        × ((pid : ℤ) → is_stopped pid h ≡ false))
cmp_main_lem_example =
    cmp_main_lem (system Printed) program_name seven forty_two (system_is_linux Printed)

main-pair_images_example :
    ((h : History Printed) × (main (linux Printed) (program_name ∷ seven ∷ forty_two ∷ []) []
        ≡ (exit, h))
      × Refuses (linux Printed) h)
    ⊎ ((lines : List Line) × (h : History Printed) × (main
            (linux Printed)
            (program_name ∷ seven ∷ forty_two ∷ [])
            []
          ≡ (ok (pos 0), h))
        × (outputs h ≡ simi lines ∷ pids (pos 1) (pos 2) ∷ [])
        × IsSorted (map (λ (l : Line). l.dup) lines)
        × ((q : Line → Bool)
            → count_if q lines
              ≡ count_if
                  (λ (l : Line). not (l.dup == 0) && q l)
                  (pair_images world (pos 1) (pos 2)))
        × ((pid : ℤ) → is_stopped pid h ≡ false))
main-pair_images_example =
    main-pair_images (linux Printed) (is_linux Printed) world (world-IsLive Printed) program_name
      seven forty_two

main-all_pairs_held_example :
    ((h : History Printed) × (main (linux Printed) (program_name ∷ seven ∷ forty_two ∷ []) []
        ≡ (exit, h))
      × Refuses (linux Printed) h)
    ⊎ ((lines : List Line) × (h : History Printed) × (main
            (linux Printed)
            (program_name ∷ seven ∷ forty_two ∷ [])
            []
          ≡ (ok (pos 0), h))
        × (outputs h ≡ simi lines ∷ pids (pos 1) (pos 2) ∷ [])
        × IsSorted (map (λ (l : Line). l.dup) lines)
        × ((q : Line → Bool)
            → count_if q lines
              ≡ count_if
                  (λ (l : Line). not (l.dup == 0) && q l)
                  (all_pairs_held world (pos 1) (pos 2)))
        × ((pid : ℤ) → is_stopped pid h ≡ false))
main-all_pairs_held_example =
    main-all_pairs_held world tells (linux Printed) (is_linux Printed) (world-IsLive Printed)
      program_name seven forty_two
