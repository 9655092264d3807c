-- ===== src/Tests/Statistics.antt =====
-- `main` of jni/memdump.c on the small system of Tests/System.antt.
use memdump.Base.{
  ℕ, ◌≡◌, refl, true, false, ◌⊎◌, List, [], ◌∷◌, length, map, count_if, All₂, ok, exit,
}
use memdump.Base.Int.{ℤ, pos}
use memdump.Mem.{Process, regions_of, mr_is_anon}
use memdump.Mem.Read.Laws.{Reads}
use memdump.Mem.Files.Laws.Life.{AreOpened}
use memdump.Memdump.Laws.{kept_of, nonzero_row}
use memdump.Memdump.Main.{Printed, stat_maps, stat_nonzero, command_of, maps, nonzero, option, main}
use memdump.Memdump.Main.Outcome.{started, stat_maps_of_lem, stat_nonzero_of_lem}
use memdump.Sys.{Refuses, History, printed, opened, maps_of, is_stopped}
use memdump.Mem.Read.{proc_do}
use memdump.Tests.Dumper.{zeros, lines, stdio, lines_read, few_regions}
use memdump.Tests.System.{system, system_is_linux, program_name, forty_two}

abbrev with_option : ℕ → List (List ℕ)
with_option letter = program_name ∷ forty_two ∷ option letter ∷ []

is_maps : command_of (with_option b'm') ≡ stat_maps forty_two
unfolding command_of
is_maps = refl

is_nonzero : command_of (with_option b'n') ≡ stat_nonzero forty_two
unfolding command_of
is_nonzero = refl

stat_maps_of_lem_example :
    ((h : History Printed) × (main (system Printed) (with_option b'm') [] ≡ (exit, h))
      × Refuses (system Printed) h)
    ⊎ ((fd : ℕ) × (h : History Printed) × (h ≡ opened fd (maps_of (pos 2)) ∷ [])
        × (main (system Printed) (with_option b'm') [] ≡ (
          ok (pos 0),
          printed (
                maps (
                  count_if mr_is_anon (kept_of stdio false lines_read),
                  pos (length (kept_of stdio false lines_read)),
                ))
              ∷ h,
        )))
stat_maps_of_lem_example =
    stat_maps_of_lem (system Printed) (with_option b'm') forty_two (system_is_linux Printed)
      (λ h fd. few_regions) is_maps

stat_nonzero_of_lem_example :
    ((h : History Printed) × (main (system Printed) (with_option b'n') [] ≡ (exit, h))
      × Refuses (system Printed) h)
    ⊎ ((p : Process) × (h : History Printed) × (files : AreOpened
          (system Printed)
          (started (system Printed) (pos 2))
          p
          []
          h)
        × (p' : Process) × (file' : ℕ) × (proc_do zeros stdio p lines 0 ≡ ok (p', file'))
        × All₂ Reads (kept_of stdio true lines_read) (regions_of p')
        × (main (system Printed) (with_option b'n') []
            ≡ (ok (pos 0), printed (nonzero (map (nonzero_row 0) (regions_of p'))) ∷ h))
        × ((pid : ℤ) → is_stopped pid h ≡ false))
stat_nonzero_of_lem_example =
    stat_nonzero_of_lem (system Printed) (with_option b'n') forty_two (system_is_linux Printed)
      is_nonzero
