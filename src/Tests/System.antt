-- ===== src/Tests/System.antt =====
-- The programs on a small system, where every process has the same memory.
use mathlib.Core.Option
use memdump.Base.{
  ℕ, suc, ◌+◌, ◌≤◌, ◌==◌, ◌≡◌, ◌||◌, ◌&&◌, not, true, false, refl, some, List, [], ◌∷◌, length, All,
  arith,
}
use memdump.Base.Int.{ℤ, pos, eq_int}
use memdump.RbTree.Plain.{plain}
use memdump.Mem.{mr_is_anon, mr_page_num}
use memdump.Mem.Maps.{region_of}
use memdump.Mem.Files.{read_process, proc_del}
use memdump.Mem.Files.Laws.{IsPaged, IsLinux}
use memdump.Mem.Files.Laws.Taken.{Only}
use memdump.Mem.Files.Laws.Deleted.{process_life_lem}
use memdump.Memdump.Laws.{kept_of}
use memdump.Mem.Files.Named.{named}
use memdump.Sys.{
  kernel_flags, History, Os, is_open, is_stopped, opened, closed, attached, waited, continued,
  detached, freed, showed, printed, and_then,
}
use memdump.Sys.Ends.{Ends}
use memdump.Tests.Dumper.{stdio, lines, lines_read, zeros, zeros-HasSize, kernel, started, few_kept}

-- A number above those of all files.
abbrev pub unused : {T : Type 0} → History T → ℕ
unused [] = 3
unused (opened fd name ∷ h) = suc fd + unused h
unused (closed fd ∷ h) = unused h
unused (attached pid ∷ h) = unused h
unused (waited ∷ h) = unused h
unused (continued pid ∷ h) = unused h
unused (detached pid ∷ h) = unused h
unused (freed block ∷ h) = unused h
unused (showed line ∷ h) = unused h
unused (printed text ∷ h) = unused h

closed_above : {T : Type 0} (h : History T) (fd : ℕ) → unused h ≤ fd → is_open fd h ≡ false
closed_above [] fd above = refl
closed_above (opened fd' name ∷ h) fd above = ground (arith, closed_above h fd (omega arith))
closed_above (closed fd' ∷ h) fd above = ground (arith, closed_above h fd above)
closed_above (attached pid ∷ h) fd above = closed_above h fd above
closed_above (waited ∷ h) fd above = closed_above h fd above
closed_above (continued pid ∷ h) fd above = closed_above h fd above
closed_above (detached pid ∷ h) fd above = closed_above h fd above
closed_above (freed block ∷ h) fd above = closed_above h fd above
closed_above (showed line ∷ h) fd above = closed_above h fd above
closed_above (printed text ∷ h) fd above = closed_above h fd above

pub unused-closed :
    {T : Type 0} (h : History T) (fd : ℕ) → some (unused h) ≡ some fd → is_open fd h ≡ false
unused-closed h fd e = closed_above h fd (omega (arith, Option.some-injective (unused h) fd e))

-- The number of a process is the length of the argument.
abbrev pub system : (T : Type 0) → Os T ℕ
system T = record {
  atoi = λ arg. pos (length arg);
  malloc = λ h. ([], 0, 0);
  attach = λ h pid. true;
  fopen = λ h name. some (unused h);
  open_file = λ h name. some (unused h);
  fopen_fresh = λ h name fd e. unused-closed h fd e;
  open_fresh = λ h name fd e. unused-closed h fd e;
  stdio = stdio;
  stream = zeros;
  lines = λ h fd. lines;
  file = λ h fd. 0;
  kernel = λ h fd. kernel;
}

pub kept-IsPaged : All IsPaged (kept_of stdio true lines_read)
unfolding region_of mr_is_anon mr_page_num
kept-IsPaged = omega arith

abbrev pub system_is_linux : (T : Type 0) → IsLinux (system T)
system_is_linux T = record {
  sized = zeros-HasSize;
  fields = λ h fd. lines_read;
  parsed = λ h fd. (refl, (refl, (refl, tt)));
  paged = λ h fd. kept-IsPaged;
  few = λ h fd. few_kept;
}

process_life_lem_example :
    Ends
      (λ u h'.
        ((flags_fd : ℕ) × ((fd : ℕ) → is_open fd h' ≡ ((flags_fd == fd) || is_open {T = ℕ} fd []))
          × (is_open {T = ℕ} flags_fd [] ≡ false)
          × (named flags_fd h' ≡ some kernel_flags))
        × ((pid : ℤ)
            → is_stopped pid h' ≡ (not (eq_int started.pid pid) && is_stopped {T = ℕ} pid [])))
      (Only {T = ℕ} started.pid [])
      (and_then (read_process (system ℕ) started []) (proc_del (system ℕ)))
process_life_lem_example = process_life_lem (system ℕ) started [] (system_is_linux ℕ)

abbrev pub program_name : List ℕ
program_name = b'd' ∷ []

abbrev pub seven : List ℕ
seven = b'7' ∷ []

abbrev pub forty_two : List ℕ
forty_two = b'4' ∷ b'2' ∷ []

abbrev pub args : List (List ℕ)
args = program_name ∷ seven ∷ forty_two ∷ []
