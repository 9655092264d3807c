-- ===== src/Memdump/Main.antt =====
-- `main` of jni/memdump.c, by its options: the pages of a process, or one of two statistics. The
-- time that is reported is left out.
pub mod Outcome
pub mod World
use memdump.Base.{
  ℕ, suc, ◌==◌, ◌&&◌, if◌then◌else◌, Bool, true, false, Option, none, some, List, [], ◌∷◌, length,
  get_elem?, Run, exit, deref,
}
use memdump.Base.Int.{ℤ, pos}
use memdump.Mem.{Process}
use memdump.Mem.Hash.{init_zero_page_hash}
use memdump.Mem.Files.{
  new_process, open_file_maps, open_proc_files, opened_file, read_process, proc_del,
}
use memdump.Mem.Print.{RegionPages, proc_print_pages}
use memdump.Memdump.{maps_stat, nonzero_stat}
use memdump.Sys.{Os, Act, printed, ◌>>=◌, ◌>>◌, pure, lift, call, report}

pub data Printed : Type 0 where
  usage : Option (List ℕ) → Printed
  maps : ℕ × ℤ → Printed
  nonzero : List (ℤ × ℕ × Option (List ℕ)) → Printed
  pages : List RegionPages → Printed

-- `strcmp(a, b) == 0`.
abbrev pub same_text : List ℕ → List ℕ → Bool
same_text [] [] = true
same_text [] (c ∷ b) = false
same_text (c ∷ a) [] = false
same_text (c ∷ a) (d ∷ b) = (c == d) && same_text a b

-- The option with this letter.
abbrev pub option : ℕ → List ℕ
option letter = b'-' ∷ letter ∷ []

-- How the arguments are read.
pub data Command : Type 0 where
  dump stat_maps stat_nonzero : List ℕ → Command
  help : Command

unfoldable pub command_of : List (List ℕ) → Command
command_of [] = help
command_of (name ∷ []) = help
command_of (name ∷ (arg ∷ [])) = dump arg
command_of (name ∷ (arg ∷ (opt ∷ []))) =
    if same_text opt (option b'm')
    then stat_maps arg
    else (if same_text opt (option b'n') then stat_nonzero arg else help)
command_of (name ∷ (arg ∷ (opt ∷ (more ∷ rest)))) = help

module _ {F : Type 0} (os : Os Printed F) where
  -- `maps_stat`, with the file it opens and leaves open.
  unfoldable pub stat_maps_of : ℤ → Act Printed (Unit {0})
  stat_maps_of pid = do
    p ← new_process os pid
    p' ← open_file_maps os p
    fd ← opened_file os p'.maps_file
    λ h. report maps (maps_stat os.stdio p' (os.lines h fd)) h

  -- `nonzero_stat`, with the three files.
  unfoldable pub stat_nonzero_of : ℤ → Act Printed (Unit {0})
  stat_nonzero_of pid = do
    p ← new_process os pid
    zero_page_hash ← lift init_zero_page_hash
    p' ← open_proc_files os p
    maps_fd ← opened_file os p'.maps_file
    mem_fd ← opened_file os p'.mem_file
    λ h.
        report nonzero
          (nonzero_stat os.stream zero_page_hash os.stdio p' (os.lines h maps_fd)
            (os.file h mem_fd))
          h

  unfoldable pub dump_pages : ℤ → Act Printed (Unit {0})
  dump_pages pid = do
    p ← new_process os pid
    p' ← read_process os p
    report pages (proc_print_pages p')
    proc_del os p'

  unfoldable pub main : List (List ℕ) → Act Printed ℤ
  unfolding stat_maps_of stat_nonzero_of dump_pages
  main argv = elim (command_of argv) [
    | dump arg ↦ dump_pages (os.atoi arg) >> pure (pos 0)
    | stat_maps arg ↦ stat_maps_of (os.atoi arg) >> pure (pos 0)
    | stat_nonzero arg ↦ stat_nonzero_of (os.atoi arg) >> pure (pos 0)
    | help ↦ call (printed (usage (get_elem? argv 0))) >> lift exit
  ]
