-- ===== src/Memdump/Main/Outcome.antt =====
-- How `main` of jni/memdump.c ends, by its options.
use memdump.Base.{
  ℕ, ◌^◌, ◌<◌, ◌≡◌, ◌&&◌, not, Bool, true, false, refl, ap, ◌∙◌, ◌⊎◌, inl, inr, some, List, [], ◌∷◌,
  length, map, count_if, All₂, All-imp, ok, exit,
}
use memdump.Base.Int.{ℤ, pos, eq_int}
use memdump.Mem.{Process, proc_init, regions_of, mr_is_anon}
use memdump.Mem.Hash.Laws.{page_hash_zeros}
use memdump.Mem.Read.{proc_do}
use memdump.Mem.Read.Laws.{Reads}
use memdump.Mem.Files.{new_process, open_file_maps, read_process}
use memdump.Mem.Files.Laws.{IsLinux}
use memdump.Mem.Files.Laws.Life.{open_proc_file_lem, AreOpened, open_proc_files_lem}
use memdump.Mem.Files.Laws.Taken.{IsTaken, is_stopped-IsTaken, outputs-IsTaken}
use memdump.Mem.Files.Laws.Steps.{proc_del-Still}
use memdump.Mem.Print.Laws.{pages_of, proc_print_pages_lem}
use memdump.Memdump.Laws.{kept_of, nonzero_row, maps_stat_lem, nonzero_stat_lem}
use memdump.Memdump.Main.{
  Printed, maps, nonzero, pages, dump, stat_maps, stat_nonzero, command_of, main,
}
use memdump.Sys.{Os, History, Refuses, printed, opened, maps_of, is_stopped, outputs}

let_go_first : (a : Bool) → (not a && false) ≡ false
let_go_first false = refl
let_go_first true = refl

module _ {F : Type 0} (os : Os Printed F) where
  -- What `proc_init` returns at the start.
  abbrev pub started : ℤ → Process
  started pid = let m = os.malloc [] in proc_init pid m.0 m.1 m.2

  -- A process that was read is printed, resumed and deleted.
  pub dump-prints :
      (argv : List (List ℕ)) (arg : List ℕ) (p : Process) (h1 : History Printed)
      → command_of argv ≡ dump arg
      → read_process os (started (os.atoi arg)) [] ≡ (ok p, h1)
      → IsTaken (started (os.atoi arg)) p [] h1
      → (h : History Printed) × (main os argv [] ≡ (ok (pos 0), h))
        × (outputs h ≡ pages (map pages_of (regions_of p)) ∷ [])
        × ((pid : ℤ) → is_stopped pid h ≡ false)
  unfolding main new_process proc_init
  dump-prints argv arg p h1 is_dump reads t =
      let h2 : History Printed = printed (pages (map pages_of (regions_of p))) ∷ h1 in
      let (h3, dels, still) =
        proc_del-Still os (started (os.atoi arg)) p h2
          (t.ready, t.same, (_, t.maps_open), (_, t.mem_open), (_, t.pagemap_open)) in
      (
        h3,
        rw (main, is_dump, reads, proc_print_pages_lem p t.ready, dels) refl,
        still.1
            ∙ ap (λ out. pages (map pages_of (regions_of p)) ∷ out)
                (outputs-IsTaken (started (os.atoi arg)) p [] h1 t),
        λ pid.
            still.0 pid
            ∙ is_stopped-IsTaken (started (os.atoi arg)) p [] h1 t pid
            ∙ let_go_first (eq_int (os.atoi arg) pid),
      )

  pub dump-stops :
      (argv : List (List ℕ)) (arg : List ℕ) (h : History Printed)
      → command_of argv ≡ dump arg
      → read_process os (started (os.atoi arg)) [] ≡ (exit, h)
      → main os argv [] ≡ (exit, h)
  unfolding main new_process proc_init
  dump-stops argv arg h is_dump stop = rw (main, is_dump, stop) refl

  -- With the option -m the maps of the process are opened, or `main` exits where the system refuses
  -- a call. Where fewer than 2 ^ 31
  -- regions have pages, how many of them are anonymous, and how many they are, is printed. No
  -- process is stopped for it, and the file stays open.
  pub stat_maps_of_lem :
      (argv : List (List ℕ)) (arg : List ℕ) (linux : IsLinux os)
      → ((h : History Printed) (fd : ℕ)
          → length (kept_of os.stdio false (linux.fields h fd)) < 2 ^ 31)
      → command_of argv ≡ stat_maps arg
      → ((h : History Printed) × (main os argv [] ≡ (exit, h)) × Refuses os h)
        ⊎ ((fd : ℕ) × (h : History Printed) × (h ≡ opened fd (maps_of (os.atoi arg)) ∷ [])
            × (main os argv [] ≡ (
              ok (pos 0),
              printed (
                    maps (
                      count_if mr_is_anon (kept_of os.stdio false (linux.fields h fd)),
                      pos (length (kept_of os.stdio false (linux.fields h fd))),
                    ))
                  ∷ h,
            )))
  unfolding main new_process proc_init open_file_maps
  stat_maps_of_lem argv arg linux few is_maps =
      elim (open_proc_file_lem os (maps_of (os.atoi arg)) []) [
        | inr (h, stop, (calm, refused)) ↦ inl (h, rw (main, is_maps, stop) refl, refused)
        | inl (fd, h, runs, (done, new)) ↦ inr (
          fd,
          h,
          done,
          rw (main, is_maps, runs)
              (rw
                (maps_stat_lem os.stdio _ (os.lines h fd) (linux.fields h fd) (linux.parsed h fd)
                  (few h fd))
                refl),
        )
      ]

  -- With the option -n the files of the process are opened, or `main` exits where the system
  -- refuses a call. Then `proc_do` reads the process, with the regions of the lines that are anonymous
  -- and have pages, and one line is printed for each region of what it has read: how many pages it
  -- has, how many of them do not have the hash of a zero page, and its name. No process is stopped
  -- for it.
  pub stat_nonzero_of_lem :
      (argv : List (List ℕ)) (arg : List ℕ) (linux : IsLinux os)
      → command_of argv ≡ stat_nonzero arg
      → ((h : History Printed) × (main os argv [] ≡ (exit, h)) × Refuses os h)
        ⊎ ((p : Process) × (h : History Printed) × (files : AreOpened os
              (started (os.atoi arg))
              p
              []
              h)
            × (p' : Process) × (file' : F) × (proc_do os.stream os.stdio p
                  (os.lines h files.maps_fd)
                  (os.file h files.mem_fd)
                ≡ ok (p', file'))
            × All₂ Reads (kept_of os.stdio true (linux.fields h files.maps_fd)) (regions_of p')
            × (main os argv []
                ≡ (ok (pos 0), printed (nonzero (map (nonzero_row 0) (regions_of p'))) ∷ h))
            × ((pid : ℤ) → is_stopped pid h ≡ false))
  unfolding main new_process proc_init
  stat_nonzero_of_lem argv arg linux is_nonzero =
      elim (open_proc_files_lem os (started (os.atoi arg)) []) [
        | inr (h, stop, (calm, refused)) ↦
            inl (h, rw (main, is_nonzero, page_hash_zeros.1, stop) refl, refused)
        | inl (p, h, runs, files) ↦
            let q = record (started (os.atoi arg)) {
              maps_file = some files.maps_fd;
              mem_file = some files.mem_fd;
              pagemap_fd = pos files.pagemap;
            } in
            let (p', file', read, reads, prints) =
              nonzero_stat_lem os.stream 0 os.stdio q (os.lines h files.maps_fd)
                (linux.fields h files.maps_fd) (os.file h files.mem_fd) linux.sized
                (linux.parsed h files.maps_fd)
                (All-imp (λ mr k. k.0) _ (linux.paged h files.maps_fd))
                (linux.few h files.maps_fd) in
            inr (
              p,
              h,
              files,
              p',
              file',
              ap
                    (λ q.
                      proc_do os.stream os.stdio q (os.lines h files.maps_fd)
                        (os.file h files.mem_fd))
                    files.only
                  ∙ read,
              reads,
              rw (main, is_nonzero, page_hash_zeros.1, runs ∙ ap (λ q. (ok q, h)) files.only)
                  (rw prints refl),
              λ pid. ap (is_stopped pid) files.done,
            )
      ]
