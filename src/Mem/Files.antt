-- ===== src/Mem/Files.antt =====
-- The functions of jni/mem.c that call the operating system: ptrace, the files under /proc, and
-- the life of a `struct Process`. The timer is left out.
pub mod Laws
pub mod Content
pub mod Named
pub mod World
use memdump.Base.{
  ℕ, ◌+◌, ◌==◌, Bool, true, false, Option, none, some, List, [], ◌∷◌, ◌++◌, if◌then◌else◌, Run, ok,
  exit,
}
use memdump.Base
use memdump.Base.Int.{ℤ, pos, negsuc, pos_part}
use memdump.Base.Loop.{for_each}
use memdump.Mem.{MemReg, Process, proc_mr_num, proc_init}
use memdump.Mem.Maps
use memdump.Mem.Read
use memdump.Mem.Flags.{PageFlags}
use memdump.Mem.Pagemap.{Kernel, mr_parse_pagemap}
use memdump.Sys.{
  FileName, maps_of, mem_of, pagemap_of, kernel_flags, kernel_counts, Block, region_pages,
  region_name, all_regions, attached, waited, continued, detached, opened, closed, freed, show_all,
  Os, Act, ◌>>=◌, ◌>>◌, pure, lift, call, act_each,
}

-- The loop of `proc_parse_pagemap`, and what it prints; if it ends in an exit, that is left out.
abbrev pub parse_region :
    Kernel → ℕ → MemReg → List MemReg × List PageFlags → Run (List MemReg × List PageFlags)
parse_region k i mr s = Base.◌>>=◌ (mr_parse_pagemap k mr) (λ r. ok (s.0 ++ (r.0 ∷ []), s.1 ++ r.1))

unfoldable pub parse_regions : Kernel → Process → Run (Process × List PageFlags)
parse_regions k p =
    Base.◌>>=◌ (for_each (pos_part (proc_mr_num p)) 0 p.maps (parse_region k) ([], []))
      (λ s. ok (record p { maps = s.0 }, s.1))

module _ {T F : Type 0} (os : Os T F) where
  -- The fields that are not set hold what `malloc` left there.
  unfoldable pub new_process : ℤ → Act T Process
  new_process pid h =
      let (maps, maps_size, maps_cap) = os.malloc h in
      (ok (proc_init pid maps maps_size maps_cap), h)

  unfoldable pub open_proc_file : FileName → Act T ℕ
  open_proc_file name h = elim (os.fopen h name) [
    | none ↦ (exit, h)
    | some fd ↦ (ok fd, opened fd name ∷ h)
  ]

  unfoldable pub checked_open : FileName → Act T ℕ
  checked_open name h = elim (os.open_file h name) [
    | none ↦ (exit, h)
    | some fd ↦ (ok fd, opened fd name ∷ h)
  ]

  unfoldable pub open_file_maps : Process → Act T Process
  unfolding open_proc_file
  open_file_maps p = do f ← open_proc_file (maps_of p.pid); pure (record p { maps_file = some f })

  unfoldable pub open_proc_files : Process → Act T Process
  unfolding open_proc_file checked_open
  open_proc_files p = do
    maps ← open_proc_file (maps_of p.pid)
    mem ← open_proc_file (mem_of p.pid)
    fd ← checked_open (pagemap_of p.pid)
    pure (record p { maps_file = some maps; mem_file = some mem; pagemap_fd = pos fd })

  -- `fgets` and `fread` on a file that was never opened.
  abbrev pub opened_file : Option ℕ → Act T ℕ
  opened_file file = lift (Base.deref file)

  unfoldable pub proc_do_maps_file : Process → Act T Process
  unfolding open_file_maps
  proc_do_maps_file p = do
    p' ← open_file_maps p
    maps ← opened_file p'.maps_file
    λ h. (Maps.proc_do_maps os.stdio p' (os.lines h maps), h)

  unfoldable pub proc_do_files : Process → Act T Process
  unfolding open_proc_files
  proc_do_files p = do
    p' ← open_proc_files p
    maps ← opened_file p'.maps_file
    mem ← opened_file p'.mem_file
    r ← λ h. (Read.proc_do os.stream os.stdio p' (os.lines h maps) (os.file h mem), h)
    pure r.0

  unfoldable pub proc_parse_pagemap : Process → Act T Process
  unfolding checked_open parse_regions
  proc_parse_pagemap p = do
    kpageflags_fd ← checked_open kernel_flags
    kpagecount_fd ← checked_open kernel_counts
    (p', lines) ← λ h. (parse_regions (os.kernel h p.pagemap_fd) p, h)
    λ h. (ok tt, show_all lines h)
    call (closed kpagecount_fd)
    call (closed kpagecount_fd)
    pure p'

  -- `PTRACE_ATTACH`, which exits where it fails, and `wait`.
  unfoldable pub proc_attach : Process → Act T (Unit {0})
  proc_attach p h = if os.attach h p.pid then (ok tt, waited ∷ attached p.pid ∷ h) else (exit, h)

  -- What `ptrace` returns is not looked at. The process runs after the first request, so the system
  -- refuses the second, unless a signal has stopped the process again.
  unfoldable pub proc_detach : Process → Act T (Unit {0})
  proc_detach p = do call (continued p.pid); call (detached p.pid)

  abbrev pub close_file : Option ℕ → Act T (Unit {0})
  close_file none = pure tt
  close_file (some fd) = call (closed fd)

  abbrev pub close_fd : ℤ → Act T (Unit {0})
  close_fd (negsuc n) = pure tt
  close_fd (pos fd) = call (closed fd)

  -- The pages of a region that was read are never NULL.
  abbrev pub free_name : ℕ → Option (List ℕ) → Act T (Unit {0})
  free_name i none = pure tt
  free_name i (some name) = call (freed (region_name i))

  abbrev pub free_region : ℕ → MemReg → Unit {0} → Act T (Unit {0})
  free_region i mr u = do call (freed (region_pages i)); free_name i mr.pathname

  unfoldable pub proc_del : Process → Act T (Unit {0})
  proc_del p = do
    close_file p.maps_file
    close_file p.mem_file
    close_fd p.pagemap_fd
    act_each (pos_part (proc_mr_num p)) 0 p.maps free_region tt
    call (freed all_regions)

  -- What the `main` of setcmp.c and that of memdump.c do with a process: it is stopped while its
  -- memory is read.
  unfoldable pub read_process : Process → Act T Process
  unfolding proc_attach proc_do_files proc_parse_pagemap proc_detach
  read_process p = do
    proc_attach p
    p1 ← proc_do_files p
    p2 ← proc_parse_pagemap p1
    proc_detach p2
    pure p2
