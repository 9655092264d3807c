-- ===== src/Mem/Files/Laws/Life.antt =====
-- The life of a `struct Process` of jni/mem.c: it is opened, read and deleted.
use mathlib.Core.Path.{subst}
use memdump.Base.{
  All-imp, ℕ, ◌≡◌, false, refl, sym, ap, ◌∙◌, inl, inr, some, Option-cases, List, [], ◌∷◌, All,
  All₂, ok, arith,
}
use memdump.Base.Int.{ℤ, pos}
use memdump.Mem.{MemReg, Process, span}
use memdump.Mem.Read.Laws.{Reads}
use memdump.Mem.Maps.{with_maps}
use memdump.Memdump.Laws.{proc_do_lem}
use memdump.Mem.Flags.{PageFlags}
use memdump.Mem.Files.{
  open_proc_file, checked_open, open_proc_files, proc_do_files, proc_parse_pagemap,
}
use memdump.Mem.Files.Laws.{IsPaged, HasPages, IsReady, IsLinux, parse_regions_lem}
use memdump.Sys.{
  FileName, maps_of, mem_of, pagemap_of, kernel_flags, kernel_counts, opened, closed, show_all,
  History, Os, Refuses, is_open, is_stopped,
}
use memdump.Sys.Ends.{Ends}

module _ {T F : Type 0} (os : Os T F) where
  -- No process was stopped or resumed.
  abbrev pub Calm : History T → History T → Type 0
  Calm h h' = (pid : ℤ) → is_stopped pid h' ≡ is_stopped pid h

  -- The program stops there, where the system refuses a call.
  abbrev pub Stops : History T → History T → Type 0
  Stops h h' = Calm h h' × Refuses os h'

  pub open_proc_file_lem :
      (name : FileName) (h : History T)
      → Ends
          (λ fd h'. (h' ≡ opened fd name ∷ h) × (is_open fd h ≡ false))
          (Stops h)
          (open_proc_file os name h)
  unfolding open_proc_file
  open_proc_file_lem name h = elim (Option-cases (os.fopen h name)) [
    | inl e ↦ inr (h, rw (open_proc_file, e) refl, (λ pid. refl, inr (name, inl e)))
    | inr (fd, e) ↦
        inl
          (fd, opened fd name ∷ h, rw (open_proc_file, e) refl, (refl, os.fopen_fresh h name fd e))
  ]

  pub checked_open_lem :
      (name : FileName) (h : History T)
      → Ends
          (λ fd h'. (h' ≡ opened fd name ∷ h) × (is_open fd h ≡ false))
          (Stops h)
          (checked_open os name h)
  unfolding checked_open
  checked_open_lem name h = elim (Option-cases (os.open_file h name)) [
    | inl e ↦ inr (h, rw (checked_open, e) refl, (λ pid. refl, inr (name, inr e)))
    | inr (fd, e) ↦
        inl (fd, opened fd name ∷ h, rw (checked_open, e) refl, (refl, os.open_fresh h name fd e))
  ]

  -- The three files of a process, and that they were not open before.
  pub record AreOpened (p p' : Process) (h h' : History T) : Type 0 where
    pub maps_fd : ℕ
    pub mem_fd : ℕ
    pub pagemap : ℕ
    pub only :
        p' ≡ record p { maps_file = some maps_fd; mem_file = some mem_fd; pagemap_fd = pos pagemap }
    pub done :
        h'
        ≡ opened pagemap (pagemap_of p.pid)
          ∷ (opened mem_fd (mem_of p.pid) ∷ (opened maps_fd (maps_of p.pid) ∷ h))
    pub maps_new : is_open maps_fd h ≡ false
    pub mem_new : is_open mem_fd (opened maps_fd (maps_of p.pid) ∷ h) ≡ false
    pub pagemap_new :
        is_open pagemap (opened mem_fd (mem_of p.pid) ∷ (opened maps_fd (maps_of p.pid) ∷ h))
        ≡ false

  pub open_proc_files_lem :
      (p : Process) (h : History T)
      → Ends (λ p' h'. AreOpened p p' h h') (Stops h) (open_proc_files os p h)
  unfolding open_proc_files
  open_proc_files_lem p h = elim (open_proc_file_lem (maps_of p.pid) h) [
    | inr (h1, stop, calm) ↦ inr (h1, rw stop refl, calm)
    | inl (a, h1, runs1, (done1, new1)) ↦ elim (open_proc_file_lem (mem_of p.pid) h1) [
      | inr (h2, stop, (calm, refused)) ↦
          inr (h2, rw (runs1, stop) refl, (λ pid. calm pid ∙ ap (is_stopped pid) done1, refused))
      | inl (b, h2, runs2, (done2, new2)) ↦ elim (checked_open_lem (pagemap_of p.pid) h2) [
        | inr (h3, stop, (calm, refused)) ↦ inr (
          h3,
          rw (runs1, runs2, stop) refl,
          (λ pid. calm pid ∙ ap (is_stopped pid) done2 ∙ ap (is_stopped pid) done1, refused),
        )
        | inl (c, h3, runs3, (done3, new3)) ↦ inl (
          record p { maps_file = some a; mem_file = some b; pagemap_fd = pos c },
          h3,
          rw (runs1, runs2, runs3) refl,
          record {
            maps_fd = a;
            mem_fd = b;
            pagemap = c;
            only = refl;
            done =
                done3
                ∙ ap (λ h. opened c (pagemap_of p.pid) ∷ h)
                    (done2 ∙ ap (λ h. opened b (mem_of p.pid) ∷ h) done1);
            maps_new = new1;
            mem_new = ap (is_open b) (sym done1) ∙ new2;
            pagemap_new =
                ap (is_open c) (sym (done2 ∙ ap (λ h. opened b (mem_of p.pid) ∷ h) done1)) ∙ new3;
          },
        )
      ]
    ]
  ]

  Reads-HasPages :
      (mrs more : List MemReg) → All IsPaged mrs → All₂ Reads mrs more → All HasPages more
  Reads-HasPages [] [] paged h = tt
  Reads-HasPages [] (mr' ∷ more) paged h = absurd h
  Reads-HasPages (mr ∷ mrs) [] paged h = absurd h
  Reads-HasPages (mr ∷ mrs) (mr' ∷ more) paged h =
      let start : mr'.start ≡ mr.start = ap (λ (m : MemReg). m.start) h.0.0 in
      let end : mr'.end ≡ mr.end = ap (λ (m : MemReg). m.end) h.0.0 in
      let same_span : span mr' ≡ span mr = ap span h.0.0 in
      (omega (arith, paged.0, h.0.1), Reads-HasPages mrs more paged.1 h.1)

  -- The process is read: its files are open, and its regions are loaded.
  pub record IsReadIn (p p' : Process) (h h' : History T) : Type 0 where
    pub p1 : Process
    pub files : AreOpened p p1 h h'
    pub ready : IsReady p'
    pub only : p' ≡ with_maps p1 p'.maps p'.maps_size p'.maps_cap

  pub proc_do_files_lem :
      (p : Process) (h : History T)
      → IsLinux os
      → Ends (λ p' h'. IsReadIn p p' h h') (Calm h) (proc_do_files os p h)
  unfolding proc_do_files
  proc_do_files_lem p h linux = elim (open_proc_files_lem p h) [
    | inr (h1, stop, (calm, refused)) ↦ inr (h1, rw stop refl, calm)
    | inl (p1, h1, runs, files) ↦
        let q = record p {
          maps_file = some files.maps_fd;
          mem_file = some files.mem_fd;
          pagemap_fd = pos files.pagemap;
        } in
        let runs' = runs ∙ ap (λ q. (ok q, h1)) files.only in
        let (p2, file', done, loaded, reads, only) =
          proc_do_lem os.stream os.stdio q (os.lines h1 files.maps_fd)
            (linux.fields h1 files.maps_fd) (os.file h1 files.mem_fd) linux.sized
            (linux.parsed h1 files.maps_fd) (All-imp (λ mr k. k.0) _ (linux.paged h1 files.maps_fd))
            (linux.few h1 files.maps_fd) in
        inl (
          p2,
          h1,
          rw (runs', done) refl,
          record {
            p1 = q;
            files = subst (λ q. AreOpened p q h h1) files.only files;
            ready = (loaded, Reads-HasPages _ _ (linux.paged h1 files.maps_fd) reads);
            only = only;
          },
        )
  ]

  -- After the pagemap is read the descriptor of the page counts is closed, twice; that of the page
  -- flags stays open.
  pub record IsCounted (p p' : Process) (h h' : History T) : Type 0 where
    pub flags_fd : ℕ
    pub counts_fd : ℕ
    pub lines : List PageFlags
    pub done :
        h'
        ≡ closed counts_fd
          ∷ (closed counts_fd
              ∷ show_all lines
                  (opened counts_fd kernel_counts ∷ (opened flags_fd kernel_flags ∷ h)))
    pub flags_new : is_open flags_fd h ≡ false
    pub counts_new : is_open counts_fd (opened flags_fd kernel_flags ∷ h) ≡ false
    pub ready : IsReady p'
    pub only : p' ≡ record p { maps = p'.maps }

  pub proc_parse_pagemap_lem :
      (p : Process) (h : History T)
      → IsReady p
      → Ends (λ p' h'. IsCounted p p' h h') (Calm h) (proc_parse_pagemap os p h)
  unfolding proc_parse_pagemap
  proc_parse_pagemap_lem p h ready = elim (checked_open_lem kernel_flags h) [
    | inr (h1, stop, (calm, refused)) ↦ inr (h1, rw stop refl, calm)
    | inl (f, h1, runs1, (done1, new1)) ↦ elim (checked_open_lem kernel_counts h1) [
      | inr (h2, stop, (calm, refused)) ↦
          inr (h2, rw (runs1, stop) refl, λ pid. calm pid ∙ ap (is_stopped pid) done1)
      | inl (c, h2, runs2, (done2, new2)) ↦
          let whole = done2 ∙ ap (λ h. opened c kernel_counts ∷ h) done1 in
          elim (parse_regions_lem (os.kernel h2 p.pagemap_fd) p ready) [
            | inr stop ↦ inr (h2, rw (runs1, runs2, stop) refl, λ pid. ap (is_stopped pid) whole)
            | inl (p', lines, runs3, ready', only) ↦ inl (
              p',
              closed c ∷ (closed c ∷ show_all lines h2),
              rw (runs1, runs2, runs3) refl,
              record {
                flags_fd = f;
                counts_fd = c;
                lines = lines;
                done = ap (λ h. closed c ∷ (closed c ∷ show_all lines h)) whole;
                flags_new = new1;
                counts_new = ap (is_open c) (sym done1) ∙ new2;
                ready = ready';
                only = only;
              },
            )
          ]
    ]
  ]
