-- ===== src/Mem/Files/Laws/Taken.antt =====
-- A process that `main` has stopped, read and resumed.
use memdump.Base.{
  ℕ, ◌==◌, ◌≡◌, ◌||◌, false, refl, ap, ◌∙◌, ◌⊎◌, inl, inr, some, List, ◌∷◌, Bool, true, not, ◌&&◌,
  ok, exit, Bool-cases,
}
use memdump.Base.Int.{ℤ, pos, eq_int}
use memdump.Mem.{Process}
use memdump.Mem.Flags.{PageFlags}
use memdump.Mem.Files.{proc_attach, proc_detach, read_process}
use memdump.Mem.Files.Laws.{IsReady, IsLinux}
use memdump.Mem.Files.Laws.Life.{proc_do_files_lem, proc_parse_pagemap_lem}
use memdump.Sys.{
  maps_of, mem_of, pagemap_of, kernel_flags, kernel_counts, attached, waited, continued, detached,
  opened, closed, show_all, History, Os, is_open, is_stopped, outputs,
}
use memdump.Sys.Ends.{Ends}
use memdump.Sys.Shown.{is_open-show_all, is_stopped-show_all, outputs-show_all}

not_twice : (a o : Bool) → (not a && (not a && (a || o))) ≡ (not a && o)
not_twice false o = refl
not_twice true o = refl

module _ {T : Type 0} where
  -- Whatever happened, it happened to one process at most.
  abbrev pub Only : ℤ → History T → History T → Type 0
  Only pid h h' = (pid' : ℤ) → eq_int pid pid' ≡ false → is_stopped pid' h' ≡ is_stopped pid' h

  -- The calls of `read_process`, and what is then known.
  pub record IsTaken (p p' : Process) (h h' : History T) : Type 0 where
    pub maps_fd : ℕ
    pub mem_fd : ℕ
    pub pagemap : ℕ
    pub flags_fd : ℕ
    pub counts_fd : ℕ
    pub before : History T
    pub lines : List PageFlags
    pub start :
        before
        ≡ opened pagemap (pagemap_of p.pid)
          ∷ (opened mem_fd (mem_of p.pid)
              ∷ (opened maps_fd (maps_of p.pid) ∷ (waited ∷ (attached p.pid ∷ h))))
    pub done :
        h'
        ≡ detached p'.pid
          ∷ (continued p'.pid
              ∷ (closed counts_fd
                  ∷ (closed counts_fd
                      ∷ show_all lines (
                          opened counts_fd kernel_counts
                          ∷ (opened flags_fd kernel_flags ∷ before)))))
    pub maps_new : is_open maps_fd h ≡ false
    pub mem_new : ((maps_fd == mem_fd) || is_open mem_fd h) ≡ false
    pub pagemap_new : ((mem_fd == pagemap) || ((maps_fd == pagemap) || is_open pagemap h)) ≡ false
    pub flags_new : is_open flags_fd before ≡ false
    pub counts_new : ((flags_fd == counts_fd) || is_open counts_fd before) ≡ false
    pub ready : IsReady p'
    pub maps_open : p'.maps_file ≡ some maps_fd
    pub mem_open : p'.mem_file ≡ some mem_fd
    pub pagemap_open : p'.pagemap_fd ≡ pos pagemap
    pub same : p'.pid ≡ p.pid

  pub outputs-IsTaken :
      (p p' : Process) (h h' : History T) → IsTaken p p' h h' → outputs h' ≡ outputs h
  outputs-IsTaken p p' h h' t = ap outputs t.done ∙ outputs-show_all t.lines _ ∙ ap outputs t.start

  pub is_stopped-IsTaken :
      (p p' : Process) (h h' : History T)
      → IsTaken p p' h h'
      → (pid : ℤ) → is_stopped pid h' ≡ (not (eq_int p.pid pid) && is_stopped pid h)
  is_stopped-IsTaken p p' h h' t pid =
      let gone = λ (q : ℤ) (b : Bool). not (eq_int q pid) && (not (eq_int q pid) && b) in
      ap (is_stopped pid) t.done
      ∙ ap (gone p'.pid) (is_stopped-show_all pid t.lines _ ∙ ap (is_stopped pid) t.start)
      ∙ ap (λ (q : ℤ). gone q (eq_int p.pid pid || is_stopped pid h)) t.same
      ∙ not_twice (eq_int p.pid pid) (is_stopped pid h)

  -- The files that were open, and those that were opened but for the page counts.
  pub is_open-IsTaken :
      (p p' : Process) (h h' : History T) (t : IsTaken p p' h h') (fd : ℕ)
      → is_open fd h' ≡ (
          not (t.counts_fd == fd)
          && (not (t.counts_fd == fd)
              && ((t.counts_fd == fd)
                  || ((t.flags_fd == fd)
                      || ((t.pagemap == fd)
                          || ((t.mem_fd == fd) || ((t.maps_fd == fd) || is_open fd h)))))))
  is_open-IsTaken p p' h h' t fd =
      ap (is_open fd) t.done
      ∙ ap (λ (b : Bool). not (t.counts_fd == fd) && (not (t.counts_fd == fd) && b))
          (is_open-show_all fd t.lines _
            ∙ ap (λ (h : History T). (t.counts_fd == fd) || ((t.flags_fd == fd) || is_open fd h))
                t.start)

module _ {T F : Type 0} (os : Os T F) where
  pub attach_first :
      (p : Process) (h : History T)
      → (proc_attach os p h ≡ (ok tt, waited ∷ (attached p.pid ∷ h)))
        ⊎ ((proc_attach os p h ≡ (exit, h)) × (os.attach h p.pid ≡ false))
  unfolding proc_attach
  attach_first p h = elim (Bool-cases (os.attach h p.pid)) [
    | inl ok_there ↦ inl (rw ok_there refl)
    | inr fails ↦ inr (rw fails refl, fails)
  ]

  pub read_process_lem :
      (p : Process) (h : History T)
      → IsLinux os
      → Ends (λ p' h'. IsTaken p p' h h') (Only p.pid h) (read_process os p h)
  unfolding read_process proc_detach
  read_process_lem p h linux = elim (attach_first p h) [
    | inr (stop, refused) ↦ inr (h, rw stop refl, λ pid other. refl)
    | inl runs1 ↦ elim (proc_do_files_lem os p (waited ∷ (attached p.pid ∷ h)) linux) [
      | inr (h2, stop, calm) ↦
          inr (
            h2,
            rw (runs1, stop) refl,
            λ pid other. calm pid ∙ ap (λ b. b || is_stopped pid h) other,
          )
      | inl (p2, h2, runs2, read) ↦ elim (proc_parse_pagemap_lem os p2 h2 read.ready) [
        | inr (h3, stop, calm) ↦ inr (
          h3,
          rw (runs1, runs2, stop) refl,
          λ pid other.
              calm pid
              ∙ ap (is_stopped pid) read.files.done
              ∙ ap (λ b. b || is_stopped pid h) other,
        )
        | inl (p3, h3, runs3, counted) ↦ inl (
          p3,
          detached p3.pid ∷ (continued p3.pid ∷ h3),
          rw (runs1, runs2, runs3) refl,
          record {
            maps_fd = read.files.maps_fd;
            mem_fd = read.files.mem_fd;
            pagemap = read.files.pagemap;
            flags_fd = counted.flags_fd;
            counts_fd = counted.counts_fd;
            before = h2;
            lines = counted.lines;
            start = read.files.done;
            done = ap (λ h. detached p3.pid ∷ (continued p3.pid ∷ h)) counted.done;
            maps_new = read.files.maps_new;
            mem_new = read.files.mem_new;
            pagemap_new = read.files.pagemap_new;
            flags_new = counted.flags_new;
            counts_new = counted.counts_new;
            ready = counted.ready;
            maps_open =
                ap (λ (p : Process). p.maps_file) counted.only
                ∙ ap (λ (p : Process). p.maps_file) read.only
                ∙ ap (λ (p : Process). p.maps_file) read.files.only;
            mem_open =
                ap (λ (p : Process). p.mem_file) counted.only
                ∙ ap (λ (p : Process). p.mem_file) read.only
                ∙ ap (λ (p : Process). p.mem_file) read.files.only;
            pagemap_open =
                ap (λ (p : Process). p.pagemap_fd) counted.only
                ∙ ap (λ (p : Process). p.pagemap_fd) read.only
                ∙ ap (λ (p : Process). p.pagemap_fd) read.files.only;
            same =
                ap (λ (p : Process). p.pid) counted.only
                ∙ ap (λ (p : Process). p.pid) read.only
                ∙ ap (λ (p : Process). p.pid) read.files.only;
          },
        )
      ]
    ]
  ]
