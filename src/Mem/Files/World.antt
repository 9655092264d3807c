-- ===== src/Mem/Files/World.antt =====
-- A process is stopped and read on a system where each file has what the process holds.
use memdump.Base.{
  ℕ, ◌≡◌, ◌∙◌, true, refl, sym, ap, inl, inr, some, flat_map, map, List, ◌∷◌, length, All, All₂, ok,
  arith,
}
use memdump.Base.Int.{ℤ, pos, pos_part}
use mathlib.Core.Path.{subst}
use memdump.Mem.{Page, MemReg, Process, proc_mr_num, regions_of}
use memdump.Mem.Read.Content.{IsReadable, HasContent}
use memdump.Mem.Pagemap.Region.{Provides}
use memdump.Mem.Files.{proc_do_files, proc_parse_pagemap, proc_detach, read_process}
use memdump.Mem.Files.Content.{
  IsGood, region_lines, HasMemory, proc_do-HasContent, parse_regions-HasMemory,
}
use memdump.Mem.Files.Named.{
  named, Keeps, Keeps-trans, Keeps-opened, Keeps-closed, AreOpened-named, AreOpened-Keeps,
}
use memdump.Mem.Files.Laws.{IsLinux}
use memdump.Mem.Files.Laws.Life.{open_proc_files_lem, checked_open_lem}
use memdump.Mem.Files.Laws.Taken.{attach_first}
use memdump.Mem.Image.{Held, kept, held_of, image_of, image_of-held_of, IsPresent, all_pages-image}
use memdump.SetCmp.Sets.{all_pages}
use memdump.Memdump.Laws.{kept_of}
use memdump.Sys.{
  maps_of, mem_of, pagemap_of, kernel_flags, kernel_counts, attached, waited, continued, detached,
  show_all, opened, closed, History, Os, Refuses, is_open,
}
use memdump.Sys.Ends.{Ends, Ends-imp}

-- What the processes hold: the regions that `parse_maps` keeps, the bytes of the page at an
-- address, the entry of the pagemap for a page, and the number of page tables that refer to a frame.
pub record World : Type 0 where
  pub regions : ℤ → List MemReg
  pub content : ℤ → ℕ → List ℕ
  pub entry : ℤ → ℕ → ℕ
  pub count : ℕ → ℕ

-- The files of a process have what it holds, whenever they are read. Its regions are of whole
-- pages, and each page has a frame.
pub record IsLive {T F : Type 0} (os : Os T F) (linux : IsLinux os) (w : World) : Type 1 where
  pub memory : (pid : ℤ) → IsReadable os.stream (w.content pid)
  pub maps :
      (h : History T) (fd : ℕ) (pid : ℤ)
      → named fd h ≡ some (maps_of pid)
      → kept_of os.stdio true (linux.fields h fd) ≡ w.regions pid
  pub mem :
      (h : History T) (fd : ℕ) (pid : ℤ)
      → named fd h ≡ some (mem_of pid)
      → (memory pid).Mine (os.file h fd)
  pub pagemap :
      (h : History T) (fd : ℕ) (pid : ℤ)
      → named fd h ≡ some (pagemap_of pid)
      → Provides (os.kernel h (pos fd)) (w.entry pid) w.count
  pub good : (pid : ℤ) → All IsGood (w.regions pid)
  pub present : (pid : ℤ) → All (IsPresent (w.content pid) (w.entry pid) w.count) (w.regions pid)

-- The pages that a process holds, and what the program keeps of them.
abbrev pub held : World → ℤ → List Held
held w pid = held_of (w.content pid) (w.entry pid) w.count (w.regions pid)

abbrev pub image : World → ℤ → List Page
image w pid = image_of (w.content pid) (w.entry pid) w.count (w.regions pid)

pub image-held : (w : World) (pid : ℤ) → image w pid ≡ map kept (held w pid)
image-held w pid = image_of-held_of (w.content pid) (w.entry pid) w.count (w.regions pid)

module _ {T F : Type 0} (os : Os T F) where
  module _ (linux : IsLinux os) (w : World) (live : IsLive os linux w) where
    -- The regions and the content of a process are read, and its pagemap is open.
    pub record IsRead (p p' : Process) (h : History T) : Type 0 where
      pub fits : pos_part (proc_mr_num p') ≡ length p'.maps
      pub contents : All₂ (HasContent (w.content p.pid)) (w.regions p.pid) (regions_of p')
      pub fd : ℕ
      pub fd_kept : p'.pagemap_fd ≡ pos fd
      pub fd_named : named fd h ≡ some (pagemap_of p.pid)
      pub fd_open : is_open fd h ≡ true

    pub IsRead-Keeps :
        (p p' : Process) (h h' : History T) → IsRead p p' h → Keeps h h' → IsRead p p' h'
    IsRead-Keeps p p' h h' r keeps =
        let (here, there) = keeps r.fd (pagemap_of p.pid) r.fd_named r.fd_open in
        record {
          fits = r.fits;
          contents = r.contents;
          fd = r.fd;
          fd_kept = r.fd_kept;
          fd_named = here;
          fd_open = there;
        }

    -- The process holds the regions, each page with its hash and its count.
    abbrev pub HoldsAll : ℤ → Process → Type 0
    HoldsAll pid p =
        All₂ (HasMemory (w.content pid) (w.entry pid) w.count) (w.regions pid) (regions_of p)

    pub proc_do_files-IsRead :
        (p : Process) (h : History T)
        → Ends (λ p' h'. IsRead p p' h' × Keeps h h') (Refuses os) (proc_do_files os p h)
    unfolding proc_do_files
    proc_do_files-IsRead p h = elim (open_proc_files_lem os p h) [
      | inr (h1, stop, (calm, refused)) ↦ inr (h1, rw stop refl, refused)
      | inl (p1, h1, runs, o) ↦
          let q = record p {
            maps_file = some o.maps_fd;
            mem_file = some o.mem_fd;
            pagemap_fd = pos o.pagemap;
          } in
          let runs' = runs ∙ ap (λ q. (ok q, h1)) o.only in
          let (maps, mem, pagemap, opens) = AreOpened-named os p p1 h h1 o in
          let kept = live.maps h1 o.maps_fd p.pid maps in
          let good = subst (λ mrs. All IsGood mrs) (sym kept) (live.good p.pid) in
          let (p2, file', done, fits, contents, only) =
            proc_do-HasContent os.stream (w.content p.pid) (live.memory p.pid) os.stdio q
              (os.lines h1 o.maps_fd) (linux.fields h1 o.maps_fd) (os.file h1 o.mem_fd) linux.sized
              (live.mem h1 o.mem_fd p.pid mem) (linux.parsed h1 o.maps_fd) good
              (linux.few h1 o.maps_fd) in
          inl (
            p2,
            h1,
            rw (runs', done) refl,
            (
              record {
                fits = fits;
                contents =
                    subst (λ mrs. All₂ (HasContent (w.content p.pid)) mrs (regions_of p2)) kept
                      contents;
                fd = o.pagemap;
                fd_kept = ap (λ (p : Process). p.pagemap_fd) only;
                fd_named = pagemap;
                fd_open = opens;
              },
              AreOpened-Keeps os p p1 h h1 o,
            ),
          )
    ]

    pub proc_parse_pagemap-HoldsAll :
        (p p1 : Process) (h : History T)
        → IsRead p p1 h
        → Ends (λ p' h'. HoldsAll p.pid p' × Keeps h h') (Refuses os) (proc_parse_pagemap os p1 h)
    unfolding proc_parse_pagemap
    proc_parse_pagemap-HoldsAll p p1 h r = elim (checked_open_lem os kernel_flags h) [
      | inr (h1, stop, (calm, refused)) ↦ inr (h1, rw stop refl, refused)
      | inl (f, h1, runs1, (done1, new1)) ↦ elim (checked_open_lem os kernel_counts h1) [
        | inr (h2, stop, (calm, refused)) ↦ inr (h2, rw (runs1, stop) refl, refused)
        | inl (c, h2, runs2, (done2, new2)) ↦
            let whole = done2 ∙ ap (λ h. opened c kernel_counts ∷ h) done1 in
            let lines = flat_map (region_lines (w.entry p.pid) w.count) (w.regions p.pid) in
            let new = ap (is_open c) (sym done1) ∙ new2 in
            let opens =
              Keeps-trans h (opened f kernel_flags ∷ h)
                (opened c kernel_counts ∷ (opened f kernel_flags ∷ h))
                (Keeps-opened f kernel_flags h new1)
                (Keeps-opened c kernel_counts (opened f kernel_flags ∷ h) new) in
            let (there, still) = opens r.fd (pagemap_of p.pid) r.fd_named r.fd_open in
            let provides =
              subst (λ fd. Provides (os.kernel h2 fd) (w.entry p.pid) w.count) (sym r.fd_kept)
                (live.pagemap h2 r.fd p.pid (ap (named r.fd) whole ∙ there)) in
            let (p2, runs3, holds, only) =
              parse_regions-HasMemory (w.content p.pid) (w.entry p.pid) w.count
                (os.kernel h2 p1.pagemap_fd) (w.regions p.pid) p1 provides (omega (arith, r.fits))
                (live.good p.pid) r.contents in
            inl (
              p2,
              closed c ∷ (closed c ∷ show_all lines h2),
              rw (runs1, runs2, runs3) refl,
              (
                holds,
                subst (λ h2. Keeps h (closed c ∷ (closed c ∷ show_all lines h2))) (sym whole)
                    (Keeps-closed f c kernel_flags kernel_counts lines h new1 new),
              ),
            )
      ]
    ]

    -- A process that is read holds its regions with the pages, and the program exits only where the
    -- system refuses a call.
    pub read_process-HoldsAll :
        (p : Process) (h : History T)
        → Ends (λ p' h'. HoldsAll p.pid p') (Refuses os) (read_process os p h)
    unfolding read_process proc_detach
    read_process-HoldsAll p h = elim (attach_first os p h) [
      | inr (stop, refused) ↦ inr (h, rw stop refl, inl (p.pid, refused))
      | inl runs ↦ elim (proc_do_files-IsRead p (waited ∷ (attached p.pid ∷ h))) [
        | inr (h1, stop, refused) ↦ inr (h1, rw (runs, stop) refl, refused)
        | inl (p1, h1, runs1, (r, keeps)) ↦ elim (proc_parse_pagemap-HoldsAll p p1 h1 r) [
          | inr (h2, stop, refused) ↦ inr (h2, rw (runs, runs1, stop) refl, refused)
          | inl (p2, h2, runs2, (holds, keeps')) ↦
              inl
                (p2, detached p2.pid ∷ (continued p2.pid ∷ h2), rw (runs, runs1, runs2) refl, holds)
        ]
      ]
    ]

    -- So its pages are the image, in order.
    pub read_process-image :
        (p : Process) (h : History T)
        → Ends (λ p' h'. all_pages p' ≡ image w p.pid) (Refuses os) (read_process os p h)
    read_process-image p h =
        Ends-imp _
          (λ p' h' holds.
            all_pages-image (w.content p.pid) (w.entry p.pid) w.count (w.regions p.pid) p'
              (live.good p.pid) (live.present p.pid) holds)
          (λ h' refused. refused) (read_process-HoldsAll p h)
