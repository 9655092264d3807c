-- ===== src/Mem/Files/Laws/Steps.antt =====
-- The steps of reading a process, by what they leave as it was.
use memdump.Base.{ℕ, ◌≡◌, refl, ap, ◌∙◌, inl, inr, some, ◌∷◌, ok}
use memdump.Base.Int.{ℤ, pos}
use memdump.Mem.{Process}
use memdump.Mem.Files.{proc_do_files, proc_parse_pagemap, proc_attach, proc_del}
use memdump.Mem.Files.Laws.{IsReady, IsLinux}
use memdump.Mem.Files.Laws.Life.{proc_do_files_lem, proc_parse_pagemap_lem}
use memdump.Mem.Files.Laws.Taken.{attach_first}
use memdump.Mem.Files.Laws.Deleted.{proc_del_lem}
use memdump.Sys.{History, Os, attached, waited, is_stopped, outputs}
use memdump.Sys.Shown.{is_stopped-show_all, outputs-show_all}
use memdump.Sys.Ends.{Ends, Ends-imp}

-- A process that was read, with the descriptors that `proc_del` closes.
abbrev pub IsStored : Process → Process → Type 0
IsStored p p' =
    IsReady p'
    × (p'.pid ≡ p.pid)
    × ((a : ℕ) × (p'.maps_file ≡ some a))
    × ((b : ℕ) × (p'.mem_file ≡ some b))
    × ((c : ℕ) × (p'.pagemap_fd ≡ pos c))

-- No process was stopped or resumed, and nothing was printed.
abbrev pub Still : {T : Type 0} → History T → History T → Type 0
Still h h' = ((pid : ℤ) → is_stopped pid h' ≡ is_stopped pid h) × (outputs h' ≡ outputs h)

module _ {T F : Type 0} (os : Os T F) where
  pub proc_attach-Ends :
      (p : Process) (h : History T)
      → Ends (λ u h'. h' ≡ waited ∷ (attached p.pid ∷ h)) (λ h'. Unit {0}) (proc_attach os p h)
  proc_attach-Ends p h = elim (attach_first os p h) [
    | inl runs ↦ inl (tt, waited ∷ (attached p.pid ∷ h), runs, refl)
    | inr (stop, refused) ↦ inr (h, stop, tt)
  ]

  pub proc_do_files-Still :
      (p : Process) (h : History T)
      → IsLinux os
      → Ends (λ p' h'. IsStored p p' × Still h h') (λ h'. Unit {0}) (proc_do_files os p h)
  proc_do_files-Still p h linux =
      Ends-imp _
        (λ p' h' r.
          let kept =
            ap (λ (p : Process). p.pid) r.only ∙ ap (λ (p : Process). p.pid) r.files.only in
          (
            (
              r.ready,
              kept,
              (
                _,
                ap (λ (p : Process). p.maps_file) r.only
                    ∙ ap (λ (p : Process). p.maps_file) r.files.only,
              ),
              (
                _,
                ap (λ (p : Process). p.mem_file) r.only
                    ∙ ap (λ (p : Process). p.mem_file) r.files.only,
              ),
              (
                _,
                ap (λ (p : Process). p.pagemap_fd) r.only
                    ∙ ap (λ (p : Process). p.pagemap_fd) r.files.only,
              ),
            ),
            ((λ pid. ap (is_stopped pid) r.files.done), ap outputs r.files.done),
          ))
        (λ h' e. tt) (proc_do_files_lem os p h linux)

  pub proc_parse_pagemap-Still :
      (q p : Process) (h : History T)
      → IsStored q p
      → Ends (λ p' h'. IsStored q p' × Still h h') (λ h'. Unit {0}) (proc_parse_pagemap os p h)
  proc_parse_pagemap-Still q p h s =
      Ends-imp _
        (λ p' h' r. (
          (
            r.ready,
            ap (λ (p : Process). p.pid) r.only ∙ s.1,
            (s.2.0, ap (λ (p : Process). p.maps_file) r.only ∙ s.2.1),
            (s.3.0, ap (λ (p : Process). p.mem_file) r.only ∙ s.3.1),
            (s.4.0, ap (λ (p : Process). p.pagemap_fd) r.only ∙ s.4.1),
          ),
          (
            (λ pid. ap (is_stopped pid) r.done ∙ is_stopped-show_all pid r.lines _),
            ap outputs r.done ∙ outputs-show_all r.lines _,
          ),
        ))
        (λ h' e. tt) (proc_parse_pagemap_lem os p h s.0)

  pub proc_del-Still :
      (q p : Process) (h : History T)
      → IsStored q p
      → (h' : History T) × (proc_del os p h ≡ (ok tt, h')) × Still h h'
  proc_del-Still q p h s =
      let (h', runs, opens, traced, same_out, same_names) =
        proc_del_lem os p s.2.0 s.3.0 s.4.0 h s.0 s.2.1 s.3.1 s.4.1 in
      (h', runs, (traced, same_out))
