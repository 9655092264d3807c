-- ===== src/Mem/Files/Laws/Deleted.antt =====
-- A process that was read is deleted: which files are then open, and which processes are stopped.
use memdump.Base.{
  ℕ, suc, ◌==◌, ◌≡◌, ◌||◌, ◌&&◌, not, Bool, true, false, refl, sym, ap, ◌∙◌, inl, inr, some, ◌∷◌,
  ok, arith, ==-refl, Option-cases,
}
use memdump.Base.Int.{ℤ, pos, pos_part, eq_int}
use memdump.Mem.{MemReg, Process, proc_mr_num}
use memdump.Mem.Files.{proc_del, free_region, read_process}
use memdump.Mem.Files.Laws.{IsReady, IsLinux}
use memdump.Mem.Files.Laws.Taken.{
  Only, IsTaken, is_open-IsTaken, is_stopped-IsTaken, read_process_lem,
}
use memdump.Sys.{
  kernel_flags, opened, closed, freed, all_regions, region_pages, region_name, History, Os, is_open,
  is_stopped, outputs, act_each, and_then,
}
use memdump.Mem.Files.Named.{named, named-show_all, first_false}
use memdump.Sys.Ends.{Ends, Ends-bind, act_each-Ends}

last_false : (a b c o : Bool) → (a || (b || (c || o))) ≡ false → o ≡ false
last_false false false false o e = e
last_false false false true o e = cc
last_false false true c o e = cc
last_false true b c o e = cc

leak_lem :
    (a b c f k fd : ℕ) (o : ℕ → Bool)
    → o a ≡ false
    → ((a == b) || o b) ≡ false
    → ((b == c) || ((a == c) || o c)) ≡ false
    → ((c == f) || ((b == f) || ((a == f) || o f))) ≡ false
    → ((f == k) || ((c == k) || ((b == k) || ((a == k) || o k)))) ≡ false
    → (not (c == fd)
        && (not (b == fd)
            && (not (a == fd)
                && (not (k == fd)
                    && (not (k == fd)
                        && ((k == fd)
                            || ((f == fd)
                                || ((c == fd) || ((b == fd) || ((a == fd) || o fd))))))))))
      ≡ ((f == fd) || o fd)
leak_lem a b c f k fd o = grind arith

module _ {T F : Type 0} (os : Os T F) where
  -- The same files are open after the call, and the same processes are stopped.
  abbrev Kept : History T → ℕ → Unit {0} → History T → Type 0
  Kept h i u h' =
      ((fd : ℕ) → is_open fd h' ≡ is_open fd h)
      × ((pid : ℤ) → is_stopped pid h' ≡ is_stopped pid h)
      × (outputs h' ≡ outputs h)
      × ((fd : ℕ) → named fd h' ≡ named fd h)

  free_region-Kept :
      (h : History T) (i : ℕ) (mr : MemReg) (u : Unit {0}) (h' : History T)
      → Kept h i u h'
      → Ends (Kept h (suc i)) (λ h. ⊥) (free_region os i mr u h')
  free_region-Kept h i mr u h' kept = elim (Option-cases mr.pathname) [
    | inl e ↦ inl (tt, freed (region_pages i) ∷ h', rw e refl, kept)
    | inr (name, e) ↦
        inl (tt, freed (region_name i) ∷ (freed (region_pages i) ∷ h'), rw e refl, kept)
  ]

  -- Deleting a process that was read closes its three files.
  pub proc_del_lem :
      (p : Process) (a b c : ℕ) (h : History T)
      → IsReady p
      → p.maps_file ≡ some a
      → p.mem_file ≡ some b
      → p.pagemap_fd ≡ pos c
      → (h' : History T) × (proc_del os p h ≡ (ok tt, h'))
        × ((fd : ℕ)
            → is_open fd h' ≡ (not (c == fd) && (not (b == fd) && (not (a == fd) && is_open fd h))))
        × ((pid : ℤ) → is_stopped pid h' ≡ is_stopped pid h)
        × (outputs h' ≡ outputs h)
        × ((fd : ℕ) → named fd h' ≡ named fd (closed c ∷ (closed b ∷ (closed a ∷ h))))
  unfolding proc_del act_each proc_mr_num
  proc_del_lem p a b c h ready at_maps at_mem at_pagemap =
      let gone : History T = closed c ∷ (closed b ∷ (closed a ∷ h)) in
      elim (act_each-Ends (Kept gone) (λ h. ⊥) p.maps (free_region os) (pos_part (proc_mr_num p))
        ready.0.0 (λ i mr u h' below at kept. free_region-Kept gone i mr u h' kept)
        (pos_part (proc_mr_num p)) 0 tt gone (omega arith)
        ((λ fd. refl), (λ pid. refl), refl, (λ fd. refl))) [
          | inr (h', e, x) ↦ absurd x
          | inl (u, h', runs, kept) ↦ (
            freed all_regions ∷ h',
            rw (at_maps, at_mem, at_pagemap, runs) refl,
            kept.0,
            kept.1,
            kept.2,
            kept.3,
          )
        ]

  -- The descriptor that is left stands for the page flags.
  named-flags :
      (p p' : Process) (h h1 : History T) (t : IsTaken p p' h h1)
      → named t.flags_fd (closed t.pagemap ∷ (closed t.mem_fd ∷ (closed t.maps_fd ∷ h1)))
        ≡ some kernel_flags
  named-flags p p' h h1 t =
      let f = t.flags_fd in
      let new = ap (is_open f) (sym t.start) ∙ t.flags_new in
      let (ne_c, u) = first_false (t.pagemap == f) _ new in
      let (ne_b, v) = first_false (t.mem_fd == f) _ u in
      let (ne_a, w) = first_false (t.maps_fd == f) _ v in
      let ne_k : (t.counts_fd == f) ≡ false =
        ground (arith, (first_false (f == t.counts_fd) _ t.counts_new).0) in
      let self = ==-refl f in
      rw (ne_c, ne_b, ne_a)
        (ap (named f) t.done ∙ rw ne_k (named-show_all f t.lines _ ∙ rw (ne_k, self) refl))

  -- What deleting a process that was read does to its files: the one with the page flags is left.
  pub proc_del-read_process :
      (p p' : Process) (h h1 : History T) (taken : IsTaken p p' h h1)
      → (h2 : History T) × (proc_del os p' h1 ≡ (ok tt, h2))
        × ((fd : ℕ) → is_open fd h2 ≡ ((taken.flags_fd == fd) || is_open fd h))
        × (is_open taken.flags_fd h ≡ false)
        × (named taken.flags_fd h2 ≡ some kernel_flags)
        × ((pid : ℤ) → is_stopped pid h2 ≡ (not (eq_int p.pid pid) && is_stopped pid h))
  proc_del-read_process p p' h h1 t =
      let (h2, runs, open_after, stopped_after, same_out, same_names) =
        proc_del_lem p' t.maps_fd t.mem_fd t.pagemap h1 t.ready t.maps_open t.mem_open
          t.pagemap_open in
      let flags_new = ap (is_open t.flags_fd) (sym t.start) ∙ t.flags_new in
      let counts_new =
        ap (λ h. is_open t.counts_fd (opened t.flags_fd kernel_flags ∷ h)) (sym t.start)
        ∙ t.counts_new in
      (
        h2,
        runs,
        λ fd.
            rw (open_after fd, is_open-IsTaken p p' h h1 t fd)
              (leak_lem t.maps_fd t.mem_fd t.pagemap t.flags_fd t.counts_fd fd (λ fd. is_open fd h)
                t.maps_new t.mem_new t.pagemap_new flags_new counts_new),
        last_false (t.pagemap == t.flags_fd) _ _ _ flags_new,
        same_names t.flags_fd ∙ named-flags p p' h h1 t,
        λ pid. stopped_after pid ∙ is_stopped-IsTaken p p' h h1 t pid,
      )

  -- Where the system does what it documents, a process that is stopped, read and deleted runs again,
  -- or the program exits. Of the five files that were opened four are closed: the descriptor of
  -- /proc/kpageflags, which was not open before, stays open. No other process is stopped or resumed.
  pub process_life_lem :
      (p : Process) (h : History T)
      → IsLinux os
      → Ends
          (λ u h'.
            ((flags_fd : ℕ) × ((fd : ℕ) → is_open fd h' ≡ ((flags_fd == fd) || is_open fd h))
              × (is_open flags_fd h ≡ false)
              × (named flags_fd h' ≡ some kernel_flags))
            × ((pid : ℤ) → is_stopped pid h' ≡ (not (eq_int p.pid pid) && is_stopped pid h)))
          (Only p.pid h)
          (and_then (read_process os p h) (proc_del os))
  process_life_lem p h linux =
      Ends-bind (read_process os p) (proc_del os) h (read_process_lem os p h linux) (λ p' h1 taken.
        let (h2, runs, open_after, new, flags, stopped_after) =
          proc_del-read_process p p' h h1 taken in
        inl (tt, h2, runs, ((taken.flags_fd, open_after, new, flags), stopped_after)))
