-- ===== src/SetCmp/Main/Laws.antt =====
-- What `main` of jni/setcmp.c does where the system does what it documents.
use mathlib.Core.Path.{subst}
use memdump.Base.{
  ℕ, suc, ◌≤◌, ◌≡◌, ◌&&◌, not, Bool, true, false, refl, ap₂, ◌∙◌, inl, inr, List, [], ◌∷◌, ◌++◌,
  length, take, drop, map, All₂, ok, arith, length-take, length-map, length-append, append-nil,
  flat_map,
}
use memdump.Base.Int.{ℤ, eq_int}
use memdump.Base.Loop.Along.{All₂_at, All₂-length, drop_all}
use memdump.Base.Loop.Laws.{elem_at, drop_split}
use memdump.Mem.{Process, proc_init}
use memdump.Mem.Files.{new_process, read_process, proc_del}
use memdump.Mem.Files.Laws.{IsLinux}
use memdump.Mem.Files.Laws.Taken.{is_stopped-IsTaken, outputs-IsTaken, read_process_lem}
use memdump.Mem.Files.Laws.Steps.{IsStored}
use memdump.Mem.Files.Laws.Deleted.{proc_del_lem}
use memdump.SetCmp.Main.Open.{files_of, AreOpen, AreOpen-IsTaken, AreOpen-deleted}
use memdump.SetCmp.Main.{Printed, make_processes, read_processes, delete_processes}
use memdump.Sys.{Os, History, pure, is_stopped, outputs, ◌>>=◌}
use memdump.Sys.Ends.{Ends, Ends-bind, Ends-imp, act_each-Ends}
use memdump.Sys.Collect.{More, act_each-map, act_each-collect}

pids_of :
    (atoi : List ℕ → ℤ) (f : List ℕ → Process) (args : List (List ℕ))
    → ((arg : List ℕ) → (f arg).pid ≡ atoi arg)
    → map (λ (p : Process). p.pid) (map f args) ≡ map atoi args
pids_of atoi f [] h = refl
pids_of atoi f (arg ∷ args) h = ap₂ (λ pid pids. pid ∷ pids) (h arg) (pids_of atoi f args h)

rest_fits : (argv : List (List ℕ)) (n : ℕ) → suc n ≤ length argv → n ≤ length (drop 1 argv)
rest_fits [] n h = absurd (omega arith)
rest_fits (arg ∷ argv) n h = omega arith

let_go : (b : Bool) → (not b && false) ≡ false
let_go false = refl
let_go true = refl

-- Besides the files of the processes one descriptor for each is open, and nothing else.
abbrev pub Leaks : List Process → ℕ → History Printed → Type 0
Leaks done n h = (flags : List ℕ) × (length flags ≡ n) × AreOpen (flags ++ flat_map files_of done) h

-- No process is stopped, and nothing was printed.
abbrev pub IsQuiet : List Process → History Printed → Type 0
IsQuiet done h =
    ((pid : ℤ) → is_stopped pid h ≡ false) × (outputs h ≡ []) × Leaks done (length done) h

abbrev pub AtMostOne : History Printed → Type 0
AtMostOne h = (pid : ℤ) × ((other : ℤ) → eq_int pid other ≡ false → is_stopped other h ≡ false)

module _ {F : Type 0} (os : Os Printed F) where
  pub make_processes_lem :
      (argv : List (List ℕ)) (n : ℕ) (h : History Printed)
      → suc n ≤ length argv
      → (proc : List Process) × (make_processes os n argv h ≡ (ok proc, h))
        × (length proc ≡ n)
        × (map (λ (p : Process). p.pid) proc ≡ map os.atoi (take n (drop 1 argv)))
  unfolding make_processes new_process proc_init
  make_processes_lem argv n h fits =
      let m = os.malloc h in
      let made = λ (arg : List ℕ). proc_init (os.atoi arg) m.0 m.1 m.2 in
      (
        map made (take n (drop 1 argv)),
        act_each-map made _ h (λ i arg out. refl) n 1 argv [] (omega arith),
        length-map made _ ∙ length-take n (drop 1 argv) (rest_fits argv n fits),
        pids_of os.atoi made _ (λ arg. refl),
      )

  read_step :
      (p : Process) (done : List Process) (h : History Printed)
      → IsLinux os
      → IsQuiet done h
      → Ends
          (More IsStored IsQuiet done p)
          AtMostOne
          (◌>>=◌ (read_process os p) (λ p'. pure (done ++ (p' ∷ []))) h)
  read_step p done h linux (running, silent, (flags, size, opens)) =
      Ends-bind (read_process os p) (λ p'. pure (done ++ (p' ∷ []))) h
        (Ends-imp _ (λ p' h' t. t) (λ h' only. (p.pid, λ other ne. only other ne ∙ running other))
          (read_process_lem os p h linux))
        (λ p' h' t. inl (
          done ++ (p' ∷ []),
          h',
          refl,
          (
            p',
            refl,
            (t.ready, t.same, (_, t.maps_open), (_, t.mem_open), (_, t.pagemap_open)),
            (
              λ pid.
                  is_stopped-IsTaken p p' h h' t pid ∙ rw (running pid) (let_go (eq_int p.pid pid)),
              outputs-IsTaken p p' h h' t ∙ silent,
              (
                t.flags_fd ∷ flags,
                omega (arith, size, length-append done (p' ∷ [])),
                AreOpen-IsTaken p p' h h' t flags done opens,
              ),
            ),
          ),
        ))

  pub read_processes_lem :
      (proc : List Process) (n : ℕ) (h : History Printed)
      → IsLinux os
      → n ≤ length proc
      → IsQuiet [] h
      → Ends
          (λ done h'. All₂ IsStored (take n proc) done × IsQuiet done h')
          AtMostOne
          (read_processes os n proc h)
  unfolding read_processes
  read_processes_lem proc n h linux fits quiet =
      Ends-imp _ (λ done h' r. (rw r.1 r.2, r.3)) (λ h' e. e)
        (act_each-collect IsStored IsQuiet AtMostOne _ (λ i p out h' q. read_step p out h' linux q)
          n 0 proc [] h (omega arith) quiet)

  -- Deleting the processes prints nothing, lets none go, and closes their files.
  pub delete_processes_lem :
      (made done : List Process) (n : ℕ) (flags : List ℕ) (h : History Printed)
      → n ≡ length done
      → All₂ IsStored made done
      → AreOpen (flags ++ flat_map files_of done) h
      → (h' : History Printed) × (delete_processes os n done h ≡ (ok tt, h'))
        × ((pid : ℤ) → is_stopped pid h' ≡ is_stopped pid h)
        × (outputs h' ≡ outputs h)
        × AreOpen flags h'
  unfolding delete_processes
  delete_processes_lem made done n flags h size stored opens =
      elim (act_each-Ends
        (λ i u h'.
          ((pid : ℤ) → is_stopped pid h' ≡ is_stopped pid h)
          × (outputs h' ≡ outputs h)
          × AreOpen (flags ++ flat_map files_of (drop i done)) h')
        (λ h'. ⊥) done (λ _ p u. proc_del os p) n (omega (arith, size))
        (λ i p u h1 below at kept.
          let (q, at_q) =
            elem_at i made (omega (arith, size, All₂-length IsStored made done stored)) in
          let s = All₂_at IsStored made done i q p stored at_q at in
          let split = drop_split i done p at in
          let (h2, runs, closes, traced, same_out, same_names) =
            proc_del_lem os p s.2.0 s.3.0 s.4.0 h1 s.0 s.2.1 s.3.1 s.4.1 in
          inl (
            tt,
            h2,
            runs,
            (
              (λ pid. traced pid ∙ kept.0 pid),
              same_out ∙ kept.1,
              AreOpen-deleted p s.2.0 s.3.0 s.4.0 h1 h2 flags (drop (suc i) done) s.2.1 s.3.1 s.4.1
                  closes (subst (λ ps. AreOpen (flags ++ flat_map files_of ps) h1) split kept.2),
            ),
          ))
        n 0 tt h (omega arith) ((λ pid. refl), refl, opens)) [
          | inr (h', e, x) ↦ absurd x
          | inl (u, h', runs, kept) ↦
              let none_left = drop_all n done (omega (arith, size)) in
              (
                h',
                runs,
                kept.0,
                kept.1,
                subst (λ ps. AreOpen ps h') (append-nil flags)
                    (subst (λ ps. AreOpen (flags ++ flat_map files_of ps) h') none_left kept.2),
              )
        ]
