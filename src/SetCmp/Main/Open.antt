-- ===== src/SetCmp/Main/Open.antt =====
-- Which files are open while `main` of jni/setcmp.c runs: four for each process that was read, and
-- one for each that was deleted.
use memdump.Base.{
  sym, ℕ, ◌+◌, ◌==◌, ◌≡◌, ◌||◌, ◌&&◌, not, Bool, false, refl, ap, ◌∙◌, Option, none, some, List, [],
  ◌∷◌, ◌++◌, count, count_if-append, flat_map, to_nat, arith,
}
use memdump.Base.Int.{pos, pos_part}
use memdump.Mem.{Process}
use memdump.Mem.Files.Laws.Taken.{IsTaken, is_open-IsTaken}
use memdump.Sys.{kernel_flags, opened, History, is_open}

abbrev file_of : Option ℕ → List ℕ
file_of none = []
file_of (some fd) = fd ∷ []

-- The descriptors that a process refers to.
abbrev pub files_of : Process → List ℕ
files_of p = file_of p.maps_file ++ (file_of p.mem_file ++ (pos_part p.pagemap_fd ∷ []))

-- Just these descriptors are open, and no two are equal.
abbrev pub AreOpen : {T : Type 0} → List ℕ → History T → Type 0
AreOpen fds h = (fd : ℕ) → count fd fds ≡ to_nat (is_open fd h)

pub count-files_of :
    (p : Process) (a b c fd : ℕ)
    → p.maps_file ≡ some a
    → p.mem_file ≡ some b
    → p.pagemap_fd ≡ pos c
    → count fd (files_of p) ≡ to_nat (a == fd) + (to_nat (b == fd) + (to_nat (c == fd) + 0))
count-files_of p a b c fd maps mem pagemap = rw (maps, mem, pagemap) refl

pub count-one_more :
    (flags : List ℕ) (ps : List Process) (p : Process) (fd : ℕ)
    → count fd (flags ++ flat_map files_of (ps ++ (p ∷ [])))
      ≡ count fd (flags ++ flat_map files_of ps) + count fd (files_of p)
count-one_more flags ps p fd = omega (
  arith,
  count_if-append (λ x. x == fd) flags (flat_map files_of (ps ++ (p ∷ []))),
  count_if-append (λ x. x == fd) flags (flat_map files_of ps),
  files ps,
)
  where
    files :
        (ps : List Process)
        → count fd (flat_map files_of (ps ++ (p ∷ [])))
          ≡ count fd (flat_map files_of ps) + count fd (files_of p)
    files [] = omega (arith, count_if-append (λ x. x == fd) (files_of p) [])
    files (q ∷ ps) = omega (
      arith,
      files ps,
      count_if-append (λ x. x == fd) (files_of q) (flat_map files_of (ps ++ (p ∷ []))),
      count_if-append (λ x. x == fd) (files_of q) (flat_map files_of ps),
    )

taken_count :
    (a b c f k fd : ℕ) (o : ℕ → Bool)
    → o a ≡ false
    → ((a == b) || o b) ≡ false
    → ((b == c) || ((a == c) || o c)) ≡ false
    → ((c == f) || ((b == f) || ((a == f) || o f))) ≡ false
    → ((f == k) || ((c == k) || ((b == k) || ((a == k) || o k)))) ≡ false
    → to_nat (
        not (k == fd)
        && (not (k == fd)
            && ((k == fd) || ((f == fd) || ((c == fd) || ((b == fd) || ((a == fd) || o fd)))))))
      ≡ to_nat (f == fd)
        + (to_nat (a == fd) + (to_nat (b == fd) + (to_nat (c == fd) + 0)) + to_nat (o fd))
taken_count a b c f k fd o = grind arith

left_count :
    (a b c o : Bool) (rest : ℕ)
    → to_nat a + (to_nat b + (to_nat c + 0)) + rest ≡ to_nat o
    → rest ≡ to_nat (not c && (not b && (not a && o)))
left_count a b c o rest = grind arith

module _ {T : Type 0} where
  -- A process that is read has three files, and one more stays open.
  pub AreOpen-IsTaken :
      (p p' : Process) (h h' : History T) (t : IsTaken p p' h h') (flags : List ℕ)
      (done : List Process)
      → AreOpen (flags ++ flat_map files_of done) h
      → AreOpen ((t.flags_fd ∷ flags) ++ flat_map files_of (done ++ (p' ∷ []))) h'
  AreOpen-IsTaken p p' h h' t flags done before fd =
      let flags_new = ap (is_open t.flags_fd) (sym t.start) ∙ t.flags_new in
      let counts_new =
        ap (λ h. is_open t.counts_fd (opened t.flags_fd kernel_flags ∷ h)) (sym t.start)
        ∙ t.counts_new in
      omega (
        arith,
        before fd,
        count-one_more flags done p' fd,
        count-files_of p' t.maps_fd t.mem_fd t.pagemap fd t.maps_open t.mem_open t.pagemap_open,
        ap to_nat (is_open-IsTaken p p' h h' t fd),
        taken_count t.maps_fd t.mem_fd t.pagemap t.flags_fd t.counts_fd fd (λ fd. is_open fd h)
            t.maps_new t.mem_new t.pagemap_new flags_new counts_new,
      )

  -- Deleting a process closes its three files.
  pub AreOpen-deleted :
      (p : Process) (a b c : ℕ) (h h' : History T) (flags : List ℕ) (rest : List Process)
      → p.maps_file ≡ some a
      → p.mem_file ≡ some b
      → p.pagemap_fd ≡ pos c
      → ((fd : ℕ)
          → is_open fd h' ≡ (not (c == fd) && (not (b == fd) && (not (a == fd) && is_open fd h))))
      → AreOpen (flags ++ flat_map files_of (p ∷ rest)) h
      → AreOpen (flags ++ flat_map files_of rest) h'
  AreOpen-deleted p a b c h h' flags rest maps mem pagemap closes before fd =
      let here = count-files_of p a b c fd maps mem pagemap in
      let split = count_if-append (λ x. x == fd) flags (flat_map files_of (p ∷ rest)) in
      let split_rest = count_if-append (λ x. x == fd) flags (flat_map files_of rest) in
      let split_here = count_if-append (λ x. x == fd) (files_of p) (flat_map files_of rest) in
      left_count (a == fd) (b == fd) (c == fd) (is_open fd h)
        (count fd (flags ++ flat_map files_of rest))
        (omega (arith, before fd, here, split, split_rest, split_here))
      ∙ ap to_nat (sym (closes fd))
