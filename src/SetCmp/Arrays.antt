-- ===== src/SetCmp/Arrays.antt =====
-- The arrays `struct Set *set[MAX_PID]` of jni/setcmp.c: filling and freeing them.
use native.Mathlib.Numerals.{add-one}
use memdump.Base.{
  ℕ, zero, suc, ◌+◌, ◌≤◌, ◌≡◌, refl, sym, ap, ◌∙◌, List, [], ◌∷◌, ◌++◌, length, take-length, All,
  All₂, arith, Run, ok, ◌>>=◌, take, drop, append-nil, append_assoc, lt→ltb,
}
use memdump.Base.Loop.{fold_run, for_each}
use memdump.Base.Loop.Laws.{for_each-eq-fold_run, elem_at, drop_split}
use memdump.Mem.{Process}
use memdump.RbTree.{RbTree}
use memdump.Simi.{Set, set_free}
use memdump.Simi.Insert.{IsValid}
use memdump.Simi.Free.{set_free_lem}
use memdump.SetCmp.{max_pid, free_sets, store}
use memdump.SetCmp.Sets.{IsLoaded}

module _ ⦃rb : RbTree⦄ where
  -- Filling `set[MAX_PID]` with a set for each process stays inside the array.
  pub sets_of_lem :
      (R : Process → Set → Type 0) (make : Process → Run Set)
      (all : (p : Process) → IsLoaded p → (s : Set) × (make p ≡ ok s) × R p s) (left i : ℕ)
      (proc : List Process) (sets : List Set)
      → i + left ≤ max_pid
      → i + left ≤ length proc
      → All IsLoaded (take left (drop i proc))
      → (more : List Set) × (for_each left i proc (λ i p sets. make p >>= λ s. store i s sets) sets
          ≡ ok (sets ++ more))
        × All₂ R (take left (drop i proc)) more
  unfolding for_each
  sets_of_lem R make all zero i proc sets small fits h = ([], ap ok (sym (append-nil sets)), tt)
  sets_of_lem R make all (suc left) i proc sets small fits h =
      let (p, e) = elem_at i proc (omega arith) in
      let f = drop_split i proc p e in
      let loaded : IsLoaded p × All IsLoaded (take left (drop (suc i) proc)) = rw f at h in
      let (s, runs, good) = all p loaded.0 in
      let (more, rest, related) =
        sets_of_lem R make all left (suc i) proc (sets ++ (s ∷ [])) (omega arith) (omega arith)
          loaded.1 in
      (
        s ∷ more,
        rw (e, runs, lt→ltb i max_pid (omega arith), add-one)
            (rest ∙ ap ok (append_assoc sets (s ∷ []) more)),
        rw f (good, related),
      )

  free_sets_lem :
      (sets : List Set) (num : ℕ)
      → num ≤ length sets
      → All IsValid (take num sets)
      → free_sets sets num ≡ ok tt
  unfolding free_sets
  free_sets_lem sets num fits h =
      for_each-eq-fold_run _ num 0 sets tt (omega arith) ∙ each (take num sets) h
    where
      each :
          (ss : List Set)
          → All IsValid ss
          → fold_run (λ s (u : Unit {0}). set_free s >>= λ _. ok tt) ss tt ≡ ok tt
      each [] h = refl
      each (s ∷ ss) h = let (freed, frees, perm) = set_free_lem s h.0 in rw frees (each ss h.1)

  -- All sets of an array are freed.
  pub free_all_lem :
      (sets : List Set) (num : ℕ)
      → num ≡ length sets
      → All IsValid sets
      → free_sets sets num ≡ ok tt
  free_all_lem sets num e h =
      rw e (free_sets_lem sets (length sets) (omega arith) (rw take-length h))
