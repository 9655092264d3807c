-- ===== src/SetCmp/Distinct.antt =====
-- The set of the distinct candidate pages of a process (`uniq_set_from_proc` of jni/setcmp.c).
use mathlib.Core.Path.{fun_ext}
use native.Mathlib.Decide.{ℕ_discrete}
use memdump.Base.{
  count_if, ℕ, ◌+◌, ◌≡◌, refl, ap, ◌∙◌, Bool, false, not, ◌&&◌, ◌||◌, ◌==◌, List, [], ◌∷◌, arith,
  ok, select, map, count, mem, Bool-cases, inl, inr, to_nat,
}
use memdump.Base.Loop.{fold}
use memdump.Mem.{Page, Process}
use memdump.RbTree.{Data, RbTree, values}
use memdump.Simi.{Set, set_init, set_add, set_size, set_in}
use memdump.Simi.Order.{mem-insert_after, count_if-insert_after}
use memdump.Simi.Insert.{IsValid, set_add_lem, set_init-IsValid}
use memdump.Simi.Search.{set_in-eq-mem}
use memdump.SetCmp.{uniq_set_from_proc}
use memdump.SetCmp.Sets.{
  IsLoaded, all_pages, is_candidate, data_of, uniq_set_from_proc_runs, add_new,
}
use memdump.SetCmp.Content.{hashes_of, values-data_of}

-- How many distinct numbers a list has.
abbrev pub distinct : List ℕ → ℕ
distinct [] = 0
distinct (x ∷ xs) = to_nat (not (mem x xs)) + distinct xs

-- How many of them are new.
abbrev fresh : List ℕ → (ℕ → Bool) → ℕ
fresh [] old = 0
fresh (x ∷ xs) old = to_nat (not (mem x xs || old x)) + fresh xs old

fresh_old :
    (x : ℕ) (xs : List ℕ) (old : ℕ → Bool)
    → fresh xs (λ w. (x == w) || old w) + to_nat (mem x xs && not (old x)) ≡ fresh xs old
fresh_old x [] old = refl
fresh_old x (y ∷ ys) old = ground (arith, fresh_old x ys old)

fresh_none : (xs : List ℕ) → fresh xs (λ w. false) ≡ distinct xs
fresh_none [] = refl
fresh_none (x ∷ xs) = ground (arith, fresh_none xs)

mem-select : (q : ℕ → Bool) (v : ℕ) (xs : List ℕ) → mem v (select q xs) ≡ (q v && mem v xs)
mem-select q v [] = ground arith
mem-select q v (x ∷ xs) = elim (ℕ_discrete x v) [
  | yes e ↦ rw e (ground (arith, mem-select q v xs))
  | no ne ↦ ground (arith, mem-select q v xs)
]

module _ ⦃rb : RbTree⦄ where
  -- One step of the loop.
  add_new_lem :
      (d : Data) (s : Set)
      → IsValid s
      → IsValid (add_new d s)
        × ((add_new d s).size ≡ s.size + to_nat (not (mem d.v (values s.root))))
        × ((v : ℕ) → mem v (values (add_new d s).root) ≡ ((d.v == v) || mem v (values s.root)))
  unfolding set_add
  add_new_lem d s h = elim (Bool-cases (set_in s d)) [
    | inl e ↦
        rw e (h, ground (arith, set_in-eq-mem s d h), λ v. ground (arith, set_in-eq-mem s d h))
    | inr e ↦
        let (valid, added) = set_add_lem s d h in
        rw e (
          valid,
          ground (arith, set_in-eq-mem s d h),
          λ v. ap (mem v) added ∙ mem-insert_after v d.v (values s.root),
        )
  ]

  -- The whole loop.
  fold-add_new :
      (ds : List Data) (s : Set)
      → IsValid s
      → IsValid (fold add_new ds s)
        × ((fold add_new ds s).size
            ≡ s.size + fresh (map (λ (d : Data). d.v) ds) (λ w. mem w (values s.root)))
        × ((v : ℕ)
            → mem v (values (fold add_new ds s).root)
              ≡ (mem v (map (λ (d : Data). d.v) ds) || mem v (values s.root)))
  fold-add_new [] s h = (h, omega arith, λ v. refl)
  fold-add_new (d ∷ ds) s h =
      let (valid, grown, found) = add_new_lem d s h in
      let (valid', sized, found') = fold-add_new ds (add_new d s) valid in
      (
        valid',
        ground (
          arith,
          sized,
          grown,
          ap (fresh (map (λ (d : Data). d.v) ds)) (fun_ext found),
          fresh_old d.v (map (λ (d : Data). d.v) ds) (λ w. mem w (values s.root)),
        ),
        λ v. ground (arith, found v, found' v),
      )

  -- The values that pass a test, after one step and after the whole loop.
  count_if-add_new :
      (q : ℕ → Bool) (d : Data) (s : Set)
      → IsValid s
      → count_if q (values (add_new d s).root)
        ≡ count_if q (values s.root) + to_nat (q d.v && not (mem d.v (values s.root)))
  count_if-add_new q d s h = elim (Bool-cases (set_in s d)) [
    | inl e ↦ rw e (ground (arith, set_in-eq-mem s d h))
    | inr e ↦
        let (valid, added) = set_add_lem s d h in
        rw e (
          ground (
            arith,
            ap (count_if q) added,
            count_if-insert_after q d.v (values s.root),
            set_in-eq-mem s d h,
          ))
  ]

  count_if-fold-add_new :
      (q : ℕ → Bool) (ds : List Data) (s : Set)
      → IsValid s
      → count_if q (values (fold add_new ds s).root)
        ≡ count_if q (values s.root)
          + fresh (select q (map (λ (d : Data). d.v) ds)) (λ w. mem w (values s.root))
  count_if-fold-add_new q [] s h = omega arith
  count_if-fold-add_new q (d ∷ ds) s h =
      let (valid, grown, found) = add_new_lem d s h in
      let rest = select q (map (λ (d : Data). d.v) ds) in
      ground (
        arith,
        count_if-fold-add_new q ds (add_new d s) valid,
        count_if-add_new q d s h,
        ap (fresh rest) (fun_ext found),
        fresh_old d.v rest (λ w. mem w (values s.root)),
        mem-select q d.v (map (λ (d : Data). d.v) ds),
      )

  -- No value is stored twice.
  abbrev pub IsSimple : Set → Type 0
  IsSimple s = (v : ℕ) → count v (values s.root) ≡ to_nat (mem v (values s.root))

  add_new-IsSimple : (d : Data) (s : Set) → IsValid s → IsSimple s → IsSimple (add_new d s)
  add_new-IsSimple d s h k v = elim (Bool-cases (set_in s d)) [
    | inl e ↦ rw e (k v)
    | inr e ↦
        let (valid, added) = set_add_lem s d h in
        rw e (
          ground (
            arith,
            k v,
            ap (mem v) added,
            ap (count v) added,
            mem-insert_after v d.v (values s.root),
            count_if-insert_after (λ x. x == v) d.v (values s.root),
            set_in-eq-mem s d h,
          ))
  ]

  fold-add_new-IsSimple :
      (ds : List Data) (s : Set) → IsValid s → IsSimple s → IsSimple (fold add_new ds s)
  fold-add_new-IsSimple [] s h k = k
  fold-add_new-IsSimple (d ∷ ds) s h k =
      fold-add_new-IsSimple ds (add_new d s) (add_new_lem d s h).0 (add_new-IsSimple d s h k)

  -- What the set of the distinct candidate pages holds.
  pub record IsUnique (zero_page_hash : ℕ) (pages : List Page) (s : Set) : Type 0 where
    pub valid : IsValid s
    pub simple : IsSimple s
    pub sized : set_size s ≡ distinct (hashes_of (select (is_candidate zero_page_hash) pages))
    pub counted :
        (q : ℕ → Bool)
        → count_if q (values s.root)
          ≡ distinct (select q (hashes_of (select (is_candidate zero_page_hash) pages)))
    pub found :
        (v : ℕ)
        → mem v (values s.root) ≡ mem v (hashes_of (select (is_candidate zero_page_hash) pages))

module _ (zero_page_hash : ℕ) ⦃rb : RbTree⦄ where
  -- The set made of the distinct candidate pages.
  pub fold-add_new-IsUnique :
      (all_of : List Page)
      → IsUnique zero_page_hash all_of
          (fold add_new (data_of (select (is_candidate zero_page_hash) all_of)) set_init)
  fold-add_new-IsUnique all_of =
      let pages = select (is_candidate zero_page_hash) all_of in
      let init = set_init-IsValid in
      let (valid, sized, found) = fold-add_new (data_of pages) set_init init in
      let none : IsSimple set_init = unfold set_init in λ v. refl in
      record {
        valid = valid;
        simple = fold-add_new-IsSimple (data_of pages) set_init init none;
        sized =
            unfold set_size set_init in
            omega (
              arith,
              sized,
              fresh_none (map (λ (d : Data). d.v) (data_of pages)),
              ap distinct (values-data_of pages),
            );
        counted = λ q.
            unfold set_init in
            omega (
              arith,
              count_if-fold-add_new q (data_of pages) set_init init,
              fresh_none (select q (map (λ (d : Data). d.v) (data_of pages))),
              ap (λ vs. distinct (select q vs)) (values-data_of pages),
            );
        found = λ v. unfold set_init in ground (arith, found v, ap (mem v) (values-data_of pages));
      }

  -- Where the arrays of the process are as long as its counts say, the loops end with no read out
  -- of range, in a valid set that holds the hash of each page that is neither zero nor shared, no
  -- hash twice, and whose `size` is the number of distinct such hashes.
  pub uniq_set_from_proc_lem :
      (p : Process)
      → IsLoaded p
      → (s : Set) × (uniq_set_from_proc zero_page_hash p ≡ ok s)
        × IsUnique zero_page_hash (all_pages p) s
  uniq_set_from_proc_lem p h = (
    fold add_new (data_of (select (is_candidate zero_page_hash) (all_pages p))) set_init,
    uniq_set_from_proc_runs zero_page_hash p h,
    fold-add_new-IsUnique (all_pages p),
  )
