-- ===== src/SetCmp/Total.antt =====
-- `print_total_dup` of jni/setcmp.c: the distinct pages of each process that another one has too.
pub mod Success
use native.Mathlib.Numerals.{add-one}
use native.Mathlib.Nat.{zero-add}
use memdump.Base.{
  ℕ, zero, suc, ◌+◌, ◌≤◌, ◌≡◌, ◌==◌, refl, sym, ap, ap₂, ◌∙◌, List, [], ◌∷◌, ◌++◌, length, All,
  All₂, take_all, length-take, arith, Run, ok, fault, ◌>>=◌, deref, map, take, drop, select,
  count_if, if◌then◌else◌, append-nil, append_assoc, lt→ltb, get_elem?, some, ◌⊎◌, inl, inr,
  Bool-cases,
}
use mathlib.Core.Option.{some-injective}
use memdump.Base.{true, lt_of_get_elem?, Option-cases}
use memdump.Base.Loop.{for_each}
use memdump.Base.Loop.Laws.{
  for_each_faults, elem_at, drop_split, fold_run_pure, fold_count, count_if-map,
}
use memdump.Mem.{Process}
use memdump.RbTree.{RbTree, values, Data}
use memdump.RbTree.Walk.{nodes, entries, map-entries, length-values}
use memdump.Simi.{Set, set_size}
use memdump.Simi.Insert.{IsValid}
use memdump.Simi.Cursor.{do_while_next_lem}
use memdump.SetCmp.{max_pid, set_from_proc, uniq_set_from_proc, store, found_in_other_sets}
use memdump.SetCmp.Sets.{IsLoaded, all_pages, is_candidate}
use memdump.SetCmp.Content.{set_from_proc_lem, hashes_of, IsContent}
use memdump.SetCmp.Distinct.{uniq_set_from_proc_lem, IsUnique, distinct}
use memdump.SetCmp.Family.{All₂-IsValid}
use memdump.SetCmp.Elsewhere.{occurs_elsewhere, values_of, found_from_lem}
use memdump.SetCmp.Report.{total_body, total_dup, print_total_dup}

-- The distinct hashes of the candidate pages of a process: the entries of `uniq_set[i]`.
abbrev pub candidates : ℕ → Process → ℕ
candidates zero_page_hash p =
    distinct (hashes_of (select (is_candidate zero_page_hash) (all_pages p)))

module _ ⦃rb : RbTree⦄ where
  total_body_lem :
      (us : List Set) (num i : ℕ) (d : Data) (dup : ℕ)
      → num ≡ length us
      → All IsValid us
      → total_body us num i d dup
        ≡ ok (if occurs_elsewhere i d.v 0 (map values_of us) then dup + 1 else dup)
  unfolding total_body found_in_other_sets
  total_body_lem us num i d dup e h =
      let found = found_from_lem num 0 us d i (omega arith) (rw (take_all num us e) h) in
      ground (arith, found, take_all num us e)

  -- On an empty set the first read goes through a wild pointer. On any other the loop visits each
  -- entry once, and counts those that occur in another set.
  pub total_dup_lem :
      (us : List Set) (num i : ℕ) (u : Set)
      → num ≡ length us
      → All IsValid us
      → total_dup us num i u ≡ (
          if nodes u.root == 0
          then fault
          else ok (count_if (λ v. occurs_elsewhere i v 0 (map values_of us)) (values u.root)))
  unfolding total_dup
  total_dup_lem us num i u e h =
      let test = λ (v : ℕ). occurs_elsewhere i v 0 (map values_of us) in
      do_while_next_lem u (total_body us num i) 0
      ∙ ap (λ r. if nodes u.root == 0 then fault else r)
          (fold_run_pure _ (λ d dup. if test d.v then dup + 1 else dup)
              (λ d dup. total_body_lem us num i d dup e h) (entries u.root) 0
            ∙ ap ok (
                fold_count (λ d. test d.v) (entries u.root) 0
                ∙ zero-add _
                ∙ sym (count_if-map test (λ (d : Data). d.v) (entries u.root))
                ∙ ap (count_if test) (map-entries u.root)))

module _ (zero_page_hash : ℕ) ⦃rb : RbTree⦄ where
  abbrev pub Content : Process → Set → Type 0
  Content p s = IsContent zero_page_hash (all_pages p) s

  abbrev pub Unique : Process → Set → Type 0
  Unique p u = IsUnique zero_page_hash (all_pages p) u

  abbrev pub Arrays : Type 0
  Arrays = List Set × List Set

  -- The body of the first loop.
  abbrev pub build : ℕ → Process → Arrays → Run Arrays
  build i p arrays = set_from_proc zero_page_hash p >>= λ s. store i s arrays.0 >>= λ set.
      uniq_set_from_proc zero_page_hash p >>= λ u.
      store i u arrays.1 >>= λ uniq_set. ok (set, uniq_set)

  pub build_lem :
      (left i : ℕ) (proc : List Process) (ss us : List Set)
      → i + left ≤ max_pid
      → i + left ≤ length proc
      → All IsLoaded (take left (drop i proc))
      → (ss' us' : List Set) × (for_each left i proc build (ss, us) ≡ ok (ss ++ ss', us ++ us'))
        × All₂ Content (take left (drop i proc)) ss'
        × All₂ Unique (take left (drop i proc)) us'
  unfolding for_each
  build_lem zero i proc ss us small fits h = (
    [],
    [],
    ap ok (ap₂ (λ (xs ys : List Set). (xs, ys)) (sym (append-nil ss)) (sym (append-nil us))),
    tt,
    tt,
  )
  build_lem (suc left) i proc ss us small fits h =
      let (p, e) = elem_at i proc (omega arith) in
      let f = drop_split i proc p e in
      let loaded : IsLoaded p × All IsLoaded (take left (drop (suc i) proc)) = rw f at h in
      let (s, runs, content) = set_from_proc_lem zero_page_hash p loaded.0 in
      let (u, runs', unique) = uniq_set_from_proc_lem zero_page_hash p loaded.0 in
      let (ss', us', rest, contents, uniques) =
        build_lem left (suc i) proc (ss ++ (s ∷ [])) (us ++ (u ∷ [])) (omega arith) (omega arith)
          loaded.1 in
      (
        s ∷ ss',
        u ∷ us',
        rw (e, runs, lt→ltb i max_pid (omega arith), runs', add-one)
            (rest
              ∙ ap ok (
                  ap₂ (λ (xs ys : List Set). (xs, ys)) (append_assoc ss (s ∷ []) ss')
                    (append_assoc us (u ∷ []) us'))),
        rw f (content, contents),
        rw f (unique, uniques),
      )

  pub Unique-IsValid :
      (ps : List Process) (us : List Set)
      → All₂ Unique ps us
      → All IsValid us × (length us ≡ length ps)
  Unique-IsValid = All₂-IsValid Unique (λ p u h. h.valid)

  -- A process with no candidate page has an empty set.
  Unique-empty :
      (ps : List Process) (us : List Set) (j : ℕ) (p : Process)
      → All₂ Unique ps us
      → get_elem? ps j ≡ some p
      → candidates zero_page_hash p ≡ 0
      → (u : Set) × (get_elem? us j ≡ some u) × (nodes u.root ≡ 0)
  unfolding set_size
  Unique-empty [] us j p h e none = cc
  Unique-empty (q ∷ ps) [] j p h e none = absurd h
  Unique-empty (q ∷ ps) (u ∷ us) zero p h e none = (
    u,
    refl,
    omega (
      arith,
      h.0.sized,
      h.0.valid.counted,
      length-values u.root,
      ap (candidates zero_page_hash) (some-injective _ _ e),
    ),
  )
  Unique-empty (q ∷ ps) (u ∷ us) (suc j) p h e none = Unique-empty ps us j p h.1 e none

  -- The body of the second loop.
  abbrev pub line : List Set → List Set → ℕ → ℕ → Set → List (ℕ × ℕ) → Run (List (ℕ × ℕ))
  line ss us num i u out = total_dup us num i u >>= λ dup.
      deref (get_elem? ss i) >>= λ s. ok (out ++ ((dup, set_size s) ∷ []))

  -- A round ends in a value or a fault.
  line_ends :
      (ss us : List Set) (num i : ℕ) (u : Set) (out : List (ℕ × ℕ))
      → num ≡ length us
      → All IsValid us
      → ((out' : List (ℕ × ℕ)) × (line ss us num i u out ≡ ok out'))
        ⊎ (line ss us num i u out ≡ fault)
  line_ends ss us num i u out size valid = elim (Bool-cases (nodes u.root == 0)) [
    | inl e ↦ inr (rw (total_dup_lem us num i u size valid, e) refl)
    | inr e ↦ elim (Option-cases (get_elem? ss i)) [
      | inl none_there ↦ inr (rw (total_dup_lem us num i u size valid, e, none_there) refl)
      | inr (s, there) ↦ inl (
        out
            ++ ((
              count_if (λ v. occurs_elsewhere i v 0 (map values_of us)) (values u.root),
              set_size s,
            )
                ∷ []),
        rw (total_dup_lem us num i u size valid, e, there) refl,
      )
    ]
  ]

  second :
      (ss us : List Set) (num j : ℕ) (u : Set)
      → num ≡ length us
      → All IsValid us
      → get_elem? us j ≡ some u
      → nodes u.root ≡ 0
      → for_each num 0 us (line ss us num) [] ≡ fault
  second ss us num j u size valid at empty =
      for_each_faults IsValid (λ (u : Set). nodes u.root ≡ 0) (line ss us num)
        (λ i v out _. line_ends ss us num i v out size valid)
        (λ i v out _ q.
          let zero_nodes : (nodes v.root == 0) ≡ true = ground arith in
          rw (total_dup_lem us num i v size valid, zero_nodes) refl)
        num 0 j us u [] (omega arith) (rw (take_all num us size) valid) (omega arith)
        (omega (arith, lt_of_get_elem? us j at)) at empty

  -- For at most `MAX_PID` loaded processes, if one of them has no page that is neither zero nor
  -- shared, the report reads through a wild pointer.
  pub print_total_dup_fault :
      (proc : List Process) (num j : ℕ) (p : Process)
      → num ≤ max_pid
      → num ≤ length proc
      → All IsLoaded (take num proc)
      → get_elem? (take num proc) j ≡ some p
      → candidates zero_page_hash p ≡ 0
      → print_total_dup zero_page_hash proc num ≡ fault
  unfolding print_total_dup
  print_total_dup_fault proc num j p small fits h at none =
      let (ss, us, runs, contents, uniques) =
        build_lem num 0 proc [] [] (omega arith) (omega arith) h in
      let (valid, same) = Unique-IsValid (take num proc) us uniques in
      let size : num ≡ length us = sym (same ∙ length-take num proc fits) in
      let (u, here, empty) = Unique-empty (take num proc) us j p uniques at none in
      rw runs (second ss us num j u size valid here empty)
