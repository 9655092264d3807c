-- ===== src/Simi/Refine.antt =====
-- The functions of jni/simi.c implement multisets: no client of Simi/Clients can tell its sets from
-- bags.
use mathlib.Core.Path.{fun_ext}
use mathlib.Core.Quot
use memdump.Base.{
  ℕ, zero, suc, ◌+◌, ◌≡◌, ◌⊎◌, refl, sym, ap, ap₂, ◌∙◌, Bool, true, not, none, some, List, [], ◌∷◌,
  ◌++◌, All, All-append, map, length, get_elem?, set, count_if, mem, to_nat, ok, fault, ◌==◌, arith,
  inl, inr, Run, Bool-cases, if◌then◌else◌,
}
use memdump.RbTree.{RbTree, values}
use memdump.RbTree.Walk
use memdump.RbTree.Walk.{nodes, for_nodes_lem}
use memdump.Simi.Cursor.{do_while_next_lem}
use memdump.Simi.{
  Set, set_init, set_add, set_in, set_size, set_found_in, set_jaccard, set_print, data_init,
}
use memdump.Simi.Bag
use memdump.Simi.Bag.{Bag}
use memdump.Simi.Clients.{
  Call, new, add_to, ask, size_of, print_of, walk_of, visit, compare_found, compare_jaccard, step,
  answers, bags, sets_of_simi, bag_of,
}
use memdump.Simi.Order.{count_if-insert_after}
use memdump.Simi.Insert.{IsValid, set_init-IsValid, set_add_lem}
use memdump.Simi.Search.{set_in-eq-mem}
use memdump.Simi.Found.{set_found_in_lem, set_jaccard_lem, set_print_lem}

module _ ⦃rb : RbTree⦄ where
  pub bag_of-set_init : bag_of set_init ≡ Bag.empty
  unfolding set_init Bag.empty
  bag_of-set_init = refl

  pub bag_of-set_add :
      (s : Set) (v : ℕ) → IsValid s → bag_of (set_add s (data_init v)) ≡ Bag.put v (bag_of s)
  unfolding data_init Bag.put
  bag_of-set_add s v h =
      ap Quot.mk (set_add_lem s (data_init v) h).1
      ∙ Quot.sound (λ w. count_if-insert_after (λ x. x == w) v (values s.root))

  length-values : (s : Set) → IsValid s → length (values s.root) ≡ Bag.card (bag_of s)
  unfolding Bag.card Bag.count_where
  length-values s h = length-count (values s.root)
    where
      length-count : (xs : List ℕ) → length xs ≡ count_if (λ x. true) xs
      length-count [] = refl
      length-count (x ∷ xs) = omega (arith, length-count xs)

  set_size-bag : (s : Set) → IsValid s → set_size s ≡ Bag.card (bag_of s)
  unfolding set_size
  set_size-bag s h = h.counted ∙ length-values s h

  set_in-bag : (s : Set) (v : ℕ) → IsValid s → set_in s (data_init v) ≡ Bag.contains v (bag_of s)
  unfolding data_init Bag.contains Bag.occurrences Bag.count_where
  set_in-bag s v h = set_in-eq-mem s (data_init v) h ∙ Bag.mem-eq-count v (values s.root)

  -- The test for a stored value, as both sides write it.
  test_of : (xs : List ℕ) → ◌≡◌ {A = ℕ → Bool} (λ v. mem v xs) (λ v. Bag.contains v (Quot.mk xs))
  unfolding Bag.contains Bag.occurrences Bag.count_where
  test_of xs = fun_ext (λ v. Bag.mem-eq-count v xs)

  set_found_in-bag :
      (a b : Set) → IsValid b → set_found_in a b ≡ ok (Bag.found_in (bag_of a) (bag_of b))
  unfolding Bag.found_in Bag.count_where
  set_found_in-bag a b h =
      set_found_in_lem a b h
      ∙ ap (λ (q : ℕ → Bool). ok (count_if q (values a.root))) (test_of (values b.root))

  set_jaccard-bag :
      (a b : Set)
      → IsValid a
      → IsValid b
      → set_jaccard a b ≡ ok (Bag.similarity (bag_of a) (bag_of b))
  unfolding Bag.similarity Bag.found_in Bag.count_where
  set_jaccard-bag a b h k =
      set_jaccard_lem a b h k
      ∙ ap₂
          (λ (q p : ℕ → Bool). ok (
            count_if q (values a.root),
            length (values a.root) + count_if (λ v. not (p v)) (values b.root),
          ))
          (test_of (values b.root)) (test_of (values a.root))
      ∙ ap
          (λ n. ok (
            count_if (λ v. Bag.contains v (bag_of b)) (values a.root),
            n + count_if (λ v. not (Bag.contains v (bag_of a))) (values b.root),
          ))
          (length-values a h)

  set_print-bag : (s : Set) → IsValid s → set_print s ≡ ok (Bag.in_order (bag_of s))
  unfolding Bag.in_order
  set_print-bag s h = set_print_lem s ∙ ap ok (sym (Bag.sort_of_sorted (values s.root) h.ordered))

  walk-bag :
      (s : Set)
      → IsValid s
      → sets_of_simi.walk s
        ≡ (if Bag.card (bag_of s) == 0 then fault else ok (Bag.in_order (bag_of s)))
  unfolding set_print
  walk-bag s h =
      let number : nodes s.root ≡ Bag.card (bag_of s) =
        sym (Walk.length-values s.root) ∙ length-values s h in
      do_while_next_lem s visit []
      ∙ ap (λ (r : Run (List ℕ)). if nodes s.root == 0 then fault else r)
          (sym (for_nodes_lem s.root visit []) ∙ set_print-bag s h)
      ∙ ap (λ n. if n == 0 then fault else ok (Bag.in_order (bag_of s))) number

  at-cases :
      (i : ℕ) (sets : List Set)
      → All IsValid sets
      → ((get_elem? sets i ≡ none) × (get_elem? (map bag_of sets) i ≡ none))
        ⊎ ((s : Set) × (get_elem? sets i ≡ some s)
            × (get_elem? (map bag_of sets) i ≡ some (bag_of s))
            × IsValid s)
  at-cases i [] h = inl (refl, refl)
  at-cases zero (s ∷ sets) h = inr (s, refl, refl, h.0)
  at-cases (suc i) (s ∷ sets) h = at-cases i sets h.1

  map-set :
      (sets : List Set) (i : ℕ) (s : Set)
      → map bag_of (set sets i s) ≡ set (map bag_of sets) i (bag_of s)
  map-set [] i s = refl
  map-set (x ∷ sets) zero s = refl
  map-set (x ∷ sets) (suc i) s = ap (◌∷◌ (bag_of x)) (map-set sets i s)

  map-append :
      (sets : List Set) (s : Set)
      → map bag_of (sets ++ (s ∷ [])) ≡ map bag_of sets ++ (bag_of s ∷ [])
  map-append [] s = refl
  map-append (x ∷ sets) s = ap (◌∷◌ (bag_of x)) (map-append sets s)

  All-set :
      (sets : List Set) (i : ℕ) (s : Set)
      → All IsValid sets
      → IsValid s
      → All IsValid (set sets i s)
  All-set [] i s h k = tt
  All-set (x ∷ sets) zero s h k = (k, h.1)
  All-set (x ∷ sets) (suc i) s h k = (h.0, All-set sets i s h.1 k)

  -- The two sides of a call: both fault, or both answer the same and stay in step.
  abbrev Agrees : Call → List Set → Type 0
  Agrees c sets =
      ((step sets_of_simi c sets ≡ fault) × (step bags c (map bag_of sets) ≡ fault))
      ⊎ ((sets' : List Set) × (out : List ℕ) × (step sets_of_simi c sets ≡ ok (sets', out))
          × (step bags c (map bag_of sets) ≡ ok (map bag_of sets', out))
          × All IsValid sets')

  step-Agrees : (c : Call) (sets : List Set) → All IsValid sets → Agrees c sets
  step-Agrees new sets h = inr (
    sets ++ (set_init ∷ []),
    [],
    refl,
    rw (map-append sets set_init, bag_of-set_init) refl,
    All-append IsValid sets (set_init ∷ []) h (set_init-IsValid, tt),
  )
  step-Agrees (add_to i v) sets h = elim (at-cases i sets h) [
    | inl (e, e') ↦ inl (rw e refl, rw e' refl)
    | inr (s, e, e', k) ↦
        let s' = set_add s (data_init v) in
        inr (
          set sets i s',
          [],
          rw e refl,
          rw (e', map-set sets i s', bag_of-set_add s v k) refl,
          All-set sets i s' h (set_add_lem s (data_init v) k).0,
        )
  ]
  step-Agrees (ask i v) sets h = elim (at-cases i sets h) [
    | inl (e, e') ↦ inl (rw e refl, rw e' refl)
    | inr (s, e, e', k) ↦
        inr
          (sets, to_nat (set_in s (data_init v)) ∷ [], rw e refl, rw (e', set_in-bag s v k) refl, h)
  ]
  step-Agrees (size_of i) sets h = elim (at-cases i sets h) [
    | inl (e, e') ↦ inl (rw e refl, rw e' refl)
    | inr (s, e, e', k) ↦ inr (sets, set_size s ∷ [], rw e refl, rw (e', set_size-bag s k) refl, h)
  ]
  step-Agrees (print_of i) sets h = elim (at-cases i sets h) [
    | inl (e, e') ↦ inl (rw e refl, rw e' refl)
    | inr (s, e, e', k) ↦
        inr (sets, Bag.in_order (bag_of s), rw (e, set_print-bag s k) refl, rw e' refl, h)
  ]
  step-Agrees (walk_of i) sets h = elim (at-cases i sets h) [
    | inl (e, e') ↦ inl (rw e refl, rw e' refl)
    | inr (s, e, e', k) ↦ elim (Bool-cases (Bag.card (bag_of s) == 0)) [
      | inl none_there ↦ inl (rw (e, walk-bag s k, none_there) refl, rw (e', none_there) refl)
      | inr some_there ↦ inr (
        sets,
        Bag.in_order (bag_of s),
        rw (e, walk-bag s k, some_there) refl,
        rw (e', some_there) refl,
        h,
      )
    ]
  ]
  step-Agrees (compare_found i j) sets h = elim (at-cases i sets h) [
    | inl (e, e') ↦ inl (rw e refl, rw e' refl)
    | inr (a, e, e', k) ↦ elim (at-cases j sets h) [
      | inl (f, f') ↦ inl (rw (e, f) refl, rw (e', f') refl)
      | inr (b, f, f', l) ↦ inr (
        sets,
        Bag.found_in (bag_of a) (bag_of b) ∷ [],
        rw (e, f, set_found_in-bag a b l) refl,
        rw (e', f') refl,
        h,
      )
    ]
  ]
  step-Agrees (compare_jaccard i j) sets h = elim (at-cases i sets h) [
    | inl (e, e') ↦ inl (rw e refl, rw e' refl)
    | inr (a, e, e', k) ↦ elim (at-cases j sets h) [
      | inl (f, f') ↦ inl (rw (e, f) refl, rw (e', f') refl)
      | inr (b, f, f', l) ↦
          let (y, all) = Bag.similarity (bag_of a) (bag_of b) in
          inr (sets, y ∷ all ∷ [], rw (e, f, set_jaccard-bag a b k l) refl, rw (e', f') refl, h)
    ]
  ]

  answers_lem :
      (calls : List Call) (sets : List Set)
      → All IsValid sets
      → answers sets_of_simi calls sets ≡ answers bags calls (map bag_of sets)
  answers_lem [] sets h = refl
  answers_lem (c ∷ calls) sets h = elim (step-Agrees c sets h) [
    | inl (e, e') ↦ rw (e, e') refl
    | inr (sets', out, e, e', k) ↦ rw (e, e', answers_lem calls sets' k) refl
  ]

  -- Whatever sequence a client makes of calls of `set_init`, `set_add`, `set_size`, `set_in`,
  -- `set_print`, `set_found_in` and `set_jaccard`, and of loops that run through a set by `set_first`
  -- and `set_next` and read the values, on however many sets, the sizes, the memberships, the values
  -- printed or read, the elements found in another set and the similarities are those of multisets
  -- that forget the order of the additions. Both sides fault in the same calls: on a set that was
  -- never made, and for the loop on an empty set.
  pub answers_of_simi : (calls : List Call) → answers sets_of_simi calls [] ≡ answers bags calls []
  answers_of_simi calls = answers_lem calls [] tt
