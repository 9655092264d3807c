-- ===== src/Cmp/Sort.antt =====
-- `comp_redunds` of jni/cmp.c is a comparison that `qsort` takes, and sorting by insertion meets
-- what is asked of `qsort`.
use memdump.Base.{
  ℕ, ◌≤◌, ◌≡◌, ◌⊎◌, inl, inr, refl, Bool, true, false, List, [], ◌∷◌, count_if, All, All-imp, arith,
  if◌then◌else◌, Bool-cases, select, map,
}
use memdump.Base.Int.{ℤ, pos, le_int}
use memdump.Simi.Order.{IsSorted}
use memdump.Cmp.{Redund, comp_redunds, IsConsistent, IsSortedBy, Qsort}

pub comp_redunds-le : (a b : Redund) → le_int (comp_redunds a b) (pos 0) ≡ true → a.dup ≤ b.dup
unfolding comp_redunds
comp_redunds-le a b h = ground arith

le-comp_redunds : (a b : Redund) → a.dup ≤ b.dup → le_int (comp_redunds a b) (pos 0) ≡ true
unfolding comp_redunds
le-comp_redunds a b h = ground arith

le_total : (a b : ℕ) → (a ≤ b) ⊎ (b ≤ a)
le_total a b = ground arith

pub comp_redunds-IsConsistent : IsConsistent comp_redunds
comp_redunds-IsConsistent = record {
  total = λ a b. elim (le_total a.dup b.dup) [
    | inl h ↦ inl (le-comp_redunds a b h)
    | inr h ↦ inr (le-comp_redunds b a h)
  ];
  transitive = λ a b c h k.
      let h' = comp_redunds-le a b h in
      let k' = comp_redunds-le b c k in le-comp_redunds a c (omega arith);
}

All-select {ℓ} :
    {A : Type ℓ} (P : A → Type 0) (p : A → Bool) (xs : List A) → All P xs → All P (select p xs)
All-select P p [] h = tt
All-select P p (x ∷ xs) h = elim (Bool-cases (p x)) [
  | inl e ↦ rw e (h.0, All-select P p xs h.1)
  | inr e ↦ rw e (All-select P p xs h.1)
]

pub select-IsSortedBy {ℓ} :
    {A : Type ℓ} (compar : A → A → ℤ) (p : A → Bool) (xs : List A)
    → IsSortedBy compar xs
    → IsSortedBy compar (select p xs)
select-IsSortedBy compar p [] h = tt
select-IsSortedBy compar p (x ∷ xs) h = elim (Bool-cases (p x)) [
  | inl e ↦ rw e (All-select _ p xs h.0, select-IsSortedBy compar p xs h.1)
  | inr e ↦ rw e (select-IsSortedBy compar p xs h.1)
]

-- In ascending order of `dup`.
pub dup-IsSorted :
    (rs : List Redund) → IsSortedBy comp_redunds rs → IsSorted (map (λ (r : Redund). r.dup) rs)
dup-IsSorted [] h = tt
dup-IsSorted (r ∷ rs) h = (below rs h.0, dup-IsSorted rs h.1)
  where
    below :
        (rs : List Redund)
        → All (λ s. le_int (comp_redunds r s) (pos 0) ≡ true) rs
        → All (λ n. r.dup ≤ n) (map (λ (r : Redund). r.dup) rs)
    below [] h = tt
    below (s ∷ rs) h = (comp_redunds-le r s h.0, below rs h.1)

module _ {ℓ} {A : Type ℓ} (compar : A → A → ℤ) where
  abbrev insert : A → List A → List A
  insert x [] = x ∷ []
  insert x (y ∷ ys) = if le_int (compar x y) (pos 0) then x ∷ (y ∷ ys) else y ∷ insert x ys

  abbrev sort : List A → List A
  sort [] = []
  sort (x ∷ xs) = insert x (sort xs)

  count_if-insert :
      (p : A → Bool) (x : A) (xs : List A) → count_if p (insert x xs) ≡ count_if p (x ∷ xs)
  count_if-insert p x [] = refl
  count_if-insert p x (y ∷ ys) = ground (arith, count_if-insert p x ys)

  pub count_if-sort : (p : A → Bool) (xs : List A) → count_if p (sort xs) ≡ count_if p xs
  count_if-sort p [] = refl
  count_if-sort p (x ∷ xs) = omega (arith, count_if-insert p x (sort xs), count_if-sort p xs)

  All-insert : (P : A → Type 0) (x : A) (xs : List A) → P x → All P xs → All P (insert x xs)
  All-insert P x [] h k = (h, tt)
  All-insert P x (y ∷ ys) h k = elim (Bool-cases (le_int (compar x y) (pos 0))) [
    | inl e ↦ rw e (h, k)
    | inr e ↦ rw e (k.0, All-insert P x ys h k.1)
  ]

  insert-IsSortedBy :
      (x : A) (xs : List A)
      → IsConsistent compar
      → IsSortedBy compar xs
      → IsSortedBy compar (insert x xs)
  insert-IsSortedBy x [] c h = (tt, tt)
  insert-IsSortedBy x (y ∷ ys) c h = elim (Bool-cases (le_int (compar x y) (pos 0))) [
    | inl e ↦ rw e ((e, All-imp (λ z. c.transitive x y z e) ys h.0), h)
    | inr e ↦ rw e (All-insert _ x ys (other y (c.total x y) e) h.0, insert-IsSortedBy x ys c h.1)
  ]
    where
      other :
          (y : A)
          → (le_int (compar x y) (pos 0) ≡ true) ⊎ (le_int (compar y x) (pos 0) ≡ true)
          → le_int (compar x y) (pos 0) ≡ false
          → le_int (compar y x) (pos 0) ≡ true
      other y (inl h) e = cc
      other y (inr h) e = h

  pub sort-IsSortedBy : (xs : List A) → IsConsistent compar → IsSortedBy compar (sort xs)
  sort-IsSortedBy [] c = tt
  sort-IsSortedBy (x ∷ xs) c = insert-IsSortedBy x (sort xs) c (sort-IsSortedBy xs c)

instance abbrev pub insertion {ℓ} : {A : Type ℓ} → Qsort A
insertion = record {
  qsort = sort;
  qsort_count_if = λ compar p xs c. count_if-sort compar p xs;
  qsort_sorted = λ compar xs c. sort-IsSortedBy compar xs c;
}
