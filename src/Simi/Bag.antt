-- ===== src/Simi/Bag.antt =====
-- What jni/simi.h promises of a set, "this is not a set! this is a multi set": numbers with how
-- often each is there, in no order.
use native.Mathlib.Nat.{ℕ_set}
use mathlib.Core.List
use mathlib.Core.Quot
use mathlib.Core.Quot.{Quot, Quot-set}
use memdump.Simi.Order.{
  IsSorted, insert_after, insert_after-IsSorted, count_if-insert_after, sorted_ext,
}
use memdump.Base.{
  ℕ, ◌+◌, ◌<◌, ◌≡◌, ◌==◌, ltb, refl, sym, ◌∙◌, ap, Bool, true, not, List, [], ◌∷◌, count, count_if,
  mem, to_nat, arith, if◌then◌else◌, Bool-cases, inl, inr, ==_iff,
}

-- Two lists hold the same numbers, each as often.
abbrev pub SameItems : List ℕ → List ℕ → Type 0
SameItems xs ys = (v : ℕ) → count v xs ≡ count v ys

abbrev pub Bag : Type 0
Bag = Quot SameItems

-- A list without the first occurrence of a number.
abbrev without : ℕ → List ℕ → List ℕ
without v [] = []
without v (x ∷ xs) = if x == v then xs else x ∷ without v xs

count_if-without :
    (q : ℕ → Bool) (v : ℕ) (xs : List ℕ)
    → 0 < count v xs
    → count_if q xs ≡ to_nat (q v) + count_if q (without v xs)
count_if-without q v [] h = absurd (omega arith)
count_if-without q v (x ∷ xs) h = elim (Bool-cases (x == v)) [
  | inl e ↦ rw (e, (==_iff x v).0 e) refl
  | inr e ↦
      let none_here : to_nat (x == v) ≡ 0 = ap to_nat e in
      let there : 0 < count v xs = omega arith in
      rw e (omega (arith, count_if-without q v xs there))
]

pub count_if-SameItems :
    (q : ℕ → Bool) (xs ys : List ℕ) → SameItems xs ys → count_if q xs ≡ count_if q ys
count_if-SameItems q [] [] h = refl
count_if-SameItems q [] (y ∷ ys) h = absurd (ground (arith, h y))
count_if-SameItems q (x ∷ xs) ys h =
    let self : (x == x) ≡ true = ground arith in
    let there : 0 < count x ys = omega (arith, h x, ap to_nat self) in
    let same : SameItems xs (without x ys) =
      λ v. omega (arith, h v, count_if-without (λ y. y == v) x ys there) in
    omega (arith, count_if-SameItems q xs (without x ys) same, count_if-without q x ys there)

unfoldable pub empty : Bag
empty = Quot.mk []

unfoldable pub put : ℕ → Bag → Bag
put v =
    Quot.lift Quot-set (λ items. Quot.mk (v ∷ items))
      (λ items others same. Quot.sound (λ w. ap (λ n. to_nat (v == w) + n) (same w)))

unfoldable pub count_where : (ℕ → Bool) → Bag → ℕ
count_where q = Quot.lift ℕ_set (count_if q) (λ xs ys h. count_if-SameItems q xs ys h)

unfoldable pub occurrences : ℕ → Bag → ℕ
unfolding count_where
occurrences v = count_where (λ x. x == v)

unfoldable pub contains : ℕ → Bag → Bool
unfolding occurrences
contains v b = ltb 0 (occurrences v b)

unfoldable pub card : Bag → ℕ
unfolding count_where
card = count_where (λ x. true)

-- How many elements of `a` can be found in `b`.
unfoldable pub found_in : Bag → Bag → ℕ
unfolding count_where contains
found_in a b = count_where (λ v. contains v b) a

-- The numerator of the similarity, and its denominator.
unfoldable pub similarity : Bag → Bag → ℕ × ℕ
unfolding found_in card
similarity a b = (found_in a b, card a + count_where (λ v. not (contains v a)) b)

SameItems-swap : (v w : ℕ) (items : List ℕ) → SameItems (v ∷ w ∷ items) (w ∷ v ∷ items)
SameItems-swap v w items u = omega arith

-- Which of two numbers is put in first leaves no trace.
pub put-put : (v w : ℕ) (bag : Bag) → put v (put w bag) ≡ put w (put v bag)
unfolding put
put-put v w = Quot.ind (λ bag. Quot-set _ _) (λ items. Quot.sound (SameItems-swap v w items))

pub mem-eq-count : (v : ℕ) (xs : List ℕ) → mem v xs ≡ ltb 0 (count v xs)
mem-eq-count v [] = refl
mem-eq-count v (x ∷ xs) = ground (arith, mem-eq-count v xs)

-- The items in order.
abbrev pub sort : List ℕ → List ℕ
sort [] = []
sort (x ∷ xs) = insert_after x (sort xs)

pub sort-IsSorted : (xs : List ℕ) → IsSorted (sort xs)
sort-IsSorted [] = tt
sort-IsSorted (x ∷ xs) = insert_after-IsSorted x (sort xs) (sort-IsSorted xs)

pub sort-SameItems : (xs : List ℕ) → SameItems (sort xs) xs
sort-SameItems [] v = refl
sort-SameItems (x ∷ xs) v =
    omega (arith, count_if-insert_after (λ y. y == v) x (sort xs), sort-SameItems xs v)

pub sort_respects : (xs ys : List ℕ) → SameItems xs ys → sort xs ≡ sort ys
sort_respects xs ys same =
    sorted_ext (sort xs) (sort ys) (sort-IsSorted xs) (sort-IsSorted ys)
      (λ v. sort-SameItems xs v ∙ same v ∙ sym (sort-SameItems ys v))

pub sort_of_sorted : (xs : List ℕ) → IsSorted xs → sort xs ≡ xs
sort_of_sorted xs h = sorted_ext (sort xs) xs (sort-IsSorted xs) h (sort-SameItems xs)

unfoldable pub in_order : Bag → List ℕ
in_order = Quot.lift (List.is_set ℕ_set) sort sort_respects
