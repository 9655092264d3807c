-- ===== src/Simi/Order.antt =====
-- Sorted lists of values, and the place where the tree inserts.
use memdump.Base.{
  ap, ap₂, count, suc, ℕ, ◌+◌, ◌≤◌, ◌<◌, ◌≡◌, refl, Bool, ◌||◌, List, [], ◌∷◌, ◌++◌, All, All-split,
  Bool-cases, inl, inr, arith, tests, ltb, ◌==◌, if◌then◌else◌, length, mem, to_nat, count_if,
}

abbrev pub IsSorted : List ℕ → Type 0
IsSorted [] = Unit
IsSorted (x ∷ xs) = All (λ y. x ≤ y) xs × IsSorted xs

-- Insertion behind the values that are not greater.
abbrev pub insert_after : ℕ → List ℕ → List ℕ
insert_after v [] = v ∷ []
insert_after v (x ∷ xs) = if ltb v x then v ∷ (x ∷ xs) else x ∷ insert_after v xs

pub All-le_trans : (a b : ℕ) (xs : List ℕ) → a ≤ b → All (λ y. b ≤ y) xs → All (λ y. a ≤ y) xs
All-le_trans a b [] h k = tt
All-le_trans a b (x ∷ xs) h k = (omega arith, All-le_trans a b xs h k.1)

-- What a sorted list with `x` in it says of its two sides.
pub IsSorted-middle :
    (xs : List ℕ) (x : ℕ) (ys : List ℕ)
    → IsSorted (xs ++ (x ∷ ys))
    → IsSorted xs × All (λ y. y ≤ x) xs × All (λ y. x ≤ y) ys × IsSorted ys
IsSorted-middle [] x ys h = (tt, tt, h.0, h.1)
IsSorted-middle (z ∷ zs) x ys h =
    let (front, below, above, back) = IsSorted-middle zs x ys h.1 in
    let (first, last) = All-split (λ y. z ≤ y) zs (x ∷ ys) h.0 in
    ((first, front), (last.0, below), above, back)

All-insert_after :
    (P : ℕ → Type 0) (v : ℕ) (xs : List ℕ) → P v → All P xs → All P (insert_after v xs)
All-insert_after P v [] h k = (h, tt)
All-insert_after P v (x ∷ xs) h k = elim (Bool-cases (ltb v x)) [
  | inl e ↦ rw e (h, k)
  | inr e ↦ rw e (k.0, All-insert_after P v xs h k.1)
]

pub insert_after-IsSorted : (v : ℕ) (xs : List ℕ) → IsSorted xs → IsSorted (insert_after v xs)
insert_after-IsSorted v [] h = (tt, tt)
insert_after-IsSorted v (x ∷ xs) h = elim (Bool-cases (ltb v x)) [
  | inl e ↦ rw e ((omega tests, All-le_trans v x xs (omega tests) h.0), h)
  | inr e ↦
      rw e (All-insert_after (λ y. x ≤ y) v xs (ground arith) h.0, insert_after-IsSorted v xs h.1)
]

pub length-insert_after : (v : ℕ) (xs : List ℕ) → length (insert_after v xs) ≡ length xs + 1
length-insert_after v [] = refl
length-insert_after v (x ∷ xs) = ground (arith, length-insert_after v xs)

pub count_if-insert_after :
    (p : ℕ → Bool) (v : ℕ) (xs : List ℕ)
    → count_if p (insert_after v xs) ≡ to_nat (p v) + count_if p xs
count_if-insert_after p v [] = refl
count_if-insert_after p v (x ∷ xs) = ground (arith, count_if-insert_after p v xs)

pub mem-insert_after : (w v : ℕ) (xs : List ℕ) → mem w (insert_after v xs) ≡ ((v == w) || mem w xs)
mem-insert_after w v [] = refl
mem-insert_after w v (x ∷ xs) = ground (arith, mem-insert_after w v xs)

-- Behind values that are not greater; before a value that is greater.
pub insert_after-append_right :
    (v x : ℕ) (xs ys : List ℕ)
    → All (λ y. y ≤ x) xs
    → x ≤ v
    → insert_after v (xs ++ (x ∷ ys)) ≡ xs ++ (x ∷ insert_after v ys)
insert_after-append_right v x [] ys h k = ground arith
insert_after-append_right v x (z ∷ zs) ys h k = ground (arith, insert_after-append_right v x zs ys)

pub insert_after-append_left :
    (v x : ℕ) (xs ys : List ℕ)
    → v < x
    → insert_after v (xs ++ (x ∷ ys)) ≡ insert_after v xs ++ (x ∷ ys)
insert_after-append_left v x [] ys k = ground arith
insert_after-append_left v x (z ∷ zs) ys k = ground (arith, insert_after-append_left v x zs ys)

count_head : (x : ℕ) (xs : List ℕ) → 0 < count x (x ∷ xs)
count_head x xs = ground arith

count_low : (v : ℕ) (xs : List ℕ) → All (λ y. suc v ≤ y) xs → count v xs ≡ 0
count_low v [] h = refl
count_low v (x ∷ xs) h = ground (arith, count_low v xs)

-- Sorted lists with the same counts are equal.
pub sorted_ext :
    (xs ys : List ℕ) → IsSorted xs → IsSorted ys → ((v : ℕ) → count v xs ≡ count v ys) → xs ≡ ys
sorted_ext [] [] h k e = refl
sorted_ext [] (y ∷ ys) h k e = absurd (omega (arith, e y, count_head y ys))
sorted_ext (x ∷ xs) [] h k e = absurd (omega (arith, e x, count_head x xs))
sorted_ext (x ∷ xs) (y ∷ ys) h k e =
    let not_lt : ¬ (x < y) = λ lt.
      omega (
        arith,
        e x,
        count_head x xs,
        count_low x (y ∷ ys) (lt, All-le_trans (suc x) y ys lt k.0),
      ) in
    let not_gt : ¬ (y < x) = λ gt.
      omega (
        arith,
        e y,
        count_head y ys,
        count_low y (x ∷ xs) (gt, All-le_trans (suc y) x xs gt h.0),
      ) in
    let same : x ≡ y = omega arith in
    ap₂ ◌∷◌ same
      (sorted_ext xs ys h.1 k.1 (λ v. omega (arith, e v, ap (λ (z : ℕ). to_nat (z == v)) same)))
