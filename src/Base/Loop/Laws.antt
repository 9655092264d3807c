-- ===== src/Base/Loop/Laws.antt =====
-- What the counted loops do where the array is long enough.
use Prim.Native.Nat.{ℕ, zero, suc, ◌+◌, ◌≤◌, ◌<◌}
use native.Mathlib.Numerals.{add-one}
use mathlib.Core.Path.{◌≡◌, refl, sym, subst, ap, fun_ext, ◌∙◌}
use mathlib.Core.List.{List, [], ◌∷◌, ◌++◌, map, append-nil, append_assoc}
use mathlib.Core.Option.{some, some-injective}
use native.Mathlib.Omega.{arith}
use native.Mathlib.Decide.{ℕ_discrete}
use mathlib.Core.Logic.{◌⊎◌, inl, inr}
use mathlib.Core.Bool.{Bool}
use memdump.Base.Tests.{if◌then◌else◌}
use memdump.Base.Lists.{flat_map, All, All₂, map_index, count_if, length, get_elem?, take, drop}
use memdump.Base.Outcome.{Run, ok, fault, ◌>>=◌}
use memdump.Base.Loop.{for_each, fold_run, fold}

module _ {ℓ} {A : Type ℓ} where
  pub drop_split :
      (i : ℕ) (xs : List A) (x : A) → get_elem? xs i ≡ some x → drop i xs ≡ x ∷ drop (suc i) xs
  drop_split i [] x e = ground arith
  drop_split zero (y ∷ ys) x e = ground arith
  drop_split (suc i) (y ∷ ys) x e = drop_split i ys x e

  pub elem_at : (i : ℕ) (xs : List A) → i < length xs → (x : A) × (get_elem? xs i ≡ some x)
  elem_at i [] h = absurd (omega arith)
  elem_at zero (x ∷ xs) h = (x, refl)
  elem_at (suc i) (x ∷ xs) h = elem_at i xs (omega arith)

module _ {ℓ κ} {A : Type ℓ} {S : Type κ} where
  pub for_each-eq-fold_run :
      (f : A → S → Run S) (left i : ℕ) (xs : List A) (s : S)
      → i + left ≤ length xs
      → for_each left i xs (λ _. f) s ≡ fold_run f (take left (drop i xs)) s
  unfolding for_each
  for_each-eq-fold_run f zero i xs s h = refl
  for_each-eq-fold_run f (suc left) i xs s h =
      let (x, e) = elem_at i xs (omega arith) in
      rw (e, drop_split i xs x e)
        (ap (λ k. f x s >>= k)
          (fun_ext λ s'. rw add-one (for_each-eq-fold_run f left (suc i) xs s' (omega arith))))

  pub fold_run_pure :
      (f : A → S → Run S) (g : A → S → S)
      → ((x : A) (s : S) → f x s ≡ ok (g x s))
      → (xs : List A) (s : S) → fold_run f xs s ≡ ok (fold g xs s)
  fold_run_pure f g h [] s = refl
  fold_run_pure f g h (x ∷ xs) s = rw (h x s) (fold_run_pure f g h xs (g x s))

  -- A loop whose body cannot fail, over the first `n` elements.
  pub for_each_pure :
      (f : A → S → Run S) (g : A → S → S) (n : ℕ) (xs : List A) (s : S)
      → ((x : A) (s : S) → f x s ≡ ok (g x s))
      → n ≤ length xs
      → for_each n 0 xs (λ _. f) s ≡ ok (fold g (take n xs) s)
  for_each_pure f g n xs s h fits =
      for_each-eq-fold_run f n 0 xs s (omega arith) ∙ fold_run_pure f g h (take n xs) s

  pub fold_run-append :
      (f : A → S → Run S) (xs ys : List A) (s : S)
      → fold_run f (xs ++ ys) s ≡ (fold_run f xs s >>= fold_run f ys)
  fold_run-append f [] ys s = refl
  fold_run-append f (x ∷ xs) ys s = go (f x s) (λ s'. fold_run-append f xs ys s')
    where
      go :
          (r : Run S)
          → ((s' : S) → fold_run f (xs ++ ys) s' ≡ (fold_run f xs s' >>= fold_run f ys))
          → (r >>= fold_run f (xs ++ ys)) ≡ ((r >>= fold_run f xs) >>= fold_run f ys)
      go (ok s') h = h s'
      go Run.exit h = refl
      go Run.fault h = refl

  pub fold-append :
      (f : A → S → S) (xs ys : List A) (s : S) → fold f (xs ++ ys) s ≡ fold f ys (fold f xs s)
  fold-append f [] ys s = refl
  fold-append f (x ∷ xs) ys s = fold-append f xs ys (f x s)

  pub fold_run-map {μ} :
      {B : Type μ} (f : A → S → Run S) (g : B → A) (xs : List B) (s : S)
      → fold_run f (map g xs) s ≡ fold_run (λ x. f (g x)) xs s
  fold_run-map f g [] s = refl
  fold_run-map f g (x ∷ xs) s = ap (λ k. f (g x) s >>= k) (fun_ext λ s'. fold_run-map f g xs s')

module _ {ℓ} {A : Type ℓ} where
  -- A loop that counts what passes a test.
  pub fold_count :
      (p : A → Bool) (xs : List A) (n : ℕ)
      → fold (λ x n. if p x then n + 1 else n) xs n ≡ n + count_if p xs
  fold_count p [] n = omega arith
  fold_count p (x ∷ xs) n = ground (arith, fold_count p xs (if p x then n + 1 else n))

  pub count_if-map {κ} :
      {B : Type κ} (p : A → Bool) (f : B → A) (xs : List B)
      → count_if p (map f xs) ≡ count_if (λ x. p (f x)) xs
  count_if-map p f [] = refl
  count_if-map p f (x ∷ xs) = omega (arith, count_if-map p f xs)

-- A loop that appends one element for each element of an array.
pub collect_lem {ℓ κ} :
    {A : Type ℓ} {B : Type κ} (P : A → Type 0) (f : ℕ → A → Run B) (g : ℕ → A → B)
    → ((i : ℕ) (s : A) → P s → f i s ≡ ok (g i s))
    → (left i : ℕ) (sets : List A) (out : List B) → i + left ≤ length sets
    → All P (take left (drop i sets))
    → for_each left i sets (λ i s out. f i s >>= λ b. ok (out ++ (b ∷ []))) out
      ≡ ok (out ++ map_index g i (take left (drop i sets)))
unfolding for_each
collect_lem P f g all zero i sets out fits h = ap ok (sym (append-nil out))
collect_lem P f g all (suc left) i sets out fits h =
    let (s, e) = elem_at i sets (omega arith) in
    let split = drop_split i sets s e in
    let good : P s × All P (take left (drop (suc i) sets)) = rw split at h in
    let rest = collect_lem P f g all left (suc i) sets (out ++ (g i s ∷ [])) (omega arith) good.1 in
    rw (e, split) (rw (all i s good.0, add-one) (rest ∙ ap ok (append_assoc out (g i s ∷ []) _)))

-- A loop that appends some elements for each of the first `n` elements of an array.
pub flat_map_lem {ℓ κ} :
    {A : Type ℓ} {B : Type κ} (n : ℕ) (xs : List A) (f : ℕ → A → List B → Run (List B))
    (g : A → List B)
    → ((i : ℕ) (x : A) (out : List B)
        → i < n
        → get_elem? xs i ≡ some x
        → f i x out ≡ ok (out ++ g x))
    → n ≤ length xs
    → (left i : ℕ) (out : List B) → i + left ≡ n
    → for_each left i xs f out ≡ ok (out ++ flat_map g (take left (drop i xs)))
unfolding for_each
flat_map_lem n xs f g each fits zero i out e = ap ok (sym (append-nil out))
flat_map_lem n xs f g each fits (suc left) i out e =
    let (x, at) = elem_at i xs (omega arith) in
    let rest = flat_map_lem n xs f g each fits left (suc i) (out ++ g x) (omega arith) in
    rw (at, drop_split i xs x at, each i x out (omega arith) at, add-one)
      (rest ∙ ap ok (append_assoc out (g x) _))

pub map_index_rel {ℓ κ μ} :
    {A : Type ℓ} {B : Type κ} {C : Type μ} (R : A → B → Type 0) (f : ℕ → A → C) (g : ℕ → B → C)
    → ((i : ℕ) (a : A) (b : B) → R a b → g i b ≡ f i a)
    → (i : ℕ) (xs : List A) (ys : List B) → All₂ R xs ys
    → map_index g i ys ≡ map_index f i xs
map_index_rel R f g all i [] [] h = refl
map_index_rel R f g all i [] (y ∷ ys) h = absurd h
map_index_rel R f g all i (x ∷ xs) [] h = absurd h
map_index_rel R f g all i (x ∷ xs) (y ∷ ys) h =
    rw (all i x y h.0, map_index_rel R f g all (suc i) xs ys h.1)

-- A loop whose rounds end in a value or a fault, and in which some round must fault, faults.
pub for_each_faults {ℓ κ} :
    {A : Type ℓ} {S : Type κ} (P Q : A → Type 0) (body : ℕ → A → S → Run S)
    → ((i : ℕ) (x : A) (s : S) → P x → ((s' : S) × (body i x s ≡ ok s')) ⊎ (body i x s ≡ fault))
    → ((i : ℕ) (x : A) (s : S) → P x → Q x → body i x s ≡ fault)
    → (left i j : ℕ) (xs : List A) (x : A) (s : S) → i + left ≤ length xs
    → All P (take left (drop i xs))
    → i ≤ j
    → j < i + left
    → get_elem? xs j ≡ some x
    → Q x
    → for_each left i xs body s ≡ fault
unfolding for_each
for_each_faults P Q body ends bad zero i j xs x s fits h lo hi at q = absurd (omega arith)
for_each_faults P Q body ends bad (suc left) i j xs x s fits h lo hi at q =
    let (y, e) = elem_at i xs (omega arith) in
    let good : P y × All P (take left (drop (suc i) xs)) = rw (drop_split i xs y e) at h in
    elim (ends i y s good.0) [
      | inr stop ↦ rw (e, stop) refl
      | inl (s', go) ↦ elim (ℕ_discrete i j) [
        | yes here ↦
            let same : y ≡ x = some-injective _ _ (sym e ∙ ap (get_elem? xs) here ∙ at) in
            rw e (
              ap (λ r. r >>= λ s'. for_each left (i + 1) xs body s')
                (bad i y s good.0 (subst Q (sym same) q)))
        | no later ↦
            rw (e, go, add-one)
              (for_each_faults P Q body ends bad left (suc i) j xs x s' (omega arith) good.1
                (omega arith) (omega arith) at q)
      ]
    ]
