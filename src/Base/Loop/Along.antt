-- ===== src/Base/Loop/Along.antt =====
-- A loop over an array that is as long as a list, with one result for each element of the list.
use native.Mathlib.Numerals.{add-one}
use Prim.Native.Nat.{ℕ, zero, suc, ◌+◌, ◌≤◌}
use native.Mathlib.Omega.{arith}
use mathlib.Core.Path.{◌≡◌, refl, sym, ap, ◌∙◌}
use mathlib.Core.List.{List, [], ◌∷◌, ◌++◌, map, append-nil, append_assoc}
use mathlib.Core.Option.{some}
use mathlib.Core.Option
use memdump.Base.Lists.{All, All₂, length, get_elem?, map_index, flat_map_index, take, drop}
use memdump.Base.Outcome.{Run, ok}
use memdump.Base.Loop.{for_each}
use memdump.Base.Loop.Laws.{elem_at, drop_split}

module _ {ℓ} {A : Type ℓ} where
  pub drop_all : (i : ℕ) (xs : List A) → length xs ≤ i → drop i xs ≡ []
  drop_all zero [] h = refl
  drop_all zero (x ∷ xs) h = absurd (omega arith)
  drop_all (suc i) [] h = refl
  drop_all (suc i) (x ∷ xs) h = drop_all i xs (omega arith)

  pub All_at :
      (P : A → Type 0) (xs : List A) (i : ℕ) (x : A) → All P xs → get_elem? xs i ≡ some x → P x
  All_at P [] i x h e = cc
  All_at P (x' ∷ xs) zero x h e = rw (← Option.some-injective _ _ e) h.0
  All_at P (x' ∷ xs) (suc i) x h e = All_at P xs i x h.1 e

module _ {ℓ κ} {A : Type ℓ} {B : Type κ} where
  pub All₂-length :
      (R : A → B → Type 0) (xs : List A) (ys : List B) → All₂ R xs ys → length ys ≡ length xs
  All₂-length R [] [] h = refl
  All₂-length R [] (y ∷ ys) h = absurd h
  All₂-length R (x ∷ xs) [] h = absurd h
  All₂-length R (x ∷ xs) (y ∷ ys) h = ap suc (All₂-length R xs ys h.1)

  -- Related lists are related at each index.
  pub All₂_at :
      (R : A → B → Type 0) (xs : List A) (ys : List B) (i : ℕ) (x : A) (y : B)
      → All₂ R xs ys
      → get_elem? xs i ≡ some x
      → get_elem? ys i ≡ some y
      → R x y
  All₂_at R [] ys i x y h e f = cc
  All₂_at R (x' ∷ xs) [] i x y h e f = cc
  All₂_at R (x' ∷ xs) (y' ∷ ys) zero x y h e f =
      rw (← Option.some-injective _ _ e, ← Option.some-injective _ _ f) h.0
  All₂_at R (x' ∷ xs) (y' ∷ ys) (suc i) x y h e f = All₂_at R xs ys i x y h.1 e f

  pub for_each_along {μ} :
      {C : Type μ} (xs : List A) (ys : List B) (f : ℕ → B → List C → Run (List C)) (g : ℕ → A → C)
      → length ys ≡ length xs
      → ((i : ℕ) (x : A) (y : B) (out : List C)
          → get_elem? xs i ≡ some x
          → get_elem? ys i ≡ some y
          → f i y out ≡ ok (out ++ (g i x ∷ [])))
      → (left i : ℕ) (out : List C) → i + left ≡ length xs
      → for_each left i ys f out ≡ ok (out ++ map_index g i (drop i xs))
  unfolding for_each
  for_each_along xs ys f g size each zero i out e =
      rw (drop_all i xs (omega arith)) (ap ok (sym (append-nil out)))
  for_each_along xs ys f g size each (suc left) i out e =
      let (x, here) = elem_at i xs (omega arith) in
      let (y, there) = elem_at i ys (omega arith) in
      rw (there, each i x y out here there, drop_split i xs x here, add-one)
        (for_each_along xs ys f g size each left (suc i) (out ++ (g i x ∷ [])) (omega arith)
          ∙ ap ok (append_assoc out (g i x ∷ []) _))

-- A loop over the elements that appends some results for each.
pub flat_map_index_lem {ℓ κ} :
    {A : Type ℓ} {B : Type κ} (P : A → Type 0) (f : ℕ → A → List B → Run (List B))
    (g : ℕ → A → List B)
    → ((i : ℕ) (x : A) (out : List B) → P x → f i x out ≡ ok (out ++ g i x))
    → (left i : ℕ) (xs : List A) (out : List B) → i + left ≤ length xs
    → All P (take left (drop i xs))
    → for_each left i xs f out ≡ ok (out ++ flat_map_index g i (take left (drop i xs)))
unfolding for_each
flat_map_index_lem P f g each zero i xs out fits h = ap ok (sym (append-nil out))
flat_map_index_lem P f g each (suc left) i xs out fits h =
    let (x, at) = elem_at i xs (omega arith) in
    let split = drop_split i xs x at in
    let good : P x × All P (take left (drop (suc i) xs)) = rw split at h in
    let rest = flat_map_index_lem P f g each left (suc i) xs (out ++ g i x) (omega arith) good.1 in
    rw (at, split) (rw (each i x out good.0, add-one) (rest ∙ ap ok (append_assoc out (g i x) _)))

flat_map_index-map {ℓ κ} :
    {A : Type ℓ} {B : Type κ} (f : A → B) (i : ℕ) (xs : List A)
    → flat_map_index (λ _ x. f x ∷ []) i xs ≡ map f xs
flat_map_index-map f i [] = refl
flat_map_index-map f i (x ∷ xs) = ap (λ ys. f x ∷ ys) (flat_map_index-map f (suc i) xs)

-- A loop that appends one result for each.
pub for_each-map {ℓ κ} :
    {A : Type ℓ} {B : Type κ} (P : A → Type 0) (body : ℕ → A → List B → Run (List B)) (f : A → B)
    → ((i : ℕ) (x : A) (out : List B) → P x → body i x out ≡ ok (out ++ (f x ∷ [])))
    → (left i : ℕ) (xs : List A) (out : List B) → i + left ≤ length xs
    → All P (take left (drop i xs))
    → for_each left i xs body out ≡ ok (out ++ map f (take left (drop i xs)))
for_each-map P body f each left i xs out fits h =
    flat_map_index_lem P body (λ _ x. f x ∷ []) each left i xs out fits h
    ∙ ap (λ ys. ok (out ++ ys)) (flat_map_index-map f i (take left (drop i xs)))
