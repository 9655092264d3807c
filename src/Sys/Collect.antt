-- ===== src/Sys/Collect.antt =====
-- Loops that fill an array from the front.
use native.Mathlib.Numerals.{add-one}
use memdump.Base.{
  ℕ, zero, suc, ◌+◌, ◌≤◌, ◌≡◌, refl, sym, ap, ◌∙◌, inl, inr, List, [], ◌∷◌, ◌++◌, length, take,
  drop, map, All₂, ok, arith, append-nil, append_assoc,
}
use memdump.Base.Loop.Laws.{elem_at, drop_split}
use memdump.Sys.{History, Act, act_each}
use memdump.Sys.Ends.{Ends}

module _ {T A B : Type 0} where
  -- A body that makes no call.
  pub act_each-map :
      (f : A → B) (body : ℕ → A → List B → Act T (List B)) (h : History T)
      → ((i : ℕ) (x : A) (out : List B) → body i x out h ≡ (ok (out ++ (f x ∷ [])), h))
      → (left i : ℕ) (xs : List A) (out : List B) → i + left ≤ length xs
      → act_each left i xs body out h ≡ (ok (out ++ map f (take left (drop i xs))), h)
  unfolding act_each
  act_each-map f body h each zero i xs out fits = rw (append-nil out) refl
  act_each-map f body h each (suc left) i xs out fits =
      let (x, at) = elem_at i xs (omega arith) in
      rw (at, each i x out, drop_split i xs x at, add-one)
        (act_each-map f body h each left (suc i) xs (out ++ (f x ∷ [])) (omega arith)
          ∙ ap (λ ys. (ok ys, h)) (append_assoc out (f x ∷ []) _))

  -- One element more, which the loop has made of `x`.
  abbrev pub More :
      (A → B → Type 0) → (List B → History T → Type 0) → List B → A → List B → History T → Type 0
  More R Inv out x out' h = (y : B) × (out' ≡ out ++ (y ∷ [])) × R x y × Inv out' h

  pub act_each-collect :
      (R : A → B → Type 0) (Inv : List B → History T → Type 0) (E : History T → Type 0)
      (body : ℕ → A → List B → Act T (List B))
      → ((i : ℕ) (x : A) (out : List B) (h : History T)
          → Inv out h
          → Ends (More R Inv out x) E (body i x out h))
      → (left i : ℕ) (xs : List A) (out : List B) (h : History T) → i + left ≤ length xs
      → Inv out h
      → Ends
          (λ out' h'.
            (ys : List B) × (out' ≡ out ++ ys) × All₂ R (take left (drop i xs)) ys × Inv out' h')
          E
          (act_each left i xs body out h)
  unfolding act_each
  act_each-collect R Inv E body each zero i xs out h fits inv =
      inl (out, h, refl, ([], sym (append-nil out), tt, inv))
  act_each-collect R Inv E body each (suc left) i xs out h fits inv =
      let (x, at) = elem_at i xs (omega arith) in
      elim (each i x out h inv) [
        | inr (h', stop, e) ↦ inr (h', rw (at, stop) refl, e)
        | inl (out', h', runs, (y, more, r, inv')) ↦
            elim (act_each-collect R Inv E body each left (suc i) xs out' h' (omega arith) inv') [
              | inr (h'', stop, e) ↦ inr (h'', rw (at, runs, add-one) stop, e)
              | inl (out'', h'', rest, (ys, all, rs, inv'')) ↦ inl (
                out'',
                h'',
                rw (at, runs, add-one) rest,
                (
                  y ∷ ys,
                  all ∙ ap (λ o. o ++ ys) more ∙ append_assoc out (y ∷ []) ys,
                  rw (drop_split i xs x at) (r, rs),
                  inv'',
                ),
              )
            ]
      ]
