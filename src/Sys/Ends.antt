-- ===== src/Sys/Ends.antt =====
-- How a run ends: never in a fault, and with what holds of its value and of the history.
use native.Mathlib.Numerals.{add-one}
use mathlib.Core.Path.{subst}
use memdump.Base.{
  ℕ, zero, suc, ◌+◌, ◌<◌, ◌≤◌, ◌≡◌, refl, ◌⊎◌, inl, inr, List, length, get_elem?, some, Run, ok,
  exit, arith,
}
use memdump.Base.Loop.Laws.{elem_at}
use memdump.Sys.{History, Act, and_then, act_each}

module _ {T : Type 0} where
  -- The run returns with `P`, or exits with `E`.
  abbrev pub Ends {ℓ} :
      {A : Type ℓ} → (A → History T → Type ℓ) → (History T → Type ℓ) → Run A × History T → Type ℓ
  Ends {A} P E r =
      ((a : A) × (h : History T) × (r ≡ (ok a, h)) × P a h)
      ⊎ ((h : History T) × (r ≡ (exit, h)) × E h)

  pub Ends-bind {ℓ} :
      {A B : Type ℓ} {P : A → History T → Type ℓ} {Q : B → History T → Type ℓ}
      {E : History T → Type ℓ} (m : Act T A) (next : A → Act T B) (h : History T)
      → Ends P E (m h)
      → ((a : A) (h' : History T) → P a h' → Ends Q E (next a h'))
      → Ends Q E (and_then (m h) next)
  Ends-bind m next h (inl (a, h', e, p)) k = rw e (k a h' p)
  Ends-bind m next h (inr (h', e, x)) k = inr (h', rw e refl, x)

  pub Ends-imp {ℓ} :
      {A : Type ℓ} {P Q : A → History T → Type ℓ} {E F : History T → Type ℓ} (r : Run A × History T)
      → ((a : A) (h : History T) → P a h → Q a h)
      → ((h : History T) → E h → F h)
      → Ends P E r
      → Ends Q F r
  Ends-imp r f g (inl (a, h, e, p)) = inl (a, h, e, f a h p)
  Ends-imp r f g (inr (h, e, x)) = inr (h, e, g h x)

  -- An invariant of a loop, by its index.
  pub act_each-Ends {ℓ} :
      {A S : Type ℓ} (Inv : ℕ → S → History T → Type ℓ) (E : History T → Type ℓ) (xs : List A)
      (body : ℕ → A → S → Act T S) (n : ℕ)
      → n ≤ length xs
      → ((i : ℕ) (x : A) (s : S) (h : History T)
          → i < n
          → get_elem? xs i ≡ some x
          → Inv i s h
          → Ends (Inv (suc i)) E (body i x s h))
      → (left i : ℕ) (s : S) (h : History T) → i + left ≡ n
      → Inv i s h
      → Ends (Inv n) E (act_each left i xs body s h)
  unfolding act_each
  act_each-Ends Inv E xs body n fits each zero i s h e inv =
      inl (s, h, refl, subst (λ j. Inv j s h) (omega arith) inv)
  act_each-Ends Inv E xs body n fits each (suc left) i s h e inv =
      let (x, at) = elem_at i xs (omega arith) in
      rw (at, add-one)
        (Ends-bind {P = Inv (suc i)} {Q = Inv n} {E = E} (body i x s)
          (λ s'. act_each left (suc i) xs body s') h (each i x s h (omega arith) at inv)
          (λ s' h' inv'.
            act_each-Ends Inv E xs body n fits each left (suc i) s' h' (omega arith) inv'))

-- A run ends in one way.
module _ {ℓ} {T : Type 0} {A : Type ℓ} where
  pub ended : (a : A) (h k : History T) → ◌≡◌ {A = Run A × History T} (ok a, h) (exit, k) → ⊥
  ended a h k e = cc e

  pub same_value :
      (a b : A) (h k : History T) → ◌≡◌ {A = Run A × History T} (ok a, h) (ok b, k) → a ≡ b
  same_value a b h k e = cc

  pub same_end : (h k : History T) → ◌≡◌ {A = Run A × History T} (exit, h) (exit, k) → h ≡ k
  same_end h k e = cc
