-- ===== src/Base/Loop.antt =====
-- The counted loops of the program, `for (i = lo; i < lo + left; i++)`, over an array that the
-- body reads at `i`; a read past the end of the array is a `fault`.
pub mod Laws
pub mod Along
use Prim.Native.Nat.{ℕ, zero, suc, ◌+◌}
use mathlib.Core.List.{List, [], ◌∷◌}
use memdump.Base.Lists.{get_elem?}
use memdump.Base.Outcome.{Run, ok, deref, ◌>>=◌}

module _ {ℓ κ} {A : Type ℓ} {S : Type κ} where
  unfoldable pub for_each : ℕ → ℕ → List A → (ℕ → A → S → Run S) → S → Run S
  for_each zero i xs body s = ok s
  for_each (suc left) i xs body s = do
    x ← deref (get_elem? xs i)
    s' ← body i x s
    for_each left (i + 1) xs body s'

  -- The same loop over the elements themselves.
  abbrev pub fold_run : (A → S → Run S) → List A → S → Run S
  fold_run body [] s = ok s
  fold_run body (x ∷ xs) s = body x s >>= λ s'. fold_run body xs s'

  abbrev pub fold : (A → S → S) → List A → S → S
  fold f [] s = s
  fold f (x ∷ xs) s = fold f xs (f x s)
