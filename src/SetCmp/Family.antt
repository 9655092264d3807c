-- ===== src/SetCmp/Family.antt =====
-- Arrays of sets that belong to a list of processes or of regions: one set for each element.
use memdump.Base.{ℕ, suc, ◌≡◌, refl, ap, List, [], ◌∷◌, length, All, All₂, map, mem}
use memdump.RbTree.{RbTree, values}
use memdump.Simi.{Set}
use memdump.Simi.Insert.{IsValid}
use memdump.SetCmp.Elsewhere.{occurs_elsewhere, values_of}

module _ {ℓ} {A : Type ℓ} ⦃rb : RbTree⦄ (R : A → Set → Type 0) where
  pub All₂-IsValid :
      ((x : A) (s : Set) → R x s → IsValid s)
      → (xs : List A) (ss : List Set) → All₂ R xs ss
      → All IsValid ss × (length ss ≡ length xs)
  All₂-IsValid valid [] [] h = (tt, refl)
  All₂-IsValid valid [] (s ∷ ss) h = absurd h
  All₂-IsValid valid (x ∷ xs) [] h = absurd h
  All₂-IsValid valid (x ∷ xs) (s ∷ ss) h =
      let (all, same) = All₂-IsValid valid xs ss h.1 in ((valid x s h.0, all), ap suc same)

  -- Looking up in the sets is looking up in the lists of what they hold.
  pub occurs_in_family :
      (held : A → List ℕ)
      → ((x : A) (s : Set) → R x s → (v : ℕ) → mem v (values s.root) ≡ mem v (held x))
      → (this v i : ℕ) (xs : List A) (ss : List Set) → All₂ R xs ss
      → occurs_elsewhere this v i (map values_of ss) ≡ occurs_elsewhere this v i (map held xs)
  occurs_in_family held found this v i [] [] h = refl
  occurs_in_family held found this v i [] (s ∷ ss) h = absurd h
  occurs_in_family held found this v i (x ∷ xs) [] h = absurd h
  occurs_in_family held found this v i (x ∷ xs) (s ∷ ss) h =
      rw (found x s h.0 v, occurs_in_family held found this v (suc i) xs ss h.1)
