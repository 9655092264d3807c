-- ===== src/SetCmp/Elsewhere.antt =====
-- `found_in_other_sets` of jni/setcmp.c.
use native.Mathlib.Numerals.{add-one}
use mathlib.Core.Option.{some-injective}
use memdump.Base.{
  ℕ, zero, suc, ◌+◌, ◌≤◌, ◌≡◌, ◌≢◌, ◌↔◌, refl, ap, Bool, true, false, not, ◌&&◌, ◌||◌, ◌==◌, List,
  [], ◌∷◌, length, All, arith, ok, if◌then◌else◌, map, mem, Bool-cases, inl, inr, to_nat, take,
  drop, get_elem?, some, some,
}
use memdump.Base.Loop.Laws.{drop_split, elem_at}
use memdump.RbTree.{Data, RbTree, values}
use memdump.Simi.{Set}
use memdump.Simi.Insert.{IsValid}
use memdump.Simi.Search.{set_in-eq-mem}
use memdump.SetCmp.{found_from, found_in_other_sets}

-- Does a value occur in a list other than number `this`? The first list has number `i`.
abbrev pub occurs_elsewhere : ℕ → ℕ → ℕ → List (List ℕ) → Bool
occurs_elsewhere this v i [] = false
occurs_elsewhere this v i (vs ∷ vss) =
    (not (i == this) && mem v vs) || occurs_elsewhere this v (suc i) vss

abbrev pub values_of : Set → List ℕ
values_of s = values s.root

-- In terms of positions.
pub occurs_elsewhere_iff :
    (this v i : ℕ) (vss : List (List ℕ))
    → (occurs_elsewhere this v i vss ≡ true)
      ↔ ((j : ℕ) × (vs : List ℕ) × (get_elem? vss j ≡ some vs) × (i + j ≢ this) × (mem v vs ≡ true))
occurs_elsewhere_iff this v i [] = (λ e. cc, λ (j, vs, e, ne, m). cc)
occurs_elsewhere_iff this v i (vs ∷ vss) =
    let ih = occurs_elsewhere_iff this v (suc i) vss in (there ih.0, back ih.1)
  where
    Rest : Type 0
    Rest =
        (j : ℕ) × (ws : List ℕ) × (get_elem? vss j ≡ some ws)
        × (suc i + j ≢ this)
        × (mem v ws ≡ true)

    There : Type 0
    There =
        (j : ℕ) × (ws : List ℕ) × (get_elem? (vs ∷ vss) j ≡ some ws)
        × (i + j ≢ this)
        × (mem v ws ≡ true)

    there :
        (occurs_elsewhere this v (suc i) vss ≡ true → Rest)
        → occurs_elsewhere this v i (vs ∷ vss) ≡ true
        → There
    there ih h = elim (Bool-cases (not (i == this) && mem v vs)) [
      | inl e ↦ (zero, vs, refl, (λ q. ground arith), ground arith)
      | inr e ↦
          let (j, ws, at, ne, m) = ih (ground arith) in (suc j, ws, at, (λ q. ne (omega arith)), m)
    ]

    back :
        (Rest → occurs_elsewhere this v (suc i) vss ≡ true)
        → There
        → occurs_elsewhere this v i (vs ∷ vss) ≡ true
    back ih (zero, ws, e, ne, m) = ground (arith, ap (mem v) (some-injective _ _ e))
    back ih (suc j, ws, e, ne, m) =
        let rest = ih (j, ws, e, (λ q. ne (omega arith)), m) in ground arith

module _ ⦃rb : RbTree⦄ where
  pub found_from_lem :
      (left i : ℕ) (set : List Set) (d : Data) (this : ℕ)
      → i + left ≤ length set
      → All IsValid (take left (drop i set))
      → found_from left i set d this
        ≡ ok (to_nat (occurs_elsewhere this d.v i (map values_of (take left (drop i set)))))
  unfolding found_from
  found_from_lem zero i set d this fits h = refl
  found_from_lem (suc left) i set d this fits h =
      let (s, e) = elem_at i set (omega arith) in
      let f = drop_split i set s e in
      let valid : IsValid s × All IsValid (take left (drop (suc i) set)) = rw f at h in
      let ih = found_from_lem left (suc i) set d this (omega arith) valid.1 in
      rw (e, f)
        (rw (add-one, ih, set_in-eq-mem s d valid.0)
          (answer (i == this) (mem d.v (values s.root)) _))
    where
      answer :
          (here found rest : Bool)
          → (if here then ok (to_nat rest) else (if found then ok 1 else ok (to_nat rest)))
            ≡ ok (to_nat ((not here && found) || rest))
      answer here found rest = ground arith

  -- On valid sets the function reads inside the array, ends, and returns 1 if the value is in the
  -- set at some position other than `this`, and 0 if it is in none.
  pub found_in_other_sets_lem :
      (set : List Set) (num : ℕ) (d : Data) (this : ℕ)
      → num ≤ length set
      → All IsValid (take num set)
      → (found : Bool) × (found_in_other_sets set num d this ≡ ok (to_nat found))
        × ((found ≡ true) ↔ (
            (j : ℕ) × (vs : List ℕ) × (get_elem? (map values_of (take num set)) j ≡ some vs)
            × (j ≢ this)
            × (mem d.v vs ≡ true)))
  unfolding found_in_other_sets
  found_in_other_sets_lem set num d this fits h =
      let iff = occurs_elsewhere_iff this d.v 0 (map values_of (take num set)) in
      (
        occurs_elsewhere this d.v 0 (map values_of (take num set)),
        found_from_lem num 0 set d this (omega arith) h,
        (
          (λ e. let (j, vs, at, ne, m) = iff.0 e in (j, vs, at, (λ q. ne (omega arith)), m)),
          λ (j, vs, at, ne, m). iff.1 (j, vs, at, (λ q. ne (omega arith)), m),
        ),
      )
