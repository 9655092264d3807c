-- ===== src/Simi/Shown.antt =====
-- What the sets of jni/simi.c show of themselves, their values in order, and multisets are the same.
use native.Mathlib.Nat.{ℕ_set}
use mathlib.Core.Equiv.{IsEquiv, iso_to_equiv}
use mathlib.Core.HLevel.{Σ_prop_path}
use mathlib.Core.List
use mathlib.Core.Logic.{∥∥₁_elim, ∥∥₁_prop}
use mathlib.Core.Path.{subst}
use mathlib.Core.Quot
use mathlib.Core.Quot.{Quot, Quot-set}
use memdump.Base.{ℕ, ◌+◌, ◌==◌, ◌≡◌, refl, ap, List, [], ◌∷◌, map, count, count_if, to_nat, arith}
use memdump.RbTree.{Data, RbTree, values}
use memdump.Simi.{Set, set_init, set_add, data_init}
use memdump.Simi.Bag
use memdump.Simi.Bag.{Bag, SameItems, sort, sort-IsSorted, sort-SameItems, sort_of_sorted}
use memdump.Simi.Canonical.{add_all, add_all-IsValid, count-add_all}
use memdump.Simi.Insert.{IsValid, set_init-IsValid, set_add_lem}
use memdump.Simi.Order.{sorted_ext}
use memdump.Simi.Refine.{bag_of-set_init, bag_of-set_add}

module _ ⦃rb : RbTree⦄ where
  -- A list of numbers that some valid set holds in this order.
  abbrev pub IsShown : List ℕ → Type 0
  IsShown xs = ∥ ((s : Set) × IsValid s × (values s.root ≡ xs)) ∥₁

  abbrev pub Shown : Type 0
  Shown = (xs : List ℕ) × IsShown xs

  abbrev pub shown_of : (s : Set) → IsValid s → Shown
  shown_of s h = (values s.root, ∣ (s, h, refl) ∣₁)

  -- The multiset that it stands for.
  abbrev pub bag_shown : Shown → Bag
  bag_shown shown = Quot.mk shown.0

  count-data :
      (v : ℕ) (xs : List ℕ) → count_if (λ (d : Data). d.v == v) (map data_init xs) ≡ count v xs
  unfolding data_init
  count-data v [] = refl
  count-data v (x ∷ xs) = ap (λ n. to_nat (x == v) + n) (count-data v xs)

  -- The set that numbers are added to shows them in order.
  values-add_all : (xs : List ℕ) → values (add_all (map data_init xs) set_init).root ≡ sort xs
  unfolding set_init
  values-add_all xs =
      let init = set_init-IsValid in
      sorted_ext _ (sort xs) (add_all-IsValid (map data_init xs) set_init init).ordered
        (sort-IsSorted xs)
        (λ v. omega (
          arith,
          count-add_all v (map data_init xs) set_init init,
          count-data v xs,
          sort-SameItems xs v,
        ))

  sort-IsShown : (xs : List ℕ) → IsShown (sort xs)
  sort-IsShown xs = ∣ (
    add_all (map data_init xs) set_init,
    add_all-IsValid (map data_init xs) set_init set_init-IsValid,
    values-add_all xs,
  ) ∣₁

  sort_of_shown : (xs : List ℕ) → IsShown xs → sort xs ≡ xs
  sort_of_shown xs shown =
      ∥∥₁_elim shown (List.is_set ℕ_set (sort xs) xs)
        (λ (s, h, e). subst (λ xs. sort xs ≡ xs) e (sort_of_sorted (values s.root) h.ordered))

  -- A list that a valid set holds and a multiset determine each other. That of the empty set goes with
  -- the empty multiset, and what `set_add` makes of a set goes with the multiset with the number put
  -- in.
  pub bag_shown-IsEquiv :
      (s : Set) (v : ℕ) (h : IsValid s)
      → IsEquiv bag_shown
        × (bag_shown (shown_of set_init set_init-IsValid) ≡ Bag.empty)
        × (bag_shown (shown_of (set_add s (data_init v)) (set_add_lem s (data_init v) h).0)
            ≡ Bag.put v (bag_shown (shown_of s h)))
  unfolding Bag.in_order
  bag_shown-IsEquiv s v h = (
    (iso_to_equiv (record {
      fun = bag_shown;
      inv = λ bag. (
        Bag.in_order bag,
        Quot.ind {r = SameItems}
            (λ bag. ∥∥₁_prop {A = (s : Set) × IsValid s × (values s.root ≡ Bag.in_order bag)})
            sort-IsShown bag,
      );
      rinv = Quot.ind {r = SameItems} (λ bag. Quot-set _ _) (λ xs. Quot.sound (sort-SameItems xs));
      linv = λ (xs, shown). Σ_prop_path (λ xs. ∥∥₁_prop) (sort_of_shown xs shown);
    })).1,
    bag_of-set_init,
    bag_of-set_add s v h,
  )
