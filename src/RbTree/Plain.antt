-- ===== src/RbTree/Plain.antt =====
-- A search tree that does not rebalance. It shows that the laws of `RbTree` can be met, and runs
-- in the tests.
use mathlib.Core.Path.{subst}
use mathlib.Core.Option.{some-injective}
use memdump.Base.{
  ℕ, zero, suc, ◌≡◌, refl, sym, ap, ◌∙◌, Bool, true, false, ◌&&◌, Option, none, some, List, [], ◌∷◌,
  ◌++◌, map, append_assoc, get_elem?, head?, All-append, All, if◌then◌else◌,
}
use memdump.RbTree.{Tree, leaf, node, Dir, left, right, values, paths, values_without, RbTree}

-- Joins the two subtrees of an erased node: the right one goes below the last entry of the left.
abbrev pub join : Tree → Tree → Tree
join leaf u = u
join (node c l d r) u = node c l d (join r u)

abbrev pub erase_at : List Dir → Tree → Tree
erase_at p leaf = leaf
erase_at [] (node c l d r) = join l r
erase_at (left ∷ p) (node c l d r) = node c (erase_at p l) d r
erase_at (right ∷ p) (node c l d r) = node c l d (erase_at p r)

values-join : (t u : Tree) → values (join t u) ≡ values t ++ values u
values-join leaf u = refl
values-join (node c l d r) u =
    ap (λ (xs : List ℕ). values l ++ (d.v ∷ xs)) (values-join r u)
    ∙ sym (append_assoc (values l) _ _)

pub values-erase_at : (p : List Dir) (t : Tree) → values (erase_at p t) ≡ values_without p t
values-erase_at p leaf = refl
values-erase_at [] (node c l d r) = values-join l r
values-erase_at (left ∷ p) (node c l d r) = rw (values-erase_at p l)
values-erase_at (right ∷ p) (node c l d r) = rw (values-erase_at p r)

abbrev pub dir_eq : Dir → Dir → Bool
dir_eq left left = true
dir_eq right right = true
dir_eq _ _ = false

abbrev pub path_eq : List Dir → List Dir → Bool
path_eq [] [] = true
path_eq (a ∷ p) (b ∷ q) = dir_eq a b && path_eq p q
path_eq _ _ = false

-- The pointer after `p` in a list.
abbrev pub after : List Dir → List (List Dir) → Option (List Dir)
after p [] = none
after p (q ∷ qs) = if path_eq q p then head? qs else after p qs

abbrev pub Differs : List Dir → List Dir → Type 0
Differs p q = path_eq p q ≡ false

abbrev pub Distinct : List (List Dir) → Type 0
Distinct [] = Unit
Distinct (p ∷ ps) = All (Differs p) ps × Distinct ps

path_eq_refl : (p : List Dir) → path_eq p p ≡ true
path_eq_refl [] = refl
path_eq_refl (left ∷ p) = path_eq_refl p
path_eq_refl (right ∷ p) = path_eq_refl p

All-get {ℓ} :
    {A : Type ℓ} (P : A → Type 0) (xs : List A) (i : ℕ) {x : A}
    → All P xs
    → get_elem? xs i ≡ some x
    → P x
All-get P [] i h e = cc
All-get P (y ∷ ys) zero h e = subst P (some-injective _ _ e) h.0
All-get P (y ∷ ys) (suc i) h e = All-get P ys i h.1 e

All-map :
    (P Q : List Dir → Type 0) (d : Dir) (xs : List (List Dir))
    → ((x : List Dir) → P x → Q (d ∷ x))
    → All P xs
    → All Q (map (◌∷◌ d) xs)
All-map P Q d [] f h = tt
All-map P Q d (x ∷ xs) f h = (f x h.0, All-map P Q d xs f h.1)

pub after_lem :
    (ps : List (List Dir)) (i : ℕ) (p : List Dir)
    → Distinct ps
    → get_elem? ps i ≡ some p
    → after p ps ≡ get_elem? ps (suc i)
after_lem [] i p h e = cc
after_lem (q ∷ []) zero p h e = let e' : q ≡ p = some-injective _ _ e in rw (e', path_eq_refl p)
after_lem (q ∷ r ∷ qs) zero p h e = let e' : q ≡ p = some-injective _ _ e in rw (e', path_eq_refl p)
after_lem (q ∷ qs) (suc i) p h e = rw (All-get (Differs q) qs i h.0 e) (after_lem qs i p h.1 e)

Distinct-append :
    (ps qs : List (List Dir))
    → Distinct ps
    → Distinct qs
    → All (λ p. All (Differs p) qs) ps
    → Distinct (ps ++ qs)
Distinct-append [] qs h k c = k
Distinct-append (p ∷ ps) qs h k c =
    (All-append (Differs p) ps qs h.0 c.0, Distinct-append ps qs h.1 k c.1)

Distinct-map : (d : Dir) (ps : List (List Dir)) → Distinct ps → Distinct (map (◌∷◌ d) ps)
Distinct-map d [] h = tt
Distinct-map left (p ∷ ps) h =
    (All-map (Differs p) (Differs (left ∷ p)) left ps (λ x e. e) h.0, Distinct-map left ps h.1)
Distinct-map right (p ∷ ps) h =
    (All-map (Differs p) (Differs (right ∷ p)) right ps (λ x e. e) h.0, Distinct-map right ps h.1)

All-tt : (xs : List (List Dir)) → All (λ _. Unit {0}) xs
All-tt [] = tt
All-tt (x ∷ xs) = (tt, All-tt xs)

pub paths-Distinct : (t : Tree) → Distinct (paths t)
paths-Distinct leaf = tt
paths-Distinct (node c l d r) =
    Distinct-append (map (◌∷◌ left) (paths l)) ([] ∷ map (◌∷◌ right) (paths r))
      (Distinct-map left (paths l) (paths-Distinct l))
      (
        All-map (λ _. Unit) (Differs []) right (paths r) (λ x h. refl) (All-tt (paths r)),
        Distinct-map right (paths r) (paths-Distinct r),
      )
      (All-map (λ _. Unit) (λ p. All (Differs p) ([] ∷ map (◌∷◌ right) (paths r))) left (paths l)
        (λ x h. (
          refl,
          All-map (λ _. Unit) (Differs (left ∷ x)) right (paths r) (λ y k. refl) (All-tt (paths r)),
        ))
        (All-tt (paths l)))

instance abbrev pub plain : RbTree
plain = record {
  is_rb = λ _. true;
  rb_link_node = λ d. node 0 leaf d leaf;
  rb_insert_color = λ p t. t;
  rb_erase = erase_at;
  rb_first = λ t. head? (paths t);
  rb_next = λ t p. after p (paths t);
  leaf_rb = refl;
  link_values = λ d. refl;
  insert_rb = λ p d t h k. refl;
  insert_values = λ p d t h k. refl;
  erase_rb = λ p t h e. refl;
  erase_values = λ p t h e. values-erase_at p t;
  first_path = λ t. refl;
  next_path = λ t i p e. after_lem (paths t) i p (paths-Distinct t) e;
}
