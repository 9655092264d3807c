-- ===== src/Simi/Cursor.antt =====
-- `set_first` and `set_next` of jni/simi.c, as a client runs through a set with them.
use mathlib.Core.Path.{fun_ext}
use memdump.Base.{
  ℕ, zero, suc, ◌<◌, Option-cases, inl, inr, true, false, ◌≡◌, refl, sym, ap, ◌∙◌, Option, none,
  some, List, [], ◌∷◌, arith, Run, ok, fault, deref, ◌>>=◌, length, head?, if◌then◌else◌, ◌==◌,
}
use memdump.Base.Loop.{fold_run}
use memdump.RbTree.{Data, RbTree, entry, Dir, paths}
use memdump.RbTree.Walk.{entries, for_nodes, for_nodes_lem, length-paths, nodes, walk}
use memdump.Simi.{Set, DataPtr, null, wild, at, next_ptr, value_of, set_first, set_next, rb_entry}

module _ {ℓ} {A : Type ℓ} where
  no_head : (xs : List A) → head? xs ≡ none → length xs ≡ 0
  no_head [] e = refl
  no_head (x ∷ xs) e = cc

  has_head : (xs : List A) (x : A) → head? xs ≡ some x → 0 < length xs
  has_head [] x e = cc
  has_head (y ∷ ys) x e = omega arith

-- `while (d = …, d)`: stop at NULL.
abbrev pub while_ptr {ℓ} : {S : Type ℓ} → Run S → (DataPtr → Run S) → DataPtr → Run S
while_ptr stop again null = stop
while_ptr stop again wild = again wild
while_ptr stop again (at p) = again (at p)

module _ {ℓ} {S : Type ℓ} ⦃rb : RbTree⦄ (s : Set) (body : Data → S → Run S) where
  -- `do { body } while (d = set_next(d), d);` with fuel; the body reads `d->v`.
  unfoldable pub do_while_next : ℕ → DataPtr → S → Run S
  do_while_next zero d acc = fault
  do_while_next (suc fuel) d acc = do
    data_ ← value_of s d
    acc' ← body data_ acc
    d' ← set_next s d
    while_ptr (ok acc') (λ d''. do_while_next fuel d'' acc') d'

  do_while_next-eq-walk :
      (fuel : ℕ) (p : List Dir) (acc : S)
      → do_while_next fuel (at p) acc ≡ walk s.root body fuel (some p) acc
  unfolding do_while_next walk value_of set_next
  do_while_next-eq-walk zero p acc = refl
  do_while_next-eq-walk (suc fuel) p acc =
      ap (λ k. deref (entry s.root p) >>= k)
        (fun_ext λ d.
          ap (λ k. body d acc >>= k)
            (fun_ext
              λ acc'. rest acc' (λ n. do_while_next-eq-walk fuel n acc') (rb.rb_next s.root p)))
    where
      rest :
          (acc' : S)
          → ((n : List Dir) → do_while_next fuel (at n) acc' ≡ walk s.root body fuel (some n) acc')
          → (o : Option (List Dir))
          → while_ptr (ok acc') (λ d''. do_while_next fuel d'' acc') (next_ptr o)
            ≡ walk s.root body fuel o acc'
      rest acc' ih none = refl
      rest acc' ih (some n) = ih n

  -- On a set with an entry the loop from `set_first` visits the entries in order, each once, and
  -- ends; on an empty set it reads through a wild pointer.
  pub do_while_next_lem :
      (acc : S)
      → do_while_next (suc (nodes s.root)) (set_first s) acc
        ≡ (if nodes s.root == 0 then fault else fold_run body (entries s.root) acc)
  unfolding set_first rb_entry
  do_while_next_lem acc = elim (Option-cases (rb.rb_first s.root)) [
    | inl e ↦
        let empty : nodes s.root ≡ 0 =
          omega
            (arith, length-paths s.root, no_head (paths s.root) (sym (rb.first_path s.root) ∙ e)) in
        let test : (nodes s.root == 0) ≡ true = ground arith in
        rw (e, test) (unfold do_while_next value_of in refl)
    | inr (p, e) ↦
        let full : 0 < nodes s.root = omega (
          arith,
          length-paths s.root,
          has_head (paths s.root) p (sym (rb.first_path s.root) ∙ e),
        ) in
        let test : (nodes s.root == 0) ≡ false = ground arith in
        rw (e, test)
          (do_while_next-eq-walk (suc (nodes s.root)) p acc
            ∙ ap (λ o. walk s.root body (suc (nodes s.root)) o acc) (sym e)
            ∙ unfold for_nodes in for_nodes_lem s.root body acc)
  ]
