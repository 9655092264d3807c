-- ===== src/Simi/Clients.antt =====
-- Calls of jni/simi.h, on sets of simi.c or on multisets. A client here sees numbers: not the entries
-- that `set_first` and `set_next` point to, but the values in them, in a loop that runs through the
-- set; and it frees no set.
use mathlib.Core.Quot
use memdump.Base.{
  ℕ, suc, ◌==◌, if◌then◌else◌, fault, Bool, List, [], ◌∷◌, ◌++◌, get_elem?, set, to_nat, Run, ok,
  deref, ◌>>=◌,
}
use memdump.RbTree.{Data, RbTree, values}
use memdump.RbTree.Walk.{nodes}
use memdump.Simi.Cursor.{do_while_next}
use memdump.Simi.{
  Set, set_init, set_add, set_in, set_size, set_found_in, set_jaccard, set_print, set_first,
  data_init,
}
use memdump.Simi.Bag
use memdump.Simi.Bag.{Bag}

-- These functions of jni/simi.h on a type of sets; `walk` is the loop over `set_first` and `set_next`.
pub record SetOps (S : Type 0) : Type 0 where
  pub init : S
  pub add : ℕ → S → S
  pub size : S → ℕ
  pub is_in : ℕ → S → Bool
  pub found : S → S → Run ℕ
  pub jaccard : S → S → Run (ℕ × ℕ)
  pub print : S → Run (List ℕ)
  pub walk : S → Run (List ℕ)

-- What a client calls, on the sets that it has made so far, by their numbers.
pub data Call : Type 0 where
  new : Call
  add_to ask : ℕ → ℕ → Call
  size_of print_of walk_of : ℕ → Call
  compare_found compare_jaccard : ℕ → ℕ → Call

module _ {S : Type 0} (ops : SetOps S) where
  -- A call, with the sets afterwards and what it answers.
  abbrev pub step : Call → List S → Run (List S × List ℕ)
  step new sets = ok (sets ++ (ops.init ∷ []), [])
  step (add_to i v) sets = deref (get_elem? sets i) >>= λ s. ok (set sets i (ops.add v s), [])
  step (ask i v) sets = deref (get_elem? sets i) >>= λ s. ok (sets, to_nat (ops.is_in v s) ∷ [])
  step (size_of i) sets = deref (get_elem? sets i) >>= λ s. ok (sets, ops.size s ∷ [])
  step (print_of i) sets = deref (get_elem? sets i) >>= λ s. ops.print s >>= λ out. ok (sets, out)
  step (walk_of i) sets = deref (get_elem? sets i) >>= λ s. ops.walk s >>= λ out. ok (sets, out)
  step (compare_found i j) sets = deref (get_elem? sets i) >>= λ a.
      deref (get_elem? sets j) >>= λ b. ops.found a b >>= λ n. ok (sets, n ∷ [])
  step (compare_jaccard i j) sets = deref (get_elem? sets i) >>= λ a.
      deref (get_elem? sets j) >>= λ b. ops.jaccard a b >>= λ r. ok (sets, r.0 ∷ r.1 ∷ [])

  -- All that the calls answer.
  abbrev pub answers : List Call → List S → Run (List ℕ)
  answers [] sets = ok []
  answers (c ∷ calls) sets = step c sets >>= λ r. answers calls r.0 >>= λ rest. ok (r.1 ++ rest)

abbrev pub bags : SetOps Bag
bags = record {
  init = Bag.empty;
  add = Bag.put;
  size = Bag.card;
  is_in = Bag.contains;
  found = λ a b. ok (Bag.found_in a b);
  jaccard = λ a b. ok (Bag.similarity a b);
  print = λ s. ok (Bag.in_order s);
  walk = λ s. if Bag.card s == 0 then fault else ok (Bag.in_order s);
}

module _ ⦃rb : RbTree⦄ where
  -- `do { … } while (d = set_next(d), d);` from `set_first(s)`: each value in turn.
  abbrev pub visit : Data → List ℕ → Run (List ℕ)
  visit d out = ok (out ++ d.v ∷ [])

  abbrev pub sets_of_simi : SetOps Set
  sets_of_simi = record {
    init = set_init;
    add = λ v s. set_add s (data_init v);
    size = set_size;
    is_in = λ v s. set_in s (data_init v);
    found = set_found_in;
    jaccard = set_jaccard;
    print = set_print;
    walk = λ s. do_while_next s visit (suc (nodes s.root)) (set_first s) [];
  }

  -- The multiset that a set stands for.
  abbrev pub bag_of : Set → Bag
  bag_of s = Quot.mk (values s.root)
