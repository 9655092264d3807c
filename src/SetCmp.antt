-- ===== src/SetCmp.antt =====
-- jni/setcmp.c: how many pages of a set of processes are not unique. What is printed to stderr is
-- the list of the numbers, in order; headings and blank lines are left out.
pub mod Report
pub mod Sets
pub mod Content
pub mod Distinct
pub mod Elsewhere
pub mod Intra
pub mod Arrays
pub mod Inter
pub mod Matrix
pub mod Total
pub mod Regions
pub mod Family
pub mod Main
use memdump.Base.{
  ℕ, zero, suc, ◌+◌, ◌<◌, ◌==◌, ltb, if◌then◌else◌, Bool, true, false, ◌||◌, Option, none, some,
  List, [], ◌∷◌, ◌++◌, length, get_elem?, Run, ok, fault, deref, ◌>>=◌, to_nat,
}
use memdump.Base.Int.{ℤ, pos, pos_part, sub_ℕ, lt_int}
use memdump.Base.Loop.{for_each}
use memdump.Mem.{
  Page, MemReg, Process, proc_mr_num, mr_page_num, page_is_zero, page_count, page_to_u32,
  mr_get_name,
}
use memdump.RbTree.{Data, RbTree}
use memdump.RbTree.Walk.{nodes}
use memdump.Simi.{
  Set, set_init, set_add, set_in, set_size, set_free, set_found_in, set_first, data_init,
}
use memdump.Simi.Cursor.{do_while_next}

-- `MAX_PID`.
abbrev pub max_pid : ℕ
max_pid = 32

-- `set[i] = s` for `struct Set *set[MAX_PID]`, filled from the front.
abbrev pub store : ℕ → Set → List Set → Run (List Set)
store i s sets = if ltb i max_pid then ok (sets ++ (s ∷ [])) else fault

-- If found in a set other than number `this`, return 1, else return 0. The loop at index `i`.
unfoldable pub found_from : ℕ → ℕ → List Set → Data → ℕ → Run ℕ
found_from zero i set d this = ok 0
found_from (suc left) i set d this =
    let rest = found_from left (i + 1) set d this in
    if i == this then rest else (do s ← deref (get_elem? set i); if set_in s d then ok 1 else rest)

unfoldable pub found_in_other_sets : List Set → ℕ → Data → ℕ → Run ℕ
unfolding found_from
found_in_other_sets set num d this = found_from num 0 set d this

-- `set[i] = make(proc[i])` for each process.
unfoldable pub sets_of : (Process → Run Set) → List Process → ℕ → Run (List Set)
sets_of make proc num = for_each num 0 proc (λ i p sets. do s ← make p; store i s sets) []

-- `set_free(set[i])` for each set.
unfoldable pub free_sets : ⦃rb : RbTree⦄ → List Set → ℕ → Run (Unit {0})
free_sets set num = for_each num 0 set (λ _ s u. do _ ← set_free s; ok tt) tt

module _ (zero_page_hash : ℕ) ⦃rb : RbTree⦄ where
  -- The pages of a region, by `for (i = 0; i < mr_page_num(mr); i++)`.
  abbrev pub for_pages {ℓ} : {S : Type ℓ} → MemReg → (Page → S → Run S) → S → Run S
  for_pages mr body s = for_each (pos_part (mr_page_num mr)) 0 mr.pages (λ _. body) s

  abbrev pub for_regions {ℓ} : {S : Type ℓ} → Process → (MemReg → S → Run S) → S → Run S
  for_regions p body s = for_each (pos_part (proc_mr_num p)) 0 p.maps (λ _. body) s

  -- The bodies of the page loops.
  unfoldable pub add_page : Page → Set → Run Set
  add_page page s =
      if page_is_zero zero_page_hash page
      then ok s
      else ok (set_add s (data_init (page_to_u32 page)))

  unfoldable pub cand_add_page : Page → Set → Run Set
  cand_add_page page s =
      if page_is_zero zero_page_hash page
      then ok s
      else (if lt_int (pos 1) (page_count page)
          then ok s
          else ok (set_add s (data_init (page_to_u32 page))))

  unfoldable pub uniq_add_page : Page → Set → Run Set
  uniq_add_page page s =
      if page_is_zero zero_page_hash page
      then ok s
      else (if lt_int (pos 1) (page_count page)
          then ok s
          else (let d = data_init (page_to_u32 page) in
              if set_in s d then ok s else ok (set_add s d)))

  unfoldable pub set_add_mr : Set → MemReg → Run Set
  unfolding add_page
  set_add_mr s mr = for_pages mr add_page s

  unfoldable pub cand_set_add_mr : Set → MemReg → Run Set
  unfolding cand_add_page
  cand_set_add_mr s mr = for_pages mr cand_add_page s

  unfoldable pub set_from_mr : MemReg → Run Set
  unfolding set_add_mr
  set_from_mr mr = set_add_mr set_init mr

  unfoldable pub uniq_set_from_mr : MemReg → Run Set
  unfolding uniq_add_page
  uniq_set_from_mr mr = for_pages mr uniq_add_page set_init

  unfoldable pub set_from_proc : Process → Run Set
  unfolding set_add_mr
  set_from_proc p = for_regions p (λ mr s. set_add_mr s mr) set_init

  unfoldable pub cand_set_from_proc : Process → Run Set
  unfolding cand_set_add_mr
  cand_set_from_proc p = for_regions p (λ mr s. cand_set_add_mr s mr) set_init

  unfoldable pub uniq_set_from_proc : Process → Run Set
  unfolding uniq_add_page
  uniq_set_from_proc p = for_regions p (λ mr s. for_pages mr uniq_add_page s) set_init

  -- The body of the loop of `print_intra_simi`, and the loop.
  unfoldable pub intra_simi : Process → Run ℤ
  unfolding set_from_proc uniq_set_from_proc
  intra_simi p = do
    set ← set_from_proc p
    uniq_set ← uniq_set_from_proc p
    let dup = sub_ℕ (set_size set) (set_size uniq_set)
    _ ← set_free set
    _ ← set_free uniq_set
    ok dup

  unfoldable pub print_intra_simi : List Process → ℕ → Run (List ℤ)
  unfolding intra_simi
  print_intra_simi proc num =
      for_each num 0 proc (λ _ p out. do dup ← intra_simi p; ok (out ++ (dup ∷ []))) []

  -- The count of `print_inter_simi` for process `i`.
  unfoldable pub inter_page : List Set → ℕ → ℕ → Page → ℕ → Run ℕ
  inter_page set num i page dup =
      if page_is_zero zero_page_hash page || lt_int (pos 1) (page_count page) then ok dup else (do
        found ← found_in_other_sets set num (data_init (page_to_u32 page)) i
        ok (dup + found))

  unfoldable pub inter_simi : List Set → ℕ → ℕ → Process → Run ℕ
  unfolding inter_page
  inter_simi set num i p = for_regions p (λ mr dup. for_pages mr (inter_page set num i) dup) 0

  unfoldable pub print_inter_simi : List Process → ℕ → Run (List ℕ)
  unfolding sets_of
  print_inter_simi proc num = do
    set ← sets_of set_from_proc proc num
    out ←
        for_each num 0 proc (λ i p out. do dup ← inter_simi set num i p; ok (out ++ (dup ∷ []))) []
    _ ← free_sets set num
    ok out
