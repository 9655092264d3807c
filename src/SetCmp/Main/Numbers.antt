-- ===== src/SetCmp/Main/Numbers.antt =====
-- The numbers that `main` of jni/setcmp.c prints, from the pages of the processes.
use mathlib.Core.List.{map-map}
use memdump.Base.{
  ℕ, suc, ◌≡◌, ◌∙◌, ◌&&◌, refl, sym, ap, ap₂, List, [], ◌∷◌, map, map_index, select, count_if,
}
use memdump.Base.Int.{ℤ, sub_ℕ}
use memdump.Mem.{Page, Process, page_to_u32}
use memdump.RbTree.{RbTree}
use memdump.SetCmp.Sets.{all_pages, is_used, is_candidate}
use memdump.SetCmp.Content.{hashes_of}
use memdump.SetCmp.Distinct.{distinct}
use memdump.SetCmp.Elsewhere.{occurs_elsewhere}
use memdump.SetCmp.Inter.{inter_count}
use memdump.SetCmp.Intra.{intra_count}
use memdump.SetCmp.Main.{Printed, intra, inter, total}
use memdump.SetCmp.Main.Outcome.{reports}

-- The hashes of the pages that are not zero, and of those that are not shared either.
abbrev pub used_in : List Page → List ℕ
used_in pages = hashes_of (select (is_used 0) pages)

abbrev pub candidates_in : List Page → List ℕ
candidates_in pages = hashes_of (select (is_candidate 0) pages)

-- The numbers of the three reports, from the pages of all processes. The first: the pages that are
-- not zero, less the distinct hashes of the candidates.
abbrev pub intra_in : List Page → ℤ
intra_in pages = sub_ℕ (count_if (is_used 0) pages) (distinct (candidates_in pages))

-- The candidates that another process has too.
abbrev pub inter_in : List (List ℕ) → ℕ → List Page → ℕ
inter_in used i pages =
    count_if (λ page. is_candidate 0 page && occurs_elsewhere i (page_to_u32 page) 0 used) pages

-- The distinct hashes of the candidates that are among the candidates of another process, and the
-- pages that are not zero.
abbrev pub total_in : List (List ℕ) → ℕ → List Page → ℕ × ℕ
total_in found i pages = (
  distinct (select (λ v. occurs_elsewhere i v 0 found) (candidates_in pages)),
  count_if (is_used 0) pages,
)

abbrev pub first_two : List (List Page) → List Printed
first_two images =
    inter (map_index (inter_in (map used_in images)) 0 images) ∷ (intra (map intra_in images) ∷ [])

abbrev pub all_three : List (List Page) → List Printed
all_three images =
    total (map_index (total_in (map candidates_in images)) 0 images) ∷ first_two images

pub map_index-map {ℓ κ μ} :
    {A : Type ℓ} {B : Type κ} {C : Type μ} (g : ℕ → B → C) (f : A → B) (i : ℕ) (xs : List A)
    → map_index g i (map f xs) ≡ map_index (λ i x. g i (f x)) i xs
map_index-map g f i [] = refl
map_index-map g f i (x ∷ xs) = ap (◌∷◌ (g i (f x))) (map_index-map g f (suc i) xs)

pub first_two_lem :
    ⦃rb : RbTree⦄ (proc : List Process)
    → ◌≡◌ {A = List Printed}
        (inter (map_index (inter_count 0 proc) 0 proc) ∷ (intra (map (intra_count 0) proc) ∷ []))
        (first_two (map all_pages proc))
first_two_lem proc =
    ap₂ (λ (ns : List ℕ) (ks : List ℤ). inter ns ∷ (intra ks ∷ []))
      (ap (λ (used : List (List ℕ)). map_index (λ i p. inter_in used i (all_pages p)) 0 proc)
          (sym (map-map used_in all_pages proc))
        ∙ sym (map_index-map (inter_in (map used_in (map all_pages proc))) all_pages 0 proc))
      (sym (map-map intra_in all_pages proc))

pub reports_lem :
    ⦃rb : RbTree⦄ (proc : List Process) → reports proc ≡ all_three (map all_pages proc)
reports_lem proc =
    ap₂ (λ (ls : List (ℕ × ℕ)) (rest : List Printed). total ls ∷ rest)
      (ap (λ (found : List (List ℕ)). map_index (λ i p. total_in found i (all_pages p)) 0 proc)
          (sym (map-map candidates_in all_pages proc))
        ∙ sym (map_index-map (total_in (map candidates_in (map all_pages proc))) all_pages 0 proc))
      (first_two_lem proc)
