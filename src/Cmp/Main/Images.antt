-- ===== src/Cmp/Main/Images.antt =====
-- The lines of jni/cmp.c, by what the regions of two processes hold.
use mathlib.Core.List.{map-append}
use memdump.Base.{
  ℕ, ◌+◌, ◌/◌, ◌==◌, ◌&&◌, ◌≡◌, ◌∙◌, not, Bool, refl, ap, ap₂, List, [], ◌∷◌, ◌++◌, map, flat_map,
  count_if, mem, to_nat, All, All₂,
}
use memdump.Base.Int.{ℤ, to_int}
use memdump.Mem.{Page, MemReg, span, pages_of, page_to_u32, mr_page_num, mr_get_name, mr_get_start}
use memdump.Mem.Image.{IsPresent, images, pages_of-images}
use memdump.Mem.Files.Content.{IsGood, HasMemory}
use memdump.Mem.Files.World.{World}
use memdump.SetCmp.Sets.{is_candidate}
use memdump.SetCmp.Main.Numbers.{candidates_in}
use memdump.Cmp.{Redund, Line, line}
use memdump.Cmp.Laws.{has_dup, pair}

-- How many pages of the first list, neither zero nor shared, have the hash of such a page of the
-- second.
abbrev pub common : List Page → List Page → ℕ
common pages1 pages2 =
    count_if (λ page. is_candidate 0 page && mem (page_to_u32 page) (candidates_in pages2)) pages1

module _ (w : World) where
  abbrev pub region_images : ℤ → MemReg → List Page
  region_images pid mr = images (w.content pid) (w.entry pid) w.count mr 0 (span mr / 4096)

  abbrev pub HoldsIn : ℤ → MemReg → MemReg → Type 0
  HoldsIn pid mr mr' = HasMemory (w.content pid) (w.entry pid) w.count mr mr'

  abbrev pub IsFramed : ℤ → MemReg → Type 0
  IsFramed pid mr = IsGood mr × IsPresent (w.content pid) (w.entry pid) w.count mr

  pages_of-HoldsIn :
      (pid : ℤ) (mr mr' : MemReg)
      → IsFramed pid mr
      → HoldsIn pid mr mr'
      → pages_of mr' ≡ region_images pid mr
  pages_of-HoldsIn pid mr mr' (good, present) holds =
      pages_of-images (w.content pid) (w.entry pid) w.count mr mr' good present holds

  module _ (pid1 pid2 : ℤ) where
    -- The line of a region of each process.
    abbrev pub pair_image : MemReg → MemReg → Line
    pair_image m1 m2 = record {
      dup = common (region_images pid1 m1) (region_images pid2 m2);
      page_num_1 = to_int (span m1 / 4096);
      page_num_2 = to_int (span m2 / 4096);
      name_1 = m1.pathname;
      start_1 = m1.start;
      name_2 = m2.pathname;
      start_2 = m2.start;
    }

    -- Those of all pairs.
    abbrev pub pair_images : List Line
    pair_images = flat_map (λ m1. map (pair_image m1) (w.regions pid2)) (w.regions pid1)

    -- What a line has apart from the number of common pages.
    abbrev line_with : MemReg → MemReg → ℕ → Line
    line_with m1 m2 dup = record {
      dup = dup;
      page_num_1 = to_int (span m1 / 4096);
      page_num_2 = to_int (span m2 / 4096);
      name_1 = m1.pathname;
      start_1 = m1.start;
      name_2 = m2.pathname;
      start_2 = m2.start;
    }

    line-pair :
        (m1 m1' m2 m2' : MemReg)
        → IsFramed pid1 m1
        → IsFramed pid2 m2
        → HoldsIn pid1 m1 m1'
        → HoldsIn pid2 m2 m2'
        → line (pair 0 m1' m2') ≡ pair_image m1 m2
    unfolding line mr_page_num mr_get_name mr_get_start
    line-pair m1 m1' m2 m2' framed1 framed2 holds1 holds2 =
        ap (line_with m1' m2') (
          ap₂ common (pages_of-HoldsIn pid1 m1 m1' framed1 holds1)
            (pages_of-HoldsIn pid2 m2 m2' framed2 holds2))
        ∙ ap (λ m. line_with m m2' (common (region_images pid1 m1) (region_images pid2 m2)))
            holds1.0
        ∙ ap (λ m. line_with m1 m (common (region_images pid1 m1) (region_images pid2 m2))) holds2.0

    row_lem :
        (m1 m1' : MemReg) (mrs more : List MemReg)
        → IsFramed pid1 m1
        → HoldsIn pid1 m1 m1'
        → All (IsFramed pid2) mrs
        → All₂ (HoldsIn pid2) mrs more
        → map line (map (pair 0 m1') more) ≡ map (pair_image m1) mrs
    row_lem m1 m1' [] [] framed holds all h = refl
    row_lem m1 m1' [] (mr' ∷ more) framed holds all h = absurd h
    row_lem m1 m1' (mr ∷ mrs) [] framed holds all h = absurd h
    row_lem m1 m1' (mr ∷ mrs) (mr' ∷ more) framed holds all h =
        ap₂ ◌∷◌ (line-pair m1 m1' mr mr' framed all.0 holds h.0)
          (row_lem m1 m1' mrs more framed holds all.1 h.1)

    module _ (mrs2 more2 : List MemReg) (all2 : All (IsFramed pid2) mrs2)
        (holds2 : All₂ (HoldsIn pid2) mrs2 more2) where
      pub rows_lem :
          (mrs more : List MemReg)
          → All (IsFramed pid1) mrs
          → All₂ (HoldsIn pid1) mrs more
          → map line (flat_map (λ m1. map (pair 0 m1) more2) more)
            ≡ flat_map (λ m1. map (pair_image m1) mrs2) mrs
      rows_lem [] [] all h = refl
      rows_lem [] (mr' ∷ more) all h = absurd h
      rows_lem (mr ∷ mrs) [] all h = absurd h
      rows_lem (mr ∷ mrs) (mr' ∷ more) all h =
          map-append line (map (pair 0 mr') more2) _
          ∙ ap₂ ◌++◌ (row_lem mr mr' mrs2 more2 all.0 h.0 all2 holds2) (rows_lem mrs more all.1 h.1)

pub count_if-map {ℓ κ} :
    {A : Type ℓ} {B : Type κ} (f : A → B) (q : B → Bool) (xs : List A)
    → count_if q (map f xs) ≡ count_if (λ x. q (f x)) xs
count_if-map f q [] = refl
count_if-map f q (x ∷ xs) = ap (λ n. to_nat (q (f x)) + n) (count_if-map f q xs)

pub map-dup-line :
    (rs : List Redund) → map (λ (l : Line). l.dup) (map line rs) ≡ map (λ (r : Redund). r.dup) rs
unfolding line
map-dup-line [] = refl
map-dup-line (r ∷ rs) = ap (◌∷◌ r.dup) (map-dup-line rs)

pub count_if-dup-line :
    (q : Line → Bool) (rs : List Redund)
    → count_if (λ r. has_dup r && q (line r)) rs
      ≡ count_if (λ (l : Line). not (l.dup == 0) && q l) (map line rs)
unfolding line
count_if-dup-line q [] = refl
count_if-dup-line q (r ∷ rs) =
    ap (λ n. to_nat (has_dup r && q (line r)) + n) (count_if-dup-line q rs)
