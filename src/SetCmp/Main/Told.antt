-- ===== src/SetCmp/Main/Told.antt =====
-- Where the hash tells apart what the pages hold, the numbers of the reports are those by content.
use mathlib.Core.List.{map-map}
use memdump.Base.{
  ℕ, suc, ◌+◌, ◌≡◌, ◌∙◌, ◌&&◌, ◌||◌, ◌==◌, not, true, refl, sym, ap, ap₂, inl, inr, List, [], ◌∷◌,
  map, map_index, select, mem, All, to_nat, arith, Bool-cases, ==_iff, ==-refl,
}
use memdump.Base.Int.{ℤ, pos, sub_ℕ, lt_int}
use memdump.Mem.{page_is_zero, page_count, page_to_u32}
use memdump.Mem.Hash.Laws.{page_hash_zeros}
use memdump.Mem.Image.{Held, kept, digest}
use memdump.SetCmp.Sets.{is_used, is_candidate}
use memdump.SetCmp.Distinct.{distinct}
use memdump.SetCmp.Elsewhere.{occurs_elsewhere}
use memdump.SetCmp.Main.{Printed, intra, inter, total}
use memdump.SetCmp.Main.Numbers.{
  used_in, candidates_in, intra_in, inter_in, total_in, first_two, all_three,
}
use memdump.SetCmp.Main.Kept.{
  AreHeld, hashes_of-select, count_if-kept, All-select, select-digest, map-kept, map_index-kept,
  All-selected,
}
use memdump.SetCmp.Main.Bytes.{
  same_bytes, zero_page, is_nonzero, is_alone, nonzero_of, alone_of, is_among, different,
  is_elsewhere, intra_held, inter_held, total_held, first_two_held, all_three_held,
}

same_bytes_refl : (a : List ℕ) → same_bytes a a ≡ true
same_bytes_refl [] = refl
same_bytes_refl (c ∷ a) = ground (arith, same_bytes_refl a)

same_bytes-true : (a b : List ℕ) → same_bytes a b ≡ true → a ≡ b
same_bytes-true [] [] e = refl
same_bytes-true [] (c ∷ b) e = cc
same_bytes-true (c ∷ a) [] e = cc
same_bytes-true (c ∷ a) (d ∷ b) e = ap₂ ◌∷◌ (ground arith) (same_bytes-true a b (ground arith))

digest_zeros : digest zero_page ≡ 0
digest_zeros = rw (page_hash_zeros.0 4096) refl

module _ (Is : List ℕ → Type 0) where
  module _ (told : (a b : List ℕ) → Is a → Is b → digest a ≡ digest b → a ≡ b)
      (zeros : Is zero_page) where
    digest_same : (a b : List ℕ) → Is a → Is b → (digest a == digest b) ≡ same_bytes a b
    digest_same a b is is' = elim (Bool-cases (same_bytes a b)) [
      | inl e ↦ ap (λ c. digest c == digest b) (same_bytes-true a b e) ∙ ==-refl (digest b) ∙ sym e
      | inr e ↦ elim (Bool-cases (digest a == digest b)) [
        | inr e' ↦ e' ∙ sym e
        | inl e' ↦
            let same = told a b is is' ((==_iff (digest a) (digest b)).0 e') in
            absurd (cc (sym (same_bytes_refl a) ∙ ap (same_bytes a) same ∙ e))
      ]
    ]

    pub mem-digest :
        (a : List ℕ) (bs : List (List ℕ))
        → Is a
        → All Is bs
        → mem (digest a) (map digest bs) ≡ is_among a bs
    mem-digest a [] is all = refl
    mem-digest a (b ∷ bs) is all = ap₂ ◌||◌ (digest_same b a all.0 is) (mem-digest a bs is all.1)

    distinct-digest : (bs : List (List ℕ)) → All Is bs → distinct (map digest bs) ≡ different bs
    distinct-digest [] all = refl
    distinct-digest (b ∷ bs) all =
        ap₂ (λ m n. to_nat (not m) + n) (mem-digest b bs all.0 all.1) (distinct-digest bs all.1)

    occurs_elsewhere-digest :
        (this : ℕ) (a : List ℕ) (i : ℕ) (bss : List (List (List ℕ)))
        → Is a
        → All (All Is) bss
        → occurs_elsewhere this (digest a) i (map (map digest) bss) ≡ is_elsewhere this a i bss
    occurs_elsewhere-digest this a i [] is all = refl
    occurs_elsewhere-digest this a i (bs ∷ bss) is all =
        ap₂ (λ m n. (not (i == this) && m) || n) (mem-digest a bs is all.0)
          (occurs_elsewhere-digest this a (suc i) bss is all.1)

    is_used-kept : (held : Held) → Is held.bytes → is_used 0 (kept held) ≡ is_nonzero held
    unfolding page_is_zero
    is_used-kept held is =
        ap (λ n. not (digest held.bytes == n)) (sym digest_zeros)
        ∙ ap not (digest_same held.bytes zero_page is zeros)

    pub is_candidate-kept :
        (held : Held) → Is held.bytes → is_candidate 0 (kept held) ≡ is_alone held
    unfolding page_count
    is_candidate-kept held is =
        ap (λ b. b && not (lt_int (pos 1) held.users)) (is_used-kept held is)

    used_in-kept :
        (pages : List Held)
        → AreHeld Is pages
        → used_in (map kept pages) ≡ map digest (nonzero_of pages)
    used_in-kept pages all = hashes_of-select Is (is_used 0) is_nonzero is_used-kept pages all

    pub candidates_in-kept :
        (pages : List Held)
        → AreHeld Is pages
        → candidates_in (map kept pages) ≡ map digest (alone_of pages)
    candidates_in-kept pages all =
        hashes_of-select Is (is_candidate 0) is_alone is_candidate-kept pages all

    pub different-kept :
        (pages : List Held)
        → AreHeld Is pages
        → distinct (candidates_in (map kept pages)) ≡ different (alone_of pages)
    different-kept pages all =
        ap distinct (candidates_in-kept pages all)
        ∙ distinct-digest (alone_of pages) (All-select Is is_alone pages all)

    intra_in-kept :
        (pages : List Held) → AreHeld Is pages → intra_in (map kept pages) ≡ intra_held pages
    intra_in-kept pages all =
        ap₂ sub_ℕ (count_if-kept Is (is_used 0) is_nonzero is_used-kept pages all)
          (different-kept pages all)

    inter_in-kept :
        (bss : List (List (List ℕ))) (i : ℕ) (pages : List Held)
        → All (All Is) bss
        → AreHeld Is pages
        → inter_in (map (map digest) bss) i (map kept pages) ≡ inter_held bss i pages
    unfolding page_to_u32
    inter_in-kept bss i pages others all =
        count_if-kept Is _ (λ held. is_alone held && is_elsewhere i held.bytes 0 bss)
          (λ held is.
            ap₂ ◌&&◌ (is_candidate-kept held is)
              (occurs_elsewhere-digest i held.bytes 0 bss is others))
          pages all

    total_in-kept :
        (bss : List (List (List ℕ))) (i : ℕ) (pages : List Held)
        → All (All Is) bss
        → AreHeld Is pages
        → total_in (map (map digest) bss) i (map kept pages) ≡ total_held bss i pages
    total_in-kept bss i pages others all =
        let p = λ (v : ℕ). occurs_elsewhere i v 0 (map (map digest) bss) in
        let q = λ (a : List ℕ). is_elsewhere i a 0 bss in
        let (same, more) =
          select-digest Is p q (λ a is. occurs_elsewhere-digest i a 0 bss is others)
            (alone_of pages) (All-select Is is_alone pages all) in
        ap₂ (λ (m n : ℕ). (m, n))
          (ap (λ vs. distinct (select p vs)) (candidates_in-kept pages all)
            ∙ ap distinct same
            ∙ distinct-digest _ more)
          (count_if-kept Is (is_used 0) is_nonzero is_used-kept pages all)

    module _ (held : List (List Held)) (all : All (AreHeld Is) held) where
      pub first_two-kept : first_two (map (map kept) held) ≡ first_two_held held
      first_two-kept =
          ap₂ (λ (ns : List ℕ) (ks : List ℤ). inter ns ∷ (intra ks ∷ []))
            (ap (λ bss. map_index (inter_in bss) 0 (map (map kept) held))
                (map-kept Is used_in (λ pages. map digest (nonzero_of pages)) used_in-kept held all
                  ∙ sym (map-map (map digest) nonzero_of held))
              ∙ map_index-kept Is _ (inter_held (map nonzero_of held))
                  (λ i pages is.
                    inter_in-kept (map nonzero_of held) i pages
                      (All-selected Is is_nonzero held all) is)
                  0 held all)
            (map-kept Is intra_in intra_held intra_in-kept held all)

      pub all_three-kept : all_three (map (map kept) held) ≡ all_three_held held
      all_three-kept =
          ap₂ (λ (ls : List (ℕ × ℕ)) (rest : List Printed). total ls ∷ rest)
            (ap (λ bss. map_index (total_in bss) 0 (map (map kept) held))
                (map-kept Is candidates_in (λ pages. map digest (alone_of pages)) candidates_in-kept
                    held all
                  ∙ sym (map-map (map digest) alone_of held))
              ∙ map_index-kept Is _ (total_held (map alone_of held))
                  (λ i pages is.
                    total_in-kept (map alone_of held) i pages (All-selected Is is_alone held all)
                      is)
                  0 held all)
            first_two-kept
