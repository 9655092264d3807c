-- ===== src/Mem/Flags/Laws.antt =====
-- What the names of page flags show.
use native.Mathlib.Numerals.{add-one}
use memdump.Base.{
  ℕ, zero, suc, ◌+◌, ◌/◌, ◌%◌, ◌^◌, ◌≤◌, ◌≡◌, inl, inr, refl, sym, ap, ◌∙◌, ltb, if◌then◌else◌,
  Bool, true, false, ◌||◌, Bool-cases, Option-cases, Option, none, some, List, [], ◌∷◌, ◌++◌,
  length, get_elem?, drop, replicate, ok, exit, length-append, arith, append-nil, append_assoc,
}
use memdump.Base.Int.{negsuc}
use memdump.Base.Loop.{for_each}
use memdump.Base.Loop.Along.{drop_all}
use memdump.Base.Loop.Laws.{elem_at, drop_split}
use memdump.Mem.Flags.{
  page_flag_names, has_bit, flag_letter, page_flag_name, raise_if, PageFlags, walk_swap,
}

-- A letter for each flag that has a name, if the flag is set.
abbrev pub letters : ℕ → ℕ → List (Option ℕ) → List ℕ
letters flags i [] = []
letters flags i (none ∷ names) = letters flags (suc i) names
letters flags i (some c ∷ names) =
    (if has_bit i flags then c else b'-') ∷ letters flags (suc i) names

-- Is a flag set that has no name?
abbrev pub has_unknown : ℕ → ℕ → List (Option ℕ) → Bool
has_unknown flags i [] = false
has_unknown flags i (none ∷ names) = has_bit i flags || has_unknown flags (suc i) names
has_unknown flags i (some c ∷ names) = has_unknown flags (suc i) names

letters_loop :
    (flags : ℕ) (names : List (Option ℕ)) (left i : ℕ) (buf : List ℕ)
    → i + left ≡ length names
    → length buf + left ≤ 65
    → for_each left i names (flag_letter flags) buf ≡ (
        if has_unknown flags i (drop i names)
        then exit
        else ok (buf ++ letters flags i (drop i names)))
unfolding for_each flag_letter
letters_loop flags names zero i buf e room =
    rw (drop_all i names (omega arith)) (ap ok (sym (append-nil buf)))
letters_loop flags names (suc left) i buf e room =
    let (name, at) = elem_at i names (omega arith) in
    elim (Option-cases name) [
      | inl no_name ↦
          let here : get_elem? names i ≡ some none = at ∙ ap some no_name in
          let split : drop i names ≡ none ∷ drop (suc i) names = drop_split i names none here in
          elim (Bool-cases (has_bit i flags)) [
            | inl set ↦ rw (here, split, set) refl
            | inr clear ↦
                rw (here, split, clear, add-one)
                  (letters_loop flags names left (suc i) buf (omega arith) (omega arith))
          ]
      | inr (c, named) ↦
          let here : get_elem? names i ≡ some (some c) = at ∙ ap some named in
          let split : drop i names ≡ some c ∷ drop (suc i) names =
            drop_split i names (some c) here in
          let l = if has_bit i flags then c else b'-' in
          let fits : ltb (length buf) 65 ≡ true = ground arith in
          rw (here, fits, split, add-one)
            (letters_loop flags names left (suc i) (buf ++ (l ∷ [])) (omega arith)
                (omega (arith, length-append buf (l ∷ [])))
              ∙ ap
                  (λ (out : List ℕ).
                    if has_unknown flags (suc i) (drop (suc i) names) then exit else ok out)
                  (append_assoc buf (l ∷ []) _))
    ]

-- The program exits if a flag is set that has no name. Otherwise, and only then, the name of a word
-- of flags is given: one letter for each flag that has a name, its own if the flag is set and a dash
-- if not. The letters fit the buffer.
pub page_flag_name_lem :
    (flags : ℕ)
    → page_flag_name flags
      ≡ (if has_unknown flags 0 page_flag_names then exit else ok (letters flags 0 page_flag_names))
unfolding page_flag_name
page_flag_name_lem flags =
    letters_loop flags page_flag_names (length page_flag_names) 0 [] (omega arith) (omega arith)

-- The letter of one flag.
abbrev pub letter_if : Bool → ℕ → ℕ
letter_if test c = if test then c else b'-'

-- The letters of SOFTDIRTY, FILE, SWAP and MMAP_EXCLUSIVE, among those of the other flags.
abbrev pub swap_letters : Bool → Bool → Bool → Bool → List ℕ
swap_letters dirty file swap exclusive =
    replicate 35 b'-'
    ++ (letter_if dirty b'f'
        ∷ (replicate 4 b'-'
            ++ (letter_if file b'F' ∷ (letter_if swap b'w' ∷ (letter_if exclusive b'1' ∷ [])))))

swap_name :
    (dirty file swap exclusive : Bool)
    → page_flag_name
        (raise_if exclusive 63 (raise_if swap 62 (raise_if file 61 (raise_if dirty 40 0))))
      ≡ ok (swap_letters dirty file swap exclusive)
unfolding page_flag_name for_each flag_letter
swap_name false false false false = refl
swap_name false false false true = refl
swap_name false false true false = refl
swap_name false false true true = refl
swap_name false true false false = refl
swap_name false true false true = refl
swap_name false true true false = refl
swap_name false true true true = refl
swap_name true false false false = refl
swap_name true false false true = refl
swap_name true false true false = refl
swap_name true false true true = refl
swap_name true true false false = refl
swap_name true true false true = refl
swap_name true true true false = refl
swap_name true true true true = refl

abbrev pub swap_line : ℕ → ℕ → PageFlags
swap_line voffset pme = record {
  cnt = negsuc 0;
  voffset = voffset;
  offset = if has_bit 62 pme then pme % 2 ^ 55 / 32 else 0;
  flags = swap_letters (has_bit 55 pme) (has_bit 61 pme) (has_bit 62 pme) (has_bit 56 pme);
}

-- Whatever the kernel says of a page, `walk_swap` prints its line and never exits: the only flags it
-- can set have names. The line has no count, the offset in the swap file of a page that is swapped
-- out, and a letter for each of the four flags that the entry has.
pub walk_swap_lem : (voffset pme : ℕ) → walk_swap voffset pme ≡ ok (swap_line voffset pme)
unfolding walk_swap
walk_swap_lem voffset pme =
    rw (swap_name (has_bit 55 pme) (has_bit 61 pme) (has_bit 62 pme) (has_bit 56 pme)) refl
