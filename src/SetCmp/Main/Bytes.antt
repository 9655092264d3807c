-- ===== src/SetCmp/Main/Bytes.antt =====
-- The numbers that `main` of jni/setcmp.c is meant to print, by what the pages hold: no hash is in
-- them. Where no two pages have the same hash, they are the numbers that it prints.
use memdump.Base.{
  ℕ, suc, ◌+◌, ◌&&◌, ◌||◌, ◌==◌, not, Bool, true, false, List, [], ◌∷◌, map, map_index, select,
  count_if, to_nat, replicate,
}
use memdump.Base.Int.{ℤ, pos, sub_ℕ, lt_int}
use memdump.Mem.{page_size}
use memdump.Mem.Image.{Held}
use memdump.SetCmp.Main.{Printed, intra, inter, total}

abbrev pub same_bytes : List ℕ → List ℕ → Bool
same_bytes [] [] = true
same_bytes [] (c ∷ b) = false
same_bytes (c ∷ a) [] = false
same_bytes (c ∷ a) (d ∷ b) = (c == d) && same_bytes a b

abbrev pub zero_page : List ℕ
zero_page = replicate page_size 0

-- A page counts if it is not zero, and is alone if no two page tables refer to it either.
abbrev pub is_nonzero : Held → Bool
is_nonzero held = not (same_bytes held.bytes zero_page)

abbrev pub is_alone : Held → Bool
is_alone held = is_nonzero held && not (lt_int (pos 1) held.users)

-- What the pages hold that count, and that are alone.
abbrev pub nonzero_of : List Held → List (List ℕ)
nonzero_of pages = map (λ (held : Held). held.bytes) (select is_nonzero pages)

abbrev pub alone_of : List Held → List (List ℕ)
alone_of pages = map (λ (held : Held). held.bytes) (select is_alone pages)

abbrev pub is_among : List ℕ → List (List ℕ) → Bool
is_among a [] = false
is_among a (b ∷ bs) = same_bytes b a || is_among a bs

-- How many different ones there are.
abbrev pub different : List (List ℕ) → ℕ
different [] = 0
different (a ∷ more) = to_nat (not (is_among a more)) + different more

-- Is it among those of a process other than number `this`? The first process has number `i`.
abbrev pub is_elsewhere : ℕ → List ℕ → ℕ → List (List (List ℕ)) → Bool
is_elsewhere this a i [] = false
is_elsewhere this a i (bs ∷ bss) =
    (not (i == this) && is_among a bs) || is_elsewhere this a (suc i) bss

-- The pages that count, less the different ones that are alone.
abbrev pub intra_held : List Held → ℤ
intra_held pages = sub_ℕ (count_if is_nonzero pages) (different (alone_of pages))

-- The pages that are alone and that another process holds too.
abbrev pub inter_held : List (List (List ℕ)) → ℕ → List Held → ℕ
inter_held used i pages =
    count_if (λ (held : Held). is_alone held && is_elsewhere i held.bytes 0 used) pages

-- The different ones that are alone, here and in another process, and the pages that count.
abbrev pub total_held : List (List (List ℕ)) → ℕ → List Held → ℕ × ℕ
total_held found i pages =
    (different (select (λ a. is_elsewhere i a 0 found) (alone_of pages)), count_if is_nonzero pages)

abbrev pub first_two_held : List (List Held) → List Printed
first_two_held held =
    inter (map_index (inter_held (map nonzero_of held)) 0 held) ∷ (intra (map intra_held held) ∷ [])

abbrev pub all_three_held : List (List Held) → List Printed
all_three_held held =
    total (map_index (total_held (map alone_of held)) 0 held) ∷ first_two_held held
