-- ===== src/Mem/Flags.antt =====
-- The flags of a page in jni/mem.c: their names, and the line that `walk_swap` prints. Flags are a
-- 64-bit word, as a number.
pub mod Laws
pub mod Names
use Prim.Native.Nat.{bit_or, bit_xor}
use memdump.Base.{
  ℕ, ◌+◌, ◌-◌, ◌/◌, ◌%◌, ◌^◌, ◌==◌, ◌&&◌, ◌≡◌, not, ltb, if◌then◌else◌, Bool, Option, none, some,
  List, [], ◌∷◌, ◌++◌, length, Run, ok, exit, fault, ◌>>=◌,
}
use memdump.Base.Int.{ℤ, pos, negsuc}
use memdump.Base.Loop.{for_each}

-- The first letters of `page_flag_names`; some elements are NULL.
abbrev pub page_flag_names : List (Option ℕ)
page_flag_names =
    some b'L'
    ∷ some b'E'
    ∷ some b'R'
    ∷ some b'U'
    ∷ some b'D'
    ∷ some b'l'
    ∷ some b'A'
    ∷ some b'S'
    ∷ some b'W'
    ∷ some b'I'
    ∷ some b'B'
    ∷ some b'M'
    ∷ some b'a'
    ∷ some b's'
    ∷ some b'b'
    ∷ some b'H'
    ∷ some b'T'
    ∷ some b'G'
    ∷ some b'u'
    ∷ some b'X'
    ∷ some b'n'
    ∷ some b'x'
    ∷ some b't'
    ∷ some b'o'
    ∷ some b'z'
    ∷ some b'i'
    ∷ some b'g'
    ∷ none
    ∷ none
    ∷ none
    ∷ none
    ∷ none
    ∷ some b'r'
    ∷ some b'm'
    ∷ some b'd'
    ∷ some b'P'
    ∷ some b'p'
    ∷ some b'O'
    ∷ some b'h'
    ∷ some b'c'
    ∷ some b'f'
    ∷ none
    ∷ none
    ∷ none
    ∷ none
    ∷ none
    ∷ none
    ∷ none
    ∷ some b'I'
    ∷ some b'P'
    ∷ some b'A'
    ∷ some b'E'
    ∷ none
    ∷ none
    ∷ none
    ∷ none
    ∷ none
    ∷ none
    ∷ none
    ∷ none
    ∷ none
    ∷ some b'F'
    ∷ some b'w'
    ∷ some b'1'
    ∷ []

-- `(flags >> i) & 1`, which is also how `flags & BIT(...)` is tested.
abbrev pub has_bit : ℕ → ℕ → Bool
has_bit i flags = flags / 2 ^ i % 2 == 1

-- `buf[j++] = c`, for `char buf[65]`.
abbrev pub put : ℕ → List ℕ → Run (List ℕ)
put c buf = if ltb (length buf) 65 then ok (buf ++ (c ∷ [])) else fault

-- The body of the loop of `page_flag_name`.
unfoldable pub flag_letter : ℕ → ℕ → Option ℕ → List ℕ → Run (List ℕ)
flag_letter flags i none buf = if has_bit i flags then exit else ok buf
flag_letter flags i (some c) buf = put (if has_bit i flags then c else b'-') buf

-- Each call writes the same elements of the static buffer, and the others stay 0.
unfoldable pub page_flag_name : ℕ → Run (List ℕ)
unfolding flag_letter
page_flag_name flags = for_each (length page_flag_names) 0 page_flag_names (flag_letter flags) []

-- `flags ^= BIT(...) | BIT(...)` and `flags |= BIT(...)`, under a condition.
abbrev pub flip_if : Bool → ℕ → ℕ → ℕ → ℕ
flip_if test i j flags = if test then bit_xor flags (2 ^ i + 2 ^ j) else flags

abbrev pub raise_if : Bool → ℕ → ℕ → ℕ
raise_if test i flags = if test then bit_or flags (2 ^ i) else flags

-- SLAB is bit 7, PRIVATE 35, ACTIVE 6, ERROR 1; they move to 49, 50 and 51. RECLAIM is bit 9, which
-- moves to READAHEAD, 48, without WRITEBACK, 8. SOFTDIRTY is bit 40, FILE 61, SWAP 62 and
-- MMAP_EXCLUSIVE 63.
unfoldable pub kpageflags_flags : ℕ → ℕ → ℕ
kpageflags_flags flags pme =
    let slab = has_bit 7 flags in
    let flags1 = flip_if (slab && has_bit 35 flags) 35 49 flags in
    let flags2 = flip_if (slab && has_bit 6 flags1) 6 50 flags1 in
    let flags3 = flip_if (slab && has_bit 1 flags2) 1 51 flags2 in
    let flags4 = flip_if (has_bit 9 flags3 && not (has_bit 8 flags3)) 9 48 flags3 in
    raise_if (has_bit 56 pme) 63 (
      raise_if (has_bit 62 pme) 62
        (raise_if (has_bit 61 pme) 61 (raise_if (has_bit 55 pme) 40 flags4)))

-- `PM_SWAP_OFFSET` of a page that is swapped out.
unfoldable pub pagemap_swap_offset : ℕ → ℕ
pagemap_swap_offset val = if has_bit 62 val then val % 2 ^ 55 / 2 ^ 5 else 0

-- `(int64_t) cnt`.
abbrev pub to_long : ℕ → ℤ
to_long n = if ltb n (2 ^ 63) then pos n else negsuc (2 ^ 64 - n - 1)

pub record PageFlags : Type 0 where
  pub cnt : ℤ
  pub voffset : ℕ
  pub offset : ℕ
  pub flags : List ℕ

unfoldable pub show_page : ℕ → ℕ → ℕ → ℕ → Run PageFlags
unfolding page_flag_name
show_page voffset offset flags cnt = do
  name ← page_flag_name flags
  ok (record { cnt = to_long cnt; voffset = voffset; offset = offset; flags = name })

-- Its call in `walk_pfn` is commented out.
unfoldable pub print_page_flags_cnt : ℕ → ℕ → ℕ → ℕ → ℕ → Run PageFlags
unfolding kpageflags_flags show_page
print_page_flags_cnt voffset offset flags cnt pme =
    show_page voffset offset (kpageflags_flags flags pme) cnt

unfoldable pub walk_swap : ℕ → ℕ → Run PageFlags
unfolding kpageflags_flags pagemap_swap_offset show_page
walk_swap voffset pme =
    show_page voffset (pagemap_swap_offset pme) (kpageflags_flags 0 pme) (2 ^ 64 - 1)
