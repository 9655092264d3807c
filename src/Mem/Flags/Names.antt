-- ===== src/Mem/Flags/Names.antt =====
-- The numbers of the page flags in jni/mem.c, and the table of their names.
use memdump.Base.{ℕ, ◌≡◌, refl, Option, none, some, List, [], ◌∷◌, set, replicate}
use memdump.Mem.Flags.{page_flag_names}

-- The constants `KPF_…`.
data Kpf : Type 0 where
  locked error referenced uptodate dirty lru active slab writeback reclaim buddy mmap : Kpf
  anon swapcache swapbacked compound_head compound_tail huge unevictable hwpoison nopage : Kpf
  ksm thp balloon zero_page idle pgtable reserved mlocked mappedtodisk private private_2 : Kpf
  owner_private arch uncached softdirty readahead slob_free slub_frozen slub_debug file : Kpf
  swap mmap_exclusive : Kpf

abbrev kpf : Kpf → ℕ
kpf locked = 0
kpf error = 1
kpf referenced = 2
kpf uptodate = 3
kpf dirty = 4
kpf lru = 5
kpf active = 6
kpf slab = 7
kpf writeback = 8
kpf reclaim = 9
kpf buddy = 10
kpf mmap = 11
kpf anon = 12
kpf swapcache = 13
kpf swapbacked = 14
kpf compound_head = 15
kpf compound_tail = 16
kpf huge = 17
kpf unevictable = 18
kpf hwpoison = 19
kpf nopage = 20
kpf ksm = 21
kpf thp = 22
kpf balloon = 23
kpf zero_page = 24
kpf idle = 25
kpf pgtable = 26
kpf reserved = 32
kpf mlocked = 33
kpf mappedtodisk = 34
kpf private = 35
kpf private_2 = 36
kpf owner_private = 37
kpf arch = 38
kpf uncached = 39
kpf softdirty = 40
kpf readahead = 48
kpf slob_free = 49
kpf slub_frozen = 50
kpf slub_debug = 51
kpf file = 61
kpf swap = 62
kpf mmap_exclusive = 63

-- The designated initializers, by the first letter of the name.
abbrev letter : Kpf → ℕ
letter locked = b'L'
letter error = b'E'
letter referenced = b'R'
letter uptodate = b'U'
letter dirty = b'D'
letter lru = b'l'
letter active = b'A'
letter slab = b'S'
letter writeback = b'W'
letter reclaim = b'I'
letter buddy = b'B'
letter mmap = b'M'
letter anon = b'a'
letter swapcache = b's'
letter swapbacked = b'b'
letter compound_head = b'H'
letter compound_tail = b'T'
letter huge = b'G'
letter unevictable = b'u'
letter hwpoison = b'X'
letter nopage = b'n'
letter ksm = b'x'
letter thp = b't'
letter balloon = b'o'
letter zero_page = b'z'
letter idle = b'i'
letter pgtable = b'g'
letter reserved = b'r'
letter mlocked = b'm'
letter mappedtodisk = b'd'
letter private = b'P'
letter private_2 = b'p'
letter owner_private = b'O'
letter arch = b'h'
letter uncached = b'c'
letter softdirty = b'f'
letter readahead = b'I'
letter slob_free = b'P'
letter slub_frozen = b'A'
letter slub_debug = b'E'
letter file = b'F'
letter swap = b'w'
letter mmap_exclusive = b'1'

-- The flags in the order of the initializers.
abbrev initialized : List Kpf
initialized =
    locked ∷ error ∷ referenced ∷ uptodate ∷ dirty ∷ lru ∷ active ∷ slab ∷ writeback ∷ reclaim
    ∷ buddy ∷ mmap ∷ anon ∷ swapcache ∷ swapbacked ∷ compound_head ∷ compound_tail ∷ huge
    ∷ unevictable ∷ hwpoison ∷ nopage ∷ ksm ∷ thp ∷ balloon ∷ pgtable ∷ zero_page ∷ idle ∷ reserved
    ∷ mlocked ∷ mappedtodisk ∷ private ∷ private_2 ∷ owner_private ∷ arch ∷ uncached ∷ softdirty
    ∷ readahead ∷ slob_free ∷ slub_frozen ∷ slub_debug ∷ file ∷ swap ∷ mmap_exclusive ∷ []

-- An array with its initializers: an element that none designates is NULL.
abbrev designate : List Kpf → List (Option ℕ)
designate [] = replicate 64 none
designate (flag ∷ flags) = set (designate flags) (kpf flag) (some (letter flag))

-- The table has the letter of each flag at its number.
page_flag_names_lem : page_flag_names ≡ designate initialized
page_flag_names_lem = refl
