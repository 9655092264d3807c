-- ===== src/Mem.antt =====
-- jni/mem.c and mem.h: the data of the dumper and its accessors. The children model its parts.
-- The model is for an LP64 target: `unsigned long` and `size_t` have 64 bits, `int` has 32.
pub mod Hash
pub mod Maps
pub mod Read
pub mod Pagemap
pub mod Files
pub mod Image
pub mod Timer
pub mod Print
pub mod Flags
use memdump.Base.{
  ℕ, ◌+◌, ◌-◌, ◌/◌, ◌%◌, ◌^◌, ◌==◌, ◌||◌, Bool, true, false, Option, none, some, List, [], ◌∷◌,
  get_elem?, take,
}
use memdump.Base.Int.{ℤ, pos, negsuc, to_int, pos_part, lt_int}

-- `const size_t pageSize`.
abbrev pub page_size : ℕ
page_size = 4096

-- `share` counts the page table entries that refer to the page.
pub record Page : Type 0 where
  pub hash : ℕ
  pub share : ℤ

-- `perms`, which nothing reads, is left out. `pathname` is NULL or a string.
pub record MemReg : Type 0 where
  pub start : ℕ
  pub end : ℕ
  pub pathname : Option (List ℕ)
  pub pages : List Page
  pub r : ℕ
  pub w : ℕ
  pub x : ℕ
  pub s : ℕ

-- `ppid` and `name`, which nothing sets or reads, are left out. A `FILE *` is its descriptor, or NULL.
pub record Process : Type 0 where
  pub pid : ℤ
  pub maps : List MemReg
  pub maps_size : ℕ
  pub maps_cap : ℕ
  pub maps_file : Option ℕ
  pub mem_file : Option ℕ
  pub pagemap_fd : ℤ
  pub no_name_cnt : ℕ

-- The process with what `malloc` left in the fields that are not set.
unfoldable pub proc_init : ℤ → List MemReg → ℕ → ℕ → Process
proc_init pid maps maps_size maps_cap = record {
  pid = pid;
  maps = maps;
  maps_size = maps_size;
  maps_cap = maps_cap;
  maps_file = none;
  mem_file = none;
  pagemap_fd = negsuc 0;
  no_name_cnt = 0;
}

unfoldable pub proc_mr_num : Process → ℤ
proc_mr_num p = to_int p.maps_size

unfoldable pub proc_get_mr : Process → ℕ → Option MemReg
proc_get_mr p index = get_elem? p.maps index

unfoldable pub proc_get_pid : Process → ℤ
proc_get_pid p = p.pid

-- `mr->end - mr->start` on `unsigned long`.
abbrev pub span : MemReg → ℕ
span mr = (mr.end + 2 ^ 64 - mr.start) % 2 ^ 64

unfoldable pub mr_page_num : MemReg → ℤ
mr_page_num mr = to_int (span mr / page_size)

unfoldable pub mr_get_page : MemReg → ℕ → Option Page
mr_get_page mr index = get_elem? mr.pages index

unfoldable pub mr_get_name : MemReg → Option (List ℕ)
mr_get_name mr = mr.pathname

unfoldable pub mr_get_start : MemReg → ℕ
mr_get_start mr = mr.start

-- The static `str[5]` that is returned: its last byte is never written and stays 0.
unfoldable pub mr_get_perm : MemReg → List ℕ
mr_get_perm mr = mr.r ∷ mr.w ∷ mr.x ∷ mr.s ∷ 0 ∷ []

-- An empty string starts with its end, 0.
unfoldable pub mr_is_anon : MemReg → Bool
mr_is_anon mr = elim mr.pathname [
  | none ↦ true
  | some path ↦ elim path [ [] ↦ false | c ∷ rest ↦ c == b'[' ]
]

unfoldable pub page_to_u32 : Page → ℕ
page_to_u32 p = p.hash

-- `zero_page_hash` is a global of mem.c, here an argument.
unfoldable pub page_is_zero : ℕ → Page → Bool
page_is_zero zero_page_hash p = p.hash == zero_page_hash

unfoldable pub page_count : Page → ℤ
page_count p = p.share

-- What the loops over a region and over a process see: `i < n` for the `int` count `n`.
abbrev pub pages_of : MemReg → List Page
pages_of mr = take (pos_part (mr_page_num mr)) mr.pages

abbrev pub regions_of : Process → List MemReg
regions_of p = take (pos_part (proc_mr_num p)) p.maps
