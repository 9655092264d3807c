-- ===== src/Mem/Maps.antt =====
-- `parse_maps` of jni/mem.c: the regions of a process from the lines of /proc/<pid>/maps.
pub mod Laws
use memdump.Base.{
  ℕ, ◌+◌, ◌*◌, ◌==◌, ltb, if◌then◌else◌, Bool, true, false, not, ◌&&◌, Option, none, some, List, [],
  ◌∷◌, ◌++◌, Run, ok, fault, deref, ◌>>=◌,
}
use memdump.Base.Int.{ℤ, pos, le_int}
use memdump.Base.Loop.{fold_run}
use memdump.Mem.{MemReg, Process, mr_page_num, mr_is_anon}

-- What `sscanf` reads of a line, for the fields that are used; `path` is empty if it is missing.
pub record Fields : Type 0 where
  pub start_address : ℕ
  pub end_address : ℕ
  pub r : ℕ
  pub w : ℕ
  pub x : ℕ
  pub s : ℕ
  pub path : List ℕ

-- C's `sscanf` with the format of a line, none where it reads fewer than 10 fields, and `sprintf`
-- with the format `[0x%lx]`.
pub record Stdio : Type 0 where
  pub sscanf : List ℕ → Option Fields
  pub sprintf : ℕ → List ℕ

-- An element of the array `maps`, where `none` is memory that was never written. `pages` is not
-- written here, and nothing reads it before `read_mem` does.
abbrev pub Slot : Type 0
Slot = Option MemReg

-- `p->maps = …; p->maps_size = …; p->maps_cap = …`
abbrev pub with_maps : Process → List MemReg → ℕ → ℕ → Process
with_maps p maps size cap = record p { maps = maps; maps_size = size; maps_cap = cap }

-- The path, or a name made from the address.
abbrev pub name_of : Stdio → Fields → List ℕ
name_of stdio f = elim f.path [ [] ↦ stdio.sprintf f.start_address | c ∷ rest ↦ f.path ]

unfoldable pub region_of : Stdio → Fields → MemReg
region_of stdio f = record {
  start = f.start_address;
  end = f.end_address;
  pathname = some (name_of stdio f);
  pages = [];
  r = f.r;
  w = f.w;
  x = f.x;
  s = f.s;
}

-- Where `sscanf` fails the element is left as it was.
unfoldable pub parse_maps_line : Stdio → List ℕ → Slot → Slot
unfolding region_of
parse_maps_line stdio line mr = elim (stdio.sscanf line) [
  | none ↦ mr
  | some f ↦ some (region_of stdio f)
]

-- The body of the loop, on the process and the element number `maps_size` of its array.
unfoldable pub parse_maps_body : Stdio → Bool → ℤ → List ℕ → Process × Slot → Run (Process × Slot)
unfolding parse_maps_line
parse_maps_body stdio filter_anon minsize line (p, slot) =
    let cap = if p.maps_cap == p.maps_size + 1 then p.maps_cap * 2 else p.maps_cap in
    let slot' = parse_maps_line stdio line slot in
    if ltb p.maps_size cap
    then (do
      mr ← deref slot'
      if filter_anon && not (mr_is_anon mr)
          then ok (with_maps p p.maps p.maps_size cap, slot')
          else (if le_int (mr_page_num mr) minsize
              then ok (with_maps p p.maps p.maps_size cap, slot')
              else ok (with_maps p (p.maps ++ (mr ∷ [])) (p.maps_size + 1) cap, none)))
    else fault

-- `lines` are what `fgets` returns, until it returns NULL.
unfoldable pub parse_maps : Stdio → Process → Bool → ℤ → List (List ℕ) → Run Process
unfolding parse_maps_body
parse_maps stdio p filter_anon minsize lines = do
  (p', slot) ← fold_run (parse_maps_body stdio filter_anon minsize) lines (with_maps p [] 0 4, none)
  ok p'

-- After the maps file is opened.
unfoldable pub proc_do_maps : Stdio → Process → List (List ℕ) → Run Process
unfolding parse_maps
proc_do_maps stdio p lines = parse_maps stdio p false (pos 0) lines
