-- ===== src/Tests/Dumper.antt =====
-- The reading of a process by jni/mem.c, the statistics of jni/memdump.c and the comparison of
-- jni/cmp.c, on small inputs.
use memdump.Base.{
  ◌≤◌, ℕ, ◌+◌, ◌*◌, ◌<◌, ◌≡◌, ◌&&◌, refl, Bool, true, false, Option, none, some, List, [], ◌∷◌,
  length, count_if, ok, arith, map, select, replicate, length-replicate, All, All₂,
}
use memdump.Base.Int.{ℤ, pos}
use memdump.RbTree.Plain.{plain}
use memdump.Mem.{Page, MemReg, Process, regions_of, mr_is_anon, proc_mr_num, proc_init, mr_page_num}
use memdump.Mem.Maps.{
  with_maps, Fields, Stdio, region_of, parse_maps, parse_maps_body, parse_maps_line, proc_do_maps,
}
use memdump.Base.Loop.{for_each}
use memdump.Mem.Maps.Laws.{is_kept, parse_maps_lem}
use memdump.Mem.Read.{Stream, HasSize, read_mem, proc_do}
use memdump.Mem.Read.Laws.{IsMapped, Reads, read_mem_lem}
use memdump.Mem.Read.Content.{IsReadable}
use memdump.Base.{exit, ◌/◌, ◌⊎◌}
use memdump.Mem.Timer.{
  Timer, timer, mem_time_report, Double, Reading, timed_reads, mem_time_report_lem,
}
use memdump.Mem.Flags.{PageFlags}
use memdump.Mem.Pagemap.{pagemap, kpageflags, kpagecount, Kernel, mr_parse_pagemap}
use memdump.Mem.Pagemap.Laws.{mr_parse_pagemap_lem}
use memdump.SetCmp.Sets.{IsLoaded}
use memdump.Mem.Files.Laws.{IsReady}
use memdump.Simi.Order.{IsSorted}
use memdump.Memdump.{maps_stat}
use memdump.Memdump.Laws.{kept_of, proc_do_lem}
use memdump.Cmp.{Redund, line, print_simi}
use memdump.Cmp.Sort.{insertion}
use memdump.Cmp.Laws.{has_dup, region_pairs, print_simi_lem}

-- A line is a start address, an end address, and a path.
abbrev pub fields : ℕ → ℕ → List ℕ → Fields
fields start end path = record {
  start_address = start;
  end_address = end;
  r = b'r';
  w = b'w';
  x = b'-';
  s = b'p';
  path = path;
}

abbrev pub sscanf : List ℕ → Option Fields
sscanf [] = none
sscanf (start ∷ []) = none
sscanf (start ∷ (end ∷ path)) = some (fields start end path)

abbrev pub stdio : Stdio
stdio = record { sscanf = sscanf; sprintf = λ n. b'[' ∷ n ∷ b']' ∷ [] }

-- Two pages of a heap, one page of a library, and a region with no name.
abbrev pub lines : List (List ℕ)
lines =
    (4096 ∷ 12_288 ∷ b'[' ∷ b'h' ∷ [])
    ∷ (12_288 ∷ 16_384 ∷ b'/' ∷ b'l' ∷ [])
    ∷ (16_384 ∷ 20_480 ∷ [])
    ∷ []

abbrev pub lines_read : List Fields
lines_read =
    fields 4096 12_288 (b'[' ∷ b'h' ∷ [])
    ∷ fields 12_288 16_384 (b'/' ∷ b'l' ∷ [])
    ∷ fields 16_384 20_480 []
    ∷ []

abbrev pub started : Process
started = proc_init (pos 1) [] 0 0

-- A memory of zeros, whose stream is the offset.
abbrev pub zeros : Stream ℕ
zeros = record {
  fseeko = λ offset file. offset;
  fread = λ n file. (file + n, replicate n 0);
  malloc = λ n. replicate n (record { hash = 0; share = pos 0 });
}

pub zeros-HasSize : HasSize zeros
zeros-HasSize n = length-replicate n _

parse_maps_lem_example :
    (p' : Process) × (parse_maps stdio started true (pos 0) lines ≡ ok p')
    × (p'.maps ≡ select (is_kept true (pos 0)) (map (region_of stdio) lines_read))
    × (p'.maps_size ≡ length p'.maps)
    × (p'.maps_size < p'.maps_cap)
    × (p' ≡ with_maps started p'.maps p'.maps_size p'.maps_cap)
parse_maps_lem_example =
    parse_maps_lem stdio true (pos 0) lines lines_read started (refl, (refl, (refl, tt)))

maps_run : maps_stat stdio started lines ≡ ok (2, pos 3)
unfolding maps_stat proc_do_maps parse_maps parse_maps_body parse_maps_line region_of proc_init
    proc_mr_num mr_is_anon mr_page_num for_each
maps_run = refl

pub two_kept :
    kept_of stdio true lines_read
    ≡ region_of stdio (fields 4096 12_288 (b'[' ∷ b'h' ∷ []))
      ∷ region_of stdio (fields 16_384 20_480 [])
      ∷ []
unfolding region_of mr_is_anon mr_page_num
two_kept = refl

pub few_kept : length (kept_of stdio true lines_read) < 2_147_483_648
few_kept = rw two_kept (omega arith)

kept-IsMapped : All IsMapped (kept_of stdio true lines_read)
unfolding region_of mr_is_anon mr_page_num
kept-IsMapped = omega arith

pub few_regions : length (kept_of stdio false lines_read) < 2_147_483_648
unfolding region_of mr_page_num
few_regions = omega arith

proc_do_lem_example :
    (p' : Process) × (file' : ℕ) × (proc_do zeros stdio started lines 0 ≡ ok (p', file'))
    × IsLoaded p'
    × All₂ Reads (kept_of stdio true lines_read) (regions_of p')
    × (p' ≡ with_maps started p'.maps p'.maps_size p'.maps_cap)
proc_do_lem_example =
    proc_do_lem zeros stdio started lines lines_read 0 zeros-HasSize (refl, (refl, (refl, tt)))
      kept-IsMapped few_kept

abbrev pub page : ℕ → Page
page h = record { hash = h; share = pos 1 }

abbrev pub region : ℕ → List Page → MemReg
region start pages = record {
  start = start;
  end = start + 4096 * length pages;
  pathname = none;
  pages = pages;
  r = b'r';
  w = b'w';
  x = b'-';
  s = b'p';
}

abbrev process : List MemReg → Process
process maps = record started { maps = maps; maps_size = length maps; maps_cap = 4 }

abbrev pub first : Process
first = process (region 4096 (page 7 ∷ page 7 ∷ []) ∷ region 16_384 (page 5 ∷ []) ∷ [])

abbrev second : Process
second = process (region 8192 (page 7 ∷ page 5 ∷ []) ∷ [])

first-IsLoaded : IsLoaded first
unfolding proc_mr_num mr_page_num proc_init
first-IsLoaded = omega arith

pub first-IsReady : IsReady first
unfolding proc_mr_num mr_page_num proc_init
first-IsReady = omega arith

second-IsLoaded : IsLoaded second
unfolding proc_mr_num mr_page_num proc_init
second-IsLoaded = omega arith

maps-IsMapped : All IsMapped (regions_of first)
unfolding proc_mr_num proc_init
maps-IsMapped = omega arith

read_mem_lem_example :
    (p' : Process) × (file' : ℕ) × (read_mem zeros first 0 ≡ ok (p', file'))
    × IsLoaded p'
    × All₂ Reads (regions_of first) (regions_of p')
    × (p' ≡ record first { maps = p'.maps })
read_mem_lem_example = read_mem_lem zeros first 0 zeros-HasSize first-IsLoaded.0 maps-IsMapped

abbrev pub zero_content : ℕ → List ℕ
zero_content a = replicate 4096 0

pub zeros-IsReadable : IsReadable zeros zero_content
zeros-IsReadable = record {
  Mine = λ file. Unit;
  At = λ a file. a ≡ file;
  seeks = λ a file mine. refl;
  stays = λ a file at. tt;
  reads = λ a file at. refl;
  moves = λ a file at. omega arith;
  whole = λ a. length-replicate {A = ℕ} 4096 0;
}

pub zeros-Mine : (file : ℕ) → zeros-IsReadable.Mine file
unfolding zeros-IsReadable
zeros-Mine file = tt

-- Four ticks and one tick.
abbrev readings : List (Reading ℕ)
readings =
    record { p = first; file = 0; before = 5; after = 9 }
    ∷ record { p = first; file = 4096; before = 20; after = 21 }
    ∷ []

-- A quotient of whole numbers, as the two numbers.
instance abbrev quotients : Double (ℤ × ℤ)
quotients = record {
  of_long = λ n. (n, pos 1);
  divide = λ a b. (a.0, b.0);
  clocks_per_sec = pos 1_000_000;
}

mem_time_report_lem_example :
    (t : Timer) × (timed_reads zeros readings timer ≡ ok t)
    × (◌≡◌ {A = ℤ × ℤ} (mem_time_report t) (pos 5, pos 1_000_000))
mem_time_report_lem_example =
    mem_time_report_lem zeros readings zeros-HasSize
      (
        (first-IsLoaded.0, maps-IsMapped, omega arith, omega arith),
        ((first-IsLoaded.0, maps-IsMapped, omega arith, omega arith), tt),
      )
      (omega arith)

print_simi_lem_example :
    (rs : List Redund) × (print_simi 0 first second ≡ ok (map line rs))
    × IsSorted (map (λ (r : Redund). r.dup) rs)
    × ((q : Redund → Bool)
        → count_if q rs ≡ count_if (λ r. has_dup r && q r) (region_pairs 0 first second))
print_simi_lem_example = print_simi_lem 0 first second first-IsLoaded second-IsLoaded

-- Every page is present, in frame 5, and every frame has 3 users: all words are 2 ^ 63 + 5 in the
-- pagemap and 3 elsewhere.
pub fills : (bytes word : ℕ) → bytes / 8 * 8 / 8 ≤ length (replicate (bytes / 8) word)
fills bytes word = omega (arith, length-replicate {A = ℕ} (bytes / 8) word)

abbrev pub kernel : Kernel
kernel = record {
  pread = λ file bytes offset. (
    pos (bytes / 8 * 8),
    replicate (bytes / 8)
        (elim file [ pagemap ↦ 9_223_372_036_854_775_813 | kpageflags ↦ 3 | kpagecount ↦ 3 ]),
  );
  pread_le = λ file bytes offset. omega arith;
  pread_fills = λ file bytes offset. fills bytes _;
}

mr_parse_pagemap_lem_example :
    ((mr' : MemReg) × (lines : List PageFlags) × (mr_parse_pagemap kernel
          (region 4096 (page 7 ∷ page 7 ∷ []))
        ≡ ok (mr', lines))
      × (mr' ≡ record (region 4096 (page 7 ∷ page 7 ∷ [])) { pages = mr'.pages })
      × (length mr'.pages ≡ 2))
    ⊎ (mr_parse_pagemap kernel (region 4096 (page 7 ∷ page 7 ∷ [])) ≡ exit)
mr_parse_pagemap_lem_example =
    mr_parse_pagemap_lem kernel (region 4096 (page 7 ∷ page 7 ∷ [])) (omega arith) (omega arith)
      (omega arith)
