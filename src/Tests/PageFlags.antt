-- ===== src/Tests/PageFlags.antt =====
-- The names of page flags in jni/mem.c, at two words.
use memdump.Base.{◌^◌, ◌+◌, ◌≡◌, true, false, ok, exit}
use memdump.Base.Int.{negsuc}
use memdump.Mem.Flags.{page_flag_names, page_flag_name, walk_swap}
use memdump.Mem.Flags.Laws.{letters, swap_letters, page_flag_name_lem, walk_swap_lem}

-- Bit 27 has no name.
page_flag_name_lem_example : page_flag_name (2 ^ 27 + 144) ≡ exit
page_flag_name_lem_example = page_flag_name_lem (2 ^ 27 + 144)

-- Slab and dirty.
named_run : page_flag_name 144 ≡ ok (letters 144 0 page_flag_names)
named_run = page_flag_name_lem 144

-- A page that is swapped out to the offset 5, and was written to.
walk_swap_lem_example :
    walk_swap 7 (2 ^ 62 + 2 ^ 55 + 160)
    ≡ ok (record {
      cnt = negsuc 0;
      voffset = 7;
      offset = 5;
      flags = swap_letters true false true false;
    })
walk_swap_lem_example = walk_swap_lem 7 (2 ^ 62 + 2 ^ 55 + 160)
