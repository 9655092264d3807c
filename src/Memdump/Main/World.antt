-- ===== src/Memdump/Main/World.antt =====
-- What `main` of jni/memdump.c prints of a process, by what the process holds in its memory.
use memdump.Base.{◌+◌, ◌*◌, ◌/◌, flat_map_index}
use memdump.Base.Int.{ℤ}
use memdump.Mem.{MemReg, span}
use memdump.Mem.Image.{images}
use memdump.Mem.Files.World.{World}
use memdump.Mem.Print.{RegionPages, page_line}

module _ (w : World) (pid : ℤ) where
  -- The lines of a region: each page that a page table refers to, with the address at which it
  -- begins, the hash of what it holds, and how many refer to it.
  abbrev pub region_image : MemReg → RegionPages
  region_image mr = record {
    start = mr.start;
    end = mr.end;
    name = mr.pathname;
    lines =
        flat_map_index (λ i page. page_line (mr.start + i * 4096) page) 0
          (images (w.content pid) (w.entry pid) w.count mr 0 (span mr / 4096));
  }
