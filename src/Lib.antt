-- ===== src/Lib.antt =====
-- A model of memdump, the tool that compares the memory of Android processes page by page.
--
-- The program reads the mapped regions of processes under ptrace (jni/mem.c), hashes each page,
-- gathers the hashes in multisets on a red-black tree (jni/simi.c), and prints how many pages of a
-- process occur twice, within it or in others (jni/setcmp.c, jni/cmp.c), or statistics of the
-- regions of one process (jni/memdump.c).
--
-- The files:
--   Base      what the parts share: outcomes of C code (`Run`: a value, `exit`, or `fault`, an
--             access outside its object), counted loops over arrays, `int`, lists, xor.
--   RbTree    the red-black tree library of jni/rbtree.c, a copy of Linux's lib/rbtree.c. It is
--             not modelled: `RbTree` is the interface that jni/simi.c relies on, with the library's
--             documented laws (the in-order sequence of the entries is kept by `rb_insert_color`,
--             and loses just the erased entry by `rb_erase`; `rb_first` and `rb_next` walk it).
--             All theorems hold for each implementation of it; RbTree/Plain is one, for tests.
--   Simi      jni/simi.c: `struct Set` and its functions, by the names in the source. Children:
--             the order of the values, insertion, search, counts, freeing, and the cursor;
--             Simi/Bag has multisets as a quotient of lists, the contract of jni/simi.h, and
--             Simi/Clients and Simi/Refine the clients that use either, and see values but not the
--             entries that the cursor points to, and Simi/Shown compares the two as types.
--   Mem       jni/mem.c: the records and accessors; Mem/Hash is `page_hash`; Mem/Maps is the loop
--             of `parse_maps` over the lines of /proc/<pid>/maps; Mem/Read is `read_mem`, on a stream;
--             Mem/Pagemap is `mr_parse_pagemap`, on the kernel's files; Mem/Pagemap/Content has one
--             of its rounds, Mem/Pagemap/Region all of them. What the C library and the kernel do
--             is a parameter: `Stdio`, `Stream`, `Kernel`, and `Qsort` in Cmp.
--             Mem/Print has what is printed of a process, Mem/Flags the names of page flags, and
--             Mem/Flags/Names their numbers and the table.
--             Mem/Timer is the timer around `read_mem`, on a parameter `Double`; the other files leave
--             it out.
--             Mem/Files has what calls the operating system: ptrace, the files, and `proc_del`;
--             Mem/Files/Content has what a process holds when all of it was read.
--             Mem/Image has the pages of a process, apart from how they are stored; Mem/Files/World
--             has processes that hold such pages (`World`), and a system whose files, under the names
--             that the program opens, have what the processes hold (`IsLive`).
--   Sys       the operating system, a parameter `Os`: whether a call succeeds, and what the files
--             hold, may depend on all that was done before. A program extends a history of its
--             calls, from which it is read off which files are open, which processes are stopped, and
--             what was printed.
--   SetCmp    jni/setcmp.c: the functions that build sets and the reports of `main`; SetCmp/Report
--             has the reports that `main` leaves out, and `print_total_dup`; SetCmp/Main is `main`.
--             SetCmp/Main/Numbers has the numbers of the reports from the hashes of the pages,
--             SetCmp/Main/Bytes has them by content, with no hash in them, and SetCmp/Main/World and
--             SetCmp/Main/Meant compare both with what `main` prints.
--             The other children have the theorems, one file for each function or report.
--   Cmp       jni/cmp.c: the comparison of two processes; Cmp/Main is `main`, Cmp/Main/Images has
--             the lines that it prints, by what the processes hold, and Cmp/Main/Meant by content.
--   Memdump   jni/memdump.c: the two statistics of regions; Memdump/Main is `main` and its options.
--   Sock      jni/sock.c, which no program links: `open_socket` and `dump_memory_region_send`. The
--             sockets are the parameter `Network`, whose answers to `connect` the history has;
--             `Options` is `struct Option` of jni/opt.h.
--   Tests     the functions run on small inputs.
--
-- Conventions. The target has 64-bit `long` and 32-bit `int`. A pointer to a set or a process is
-- the record itself, passed through the calls that change it; the global `zero_page_hash` is an
-- argument. Text on stderr is the list of the numbers and names that are printed, without headings
-- and separators. `malloc` is taken to succeed. `while` loops over a tree run on fuel: the number of
-- nodes for `set_free`, and one more for the cursor of `print_total_dup`; the theorems show that
-- this is enough. Counts of entries are natural numbers, equal to the `int` of the program below
-- 2^31 entries.
--
-- The theorems on what the programs print of the memory of processes assume that the memory stays
-- as it is while it is read, that each page of a region has a frame, and, where they speak of content
-- instead of hashes, that no two different pages have the same hash (`Tells`), which among many
-- pages some may have, as a hash has 32 bits.
--
-- A theorem on reports speaks of loaded processes (`IsLoaded`): the arrays of regions and of pages
-- are as long as the program counts.
--
-- Fuel of `read_mem`: the size of the array of pages; of the pagemap loops: the number of entries.
-- Of `mem_print_pages`: one more than the pages of the region.
-- The array of a region has one page more than the region spans, so no round is missing.
--
-- The lines of swapped pages are printed while the pagemap is read: they are results of
-- `mr_parse_pagemap` next to the region, and events (`showed`) of the history, apart from what the
-- reports print. Lines that were printed before an exit are left out.
--
-- Fuel of `dump_memory_region_send`: one more than the pages that the length spans.
--
-- Not modelled: jni/rbtree.c (a library), the test programs and the shell scripts.
pub mod Base
pub mod RbTree
pub mod Simi
pub mod Mem
pub mod SetCmp
pub mod Sys
pub mod Cmp
pub mod Memdump
pub mod Sock
pub mod Tests
