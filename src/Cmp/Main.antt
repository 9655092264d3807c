-- ===== src/Cmp/Main.antt =====
-- `main` of jni/cmp.c. The time that is reported is left out.
pub mod Outcome
pub mod Images
pub mod World
pub mod Meant
use memdump.Base.{
  ℕ, suc, ◌==◌, if◌then◌else◌, Option, none, some, List, [], ◌∷◌, length, get_elem?, Run, deref,
}
use memdump.Base.Int.{ℤ, pos, negsuc}
use memdump.Mem.{Process}
use memdump.Mem.Hash.{init_zero_page_hash}
use memdump.Mem.Files.{
  new_process, proc_attach, proc_detach, proc_do_files, proc_parse_pagemap, proc_del,
}
use memdump.RbTree.{RbTree}
use memdump.Cmp.{Redund, Qsort, Line, print_simi}
use memdump.Sys.{Os, Act, printed, ◌>>=◌, ◌>>◌, pure, lift, call, report}

-- What is printed: the usage, with the name of the program, the two numbers, and the pairs.
pub data Printed : Type 0 where
  usage : Option (List ℕ) → Printed
  pids : ℤ → ℤ → Printed
  simi : List Line → Printed

module _ {F : Type 0} (os : Os Printed F) where
  -- Both processes are stopped and read.
  unfoldable pub read_both : ℤ → ℤ → Act Printed (Process × Process)
  read_both pid1 pid2 = do
    p1 ← new_process os pid1
    p2 ← new_process os pid2
    proc_attach os p1
    proc_attach os p2
    p1' ← proc_do_files os p1
    p2' ← proc_do_files os p2
    p1'' ← proc_parse_pagemap os p1'
    p2'' ← proc_parse_pagemap os p2'
    pure (p1'', p2'')

  unfoldable pub main : ⦃rb : RbTree⦄ → ⦃sort : Qsort Redund⦄ → List (List ℕ) → Act Printed ℤ
  unfolding read_both
  main argv =
      if length argv == 3
      then (do
        arg1 ← lift (deref (get_elem? argv 1))
        arg2 ← lift (deref (get_elem? argv 2))
        let pid1 = os.atoi arg1
        let pid2 = os.atoi arg2
        zero_page_hash ← lift init_zero_page_hash
        (p1, p2) ← read_both pid1 pid2
        call (printed (pids pid1 pid2))
        report simi (print_simi zero_page_hash p1 p2)
        proc_detach os p1
        proc_detach os p2
        proc_del os p1
        proc_del os p2
        pure (pos 0))
      else (do call (printed (usage (get_elem? argv 0))); pure (negsuc 0))
