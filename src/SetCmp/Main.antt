-- ===== src/SetCmp/Main.antt =====
-- `main` of jni/setcmp.c: the processes are read one after the other, three reports are printed,
-- and the processes are deleted. If a report ends in a fault, what it had printed is left out.
pub mod Open
pub mod Laws
pub mod Outcome
pub mod Numbers
pub mod Bytes
pub mod Kept
pub mod Told
pub mod World
pub mod Meant
use memdump.Base.{
  ℕ, suc, ◌+◌, ◌-◌, ◌||◌, leb, if◌then◌else◌, Option, List, [], ◌∷◌, ◌++◌, length, get_elem?, Run,
  arith,
}
use memdump.Base.Int.{ℤ, pos, negsuc}
use memdump.Mem.{Process}
use memdump.Mem.Hash.{init_zero_page_hash}
use memdump.Mem.Files.{new_process, read_process, proc_del}
use memdump.RbTree.{RbTree}
use memdump.SetCmp.{max_pid, print_intra_simi, print_inter_simi}
use memdump.SetCmp.Report.{print_total_dup}
use memdump.Sys.{Os, Act, printed, ◌>>=◌, ◌>>◌, pure, lift, call, report, act_each}

-- What is printed: the usage, with the name of the program, and the three reports.
pub data Printed : Type 0 where
  usage : Option (List ℕ) → Printed
  intra : List ℤ → Printed
  inter : List ℕ → Printed
  total : List (ℕ × ℕ) → Printed

module _ {F : Type 0} (os : Os Printed F) where
  -- The loop that makes the processes, for `argv[1]` to `argv[num_pid]`.
  unfoldable pub make_processes : ℕ → List (List ℕ) → Act Printed (List Process)
  make_processes num_pid argv =
      act_each num_pid 1 argv
        (λ _ arg proc. do p ← new_process os (os.atoi arg); pure (proc ++ (p ∷ []))) []

  -- The loop that reads them.
  unfoldable pub read_processes : ℕ → List Process → Act Printed (List Process)
  read_processes num_pid proc =
      act_each num_pid 0 proc (λ _ p done. do p' ← read_process os p; pure (done ++ (p' ∷ []))) []

  unfoldable pub delete_processes : ℕ → List Process → Act Printed (Unit {0})
  delete_processes num_pid proc = act_each num_pid 0 proc (λ _ p u. proc_del os p) tt

  unfoldable pub main : ⦃rb : RbTree⦄ → List (List ℕ) → Act Printed ℤ
  unfolding make_processes read_processes delete_processes
  main argv =
      if leb (length argv) 2 || leb max_pid (length argv)
      then (do call (printed (usage (get_elem? argv 0))); pure (negsuc 0))
      else (do
        let num_pid = length argv - 1
        zero_page_hash ← lift init_zero_page_hash
        made ← make_processes num_pid argv
        proc ← read_processes num_pid made
        report intra (print_intra_simi zero_page_hash proc num_pid)
        report inter (print_inter_simi zero_page_hash proc num_pid)
        report total (print_total_dup zero_page_hash proc num_pid)
        delete_processes num_pid proc
        pure (pos 0))
