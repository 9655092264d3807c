-- ===== src/Memdump.antt =====
-- jni/memdump.c: statistics of the regions of one process. The numbers of the report are listed.
pub mod Laws
pub mod Main
use memdump.Base.{ℕ, ◌+◌, if◌then◌else◌, Option, List, [], ◌∷◌, ◌++◌, Run, ok, ◌>>=◌}
use memdump.Base.Int.{ℤ, pos_part}
use memdump.Base.Loop.{for_each}
use memdump.Mem.{
  Page, MemReg, Process, proc_mr_num, mr_page_num, mr_get_name, mr_is_anon, page_is_zero,
}
use memdump.Mem.Maps.{Stdio, proc_do_maps}
use memdump.Mem.Read.{Stream, proc_do}

-- How many regions are anonymous, and how many there are. `p` is what `proc_init` returns.
unfoldable pub maps_stat : Stdio → Process → List (List ℕ) → Run (ℕ × ℤ)
maps_stat stdio p lines = do
  p' ← proc_do_maps stdio p lines
  nr_anon ←
      for_each (pos_part (proc_mr_num p')) 0 p'.maps
        (λ _ mr nr_anon. ok (if mr_is_anon mr then nr_anon + 1 else nr_anon)) 0
  ok (nr_anon, proc_mr_num p')

-- The line of a region: its pages, those that are not zero, and its name.
unfoldable pub nonzero_line : ℕ → MemReg → Run (ℤ × ℕ × Option (List ℕ))
nonzero_line zero_page_hash mr = do
  nr_nonzero ←
      for_each (pos_part (mr_page_num mr)) 0 mr.pages
        (λ _ page n. ok (if page_is_zero zero_page_hash page then n else n + 1)) 0
  ok (mr_page_num mr, nr_nonzero, mr_get_name mr)

unfoldable pub nonzero_stat {ℓ} :
    {F : Type ℓ}
    → Stream F
    → ℕ
    → Stdio
    → Process
    → List (List ℕ)
    → F
    → Run (List (ℤ × ℕ × Option (List ℕ)))
unfolding nonzero_line
nonzero_stat io zero_page_hash stdio p lines file = do
  (p', file') ← proc_do io stdio p lines file
  for_each (pos_part (proc_mr_num p')) 0 p'.maps
      (λ _ mr out. do l ← nonzero_line zero_page_hash mr; ok (out ++ (l ∷ []))) []
