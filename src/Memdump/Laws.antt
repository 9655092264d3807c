-- ===== src/Memdump/Laws.antt =====
-- What the statistics of jni/memdump.c print.
use native.Mathlib.Nat.{zero-add}
use mathlib.Core.Path.{subst}
use memdump.Base.{
  sym, some, ℕ, ◌+◌, ◌^◌, ◌<◌, ◌≡◌, refl, ap, ◌∙◌, Bool, true, false, Option, List, [], length,
  arith, ok, select, map, map_index_const, count_if, All, All₂, take_all, if◌then◌else◌,
}
use memdump.Base.Int.{ℤ, pos, pos_part, to_int, to_int_fits, to_int-le}
use memdump.Base.Loop.Laws.{for_each_pure, fold_count, collect_lem}
use memdump.Mem.{
  MemReg, Process, proc_mr_num, mr_page_num, mr_get_name, mr_is_anon, page_is_zero, pages_of,
  regions_of,
}
use memdump.Mem.Maps.{with_maps, Fields, Stdio, region_of, proc_do_maps}
use memdump.Mem.Maps.Laws.{is_kept, parse_maps_lem}
use memdump.Mem.Read.{Stream, HasSize, proc_do}
use memdump.Mem.Read.Laws.{IsMapped, Reads, Makes, read_region_lem, read_mem_each, Reads-IsRead}
use memdump.SetCmp.Sets.{IsRead, IsLoaded, is_used}
use memdump.Memdump.{maps_stat, nonzero_line, nonzero_stat}

-- The regions that `parse_maps` keeps of the lines.
abbrev pub kept_of : Stdio → Bool → List Fields → List MemReg
kept_of stdio filter_anon fs = select (is_kept filter_anon (pos 0)) (map (region_of stdio) fs)

-- Where `sscanf` reads every line, and fewer than 2 ^ 31 regions are kept, the number of regions
-- that have pages is printed behind the number of those that are anonymous.
pub maps_stat_lem :
    (stdio : Stdio) (p : Process) (lines : List (List ℕ)) (fs : List Fields)
    → All₂ (λ line f. stdio.sscanf line ≡ some f) lines fs
    → length (kept_of stdio false fs) < 2 ^ 31
    → maps_stat stdio p lines
      ≡ ok (count_if mr_is_anon (kept_of stdio false fs), pos (length (kept_of stdio false fs)))
unfolding maps_stat proc_do_maps proc_mr_num
maps_stat_lem stdio p lines fs h small =
    let (p', runs, kept, size, room, only) = parse_maps_lem stdio false (pos 0) lines fs p h in
    let whole : p'.maps_size ≡ length (kept_of stdio false fs) = size ∙ ap length kept in
    let number : to_int p'.maps_size ≡ pos (length (kept_of stdio false fs)) =
      ap to_int whole ∙ to_int_fits (length (kept_of stdio false fs)) small in
    rw (runs, number, kept)
      (rw
        (
          for_each_pure (λ mr n. ok (if mr_is_anon mr then n + 1 else n))
              (λ mr n. if mr_is_anon mr then n + 1 else n) (length (kept_of stdio false fs))
              (kept_of stdio false fs) 0 (λ mr n. refl) (omega arith),
          take_all (length (kept_of stdio false fs)) (kept_of stdio false fs) refl,
          fold_count mr_is_anon (kept_of stdio false fs) 0,
          zero-add (count_if mr_is_anon (kept_of stdio false fs)),
        )
        refl)

module _ {ℓ} {F : Type ℓ} (io : Stream F) where
  -- `proc_do` does to each region that is kept what `read_region` does to one.
  pub proc_do_each :
      {I : F → Type ℓ} {P : MemReg → Type 0} {R : MemReg → MemReg → Type 0}
      → Makes io I P R
      → (stdio : Stdio) (p : Process) (lines : List (List ℕ)) (fs : List Fields) (file : F)
      → All₂ (λ line f. stdio.sscanf line ≡ some f) lines fs
      → I file
      → All P (kept_of stdio true fs)
      → length (kept_of stdio true fs) < 2 ^ 31
      → (p' : Process) × (file' : F) × (proc_do io stdio p lines file ≡ ok (p', file'))
        × (pos_part (proc_mr_num p') ≡ length p'.maps)
        × All₂ R (kept_of stdio true fs) (regions_of p')
        × (p' ≡ with_maps p p'.maps p'.maps_size p'.maps_cap)
  unfolding proc_do proc_mr_num
  proc_do_each {I} {P} {R} makes stdio p lines fs file h mine good small =
      let (p1, parsed, kept, size, room, only) = parse_maps_lem stdio true (pos 0) lines fs p h in
      let fits = to_int-le p1.maps_size in
      let whole : p1.maps_size ≡ length (kept_of stdio true fs) = size ∙ ap length kept in
      let number : pos_part (to_int p1.maps_size) ≡ length (kept_of stdio true fs) =
        ap (λ n. pos_part (to_int n)) whole ∙ ap pos_part (to_int_fits _ small) in
      let regions : regions_of p1 ≡ kept_of stdio true fs =
        take_all (pos_part (to_int p1.maps_size)) p1.maps (omega (arith, ap length kept)) ∙ kept in
      let (p', file', runs, counted, made, same) =
        read_mem_each io {I = I} {P = P} {R = R} makes p1 file (omega arith) mine
          (rw regions good) in
      (
        p',
        file',
        rw parsed runs,
        counted,
        subst (λ ms. All₂ R ms (regions_of p')) regions made,
        same
            ∙ ap (λ (q : Process). record q { maps = p'.maps }) only
            ∙ ap (λ (q : Process). with_maps p p'.maps q.maps_size q.maps_cap) (sym same),
      )

  -- Where `sscanf` reads every line and the regions that are kept are mapped, `proc_do` ends in a
  -- loaded process, with those regions in order, whatever the reads of its memory return. Only the
  -- array of regions, its size and its capacity change.
  pub proc_do_lem :
      (stdio : Stdio) (p : Process) (lines : List (List ℕ)) (fs : List Fields) (file : F)
      → HasSize io
      → All₂ (λ line f. stdio.sscanf line ≡ some f) lines fs
      → All IsMapped (kept_of stdio true fs)
      → length (kept_of stdio true fs) < 2 ^ 31
      → (p' : Process) × (file' : F) × (proc_do io stdio p lines file ≡ ok (p', file'))
        × IsLoaded p'
        × All₂ Reads (kept_of stdio true fs) (regions_of p')
        × (p' ≡ with_maps p p'.maps p'.maps_size p'.maps_cap)
  proc_do_lem stdio p lines fs file sized h mapped small =
      let (p', file', runs, counted, reads, only) =
        proc_do_each {I = λ file. Unit} {P = IsMapped} {R = Reads}
          (λ mr file u mapped.
            let (mr', file', runs, reads) = read_region_lem io mr file sized mapped in
            (mr', file', runs, u, reads))
          stdio p lines fs file h tt mapped small in
      (p', file', runs, (omega arith, Reads-IsRead io _ _ reads), reads, only)

-- The line for a region whose pages were read.
abbrev pub nonzero_row : ℕ → MemReg → ℤ × ℕ × Option (List ℕ)
nonzero_row zero_page_hash mr =
    (mr_page_num mr, count_if (is_used zero_page_hash) (pages_of mr), mr_get_name mr)

used_lem :
    (zero_page_hash : ℕ) (mr : MemReg)
    → IsRead mr
    → nonzero_line zero_page_hash mr ≡ ok (nonzero_row zero_page_hash mr)
unfolding nonzero_line
used_lem zero_page_hash mr h =
    rw
      (
        for_each_pure (λ page n. ok (if page_is_zero zero_page_hash page then n else n + 1))
            (λ page n. if is_used zero_page_hash page then n + 1 else n) (pos_part (mr_page_num mr))
            mr.pages 0 (λ page n. ground arith) h,
        fold_count (is_used zero_page_hash) (pages_of mr) 0,
        zero-add (count_if (is_used zero_page_hash) (pages_of mr)),
      )
      refl

module _ {ℓ} {F : Type ℓ} (io : Stream F) (zero_page_hash : ℕ) where
  -- Where `sscanf` reads every line and the regions that are kept are mapped, the report ends with
  -- no access out of range. It has one line for each anonymous region that has pages, in order:
  -- its number of pages, how many of them have a hash other than that of the zero page, and its
  -- name.
  pub nonzero_stat_lem :
      (stdio : Stdio) (p : Process) (lines : List (List ℕ)) (fs : List Fields) (file : F)
      → HasSize io
      → All₂ (λ line f. stdio.sscanf line ≡ some f) lines fs
      → All IsMapped (kept_of stdio true fs)
      → length (kept_of stdio true fs) < 2 ^ 31
      → (p' : Process) × (file' : F) × (proc_do io stdio p lines file ≡ ok (p', file'))
        × All₂ Reads (kept_of stdio true fs) (regions_of p')
        × (nonzero_stat io zero_page_hash stdio p lines file
            ≡ ok (map (nonzero_row zero_page_hash) (regions_of p')))
  unfolding nonzero_stat
  nonzero_stat_lem stdio p lines fs file sized h mapped small =
      let (p', file', runs, loaded, reads, same) =
        proc_do_lem io stdio p lines fs file sized h mapped small in
      let row = nonzero_row zero_page_hash in
      let report =
        collect_lem IsRead (λ _. nonzero_line zero_page_hash) (λ _. row)
          (λ _. used_lem zero_page_hash) (pos_part (proc_mr_num p')) 0 p'.maps []
          (omega (arith, loaded.0)) loaded.1
        ∙ ap ok (map_index_const row 0 (regions_of p')) in
      (p', file', runs, reads, rw (runs, report) refl)
