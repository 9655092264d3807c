-- ===== src/Mem/Timer.antt =====
-- The timer of jni/mem.c, which adds up how long `read_mem` takes. What `clock` returns is an
-- argument; a `clock_t` is a `long`, kept as its word of 64 bits. `double` is a parameter, with the two
-- operations that the report does.
use memdump.Base.{
  ℕ, ◌+◌, ◌-◌, ◌^◌, ◌≤◌, ◌<◌, ◌≡◌, ◌∙◌, ap, refl, length, List, [], ◌∷◌, All, Run, ok, ◌>>=◌, arith,
}
use memdump.Mem.{Process, proc_mr_num, regions_of}
use memdump.Mem.Read.{Stream, HasSize, u64, read_mem}
use memdump.Mem.Read.Laws.{IsMapped, read_mem_lem}
use memdump.Base.Int.{ℤ, pos, pos_part}
use memdump.Mem.Flags.{to_long}

-- `struct Timer`; the global `timer` starts with zeros.
pub record Timer : Type 0 where
  pub start : ℕ
  pub total : ℕ

abbrev pub timer : Timer
timer = record { start = 0; total = 0 }

unfoldable pub time_start : ℕ → Timer → Timer
time_start clock t = record t { start = clock }

unfoldable pub time_end : ℕ → Timer → Timer
time_end clock t = record { start = 0; total = u64 (t.total + u64 (clock + 2 ^ 64 - t.start)) }

-- `double`: the conversion of an integer, and the division. `CLOCKS_PER_SEC` is the C library's.
pub record Double {ℓ} (W : Type ℓ) : Type ℓ where
  pub of_long : ℤ → W
  pub divide : W → W → W
  pub clocks_per_sec : ℤ

-- The number of seconds that is printed: the `long` is converted, and divided by `CLOCKS_PER_SEC`,
-- which is converted to the type of the dividend.
unfoldable pub mem_time_report {ℓ} : {W : Type ℓ} → ⦃d : Double W⦄ → Timer → W
mem_time_report ⦃d⦄ t = d.divide (d.of_long (to_long t.total)) (d.of_long d.clocks_per_sec)

-- How `proc_do` reads the memory, with the two readings of the clock.
unfoldable pub timed_read_mem {ℓ} :
    {F : Type ℓ} → Stream F → ℕ → ℕ → Process → F → Timer → Run (Process × F × Timer)
unfolding time_start time_end
timed_read_mem io before after p file t = do
  let t1 = time_start before t
  (p', file') ← read_mem io p file
  ok (p', file', time_end after t1)

-- A process whose memory is read, the file of its memory, and the two readings of the clock.
pub record Reading {ℓ} (F : Type ℓ) : Type ℓ where
  pub p : Process
  pub file : F
  pub before : ℕ
  pub after : ℕ

-- The time that passed.
abbrev pub passed {ℓ} : {F : Type ℓ} → List (Reading F) → ℕ
passed [] = 0
passed (r ∷ rs) = (r.after - r.before) + passed rs

-- The regions can be read, and the clock does not go back.
abbrev pub CanRead {ℓ} : {F : Type ℓ} → Reading F → Type 0
CanRead r =
    (pos_part (proc_mr_num r.p) ≤ length r.p.maps)
    × All IsMapped (regions_of r.p)
    × (r.before ≤ r.after)
    × (r.after < 2 ^ 63)

module _ {ℓ} {F : Type ℓ} (io : Stream F) where
  -- The processes are read one after the other.
  abbrev pub timed_reads : List (Reading F) → Timer → Run Timer
  timed_reads [] t = ok t
  timed_reads (r ∷ rs) t =
      timed_read_mem io r.before r.after r.p r.file t >>= λ s. timed_reads rs s.2

  timed_reads_total :
      (rs : List (Reading F)) (t : Timer)
      → HasSize io
      → All CanRead rs
      → t.total + passed rs < 2 ^ 63
      → (t' : Timer) × (timed_reads rs t ≡ ok t') × (t'.total ≡ t.total + passed rs)
  unfolding timed_read_mem time_start time_end
  timed_reads_total [] t sized all small = (t, refl, omega arith)
  timed_reads_total (r ∷ rs) t sized all small =
      let (p', file', runs, loaded, reads, only) =
        read_mem_lem io r.p r.file sized all.0.0 all.0.1 in
      let t1 = time_end r.after (time_start r.before t) in
      let there : t1.total ≡ t.total + (r.after - r.before) = omega (arith, all.0.2) in
      let (t', more, sum) = timed_reads_total rs t1 sized all.1 (omega (arith, there, small)) in
      (t', rw runs more, omega (arith, sum, there))

  -- For processes that can be read, on a clock that does not go back, and less than 2 ^ 63 ticks in
  -- all, the reads end, and what is reported after them is the sum of the ticks that each of them
  -- took, as a `double`, divided by `CLOCKS_PER_SEC`.
  pub mem_time_report_lem {κ} :
      {W : Type κ} ⦃d : Double W⦄ (rs : List (Reading F))
      → HasSize io
      → All CanRead rs
      → passed rs < 2 ^ 63
      → (t : Timer) × (timed_reads rs timer ≡ ok t)
        × (mem_time_report t ≡ d.divide (d.of_long (pos (passed rs))) (d.of_long d.clocks_per_sec))
  unfolding mem_time_report
  mem_time_report_lem ⦃d⦄ rs sized all small =
      let (t, runs, sum) = timed_reads_total rs timer sized all (omega (arith, small)) in
      let whole : t.total ≡ passed rs = omega (arith, sum) in
      let fits : to_long (passed rs) ≡ pos (passed rs) = ground (arith, small) in
      (
        t,
        runs,
        ap (λ n. d.divide (d.of_long (to_long n)) (d.of_long d.clocks_per_sec)) whole
            ∙ ap (λ z. d.divide (d.of_long z) (d.of_long d.clocks_per_sec)) fits,
      )
