-- ===== src/Sys.antt =====
-- The operating system that the programs run on. Its answers are a parameter: each may depend on
-- all that was done before. What a program does to it is written down in a history, newest first.
pub mod Ends
pub mod Collect
pub mod Shown
use memdump.Base.{
  ℕ, zero, suc, ◌+◌, ◌≡◌, ◌==◌, ◌&&◌, ◌||◌, ◌⊎◌, not, Bool, true, false, Option, none, some, List,
  [], ◌∷◌, get_elem?, Run, ok, exit, fault, deref,
}
use memdump.Base.Int.{ℤ, eq_int}
use memdump.Mem.{MemReg}
use memdump.Mem.Maps.{Stdio}
use memdump.Mem.Read.{Stream}
use memdump.Mem.Flags.{PageFlags}
use memdump.Mem.Pagemap.{Kernel}

-- The files under /proc: of a process, or of the kernel.
pub data FileName : Type 0 where
  maps_of mem_of pagemap_of : ℤ → FileName
  kernel_flags kernel_counts : FileName

-- What `free` is called on, in the order of the regions of a process.
pub data Block : Type 0 where
  region_pages region_name : ℕ → Block
  all_regions : Block

-- `T` is what the program prints, next to the lines of swapped pages.
pub data Event (T : Type 0) : Type 0 where
  attached : ℤ → Event T
  waited : Event T
  continued : ℤ → Event T
  detached : ℤ → Event T
  opened : ℕ → FileName → Event T
  closed : ℕ → Event T
  freed : Block → Event T
  showed : PageFlags → Event T
  printed : T → Event T

abbrev pub History : Type 0 → Type 0
History T = List (Event T)

-- Is a descriptor open after the calls of a history?
abbrev pub is_open : {T : Type 0} → ℕ → History T → Bool
is_open fd [] = false
is_open fd (opened fd' name ∷ h) = (fd' == fd) || is_open fd h
is_open fd (closed fd' ∷ h) = not (fd' == fd) && is_open fd h
is_open fd (attached pid ∷ h) = is_open fd h
is_open fd (waited ∷ h) = is_open fd h
is_open fd (continued pid ∷ h) = is_open fd h
is_open fd (detached pid ∷ h) = is_open fd h
is_open fd (freed block ∷ h) = is_open fd h
is_open fd (showed line ∷ h) = is_open fd h
is_open fd (printed text ∷ h) = is_open fd h

-- Has a process been stopped by an attach, and not been resumed? A detach resumes it too; of one
-- that runs, which the system refuses, nothing comes.
abbrev pub is_stopped : {T : Type 0} → ℤ → History T → Bool
is_stopped pid [] = false
is_stopped pid (attached pid' ∷ h) = eq_int pid' pid || is_stopped pid h
is_stopped pid (detached pid' ∷ h) = not (eq_int pid' pid) && is_stopped pid h
is_stopped pid (waited ∷ h) = is_stopped pid h
is_stopped pid (continued pid' ∷ h) = not (eq_int pid' pid) && is_stopped pid h
is_stopped pid (opened fd name ∷ h) = is_stopped pid h
is_stopped pid (closed fd ∷ h) = is_stopped pid h
is_stopped pid (freed block ∷ h) = is_stopped pid h
is_stopped pid (showed line ∷ h) = is_stopped pid h
is_stopped pid (printed text ∷ h) = is_stopped pid h

-- What a program has printed, newest first, without the lines of swapped pages.
abbrev pub outputs : {T : Type 0} → History T → List T
outputs [] = []
outputs (printed text ∷ h) = text ∷ outputs h
outputs (attached pid ∷ h) = outputs h
outputs (detached pid ∷ h) = outputs h
outputs (waited ∷ h) = outputs h
outputs (continued pid ∷ h) = outputs h
outputs (opened fd name ∷ h) = outputs h
outputs (closed fd ∷ h) = outputs h
outputs (freed block ∷ h) = outputs h
outputs (showed line ∷ h) = outputs h

abbrev pub show_all : {T : Type 0} → List PageFlags → History T → History T
show_all [] h = h
show_all (line ∷ lines) h = show_all lines (showed line ∷ h)

-- The calls, with what `malloc` leaves in the fields of a process that `proc_init` does not set.
-- `fopen` and `open` return a descriptor that was not open.
pub record Os (T F : Type 0) : Type 0 where
  pub atoi : List ℕ → ℤ
  pub malloc : History T → List MemReg × ℕ × ℕ
  pub attach : History T → ℤ → Bool
  pub fopen : History T → FileName → Option ℕ
  pub open_file : History T → FileName → Option ℕ
  pub fopen_fresh :
      (h : History T) (name : FileName) (fd : ℕ) → fopen h name ≡ some fd → is_open fd h ≡ false
  pub open_fresh :
      (h : History T) (name : FileName) (fd : ℕ) → open_file h name ≡ some fd → is_open fd h ≡ false
  pub stdio : Stdio
  pub stream : Stream F
  pub lines : History T → ℕ → List (List ℕ)
  pub file : History T → ℕ → F
  pub kernel : History T → ℤ → Kernel

-- The system refuses a call that the program could make next.
abbrev pub Refuses : {T F : Type 0} → Os T F → History T → Type 0
Refuses os h =
    ((pid : ℤ) × (os.attach h pid ≡ false))
    ⊎ ((name : FileName) × ((os.fopen h name ≡ none) ⊎ (os.open_file h name ≡ none)))

-- A piece of the program that makes such calls.
abbrev pub Act {ℓ} : Type 0 → Type ℓ → Type ℓ
Act T A = History T → Run A × History T

module _ {T : Type 0} where
  abbrev pub and_then {ℓ κ} :
      {A : Type ℓ} {B : Type κ} → Run A × History T → (A → Act T B) → Run B × History T
  and_then (ok a, h) next = next a h
  and_then (exit, h) next = (exit, h)
  and_then (fault, h) next = (fault, h)

  infixl 5 ◌>>=◌ ◌>>◌
  abbrev pub ◌>>=◌ {ℓ κ} : {A : Type ℓ} {B : Type κ} → Act T A → (A → Act T B) → Act T B
  m >>= next = λ h. and_then (m h) next

  abbrev pub ◌>>◌ {ℓ} : {B : Type ℓ} → Act T (Unit {0}) → Act T B → Act T B
  m >> next = m >>= λ _. next

  abbrev pub pure {ℓ} : {A : Type ℓ} → A → Act T A
  pure a h = (ok a, h)

  -- Code that makes no call.
  abbrev pub lift {ℓ} : {A : Type ℓ} → Run A → Act T A
  lift r h = (r, h)

  -- A call that always succeeds.
  abbrev pub call : Event T → Act T (Unit {0})
  call e h = (ok tt, e ∷ h)

  abbrev pub report {ℓ} : {A : Type ℓ} → (A → T) → Run A → Act T (Unit {0})
  report text r = do out ← lift r; call (printed (text out))

  -- `for (i = lo; i < lo + left; i++)` over an array.
  unfoldable pub act_each {ℓ κ} :
      {A : Type ℓ} {S : Type κ} → ℕ → ℕ → List A → (ℕ → A → S → Act T S) → S → Act T S
  act_each zero i xs body s = pure s
  act_each (suc left) i xs body s = do
    x ← lift (deref (get_elem? xs i))
    s' ← body i x s
    act_each left (i + 1) xs body s'
