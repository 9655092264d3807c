-- ===== src/Tests/World.antt =====
-- A system whose processes hold pages of one byte and zeros, each of them once.
use mathlib.Core.Option.{some-injective}
use memdump.Base.{
  ℕ, zero, suc, ◌+◌, ◌*◌, ◌/◌, ◌<◌, ◌≡◌, ◌≢◌, ◌∙◌, ◌⊎◌, true, refl, sym, ap, inl, inr, some, List,
  [], ◌∷◌, length, get_elem?, replicate, length-replicate, map, All, ok, exit, fault, arith,
}
use memdump.Base.Int.{ℤ, pos}
use memdump.RbTree.Plain.{plain}
use memdump.Mem.{Page, mr_is_anon, mr_page_num}
use memdump.Mem.Hash.{page_hash}
use memdump.Mem.Hash.Laws.{page_hash_lem, page_hash_tells}
use memdump.Mem.Maps.{region_of}
use memdump.Mem.Read.{Stream}
use memdump.Mem.Read.Content.{IsReadable}
use memdump.Mem.Pagemap.{pagemap, kpageflags, kpagecount, Kernel, pagemap_pfn}
use memdump.Mem.Pagemap.Region.{Provides}
use memdump.Mem.Image.{Held, digest, IsPresent}
use memdump.Mem.Files.Content.{IsGood}
use memdump.Mem.Files.Laws.{IsLinux}
use memdump.Mem.Files.World.{World, IsLive, held, image}
use memdump.Memdump.Laws.{kept_of}
use memdump.SetCmp.Distinct.{distinct}
use memdump.SetCmp.Main.{Printed, inter, intra, total, main}
use memdump.SetCmp.Main.Numbers.{candidates_in, first_two, all_three}
use memdump.SetCmp.Main.Bytes.{zero_page, different, alone_of, first_two_held, all_three_held}
use memdump.SetCmp.Main.World.{main-images}
use memdump.SetCmp.Main.Meant.{IsHeld, Tells, main-held}
use memdump.Sys.{Os, History, Refuses, outputs}
use memdump.Tests.Dumper.{stdio, lines_read, fills}
use memdump.Tests.System.{system, system_is_linux, args}

abbrev marked : List ℕ
marked = 1 ∷ replicate 4095 0

-- The stream is the offset, and every page is the marked one.
abbrev memory : Stream ℕ
memory = record {
  fseeko = λ offset file. offset;
  fread = λ n file. (file + n, marked);
  malloc = λ n. replicate n (record { hash = 0; share = pos 0 });
}

memory-IsReadable : IsReadable memory (λ a. marked)
memory-IsReadable = record {
  Mine = λ file. Unit;
  At = λ a file. a ≡ file;
  seeks = λ a file mine. refl;
  stays = λ a file at. tt;
  reads = λ a file at. refl;
  moves = λ a file at. omega arith;
  whole = λ a. ap suc (length-replicate {A = ℕ} 4095 0);
}

-- Every page is in frame 5, which one page table refers to.
abbrev entry : ℕ → ℕ
entry i = 9_223_372_036_854_775_813

abbrev once : ℕ → ℕ
once pfn = 1

abbrev pages_once : Kernel
pages_once = record {
  pread = λ file bytes offset. (
    pos (bytes / 8 * 8),
    replicate (bytes / 8) (elim file [ pagemap ↦ entry 0 | kpageflags ↦ 3 | kpagecount ↦ 1 ]),
  );
  pread_le = λ file bytes offset. omega arith;
  pread_fills = λ file bytes offset. fills bytes _;
}

get_elem?-replicate : (n i x : ℕ) → i < n → get_elem? (replicate n x) i ≡ some x
get_elem?-replicate zero i x below = absurd (omega arith)
get_elem?-replicate (suc n) zero x below = refl
get_elem?-replicate (suc n) (suc i) x below = get_elem?-replicate n i x (omega arith)

pages_once-Provides : Provides pages_once entry once
pages_once-Provides = record {
  entries = λ index n top.
      let number : n * 8 / 8 ≡ n = omega arith in
      (replicate n (entry 0), rw number refl, λ i below. get_elem?-replicate n i (entry 0) below);
  flags = λ pfn small. (3, ([], refl));
  counts = λ pfn small. ([], refl);
}

abbrev pub linux : (T : Type 0) → Os T ℕ
linux T = record (system T) { stream = memory; kernel = λ h fd. pages_once }

abbrev pub is_linux : (T : Type 0) → IsLinux (linux T)
is_linux T =
    let like = system_is_linux T in
    record {
      sized = λ n. length-replicate n _;
      fields = like.fields;
      parsed = like.parsed;
      paged = like.paged;
      few = like.few;
    }

kept-IsGood : All IsGood (kept_of stdio true lines_read)
unfolding region_of mr_is_anon mr_page_num
kept-IsGood = omega arith

kept-IsPresent : All (IsPresent (λ a. marked) entry once) (kept_of stdio true lines_read)
unfolding region_of mr_is_anon mr_page_num pagemap_pfn
kept-IsPresent = ((λ j below. refl), ((λ j below. refl), tt))

abbrev pub world : World
world = record {
  regions = λ pid. kept_of stdio true lines_read;
  content = λ pid a. marked;
  entry = λ pid. entry;
  count = once;
}

pub world-IsLive : (T : Type 0) → IsLive (linux T) (is_linux T) world
unfolding memory-IsReadable
world-IsLive T = record {
  memory = λ pid. memory-IsReadable;
  maps = λ h fd pid named. refl;
  mem = λ h fd pid named. tt;
  pagemap = λ h fd pid named. pages_once-Provides;
  good = λ pid. kept-IsGood;
  present = λ pid. kept-IsPresent;
}

-- A process holds three such pages.
abbrev one : Held
one = record { bytes = marked; users = pos 1 }

held_three : (pid : ℤ) → held world pid ≡ one ∷ (one ∷ (one ∷ []))
unfolding region_of mr_is_anon mr_page_num
held_three pid = refl

at_three :
    (i : ℕ) (page : Held) → get_elem? (one ∷ (one ∷ (one ∷ []))) i ≡ some page → page.bytes ≡ marked
at_three zero page e = ap (λ (page : Held). page.bytes) (sym (some-injective _ _ e))
at_three (suc zero) page e = ap (λ (page : Held). page.bytes) (sym (some-injective _ _ e))
at_three (suc (suc zero)) page e = ap (λ (page : Held). page.bytes) (sym (some-injective _ _ e))
at_three (suc (suc (suc i))) page e = absurd (cc e)

held_cases : (a : List ℕ) → IsHeld world a → (a ≡ marked) ⊎ (a ≡ zero_page)
held_cases a (inr e) = inr e
held_cases a (inl (pid, i, page, at, e)) =
    inl (sym e ∙ at_three i page (ap (λ pages. get_elem? pages i) (sym (held_three pid)) ∙ at))

digest_lem :
    (bytes : List ℕ) → length bytes ≡ 4096 → page_hash bytes (length bytes) ≡ ok (digest bytes)
digest_lem bytes size =
    let (hash, hashed, small) = page_hash_lem bytes 4096 (omega (arith, size)) in
    rw (size, hashed) refl

marked_tells : digest marked ≢ digest zero_page
marked_tells same =
    let size : length (replicate {A = ℕ} 4095 0) ≡ 4095 = length-replicate {A = ℕ} 4095 0 in
    page_hash_tells [] (replicate 4095 0) 1 0 (omega arith) (omega arith) (omega arith) (
      digest_lem marked (omega (arith, size))
      ∙ ap ok same
      ∙ sym (digest_lem zero_page (omega (arith, size))))

pub tells : Tells world
tells a b is is' same = elim (held_cases a is) [
  | inl e ↦ elim (held_cases b is') [
    | inl e' ↦ e ∙ sym e'
    | inr e' ↦ absurd (marked_tells (ap digest (sym e) ∙ same ∙ ap digest e'))
  ]
  | inr e ↦ elim (held_cases b is') [
    | inl e' ↦ absurd (marked_tells (ap digest (sym e') ∙ sym same ∙ ap digest e))
    | inr e' ↦ e ∙ sym e'
  ]
]

main-images_example :
    ((h : History Printed) × (main (linux Printed) args [] ≡ (exit, h)) × Refuses (linux Printed) h)
    ⊎ ((images : List (List Page)) × (h : History Printed) × (images
          ≡ map (image world) (pos 1 ∷ (pos 2 ∷ [])))
        × ((All (λ pages. 0 < distinct (candidates_in pages)) images
              × (main (linux Printed) args [] ≡ (ok (pos 0), h))
              × (outputs h ≡ all_three images))
            ⊎ ((j : ℕ) × (pages : List Page) × (get_elem? images j ≡ some pages)
                × (distinct (candidates_in pages) ≡ 0)
                × (main (linux Printed) args [] ≡ (fault, h))
                × (outputs h ≡ first_two images))))
main-images_example =
    main-images (linux Printed) (is_linux Printed) world (world-IsLive Printed) args (omega arith)
      (omega arith)

main-held_example :
    let pages = held world (pos 1) ∷ (held world (pos 2) ∷ []) in
    ((h : History Printed) × (main (linux Printed) args [] ≡ (exit, h)) × Refuses (linux Printed) h)
    ⊎ ((h : History Printed) × ((All (λ pages. 0 < different (alone_of pages)) pages
            × (main (linux Printed) args [] ≡ (ok (pos 0), h))
            × (outputs h ≡ all_three_held pages))
          ⊎ ((j : ℕ) × (mine : List Held) × (get_elem? pages j ≡ some mine)
              × (different (alone_of mine) ≡ 0)
              × (main (linux Printed) args [] ≡ (fault, h))
              × (outputs h ≡ first_two_held pages))))
main-held_example =
    main-held world tells (linux Printed) (is_linux Printed) (world-IsLive Printed) args
      (omega arith) (omega arith)

-- Each process has three pages with the same content, which the other has too.
meant_run :
    all_three_held ((one ∷ (one ∷ (one ∷ []))) ∷ ((one ∷ (one ∷ (one ∷ []))) ∷ []))
    ≡ total ((1, 3) ∷ ((1, 3) ∷ [])) ∷ (inter (3 ∷ (3 ∷ [])) ∷ (intra (pos 2 ∷ (pos 2 ∷ [])) ∷ []))
meant_run = refl
