-- ===== src/SetCmp/Main/Meant.antt =====
-- `main` of jni/setcmp.c prints what it is meant to, where the hash tells the pages apart.
use mathlib.Core.Option.{some-injective}
use mathlib.Core.Path.{subst}
use memdump.Base.{
  ℕ, zero, suc, ◌<◌, ◌≡◌, ◌∙◌, ◌⊎◌, refl, sym, ap, ap₂, inl, inr, some, List, [], ◌∷◌, map, drop,
  length, get_elem?, All, ok, exit, fault, arith,
}
use memdump.Base.Int.{ℤ, pos}
use memdump.Mem.Image.{Held, kept, digest}
use memdump.Mem.Files.Laws.{IsLinux}
use memdump.Mem.Files.World.{World, IsLive, held, image, image-held}
use memdump.RbTree.{RbTree}
use memdump.SetCmp.{max_pid}
use memdump.SetCmp.Distinct.{distinct}
use memdump.SetCmp.Main.{Printed, main}
use memdump.SetCmp.Main.Numbers.{candidates_in, first_two, all_three}
use memdump.SetCmp.Main.Bytes.{zero_page, different, alone_of, first_two_held, all_three_held}
use memdump.SetCmp.Main.Kept.{AreHeld}
use memdump.SetCmp.Main.Told.{different-kept, first_two-kept, all_three-kept}
use memdump.SetCmp.Main.World.{main-images}
use memdump.Sys.{Os, History, Refuses, outputs}

-- What a page of a process holds, or the zero page.
abbrev pub IsHeld : World → List ℕ → Type 0
IsHeld w bytes =
    ((pid : ℤ) × (i : ℕ) × (page : Held) × (get_elem? (held w pid) i ≡ some page)
      × (page.bytes ≡ bytes))
    ⊎ (bytes ≡ zero_page)

-- No two of them have the same hash.
abbrev pub Tells : World → Type 0
Tells w = (a b : List ℕ) → IsHeld w a → IsHeld w b → digest a ≡ digest b → a ≡ b

All-at :
    {P : Held → Type 0} (pages : List Held)
    → ((i : ℕ) (page : Held) → get_elem? pages i ≡ some page → P page)
    → All P pages
All-at [] at = tt
All-at (page ∷ pages) at = (at 0 page refl, All-at pages (λ i page e. at (suc i) page e))

at-map :
    {A B : Type 0} (f : A → B) (j : ℕ) (xs : List A) (y : B)
    → get_elem? (map f xs) j ≡ some y
    → (x : A) × (get_elem? xs j ≡ some x) × (f x ≡ y)
at-map f j [] y e = absurd (cc e)
at-map f zero (x ∷ xs) y e = (x, refl, some-injective _ _ e)
at-map f (suc j) (x ∷ xs) y e = at-map f j xs y e

All_elem :
    {A : Type 0} (P : A → Type 0) (j : ℕ) (xs : List A) (x : A)
    → get_elem? xs j ≡ some x
    → All P xs
    → P x
All_elem P j [] x e all = absurd (cc e)
All_elem P zero (y ∷ ys) x e all = subst P (some-injective _ _ e) all.0
All_elem P (suc j) (y ∷ ys) x e all = All_elem P j ys x e all.1

module _ (w : World) where
  pub held-AreHeld : (pids : List ℤ) → All (AreHeld (IsHeld w)) (map (held w) pids)
  held-AreHeld [] = tt
  held-AreHeld (pid ∷ pids) =
      (All-at (held w pid) (λ i page at. inl (pid, i, page, at, refl)), held-AreHeld pids)

  images-kept : (pids : List ℤ) → map (image w) pids ≡ map (map kept) (map (held w) pids)
  images-kept [] = refl
  images-kept (pid ∷ pids) = ap₂ ◌∷◌ (image-held w pid) (images-kept pids)

  module _ (tells : Tells w) where
    All-different :
        (pages : List (List Held))
        → All (AreHeld (IsHeld w)) pages
        → All (λ images. 0 < distinct (candidates_in images)) (map (map kept) pages)
        → All (λ pages. 0 < different (alone_of pages)) pages
    All-different [] is all = tt
    All-different (held ∷ pages) is all = (
      omega (arith, all.0, different-kept (IsHeld w) tells (inr refl) held is.0),
      All-different pages is.1 all.1,
    )

    module _ {F : Type 0} (os : Os Printed F) (linux : IsLinux os) (live : IsLive os linux w) where
      -- Where the system does what it documents, the files of each process have what it holds, in
      -- regions of whole pages that each have a frame, and no two different pages that processes
      -- hold, or the zero page, have the same hash, `main`, for two to 30 processes, exits only
      -- where the system refuses a call. Else the numbers that it prints are those by the content
      -- of the pages of the processes of its arguments: all three reports, and `main` returns 0,
      -- if each process has a page that is neither zero nor shared; else the first two, and it
      -- ends in a fault.
      pub main-held :
          ⦃rb : RbTree⦄ (argv : List (List ℕ))
          → 2 < length argv
          → length argv < max_pid
          → let pages = map (held w) (map os.atoi (drop 1 argv)) in
            ((h : History Printed) × (main os argv [] ≡ (exit, h)) × Refuses os h)
            ⊎ ((h : History Printed) × ((All (λ pages. 0 < different (alone_of pages)) pages
                    × (main os argv [] ≡ (ok (pos 0), h))
                    × (outputs h ≡ all_three_held pages))
                  ⊎ ((j : ℕ) × (mine : List Held) × (get_elem? pages j ≡ some mine)
                      × (different (alone_of mine) ≡ 0)
                      × (main os argv [] ≡ (fault, h))
                      × (outputs h ≡ first_two_held pages))))
      main-held argv enough few =
          let pids = map os.atoi (drop 1 argv) in
          let pages = map (held w) pids in
          let is = held-AreHeld pids in
          elim (main-images os linux w live argv enough few) [
            | inl stops ↦ inl stops
            | inr (images, h, same, inl (all, runs, out)) ↦
                let kept_of = same ∙ images-kept pids in
                inr (
                  h,
                  inl (
                    All-different pages is (
                        subst (λ is. All (λ images. 0 < distinct (candidates_in images)) is) kept_of
                          all),
                    runs,
                    out
                        ∙ ap all_three kept_of
                        ∙ all_three-kept (IsHeld w) tells (inr refl) pages is,
                  ),
                )
            | inr (images, h, same, inr (j, image, at, none_left, fails, out)) ↦
                let kept_of = same ∙ images-kept pids in
                let (mine, there, made) =
                  at-map (map kept) j pages image (ap (λ is. get_elem? is j) (sym kept_of) ∙ at) in
                inr (
                  h,
                  inr (
                    j,
                    mine,
                    there,
                    sym (
                          different-kept (IsHeld w) tells (inr refl) mine
                            (All_elem (AreHeld (IsHeld w)) j pages mine there is))
                        ∙ ap (λ is. distinct (candidates_in is)) made
                        ∙ none_left,
                    fails,
                    out
                        ∙ ap first_two kept_of
                        ∙ first_two-kept (IsHeld w) tells (inr refl) pages is,
                  ),
                )
          ]
