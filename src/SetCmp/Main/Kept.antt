-- ===== src/SetCmp/Main/Kept.antt =====
-- Tests and functions that agree on the pages that processes hold and on what is kept of them.
use memdump.Base.{
  ℕ, suc, ◌+◌, ◌≡◌, Bool, refl, ap, ap₂, inl, inr, List, [], ◌∷◌, map, map_index, select, count_if,
  All, to_nat, Bool-cases,
}
use memdump.Mem.{Page, page_to_u32}
use memdump.Mem.Image.{Held, kept, digest}
use memdump.SetCmp.Content.{hashes_of}

module _ (Is : List ℕ → Type 0) where
  abbrev pub AreHeld : List Held → Type 0
  AreHeld pages = All (λ (held : Held). Is held.bytes) pages

  -- Tests that agree select the same pages.
  pub hashes_of-select :
      (p : Page → Bool) (q : Held → Bool)
      → ((held : Held) → Is held.bytes → p (kept held) ≡ q held)
      → (pages : List Held) → AreHeld pages
      → hashes_of (select p (map kept pages))
        ≡ map digest (map (λ (held : Held). held.bytes) (select q pages))
  unfolding page_to_u32
  hashes_of-select p q same [] all = refl
  hashes_of-select p q same (held ∷ pages) all =
      let rest = hashes_of-select p q same pages all.1 in
      elim (Bool-cases (q held)) [
        | inl e ↦ rw (same held all.0, e) (ap (◌∷◌ (digest held.bytes)) rest)
        | inr e ↦ rw (same held all.0, e) rest
      ]

  pub count_if-kept :
      (p : Page → Bool) (q : Held → Bool)
      → ((held : Held) → Is held.bytes → p (kept held) ≡ q held)
      → (pages : List Held) → AreHeld pages
      → count_if p (map kept pages) ≡ count_if q pages
  count_if-kept p q same [] all = refl
  count_if-kept p q same (held ∷ pages) all =
      ap₂ (λ b n. to_nat b + n) (same held all.0) (count_if-kept p q same pages all.1)

  pub All-select :
      (q : Held → Bool) (pages : List Held)
      → AreHeld pages
      → All Is (map (λ (held : Held). held.bytes) (select q pages))
  All-select q [] all = tt
  All-select q (held ∷ pages) all =
      let rest = All-select q pages all.1 in
      elim (Bool-cases (q held)) [ inl e ↦ rw e (all.0, rest) | inr e ↦ rw e rest ]

  pub select-digest :
      (p : ℕ → Bool) (q : List ℕ → Bool)
      → ((a : List ℕ) → Is a → p (digest a) ≡ q a)
      → (bs : List (List ℕ)) → All Is bs
      → (select p (map digest bs) ≡ map digest (select q bs)) × All Is (select q bs)
  select-digest p q same [] all = (refl, tt)
  select-digest p q same (b ∷ bs) all =
      let (rest, more) = select-digest p q same bs all.1 in
      elim (Bool-cases (q b)) [
        | inl e ↦ rw (same b all.0, e) (ap (◌∷◌ (digest b)) rest, (all.0, more))
        | inr e ↦ rw (same b all.0, e) (rest, more)
      ]

  -- The pages of all processes.
  pub map-kept {ℓ} :
      {B : Type ℓ} (f : List Page → B) (g : List Held → B)
      → ((pages : List Held) → AreHeld pages → f (map kept pages) ≡ g pages)
      → (held : List (List Held)) → All AreHeld held
      → map f (map (map kept) held) ≡ map g held
  map-kept f g same [] all = refl
  map-kept f g same (pages ∷ held) all = ap₂ ◌∷◌ (same pages all.0) (map-kept f g same held all.1)

  pub map_index-kept {ℓ} :
      {B : Type ℓ} (f : ℕ → List Page → B) (g : ℕ → List Held → B)
      → ((i : ℕ) (pages : List Held) → AreHeld pages → f i (map kept pages) ≡ g i pages)
      → (i : ℕ) (held : List (List Held)) → All AreHeld held
      → map_index f i (map (map kept) held) ≡ map_index g i held
  map_index-kept f g same i [] all = refl
  map_index-kept f g same i (pages ∷ held) all =
      ap₂ ◌∷◌ (same i pages all.0) (map_index-kept f g same (suc i) held all.1)

  pub All-selected :
      (q : Held → Bool) (held : List (List Held))
      → All AreHeld held
      → All (All Is) (map (λ pages. map (λ (held : Held). held.bytes) (select q pages)) held)
  All-selected q [] all = tt
  All-selected q (pages ∷ held) all = (All-select q pages all.0, All-selected q held all.1)
