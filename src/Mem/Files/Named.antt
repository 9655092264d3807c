-- ===== src/Mem/Files/Named.antt =====
-- The file that a descriptor stands for, after the calls of a history.
use memdump.Base.{
  ℕ, ◌==◌, ◌≡◌, ◌∙◌, ◌||◌, Bool, true, false, refl, sym, ap, inl, inr, Option, none, some,
  Bool-cases, ==_iff, List, [], ◌∷◌, if◌then◌else◌, arith,
}
use mathlib.Core.Path.{subst}
use memdump.Mem.{Process}
use memdump.Mem.Files.Laws.Life.{AreOpened}
use mathlib.Core.Path.{subst}
use memdump.Mem.Flags.{PageFlags}
use memdump.Sys.Shown.{is_open-show_all}
use memdump.Sys.{
  show_all, FileName, maps_of, mem_of, pagemap_of, attached, waited, continued, detached, freed,
  showed, printed, show_all, opened, closed, History, Os, is_open,
}

-- The file that a descriptor stands for.
abbrev pub named : {T : Type 0} → ℕ → History T → Option FileName
named fd [] = none
named fd (opened fd' name ∷ h) = if fd' == fd then some name else named fd h
named fd (closed fd' ∷ h) = if fd' == fd then none else named fd h
named fd (attached pid ∷ h) = named fd h
named fd (waited ∷ h) = named fd h
named fd (continued pid ∷ h) = named fd h
named fd (detached pid ∷ h) = named fd h
named fd (freed block ∷ h) = named fd h
named fd (showed line ∷ h) = named fd h
named fd (printed text ∷ h) = named fd h

pub first_false : (a b : Bool) → (a || b) ≡ false → (a ≡ false) × (b ≡ false)
first_false false b h = (refl, h)
first_false true b h = absurd (ground arith)

named_twice :
    {T : Type 0} (a b c : ℕ) (h : History T) (maps mem pagemap : FileName)
    → ((a == b) || is_open b h) ≡ false
    → ((b == c) || ((a == c) || is_open c h)) ≡ false
    → let h' = opened c pagemap ∷ (opened b mem ∷ (opened a maps ∷ h)) in
      (named a h' ≡ some maps)
      × (named b h' ≡ some mem)
      × (named c h' ≡ some pagemap)
      × (is_open c h' ≡ true)
named_twice a b c h maps mem pagemap first second =
    let (ne_ab, u) = first_false (a == b) _ first in
    let (ne_bc, v) = first_false (b == c) _ second in
    let (ne_ac, w) = first_false (a == c) _ v in ground arith

differ :
    {T : Type 0} (a b : ℕ) (h : History T)
    → is_open a h ≡ false
    → is_open b h ≡ true
    → (a == b) ≡ false
differ a b h shut there = elim (Bool-cases (a == b)) [
  | inr e ↦ e
  | inl e ↦ absurd (cc (sym shut ∙ ap (λ fd. is_open fd h) ((==_iff a b).0 e) ∙ there))
]

module _ {T : Type 0} where
  pub named-show_all :
      (fd : ℕ) (lines : List PageFlags) (h : History T) → named fd (show_all lines h) ≡ named fd h
  named-show_all fd [] h = refl
  named-show_all fd (line ∷ lines) h = named-show_all fd lines (showed line ∷ h)

  -- Descriptors that are open stay open, and stand for the same files.
  abbrev pub Keeps : History T → History T → Type 0
  Keeps h h' =
      (fd : ℕ) (name : FileName)
      → named fd h ≡ some name
      → is_open fd h ≡ true
      → (named fd h' ≡ some name) × (is_open fd h' ≡ true)

  pub Keeps-trans : (h h' h'' : History T) → Keeps h h' → Keeps h' h'' → Keeps h h''
  Keeps-trans h h' h'' k k' fd name here there =
      let (here', there') = k fd name here there in k' fd name here' there'

  pub Keeps-opened :
      (a : ℕ) (file : FileName) (h : History T) → is_open a h ≡ false → Keeps h (opened a file ∷ h)
  Keeps-opened a file h new fd name here there =
      let ne = differ a fd h new there in (rw ne here, rw ne there)

  -- Two files are opened, and the second is closed again, twice.
  pub Keeps-closed :
      (a c : ℕ) (first second : FileName) (lines : List PageFlags) (h : History T)
      → is_open a h ≡ false
      → is_open c (opened a first ∷ h) ≡ false
      → Keeps h (closed c ∷ (closed c ∷ show_all lines (opened c second ∷ (opened a first ∷ h))))
  Keeps-closed a c first second lines h new_a new_c fd name here there =
      let ne_a = differ a fd h new_a there in
      let ne_c = differ c fd h (first_false (a == c) _ new_c).1 there in
      (
        rw ne_c (named-show_all fd lines _ ∙ rw (ne_c, ne_a) here),
        rw ne_c (is_open-show_all fd lines _ ∙ rw (ne_c, ne_a) there),
      )

module _ {T F : Type 0} (os : Os T F) where
  -- The descriptors of a process stand for its files.
  pub AreOpened-named :
      (p p' : Process) (h h' : History T) (o : AreOpened os p p' h h')
      → (named o.maps_fd h' ≡ some (maps_of p.pid))
        × (named o.mem_fd h' ≡ some (mem_of p.pid))
        × (named o.pagemap h' ≡ some (pagemap_of p.pid))
        × (is_open o.pagemap h' ≡ true)
  AreOpened-named p p' h h' o = rw (o.done) (
      named_twice o.maps_fd o.mem_fd o.pagemap h (maps_of p.pid) (mem_of p.pid) (pagemap_of p.pid)
        o.mem_new o.pagemap_new)

  pub AreOpened-Keeps : (p p' : Process) (h h' : History T) → AreOpened os p p' h h' → Keeps h h'
  AreOpened-Keeps p p' h h' o =
      let h1 : History T = opened o.maps_fd (maps_of p.pid) ∷ h in
      let h2 : History T = opened o.mem_fd (mem_of p.pid) ∷ h1 in
      let h3 : History T = opened o.pagemap (pagemap_of p.pid) ∷ h2 in
      subst (Keeps h) (sym o.done) (
        Keeps-trans h h1 h3 (Keeps-opened o.maps_fd (maps_of p.pid) h o.maps_new) (
          Keeps-trans h1 h2 h3 (Keeps-opened o.mem_fd (mem_of p.pid) h1 o.mem_new)
            (Keeps-opened o.pagemap (pagemap_of p.pid) h2 o.pagemap_new)))
