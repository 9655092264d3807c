-- ===== src/Sys/Shown.antt =====
-- The lines of swapped pages change nothing else.
use memdump.Base.{ℕ, ◌≡◌, refl, List, [], ◌∷◌}
use memdump.Base.Int.{ℤ}
use memdump.Mem.Flags.{PageFlags}
use memdump.Sys.{History, is_open, is_stopped, outputs, showed, show_all}

module _ {T : Type 0} where
  pub is_open-show_all :
      (fd : ℕ) (lines : List PageFlags) (h : History T)
      → is_open fd (show_all lines h) ≡ is_open fd h
  is_open-show_all fd [] h = refl
  is_open-show_all fd (line ∷ lines) h = is_open-show_all fd lines (showed line ∷ h)

  pub is_stopped-show_all :
      (pid : ℤ) (lines : List PageFlags) (h : History T)
      → is_stopped pid (show_all lines h) ≡ is_stopped pid h
  is_stopped-show_all pid [] h = refl
  is_stopped-show_all pid (line ∷ lines) h = is_stopped-show_all pid lines (showed line ∷ h)

  pub outputs-show_all :
      (lines : List PageFlags) (h : History T) → outputs (show_all lines h) ≡ outputs h
  outputs-show_all [] h = refl
  outputs-show_all (line ∷ lines) h = outputs-show_all lines (showed line ∷ h)
