-- ===== src/Mem/Maps/Laws.antt =====
-- What `parse_maps` keeps of the lines, and that its array is long enough.
use memdump.Base.{
  ℕ, ◌+◌, ◌*◌, ◌<◌, ◌≡◌, ◌==◌, refl, sym, ap, ◌∙◌, Bool, not, ◌&&◌, none, some, List, [], ◌∷◌, ◌++◌,
  length, arith, ok, select, map, All₂, if◌then◌else◌, append-nil, append_assoc, length-append,
  select-append, lt→ltb, Bool-cases, inl, inr,
}
use memdump.Base.Int.{ℤ, le_int}
use memdump.Base.Loop.{fold_run}
use memdump.Mem.{MemReg, Process, mr_page_num, mr_is_anon}
use memdump.Mem.Maps.{
  Fields, Stdio, Slot, with_maps, region_of, parse_maps_line, parse_maps_body, parse_maps,
}

-- The regions that are kept.
abbrev pub is_kept : Bool → ℤ → MemReg → Bool
is_kept filter_anon minsize mr =
    not (filter_anon && not (mr_is_anon mr)) && not (le_int (mr_page_num mr) minsize)

-- `maps_size` counts the regions, and leaves room for one more.
abbrev HasRoom : Process → Type 0
HasRoom p = (p.maps_size ≡ length p.maps) × (p.maps_size < p.maps_cap)

-- Doubling the array when it is nearly full leaves room for one more.
grow : (size cap : ℕ) → size < cap → size + 1 < (if cap == size + 1 then cap * 2 else cap)
grow size cap h = ground arith

module _ (stdio : Stdio) (filter_anon : Bool) (minsize : ℤ) where
  parse_maps_line_lem :
      (line : List ℕ) (f : Fields) (slot : Slot)
      → stdio.sscanf line ≡ some f
      → parse_maps_line stdio line slot ≡ some (region_of stdio f)
  unfolding parse_maps_line
  parse_maps_line_lem line f slot e = rw (parse_maps_line, e) refl

  body_lem :
      (line : List ℕ) (f : Fields) (p : Process) (slot : Slot)
      → stdio.sscanf line ≡ some f
      → HasRoom p
      → (p' : Process) × (slot' : Slot) × (parse_maps_body stdio filter_anon minsize line (p, slot)
          ≡ ok (p', slot'))
        × HasRoom p'
        × (p' ≡ with_maps p p'.maps p'.maps_size p'.maps_cap)
        × (p'.maps ≡ p.maps ++ select (is_kept filter_anon minsize) (region_of stdio f ∷ []))
  unfolding parse_maps_body
  body_lem line f p slot e (size, room) =
      let mr = region_of stdio f in
      let parsed = parse_maps_line_lem line f slot e in
      let grown = grow p.maps_size p.maps_cap room in
      let cap = if p.maps_cap == p.maps_size + 1 then p.maps_cap * 2 else p.maps_cap in
      let inside = lt→ltb p.maps_size cap (omega arith) in
      elim (Bool-cases (filter_anon && not (mr_is_anon mr))) [
        | inl named ↦ (
          with_maps p p.maps p.maps_size cap,
          some mr,
          rw (inside, parsed, named) refl,
          (size, omega arith),
          refl,
          rw named (sym (append-nil p.maps)),
        )
        | inr wanted ↦ elim (Bool-cases (le_int (mr_page_num mr) minsize)) [
          | inl small ↦ (
            with_maps p p.maps p.maps_size cap,
            some mr,
            rw (inside, parsed, wanted, small) refl,
            (size, omega arith),
            refl,
            rw (wanted, small) (sym (append-nil p.maps)),
          )
          | inr large ↦ (
            with_maps p (p.maps ++ (mr ∷ [])) (p.maps_size + 1) cap,
            none,
            rw (inside, parsed, wanted, large) refl,
            (omega (arith, length-append p.maps (mr ∷ [])), grown),
            refl,
            rw (wanted, large) refl,
          )
        ]
      ]

  loop_lem :
      (lines : List (List ℕ)) (fs : List Fields) (p : Process) (slot : Slot)
      → All₂ (λ line f. stdio.sscanf line ≡ some f) lines fs
      → HasRoom p
      → (p' : Process) × (slot' : Slot) × (fold_run
            (parse_maps_body stdio filter_anon minsize)
            lines
            (p, slot)
          ≡ ok (p', slot'))
        × HasRoom p'
        × (p' ≡ with_maps p p'.maps p'.maps_size p'.maps_cap)
        × (p'.maps ≡ p.maps ++ select (is_kept filter_anon minsize) (map (region_of stdio) fs))
  loop_lem [] [] p slot h room = (p, slot, refl, room, refl, sym (append-nil p.maps))
  loop_lem [] (f ∷ fs) p slot h room = absurd h
  loop_lem (line ∷ lines) [] p slot h room = absurd h
  loop_lem (line ∷ lines) (f ∷ fs) p slot h room =
      let (p1, slot1, runs, room1, only1, kept) = body_lem line f p slot h.0 room in
      let (p2, slot2, rest, room2, only2, kept2) = loop_lem lines fs p1 slot1 h.1 room1 in
      (
        p2,
        slot2,
        rw runs rest,
        room2,
        only2 ∙ ap (λ q. with_maps q p2.maps p2.maps_size p2.maps_cap) only1,
        (kept2
            ∙ ap (λ ms. ms ++ select (is_kept filter_anon minsize) (map (region_of stdio) fs)) kept
            ∙ append_assoc p.maps _ _
            ∙ ap (◌++◌ p.maps) (
                sym (
                  select-append (is_kept filter_anon minsize) (region_of stdio f ∷ [])
                    (map (region_of stdio) fs)))),
      )

  -- Where `sscanf` reads every line, the loop ends, each write to the array is inside it, and the
  -- array holds the regions of the lines, in order, that pass the filter and have more than
  -- `minsize` pages; `maps_size` is their number, and is below `maps_cap`. No
  -- other field of the process changes.
  pub parse_maps_lem :
      (lines : List (List ℕ)) (fs : List Fields) (p : Process)
      → All₂ (λ line f. stdio.sscanf line ≡ some f) lines fs
      → (p' : Process) × (parse_maps stdio p filter_anon minsize lines ≡ ok p')
        × (p'.maps ≡ select (is_kept filter_anon minsize) (map (region_of stdio) fs))
        × (p'.maps_size ≡ length p'.maps)
        × (p'.maps_size < p'.maps_cap)
        × (p' ≡ with_maps p p'.maps p'.maps_size p'.maps_cap)
  unfolding parse_maps
  parse_maps_lem lines fs p h =
      let (p', slot, runs, room, only, kept) =
        loop_lem lines fs (with_maps p [] 0 4) none h (refl, omega arith) in
      (p', rw runs refl, kept, room.0, room.1, only)
