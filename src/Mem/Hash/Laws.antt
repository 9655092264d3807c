-- ===== src/Mem/Hash/Laws.antt =====
-- What the page hash tells apart, and the hash of a page of zeros.
use Prim.Native.Nat.{bit_xor}
use memdump.Base.{
  ℕ, zero, suc, ◌+◌, ◌*◌, ◌/◌, ◌^◌, ◌≤◌, ◌<◌, ◌≡◌, ◌≢◌, refl, sym, ap, ◌∙◌, List, [], ◌∷◌, ◌++◌,
  replicate, ok, ◌>>=◌, length, arith, take, length-replicate, take-length, take_all,
}
use memdump.Base.Bits.{xor_shift_injective, bit_xor-lt}
use memdump.Base.Loop.{fold}
use memdump.Base.Loop.Laws.{for_each_pure, fold-append}
use memdump.Mem.{page_size}
use memdump.Mem.Hash.{u32, hash_byte, hash_end, page_hash, init_zero_page_hash}

xor6_injective : (x y : ℕ) → bit_xor x (x / 64) ≡ bit_xor y (y / 64) → x ≡ y
xor6_injective x y h =
    xor_shift_injective 64 32 (λ x. omega arith) (λ x. omega arith) (x + y) x y (omega arith)
      (omega arith) h

xor11_injective : (x y : ℕ) → bit_xor x (x / 2048) ≡ bit_xor y (y / 2048) → x ≡ y
xor11_injective x y h =
    xor_shift_injective 2048 1024 (λ x. omega arith) (λ x. omega arith) (x + y) x y (omega arith)
      (omega arith) h

-- Adding a word shifted left is multiplication by an odd number, which has an inverse.
undo10 : (a : ℕ) → a < 2 ^ 32 → u32 (u32 (a + u32 (a * 2 ^ 10)) * 3222273025) ≡ a
undo10 a h = omega arith

undo3 : (a : ℕ) → a < 2 ^ 32 → u32 (u32 (a + u32 (a * 2 ^ 3)) * 954437177) ≡ a
undo3 a h = omega arith

undo15 : (a : ℕ) → a < 2 ^ 32 → u32 (u32 (a + u32 (a * 2 ^ 15)) * 1073709057) ≡ a
undo15 a h = omega arith

-- The word that one byte is added to, before the mixing, is determined by the result.
hash_byte_sum : (b b' h h' : ℕ) → hash_byte b h ≡ hash_byte b' h' → u32 (h + b) ≡ u32 (h' + b')
unfolding hash_byte
hash_byte_sum b b' h h' e =
    let mixed = xor6_injective _ _ e in
    sym (undo10 (u32 (h + b)) (omega arith))
    ∙ ap (λ (t : ℕ). u32 (t * 3222273025)) mixed
    ∙ undo10 (u32 (h' + b')) (omega arith)

-- So each round can be undone: for one byte it takes different hashes to different hashes, ...
hash_byte_injective :
    (byte h h' : ℕ) → h < 2 ^ 32 → h' < 2 ^ 32 → hash_byte byte h ≡ hash_byte byte h' → h ≡ h'
hash_byte_injective byte h h' p q e = omega (arith, hash_byte_sum byte byte h h' e)

-- ... and from one hash it takes different bytes to different hashes.
hash_byte_tells :
    (b b' h : ℕ) → h < 2 ^ 32 → b < 256 → b' < 256 → hash_byte b h ≡ hash_byte b' h → b ≡ b'
hash_byte_tells b b' h p q r e = omega (arith, hash_byte_sum b b' h h e)

hash_byte-lt : (byte h : ℕ) → hash_byte byte h < 2 ^ 32
unfolding hash_byte
hash_byte-lt byte h = bit_xor-lt 32 _ _ (omega arith) (omega arith)

hash_end_injective : (h h' : ℕ) → h < 2 ^ 32 → h' < 2 ^ 32 → hash_end h ≡ hash_end h' → h ≡ h'
unfolding hash_end
hash_end_injective h h' p q e =
    let word = λ (t : ℕ). u32 (t + u32 (t * 2 ^ 3)) in
    let mixed = λ (t : ℕ). bit_xor (word t) (word t / 2 ^ 11) in
    let below : (t : ℕ) → mixed t < 2 ^ 32 = λ t. bit_xor-lt 32 _ _ (omega arith) (omega arith) in
    let third : mixed h ≡ mixed h' =
      sym (undo15 (mixed h) (below h))
      ∙ ap (λ (t : ℕ). u32 (t * 1073709057)) e
      ∙ undo15 (mixed h') (below h') in
    let second : word h ≡ word h' = xor11_injective _ _ third in
    sym (undo3 h p) ∙ ap (λ (t : ℕ). u32 (t * 954437177)) second ∙ undo3 h' q

-- The hash after the loop over some bytes.
abbrev run : List ℕ → ℕ → ℕ
run bytes h = fold hash_byte bytes h

run-lt : (bytes : List ℕ) (h : ℕ) → h < 2 ^ 32 → run bytes h < 2 ^ 32
run-lt [] h p = p
run-lt (b ∷ bytes) h p = run-lt bytes (hash_byte b h) (hash_byte-lt b h)

run_injective :
    (bytes : List ℕ) (h h' : ℕ) → h < 2 ^ 32 → h' < 2 ^ 32 → run bytes h ≡ run bytes h' → h ≡ h'
run_injective [] h h' p q e = e
run_injective (b ∷ bytes) h h' p q e =
    hash_byte_injective b h h' p q (
      run_injective bytes (hash_byte b h) (hash_byte b h') (hash_byte-lt b h) (hash_byte-lt b h') e)

page_hash_runs :
    (page : List ℕ) (n : ℕ)
    → n ≤ length page
    → page_hash page n ≡ ok (hash_end (run (take n page) 0))
unfolding page_hash
page_hash_runs page n h =
    ap (λ r. r >>= λ hash. ok (hash_end hash)) (for_each_pure _ hash_byte n page 0 (λ b h. refl) h)

-- The loop reads no byte outside a page that is long enough, and the result fits 32 bits.
pub page_hash_lem :
    (page : List ℕ) (n : ℕ)
    → n ≤ length page
    → (hash : ℕ) × (page_hash page n ≡ ok hash) × (hash < 2 ^ 32)
unfolding hash_end
page_hash_lem page n h = (hash_end (run (take n page) 0), page_hash_runs page n h, omega arith)

ok_injective : {a b : ℕ} → ok a ≡ ok b → a ≡ b
ok_injective e = cc

-- Two pages that differ in one byte have different hashes.
pub page_hash_tells :
    (front back : List ℕ) (b b' : ℕ)
    → b < 256
    → b' < 256
    → b ≢ b'
    → page_hash (front ++ (b ∷ back)) (length (front ++ (b ∷ back)))
      ≢ page_hash (front ++ (b' ∷ back)) (length (front ++ (b' ∷ back)))
page_hash_tells front back b b' p q ne same =
    ne (hash_byte_tells b b' start (run-lt front 0 (omega arith)) p q middle)
  where
    start : ℕ
    start = run front 0

    whole :
        (b : ℕ)
        → page_hash (front ++ (b ∷ back)) (length (front ++ (b ∷ back)))
          ≡ ok (hash_end (run back (hash_byte b start)))
    whole b =
        page_hash_runs (front ++ (b ∷ back)) (length (front ++ (b ∷ back))) (omega arith)
        ∙ ap (λ (xs : List ℕ). ok (hash_end (run xs 0))) (take-length (front ++ (b ∷ back)))
        ∙ ap (λ (h : ℕ). ok (hash_end h)) (fold-append hash_byte front (b ∷ back) 0)

    end : run back (hash_byte b start) ≡ run back (hash_byte b' start)
    end =
        hash_end_injective _ _ (run-lt back _ (hash_byte-lt b start))
          (run-lt back _ (hash_byte-lt b' start)) (ok_injective (sym (whole b) ∙ same ∙ whole b'))

    middle : hash_byte b start ≡ hash_byte b' start
    middle = run_injective back _ _ (hash_byte-lt b start) (hash_byte-lt b' start) end

run_zeros : (n : ℕ) → run (replicate n 0) 0 ≡ 0
unfolding hash_byte
run_zeros zero = refl
run_zeros (suc n) = run_zeros n

-- A page of zeros, of any length, has the hash 0; that is the value of `zero_page_hash`.
pub page_hash_zeros : ((n : ℕ) → page_hash (replicate n 0) n ≡ ok 0) × (init_zero_page_hash ≡ ok 0)
unfolding hash_end init_zero_page_hash
page_hash_zeros = (zeros, zeros page_size)
  where
    zeros : (n : ℕ) → page_hash (replicate n 0) n ≡ ok 0
    zeros n =
        page_hash_runs (replicate n 0) n (omega (arith, length-replicate {A = ℕ} n 0))
        ∙ rw (take_all n (replicate n 0) (sym (length-replicate {A = ℕ} n 0)), run_zeros n) refl
