-- ===== src/Mem/Hash.antt =====
-- The hash of a page in jni/mem.c: `page_hash` and `init_zero_page_hash`.
pub mod Laws
use Prim.Native.Nat.{bit_xor}
use memdump.Base.{ℕ, ◌+◌, ◌*◌, ◌/◌, ◌%◌, ◌^◌, List, replicate, Run, ok, ◌>>=◌}
use memdump.Base.Loop.{for_each}
use memdump.Mem.{page_size}

-- Arithmetic on `uint32_t`.
abbrev pub u32 : ℕ → ℕ
u32 n = n % 2 ^ 32

-- The body of the loop, for one byte.
unfoldable pub hash_byte : ℕ → ℕ → ℕ
hash_byte byte hash =
    let hash₁ = u32 (hash + byte) in
    let hash₂ = u32 (hash₁ + u32 (hash₁ * 2 ^ 10)) in bit_xor hash₂ (hash₂ / 2 ^ 6)

-- What follows the loop.
unfoldable pub hash_end : ℕ → ℕ
hash_end hash =
    let hash₁ = u32 (hash + u32 (hash * 2 ^ 3)) in
    let hash₂ = bit_xor hash₁ (hash₁ / 2 ^ 11) in u32 (hash₂ + u32 (hash₂ * 2 ^ 15))

-- A read past the end of the array `page` is a fault.
unfoldable pub page_hash : List ℕ → ℕ → Run ℕ
page_hash page length = do
  hash ← for_each length 0 page (λ _ byte hash. ok (hash_byte byte hash)) 0
  ok (hash_end hash)

-- The value that the global `zero_page_hash` gets.
unfoldable pub init_zero_page_hash : Run ℕ
init_zero_page_hash = page_hash (replicate page_size 0) page_size
