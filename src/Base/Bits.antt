-- ===== src/Base/Bits.antt =====
-- Machine words as native numbers, and the bits of `^` one by one.
-- The library gives `^` by a recursion with fuel; `bit_xor_step` is its equation without fuel.
use Prim.Native.Nat.{
  ℕ, zero, suc, ◌+◌, ◌-◌, ◌*◌, ◌/◌, ◌%◌, ◌≤◌, ◌<◌, ◌^◌, digits, bitwise, bit_xor, bit_xor-bitwise,
  differ,
}
use mathlib.Core.Path.{◌≡◌, refl, ◌∙◌, sym, ap}
use native.Mathlib.Nat.{pow-suc}
use native.Mathlib.Omega.{arith}

module _ (z : ℕ → ℕ) (f : ℕ → ℕ → ℕ) where
  -- Fuel beyond the first number changes nothing.
  digits_next : (n a b : ℕ) → a ≤ n → digits z f (suc n) a b ≡ digits z f n a b
  digits_next n zero b h = no_digits n b
    where
      no_digits : (n b : ℕ) → digits z f (suc n) 0 b ≡ digits z f n 0 b
      no_digits zero b = refl
      no_digits (suc n) b = refl
  digits_next zero (suc a) b h = absurd (omega arith)
  digits_next (suc n) (suc a) b h =
      ap (λ (high : ℕ). high * 2 + f (suc a % 2) (b % 2))
        (digits_next n (suc a / 2) (b / 2) (omega arith))

  digits_far : (k m n a b : ℕ) → m ≡ k + n → a ≤ n → digits z f m a b ≡ digits z f n a b
  digits_far zero m n a b e h = ap (λ (m : ℕ). digits z f m a b) (omega arith)
  digits_far (suc k) zero n a b e h = absurd (omega arith)
  digits_far (suc k) (suc m) n a b e h =
      digits_next m a b (omega arith) ∙ digits_far k m n a b (omega arith) h

  bitwise_lowest :
      (a b : ℕ)
      → bitwise z f (suc a) b ≡ bitwise z f (suc a / 2) (b / 2) * 2 + f (suc a % 2) (b % 2)
  bitwise_lowest a b =
      ap (λ (high : ℕ). high * 2 + f (suc a % 2) (b % 2))
        (digits_far (a - suc a / 2) a (suc a / 2) (suc a / 2) (b / 2) (omega arith) (omega arith))

differ_digits : (a b : ℕ) → a < 2 → b < 2 → differ a b ≡ (a + b) % 2
differ_digits zero zero p q = refl
differ_digits zero (suc b) p q = omega arith
differ_digits (suc zero) zero p q = refl
differ_digits (suc zero) (suc zero) p q = refl
differ_digits (suc zero) (suc (suc b)) p q = absurd (omega arith)
differ_digits (suc (suc a)) b p q = absurd (omega arith)

pub bit_xor_step : (a b : ℕ) → bit_xor a b ≡ bit_xor (a / 2) (b / 2) * 2 + (a + b) % 2
bit_xor_step zero b = simp bit_xor-bitwise (omega arith)
bit_xor_step (suc a) b =
    let lowest : bit_xor (suc a) b ≡ bit_xor (suc a / 2) (b / 2) * 2 + differ (suc a % 2) (b % 2) =
      simp bit_xor-bitwise (bitwise_lowest (λ y. y) differ a b) in
    omega (arith, lowest, differ_digits (suc a % 2) (b % 2))

-- `^` keeps the width of its operands.
pub bit_xor-lt : (k a b : ℕ) → a < 2 ^ k → b < 2 ^ k → bit_xor a b < 2 ^ k
bit_xor-lt zero zero zero p q = omega arith
bit_xor-lt zero zero (suc b) p q = absurd (omega arith)
bit_xor-lt zero (suc a) b p q = absurd (omega arith)
bit_xor-lt (suc k) a b p q = omega (
  arith,
  bit_xor_step a b,
  pow-suc 2 k,
  bit_xor-lt k (a / 2) (b / 2) (omega (arith, pow-suc 2 k)) (omega (arith, pow-suc 2 k)),
)

-- `x ^ (x >> k)` loses nothing: the top bits stand as they are, and each lower one follows.
pub xor_shift_injective :
    (d e : ℕ)
    → ((x : ℕ) → x / d ≡ x / 2 / e)
    → ((x : ℕ) → x / d / 2 ≡ x / 2 / d)
    → (fuel x y : ℕ) → x ≤ fuel
    → y ≤ fuel
    → bit_xor x (x / d) ≡ bit_xor y (y / d)
    → x ≡ y
xor_shift_injective d e low half zero x y p q h = omega arith
xor_shift_injective d e low half (suc fuel) x y p q h =
    let upper : bit_xor (x / 2) (x / 2 / d) ≡ bit_xor (y / 2) (y / 2 / d) =
      rw (← half x, ← half y) (omega (arith, bit_xor_step x (x / d), bit_xor_step y (y / d))) in
    let same : x / 2 ≡ y / 2 =
      xor_shift_injective d e low half fuel (x / 2) (y / 2) (omega arith) (omega arith) upper in
    let shifted : x / d ≡ y / d = low x ∙ ap (λ (t : ℕ). t / e) same ∙ sym (low y) in
    omega (arith, bit_xor_step x (x / d), bit_xor_step y (y / d))
