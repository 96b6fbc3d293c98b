-- ===== src/Prelude/Bitwise.antt =====
-- `|` and `^` tell zero apart at every width.
use Prim.Native.Nat.{
  ℕ, zero, suc, ◌+◌, ◌*◌, ◌/◌, ◌%◌, ◌≤◌, ◌<◌, max, bit_or, bit_xor, digits, bitwise, differ,
  bit_or-bitwise, bit_xor-bitwise,
}
use mathlib.Core.Path.{◌≡◌, refl}
use native.Mathlib.Nat.{le_refl}
use native.Mathlib.Omega.{arith}

module _ (z : ℕ → ℕ) (f : ℕ → ℕ → ℕ) where
  digits_enough : (n m a b : ℕ) → a ≤ n → a ≤ m → digits z f n a b ≡ digits z f m a b
  digits_enough zero zero a b p q = refl
  digits_enough zero (suc m) zero b p q = refl
  digits_enough zero (suc m) (suc a) b p q = absurd (omega arith)
  digits_enough (suc n) zero zero b p q = refl
  digits_enough (suc n) zero (suc a) b p q = absurd (omega arith)
  digits_enough (suc n) (suc m) zero b p q = refl
  digits_enough (suc n) (suc m) (suc a) b p q =
      rw (digits_enough n m (suc a / 2) (b / 2) (omega arith) (omega arith))

  pub lowest_digit :
      (a b : ℕ)
      → bitwise z f (suc a) b ≡ bitwise z f (suc a / 2) (b / 2) * 2 + f (suc a % 2) (b % 2)
  lowest_digit a b =
      omega (arith, digits_enough a (suc a / 2) (suc a / 2) (b / 2) (omega arith) (le_refl _))

bit_or_halve : (a b : ℕ) → bit_or a b ≡ bit_or (a / 2) (b / 2) * 2 + max (a % 2) (b % 2)
bit_or_halve zero b = simp bit_or-bitwise (omega arith)
bit_or_halve (suc a) b = simp bit_or-bitwise (lowest_digit (λ y. y) max a b)

bit_xor_halve : (a b : ℕ) → bit_xor a b ≡ bit_xor (a / 2) (b / 2) * 2 + differ (a % 2) (b % 2)
bit_xor_halve zero b = simp bit_xor-bitwise (omega arith)
bit_xor_halve (suc a) b = simp bit_xor-bitwise (lowest_digit (λ y. y) differ a b)

differ_zero : (a b : ℕ) → differ (a % 2) (b % 2) ≡ 0 → a % 2 ≡ b % 2
differ_zero a b h = bits (a % 2) (b % 2) (omega arith) (omega arith) h
  where
    bits : (x y : ℕ) → x < 2 → y < 2 → differ x y ≡ 0 → x ≡ y
    bits zero zero p q h = refl
    bits zero (suc zero) p q h = absurd (omega arith)
    bits (suc zero) zero p q h = absurd (omega arith)
    bits (suc zero) (suc zero) p q h = refl
    bits (suc (suc x)) y p q h = absurd (omega arith)
    bits zero (suc (suc y)) p q h = absurd (omega arith)
    bits (suc zero) (suc (suc y)) p q h = absurd (omega arith)

differ_self : (x : ℕ) → x < 2 → differ x x ≡ 0
differ_self zero h = refl
differ_self (suc zero) h = refl
differ_self (suc (suc x)) h = absurd (omega arith)

or_zero_below : (n a b : ℕ) → a ≤ n → bit_or a b ≡ 0 → (a ≡ 0) × (b ≡ 0)
or_zero_below n zero b h e = (refl, omega (arith, bit_or-zero b))
  where
    bit_or-zero : (b : ℕ) → bit_or 0 b ≡ b
    bit_or-zero b = simp bit_or-bitwise refl
or_zero_below zero (suc a) b h e = absurd (omega arith)
or_zero_below (suc n) (suc a) b h e =
    let halves =
      or_zero_below n (suc a / 2) (b / 2) (omega arith) (omega (arith, bit_or_halve (suc a) b)) in
    omega (arith, halves, bit_or_halve (suc a) b)

pub bit_or-eq_zero : (a b : ℕ) → bit_or a b ≡ 0 → (a ≡ 0) × (b ≡ 0)
bit_or-eq_zero a b e = or_zero_below a a b (le_refl a) e

xor_zero_below : (n a b : ℕ) → a ≤ n → bit_xor a b ≡ 0 → a ≡ b
xor_zero_below n zero b h e = omega (arith, bit_xor-zero b)
  where
    bit_xor-zero : (b : ℕ) → bit_xor 0 b ≡ b
    bit_xor-zero b = simp bit_xor-bitwise refl
xor_zero_below zero (suc a) b h e = absurd (omega arith)
xor_zero_below (suc n) (suc a) b h e =
    let step = bit_xor_halve (suc a) b in
    omega (
      arith,
      xor_zero_below n (suc a / 2) (b / 2) (omega arith) (omega (arith, step)),
      differ_zero (suc a) b (omega (arith, step)),
    )

pub bit_xor-eq_zero : (a b : ℕ) → bit_xor a b ≡ 0 → a ≡ b
bit_xor-eq_zero a b e = xor_zero_below a a b (le_refl a) e

xor_self_below : (n a : ℕ) → a ≤ n → bit_xor a a ≡ 0
xor_self_below n zero h = refl
xor_self_below zero (suc a) h = absurd (omega arith)
xor_self_below (suc n) (suc a) h = omega (
  arith,
  bit_xor_halve (suc a) (suc a),
  xor_self_below n (suc a / 2) (omega arith),
  differ_self (suc a % 2) (omega arith),
)

pub bit_xor_self : (a : ℕ) → bit_xor a a ≡ 0
bit_xor_self a = xor_self_below a a (le_refl a)
