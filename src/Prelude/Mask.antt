-- ===== src/Prelude/Mask.antt =====
-- `x & (2^k - 1)` is the remainder by 2^k, at every width.
use Prim.Native.Nat.{
  ℕ, zero, suc, ◌+◌, ◌-◌, ◌*◌, ◌/◌, ◌%◌, ◌^◌, ◌≤◌, ◌<◌, min, bit_and, bit_and-bitwise,
}
use mathlib.Core.Path.{◌≡◌, refl, ap}
use mathlib.Core.Bool.{Bool, true, not, ◌&&◌}
use mathlib.Core.Logic.{◌≢◌}
use native.Mathlib.Decide.{ℕ_discrete}
use native.Mathlib.Nat.{pow-suc, one-le-pow, mod_self}
use impulse_ring.Prelude.Bitwise.{lowest_digit}
use impulse_ring.Prelude.Tests.{nat_eqb}
use native.Mathlib.Omega.{arith}

bit_and_halve : (a b : ℕ) → bit_and a b ≡ bit_and (a / 2) (b / 2) * 2 + min (a % 2) (b % 2)
bit_and_halve zero b = simp bit_and-bitwise (omega arith)
bit_and_halve (suc a) b = simp bit_and-bitwise (lowest_digit (λ y. zero) min a b)

-- `fuel` is any bound of the left operand.
nothing_in_zero : (fuel x : ℕ) → x ≤ fuel → bit_and x 0 ≡ 0
nothing_in_zero fuel zero le = refl
nothing_in_zero zero (suc x) le = absurd (omega arith)
nothing_in_zero (suc fuel) (suc x) le =
    let half = nothing_in_zero fuel (suc x / 2) (omega arith) in
    omega (arith, half, bit_and_halve (suc x) 0)

mask_split : (k q r : ℕ) → r < 2 ^ k → bit_and (q * 2 ^ k + r) (2 ^ k - 1) ≡ r
mask_split zero q r h = omega (arith, nothing_in_zero (q * 1 + r) (q * 1 + r) (omega arith))
mask_split (suc k) q r h = ground (
  arith,
  bit_and_halve (q * 2 ^ suc k + r) (2 ^ suc k - 1),
  ap (λ (t : ℕ). q * t) (pow-suc 2 k),
  pow-suc 2 k,
  one-le-pow k 2,
  mask_split k q (r / 2) (omega (arith, pow-suc 2 k)),
)

pub bit_and_mask : (k a : ℕ) → bit_and a (2 ^ k - 1) ≡ a % 2 ^ k
bit_and_mask k a = ground (arith, one-le-pow k 2, mask_split k (a / 2 ^ k) (a % 2 ^ k))

bit_and_self : (n a : ℕ) → a ≤ n → bit_and a a ≡ a
bit_and_self n zero h = refl
bit_and_self zero (suc a) h = absurd (omega arith)
bit_and_self (suc n) (suc a) h =
    omega (arith, bit_and_halve (suc a) (suc a), bit_and_self n (suc a / 2) (omega arith))

-- A number that shares no bit with its predecessor is a power of two.
power_below : (m n : ℕ) → n ≤ m → 0 < n → bit_and n (n - 1) ≡ 0 → (k : ℕ) × (n ≡ 2 ^ k)
power_below zero n h p e = absurd (omega arith)
power_below (suc m) n h p e = elim (ℕ_discrete (n % 2) 0) [
  | yes even ↦
      let halved : (k : ℕ) × (n / 2 ≡ 2 ^ k) =
        power_below m (n / 2) (omega arith) (omega arith)
          (omega (arith, bit_and_halve n (n - 1), half_pred even)) in
      (suc halved.0, omega (arith, halved.1, pow-suc 2 halved.0))
  | no odd ↦ (
    0,
    omega
        (arith, bit_and_halve n (n - 1), odd_half odd, bit_and_self (n / 2) (n / 2) (omega arith)),
  )
]
  where
    half_pred : n % 2 ≡ 0 → bit_and (n / 2) (n / 2 - 1) ≡ bit_and (n / 2) ((n - 1) / 2)
    half_pred even = ap (bit_and (n / 2)) (omega arith)

    odd_half : n % 2 ≢ 0 → bit_and (n / 2) ((n - 1) / 2) ≡ bit_and (n / 2) (n / 2)
    odd_half odd = ap (bit_and (n / 2)) (omega arith)

-- `usize::is_power_of_two`.
abbrev pub is_power_of_two : ℕ → Bool
is_power_of_two n = not (nat_eqb n 0) && nat_eqb (bit_and n (n - 1)) 0

pub is_power_of_two→power : (n : ℕ) → is_power_of_two n ≡ true → (k : ℕ) × (n ≡ 2 ^ k)
is_power_of_two→power n h = power_below n n (omega arith) (ground arith) (ground arith)

pub power→is_power_of_two : (k : ℕ) → is_power_of_two (2 ^ k) ≡ true
power→is_power_of_two k = ground (arith, one-le-pow k 2, bit_and_mask k (2 ^ k), mod_self (2 ^ k))
