-- ===== src/Prelude/Decimal.antt =====
-- `format!("{n}")` and `format!("{n:#x}")` of a `u64`: at most 20 decimal or 16 hexadecimal digits.
use Prim.Native.Nat.{ℕ, zero, suc, ◌+◌, ◌-◌, ◌*◌, ◌/◌, ◌%◌, ◌^◌, ◌<◌}
use mathlib.Core.Path.{◌≡◌, refl, sym, ap, ◌∙◌}
use mathlib.Core.List.{[], ◌∷◌, ◌++◌}
use native.Mathlib.Nat.{pow-suc}
use native.Mathlib.Omega.{arith}
use impulse_ring.Prelude.Tests.{ltb, if◌then◌else◌}
use impulse_ring.Prelude.Text.{Str, bytes}

decimal_fuel : ℕ → ℕ → Str
decimal_fuel zero n = []
decimal_fuel (suc f) n =
    let front = decimal_fuel f (n / 10) in
    if ltb n 10 then (b'0' + n) ∷ [] else front ++ (b'0' + n % 10) ∷ []

unfoldable pub decimal : ℕ → Str
unfolding decimal_fuel
decimal n = decimal_fuel 20 n

pub decimal-digit : (n : ℕ) → n < 10 → decimal n ≡ (b'0' + n) ∷ []
unfolding decimal decimal_fuel
decimal-digit n h = ground arith

-- The number that a row of digits stands for, after `acc`.
value_from : ℕ → Str → ℕ
value_from acc [] = acc
value_from acc (c ∷ s) = value_from (acc * 10 + (c - b'0')) s

value_from-append :
    (acc : ℕ) (s : Str) (c : ℕ) → value_from acc (s ++ c ∷ []) ≡ value_from acc s * 10 + (c - b'0')
unfolding value_from
value_from-append acc [] c = refl
value_from-append acc (d ∷ s) c = value_from-append (acc * 10 + (d - b'0')) s c

value_from-decimal_fuel : (f n : ℕ) → n < 10 ^ f → value_from 0 (decimal_fuel f n) ≡ n
unfolding value_from decimal_fuel
value_from-decimal_fuel zero n h = omega arith
value_from-decimal_fuel (suc f) n h = ground (
  arith,
  value_from-append 0 (decimal_fuel f (n / 10)) (b'0' + n % 10),
  value_from-decimal_fuel f (n / 10) (omega (arith, pow-suc 10 f)),
)

-- Two `u64` with the same digits are equal.
pub decimal-injective : (m n : ℕ) → m < 2 ^ 64 → n < 2 ^ 64 → decimal m ≡ decimal n → m ≡ n
unfolding decimal
decimal-injective m n hm hn e =
    sym (value_from-decimal_fuel 20 m (omega arith))
    ∙ ap (value_from 0) e
    ∙ value_from-decimal_fuel 20 n (omega arith)

pub hex_digit : ℕ → ℕ
hex_digit d = if ltb d 10 then b'0' + d else b'a' + (d - 10)

hex_fuel : ℕ → ℕ → Str
unfolding hex_digit
hex_fuel zero n = []
hex_fuel (suc f) n =
    let front = hex_fuel f (n / 16) in
    if ltb n 16 then hex_digit n ∷ [] else front ++ hex_digit (n % 16) ∷ []

unfoldable pub hex : ℕ → Str
unfolding hex_fuel
hex n = bytes "0x" ++ hex_fuel 16 n

pub hex_digit-injective : (m n : ℕ) → m < 16 → n < 16 → hex_digit m ≡ hex_digit n → m ≡ n
unfolding hex_digit
hex_digit-injective m n hm hn e = ground arith
