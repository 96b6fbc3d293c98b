-- ===== src/Prelude/Word.antt =====
-- Machine integers: `u64` as a number below 2 ^ 64, `i64` and `i32` as integers, and the casts.
use Prim.Native.Nat.{ℕ, zero, suc, ◌+◌, ◌-◌, ◌*◌, ◌/◌, ◌%◌, ◌^◌, ◌<◌}
use mathlib.Core.Path.{◌≡◌, refl, ap, ap₂, ◌∙◌}
use mathlib.Core.Logic.{◌↔◌}
use mathlib.Core.Bool.{Bool, true, false}
use mathlib.Core.List.{List, [], ◌∷◌}
use native.Mathlib.Nat.{pow-suc}
use native.Mathlib.Omega.{arith}
use impulse_ring.Prelude.Tests.{ltb, if◌then◌else◌, nat_eqb, Eq}
use impulse_ring.Prelude.Lists.{length, All}

-- `negsuc n` is -(n + 1).
pub data ℤ : Type 0 where
  pos : ℕ → ℤ
  negsuc : ℕ → ℤ

unfoldable pub int_eqb : ℤ → ℤ → Bool
int_eqb (pos a) (pos b) = nat_eqb a b
int_eqb (negsuc a) (negsuc b) = nat_eqb a b
int_eqb _ _ = false

pub int_eqb_iff : (a b : ℤ) → (int_eqb a b ≡ true) ↔ (a ≡ b)
unfolding int_eqb
int_eqb_iff (pos a) (pos b) = ground arith
int_eqb_iff (negsuc a) (negsuc b) = ground arith
int_eqb_iff (pos a) (negsuc b) = ground arith
int_eqb_iff (negsuc a) (pos b) = ground arith

instance abbrev pub int_eq : Eq ℤ
int_eq = record { equals = int_eqb; equals_iff = int_eqb_iff }

abbrev pub u64_mod : ℕ
u64_mod = 2 ^ 64

abbrev pub u32_mod : ℕ
u32_mod = 2 ^ 32

-- `w as i64` for a `u64`, and `v as u64` for an `i64`: the same 64 bits.
abbrev pub u64_as_i64 : ℕ → ℤ
u64_as_i64 w = if ltb w (2 ^ 63) then pos w else negsuc (u64_mod - w - 1)

abbrev pub i64_as_u64 : ℤ → ℕ
i64_as_u64 (pos n) = n % u64_mod
i64_as_u64 (negsuc n) = u64_mod - 1 - n % u64_mod

-- `w as i32` for a `u32`, and `v as u32` for an `i32`.
abbrev pub u32_as_i32 : ℕ → ℤ
u32_as_i32 w = if ltb w (2 ^ 31) then pos w else negsuc (u32_mod - w - 1)

abbrev pub i32_as_u32 : ℤ → ℕ
i32_as_u32 (pos n) = n % u32_mod
i32_as_u32 (negsuc n) = u32_mod - 1 - n % u32_mod

-- `v as i32` for an `i64` keeps the low 32 bits.
abbrev pub i64_as_i32 : ℤ → ℤ
i64_as_i32 v = u32_as_i32 (i64_as_u64 v % u32_mod)

-- `v.max(0) as usize`.
abbrev pub max_zero : ℤ → ℕ
max_zero (pos n) = n
max_zero (negsuc n) = 0

-- `v + 1` on an `i64`, wrapping.
abbrev pub succ_i64 : ℤ → ℤ
succ_i64 v = u64_as_i64 ((i64_as_u64 v + 1) % u64_mod)

abbrev pub IsI64 : ℤ → Type 0
IsI64 (pos n) = n < 2 ^ 63
IsI64 (negsuc n) = n < 2 ^ 63

abbrev pub IsByte : ℕ → Type 0
IsByte b = b < 256

-- `to_le_bytes` of a `k`-byte integer, and `from_le_bytes`.
abbrev pub to_le_bytes : ℕ → ℕ → List ℕ
to_le_bytes zero v = []
to_le_bytes (suc k) v = (v % 256) ∷ to_le_bytes k (v / 256)

abbrev pub from_le_bytes : List ℕ → ℕ
from_le_bytes [] = 0
from_le_bytes (b ∷ bs) = b + 256 * from_le_bytes bs

length-to_le_bytes : (k v : ℕ) → length (to_le_bytes k v) ≡ k
length-to_le_bytes zero v = refl
length-to_le_bytes (suc k) v = ap suc (length-to_le_bytes k (v / 256))

from_le_bytes-to_le_bytes_two : (v : ℕ) → v < 2 ^ 16 → from_le_bytes (to_le_bytes 2 v) ≡ v
from_le_bytes-to_le_bytes_two v h = omega arith

pub from_le_bytes-to_le_bytes_four : (v : ℕ) → v < 2 ^ 32 → from_le_bytes (to_le_bytes 4 v) ≡ v
from_le_bytes-to_le_bytes_four v h = omega arith

pub from_le_bytes-to_le_bytes_eight : (v : ℕ) → v < 2 ^ 64 → from_le_bytes (to_le_bytes 8 v) ≡ v
from_le_bytes-to_le_bytes_eight v h = omega arith

to_le_bytes-IsByte : (k v : ℕ) → All IsByte (to_le_bytes k v)
to_le_bytes-IsByte zero v = tt
to_le_bytes-IsByte (suc k) v = (omega arith, to_le_bytes-IsByte k (v / 256))

-- Bytes are the digits of the number that they stand for.
pub to_le_bytes-from_le_bytes :
    (bs : List ℕ) → All IsByte bs → to_le_bytes (length bs) (from_le_bytes bs) ≡ bs
to_le_bytes-from_le_bytes [] h = refl
to_le_bytes-from_le_bytes (b ∷ bs) h =
    ap₂ ◌∷◌ (omega (arith, h.0))
      (ap (to_le_bytes (length bs)) (omega (arith, h.0)) ∙ to_le_bytes-from_le_bytes bs h.1)

pub from_le_bytes-lt : (bs : List ℕ) → All IsByte bs → from_le_bytes bs < 256 ^ length bs
from_le_bytes-lt [] h = omega arith
from_le_bytes-lt (b ∷ bs) h = omega (arith, h.0, from_le_bytes-lt bs h.1, pow-suc 256 (length bs))
