-- ===== src/Ring/Invariant.antt =====
-- When a ring's header is well formed, and what its two copies then do.
use Prim.Native.Nat.{◌∣◌}
use native.Mathlib.Decide.{dec_le}
use native.Mathlib.Nat.{
  mod-mod_of_dvd, one-le-pow, pow-le-pow_right, pow-suc, dvd_refl, dvd-mul_right_of_dvd,
}
use impulse_ring.Prelude.{
  ℕ, zero, suc, ◌+◌, ◌-◌, ◌%◌, ◌^◌, ◌≤◌, ◌<◌, ◌≡◌, ap, List, arith, bit_and, bit_and_mask, length,
  u64_mod,
}
use impulse_ring.Segment.{Segment}
use impulse_ring.Ring.{Ring, head, tail, data_ptr, write_wrapped, read_wrapped}
use impulse_ring.Ring.Wrap.{stream, puts, write_walk, read_walk}

zero_of_le : {k : ℕ} → k ≤ 0 → k ≡ 0
zero_of_le h = omega arith

eq_of_le : {k n : ℕ} → k ≤ suc n → ¬ (k ≤ n) → k ≡ suc n
eq_of_le h l = omega arith

pow-dvd : (k n : ℕ) → k ≤ n → 2 ^ k ∣ 2 ^ n
pow-dvd k zero h = rw (zero_of_le h) (dvd_refl 1)
pow-dvd k (suc n) h = elim (dec_le k n) [
  | yes l ↦ rw (pow-suc 2 n) (dvd-mul_right_of_dvd (2 ^ k) (pow-dvd k n l) 2)
  | no l ↦ rw (eq_of_le h l) (dvd_refl (2 ^ suc n))
]

-- The capacity is a power of two that fits the header's 32-bit word.
pub record IsRing (r : Ring) : Type 0 where
  pub bits : ℕ
  pub bits_le : bits ≤ 31
  pub power : r.capacity ≡ 2 ^ bits
  pub mask_eq : r.mask ≡ r.capacity - 1

-- The bytes that are waiting; `head - tail` on `u64`.
abbrev pub used : Ring → Segment → ℕ
used r s = (head r s + u64_mod - tail r s) % u64_mod

pub record IsValid (r : Ring) (s : Segment) : Type 0 where
  pub ring : IsRing r
  pub head_lt : head r s < u64_mod
  pub tail_lt : tail r s < u64_mod
  pub used_le : used r s ≤ r.capacity

-- The waiting bytes, oldest first.
unfoldable pub contents : Ring → Segment → List ℕ
contents r s = stream r.capacity (data_ptr r) s.byte (tail r s) (used r s)

module _ {r : Ring} (v : IsRing r) where
  pub capacity_pos : 0 < r.capacity
  capacity_pos = omega (arith, v.power, one-le-pow v.bits 2)

  pub capacity_small : r.capacity ≤ 2 ^ 31
  capacity_small = rw v.power (pow-le-pow_right {n = 2} (omega arith) v.bits_le)

  -- `pos & mask`.
  pub index : (pos : ℕ) → bit_and pos r.mask ≡ pos % r.capacity
  index pos = rw (v.mask_eq, v.power) (bit_and_mask v.bits pos)

  -- A 64-bit position and the unbounded one lie on the same cell.
  pub mod-wrap : (pos : ℕ) → pos % u64_mod % r.capacity ≡ pos % r.capacity
  mod-wrap pos =
      rw v.power (mod-mod_of_dvd (2 ^ v.bits) pos (pow-dvd v.bits 64 (omega (arith, v.bits_le))))

  pub write_wrapped_lem :
      (s : Segment) (pos : ℕ) (src : List ℕ)
      → length src ≤ r.capacity
      → write_wrapped r s pos src ≡ record s { byte = puts r.capacity (data_ptr r) s.byte pos src }
  unfolding write_wrapped
  write_wrapped_lem s pos src h = rw (index pos) (
      ap (λ (m : ℕ → ℕ). record s { byte = m })
        (write_walk r.capacity (data_ptr r) s.byte pos src capacity_pos h))

  pub read_wrapped_lem :
      (s : Segment) (pos n : ℕ)
      → n ≤ r.capacity
      → read_wrapped r s pos n ≡ stream r.capacity (data_ptr r) s.byte pos n
  unfolding read_wrapped
  read_wrapped_lem s pos n h =
      rw (index pos) (read_walk r.capacity (data_ptr r) s.byte pos n capacity_pos h)
