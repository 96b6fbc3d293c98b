-- ===== src/Control/Arena.antt =====
-- The arena sizes that the broker hands out.
use native.Mathlib.Nat.{pow-suc, pow-le-pow_right, add-zero}
use native.Mathlib.Decide.{dec_le}
use impulse_ring.Prelude.{
  ℕ, zero, suc, ◌+◌, ◌*◌, ◌^◌, ◌≤◌, ◌<◌, ◌≡◌, refl, ap, ◌∙◌, true, false, nat_eqb, ◌⊎◌, inl, inr,
  arith, min, max, leb, leb→le, not_leb→lt, Bool-cases, is_power_of_two, power→is_power_of_two, ok,
}
use impulse_ring.Segment.{Segment}
use impulse_ring.Ring.{view, write_header, format, ring_bytes}
use impulse_ring.Control.{
  next_power_from, next_power_of_two, clamp_arena_cap, arena_cap, min_arena_cap, max_arena_cap,
}

-- From 2^k on, with enough doublings left, the loop ends on the least power of two from there on
-- that is not below `n`.
next_power_from_lem :
    (f k n : ℕ)
    → n ≤ 2 ^ (k + f)
    → (j : ℕ) × (next_power_from f (2 ^ k) n ≡ 2 ^ j)
      × (n ≤ 2 ^ j)
      × ((2 ^ j ≡ 2 ^ k) ⊎ (2 ^ j < 2 * n))
unfolding next_power_from
next_power_from_lem zero k n h = (k, refl, rw add-zero at h, inl refl)
next_power_from_lem (suc f) k n h = elim (Bool-cases (leb n (2 ^ k))) [
  | inl done ↦ (k, rw done, leb→le n (2 ^ k) done, inl refl)
  | inr more ↦
      let (j, e, le, last) = next_power_from_lem f (suc k) n (rw shift at h) in
      (
        j,
        rw more (ap (λ p. next_power_from f p n) (omega (arith, pow-suc 2 k)) ∙ e),
        le,
        inr (omega (arith, last, pow-suc 2 k, not_leb→lt n (2 ^ k) more)),
      )
]
  where
    shift : k + suc f ≡ suc k + f
    shift = omega arith

-- From 2^18 up to 2^27 the result is a power of two in that range, below twice the number.
next_power_of_two_lem :
    (n : ℕ)
    → min_arena_cap ≤ n
    → n ≤ max_arena_cap
    → (j : ℕ) × (next_power_of_two n ≡ 2 ^ j) × (n ≤ 2 ^ j) × (2 ^ j < 2 * n) × (j ≤ 27)
unfolding next_power_of_two
next_power_of_two_lem n lo hi =
    let (j, e, le, last) = next_power_from_lem 64 0 n (omega arith) in
    let bound : 2 ^ j < 2 * n = omega (arith, last) in (j, e, le, bound, exponent j (omega arith))
  where
    exponent : (j : ℕ) → 2 ^ j < 2 ^ 28 → j ≤ 27
    exponent j h = elim (dec_le j 27) [
      | yes l ↦ l
      | no l ↦
          absurd
            (omega (arith, pow-le-pow_right {n = 2} (omega arith) {i = 28} {j = j} (omega arith)))
    ]

-- Whatever was asked for, the capacity is a power of two between the two limits.
pub clamp_arena_cap_legal :
    (requested : ℕ)
    → (is_power_of_two (clamp_arena_cap requested) ≡ true)
      × (min_arena_cap ≤ clamp_arena_cap requested)
      × (clamp_arena_cap requested ≤ max_arena_cap)
unfolding clamp_arena_cap
clamp_arena_cap_legal requested = elim (Bool-cases (nat_eqb requested 0)) [
  | inl none_asked ↦ rw none_asked (power→is_power_of_two 19, omega arith, omega arith)
  | inr asked ↦
      let (j, e, le, _, small) =
        next_power_of_two_lem (min (max requested min_arena_cap) max_arena_cap) (omega arith)
          (omega arith) in
      rw (asked, e)
        (
          power→is_power_of_two j,
          omega (arith, le),
          pow-le-pow_right {n = 2} (omega arith) {i = j} {j = 27} small,
        )
]

-- A request between the limits is met, with less than twice what it asked for; and 0 gets the
-- default.
clamp_arena_cap_meets :
    (requested : ℕ)
    → min_arena_cap ≤ requested
    → requested ≤ max_arena_cap
    → (requested ≤ clamp_arena_cap requested)
      × (clamp_arena_cap requested < 2 * requested)
      × (clamp_arena_cap 0 ≡ arena_cap)
unfolding clamp_arena_cap
clamp_arena_cap_meets requested lo hi =
    let (j, e, le, last, _) = next_power_of_two_lem requested lo hi in
    rw (nonzero, within, e) (le, last, refl)
  where
    nonzero : nat_eqb requested 0 ≡ false
    nonzero = ground arith

    within : min (max requested min_arena_cap) max_arena_cap ≡ requested
    within = omega arith

-- A segment that is long enough, whatever it holds, can always be formatted with it.
pub clamp_arena_cap-format :
    (requested : ℕ) (s : Segment)
    → ring_bytes (clamp_arena_cap requested) ≤ s.len
    → format s 0 (clamp_arena_cap requested)
      ≡ ok (view 0 (clamp_arena_cap requested), write_header s 0 (clamp_arena_cap requested))
unfolding format
clamp_arena_cap-format requested s long = ground (arith, clamp_arena_cap_legal requested)
