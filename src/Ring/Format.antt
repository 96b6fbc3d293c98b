-- ===== src/Ring/Format.antt =====
-- `format` and `attach` of crates/core/src/ring.rs.
use impulse_ring.Prelude.{
  ℕ, ◌+◌, ◌%◌, ◌^◌, ◌≤◌, ◌<◌, ◌≡◌, refl, ap, true, false, is_power_of_two, arith, ltb, nat_eq,
  is_power_of_two→power, ok, [],
}
use native.Mathlib.Nat.{pow-le-pow_right}
use native.Mathlib.Decide.{dec_le}
use impulse_ring.Segment.{Segment}
use impulse_ring.Ring.{
  Ring, tail, view, write_header, format, attach, ring_bytes, ring_header, off_prodlock, off_magic,
  off_cap, off_head, off_tail, magic,
}
use impulse_ring.Ring.Invariant.{IsRing, IsValid, used, contents}
use impulse_ring.Ring.Wrap.{stream}
use impulse_ring.Ring.Refine.{Holds}

view-IsRing : (base cap : ℕ) → is_power_of_two cap ≡ true → cap < 2 ^ 32 → IsRing (view base cap)
view-IsRing base cap p h =
    let k = is_power_of_two→power cap p in
    record { bits = k.0; bits_le = bits_le k.0 k.1; power = k.1; mask_eq = refl }
  where
    bits_le : (k : ℕ) → cap ≡ 2 ^ k → k ≤ 31
    bits_le k e = elim (dec_le k 31) [
      | yes l ↦ l
      | no l ↦
          absurd
            (omega (arith, pow-le-pow_right {n = 2} (omega arith) {i = 32} {j = k} (omega arith)))
    ]

-- `format` succeeds on these inputs only, and then gives this view and this header.
pub format-ok :
    (s : Segment) (base cap : ℕ) {r : Ring} {s' : Segment}
    → format s base cap ≡ ok (r, s')
    → (is_power_of_two cap ≡ true)
      × (base % 64 ≡ 0)
      × (base + ring_bytes cap ≤ s.len)
      × (r ≡ view base cap)
      × (s' ≡ write_header s base cap)
unfolding format
format-ok s base cap e = ground arith

module _ (s : Segment) (base cap : ℕ) (p : is_power_of_two cap ≡ true) (h : cap < 2 ^ 32) where
  header_words :
      let s' = write_header s base cap in
      (s'.word (base + off_magic) ≡ magic)
      × (s'.word (base + off_cap) ≡ cap)
      × (s'.word (base + off_head) ≡ 0)
      × (s'.word (base + off_tail) ≡ 0)
      × (s'.word (base + off_prodlock) ≡ 0)
  unfolding write_header
  header_words = ground arith

  header-IsValid : IsValid (view base cap) (write_header s base cap)
  header-IsValid = record {
    ring = view-IsRing base cap p h;
    head_lt = omega (arith, header_words);
    tail_lt = omega (arith, header_words);
    used_le = omega (arith, header_words);
  }

  header-Holds : Holds (view base cap) (write_header s base cap) []
  unfolding contents stream
  header-Holds = record {
    valid = header-IsValid;
    shows =
        ap
          (stream cap (base + ring_header) (write_header s base cap).byte
            (tail (view base cap) (write_header s base cap)))
          nothing;
  }
    where
      nothing : used (view base cap) (write_header s base cap) ≡ 0
      nothing = omega (arith, header_words)

  header-attach :
      base + ring_bytes cap ≤ s.len → attach (write_header s base cap) base ≡ ok (view base cap)
  unfolding attach
  header-attach fits = rw (header_words.0, header_words.1, p, small) refl
    where
      small : ltb (write_header s base cap).len (base + ring_bytes cap) ≡ false
      small = unfold write_header in ground arith

-- What `format` accepts is an empty ring with a free lock, which `attach` finds with the same view.
pub format-attach :
    (s : Segment) (base cap : ℕ) {r : Ring} {s' : Segment}
    → cap < 2 ^ 32
    → format s base cap ≡ ok (r, s')
    → (attach s' base ≡ ok r) × Holds r s' [] × (s'.word (r.base + off_prodlock) ≡ 0)
format-attach s base cap {r} {s'} h e =
    let (p, _, fits, er, es) = format-ok s base cap e in
    rw (er, es)
      (
        header-attach s base cap p h fits,
        header-Holds s base cap p h,
        (header_words s base cap p h).4,
      )
