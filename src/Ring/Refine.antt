-- ===== src/Ring/Refine.antt =====
-- The ring (crates/core/src/ring.rs) beside the queue of its messages.
use impulse_ring.Prelude.{
  ℕ, ◌+◌, ◌-◌, ◌≢◌, ◌%◌, ◌≤◌, ◌≡◌, refl, sym, ap, ap₂, ◌∙◌, List, [], ◌∷◌, ◌++◌, arith, length,
  u64_mod, u32_mod, to_le_bytes, nat_eq,
}
use mathlib.Core.List.{append_assoc, append-nil}
use native.Mathlib.Nat.{mod-eq_of_lt}
use impulse_ring.Segment.{Segment, store}
use impulse_ring.Queue.{Queue, stored, flat}
use impulse_ring.Ring.{Ring, head, tail, data_ptr, write_wrapped, off_head, off_tail}
use impulse_ring.Ring.Wrap.{
  stream, puts, length-stream, puts_same, stream_add, puts_append, stream-puts_behind,
  stream-puts_self,
}
use impulse_ring.Ring.Invariant.{
  IsRing, IsValid, used, contents, capacity_small, mod-wrap, write_wrapped_lem,
}

-- The ring is well formed, and holds exactly these messages, in this order.
pub record Holds (r : Ring) (s : Segment) (q : Queue) : Type 0 where
  pub valid : IsValid r s
  pub shows : contents r s ≡ flat q

pub flat-append : (q : Queue) (x : List ℕ) → flat (q ++ x ∷ []) ≡ flat q ++ stored x
flat-append [] x = append-nil (stored x)
flat-append (y ∷ q) x =
    ap (◌++◌ (stored y)) (flat-append q x) ∙ sym (append_assoc (stored y) (flat q) (stored x))

pub used_lem : {r : Ring} {s : Segment} {q : Queue} → Holds r s q → used r s ≡ length (flat q)
unfolding contents
used_lem {r} {s} h =
    sym (length-stream r.capacity (data_ptr r) s.byte (tail r s) (used r s)) ∙ ap length h.shows

-- A message is stored at the head as one row of bytes, wherever the positions wrap.
pub push_bytes :
    {r : Ring} (v : IsRing r) (s : Segment) (src : List ℕ)
    → 4 + length src ≤ r.capacity
    → write_wrapped r
        (write_wrapped r s (head r s) (to_le_bytes 4 (length src % u32_mod)))
        ((head r s + 4) % u64_mod)
        src
      ≡ record s { byte = puts r.capacity (data_ptr r) s.byte (head r s) (stored src) }
push_bytes {r} v s src h =
    ap (λ t. write_wrapped r t ((head r s + 4) % u64_mod) src)
      (write_wrapped_lem v s (head r s) (to_le_bytes 4 (length src % u32_mod)) (omega arith))
    ∙ write_wrapped_lem v
        (record s {
          byte =
              puts r.capacity (data_ptr r) s.byte (head r s) (to_le_bytes 4 (length src % u32_mod));
        })
        ((head r s + 4) % u64_mod) src (omega arith)
    ∙ ap (λ (m : ℕ → ℕ). record s { byte = m })
        (puts_same r.capacity (data_ptr r) _ ((head r s + 4) % u64_mod) (head r s + 4) src
            (mod-wrap v (head r s + 4))
          ∙ sym (
              puts_append r.capacity (data_ptr r) s.byte (head r s)
                (to_le_bytes 4 (length src % u32_mod)) src)
          ∙ ap (λ n. puts r.capacity (data_ptr r) s.byte (head r s) (to_le_bytes 4 n ++ src))
              (mod-eq_of_lt (omega (arith, capacity_small v))))

abbrev pub pushed : Ring → Segment → List ℕ → Segment
pushed r s src =
    store (record s { byte = puts r.capacity (data_ptr r) s.byte (head r s) (stored src) })
      (r.base + off_head) ((head r s + (4 + length src)) % u64_mod)

module _ {r : Ring} {s : Segment} (src : List ℕ) (v : IsValid r s) where
  pushed-used :
      used r s + (4 + length src) ≤ r.capacity
      → used r (pushed r s src) ≡ used r s + (4 + length src)
  pushed-used fits = ground (arith, capacity_small v.ring)

  -- The head, seen from the tail, is where the waiting bytes end.
  head_cell : head r s % r.capacity ≡ (tail r s + used r s) % r.capacity
  head_cell = ap (λ t. t % r.capacity) whole ∙ mod-wrap v.ring (tail r s + used r s)
    where
      whole : head r s ≡ (tail r s + used r s) % u64_mod
      whole = omega (arith, v.head_lt, v.tail_lt)

  pub pushed-shows :
      used r s + (4 + length src) ≤ r.capacity
      → contents r (pushed r s src) ≡ contents r s ++ stored src
  unfolding contents
  pushed-shows fits =
      let cap = r.capacity in
      let d = data_ptr r in
      let p = tail r s + used r s in
      ap₂ (stream cap d (pushed r s src).byte) tail_kept (pushed-used fits)
      ∙ ap (λ m. stream cap d m (tail r s) (used r s + (4 + length src)))
          (puts_same cap d s.byte (head r s) p (stored src) head_cell)
      ∙ stream_add cap d (puts cap d s.byte p (stored src)) (tail r s) (used r s) (4 + length src)
      ∙ ap₂ ◌++◌
          (stream-puts_behind cap d s.byte p (tail r s) (used r s) (stored src) (omega arith)
            (omega arith))
          (ap (stream cap d (puts cap d s.byte p (stored src)) p) (omega arith)
            ∙ stream-puts_self cap d s.byte p (stored src) (omega arith))
    where
      tail_kept : tail r (pushed r s src) ≡ tail r s
      tail_kept = ground arith

  pub pushed-IsValid : used r s + (4 + length src) ≤ r.capacity → IsValid r (pushed r s src)
  pushed-IsValid fits = record {
    ring = v.ring;
    head_lt = ground arith;
    tail_lt = ground (arith, v.tail_lt);
    used_le = omega (arith, pushed-used fits);
  }

-- The messages are the data and the two positions: nothing else of the segment matters.
pub Holds-frame :
    {r : Ring} {s : Segment} {q : Queue} (s' : Segment)
    → s'.byte ≡ s.byte
    → head r s' ≡ head r s
    → tail r s' ≡ tail r s
    → Holds r s q
    → Holds r s' q
unfolding contents
Holds-frame {r} {s} s' same_bytes same_head same_tail h = record {
  valid = record {
    ring = h.valid.ring;
    head_lt = omega (arith, same_head, h.valid.head_lt);
    tail_lt = omega (arith, same_tail, h.valid.tail_lt);
    used_le = omega (arith, same_used, h.valid.used_le);
  };
  shows =
      ap (λ m. stream r.capacity (data_ptr r) m (tail r s') (used r s')) same_bytes
      ∙ ap₂ (stream r.capacity (data_ptr r) s.byte) same_tail same_used
      ∙ h.shows;
}
  where
    same_used : used r s' ≡ used r s
    same_used = ap₂ (λ a b. (a + u64_mod - b) % u64_mod) same_head same_tail

-- A word other than the two positions says nothing of the messages.
pub Holds-store :
    {r : Ring} {s : Segment} {q : Queue} (offset v : ℕ)
    → offset ≢ off_head
    → offset ≢ off_tail
    → Holds r s q
    → Holds r (store s (r.base + offset) v) q
Holds-store {r} {s} offset v ne_head ne_tail h =
    Holds-frame (store s (r.base + offset) v) refl (ground arith) (ground arith) h
