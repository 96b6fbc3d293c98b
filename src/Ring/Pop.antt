-- ===== src/Ring/Pop.antt =====
-- `try_pop` against the bounded queue.
use impulse_ring.Prelude.{
  ℕ, ◌+◌, ◌%◌, ◌<◌, ◌≡◌, refl, sym, ap, ap₂, ◌∙◌, none, some, List, [], ◌∷◌, ◌++◌, arith, length,
  length-append, u64_mod, to_le_bytes, from_le_bytes, nat_eq, nat_eqb, false, true,
  from_le_bytes-to_le_bytes_four,
}
use impulse_ring.Segment.{Segment, store}
use impulse_ring.Queue
use impulse_ring.Queue.{Queue, stored, flat}
use impulse_ring.Ring.{
  Ring, head, tail, data_ptr, read_wrapped, bump, try_pop, off_tail, off_prodlock, off_space_seq,
}
use impulse_ring.Ring.Wrap.{stream, length-stream, stream_add, stream_same}
use impulse_ring.Ring.Invariant.{used, contents, capacity_small, mod-wrap, read_wrapped_lem}
use impulse_ring.Ring.Refine.{Holds, used_lem}

split_eq :
    (us vs xs ys : List ℕ) → length us ≡ length xs → us ++ vs ≡ xs ++ ys → (us ≡ xs) × (vs ≡ ys)
split_eq [] vs [] ys l e = (refl, e)
split_eq [] vs (x ∷ xs) ys l e = absurd (omega arith)
split_eq (u ∷ us) vs [] ys l e = absurd (omega arith)
split_eq (u ∷ us) vs (x ∷ xs) ys l e = ground (arith, split_eq us vs xs ys)

-- Reading the front of a known stretch.
stream_split :
    (cap d : ℕ) (m : ℕ → ℕ) (pos n : ℕ) (xs ys : List ℕ)
    → n ≡ length xs + length ys
    → stream cap d m pos n ≡ xs ++ ys
    → (stream cap d m pos (length xs) ≡ xs) × (stream cap d m (pos + length xs) (length ys) ≡ ys)
stream_split cap d m pos n xs ys l e =
    split_eq (stream cap d m pos (length xs)) (stream cap d m (pos + length xs) (length ys)) xs ys
      (length-stream cap d m pos (length xs))
      (sym (stream_add cap d m pos (length xs) (length ys)) ∙ ap (stream cap d m pos) (sym l) ∙ e)

module _ {r : Ring} {s : Segment} {q : Queue} (x : List ℕ) (h : Holds r s (x ∷ q)) where
  used_front : used r s ≡ 4 + (length x + length (flat q))
  used_front = omega (arith, used_lem h, length-append x (flat q))

  front :
      (stream r.capacity (data_ptr r) s.byte (tail r s) 4 ≡ to_le_bytes 4 (length x))
      × (stream r.capacity (data_ptr r) s.byte (tail r s + 4) (length x + length (flat q))
          ≡ x ++ flat q)
  front =
      let parts =
        stream_split r.capacity (data_ptr r) s.byte (tail r s) (used r s) (to_le_bytes 4 (length x))
          (x ++ flat q) (omega (arith, used_front, length-append x (flat q))) (shown ∙ regroup) in
      (
        parts.0,
        ap (stream r.capacity (data_ptr r) s.byte (tail r s + 4)) (sym (length-append x (flat q)))
            ∙ parts.1,
      )
    where
      shown : stream r.capacity (data_ptr r) s.byte (tail r s) (used r s) ≡ flat (x ∷ q)
      shown = unfold contents in h.shows

      regroup : flat (x ∷ q) ≡ to_le_bytes 4 (length x) ++ (x ++ flat q)
      regroup = refl

  read_length : from_le_bytes (read_wrapped r s (tail r s) 4) ≡ length x
  read_length =
      ap from_le_bytes (
        read_wrapped_lem h.valid.ring s (tail r s) 4 (omega (arith, used_front, h.valid.used_le))
        ∙ front.0)
      ∙ from_le_bytes-to_le_bytes_four (length x)
          (omega (arith, used_front, h.valid.used_le, capacity_small h.valid.ring))

  read_payload : read_wrapped r s ((tail r s + 4) % u64_mod) (length x) ≡ x
  read_payload =
      read_wrapped_lem h.valid.ring s ((tail r s + 4) % u64_mod) (length x)
        (omega (arith, used_front, h.valid.used_le))
      ∙ stream_same r.capacity (data_ptr r) s.byte ((tail r s + 4) % u64_mod) (tail r s + 4)
          (length x) (mod-wrap h.valid.ring (tail r s + 4))
      ∙ (stream_split r.capacity (data_ptr r) s.byte (tail r s + 4) (length x + length (flat q)) x
          (flat q) refl front.1).0

popped : Ring → Segment → List ℕ → Segment
popped r s x =
    bump r (store s (r.base + off_tail) ((tail r s + 4 + length x) % u64_mod)) off_space_seq

try_pop-some :
    {r : Ring} {s : Segment} {q : Queue} (x : List ℕ)
    → Holds r s (x ∷ q)
    → try_pop r s ≡ (some x, popped r s x)
unfolding try_pop popped
try_pop-some {r} {s} {q} x h = rw (differ, read_length x h, read_payload x h)
  where
    differ : nat_eqb (head r s) (tail r s) ≡ false
    differ = ground (arith, used_front x h)

module _ {r : Ring} {s : Segment} {q : Queue} (x : List ℕ) (h : Holds r s (x ∷ q)) where
  popped-tail : tail r (popped r s x) ≡ (tail r s + 4 + length x) % u64_mod
  unfolding popped
  popped-tail = ground arith

  popped-used : used r (popped r s x) ≡ length (flat q)
  unfolding popped
  popped-used = ground (arith, used_front x h, h.valid.used_le, capacity_small h.valid.ring)

  popped-shows : contents r (popped r s x) ≡ flat q
  unfolding contents popped
  popped-shows =
      ap₂ (stream r.capacity (data_ptr r) s.byte) popped-tail popped-used
      ∙ stream_same r.capacity (data_ptr r) s.byte ((tail r s + 4 + length x) % u64_mod)
          (tail r s + 4 + length x) (length (flat q))
          (mod-wrap h.valid.ring (tail r s + 4 + length x))
      ∙ (stream_split r.capacity (data_ptr r) s.byte (tail r s + 4) (length x + length (flat q)) x
          (flat q) refl (front x h).1).1

  popped-Holds : Holds r (popped r s x) q
  popped-Holds = record {
    valid = record {
      ring = h.valid.ring;
      head_lt = popped-head;
      tail_lt = omega (arith, popped-tail);
      used_le = omega (arith, popped-used, used_front x h, h.valid.used_le);
    };
    shows = popped-shows;
  }
    where
      popped-head : head r (popped r s x) < u64_mod
      popped-head = unfold popped in ground (arith, h.valid.head_lt)

  popped-lock : (popped r s x).word (r.base + off_prodlock) ≡ s.word (r.base + off_prodlock)
  unfolding popped
  popped-lock = ground arith

try_pop-none : {r : Ring} {s : Segment} → Holds r s [] → try_pop r s ≡ (none, s)
unfolding try_pop
try_pop-none {r} {s} h = rw same
  where
    same : nat_eqb (head r s) (tail r s) ≡ true
    same = ground (arith, used_lem h, h.valid.head_lt, h.valid.tail_lt)

-- A pop on an empty ring changes nothing; otherwise it gives the oldest message.
pub try_pop_refines :
    {r : Ring} {s : Segment} (q : Queue)
    → Holds r s q
    → let (out, s') = try_pop r s in
      let (out', q') = Queue.pop q in
      (out ≡ out')
      × Holds r s' q'
      × (s'.word (r.base + off_prodlock) ≡ s.word (r.base + off_prodlock))
try_pop_refines [] h = rw (try_pop-none h) (refl, h, refl)
try_pop_refines (x ∷ q) h = rw (try_pop-some x h) (refl, popped-Holds x h, popped-lock x h)
