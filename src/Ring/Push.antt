-- ===== src/Ring/Push.antt =====
-- `push_locked` and `try_push` against the bounded queue.
use impulse_ring.Prelude.{
  ℕ, ◌+◌, ◌%◌, ◌≤◌, ◌<◌, ◌≡◌, refl, sym, ap, ◌∙◌, Bool, true, false, some, List, ◌++◌, arith,
  lt→ltb, not_lt→ltb, if◌then◌else◌, length, u64_mod, nat_eq,
}
use native.Mathlib.Decide.{dec_lt}
use impulse_ring.Segment.{Segment, store}
use impulse_ring.Queue
use impulse_ring.Queue.{Queue, stored, flat}
use impulse_ring.Ring.{
  Ring, head, push_locked, lock_producer, unlock_producer, bump, try_push, off_head, off_prodlock,
  off_data_seq,
}
use impulse_ring.Ring.Invariant.{IsValid, used}
use impulse_ring.Ring.Refine.{
  Holds, Holds-store, used_lem, flat-append, push_bytes, pushed, pushed-shows, pushed-IsValid,
}

push_locked-full :
    {r : Ring} {s : Segment} (src : List ℕ)
    → IsValid r s
    → r.capacity < used r s + (4 + length src)
    → push_locked r s src ≡ (false, s)
unfolding push_locked
push_locked-full {r} {s} src v full = ground (arith, v.used_le)

push_locked-fits :
    {r : Ring} {s : Segment} (src : List ℕ)
    → IsValid r s
    → used r s + (4 + length src) ≤ r.capacity
    → push_locked r s src ≡ (true, pushed r s src)
unfolding push_locked
push_locked-fits {r} {s} src v fits = ground (
  arith,
  v.used_le,
  ap (λ t. store t (r.base + off_head) ((head r s + (4 + length src)) % u64_mod))
      (push_bytes v.ring s src (omega arith)),
)

module _ {r : Ring} {s : Segment} {q : Queue} (src : List ℕ) (h : Holds r s q) where
  -- `push_locked` answers as the queue does, and leaves the ring holding the queue's messages.
  pub push_locked_refines :
      let (done, s') = push_locked r s src in
      let (done', q') = Queue.push r.capacity q src in
      (done ≡ done')
      × Holds r s' q'
      × (s'.word (r.base + off_prodlock) ≡ s.word (r.base + off_prodlock))
  push_locked_refines = elim (dec_lt r.capacity (used r s + (4 + length src))) [
    | yes full ↦
        rw (push_locked-full src h.valid full, lt→ltb _ _ (rw (used_lem h) at full)) (refl, h, refl)
    | no fits ↦
        rw (push_locked-fits src h.valid (omega arith), not_lt→ltb _ _ (rw (used_lem h) at fits))
          (
            refl,
            record {
              valid = pushed-IsValid src h.valid (omega arith);
              shows =
                  pushed-shows src h.valid (omega arith)
                  ∙ ap (λ t. t ++ stored src) h.shows
                  ∙ sym (flat-append q src);
            },
            ground arith,
          )
  ]

-- What follows the locked part: the lock is given back, and a push that was done is signalled.
abbrev after_push : Ring → Bool × Segment → Segment
after_push r (done, s) =
    let s' = store s (r.base + off_prodlock) 0 in if done then bump r s' off_data_seq else s'

after_push-Holds :
    {r : Ring} {q : Queue} (p : Bool × Segment)
    → Holds r p.1 q
    → Holds r (after_push r p) q × ((after_push r p).word (r.base + off_prodlock) ≡ 0)
after_push-Holds {r} (true, s) h = (
  Holds-store off_data_seq _ (omega arith) (omega arith)
      (Holds-store off_prodlock 0 (omega arith) (omega arith) h),
  ground arith,
)
after_push-Holds (false, s) h =
    (Holds-store off_prodlock 0 (omega arith) (omega arith) h, ground arith)

lock_producer-free :
    (r : Ring) (s : Segment)
    → s.word (r.base + off_prodlock) ≡ 0
    → lock_producer r s ≡ (true, store s (r.base + off_prodlock) 1)
unfolding lock_producer
lock_producer-free r s free = rw free

try_push-free :
    (r : Ring) (s : Segment) (src : List ℕ)
    → s.word (r.base + off_prodlock) ≡ 0
    → let p = push_locked r (store s (r.base + off_prodlock) 1) src in
      try_push r s src ≡ some (p.0, after_push r p)
unfolding try_push unlock_producer
try_push-free r s src free = rw (lock_producer-free r s free)

-- From a free lock a push does not sleep: it answers as the queue does, leaves the ring holding
-- the queue's messages, and the lock free.
pub try_push_refines :
    {r : Ring} {s : Segment} {q : Queue} (src : List ℕ)
    → Holds r s q
    → s.word (r.base + off_prodlock) ≡ 0
    → (s' : Segment) × (try_push r s src ≡ some ((Queue.push r.capacity q src).0, s'))
      × Holds r s' (Queue.push r.capacity q src).1
      × (s'.word (r.base + off_prodlock) ≡ 0)
try_push_refines {r} {s} src h free =
    let p = push_locked r (store s (r.base + off_prodlock) 1) src in
    let locked =
      push_locked_refines src (Holds-store off_prodlock 1 (omega arith) (omega arith) h) in
    let freed = after_push-Holds p locked.1 in
    (
      after_push r p,
      try_push-free r s src free ∙ ap (λ b. some (b, after_push r p)) locked.0,
      freed.0,
      freed.1,
    )
