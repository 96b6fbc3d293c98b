-- ===== src/Control/Used.antt =====
-- What the use of the submission ring leaves of a control segment (crates/core/src/control.rs): its
-- superblock and the fixed words of the ring's header.
use impulse_ring.Prelude.{
  ℕ, ◌+◌, ◌<◌, ◌≡◌, refl, ap, ◌∙◌, List, arith, nat_eq, ◌==◌, Bool-cases, inl, inr, ◌≤◌, ◌%◌,
  u32_mod, u32_as_i32, ok, ℤ,
}
use impulse_ring.Segment.{Segment, store}
use impulse_ring.Ring
use impulse_ring.Ring.{
  Ring, view, attach, write_wrapped, push_locked, lock_producer, lock_again, unlock_producer,
  try_pop, bump, off_head, off_data_seq, off_prodlock, off_cap,
}
use impulse_ring.Control.{
  attach_control, broker_pid, submission_base, off_magic, off_version, off_pid,
}

-- The steps that clients and the broker take on a ring, in any order: a client that pushes takes
-- the lock or sleeps on it, stores its message, gives the lock back and counts; the broker pops.
pub data Used (r : Ring) (s : Segment) : Segment → Type 0 where
  untouched : Used r s s
  locked : (t : Segment) → Used r s t → Used r s (lock_producer r t).1
  locked_again : (t : Segment) → Used r s t → Used r s (lock_again r t).1
  pushed : (t : Segment) (src : List ℕ) → Used r s t → Used r s (push_locked r t src).1
  unlocked : (t : Segment) → Used r s t → Used r s (unlock_producer r t).1
  counted : (t : Segment) → Used r s t → Used r s (bump r t off_data_seq)
  popped : (t : Segment) → Used r s t → Used r s (try_pop r t).1

-- The same length, and the same words in front of the ring's head.
pub record SameHeader (s s' : Segment) : Type 0 where
  pub len_is : s'.len ≡ s.len
  pub words : (i : ℕ) → i < submission_base + off_head → s'.word i ≡ s.word i

SameHeader-then : {s t u : Segment} → SameHeader s t → SameHeader t u → SameHeader s u
SameHeader-then h k = record {
  len_is = k.len_is ∙ h.len_is;
  words = λ i lt. k.words i lt ∙ h.words i lt;
}

-- A store to the words from the head on.
store-SameHeader :
    (r : Ring) (t : Segment) (offset v : ℕ)
    → r.base ≡ submission_base
    → off_head ≤ offset
    → SameHeader t (store t (r.base + offset) v)
store-SameHeader r t offset v base_is far = record {
  len_is = refl;
  words = λ i lt. ground (arith, base_is);
}

module _ (r : Ring) (base_is : r.base ≡ submission_base) (t : Segment) where
  write_wrapped-SameHeader : (pos : ℕ) (src : List ℕ) → SameHeader t (write_wrapped r t pos src)
  unfolding write_wrapped
  write_wrapped-SameHeader pos src = record { len_is = refl; words = λ i lt. refl }

  lock_producer-SameHeader : SameHeader t (lock_producer r t).1
  unfolding lock_producer
  lock_producer-SameHeader = elim (Bool-cases (t.word (r.base + off_prodlock) == 0)) [
    | inl free ↦
        rw (free, lock_producer) (store-SameHeader r t off_prodlock 1 base_is (omega arith))
    | inr taken ↦
        rw (taken, lock_producer) (store-SameHeader r t off_prodlock 2 base_is (omega arith))
  ]

  lock_again-SameHeader : SameHeader t (lock_again r t).1
  unfolding lock_again
  lock_again-SameHeader = store-SameHeader r t off_prodlock 2 base_is (omega arith)

  unlock_producer-SameHeader : SameHeader t (unlock_producer r t).1
  unfolding unlock_producer
  unlock_producer-SameHeader = store-SameHeader r t off_prodlock 0 base_is (omega arith)

  bump-SameHeader : SameHeader t (bump r t off_data_seq)
  bump-SameHeader =
      store-SameHeader r t off_data_seq ((t.word (r.base + off_data_seq) + 1) % u32_mod) base_is
        (omega arith)

  push_locked-SameHeader : (src : List ℕ) → SameHeader t (push_locked r t src).1
  unfolding push_locked write_wrapped
  push_locked-SameHeader src = record {
    len_is = ground arith;
    words = λ i lt. ground (arith, base_is);
  }

  try_pop-SameHeader : SameHeader t (try_pop r t).1
  unfolding try_pop
  try_pop-SameHeader = record { len_is = ground arith; words = λ i lt. ground (arith, base_is) }

Used-SameHeader :
    {r : Ring} {s s' : Segment} → r.base ≡ submission_base → Used r s s' → SameHeader s s'
Used-SameHeader base_is untouched = record { len_is = refl; words = λ i lt. refl }
Used-SameHeader {r} base_is (locked t u) =
    SameHeader-then (Used-SameHeader base_is u) (lock_producer-SameHeader r base_is t)
Used-SameHeader {r} base_is (locked_again t u) =
    SameHeader-then (Used-SameHeader base_is u) (lock_again-SameHeader r base_is t)
Used-SameHeader {r} base_is (pushed t src u) =
    SameHeader-then (Used-SameHeader base_is u) (push_locked-SameHeader r base_is t src)
Used-SameHeader {r} base_is (unlocked t u) =
    SameHeader-then (Used-SameHeader base_is u) (unlock_producer-SameHeader r base_is t)
Used-SameHeader {r} base_is (counted t u) =
    SameHeader-then (Used-SameHeader base_is u) (bump-SameHeader r base_is t)
Used-SameHeader {r} base_is (popped t u) =
    SameHeader-then (Used-SameHeader base_is u) (try_pop-SameHeader r base_is t)

attach_control-SameHeader :
    (s s' : Segment) → SameHeader s s' → attach_control s' ≡ attach_control s
unfolding attach_control attach
attach_control-SameHeader s s' h =
    rw
      (
        h.len_is,
        h.words off_magic (omega arith),
        h.words off_version (omega arith),
        h.words (submission_base + Ring.off_magic) (omega arith),
        h.words (submission_base + off_cap) (omega arith),
      )
      refl

-- The ring that an attachment gives is at the place of the submission ring.
attach_control-base : (s : Segment) {r : Ring} → attach_control s ≡ ok r → r.base ≡ submission_base
unfolding attach_control attach
attach_control-base s e = ground arith

-- However the submission ring was used, another attachment gives the same ring, and the same pid.
pub attach_control-Used :
    {s s' : Segment} {r : Ring} {pid : ℤ}
    → attach_control s ≡ ok r
    → broker_pid s ≡ pid
    → Used r s s'
    → (attach_control s' ≡ ok r) × (broker_pid s' ≡ pid)
unfolding broker_pid
attach_control-Used {s} {s'} found pid_is u =
    let h = Used-SameHeader (attach_control-base s found) u in
    (
      attach_control-SameHeader s s' h ∙ found,
      ap u32_as_i32 (h.words off_pid (omega arith)) ∙ pid_is,
    )
