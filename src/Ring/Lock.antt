-- ===== src/Ring/Lock.antt =====
-- The producer lock of crates/core/src/ring.rs among any number of threads. Threads are told apart
-- by where they stand in `lock_producer` and `unlock_producer` only, so a state counts them there.
use impulse_ring.Prelude.{ℕ, suc, ◌+◌, ◌≤◌, ◌<◌, ◌≡◌, ◌≢◌, refl, ◌⊎◌, inl, inr, min, arith}

-- The lock's word; the threads in the loop before its `swap`; those between that and the sleep;
-- those that sleep; those that hold the lock; and those that have given it back and are about to
-- wake one.
pub record LockState : Type 0 where
  pub word : ℕ
  pub swapping : ℕ
  pub parking : ℕ
  pub asleep : ℕ
  pub holding : ℕ
  pub waking : ℕ

abbrev pub unlocked : LockState
unlocked = record { word = 0; swapping = 0; parking = 0; asleep = 0; holding = 0; waking = 0 }

-- One atomic operation of one thread.
pub data LockStep : LockState → LockState → Type 0 where
  taken : (l : LockState) → l.word ≡ 0 → LockStep l (record l { word = 1; holding = suc l.holding })
  missed : (l : LockState) → 0 < l.word → LockStep l (record l { swapping = suc l.swapping })
  swapped_free :
      (l : LockState) (n : ℕ)
      → l.word ≡ 0
      → l.swapping ≡ suc n
      → LockStep l (record l { word = 2; swapping = n; holding = suc l.holding })
  swapped_held :
      (l : LockState) (n : ℕ)
      → 0 < l.word
      → l.swapping ≡ suc n
      → LockStep l (record l { word = 2; swapping = n; parking = suc l.parking })
  slept :
      (l : LockState) (n : ℕ)
      → l.word ≡ 2
      → l.parking ≡ suc n
      → LockStep l (record l { parking = n; asleep = suc l.asleep })
  not_slept :
      (l : LockState) (n : ℕ)
      → l.word ≢ 2
      → l.parking ≡ suc n
      → LockStep l (record l { parking = n; swapping = suc l.swapping })
  timed_out :
      (l : LockState) (n : ℕ)
      → l.asleep ≡ suc n
      → LockStep l (record l { asleep = n; swapping = suc l.swapping })
  released_quiet :
      (l : LockState) (n : ℕ)
      → l.word ≢ 2
      → l.holding ≡ suc n
      → LockStep l (record l { word = 0; holding = n })
  released_contended :
      (l : LockState) (n : ℕ)
      → l.word ≡ 2
      → l.holding ≡ suc n
      → LockStep l (record l { word = 0; holding = n; waking = suc l.waking })
  woke_one :
      (l : LockState) (m n : ℕ)
      → l.waking ≡ suc m
      → l.asleep ≡ suc n
      → LockStep l (record l { waking = m; asleep = n; swapping = suc l.swapping })
  woke_none :
      (l : LockState) (m : ℕ)
      → l.waking ≡ suc m
      → l.asleep ≡ 0
      → LockStep l (record l { waking = m })

pub data LockReachable : LockState → Type 0 where
  start : LockReachable unlocked
  after : (l l' : LockState) → LockReachable l → LockStep l l' → LockReachable l'

-- The word says whether the lock is held, and a sleeper is noted in it or has somebody on the way
-- to look at it.
pub record LockInvariant (l : LockState) : Type 0 where
  pub word_le : l.word ≤ 2
  pub holding_is : l.holding ≡ min 1 l.word
  pub noticed : 0 < l.asleep → (l.word ≡ 2) ⊎ (0 < l.swapping + l.parking + l.waking)

LockStep-LockInvariant : {l l' : LockState} → LockInvariant l → LockStep l l' → LockInvariant l'
LockStep-LockInvariant v (taken l free) = record {
  word_le = omega arith;
  holding_is = omega (arith, v.holding_is);
  noticed = λ sleeps. ground (arith, v.noticed);
}
LockStep-LockInvariant v (missed l held) = record {
  word_le = v.word_le;
  holding_is = v.holding_is;
  noticed = λ sleeps. inr (omega arith);
}
LockStep-LockInvariant v (swapped_free l n free here) = record {
  word_le = omega arith;
  holding_is = omega (arith, v.holding_is);
  noticed = λ sleeps. inl refl;
}
LockStep-LockInvariant v (swapped_held l n held here) = record {
  word_le = omega arith;
  holding_is = omega (arith, v.holding_is);
  noticed = λ sleeps. inl refl;
}
LockStep-LockInvariant v (slept l n contended here) = record {
  word_le = v.word_le;
  holding_is = v.holding_is;
  noticed = λ sleeps. inl contended;
}
LockStep-LockInvariant v (not_slept l n changed here) = record {
  word_le = v.word_le;
  holding_is = v.holding_is;
  noticed = λ sleeps. inr (omega arith);
}
LockStep-LockInvariant v (timed_out l n here) = record {
  word_le = v.word_le;
  holding_is = v.holding_is;
  noticed = λ sleeps. inr (omega arith);
}
LockStep-LockInvariant v (released_quiet l n quiet here) = record {
  word_le = omega arith;
  holding_is = omega (arith, v.holding_is);
  noticed = λ sleeps. ground (arith, v.noticed);
}
LockStep-LockInvariant v (released_contended l n contended here) = record {
  word_le = omega arith;
  holding_is = omega (arith, v.holding_is);
  noticed = λ sleeps. inr (omega arith);
}
LockStep-LockInvariant v (woke_one l m n here sleeper) = record {
  word_le = v.word_le;
  holding_is = v.holding_is;
  noticed = λ sleeps. inr (omega arith);
}
LockStep-LockInvariant v (woke_none l m here nobody) = record {
  word_le = v.word_le;
  holding_is = v.holding_is;
  noticed = λ sleeps. absurd (omega arith);
}

-- However many threads contend, and in whatever order their steps come: the lock's word is 0, 1 or
-- 2, one thread holds the lock exactly when the word is not 0, and none otherwise; and where a
-- thread sleeps, either the word is 2, so that the holder will wake one, or another thread is on
-- its way to the word or to waking one.
pub LockReachable-LockInvariant : {l : LockState} → LockReachable l → LockInvariant l
LockReachable-LockInvariant start = record {
  word_le = omega arith;
  holding_is = refl;
  noticed = λ sleeps. absurd (omega arith);
}
LockReachable-LockInvariant (after l l' before step) =
    LockStep-LockInvariant (LockReachable-LockInvariant before) step
