-- ===== src/Ring/Tests.antt =====
-- A ring of 64 bytes, and the properties of rings on it.
use impulse_ring.Prelude.{
  zero, suc, ◌++◌, ◌∙◌, ℕ, ◌+◌, ◌≡◌, refl, true, none, some, List, [], ◌∷◌, ok, arith, nat_eq,
}
use impulse_ring.Segment.{Segment, zeroed}
use impulse_ring.Queue.{Queue}
use impulse_ring.Ring.{
  Ring, view, format, write_header, try_push, try_pop, push_blocking, off_prodlock, spin_limit,
}
use impulse_ring.Ring.Lock.{
  LockState, unlocked, taken, missed, swapped_held, slept, released_contended, LockReachable, start,
  after, LockInvariant, LockReachable-LockInvariant,
}
use impulse_ring.Ring.Refine.{Holds}
use impulse_ring.Ring.Format.{format-attach}
use impulse_ring.Ring.Push.{try_push_refines}
use impulse_ring.Ring.Pop.{try_pop_refines}
use impulse_ring.Ring.Run.{Rests, Op, push, pop, pushed, popped, run, run_queue, format-run}
use impulse_ring.Ring.Blocking.{PushOutcome, push_blocking-outcome}

abbrev pub small : Ring
small = view 0 64

abbrev pub fresh : Segment
fresh = write_header (zeroed 1024) 0 64

small-format : format (zeroed 1024) 0 64 ≡ ok (small, fresh)
unfolding format
small-format = refl

pub fresh-Rests : Rests small fresh []
fresh-Rests =
    let (found, holds, free) = format-attach (zeroed 1024) 0 64 (omega arith) small-format in
    record { holds = holds; free = free }

abbrev message : List ℕ
message = 7 ∷ 8 ∷ 9 ∷ []

abbrev history : List Op
history = pop ∷ push message ∷ push (1 ∷ []) ∷ pop ∷ pop ∷ pop ∷ []

-- A list of `n` equal entries.
abbrev repeated : {A : Type 0} → ℕ → A → List A
repeated zero x = []
repeated (suc n) x = x ∷ repeated n x

-- A ring that is full, from which another thread pops while this one sleeps.
abbrev large : List ℕ
large = repeated 60 1

abbrev full : Segment
full = (try_push_refines large fresh-Rests.holds fresh-Rests.free).0

full-Rests : Rests small full (large ∷ [])
full-Rests =
    let (s', e, holds, free) = try_push_refines large fresh-Rests.holds fresh-Rests.free in
    record { holds = holds; free = free }

abbrev other_pop : Segment → Segment
other_pop s = (try_pop small s).1

other_pop-Rests : (s : Segment) → Rests small s (large ∷ []) → Rests small (other_pop s) []
other_pop-Rests s rests =
    let (e, holds, same) = try_pop_refines (large ∷ []) rests.holds in
    record { holds = holds; free = same ∙ rests.free }

-- Another thread pushes a message while this one sleeps, and does nothing while it spins.
abbrev other_push : Segment → Segment
other_push s = elim (try_push small s (5 ∷ [])) [ none ↦ s | some (done, s') ↦ s' ]

abbrev idle : ℕ → Segment → Segment
idle i s = s

format-run_example :
    run small fresh history
    ≡ popped none
      ∷ pushed true
      ∷ pushed true
      ∷ popped (some message)
      ∷ popped (some (1 ∷ []))
      ∷ popped none
      ∷ []
unfolding run_queue
format-run_example = format-run (zeroed 1024) 0 64 history (omega arith) small-format

try_push_refines_example :
    (s' : Segment) × (try_push small fresh message ≡ some (true, s'))
    × Holds small s' (message ∷ [])
    × (s'.word (small.base + off_prodlock) ≡ 0)
try_push_refines_example = try_push_refines message fresh-Rests.holds fresh-Rests.free

abbrev one_message : Segment
one_message = (try_push_refines message fresh-Rests.holds fresh-Rests.free).0

try_pop_refines_example :
    ((try_pop small one_message).0 ≡ some message)
    × Holds small (try_pop small one_message).1 []
    × ((try_pop small one_message).1.word (small.base + off_prodlock)
        ≡ one_message.word (small.base + off_prodlock))
try_pop_refines_example =
    try_pop_refines (message ∷ []) (try_push_refines message fresh-Rests.holds fresh-Rests.free).2

push_blocking-outcome_example :
    PushOutcome small message
      ((large ∷ []) ∷ [] ∷ [])
      (push_blocking small full message (other_pop ∷ []))
push_blocking-outcome_example =
    push_blocking-outcome message (other_pop ∷ []) ([] ∷ []) (other_pop-Rests, tt) full-Rests

abbrev arrived : Queue
arrived = (5 ∷ []) ∷ []

abbrev queues_seen : List Queue
queues_seen = repeated spin_limit [] ++ arrived ∷ repeated spin_limit arrived

-- One thread takes the lock, a second one sleeps on it, and the first gives it back.
abbrev one_asleep : LockState
one_asleep = record { word = 0; swapping = 0; parking = 0; asleep = 1; holding = 0; waking = 1 }

one_asleep-LockReachable : LockReachable one_asleep
one_asleep-LockReachable =
    let s0 : LockState = unlocked in
    let s1 : LockState = record s0 { word = 1; holding = 1 } in
    let s2 : LockState = record s1 { swapping = 1 } in
    let s3 : LockState = record s2 { word = 2; swapping = 0; parking = 1 } in
    let s4 : LockState = record s3 { parking = 0; asleep = 1 } in
    after s4 one_asleep
      (after s3 s4
        (after s2 s3 (after s1 s2 (after s0 s1 start (taken s0 refl)) (missed s1 (omega arith)))
          (swapped_held s2 0 (omega arith) refl))
        (slept s3 0 refl refl))
      (released_contended s4 0 refl refl)

LockReachable-LockInvariant_example : LockInvariant one_asleep
LockReachable-LockInvariant_example = LockReachable-LockInvariant one_asleep-LockReachable
