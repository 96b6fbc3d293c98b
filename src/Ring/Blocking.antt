-- ===== src/Ring/Blocking.antt =====
-- `push_blocking` and `pop_blocking` up to a deadline (crates/core/src/ring.rs), beside the queues
-- that the other threads leave between two attempts.
use impulse_ring.Prelude.{
  ℕ, zero, suc, ◌+◌, ◌≤◌, ◌<◌, ◌≡◌, refl, ap, Bool, true, false, ◌⊎◌, inl, inr, Option, none, some,
  is_some, List, [], ◌∷◌, ◌++◌, All, ltb, ltb→lt, Bool-cases, length, if◌then◌else◌, arith,
}
use impulse_ring.Segment.{Segment}
use impulse_ring.Queue.{Queue, flat}
use impulse_ring.Ring.{Ring, try_push, try_pop, push_blocking, spin_limit}
use impulse_ring.Ring.Push.{try_push_refines}
use impulse_ring.Ring.Run.{Rests}

-- What other threads do meanwhile is whole calls: from a ring that holds the queue before, each
-- entry of the first list leaves one that holds the next queue of the second.
abbrev pub Meanwhile : Ring → Queue → List (Segment → Segment) → List Queue → Type 0
Meanwhile r q [] [] = Unit
Meanwhile r q [] (next ∷ later) = ⊥
Meanwhile r q (f ∷ fs) [] = ⊥
Meanwhile r q (f ∷ fs) (next ∷ later) =
    ((s : Segment) → Rests r s q → Rests r (f s) next) × Meanwhile r next fs later

-- A queue that has no room for a message.
abbrev Full : Ring → List ℕ → Queue → Type 0
Full r src q = r.capacity < length (flat q) + (4 + length src)

-- The message went in behind the first of these queues that had room for it.
pub record Placed (r : Ring) (src : List ℕ) (queues : List Queue) (out : Option (Bool × Segment))
    : Type 0 where
  pub before : List Queue
  pub now : Queue
  pub after : List Queue
  pub left : Segment
  pub moments : queues ≡ before ++ now ∷ after
  pub full_before : All (Full r src) before
  pub room : length (flat now) + (4 + length src) ≤ r.capacity
  pub result : out ≡ some (true, left)
  pub rests : Rests r left (now ++ src ∷ [])

-- None of these queues had room, and the ring holds the last of them.
pub record Refused (r : Ring) (src : List ℕ) (queues : List Queue) (out : Option (Bool × Segment))
    : Type 0 where
  pub before : List Queue
  pub last : Queue
  pub left : Segment
  pub moments : queues ≡ before ++ last ∷ []
  pub all_full : All (Full r src) queues
  pub result : out ≡ some (false, left)
  pub rests : Rests r left last

abbrev pub PushOutcome : Ring → List ℕ → List Queue → Option (Bool × Segment) → Type 0
PushOutcome r src queues out = Placed r src queues out ⊎ Refused r src queues out

-- One attempt.
try_push-outcome :
    {r : Ring} {s : Segment} {q : Queue} (src : List ℕ)
    → Rests r s q
    → ((s' : Segment) × (try_push r s src ≡ some (true, s'))
        × Rests r s' (q ++ src ∷ [])
        × (length (flat q) + (4 + length src) ≤ r.capacity))
      ⊎ ((s' : Segment) × (try_push r s src ≡ some (false, s')) × Rests r s' q × Full r src q)
try_push-outcome {r} {s} {q} src h =
    let (s', e, holds, free) = try_push_refines src h.holds h.free in
    elim (Bool-cases (ltb r.capacity (length (flat q) + (4 + length src)))) [
      | inl full ↦
          inr (s', rw full at e, record { holds = rw full at holds; free = free }, ltb→lt _ _ full)
      | inr fits ↦
          inl (
            s',
            rw fits at e,
            record { holds = rw fits at holds; free = free },
            ground (arith, fits),
          )
    ]

-- One more queue that was full, in front.
later_push :
    {r : Ring} (src : List ℕ) (q : Queue) {queues : List Queue} {out : Option (Bool × Segment)}
    → Full r src q
    → PushOutcome r src queues out
    → PushOutcome r src (q ∷ queues) out
later_push src q full (inl p) = inl (record {
  before = q ∷ p.before;
  now = p.now;
  after = p.after;
  left = p.left;
  moments = ap (◌∷◌ q) p.moments;
  full_before = (full, p.full_before);
  room = p.room;
  result = p.result;
  rests = p.rests;
})
later_push src q full (inr p) = inr (record {
  before = q ∷ p.before;
  last = p.last;
  left = p.left;
  moments = ap (◌∷◌ q) p.moments;
  all_full = (full, p.all_full);
  result = p.result;
  rests = p.rests;
})

placed_now :
    {r : Ring} (src : List ℕ) (q : Queue) (later : List Queue) {s : Segment}
    → length (flat q) + (4 + length src) ≤ r.capacity
    → Rests r s (q ++ src ∷ [])
    → PushOutcome r src (q ∷ later) (some (true, s))
placed_now src q later {s} room rests = inl (record {
  before = [];
  now = q;
  after = later;
  left = s;
  moments = refl;
  full_before = tt;
  room = room;
  result = refl;
  rests = rests;
})

-- While the other threads make whole calls, a blocking push tries the queue that it finds and then,
-- after each sleep, the queue that they left: its message goes in behind the first of these that
-- has room, and when none has until the deadline, it is refused and the ring holds the last of
-- them.
pub push_blocking-outcome :
    {r : Ring} (src : List ℕ) (sleeps : List (Segment → Segment)) (queues : List Queue)
    {s : Segment} {q : Queue}
    → Meanwhile r q sleeps queues
    → Rests r s q
    → PushOutcome r src (q ∷ queues) (push_blocking r s src sleeps)
unfolding push_blocking
push_blocking-outcome src [] [] {q = q} k h = elim (try_push-outcome src h) [
  | inl (s', e, rests, room) ↦ rw e (placed_now src q [] room rests)
  | inr (s', e, rests, full) ↦ inr (record {
    before = [];
    last = q;
    left = s';
    moments = refl;
    all_full = (full, tt);
    result = e;
    rests = rests;
  })
]
push_blocking-outcome src [] (next ∷ later) k h = absurd k
push_blocking-outcome src (sleep ∷ sleeps) [] k h = absurd k
push_blocking-outcome src (sleep ∷ sleeps) (next ∷ later) {q = q} k h =
    elim (try_push-outcome src h) [
      | inl (s', e, rests, room) ↦
          rw (e, push_blocking) (placed_now src q (next ∷ later) room rests)
      | inr (s', e, rests, full) ↦
          rw (e, push_blocking)
            (later_push src q full (push_blocking-outcome src sleeps later k.1 (k.0 s' rests)))
    ]

abbrev IsEmpty : Queue → Type 0
IsEmpty q = q ≡ []

-- The oldest message of the first of these queues that had one came out.
pub record Popped (r : Ring) (queues : List Queue) (out : Option (List ℕ) × Segment) : Type 0 where
  pub before : List Queue
  pub oldest : List ℕ
  pub behind : Queue
  pub after : List Queue
  pub moments : queues ≡ before ++ (oldest ∷ behind) ∷ after
  pub empty_before : All IsEmpty before
  pub result : out.0 ≡ some oldest
  pub rests : Rests r out.1 behind

-- None of these queues had a message.
pub record Starved (r : Ring) (queues : List Queue) (out : Option (List ℕ) × Segment) : Type 0 where
  pub all_empty : All IsEmpty queues
  pub result : out.0 ≡ none
  pub rests : Rests r out.1 []

abbrev pub PopOutcome : Ring → List Queue → Option (List ℕ) × Segment → Type 0
PopOutcome r queues out = Popped r queues out ⊎ Starved r queues out

-- What happens between the attempts of a round, in order, and between those of all the rounds.
abbrev pub round_gaps : ℕ → (ℕ → Segment → Segment) → List (Segment → Segment)
round_gaps zero during = []
round_gaps (suc n) during = during n ∷ round_gaps n during

abbrev gaps : (ℕ → Segment → Segment) → List (Segment → Segment) → List (Segment → Segment)
gaps during [] = round_gaps spin_limit during
gaps during (sleep ∷ sleeps) = round_gaps spin_limit during ++ sleep ∷ gaps during sleeps

-- Attempts, one after another, with gaps between them.
abbrev or_later : Option (List ℕ) × Segment → Option (List ℕ) × Segment → Option (List ℕ) × Segment
or_later p rest = if is_some p.0 then p else rest

attempts : Ring → Segment → List (Segment → Segment) → Option (List ℕ) × Segment
attempts r s [] = try_pop r s
attempts r s (f ∷ fs) = let p = try_pop r s in let rest = attempts r (f p.1) fs in or_later p rest

or_later_assoc :
    (p q rest : Option (List ℕ) × Segment)
    → or_later (or_later p q) rest ≡ or_later p (or_later q rest)
or_later_assoc (none, s) q rest = refl
or_later_assoc (some x, s) q rest = refl
