-- ===== src/Ring/Run.antt =====
-- Whole histories of a ring, and the blocking calls.
use impulse_ring.Prelude.{
  ℕ, ◌+◌, ◌^◌, ◌<◌, ◌≡◌, refl, ap, ap₂, ◌∙◌, Bool, Option, none, some, List, [], ◌∷◌, nat_eq, ok,
}
use impulse_ring.Segment.{Segment}
use impulse_ring.Queue
use impulse_ring.Queue.{Queue, flat}
use impulse_ring.Ring.{Ring, format, try_push, try_pop, off_prodlock}
use impulse_ring.Ring.Refine.{Holds}
use impulse_ring.Ring.Push.{try_push_refines}
use impulse_ring.Ring.Pop.{try_pop_refines}
use impulse_ring.Ring.Format.{format-attach}

-- The ring between two calls: it holds these messages and nobody has the lock.
pub record Rests (r : Ring) (s : Segment) (q : Queue) : Type 0 where
  pub holds : Holds r s q
  pub free : s.word (r.base + off_prodlock) ≡ 0

pub data Op : Type 0 where
  push : List ℕ → Op
  pop : Op

pub data Reply : Type 0 where
  pushed : Bool → Reply
  popped : Option (List ℕ) → Reply
  blocked : Reply

-- A history of whole calls, and what each answered.
unfoldable pub run : Ring → Segment → List Op → List Reply
run r s [] = []
run r s (push src ∷ ops) = elim (try_push r s src) [
  | none ↦ blocked ∷ []
  | some (done, s') ↦ pushed done ∷ run r s' ops
]
run r s (pop ∷ ops) = let (out, s') = try_pop r s in popped out ∷ run r s' ops

-- The same history on the queue.
unfoldable pub run_queue : ℕ → Queue → List Op → List Reply
run_queue cap q [] = []
run_queue cap q (push src ∷ ops) =
    let (done, q') = Queue.push cap q src in pushed done ∷ run_queue cap q' ops
run_queue cap q (pop ∷ ops) = let (out, q') = Queue.pop q in popped out ∷ run_queue cap q' ops

run_refines :
    {r : Ring} (ops : List Op) (q : Queue) {s : Segment}
    → Rests r s q
    → run r s ops ≡ run_queue r.capacity q ops
unfolding run run_queue
run_refines [] q h = refl
run_refines {r} (push src ∷ ops) q h =
    let (s', e, holds, free) = try_push_refines src h.holds h.free in
    rw (e, run)
      (ap (◌∷◌ (pushed (Queue.push r.capacity q src).0))
        (run_refines ops (Queue.push r.capacity q src).1 (record { holds = holds; free = free })))
run_refines {r} (pop ∷ ops) q h =
    let (e, holds, same) = try_pop_refines q h.holds in
    ap₂ ◌∷◌ (ap popped e)
      (run_refines ops (Queue.pop q).1 (record { holds = holds; free = same ∙ h.free }))

-- On a freshly formatted ring every history of calls answers as the bounded queue does, from
-- the empty queue on.
pub format-run :
    (s : Segment) (base cap : ℕ) {r : Ring} {s' : Segment} (ops : List Op)
    → cap < 2 ^ 32
    → format s base cap ≡ ok (r, s')
    → run r s' ops ≡ run_queue r.capacity [] ops
format-run s base cap ops h e =
    let (_, holds, free) = format-attach s base cap h e in
    run_refines ops [] (record { holds = holds; free = free })
