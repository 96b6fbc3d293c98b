-- ===== src/Connector/Pool/Invariant.antt =====
-- The counts of the pool, and the jobs in it.
use impulse_ring.Prelude.{
  ℕ, ◌+◌, ◌≤◌, ◌<◌, ◌≡◌, ◌≢◌, refl, sym, ap, ◌∙◌, true, List, [], ◌∷◌, ◌++◌, nat_eq, arith, length,
  length-append,
}
use mathlib.Core.List.{append_assoc}
use impulse_ring.Proto.{RpcRequest}
use impulse_ring.Connector.Pool.{
  Stage, looking, idle, serving, leaving, Pool, new_pool, push_back, count, PoolStep, pushes,
  counts, takes, sleeps, wakes, answers, breaks, leaves, stops, PoolReachable, begins, steps,
}

abbrev is_idle : Stage → ℕ
is_idle idle = 1
is_idle stage = 0

abbrev is_leaving : Stage → ℕ
is_leaving leaving = 1
is_leaving stage = 0

-- How many threads are at such a stage.
pub tally : (Stage → ℕ) → List Stage → ℕ
tally f [] = 0
tally f (stage ∷ stages) = f stage + tally f stages

tally-append : (f : Stage → ℕ) (xs ys : List Stage) → tally f (xs ++ ys) ≡ tally f xs + tally f ys
unfolding tally
tally-append f [] ys = omega arith
tally-append f (x ∷ xs) ys = omega (arith, tally-append f xs ys)

tally-at :
    (f : Stage → ℕ) (front back : List Stage) (stage : Stage)
    → tally f (front ++ stage ∷ back) ≡ tally f front + f stage + tally f back
unfolding tally
tally-at f front back stage = omega (arith, tally-append f front (stage ∷ back))

tally-le : (stages : List Stage) → tally is_idle stages ≤ length stages
unfolding tally
tally-le [] = omega arith
tally-le (looking ∷ stages) = omega (arith, tally-le stages)
tally-le (idle ∷ stages) = omega (arith, tally-le stages)
tally-le (serving job ∷ stages) = omega (arith, tally-le stages)
tally-le (leaving ∷ stages) = omega (arith, tally-le stages)

length-at :
    (front back : List Stage) (stage : Stage)
    → length (front ++ stage ∷ back) ≡ length front + length back + 1
length-at front back stage = omega (arith, length-append front (stage ∷ back))

pub record PoolInvariant (p : Pool) : Type 0 where
  pub all_counted : p.workers ≡ length p.threads
  pub idle_counted : p.idle_workers ≡ tally is_idle p.threads
  pub bounded : p.workers ≤ p.max_workers
  pub some_allowed : 0 < p.max_workers
  pub stay : p.running ≡ true → tally is_leaving p.threads ≡ 0
  pub manned : p.running ≡ true → p.counted ≡ true → p.queue ≢ [] → 0 < p.workers
  pub fifo : p.accepted ≡ p.taken ++ p.queue

new_pool-PoolInvariant : (max_workers : ℕ) → PoolInvariant (new_pool max_workers)
unfolding new_pool tally
new_pool-PoolInvariant max_workers = record {
  all_counted = refl;
  idle_counted = refl;
  bounded = omega arith;
  some_allowed = omega arith;
  stay = λ r. refl;
  manned = λ r c q. absurd (q refl);
  fifo = refl;
}

PoolStep-PoolInvariant : {p q : Pool} → PoolStep p q → PoolInvariant p → PoolInvariant q
unfolding push_back count tally
PoolStep-PoolInvariant {p} (pushes job c) v = record {
  all_counted = v.all_counted;
  idle_counted = v.idle_counted;
  bounded = v.bounded;
  some_allowed = v.some_allowed;
  stay = v.stay;
  manned = λ r c' q. cc;
  fifo = rw (v.fifo, append_assoc) refl;
}
PoolStep-PoolInvariant {p} (counts c) v = record {
  all_counted = ground (arith, v.all_counted, length-append p.threads (looking ∷ []));
  idle_counted = ground (arith, v.idle_counted, tally-append is_idle p.threads (looking ∷ []));
  bounded = ground (arith, v.bounded);
  some_allowed = ground (arith, v.some_allowed);
  stay = λ r. ground (arith, v.stay, tally-append is_leaving p.threads (looking ∷ []));
  manned =
      λ r c' q. ground (arith, v.all_counted, v.idle_counted, v.some_allowed, tally-le p.threads);
  fifo = ground (arith, v.fifo);
}
PoolStep-PoolInvariant {p} (takes front back job jobs t q) v = record {
  all_counted = omega (
    arith,
    v.all_counted,
    ap length t,
    length-at front back looking,
    length-at front back (serving job),
  );
  idle_counted = omega (
    arith,
    v.idle_counted,
    ap (tally is_idle) t,
    tally-at is_idle front back looking,
    tally-at is_idle front back (serving job),
  );
  bounded = v.bounded;
  some_allowed = v.some_allowed;
  stay = λ r. omega (
    arith,
    v.stay r,
    ap (tally is_leaving) t,
    tally-at is_leaving front back looking,
    tally-at is_leaving front back (serving job),
  );
  manned = λ r c q'. omega (arith, v.all_counted, ap length t, length-at front back looking);
  fifo =
      v.fifo
      ∙ ap (λ (l : List RpcRequest). p.taken ++ l) q
      ∙ sym (append_assoc p.taken (job ∷ []) jobs);
}
PoolStep-PoolInvariant {p} (sleeps front back t q r) v = record {
  all_counted =
      omega (
        arith,
        v.all_counted,
        ap length t,
        length-at front back looking,
        length-at front back idle,
      );
  idle_counted = omega (
    arith,
    v.idle_counted,
    ap (tally is_idle) t,
    tally-at is_idle front back looking,
    tally-at is_idle front back idle,
  );
  bounded = omega (arith, v.bounded);
  some_allowed = v.some_allowed;
  stay = λ r'. omega (
    arith,
    v.stay r',
    ap (tally is_leaving) t,
    tally-at is_leaving front back looking,
    tally-at is_leaving front back idle,
  );
  manned = λ r' c q'. absurd (q' q);
  fifo = v.fifo;
}
PoolStep-PoolInvariant {p} (wakes front back t) v = record {
  all_counted =
      omega (
        arith,
        v.all_counted,
        ap length t,
        length-at front back idle,
        length-at front back looking,
      );
  idle_counted = omega (
    arith,
    v.idle_counted,
    ap (tally is_idle) t,
    tally-at is_idle front back idle,
    tally-at is_idle front back looking,
  );
  bounded = omega (arith, v.bounded);
  some_allowed = v.some_allowed;
  stay = λ r'. omega (
    arith,
    v.stay r',
    ap (tally is_leaving) t,
    tally-at is_leaving front back idle,
    tally-at is_leaving front back looking,
  );
  manned = λ r' c q'. v.manned r' c q';
  fifo = v.fifo;
}
PoolStep-PoolInvariant {p} (answers front back job t) v = record {
  all_counted = omega (
    arith,
    v.all_counted,
    ap length t,
    length-at front back (serving job),
    length-at front back looking,
  );
  idle_counted = omega (
    arith,
    v.idle_counted,
    ap (tally is_idle) t,
    tally-at is_idle front back (serving job),
    tally-at is_idle front back looking,
  );
  bounded = omega (arith, v.bounded);
  some_allowed = v.some_allowed;
  stay = λ r'. omega (
    arith,
    v.stay r',
    ap (tally is_leaving) t,
    tally-at is_leaving front back (serving job),
    tally-at is_leaving front back looking,
  );
  manned = λ r' c q'. v.manned r' c q';
  fifo = v.fifo;
}
PoolStep-PoolInvariant {p} (breaks front back t q r) v = record {
  all_counted = omega (
    arith,
    v.all_counted,
    ap length t,
    length-at front back looking,
    length-at front back leaving,
  );
  idle_counted = omega (
    arith,
    v.idle_counted,
    ap (tally is_idle) t,
    tally-at is_idle front back looking,
    tally-at is_idle front back leaving,
  );
  bounded = omega (arith, v.bounded);
  some_allowed = v.some_allowed;
  stay = λ r'. cc;
  manned = λ r' c q'. cc;
  fifo = v.fifo;
}
PoolStep-PoolInvariant {p} (leaves front back t) v = record {
  all_counted =
      omega
        (arith, v.all_counted, ap length t, length-at front back leaving, length-append front back);
  idle_counted = omega (
    arith,
    v.idle_counted,
    ap (tally is_idle) t,
    tally-at is_idle front back leaving,
    tally-append is_idle front back,
  );
  bounded = omega (arith, v.bounded);
  some_allowed = v.some_allowed;
  stay = λ r'. omega (
    arith,
    v.stay r',
    ap (tally is_leaving) t,
    tally-at is_leaving front back leaving,
    tally-append is_leaving front back,
  );
  manned = λ r' c q'.
      absurd
        (omega (arith, v.stay r', ap (tally is_leaving) t, tally-at is_leaving front back leaving));
  fifo = v.fifo;
}
PoolStep-PoolInvariant {p} stops v = record {
  all_counted = v.all_counted;
  idle_counted = v.idle_counted;
  bounded = v.bounded;
  some_allowed = v.some_allowed;
  stay = λ r. cc;
  manned = λ r c q. cc;
  fifo = v.fifo;
}

-- However the reader, the workers and a stop interleave: the counts are those of the threads, there
-- are at most as many workers as allowed (at least one), jobs are taken in the order in which they
-- were accepted with none lost or taken twice, and while the connection runs a queue that has jobs
-- after a submit has a worker that has not left.
pub PoolReachable-PoolInvariant :
    (max_workers : ℕ) {p : Pool} → PoolReachable max_workers p → PoolInvariant p
PoolReachable-PoolInvariant max_workers begins = new_pool-PoolInvariant max_workers
PoolReachable-PoolInvariant max_workers (steps r step) =
    PoolStep-PoolInvariant step (PoolReachable-PoolInvariant max_workers r)
