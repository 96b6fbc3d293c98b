-- ===== src/Connector/Pool.antt =====
-- The worker pool behind an exposed function (`Pool` of crates/connector/src/rpc.rs): one reader
-- that submits jobs, and workers that take them. A step is what one thread does under one lock. A
-- worker that sleeps on `idle` may wake at any time, by a notification, its timeout or for no
-- reason.
pub mod Invariant
pub mod Stuck
use impulse_ring.Prelude.{
  ℕ, ◌+◌, ◌-◌, ◌≡◌, Bool, true, false, ◌&&◌, List, [], ◌∷◌, ◌++◌, ltb, nat_eq, ◌==◌, if◌then◌else◌,
  max,
}
use impulse_ring.Proto.{RpcRequest}

-- A worker looks for a job, sleeps, answers one, or is about to leave.
pub data Stage : Type 0 where
  looking : Stage
  idle : Stage
  serving : RpcRequest → Stage
  leaving : Stage

-- `threads` has the workers that have not left. `counted` is false while the reader has put a job
-- into the queue and not looked at the counts yet. `accepted` and `taken` have all jobs ever put in
-- and taken out.
pub record Pool : Type 0 where
  pub queue : List RpcRequest
  pub workers : ℕ
  pub idle_workers : ℕ
  pub max_workers : ℕ
  pub running : Bool
  pub threads : List Stage
  pub counted : Bool
  pub accepted : List RpcRequest
  pub taken : List RpcRequest

unfoldable pub new_pool : ℕ → Pool
new_pool max_workers = record {
  queue = [];
  workers = 0;
  idle_workers = 0;
  max_workers = max max_workers 1;
  running = true;
  threads = [];
  counted = true;
  accepted = [];
  taken = [];
}

-- `queue.push_back(job)`.
unfoldable pub push_back : RpcRequest → Pool → Pool
push_back job p = record p {
  queue = p.queue ++ job ∷ [];
  counted = false;
  accepted = p.accepted ++ job ∷ [];
}

-- The look at the counts, with the thread that it spawns.
unfoldable pub count : Pool → Pool
count p =
    if p.idle_workers == 0 && ltb p.workers p.max_workers
    then record p { workers = p.workers + 1; threads = p.threads ++ looking ∷ []; counted = true }
    else record p { counted = true }

pub data PoolStep (p : Pool) : Pool → Type 0 where
  pushes : (job : RpcRequest) → p.counted ≡ true → PoolStep p (push_back job p)
  counts : p.counted ≡ false → PoolStep p (count p)
  takes :
      (front back : List Stage) (job : RpcRequest) (jobs : List RpcRequest)
      → p.threads ≡ front ++ looking ∷ back
      → p.queue ≡ job ∷ jobs
      → PoolStep p (record p {
        queue = jobs;
        threads = front ++ serving job ∷ back;
        taken = p.taken ++ job ∷ [];
      })
  sleeps :
      (front back : List Stage)
      → p.threads ≡ front ++ looking ∷ back
      → p.queue ≡ []
      → p.running ≡ true
      → PoolStep p (record p { idle_workers = p.idle_workers + 1; threads = front ++ idle ∷ back })
  wakes :
      (front back : List Stage)
      → p.threads ≡ front ++ idle ∷ back
      → PoolStep p
          (record p { idle_workers = p.idle_workers - 1; threads = front ++ looking ∷ back })
  answers :
      (front back : List Stage) (job : RpcRequest)
      → p.threads ≡ front ++ serving job ∷ back
      → PoolStep p (record p { threads = front ++ looking ∷ back })
  breaks :
      (front back : List Stage)
      → p.threads ≡ front ++ looking ∷ back
      → p.queue ≡ []
      → p.running ≡ false
      → PoolStep p (record p { threads = front ++ leaving ∷ back })
  leaves :
      (front back : List Stage)
      → p.threads ≡ front ++ leaving ∷ back
      → PoolStep p (record p { workers = p.workers - 1; threads = front ++ back })
  stops : PoolStep p (record p { running = false })

pub data PoolReachable (max_workers : ℕ) : Pool → Type 0 where
  begins : PoolReachable max_workers (new_pool max_workers)
  steps : {p q : Pool} → PoolReachable max_workers p → PoolStep p q → PoolReachable max_workers q
