-- ===== src/Connector/Pool/Stuck.antt =====
-- A request that waits behind a handler although more workers are allowed (`Pool::submit` of
-- crates/connector/src/rpc.rs).
use impulse_ring.Prelude.{ℕ, ◌≡◌, true, List, [], ◌∷◌, max, length}
use impulse_ring.Proto.{RpcRequest}
use impulse_ring.Connector.Pool.{Stage, looking, idle, serving, Pool, PoolStep, pushes, answers}

-- A step that is neither the end of a handler nor the arrival of a request.
abbrev IsQuiet : {p q : Pool} → PoolStep p q → Type 0
IsQuiet (pushes job c) = ⊥
IsQuiet (answers front back job t) = ⊥
IsQuiet step = Unit

-- What comes of a pool by such steps alone.
pub data QuietRun (p : Pool) : Pool → Type 0 where
  stays : QuietRun p p
  goes_on : {q r : Pool} → QuietRun p q → (step : PoolStep q r) → IsQuiet step → QuietRun p r

-- One worker answers the first request, the second one waits, and nobody is to look at the counts.
pub record Stuck (first second : RpcRequest) (p : Pool) : Type 0 where
  pub one_worker : p.threads ≡ serving first ∷ []
  pub waiting : p.queue ≡ second ∷ []
  pub seen : p.counted ≡ true

module _ (max_workers : ℕ) (warm_up first second : RpcRequest) where
  -- A running pool with one worker at most, its counts looked at.
  abbrev pool_of : ℕ → List Stage → List RpcRequest → List RpcRequest → List RpcRequest → Pool
  pool_of idle_workers threads queue accepted taken = record {
    queue = queue;
    workers = length threads;
    idle_workers = idle_workers;
    max_workers = max max_workers 1;
    running = true;
    threads = threads;
    counted = true;
    accepted = accepted;
    taken = taken;
  }

  -- The first request of all starts a worker.
  abbrev warmed : Pool
  warmed = pool_of 0 (looking ∷ []) (warm_up ∷ []) (warm_up ∷ []) []

  -- The worker has answered it and sleeps.
  abbrev asleep : Pool
  asleep = pool_of 1 (idle ∷ []) [] (warm_up ∷ []) (warm_up ∷ [])

  abbrev stuck : Pool
  stuck =
      pool_of 0 (serving first ∷ []) (second ∷ []) (warm_up ∷ first ∷ second ∷ [])
        (warm_up ∷ first ∷ [])
