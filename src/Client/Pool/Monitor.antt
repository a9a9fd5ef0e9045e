-- ===== src/Client/Pool/Monitor.antt =====
-- stream/src/client/pool.rs: the workers of a `ClientPool` at once: `spawn`, `spawn_worker`, `run` with
-- its monitor, `run_worker`, and the callers that send. What connecting, sending, flushing and pinging
-- bring is open, and any order of the steps is a run. `asked` and `taken` are a log that no step reads.
pub mod Counts
pub mod Invariant
pub mod Health
use occams_rpc.Base.{
  ℕ, zero, suc, ◌+◌, ◌-◌, ◌%◌, ◌^◌, ◌<◌, ◌≤◌, ◌≡◌, Bool, true, false, ◌&&◌, List, [], ◌∷◌, ◌++◌,
  map, length, ltb, ◌==◌, if◌then◌else◌,
}
use occams_rpc.Error.{RpcIntErr, unreachable}
use occams_rpc.Client.Pool.{Pool, cleanup, set_err}

-- Where a worker stands, with its number: before `connect`, in the monitor's loop, in `run_worker`.
pub data Worker : Type 0 where
  connecting : ℕ → Worker
  monitoring : Worker
  working : ℕ → Worker

-- What became of a task that was taken from the channel: given to a stream, or ended with Unreachable.
pub data Fate : Type 0 where
  to_stream : Fate
  ended : RpcIntErr → Fate

pub record Crew (T : Type 0) : Type 0 where
  pub pool : Pool T
  pub workers : List Worker
  pub has_senders : Bool
  pub asked : List T
  pub taken : List (T × Fate)

module _ {T : Type 0} where
  abbrev pub ended_by : T × RpcIntErr → T × Fate
  ended_by (t, e) = (t, ended e)

  -- `cleanup`, with `error_handle` of each task.
  abbrev pub cleaned : Crew T → Crew T
  cleaned c = record c {
    pool = (cleanup c.pool).1;
    taken = c.taken ++ map ended_by (cleanup c.pool).0;
  }

  abbrev pub unhealthy : Crew T → Crew T
  unhealthy c = record c { pool = set_err c.pool }

  -- A worker ends: `spawn_worker` counts it out.
  abbrev pub leaves : List Worker → Crew T → Crew T
  leaves others c = record c {
    pool = record c.pool { worker_count = c.pool.worker_count - 1 };
    workers = others;
  }

  abbrev pub counts_in : Crew T → Crew T
  counts_in c = record c {
    pool = record c.pool { connected_worker_count = (c.pool.connected_worker_count + 1) % 2 ^ 64 };
  }

  -- `recv` or `try_recv` of a task, which goes to the stream of a worker.
  abbrev pub takes : T → List T → Crew T → Crew T
  takes t q c = record c {
    pool = record c.pool { rx = q };
    taken = c.taken ++ ((t, to_stream) ∷ []);
  }

  -- `connect` succeeds: number 0 is the monitor, any other goes into `run_worker`.
  abbrev pub connected : ℕ → List Worker → List Worker → Crew T → Crew T
  connected zero xs ys c = record c { workers = xs ++ (monitoring ∷ ys) }
  connected (suc n) xs ys c = record (counts_in c) { workers = xs ++ (working (suc n) ∷ ys) }

  -- The monitor has taken a task, and hands the monitoring on to a new worker if tasks are in flight and
  -- it is alone: the compare_exchange from 1 to 2.
  abbrev pub hands_on : Crew T → Crew T
  hands_on c = record c {
    pool = record c.pool { worker_count = 2 };
    workers = connecting 0 ∷ c.workers;
  }

  -- Behind `send_task` of the monitor's task, where it has stayed the monitor: an error makes it connect
  -- again.
  abbrev pub stays : Bool → List Worker → List Worker → Crew T → Crew T
  stays true xs ys c = record c { workers = xs ++ (monitoring ∷ ys) }
  stays false xs ys c = cleaned (unhealthy (record c { workers = xs ++ (connecting 0 ∷ ys) }))

  -- Where it is worker 1 now: it goes on in `run_worker`, or it ends.
  abbrev pub moves_on : Bool → List Worker → List Worker → Crew T → Crew T
  moves_on true xs ys c = record (counts_in c) { workers = xs ++ (working 1 ∷ ys) }
  moves_on false xs ys c = leaves (xs ++ ys) (unhealthy c)

  -- A round of `run_worker` that sends a task, and the end of `run_worker`, which counts up once more.
  abbrev pub works_on : Bool → ℕ → List Worker → List Worker → Crew T → Crew T
  works_on true n xs ys c = record c { workers = xs ++ (working n ∷ ys) }
  works_on false n xs ys c = leaves (xs ++ ys) (unhealthy (counts_in c))

  pub data Step (c : Crew T) : Crew T → Type 0 where
    -- `send_req` of a caller.
    send_req :
        (t : T)
        → c.has_senders ≡ true
        → Step c (record c {
          pool = record c.pool { rx = c.pool.rx ++ (t ∷ []) };
          asked = c.asked ++ (t ∷ []);
        })
    drop_senders : Step c (record c { has_senders = false })
    -- `spawn` of a pool that a caller still has: the number is the count before.
    spawn :
        c.has_senders ≡ true
        → Step c (record c {
          pool = record c.pool { worker_count = c.pool.worker_count + 1 };
          workers = connecting c.pool.worker_count ∷ c.workers;
        })
    connects :
        (n : ℕ) (xs ys : List Worker)
        → c.workers ≡ xs ++ (connecting n ∷ ys)
        → Step c (connected n xs ys c)
    connect_fails :
        (n : ℕ) (xs ys : List Worker)
        → c.workers ≡ xs ++ (connecting n ∷ ys)
        → Step c (cleaned (unhealthy c))
    -- The monitor's ping fails, with other workers, or alone.
    ping_fails :
        (xs ys : List Worker)
        → c.workers ≡ xs ++ (monitoring ∷ ys)
        → Step c (unhealthy (record c { workers = xs ++ (connecting 0 ∷ ys) }))
    ping_fails_alone :
        (xs ys : List Worker)
        → c.workers ≡ xs ++ (monitoring ∷ ys)
        → Step c (cleaned (unhealthy (record c { workers = xs ++ (connecting 0 ∷ ys) })))
    -- The channel is closed and empty.
    monitor_ends :
        (xs ys : List Worker)
        → c.workers ≡ xs ++ (monitoring ∷ ys)
        → c.has_senders ≡ false
        → c.pool.rx ≡ []
        → Step c (leaves (xs ++ ys) c)
    -- The monitor takes a task and stays the monitor.
    monitor_sends :
        (xs ys : List Worker) (t : T) (q : List T) (succeeds : Bool)
        → c.workers ≡ xs ++ (monitoring ∷ ys)
        → c.pool.rx ≡ t ∷ q
        → Step c (stays succeeds xs ys (takes t q c))
    -- It takes a task while others are in flight, and hands the monitoring on.
    monitor_hands_on :
        (xs ys : List Worker) (t : T) (q : List T) (succeeds : Bool)
        → c.workers ≡ xs ++ (monitoring ∷ ys)
        → c.pool.rx ≡ t ∷ q
        → c.pool.worker_count ≡ 1
        → Step c (moves_on succeeds (connecting 0 ∷ xs) ys (hands_on (takes t q c)))
    worker_sends :
        (n : ℕ) (xs ys : List Worker) (t : T) (q : List T) (succeeds : Bool)
        → c.workers ≡ xs ++ (working n ∷ ys)
        → c.pool.rx ≡ t ∷ q
        → Step c (works_on succeeds n xs ys (takes t q c))
    -- `flush_req`, at the end of a round.
    worker_flushes :
        (n : ℕ) (xs ys : List Worker) (succeeds : Bool)
        → c.workers ≡ xs ++ (working n ∷ ys)
        → Step c (works_on succeeds n xs ys c)
    -- The channel is closed and empty, and the last flush succeeds.
    worker_ends :
        (n : ℕ) (xs ys : List Worker)
        → c.workers ≡ xs ++ (working n ∷ ys)
        → c.has_senders ≡ false
        → c.pool.rx ≡ []
        → Step c (leaves (xs ++ ys) (counts_in c))

  pub data Reach (c : Crew T) : Crew T → Type 0 where
    start : Reach c c
    later : {u v : Crew T} → Reach c u → Step u v → Reach c v

-- `ClientPool::new`: the first worker is spawned.
abbrev pub new_crew : {T : Type 0} → Crew T
new_crew = record {
  pool = record { rx = []; is_ok = true; worker_count = 1; connected_worker_count = 0 };
  workers = connecting 0 ∷ [];
  has_senders = true;
  asked = [];
  taken = [];
}
