-- ===== src/Client/Timer.antt =====
-- stream/src/client/timer.rs: `ClientTaskTimer`, which keeps the tasks that were sent until their
-- response comes, their time is over, or the connection ends. The channel of the registered tasks is
-- the list `pending_tasks`, a queue in which sending and receiving are single steps; the guard that
-- each entry holds for the throttler is left out.
pub mod Order
pub mod Held
pub mod Take
pub mod Expiry
pub mod Life
use occams_rpc.Base.{
  ℕ, zero, suc, ◌+◌, ◌-◌, ◌*◌, ◌^◌, ◌%◌, Bool, true, false, not, ◌&&◌, ◌||◌, Option, none, some,
  List, [], ◌∷◌, ◌++◌, map, length, ltb, leb, ◌==◌, if◌then◌else◌,
}
use occams_rpc.Base.Result.{Result, ok, err}
use occams_rpc.Error.{RpcIntErr}
use occams_rpc.Client.Map.{insert, lookup, removed, keys, values}

-- What a future gives when it is polled.
pub data Poll (A : Type 0) : Type 0 where
  ready : A → Poll A
  pending : Poll A

-- `ClientTaskTimer`, for tasks T
pub record Timer (T : Type 0) : Type 0 where
  pub pending_tasks : List T
  pub pending_task_count : ℕ
  pub sent_tasks : List (ℕ × T)
  pub delay_tasks_queue : List (List (ℕ × T))
  pub min_delay_seq : ℕ
  pub task_timeout : ℕ
  pub processed_seq : ℕ
  pub reg_stopped_flag : Bool

-- `new`, with the capacity of the channel
abbrev pub new_timer : {T : Type 0} → ℕ → ℕ → Timer T × ℕ
new_timer timeout thresholds = (
  record {
    pending_tasks = [];
    pending_task_count = 0;
    sent_tasks = [];
    delay_tasks_queue = [];
    min_delay_seq = 0;
    task_timeout = timeout;
    processed_seq = 0;
    reg_stopped_flag = false;
  },
  (if thresholds == 0 then 500 else thresholds) * 2,
)

-- `fetch_add` and `fetch_sub` on an `AtomicU64`
abbrev pub fetch_add_one : ℕ → ℕ
fetch_add_one n = (n + 1) % 2 ^ 64

abbrev pub fetch_sub_one : ℕ → ℕ
fetch_sub_one n = (n + (2 ^ 64 - 1)) % 2 ^ 64

module _ {T : Type 0} (seq : T → ℕ) where
  -- `reg_task`
  abbrev pub reg_task : T → Timer T → Timer T
  reg_task task t = record t { pending_tasks = t.pending_tasks ++ (task ∷ []) }

  -- `stop_reg_task`
  abbrev pub stop_reg_task : Timer T → Timer T
  stop_reg_task t = record t { reg_stopped_flag = true }

  -- `got_pending_task`, of a task that was received from the channel
  abbrev pub got_pending_task : T → Timer T → Timer T
  got_pending_task task t = record t {
    pending_task_count = fetch_sub_one t.pending_task_count;
    processed_seq = seq task;
    sent_tasks = insert (seq task) task t.sent_tasks;
  }

  abbrev pub got_all : List T → Timer T → Timer T
  got_all [] t = t
  got_all (task ∷ tasks) t = got_all tasks (got_pending_task task t)

  -- The loop on `try_recv`, or on `poll_item`: until the channel is empty.
  unfoldable pub drain : Timer T → Timer T
  drain t = got_all t.pending_tasks record t { pending_tasks = [] }

  -- `poll_sent_task`
  abbrev pub poll_sent_task : Timer T → Bool × Timer T
  poll_sent_task t = (ltb 0 (length t.pending_tasks), drain t)

  -- The tasks of the map, each with the error it ends with
  abbrev pub ended : RpcIntErr → List (ℕ × T) → List (T × RpcIntErr)
  ended e m = map (λ x. (x, e)) (values m)

  abbrev pub all_ended : RpcIntErr → List (List (ℕ × T)) → List (T × RpcIntErr)
  all_ended e [] = []
  all_ended e (m ∷ ms) = ended e m ++ all_ended e ms

  abbrev pub emptied : List (List (ℕ × T)) → List (List (ℕ × T))
  emptied [] = []
  emptied (m ∷ ms) = [] ∷ emptied ms

  -- `clean_pending_tasks`
  unfoldable pub clean_pending_tasks : Timer T → List (T × RpcIntErr) × Timer T
  clean_pending_tasks t =
      let d = drain t in
      (
        ended RpcIntErr.io d.sent_tasks ++ all_ended RpcIntErr.io d.delay_tasks_queue,
        record d { sent_tasks = []; delay_tasks_queue = emptied d.delay_tasks_queue },
      )

  abbrev pub is_empty : List (ℕ × T) → Bool
  is_empty [] = true
  is_empty (x ∷ m) = false

  abbrev pub all_empty : List (List (ℕ × T)) → Bool
  all_empty [] = true
  all_empty (m ∷ ms) = is_empty m && all_empty ms

  -- `check_pending_tasks_empty`
  unfoldable pub check_pending_tasks_empty : Timer T → Bool × Timer T
  check_pending_tasks_empty t =
      let d = drain t in (is_empty d.sent_tasks && all_empty d.delay_tasks_queue, d)

  -- `WaitRegTaskFuture::poll`
  unfoldable pub wait_reg_task : ℕ → Timer T → Poll (Result {0, 0} Unit Unit) × Timer T
  wait_reg_task target t =
      if leb target t.processed_seq
      then (ready (ok tt), t)
      else if t.reg_stopped_flag
      then (ready (err tt), t)
      else if (poll_sent_task t).0 && leb target (drain t).processed_seq
      then (ready (ok tt), drain t)
      else (pending, drain t)

  -- The first batch that has the key gives its task.
  abbrev pub batch_searched :
      ℕ
      → List (ℕ × T)
      → List (List (ℕ × T))
      → Option T × List (List (ℕ × T))
      → Option T
      → Option T × List (List (ℕ × T))
  batch_searched k m ms rest (some x) = (some x, removed k m ∷ ms)
  batch_searched k m ms rest none = (rest.0, m ∷ rest.1)

  abbrev pub taken_delayed : ℕ → List (List (ℕ × T)) → Option T × List (List (ℕ × T))
  taken_delayed k [] = (none, [])
  taken_delayed k (m ∷ ms) = batch_searched k m ms (taken_delayed k ms) (lookup k m)

  abbrev pub sent_searched : ℕ → Timer T → Option T → Option T × Timer T
  sent_searched k t (some x) = (some x, record t { sent_tasks = removed k t.sent_tasks })
  sent_searched k t none = (
    (taken_delayed k t.delay_tasks_queue).0,
    record t { delay_tasks_queue = (taken_delayed k t.delay_tasks_queue).1 },
  )

  abbrev pub take_registered : ℕ → Timer T → Option T × Timer T
  take_registered k t = sent_searched k t (lookup k t.sent_tasks)

  abbrev pub take_awaited : ℕ → Poll (Result {0, 0} Unit Unit) × Timer T → Poll (Option T) × Timer T
  take_awaited k (pending, t) = (pending, t)
  take_awaited k (ready (err u), t) = (ready none, t)
  take_awaited k (ready (ok u), t) = (ready (take_registered k t).0, (take_registered k t).1)

  -- `take_task`, polled once
  unfoldable pub take_task : ℕ → Timer T → Poll (Option T) × Timer T
  take_task k t =
      if ltb k t.min_delay_seq
      then (ready none, t)
      else if ltb t.processed_seq k
      then take_awaited k (wait_reg_task k t)
      else take_awaited k (ready (ok tt), t)

  -- The smallest number of the batch that timed out, 0 standing for none yet.
  abbrev pub min_seq_from : ℕ → List T → ℕ
  min_seq_from least [] = least
  min_seq_from least (x ∷ xs) =
      min_seq_from (if least == 0 then seq x else if ltb (seq x) least then seq x else least) xs

  abbrev pub batch_timed_out : List (ℕ × T) → Timer T → List (T × RpcIntErr) × Timer T
  batch_timed_out [] t = ([], t)
  batch_timed_out (x ∷ m) t = (
    ended RpcIntErr.timeout (x ∷ m),
    record t { min_delay_seq = min_seq_from 0 (values (x ∷ m)) },
  )

  -- `pop_back`
  abbrev pub pop_back : List (ℕ × T) → List (List (ℕ × T)) → List (ℕ × T) × List (List (ℕ × T))
  pop_back m [] = (m, [])
  pop_back m (n ∷ ms) = let rest = pop_back n ms in (rest.0, m ∷ rest.1)

  -- `adjust_task_queue`, called once a second
  unfoldable pub adjust_task_queue : Timer T → List (T × RpcIntErr) × Timer T
  adjust_task_queue t =
      let last = pop_back t.sent_tasks t.delay_tasks_queue in
      if ltb t.task_timeout (suc (length t.delay_tasks_queue))
      then batch_timed_out last.0 record t { sent_tasks = []; delay_tasks_queue = last.1 }
      else (
        [],
        record t { sent_tasks = []; delay_tasks_queue = t.sent_tasks ∷ t.delay_tasks_queue },
      )
