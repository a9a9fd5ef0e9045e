-- ===== src/Client/Failover.antt =====
-- stream/src/client/failover.rs: `FailoverPool`, which sends each task to one of several pools, and a
-- task that failed to the next one. A pool is what `select` and `update_addrs` ask of it, its health
-- and its address; a task is the user's, wrapped in a `FailoverTask`. A usize has 64 bits, and its sums
-- wrap, as in a build without overflow checks; versions and retries are taken to stay below 2^64.
pub mod Select
pub mod Resend
pub mod Retry
pub mod Addrs
use occams_rpc.Base.{
  ℕ, zero, suc, ◌+◌, ◌-◌, ◌^◌, ◌%◌, Bool, true, false, Option, none, some, List, [], ◌∷◌, length,
  get_elem?, leb, ◌==◌, if◌then◌else◌,
}
use occams_rpc.Error.{RpcIntErr, method, unreachable, int_err_lt}
use occams_rpc.Error.Text.{bytes_eq}

-- `ClusterConfig`
pub record ClusterConfig (P : Type 0) : Type 0 where
  pub pools : List P
  pub ver : ℕ

-- `FailoverTask`
pub record FailoverTask (T : Type 0) : Type 0 where
  pub last_index : ℕ
  pub cluster_ver : ℕ
  pub inner : T
  pub retry : ℕ
  pub should_retry : Bool

module _ {P : Type 0} (is_healthy : P → Bool) where
  abbrev healthy_at : ℕ → Option P → Option (ℕ × P) → Option (ℕ × P)
  healthy_at i none rest = rest
  healthy_at i (some p) rest = if is_healthy p then some (i, p) else rest

  -- The loop `for i in seed..seed + l`, with as many rounds as are left.
  abbrev pub scan : ℕ → ℕ → List P → Option (ℕ × P)
  scan zero i pools = none
  scan (suc n) i pools = healthy_at i (get_elem? pools (i % length pools)) (scan n (suc i) pools)

  abbrev pub seed_of : Bool → ℕ → Option ℕ → ℕ × ℕ
  seed_of round_robin rr_counter (some index) = ((index + 1) % 2 ^ 64, rr_counter)
  seed_of true rr_counter none = (rr_counter, (rr_counter + 1) % 2 ^ 64)
  seed_of false rr_counter none = (0, rr_counter)

  -- The length of the range `seed..seed + l`: none is left of it when the sum wraps.
  abbrev pub range_len : ℕ → ℕ → ℕ
  range_len seed l = (seed + l) % 2 ^ 64 - seed

  -- `ClusterConfig::select`, with the round-robin counter after it.
  unfoldable pub select : Bool → ℕ → Option ℕ → List P → Option (ℕ × P) × ℕ
  select round_robin rr_counter last_index pools =
      let (seed, counter) = seed_of round_robin rr_counter last_index in
      if length pools == 0
      then (none, rr_counter)
      else (scan (range_len seed (length pools)) seed pools, counter)

module _ {T : Type 0} (set_inner : RpcIntErr → T → T) where
  -- `FailoverTask::set_rpc_error`
  unfoldable pub set_rpc_error : RpcIntErr → FailoverTask T → FailoverTask T
  set_rpc_error e task =
      if int_err_lt e method
      then record task {
        should_retry = true;
        retry = task.retry + 1;
        inner = set_inner e task.inner;
      }
      else record task { should_retry = false; inner = set_inner e task.inner }

-- What `set_custom_error` does to the wrapper, the inner task having taken the error.
abbrev pub set_custom_error : {T : Type 0} → T → FailoverTask T → FailoverTask T
set_custom_error inner task = record task { should_retry = false; inner = inner }

-- Where a task goes: back to the retry worker, to a pool, or back to its owner by `done`.
pub data Next (T : Type 0) : Type 0 where
  to_worker : FailoverTask T → Next T
  to_pool : ℕ → FailoverTask T → Next T
  to_owner : T → Next T

-- `error_handle`, the retry channel being open or not
unfoldable pub error_handle : {T : Type 0} → ℕ → Bool → FailoverTask T → Next T
error_handle retry_limit is_open task =
    if task.should_retry
    then if leb task.retry retry_limit
      then if is_open then to_worker task else to_owner task.inner
      else to_owner task.inner
    else to_owner task.inner

module _ {P : Type 0} {T : Type 0} (is_healthy : P → Bool) (round_robin : Bool) where
  abbrev pub resent : FailoverTask T → Option (ℕ × P) × ℕ → Next T × ℕ
  resent task (some (index, p), counter) =
      (to_pool index (record task { last_index = index }), counter)
  resent task (none, counter) = (to_owner task.inner, counter)

  -- One round of `retry_worker`: the pool being dropped, or without a cluster, the task is done.
  unfoldable pub retry_worker : ℕ → Option (ClusterConfig P) → FailoverTask T → Next T × ℕ
  retry_worker rr_counter none task = (to_owner task.inner, rr_counter)
  retry_worker rr_counter (some c) task =
      if c.ver == task.cluster_ver
      then resent task (select is_healthy round_robin rr_counter (some task.last_index) c.pools)
      else resent (record task { cluster_ver = c.ver })
          (select is_healthy round_robin rr_counter none c.pools)

  abbrev pub first_sent : (RpcIntErr → T → T) → ℕ → T → Option (ℕ × P) × ℕ → Next T × ℕ
  first_sent set_inner ver task (some (index, p), counter) = (
    to_pool index (record {
      last_index = index;
      cluster_ver = ver;
      inner = task;
      retry = 0;
      should_retry = false;
    }),
    counter,
  )
  first_sent set_inner ver task (none, counter) = (to_owner (set_inner unreachable task), counter)

  -- `send_req`, and `send_req_blocking` in the same words
  unfoldable pub send_req : (RpcIntErr → T → T) → ℕ → Option (ClusterConfig P) → T → Next T × ℕ
  send_req set_inner rr_counter none task = (to_owner (set_inner unreachable task), rr_counter)
  send_req set_inner rr_counter (some c) task =
      first_sent set_inner c.ver task (select is_healthy round_robin rr_counter none c.pools)

module _ {P : Type 0} (get_addr : P → List ℕ) (new_pool : List ℕ → P) where
  -- `insert` into the map of the old pools by address
  abbrev pub insert_pool : P → List P → List P
  insert_pool p [] = p ∷ []
  insert_pool p (q ∷ qs) =
      let rest = insert_pool p qs in if bytes_eq (get_addr q) (get_addr p) then p ∷ qs else q ∷ rest

  abbrev pub old_pools_map : List P → List P → List P
  old_pools_map qs [] = qs
  old_pools_map qs (p ∷ ps) = old_pools_map (insert_pool p qs) ps

  -- `remove` from it
  abbrev pub find_pool : List ℕ → List P → Option P
  find_pool addr [] = none
  find_pool addr (q ∷ qs) =
      let rest = find_pool addr qs in if bytes_eq (get_addr q) addr then some q else rest

  abbrev pub without_pool : List ℕ → List P → List P
  without_pool addr [] = []
  without_pool addr (q ∷ qs) =
      let rest = without_pool addr qs in if bytes_eq (get_addr q) addr then qs else q ∷ rest

  abbrev pub reused_or_new : List ℕ → Option P → P
  reused_or_new addr (some p) = p
  reused_or_new addr none = new_pool addr

  -- The loop over the new addresses
  abbrev pub new_pools : List (List ℕ) → List P → List P
  new_pools [] old = []
  new_pools (addr ∷ addrs) old =
      reused_or_new addr (find_pool addr old) ∷ new_pools addrs (without_pool addr old)

  -- `update_addrs`, with the version counter after it
  unfoldable pub update_addrs : List (List ℕ) → Option (ClusterConfig P) → ℕ → ClusterConfig P × ℕ
  update_addrs addrs none ver = (record { pools = new_pools addrs []; ver = ver + 1 }, ver + 1)
  update_addrs addrs (some c) ver =
      (record { pools = new_pools addrs (old_pools_map [] c.pools); ver = ver + 1 }, ver + 1)
