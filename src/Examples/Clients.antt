-- ===== src/Examples/Clients.antt =====
-- The client's side (stream/src/client) at concrete inputs: a task is its number and a name for it.
use occams_rpc.Base.{
  ℕ, zero, suc, ◌+◌, ◌-◌, ◌≤◌, ◌<◌, ◌≡◌, refl, Bool, true, false, some, [], ◌∷◌, arith, get_elem?,
}
use occams_rpc.Base.Result.{Result, ok, err}
use occams_rpc.Error.{RpcIntErr}
use occams_rpc.Client.Timer.{Timer, drain, take_task, adjust_task_queue, ended}
use occams_rpc.Client.Timer.Order.{IsOrdered, adjust_task_queue-IsOrdered}
use occams_rpc.Client.Timer.Take.{Answers, take_task_lem}
use occams_rpc.Client.Timer.Expiry.{timeout_exact, seconds}
use occams_rpc.Client.Failover.{FailoverTask, select}
use occams_rpc.Client.Failover.Select.{Selects, MovesTo, select_lem}
use occams_rpc.Client.Failover.Resend.{Failure, Fails}
use occams_rpc.Client.Failover.Retry.{failed, failed-Fails, resends, resends-le}
use occams_rpc.Client.Stream.{Stream, new_stream, send_task, recv_some}
use occams_rpc.Client.Stream.Send.{Sends, send_task_lem}
use occams_rpc.Client.Stream.Receive.{recv_some_never_stamps}

abbrev seq_of : ℕ × ℕ → ℕ
seq_of (n, name) = n

abbrev set_seq : ℕ → ℕ × ℕ → ℕ × ℕ
set_seq n (m, name) = (n, name)

-- One task waits in the channel, one was sent in this second, and one in the last.
abbrev busy : Timer (ℕ × ℕ)
busy = record {
  pending_tasks = (6, 106) ∷ [];
  pending_task_count = 1;
  sent_tasks = (5, (5, 105)) ∷ [];
  delay_tasks_queue = ((3, (3, 103)) ∷ []) ∷ [];
  min_delay_seq = 2;
  task_timeout = 1;
  processed_seq = 5;
  reg_stopped_flag = false;
}

abbrev busy-IsOrdered : IsOrdered seq_of busy
busy-IsOrdered = record {
  layered = (
    4,
    omega arith,
    (omega arith, tt),
    (omega arith, tt),
    (3, omega arith, (omega arith, tt), (omega arith, tt), omega arith),
  );
  keyed = ((refl, omega arith, tt), ((refl, omega arith, tt), tt));
  rising = (omega arith, tt);
}

take_task_lem_example : Answers seq_of 6 busy (take_task seq_of 6 busy)
take_task_lem_example =
    take_task_lem seq_of 6 busy busy-IsOrdered refl (unfold drain in omega arith)

adjust_task_queue-IsOrdered_example : IsOrdered seq_of (adjust_task_queue seq_of busy).1
adjust_task_queue-IsOrdered_example = adjust_task_queue-IsOrdered seq_of busy busy-IsOrdered

timeout_exact_example :
    ((n : ℕ)
      → n < 1
      → get_elem? (seconds seq_of (suc n) busy).delay_tasks_queue n ≡ some ((5, (5, 105)) ∷ []))
    × ((adjust_task_queue seq_of (seconds seq_of 1 busy)).0
        ≡ ended seq_of RpcIntErr.timeout ((5, (5, 105)) ∷ []))
timeout_exact_example = timeout_exact seq_of busy (omega arith)

abbrev is_up : Bool → Bool
is_up b = b

select_lem_example :
    Selects is_up
      (false ∷ true ∷ false ∷ [])
      2
      (select is_up true 0 (some 1) (false ∷ true ∷ false ∷ [])).0
    × MovesTo is_up
        (false ∷ true ∷ false ∷ [])
        true
        0
        (some 1)
        (select is_up true 0 (some 1) (false ∷ true ∷ false ∷ [])).1
select_lem_example =
    select_lem is_up (false ∷ true ∷ false ∷ []) true 0 (some 1) 2 refl (omega arith)

abbrev marked : RpcIntErr → ℕ → ℕ
marked e n = n + 1

abbrev first_try : FailoverTask ℕ
first_try = record { last_index = 0; cluster_ver = 0; inner = 0; retry = 0; should_retry = false }

abbrev lost : Failure Bool
lost = record {
  error = RpcIntErr.io;
  is_open = true;
  rr_counter = 0;
  cluster = some (record { pools = false ∷ true ∷ []; ver = 0 });
  is_healthy = is_up;
}

failed-Fails_example : Fails marked false 3 lost first_try (failed marked false 3 lost first_try)
failed-Fails_example = failed-Fails marked false 3 lost first_try

resends-le_example : resends marked false 1 (lost ∷ lost ∷ []) first_try ≤ 1 - 0
resends-le_example = resends-le marked false 1 (lost ∷ lost ∷ []) first_try

abbrev idle : Stream (ℕ × ℕ)
idle = new_stream 3 0

send_task_lem_example :
    Sends seq_of set_seq
      (λ n x. refl)
      (λ t. true)
      (λ f t. true)
      (0, 9)
      false
      idle
      (send_task seq_of set_seq (λ t. true) (λ f t. true) (0, 9) false idle)
send_task_lem_example =
    send_task_lem seq_of set_seq (λ n x. refl) (λ t. true) (λ f t. true) (0, 9) false idle
      (record {
        layered = (1, omega arith, tt, tt, omega arith);
        keyed = (tt, tt);
        rises = omega arith;
      })
      (omega arith) (omega arith)

recv_some_never_stamps_example : (recv_some seq_of (λ w s. (ok true, s)) 9 idle).2 ≡ 0
recv_some_never_stamps_example = recv_some_never_stamps seq_of (λ w s. (ok true, s)) 9 idle

-- A stream that refuses the task 0, and counts what it sent.
abbrev send_some : ℕ → ℕ → Result {0, 0} RpcIntErr Unit × ℕ
send_some zero sent = (err RpcIntErr.io, sent)
send_some (suc n) sent = (ok tt, suc sent)
