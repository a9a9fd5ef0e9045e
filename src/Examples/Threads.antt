-- ===== src/Examples/Threads.antt =====
-- A sender and a receiver of a ClientStream (stream/src/client/stream.rs) that take turns.
use occams_rpc.Base.{ℕ, ◌+◌, ◌≤◌, ◌<◌, ◌≡◌, ◌≢◌, refl, true, [], arith, count_by}
use occams_rpc.Client.Timer.{clean_pending_tasks, drain}
use occams_rpc.Client.Timer.Held.{held}
use occams_rpc.Client.Timer.Life.Ledger.{ended_seq}
use occams_rpc.Client.Stream.Threads.{
  Threads, new_threads, counts, numbers, writes, registers, refuses, returned, errs, cleans,
  returns, Reach, start, later,
}
use occams_rpc.Client.Stream.Threads.Fate.{Reach-returned}
use occams_rpc.Client.Stream.Threads.Return.{Alone, here, more, steps, Goes, Reach-Goes}
use occams_rpc.Client.Stream.Threads.Stuck.{refused_stuck}

abbrev seq_of : ℕ × ℕ → ℕ
seq_of (n, name) = n

abbrev set_seq : ℕ → ℕ × ℕ → ℕ × ℕ
set_seq n (m, name) = (n, name)

-- The receiver is at its end when the task that was written is registered.
abbrev late : (s : Threads (ℕ × ℕ)) × Reach seq_of set_seq (new_threads 3 0) s
unfolding clean_pending_tasks drain
late = (
  _,
  later
      (later
        (later (later (later start (counts (0, 7) refl)) (numbers (0, 7) refl refl (omega arith)))
          (writes (1, 7) refl))
        (errs refl))
      (registers (1, 7) refl),
)

abbrev ended_late : (s : Threads (ℕ × ℕ)) × Reach seq_of set_seq (new_threads 3 0) s
unfolding clean_pending_tasks drain
ended_late = (_, later (later late.1 (cleans refl (omega arith))) (returns refl refl))

Reach-returned_example :
    (ended_late.0.stream.closed ≡ true)
    × (held seq_of ended_late.0.stream.timer ≡ [])
    × (ended_late.0.refused ≡ [])
    × ((n : ℕ)
        → (count_by seq_of n ended_late.0.given ≤ 1)
          × (count_by seq_of n ended_late.0.given
              ≡ count_by (ended_seq seq_of) n ended_late.0.ended
                + count_by seq_of n ended_late.0.answered
                + count_by seq_of n ended_late.0.failed))
unfolding ended_late
Reach-returned_example =
    Reach-returned seq_of set_seq (λ n x. refl) 3 0 ended_late.0 ended_late.1 refl

-- The receiver alone cleans up once, and returns.
abbrev alone : (v : Threads (ℕ × ℕ)) × Alone seq_of set_seq late.0 v
unfolding late clean_pending_tasks drain
alone = (_, more (cleans refl (omega arith)) tt (more (returns refl refl) tt here))

Reach-Goes_example : (steps seq_of set_seq alone.1 ≤ 2) × Goes seq_of set_seq alone.0
unfolding late
Reach-Goes_example =
    Reach-Goes seq_of set_seq (λ n x. refl) 3 0 late.0 late.1 refl refl refl alone.0 alone.1

-- The codec refuses a task, and the receiver comes to its end.
abbrev refused : (s : Threads (ℕ × ℕ)) × Reach seq_of set_seq (new_threads 3 0) s
refused = (
  _,
  later (later (later start (counts (0, 7) refl)) (numbers (0, 7) refl refl (omega arith)))
      (refuses (1, 7) refl),
)

abbrev waits : (s : Threads (ℕ × ℕ)) × Reach seq_of set_seq refused.0 s
unfolding clean_pending_tasks drain
waits = (_, later (later start (errs refl)) (cleans refl (omega arith)))

refused_stuck_example :
    (waits.0.receiver ≢ returned) × (0 < waits.0.stream.timer.pending_task_count)
refused_stuck_example =
    refused_stuck seq_of set_seq (λ n x. refl) 3 0 refused.0 waits.0 refused.1
      (λ e. absurd (ground arith)) waits.1
