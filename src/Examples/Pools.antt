-- ===== src/Examples/Pools.antt =====
-- stream/src/client at concrete runs: the workers of pool.rs, the timer of timer.rs, the end of the
-- receiving side of stream.rs.
use occams_rpc.Base.{ℕ, ◌≡◌, refl, true, false, some, none, List, [], ◌∷◌, arith, map}
use occams_rpc.Client.Pool.Monitor.{
  Crew, monitoring, Reach, start, later, connect_fails, connects, send_req, monitor_sends,
  monitor_hands_on, new_crew,
}
use occams_rpc.Client.Timer.{
  new_timer, take_task, drain, adjust_task_queue, clean_pending_tasks, wait_reg_task,
}
use occams_rpc.Error.{RpcIntErr}
use occams_rpc.Client.Timer.Order.{IsOrdered}
use occams_rpc.Client.Timer.Held.{held}
use occams_rpc.Client.Stream.{Stream, new_stream}
use occams_rpc.Client.Stream.Loop.{receive_loop, set_error_and_exit}
use occams_rpc.Client.Stream.Loop.Exit.{set_error_and_exit_lem}
use occams_rpc.Client.Timer.Life as Lives
use occams_rpc.Client.Timer.Life.{Life, new_life, registers, takes, ticks, cleans}
use occams_rpc.Client.Timer.Life.Ledger.{IsAccounted, Reach-IsAccounted}
use occams_rpc.Client.Pool.Monitor.Invariant.{IsCrew, Reach-IsCrew}
use occams_rpc.Client.Pool.Monitor.Health.{unhealthy_forever}

-- The first connection fails, the second does not, and two tasks are sent, the second behind the first
-- while that is in flight: the monitoring is handed on.
busy : (c : Crew ℕ) × Reach new_crew c × (c.pool.worker_count ≡ 2) × (c.pool.is_ok ≡ false)
busy = (
  _,
  later
      (later
        (later
          (later (later (later start (connect_fails 0 [] [] refl)) (connects 0 [] [] refl))
            (send_req 5 refl))
          (monitor_sends [] [] 5 [] true refl refl))
        (send_req 6 refl))
      (monitor_hands_on [] [] 6 [] true refl refl refl),
  refl,
  refl,
)

Reach-IsCrew_example : IsCrew busy.0
Reach-IsCrew_example = Reach-IsCrew busy.1

-- It is not healthy, and its monitor connects once more and sends a task.
abbrev once_failed : Crew ℕ
once_failed = record new_crew {
  pool = record { rx = 5 ∷ []; is_ok = false; worker_count = 1; connected_worker_count = 0 };
}

rerun : (c : Crew ℕ) × Reach once_failed c × (c.workers ≡ monitoring ∷ [])
rerun =
    (_, later (later start (connects 0 [] [] refl)) (monitor_sends [] [] 5 [] true refl refl), refl)

unhealthy_forever_example : rerun.0.pool.is_ok ≡ false
unhealthy_forever_example = unhealthy_forever rerun.1 refl

-- Three tasks are registered; the first is taken by its response, a second passes, and the connection
-- ends.
short_life :
    (l : Life ℕ) × Lives.Reach (λ x. x) (new_life 5 4) l
    × (l.answered ≡ 1 ∷ [])
    × (map (λ x. x.0) l.ended ≡ 3 ∷ 2 ∷ [])
unfolding take_task drain adjust_task_queue clean_pending_tasks wait_reg_task
short_life = (
  _,
  Lives.Reach.later
      (Lives.Reach.later
        (Lives.Reach.later
          (Lives.Reach.later
            (Lives.Reach.later (Lives.Reach.later Lives.Reach.start (registers 1 (omega arith, tt)))
              (registers 2 (omega arith, (omega arith, tt))))
            (takes 1))
          ticks)
        (registers 3 (omega arith, tt)))
      cleans,
  refl,
  refl,
)

Reach-IsAccounted_example : IsAccounted (λ x. x) short_life.0
Reach-IsAccounted_example = Reach-IsAccounted (λ x. x) 5 4 short_life.1

-- A stream with two tasks in the channel of its timer.
abbrev two_pending : Stream ℕ
two_pending = record (new_stream 5 4) {
  timer = record (new_timer 5 4).0 { pending_tasks = 1 ∷ 2 ∷ []; pending_task_count = 2 };
}

two_pending-IsOrdered : IsOrdered (λ x. x) two_pending.timer
two_pending-IsOrdered = record {
  layered = (0, omega arith, tt, tt, omega arith);
  keyed = (tt, tt);
  rising = (omega arith, (omega arith, tt));
}

set_error_and_exit_lem_example :
    (out : List (ℕ × RpcIntErr)) × (s' : Stream ℕ) × (receive_loop
        (λ x. x)
        (λ s. (none, s))
        1
        (3 ∷ [])
        (set_error_and_exit two_pending)
      ≡ some (out, s'))
    × (s'.closed ≡ true)
    × (held (λ x. x) s'.timer ≡ [])
    × (s'.timer.pending_task_count ≡ 0)
set_error_and_exit_lem_example =
    set_error_and_exit_lem (λ x. x) (λ s. (none, s)) 0 3 [] two_pending two_pending-IsOrdered refl
      (omega arith)

-- The codec has refused a task before.
abbrev one_too_many : Stream ℕ
one_too_many = record (new_stream 5 4) {
  timer = record (new_timer 5 4).0 { pending_tasks = 2 ∷ []; pending_task_count = 2 };
}
