-- ===== src/Client/Stream/Loop/Exit.antt =====
-- The end of the receiving side (`receive_loop` of stream/src/client/stream.rs).
use occams_rpc.Base.{
  ℕ, zero, suc, ◌-◌, ◌≤◌, ◌<◌, ◌≡◌, refl, sym, ap, ◌∙◌, true, false, Bool-cases, inl, inr, Option,
  none, some, List, [], ◌∷◌, ◌++◌, arith, length, append-nil, ltb,
}
use occams_rpc.Base.Int.{IsU64}
use occams_rpc.Error.{RpcIntErr}
use occams_rpc.Client.Timer.{
  Timer, fetch_sub_one, got_pending_task, got_all, drain, ended, clean_pending_tasks,
  batch_timed_out, adjust_task_queue,
}
use occams_rpc.Client.Timer.Order.{IsOrdered, adjust_task_queue-IsOrdered}
use occams_rpc.Client.Timer.Held.{held}
use occams_rpc.Client.Timer.Expiry.{adjust_task_queue_keeps, clean_pending_tasks_lem}
use occams_rpc.Client.Stream.{Done, Stream}
use occams_rpc.Client.Stream.Loop.{
  and_then, cleaned, exit_rounds, receive_exit, time_reach, times_reached, set_error_and_exit,
  receive_loop,
}

module _ {T : Type 0} (seq : T → ℕ) where
  got_all-count :
      (xs : List T) (t : Timer T)
      → length xs ≤ t.pending_task_count
      → IsU64 t.pending_task_count
      → (got_all seq xs t).pending_task_count ≡ t.pending_task_count - length xs
  got_all-count [] t h u = omega arith
  got_all-count (x ∷ xs) t h u =
      let one : fetch_sub_one t.pending_task_count ≡ t.pending_task_count - 1 = omega arith in
      got_all-count xs (got_pending_task seq x t) (omega (arith, one)) (omega (arith, one))
      ∙ omega (arith, one)

  got_all-pending : (xs : List T) (t : Timer T) → (got_all seq xs t).pending_tasks ≡ t.pending_tasks
  got_all-pending [] t = refl
  got_all-pending (x ∷ xs) t = got_all-pending xs (got_pending_task seq x t)

  -- Each task that was in the channel is counted down once.
  cleaned-count :
      (s : Stream T)
      → length s.timer.pending_tasks ≤ s.timer.pending_task_count
      → IsU64 s.timer.pending_task_count
      → ((cleaned seq s).1.timer.pending_task_count
          ≡ s.timer.pending_task_count - length s.timer.pending_tasks)
        × ((cleaned seq s).1.timer.pending_tasks ≡ [])
  unfolding clean_pending_tasks drain
  cleaned-count s h u = (
    got_all-count s.timer.pending_tasks (record s.timer { pending_tasks = [] }) h u,
    got_all-pending s.timer.pending_tasks (record s.timer { pending_tasks = [] }),
  )

  stuck_rounds :
      (fuel : ℕ) (s : Stream T)
      → length s.timer.pending_tasks < s.timer.pending_task_count
      → IsU64 s.timer.pending_task_count
      → exit_rounds seq fuel s ≡ none
  stuck_rounds zero s h u = refl
  stuck_rounds (suc fuel) s h u =
      let (c, e) = cleaned-count s (omega arith) u in
      let runs : ltb 0 s.timer.pending_task_count ≡ true = ground arith in
      rw
        (
          runs,
          stuck_rounds fuel (cleaned seq s).1 (omega (arith, c, ap length e)) (omega (arith, c)),
        )
        refl

  -- When more tasks are counted as pending than wait in the channel, and no sender registers one or takes
  -- its count back meanwhile, the receiving side never ends: however many rounds it is given, it waits.
  pub receive_exit-stuck :
      (fuel : ℕ) (s : Stream T)
      → length s.timer.pending_tasks < s.timer.pending_task_count
      → IsU64 s.timer.pending_task_count
      → receive_exit seq fuel s ≡ none
  receive_exit-stuck fuel s h u =
      let (c, e) = cleaned-count (record s { closed = true }) (omega arith) u in
      ap (and_then (cleaned seq (record s { closed = true })).0) (
        stuck_rounds fuel (cleaned seq (record s { closed = true })).1
          (omega (arith, c, ap length e)) (omega (arith, c)))

  -- When the tasks that are counted as pending are those in the channel, the receiving side ends in its
  -- first round: it closes the stream, each task that was held, in the maps or in the channel, ends
  -- exactly once with IO, none is held any more, and none is counted.
  pub receive_exit_lem :
      (fuel : ℕ) (s : Stream T)
      → IsOrdered seq s.timer
      → s.timer.pending_task_count ≡ length s.timer.pending_tasks
      → IsU64 s.timer.pending_task_count
      → (s' : Stream T) × (receive_exit seq (suc fuel) s
          ≡ some (ended seq RpcIntErr.io (held seq s.timer), s'))
        × (s'.closed ≡ true)
        × (held seq s'.timer ≡ [])
        × (s'.timer.pending_task_count ≡ 0)
  receive_exit_lem fuel s o h u =
      let c = cleaned-count (record s { closed = true }) (omega arith) u in
      let zero_left : (cleaned seq (record s { closed = true })).1.timer.pending_task_count ≡ 0 =
        omega (arith, c.0) in
      let done : ltb 0 (cleaned seq (record s { closed = true })).1.timer.pending_task_count
          ≡ false =
        ground arith in
      let (e, z) = clean_pending_tasks_lem seq s.timer o in
      (
        (cleaned seq (record s { closed = true })).1,
        rw done (
            ap (λ out. some (out, (cleaned seq (record s { closed = true })).1))
              (append-nil _ ∙ e)),
        refl,
        z,
        zero_left,
      )

  adjust_task_queue-count :
      (t : Timer T) → (adjust_task_queue seq t).1.pending_task_count ≡ t.pending_task_count
  unfolding adjust_task_queue
  adjust_task_queue-count t =
      elim (Bool-cases (ltb t.task_timeout (suc (length t.delay_tasks_queue)))) [
        | inl full ↦ rw full (timed_out-count _ _)
        | inr room ↦ rw room refl
      ]
    where
      timed_out-count :
          (m : List (ℕ × T)) (u : Timer T)
          → (batch_timed_out seq m u).1.pending_task_count ≡ u.pending_task_count
      timed_out-count [] u = refl
      timed_out-count (x ∷ m) u = refl

  -- What the ticks leave as it was.
  times_reached-kept :
      (ticks : ℕ) (s : Stream T)
      → IsOrdered seq s.timer
      → let s' = (times_reached seq ticks s).1 in
        (s'.has_err ≡ s.has_err)
        × IsOrdered seq s'.timer
        × (s'.timer.pending_tasks ≡ s.timer.pending_tasks)
        × (s'.timer.pending_task_count ≡ s.timer.pending_task_count)
  times_reached-kept zero s o = (refl, o, refl, refl)
  times_reached-kept (suc ticks) s o =
      let (h, i, p, c) =
        times_reached-kept ticks (time_reach seq s).1 (adjust_task_queue-IsOrdered seq s.timer o) in
      (h, i, p ∙ (adjust_task_queue_keeps seq s.timer).1, c ∙ adjust_task_queue-count s.timer)

  -- A stream that set_error_and_exit was called on ends at the next time its receiving side is polled,
  -- whatever the reader of responses would do and however many ticks have come: it is closed, no task is
  -- held any more, and none is counted. The conditions: the timer is in order, and the tasks that are
  -- counted as pending are those in the channel.
  pub set_error_and_exit_lem :
      (recv_some : Stream T → Option Done × Stream T) (fuel ticks : ℕ) (polls : List ℕ)
      (s : Stream T)
      → IsOrdered seq s.timer
      → s.timer.pending_task_count ≡ length s.timer.pending_tasks
      → IsU64 s.timer.pending_task_count
      → (out : List (T × RpcIntErr)) × (s' : Stream T) × (receive_loop seq recv_some
            (suc fuel)
            (ticks ∷ polls)
            (set_error_and_exit s)
          ≡ some (out, s'))
        × (s'.closed ≡ true)
        × (held seq s'.timer ≡ [])
        × (s'.timer.pending_task_count ≡ 0)
  set_error_and_exit_lem recv_some fuel ticks polls s o e u =
      let reached = times_reached seq ticks (set_error_and_exit s) in
      let (h, i, p, c) = times_reached-kept ticks (set_error_and_exit s) o in
      let (s', r, x, y, z) =
        receive_exit_lem fuel reached.1 i (c ∙ (e ∙ ap length (sym p))) (rw c u) in
      (
        reached.0 ++ ended seq RpcIntErr.io (held seq reached.1.timer),
        s',
        rw h (ap (and_then reached.0) r),
        x,
        y,
        z,
      )
