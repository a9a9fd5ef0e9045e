-- ===== src/Client/Stream/Loop.antt =====
-- stream/src/client/stream.rs: `receive_loop` with `ReceiverTimerFuture`, `set_error_and_exit`, and the
-- end of the receiving side. What `recv_some` does when it is polled is a parameter; no sender is
-- between two steps of it at the end.
pub mod Exit
use occams_rpc.Base.{
  ℕ, zero, suc, Bool, true, false, Option, none, some, List, [], ◌∷◌, ◌++◌, ltb, if◌then◌else◌,
}
use occams_rpc.Base.Result.{Result, ok, err}
use occams_rpc.Error.{RpcIntErr}
use occams_rpc.Client.Timer.{adjust_task_queue, poll_sent_task, clean_pending_tasks}
use occams_rpc.Client.Stream.{Done, Stream}

-- The tasks handed to `error_handle`, and the stream.
abbrev pub Ending : Type 0 → Type 0
Ending T = List (T × RpcIntErr) × Stream T

module _ {T : Type 0} where
  -- The stream's own part of `set_error_and_exit`.
  abbrev pub set_error_and_exit : Stream T → Stream T
  set_error_and_exit s = record s { has_err = true }

  abbrev pub and_then : List (T × RpcIntErr) → Option (Ending T) → Option (Ending T)
  and_then out none = none
  and_then out (some (more, s)) = some (out ++ more, s)

module _ {T : Type 0} (seq : T → ℕ) where
  -- `time_reach`
  abbrev pub time_reach : Stream T → Ending T
  time_reach s =
      ((adjust_task_queue seq s.timer).0, record s { timer = (adjust_task_queue seq s.timer).1 })

  abbrev pub times_reached : ℕ → Stream T → Ending T
  times_reached zero s = ([], s)
  times_reached (suc ticks) s =
      let (more, s') = times_reached ticks (time_reach s).1 in ((time_reach s).0 ++ more, s')

  abbrev pub cleaned : Stream T → Ending T
  cleaned s = (
    (clean_pending_tasks seq s.timer).0,
    record s { timer = (clean_pending_tasks seq s.timer).1 },
  )

  -- `while pending_task_count > 0`, for as many rounds as the fuel: none, when it still runs.
  abbrev pub exit_rounds : ℕ → Stream T → Option (Ending T)
  exit_rounds zero s = none
  exit_rounds (suc fuel) s =
      let rest = exit_rounds fuel (cleaned s).1 in
      if ltb 0 s.timer.pending_task_count then and_then (cleaned s).0 rest else some ([], s)

  -- What `receive_loop` does with an error, no sender making a step meanwhile; for one that does, see
  -- Client.Stream.Threads.
  abbrev pub receive_exit : ℕ → Stream T → Option (Ending T)
  receive_exit fuel s =
      and_then (cleaned (record s { closed = true })).0
        (exit_rounds fuel (cleaned (record s { closed = true })).1)

  module _ (recv_some : Stream T → Option Done × Stream T) where
    -- `ReceiverTimerFuture::poll` behind the ticks: the flag first, then the channel, then the reader.
    abbrev pub polled : Stream T → Option Done × Stream T
    polled s =
        if s.has_err
        then (some (err RpcIntErr.io), s)
        else recv_some (record s { timer = (poll_sent_task seq s.timer).1 })

    abbrev pub after_poll :
        ℕ → (Stream T → Option (Ending T)) → Option Done × Stream T → Option (Ending T)
    after_poll fuel again (none, s) = again s
    after_poll fuel again (some (ok u), s) = again s
    after_poll fuel again (some (err e), s) = receive_exit fuel s

    -- `receive_loop`, polled with so many ticks each time: none, when it still runs.
    abbrev pub receive_loop : ℕ → List ℕ → Stream T → Option (Ending T)
    receive_loop fuel [] s = none
    receive_loop fuel (ticks ∷ polls) s =
        and_then (times_reached ticks s).0
          (after_poll fuel (receive_loop fuel polls) (polled (times_reached ticks s).1))
