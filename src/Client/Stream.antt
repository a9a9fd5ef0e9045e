-- ===== src/Client/Stream.antt =====
-- stream/src/client/stream.rs and throttler.rs: `ClientStreamInner`, one connection of the client. The
-- codec and the transport are parameters: whether a task is encoded, whether a request is written or a
-- flush succeeds, and what reading a response does.
pub mod Send
pub mod Receive
pub mod Loop
pub mod Threads
use occams_rpc.Base.{
  ℕ, zero, suc, ◌+◌, ◌^◌, ◌%◌, Bool, true, false, not, ◌||◌, ◌&&◌, Option, none, some, List, [],
  ◌∷◌, ltb, leb, ◌==◌, if◌then◌else◌,
}
use occams_rpc.Base.Result.{Result, ok, err}
use occams_rpc.Error.{RpcIntErr}
use occams_rpc.Client.Timer.{
  Timer, new_timer, fetch_add_one, fetch_sub_one, reg_task, stop_reg_task,
  check_pending_tasks_empty,
}

-- `Throttler`: the guards that are held, and the threshold.
pub record Throttler : Type 0 where
  pub left : ℕ
  pub thresholds : ℕ

abbrev pub nearly_full : Throttler → Bool
nearly_full t = ltb t.thresholds (t.left + 1)

abbrev pub is_full : Throttler → Bool
is_full t = leb t.thresholds t.left

abbrev pub add_task : Throttler → Throttler
add_task t = record t { left = t.left + 1 }

-- `ClientStreamInner`
pub record Stream (T : Type 0) : Type 0 where
  pub timer : Timer T
  pub seq : ℕ
  pub closed : Bool
  pub has_err : Bool
  pub throttler : Throttler

-- `new`, with the thresholds and the timeout of the configuration
abbrev pub new_stream : {T : Type 0} → ℕ → ℕ → Stream T
new_stream timeout thresholds =
    let n = if thresholds == 0 then 128 else thresholds in
    record {
      timer = (new_timer timeout n).0;
      seq = 1;
      closed = false;
      has_err = false;
      throttler = record { left = 0; thresholds = n };
    }

-- Done, or the error.
abbrev pub Done : Type 0
Done = Result {0, 0} RpcIntErr Unit

-- What an operation gives: its result, the tasks handed to `error_handle`, and the stream after it.
abbrev pub Outcome : Type 0 → Type 0
Outcome T = Done × List (T × RpcIntErr) × Stream T

module _ {T : Type 0} where
  abbrev pub count_up : Stream T → Stream T
  count_up s = record s {
    timer = record s.timer { pending_task_count = fetch_add_one s.timer.pending_task_count };
  }

  abbrev pub count_down : Stream T → Stream T
  count_down s = record s {
    timer = record s.timer { pending_task_count = fetch_sub_one s.timer.pending_task_count };
  }

  -- `seq_update`, the stream after it; the number is the one before it.
  abbrev pub seq_updated : Stream T → Stream T
  seq_updated s = record s { seq = (s.seq + 1) % 2 ^ 64 }

  -- The flags that a failed write or flush sets.
  abbrev pub broken : Stream T → Stream T
  broken s = record s { closed = true; has_err = true }

  abbrev pub registered : (T → ℕ) → T → Stream T → Stream T
  registered seq_of task s = record s {
    timer = reg_task seq_of task s.timer;
    throttler = add_task s.throttler;
  }

  abbrev pub stopped : (T → ℕ) → Stream T → Stream T
  stopped seq_of s = record s { timer = stop_reg_task seq_of s.timer }

module _ {T : Type 0} (seq_of : T → ℕ) (set_seq : ℕ → T → T) (encodes : T → Bool)
    (writes : Bool → T → Bool) where
  -- `send_request`: a task that is not encoded is dropped, one that is not written ends with IO.
  unfoldable pub send_request : T → Bool → Stream T → Outcome T
  send_request task need_flush s =
      let t = set_seq s.seq task in
      let s' = seq_updated s in
      if not (encodes t)
      then (err RpcIntErr.encode, [], s')
      else if writes need_flush t
      then (ok tt, [], registered seq_of t s')
      else (err RpcIntErr.io, (t, RpcIntErr.io) ∷ [], stopped seq_of (count_down (broken s')))

  abbrev pub request_sent : Outcome T → Outcome T
  request_sent (ok u, out, s) = (ok u, out, s)
  request_sent (err e, out, s) = (err RpcIntErr.io, out, broken s)

  -- `send_task`, up to the wait for the throttler, which changes nothing here
  unfoldable pub send_task : T → Bool → Stream T → Outcome T
  send_task task need_flush s =
      let s' = count_up s in
      if s.closed
      then (err RpcIntErr.io, (task, RpcIntErr.io) ∷ [], count_down s')
      else request_sent (send_request task (need_flush || nearly_full s.throttler) s')

module _ {T : Type 0} (seq_of : T → ℕ) where
  -- `flush_req`, by whether the transport's flush succeeds
  unfoldable pub flush_req : Bool → Stream T → Done × Stream T
  flush_req true s = (ok tt, s)
  flush_req false s = (err RpcIntErr.io, stopped seq_of (broken s))

  -- `send_ping_req`, by whether the ping is written
  unfoldable pub send_ping_req : Bool → Stream T → Done × Stream T
  send_ping_req written s =
      if s.closed
      then (err RpcIntErr.io, s)
      else if written
      then (ok tt, seq_updated s)
      else (err RpcIntErr.io, record (seq_updated s) { closed = true })

  -- `ClientStream::drop`, for the stream's own state
  unfoldable pub drop_stream : Stream T → Stream T
  drop_stream s = record (stopped seq_of s) { closed = true }

  module _ (read_resp : Bool → Stream T → Result RpcIntErr Bool × Stream T) where
    abbrev pub after_closed_read :
        (Stream T → Option (Done) × Stream T)
        → Result RpcIntErr Bool × Stream T
        → Option (Done) × Stream T
    after_closed_read again (ok r, s) = again s
    after_closed_read again (err e, s) = (some (err RpcIntErr.io), record s { closed = true })

    abbrev pub after_open_read :
        (Stream T → Option (Done) × Stream T)
        → Result RpcIntErr Bool × Stream T
        → Option (Done) × Stream T
    after_open_read again (ok true, s) = again s
    after_open_read again (ok false, s) = again (record s { closed = true })
    after_open_read again (err e, s) = (some (err RpcIntErr.io), s)

    -- One round of the loop of `recv_one_resp`. `read_resp` is called with whether it may be woken by
    -- the close channel.
    abbrev pub recv_round :
        (Stream T → Option (Done) × Stream T) → Stream T → Option (Done) × Stream T
    recv_round again s =
        let checked = check_pending_tasks_empty seq_of s.timer in
        let s' = record s { timer = checked.1 } in
        if s.closed
        then if checked.0 || s.has_err
          then (some (err RpcIntErr.io), s')
          else after_closed_read again (read_resp false s')
        else after_open_read again (read_resp true s)

    -- `recv_one_resp`, for as many rounds as the fuel: none, when it is still reading
    abbrev pub recv_one_resp : ℕ → Stream T → Option (Done) × Stream T
    recv_one_resp zero s = (none, s)
    recv_one_resp (suc fuel) s = recv_round (recv_one_resp fuel) s

    abbrev pub stamped :
        (Stream T → ℕ → Option (Done) × Stream T × ℕ)
        → ℕ
        → Option (Done) × Stream T
        → Option (Done) × Stream T × ℕ
    stamped again stamps (none, s) = (none, s, stamps)
    stamped again stamps (some (err e), s) = (some (err e), s, stamps)
    stamped again stamps (some (ok u), s) = again s (suc stamps)

    -- The loop of `recv_some`, with how often `last_resp_ts` was stored
    abbrev pub recv_times : ℕ → ℕ → Stream T → ℕ → Option (Done) × Stream T × ℕ
    recv_times zero fuel s stamps = (some (ok tt), s, stamps)
    recv_times (suc n) fuel s stamps = stamped (recv_times n fuel) stamps (recv_one_resp fuel s)

    unfoldable pub recv_some : ℕ → Stream T → Option (Done) × Stream T × ℕ
    recv_some fuel s = recv_times 20 fuel s 0
