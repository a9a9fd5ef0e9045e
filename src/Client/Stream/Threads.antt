-- ===== src/Client/Stream/Threads.antt =====
-- stream/src/client/stream.rs: the sender and the receiver of one connection at once. A step of either
-- goes from one await, or one look at a shared flag or counter, to the next. What the codec, the
-- transport and the reader of responses do is open; a call of the sender is run to its end.
-- `registered`, `ended` and `answered`, `given`, `refused`, `failed` and `turned` are a log that no
-- step reads.
pub mod Front
pub mod Sound
pub mod Phases
pub mod Sending
pub mod Receiving
pub mod Ending
pub mod Fate
pub mod Return
pub mod Stuck
use occams_rpc.Base.{ℕ, suc, ◌+◌, ◌^◌, ◌<◌, ◌≡◌, Bool, true, false, List, [], ◌∷◌}
use occams_rpc.Error.{RpcIntErr}
use occams_rpc.Client.Timer.{
  Timer, take_task, poll_sent_task, check_pending_tasks_empty, adjust_task_queue,
  clean_pending_tasks,
}
use occams_rpc.Client.Timer.Life.{Life, answer, ends}
use occams_rpc.Client.Stream.{
  Stream, new_stream, count_up, count_down, seq_updated, broken, registered, stopped, drop_stream,
}

-- Where the sender is: outside of a call; behind the count of a task; with a numbered task that is
-- being encoded and written; with one that is written; or dropped.
pub data Sender (T : Type 0) : Type 0 where
  idle : Sender T
  counted : T → Sender T
  writing : T → Sender T
  written : T → Sender T
  dropped : Sender T

-- Where the receiver is: in its loop, in the loop of its end, or returned.
pub data Receiver : Type 0 where
  running cleaning returned : Receiver

pub record Threads (T : Type 0) : Type 0 where
  pub stream : Stream T
  pub sender : Sender T
  pub receiver : Receiver
  pub registered_log : List T
  pub ended : List (T × RpcIntErr)
  pub answered : List T
  pub given : List T
  pub refused : List T
  pub failed : List T
  pub turned : List T

module _ {T : Type 0} where
  -- The timer with its log.
  abbrev pub life_of : Threads T → Life T
  life_of s = record {
    timer = s.stream.timer;
    registered = s.registered_log;
    ended = s.ended;
    answered = s.answered;
  }

  abbrev pub with_life : Life T → Threads T → Threads T
  with_life l s = record s {
    stream = record s.stream { timer = l.timer };
    registered_log = l.registered;
    ended = l.ended;
    answered = l.answered;
  }

  abbrev pub close : Threads T → Threads T
  close s = record s { stream = record s.stream { closed = true } }

  -- `ClientStream::new`
  abbrev pub new_threads : ℕ → ℕ → Threads T
  new_threads timeout thresholds = record {
    stream = new_stream timeout thresholds;
    sender = idle;
    receiver = running;
    registered_log = [];
    ended = [];
    answered = [];
    given = [];
    refused = [];
    failed = [];
    turned = [];
  }

module _ {T : Type 0} (seq_of : T → ℕ) where
  -- A write that failed: `send_request` ends the task with IO, and `send_task` sets the flags.
  abbrev pub write_failed : T → Threads T → Threads T
  write_failed t s = record s {
    stream = stopped seq_of (count_down (broken s.stream));
    sender = idle;
    failed = t ∷ s.failed;
  }

  -- What the receiver does with an error, up to the loop of its end.
  abbrev pub receive_failed : Threads T → Threads T
  receive_failed s =
      let s' = close s in
      record (with_life (ends (clean_pending_tasks seq_of s'.stream.timer) (life_of s')) s') {
        receiver = cleaning;
      }

module _ {T : Type 0} (seq_of : T → ℕ) (set_seq : ℕ → T → T) where
  pub data Step (s : Threads T) : Threads T → Type 0 where
    -- `send_task`: the count, the look at the flag, the number, the codec, the write, the registration.
    counts :
        (task : T)
        → s.sender ≡ idle
        → Step s (record s { stream = count_up s.stream; sender = counted task })
    sees_closed :
        (task : T)
        → s.sender ≡ counted task
        → s.stream.closed ≡ true
        → Step s
            (record s { stream = count_down s.stream; sender = idle; turned = task ∷ s.turned })
    numbers :
        (task : T)
        → s.sender ≡ counted task
        → s.stream.closed ≡ false
        → suc s.stream.seq < 2 ^ 64
        → Step s (record s {
          stream = seq_updated s.stream;
          sender = writing (set_seq s.stream.seq task);
          given = set_seq s.stream.seq task ∷ s.given;
        })
    refuses :
        (t : T)
        → s.sender ≡ writing t
        → Step s (record s { stream = broken s.stream; sender = idle; refused = t ∷ s.refused })
    fails : (t : T) → s.sender ≡ writing t → Step s (write_failed seq_of t s)
    writes : (t : T) → s.sender ≡ writing t → Step s (record s { sender = written t })
    registers :
        (t : T)
        → s.sender ≡ written t
        → Step s (record s {
          stream = registered seq_of t s.stream;
          sender = idle;
          registered_log = t ∷ s.registered_log;
        })
    -- A flush that fails, a ping, which takes a number, one that fails, and the drop.
    flush_fails : s.sender ≡ idle → Step s (record s { stream = stopped seq_of (broken s.stream) })
    pings :
        s.sender ≡ idle
        → suc s.stream.seq < 2 ^ 64
        → Step s (record s { stream = seq_updated s.stream })
    ping_fails : s.sender ≡ idle → Step s (close s)
    drops :
        s.sender ≡ idle
        → Step s (record s { stream = drop_stream seq_of s.stream; sender = dropped })
    -- `set_error_and_exit`, between two calls of the sender.
    sets_error : s.sender ≡ idle → Step s (record s { stream = record s.stream { has_err = true } })
    -- `receive_loop`: ticks, the channel, the reader of responses, the end of the connection.
    ticks :
        s.receiver ≡ running
        → Step s (with_life (ends (adjust_task_queue seq_of s.stream.timer) (life_of s)) s)
    polls :
        s.receiver ≡ running
        → Step s
            (with_life (record (life_of s) { timer = (poll_sent_task seq_of s.stream.timer).1 }) s)
    checks :
        s.receiver ≡ running
        → Step s (
            with_life
              (record (life_of s) { timer = (check_pending_tasks_empty seq_of s.stream.timer).1 })
              s)
    takes :
        (k : ℕ)
        → s.receiver ≡ running
        → Step s (with_life (answer (take_task seq_of k s.stream.timer) (life_of s)) s)
    closes : s.receiver ≡ running → Step s (close s)
    errs : s.receiver ≡ running → Step s (receive_failed seq_of s)
    -- The loop of the end, while the count is above 0.
    cleans :
        s.receiver ≡ cleaning
        → 0 < s.stream.timer.pending_task_count
        → Step s (with_life (ends (clean_pending_tasks seq_of s.stream.timer) (life_of s)) s)
    returns :
        s.receiver ≡ cleaning
        → s.stream.timer.pending_task_count ≡ 0
        → Step s (record s { receiver = returned })

  pub data Reach (s : Threads T) : Threads T → Type 0 where
    start : Reach s s
    later : {u v : Threads T} → Reach s u → Step u v → Reach s v
