-- ===== src/Client/Timer/Life.antt =====
-- The life of a task in `ClientTaskTimer` (stream/src/client/timer.rs), over any sequence of its
-- operations. `registered`, `ended` and `answered` are a log that no operation reads.
pub mod Kept
pub mod Ledger
use occams_rpc.Base.{ℕ, suc, Option, none, some, List, [], ◌∷◌, ◌++◌}
use occams_rpc.Error.{RpcIntErr}
use occams_rpc.Client.Timer.{
  Poll, ready, pending, Timer, new_timer, reg_task, stop_reg_task, poll_sent_task,
  clean_pending_tasks, check_pending_tasks_empty, take_task, adjust_task_queue,
}
use occams_rpc.Client.Timer.Order.{Rising}

pub record Life (T : Type 0) : Type 0 where
  pub timer : Timer T
  pub registered : List T
  pub ended : List (T × RpcIntErr)
  pub answered : List T

module _ {T : Type 0} where
  -- What `take_task` gives to the reader of the response.
  abbrev pub answer : Poll (Option T) × Timer T → Life T → Life T
  answer (pending, t) l = record l { timer = t }
  answer (ready none, t) l = record l { timer = t }
  answer (ready (some x), t) l = record l { timer = t; answered = x ∷ l.answered }

  -- The tasks that an operation hands to `error_handle`.
  abbrev pub ends : List (T × RpcIntErr) × Timer T → Life T → Life T
  ends (out, t) l = record l { timer = t; ended = out ++ l.ended }

  module _ (seq : T → ℕ) where
    pub data Step (l : Life T) : Life T → Type 0 where
      -- `send_task` gives each task a number above all that were given before.
      registers :
          (x : T)
          → Rising seq (suc l.timer.processed_seq) (l.timer.pending_tasks ++ (x ∷ []))
          → Step l (record l { timer = reg_task seq x l.timer; registered = x ∷ l.registered })
      stops : Step l (record l { timer = stop_reg_task seq l.timer })
      polls : Step l (record l { timer = (poll_sent_task seq l.timer).1 })
      checks : Step l (record l { timer = (check_pending_tasks_empty seq l.timer).1 })
      takes : (k : ℕ) → Step l (answer (take_task seq k l.timer) l)
      ticks : Step l (ends (adjust_task_queue seq l.timer) l)
      cleans : Step l (ends (clean_pending_tasks seq l.timer) l)

    pub data Reach (l : Life T) : Life T → Type 0 where
      start : Reach l l
      later : {u v : Life T} → Reach l u → Step u v → Reach l v

-- `ClientTaskTimer::new`
abbrev pub new_life : {T : Type 0} → ℕ → ℕ → Life T
new_life timeout thresholds = record {
  timer = (new_timer timeout thresholds).0;
  registered = [];
  ended = [];
  answered = [];
}
