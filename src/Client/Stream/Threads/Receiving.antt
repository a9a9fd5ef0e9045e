-- ===== src/Client/Stream/Threads/Receiving.antt =====
-- The steps of a ClientStream (stream/src/client/stream.rs) that are outside of a call of the sender, and
-- those of its receiver, keep what stays true.
use occams_rpc.Base.{
  ℕ, suc, ◌+◌, ◌^◌, ◌%◌, ◌≤◌, ◌<◌, ◌≡◌, refl, sym, subst, Bool, true, inl, inr, arith,
}
use occams_rpc.Client.Timer.{
  Timer, Poll, ready, pending, take_task, poll_sent_task, check_pending_tasks_empty,
  adjust_task_queue,
}
use occams_rpc.Base.{Option, some, none}
use occams_rpc.Client.Timer.Life.{
  Life, answer, ends, polls as life_polls, checks as life_checks, takes as life_takes,
  ticks as life_ticks,
}
use occams_rpc.Client.Timer.Life.Ledger.{Step-IsAccounted}
use occams_rpc.Client.Stream.{seq_updated, broken, stopped, drop_stream}
use occams_rpc.Client.Stream.Threads.{
  Sender, idle, dropped, running, Threads, life_of, with_life, close,
}
use occams_rpc.Client.Stream.Threads.Front.{Front, check-Front, take-Front, adjust-Same}
use occams_rpc.Client.Stream.Threads.Sound.{
  IsSoundAt, IsSound, Phase, Rises-mono, flags-IsAccounted, with_life-IsSound,
}
use occams_rpc.Client.Stream.Threads.Phases.{Phase-closed, Phase-idle}

module _ {T : Type 0} (seq_of : T → ℕ) where
  -- Flags are set, the next number rises.
  idle-IsSound :
      (s : Threads T) (e f : Bool) (n : ℕ)
      → s.stream.seq ≤ n
      → n < 2 ^ 64
      → IsSoundAt seq_of idle s
      → IsSoundAt seq_of idle (record s {
        stream = record s.stream {
          timer = record s.stream.timer { reg_stopped_flag = f };
          seq = n;
          has_err = e;
        };
      })
  idle-IsSound s e f n l u h = record {
    account = flags-IsAccounted seq_of (life_of s) s.stream.timer.pending_task_count f h.account;
    front = record {
      rises =
          Rises-mono seq_of (suc s.stream.timer.processed_seq) s.stream.timer.pending_tasks
            s.stream.seq n l h.front.rises;
      count = h.front.count;
    };
    hand = tt;
    few = omega (arith, h.few, l);
    below = u;
    given_count = h.given_count;
    phase =
        Phase-idle seq_of s.receiver s.stream.closed s.stream.timer idle idle
          s.stream.timer.pending_task_count f tt h.phase;
    fresh = (h.fresh.0, λ k le. h.fresh.1 k (omega (arith, l, le)));
    settled = h.settled;
  }

  pub close-IsSoundAt :
      (x : Sender T) (s : Threads T) → IsSoundAt seq_of x s → IsSoundAt seq_of x (close s)
  close-IsSoundAt x s h = record {
    account = h.account;
    front = record { rises = h.front.rises; count = h.front.count };
    hand = h.hand;
    few = h.few;
    below = h.below;
    given_count = h.given_count;
    phase = Phase-closed seq_of s.receiver s.stream.closed s.stream.timer x h.phase;
    fresh = h.fresh;
    settled = h.settled;
  }

  pub flush_fails-IsSound :
      (s : Threads T)
      → IsSoundAt seq_of idle s
      → IsSoundAt seq_of idle (record s { stream = stopped seq_of (broken s.stream) })
  flush_fails-IsSound s h =
      close-IsSoundAt idle
        (record s { stream = stopped seq_of (record s.stream { has_err = true }) })
        (idle-IsSound s true true s.stream.seq (omega arith) h.below h)

  pub pings-IsSound :
      (s : Threads T)
      → suc s.stream.seq < 2 ^ 64
      → IsSoundAt seq_of idle s
      → IsSoundAt seq_of idle (record s { stream = seq_updated s.stream })
  pings-IsSound s b h =
      idle-IsSound s s.stream.has_err s.stream.timer.reg_stopped_flag ((s.stream.seq + 1) % 2 ^ 64)
        (omega (arith, b)) (omega (arith, b)) h

  pub sets_error-IsSound :
      (s : Threads T)
      → IsSoundAt seq_of idle s
      → IsSoundAt seq_of idle (record s { stream = record s.stream { has_err = true } })
  sets_error-IsSound s h =
      idle-IsSound s true s.stream.timer.reg_stopped_flag s.stream.seq (omega arith) h.below h

  pub drops-IsSound :
      (s : Threads T)
      → IsSoundAt seq_of idle s
      → IsSound seq_of (record s { stream = drop_stream seq_of s.stream; sender = dropped })
  unfolding drop_stream
  drops-IsSound s h =
      let d =
        close-IsSoundAt idle (record s { stream = stopped seq_of s.stream })
          (idle-IsSound s s.stream.has_err true s.stream.seq (omega arith) h.below h) in
      record {
        account = d.account;
        front = record { rises = d.front.rises; count = d.front.count };
        hand = tt;
        few = d.few;
        below = d.below;
        given_count = d.given_count;
        phase =
            Phase-idle seq_of s.receiver true s.stream.timer idle dropped
              s.stream.timer.pending_task_count true tt
              (Phase-closed seq_of s.receiver s.stream.closed s.stream.timer idle h.phase);
        fresh = d.fresh;
        settled = d.settled;
      }

  answer-registered :
      (a : Poll (Option T) × Timer T) (l : Life T) → (answer a l).registered ≡ l.registered
  answer-registered (pending, t) l = refl
  answer-registered (ready none, t) l = refl
  answer-registered (ready (some x), t) l = refl

  answer-timer : (a : Poll (Option T) × Timer T) (l : Life T) → (answer a l).timer ≡ a.1
  answer-timer (pending, t) l = refl
  answer-timer (ready none, t) l = refl
  answer-timer (ready (some x), t) l = refl

  pub Phase-running :
      (s : Threads T) (u : Timer T)
      → s.receiver ≡ running
      → Phase seq_of s.receiver s.stream.closed u s.sender
  Phase-running s u e = subst (λ r. Phase seq_of r s.stream.closed u s.sender) (sym e) tt

  pub ticks-IsSound :
      (s : Threads T)
      → s.receiver ≡ running
      → IsSound seq_of s
      → IsSound seq_of (with_life (ends (adjust_task_queue seq_of s.stream.timer) (life_of s)) s)
  ticks-IsSound s e h =
      with_life-IsSound seq_of s (ends (adjust_task_queue seq_of s.stream.timer) (life_of s)) h
        (Step-IsAccounted seq_of life_ticks h.account) (inl (adjust-Same seq_of s.stream.timer))
        refl (Phase-running s (adjust_task_queue seq_of s.stream.timer).1 e)

  pub polls-IsSound :
      (s : Threads T)
      → s.receiver ≡ running
      → IsSound seq_of s
      → IsSound seq_of
          (with_life (record (life_of s) { timer = (poll_sent_task seq_of s.stream.timer).1 }) s)
  polls-IsSound s e h =
      with_life-IsSound seq_of s
        (record (life_of s) { timer = (poll_sent_task seq_of s.stream.timer).1 }) h
        (Step-IsAccounted seq_of life_polls h.account) (inr (refl, refl, refl)) refl
        (Phase-running s (poll_sent_task seq_of s.stream.timer).1 e)

  pub checks-IsSound :
      (s : Threads T)
      → s.receiver ≡ running
      → IsSound seq_of s
      → IsSound seq_of (
          with_life
            (record (life_of s) { timer = (check_pending_tasks_empty seq_of s.stream.timer).1 })
            s)
  checks-IsSound s e h =
      with_life-IsSound seq_of s
        (record (life_of s) { timer = (check_pending_tasks_empty seq_of s.stream.timer).1 }) h
        (Step-IsAccounted seq_of life_checks h.account) (check-Front seq_of s.stream.timer) refl
        (Phase-running s (check_pending_tasks_empty seq_of s.stream.timer).1 e)

  pub takes-IsSound :
      (s : Threads T) (k : ℕ)
      → s.receiver ≡ running
      → IsSound seq_of s
      → IsSound seq_of (with_life (answer (take_task seq_of k s.stream.timer) (life_of s)) s)
  takes-IsSound s k e h =
      let l = answer (take_task seq_of k s.stream.timer) (life_of s) in
      with_life-IsSound seq_of s l h (Step-IsAccounted seq_of (life_takes k) h.account)
        (subst (λ t. Front seq_of s.stream.timer t)
          (sym (answer-timer (take_task seq_of k s.stream.timer) (life_of s)))
          (take-Front seq_of k s.stream.timer))
        (answer-registered (take_task seq_of k s.stream.timer) (life_of s))
        (Phase-running s l.timer e)
