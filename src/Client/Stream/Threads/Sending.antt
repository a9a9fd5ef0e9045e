-- ===== src/Client/Stream/Threads/Sending.antt =====
-- The steps of the sender of a ClientStream (stream/src/client/stream.rs) keep what stays true.
use occams_rpc.Base.{
  ℕ, suc, ◌+◌, ◌^◌, ◌%◌, ◌<◌, ◌≡◌, refl, sym, subst, true, false, [], ◌∷◌, ◌++◌, arith,
  length-append,
}
use occams_rpc.Client.Timer.{fetch_add_one, fetch_sub_one}
use occams_rpc.Client.Timer.Life.{registers as life_registers}
use occams_rpc.Client.Timer.Life.Ledger.{Step-IsAccounted}
use occams_rpc.Client.Stream.{count_up, count_down, seq_updated, broken, registered}
use occams_rpc.Client.Stream.Send.{Rises, Rises-append, Rises-Rising}
use occams_rpc.Client.Stream.Threads.{
  idle, counted, writing, written, Threads, life_of, write_failed,
}
use occams_rpc.Client.Stream.Threads.Sound.{IsSoundAt, IsSound, Rises-mono, flags-IsAccounted}
use occams_rpc.Client.Stream.Threads.Phases.{
  Fresh-suc, Phase-closed, Phase-idle, Phase-open, Settled-sending, Phase-registers, Phase-writes,
}

module _ {T : Type 0} (seq_of : T → ℕ) where
  pub counts-IsSound :
      (s : Threads T) (task : T)
      → IsSoundAt seq_of idle s
      → IsSound seq_of (record s { stream = count_up s.stream; sender = counted task })
  counts-IsSound s task h = record {
    account =
        flags-IsAccounted seq_of (life_of s) (fetch_add_one s.stream.timer.pending_task_count)
          s.stream.timer.reg_stopped_flag h.account;
    front = record { rises = h.front.rises; count = omega (arith, h.front.count, h.few, h.below) };
    hand = tt;
    few = h.few;
    below = h.below;
    given_count = h.given_count;
    phase =
        Phase-idle seq_of s.receiver s.stream.closed s.stream.timer idle (counted task)
          (fetch_add_one s.stream.timer.pending_task_count) s.stream.timer.reg_stopped_flag tt
          h.phase;
    fresh = h.fresh;
    settled = h.settled;
  }

  pub sees_closed-IsSound :
      (s : Threads T) (task : T)
      → IsSoundAt seq_of (counted task) s
      → IsSound seq_of
          (record s { stream = count_down s.stream; sender = idle; turned = task ∷ s.turned })
  sees_closed-IsSound s task h = record {
    account =
        flags-IsAccounted seq_of (life_of s) (fetch_sub_one s.stream.timer.pending_task_count)
          s.stream.timer.reg_stopped_flag h.account;
    front = record { rises = h.front.rises; count = omega (arith, h.front.count, h.few, h.below) };
    hand = tt;
    few = h.few;
    below = h.below;
    given_count = h.given_count;
    phase =
        Phase-idle seq_of s.receiver s.stream.closed s.stream.timer (counted task) idle
          (fetch_sub_one s.stream.timer.pending_task_count) s.stream.timer.reg_stopped_flag tt
          h.phase;
    fresh = h.fresh;
    settled = h.settled;
  }

  pub refuses-IsSound :
      (s : Threads T) (t : T)
      → IsSoundAt seq_of (writing t) s
      → IsSound seq_of
          (record s { stream = broken s.stream; sender = idle; refused = t ∷ s.refused })
  refuses-IsSound s t h = record {
    account = h.account;
    front = record {
      rises =
          Rises-mono seq_of (suc s.stream.timer.processed_seq) s.stream.timer.pending_tasks
            (seq_of t) s.stream.seq (omega (arith, h.hand)) h.front.rises;
      count = omega (arith, h.front.count);
    };
    hand = tt;
    few = omega (arith, h.few);
    below = h.below;
    given_count = λ n. omega (arith, h.given_count n);
    phase = Phase-closed seq_of s.receiver s.stream.closed s.stream.timer idle (
        Phase-idle seq_of s.receiver s.stream.closed s.stream.timer (writing t) idle
          s.stream.timer.pending_task_count s.stream.timer.reg_stopped_flag tt h.phase);
    fresh = h.fresh;
    settled =
        Settled-sending seq_of s.receiver s.stream.closed s.stream.timer t t s.refused h.phase;
  }

  pub writes-IsSound :
      (s : Threads T) (t : T)
      → IsSoundAt seq_of (writing t) s
      → IsSound seq_of (record s { sender = written t })
  writes-IsSound s t h = record {
    account = h.account;
    front = record { rises = h.front.rises; count = h.front.count };
    hand = h.hand;
    few = h.few;
    below = h.below;
    given_count = h.given_count;
    phase = Phase-writes seq_of s.receiver s.stream.closed s.stream.timer t h.phase;
    fresh = h.fresh;
    settled = h.settled;
  }

  pub registers-IsSound :
      (s : Threads T) (t : T)
      → IsSoundAt seq_of (written t) s
      → IsSound seq_of (record s {
        stream = registered seq_of t s.stream;
        sender = idle;
        registered_log = t ∷ s.registered_log;
      })
  registers-IsSound s t h =
      let more =
        Rises-append seq_of (suc s.stream.timer.processed_seq) s.stream.timer.pending_tasks
          (seq_of t) t refl h.front.rises in
      record {
        account =
            Step-IsAccounted seq_of
              (life_registers t (
                Rises-Rising seq_of (suc s.stream.timer.processed_seq)
                  (s.stream.timer.pending_tasks ++ (t ∷ [])) (suc (seq_of t)) more))
              h.account;
        front = record {
          rises =
              Rises-mono seq_of (suc s.stream.timer.processed_seq)
                (s.stream.timer.pending_tasks ++ (t ∷ [])) (suc (seq_of t)) s.stream.seq h.hand
                more;
          count = omega (arith, h.front.count, length-append s.stream.timer.pending_tasks (t ∷ []));
        };
        hand = tt;
        few = omega (arith, h.few, length-append s.stream.timer.pending_tasks (t ∷ []));
        below = h.below;
        given_count = λ n. omega (arith, h.given_count n);
        phase = Phase-registers seq_of s.receiver s.stream.closed s.stream.timer t h.phase;
        fresh = h.fresh;
        settled = h.settled;
      }

  pub fails-IsSound :
      (s : Threads T) (t : T)
      → IsSoundAt seq_of (writing t) s
      → IsSound seq_of (write_failed seq_of t s)
  fails-IsSound s t h = record {
    account =
        flags-IsAccounted seq_of (life_of s) (fetch_sub_one s.stream.timer.pending_task_count) true
          h.account;
    front = record {
      rises =
          Rises-mono seq_of (suc s.stream.timer.processed_seq) s.stream.timer.pending_tasks
            (seq_of t) s.stream.seq (omega (arith, h.hand)) h.front.rises;
      count = omega (arith, h.front.count, h.few, h.below);
    };
    hand = tt;
    few = omega (arith, h.few);
    below = h.below;
    given_count = λ n. omega (arith, h.given_count n);
    phase =
        Phase-closed seq_of s.receiver s.stream.closed
          (record s.stream.timer {
            pending_task_count = fetch_sub_one s.stream.timer.pending_task_count;
            reg_stopped_flag = true;
          })
          idle
          (Phase-idle seq_of s.receiver s.stream.closed s.stream.timer (writing t) idle
            (fetch_sub_one s.stream.timer.pending_task_count) true tt h.phase);
    fresh = h.fresh;
    settled = h.settled;
  }

  module _ (set_seq : ℕ → T → T) where
    pub numbers-IsSound :
        (s : Threads T) (task : T)
        → ((n : ℕ) (x : T) → seq_of (set_seq n x) ≡ n)
        → s.stream.closed ≡ false
        → suc s.stream.seq < 2 ^ 64
        → IsSoundAt seq_of (counted task) s
        → IsSound seq_of (record s {
          stream = seq_updated s.stream;
          sender = writing (set_seq s.stream.seq task);
          given = set_seq s.stream.seq task ∷ s.given;
        })
    numbers-IsSound s task law e b h =
        let next : (s.stream.seq + 1) % 2 ^ 64 ≡ suc s.stream.seq = omega (arith, b) in
        record {
          account = h.account;
          front = record {
            rises =
                subst
                  (λ n.
                    Rises seq_of (suc s.stream.timer.processed_seq) s.stream.timer.pending_tasks n)
                  (sym (law s.stream.seq task)) h.front.rises;
            count = h.front.count;
          };
          hand = omega (arith, next, law s.stream.seq task);
          few = omega (arith, next, h.few);
          below = omega (arith, next, b);
          given_count = λ n. omega (arith, h.given_count n);
          phase =
              Phase-open seq_of s.receiver s.stream.closed s.stream.timer s.stream.timer
                (counted task) (writing (set_seq s.stream.seq task)) e h.phase;
          fresh =
              Fresh-suc seq_of s.given s.stream.seq (set_seq s.stream.seq task)
                ((s.stream.seq + 1) % 2 ^ 64) (law s.stream.seq task) next h.fresh;
          settled = h.settled;
        }
