-- ===== src/Client/Stream/Threads/Ending.antt =====
-- The end of the receiver of a ClientStream (stream/src/client/stream.rs) keeps what stays true.
use occams_rpc.Base.{ℕ, ◌≡◌, refl, sym, subst, [], arith, eq-nil_of_length}
use occams_rpc.Client.Timer.{Timer, clean_pending_tasks, drain}
use occams_rpc.Client.Timer.Held.{held, flat}
use occams_rpc.Client.Timer.Expiry.{flat-emptied}
use occams_rpc.Client.Timer.Life.{ends, cleans as life_cleans}
use occams_rpc.Client.Timer.Life.Ledger.{Step-IsAccounted}
use occams_rpc.Client.Stream.Threads.{
  Sender, idle, counted, writing, written, dropped, running, cleaning, returned, Threads, life_of,
  with_life, close, receive_failed,
}
use occams_rpc.Client.Stream.Threads.Front.{clean-Front}
use occams_rpc.Client.Stream.Threads.Sound.{IsSound, Phase, in_hand, NotSending, with_life-IsSound}
use occams_rpc.Client.Stream.Threads.Receiving.{close-IsSoundAt, Phase-running}

module _ {T : Type 0} (seq_of : T → ℕ) where
  clean-sent : (t : Timer T) → (clean_pending_tasks seq_of t).1.sent_tasks ≡ []
  unfolding clean_pending_tasks
  clean-sent t = refl

  clean-flat : (t : Timer T) → flat seq_of (clean_pending_tasks seq_of t).1.delay_tasks_queue ≡ []
  unfolding clean_pending_tasks
  clean-flat t = flat-emptied seq_of (drain seq_of t).delay_tasks_queue

  -- Cleaning up, at whatever place of the receiver.
  cleaned-IsSound :
      (s : Threads T)
      → Phase seq_of s.receiver s.stream.closed
          (clean_pending_tasks seq_of s.stream.timer).1
          s.sender
      → IsSound seq_of s
      → IsSound seq_of (with_life (ends (clean_pending_tasks seq_of s.stream.timer) (life_of s)) s)
  cleaned-IsSound s p h =
      with_life-IsSound seq_of s (ends (clean_pending_tasks seq_of s.stream.timer) (life_of s)) h
        (Step-IsAccounted seq_of life_cleans h.account) (clean-Front seq_of s.stream.timer) refl p

  pub errs-IsSound :
      (s : Threads T)
      → s.receiver ≡ running
      → IsSound seq_of s
      → IsSound seq_of (receive_failed seq_of s)
  errs-IsSound s e h =
      let c =
        cleaned-IsSound (close s)
          (Phase-running seq_of (close s) (clean_pending_tasks seq_of s.stream.timer).1 e)
          (close-IsSoundAt seq_of s.sender s h) in
      record {
        account = c.account;
        front = record { rises = c.front.rises; count = c.front.count };
        hand = c.hand;
        few = c.few;
        below = c.below;
        given_count = c.given_count;
        phase = (refl, clean-sent s.stream.timer, clean-flat s.stream.timer);
        fresh = c.fresh;
        settled = tt;
      }

  pub cleans-IsSound :
      (s : Threads T)
      → s.receiver ≡ cleaning
      → IsSound seq_of s
      → IsSound seq_of (with_life (ends (clean_pending_tasks seq_of s.stream.timer) (life_of s)) s)
  cleans-IsSound s e h =
      let p = subst (λ r. Phase seq_of r s.stream.closed s.stream.timer s.sender) e h.phase in
      cleaned-IsSound s
        (subst
          (λ r.
            Phase seq_of r s.stream.closed (clean_pending_tasks seq_of s.stream.timer).1 s.sender)
          (sym e) (p.0, clean-sent s.stream.timer, clean-flat s.stream.timer))
        h

  idle-NotSending : (x : Sender T) → in_hand seq_of x ≡ 0 → NotSending seq_of x
  idle-NotSending idle e = tt
  idle-NotSending (counted t) e = tt
  idle-NotSending (writing t) e = ground (arith, e)
  idle-NotSending (written t) e = ground (arith, e)
  idle-NotSending dropped e = tt

  nothing-held :
      (t : Timer T)
      → t.sent_tasks ≡ []
      → t.pending_tasks ≡ []
      → flat seq_of t.delay_tasks_queue ≡ []
      → held seq_of t ≡ []
  nothing-held t a b c = rw a (rw b (rw c refl))

  pub returns-IsSound :
      (s : Threads T)
      → s.receiver ≡ cleaning
      → s.stream.timer.pending_task_count ≡ 0
      → IsSound seq_of s
      → IsSound seq_of (record s { receiver = returned })
  returns-IsSound s e z h =
      let p = subst (λ r. Phase seq_of r s.stream.closed s.stream.timer s.sender) e h.phase in
      record {
        account = h.account;
        front = record { rises = h.front.rises; count = h.front.count };
        hand = h.hand;
        few = h.few;
        below = h.below;
        given_count = h.given_count;
        phase = (
          p.0,
          nothing-held s.stream.timer p.1
              (eq-nil_of_length s.stream.timer.pending_tasks (omega (arith, z, h.front.count))) p.2,
          idle-NotSending s.sender (omega (arith, z, h.front.count)),
        );
        fresh = h.fresh;
        settled = eq-nil_of_length s.refused (omega (arith, z, h.front.count));
      }
