-- ===== src/Client/Stream/Threads/Fate.antt =====
-- What becomes of a task of a ClientStream (stream/src/client/stream.rs), however its sender and its
-- receiver take turns.
use occams_rpc.Base.{ℕ, ◌+◌, ◌≤◌, ◌≡◌, refl, sym, ap, subst, true, [], arith, count_by}
use occams_rpc.Client.Timer.Held.{held}
use occams_rpc.Client.Timer.Life.Ledger.{entry_seq, ended_seq}
use occams_rpc.Client.Stream.{seq_updated, broken, stopped}
use occams_rpc.Client.Stream.Threads.{
  Sender, idle, counted, writing, written, dropped, returned, Threads, new_threads, Step, counts,
  sees_closed, numbers, refuses, fails, writes, registers, flush_fails, pings, ping_fails, drops,
  sets_error, ticks, polls, checks, takes, closes, errs, cleans, returns, Reach, start, later,
}
use occams_rpc.Client.Stream.Threads.Sound.{
  IsSoundAt, IsSound, Phase, hand_count, NotSending, Settled,
}
use occams_rpc.Client.Timer.Life.Ledger.{Reach-IsAccounted}
use occams_rpc.Client.Timer.Life.{start as life_start}
use occams_rpc.Client.Stream.Threads.Sending.{
  counts-IsSound, sees_closed-IsSound, numbers-IsSound, refuses-IsSound, fails-IsSound,
  writes-IsSound, registers-IsSound,
}
use occams_rpc.Client.Stream.Threads.Receiving.{
  close-IsSoundAt, sets_error-IsSound, flush_fails-IsSound, pings-IsSound, drops-IsSound,
  ticks-IsSound, polls-IsSound, checks-IsSound, takes-IsSound,
}
use occams_rpc.Client.Stream.Threads.Ending.{errs-IsSound, cleans-IsSound, returns-IsSound}

module _ {T : Type 0} (seq_of : T → ℕ) where
  new_threads-IsSound : (timeout thresholds : ℕ) → IsSound seq_of (new_threads timeout thresholds)
  new_threads-IsSound timeout thresholds = record {
    account = Reach-IsAccounted seq_of timeout thresholds life_start;
    front = record { rises = omega arith; count = refl };
    hand = tt;
    few = omega arith;
    below = omega arith;
    given_count = λ n. refl;
    phase = tt;
    fresh = (λ n. omega arith, λ n l. refl);
    settled = tt;
  }

  -- Where the sender is, is known.
  with_sender :
      {x : Sender T} (s : Threads T) → s.sender ≡ x → IsSound seq_of s → IsSoundAt seq_of x s
  with_sender s e h = subst (λ x. IsSoundAt seq_of x s) e h

  of_sender :
      {x : Sender T} (s : Threads T) → s.sender ≡ x → IsSoundAt seq_of x s → IsSound seq_of s
  of_sender s e h = subst (λ x. IsSoundAt seq_of x s) (sym e) h

  module _ (set_seq : ℕ → T → T) (law : (n : ℕ) (x : T) → seq_of (set_seq n x) ≡ n) where
    Step-IsSound :
        (s : Threads T) {s' : Threads T}
        → Step seq_of set_seq s s'
        → IsSound seq_of s
        → IsSound seq_of s'
    Step-IsSound s (counts task e) h = counts-IsSound seq_of s task (with_sender s e h)
    Step-IsSound s (sees_closed task e c) h = sees_closed-IsSound seq_of s task (with_sender s e h)
    Step-IsSound s (numbers task e c b) h =
        numbers-IsSound seq_of set_seq s task law c b (with_sender s e h)
    Step-IsSound s (refuses t e) h = refuses-IsSound seq_of s t (with_sender s e h)
    Step-IsSound s (fails t e) h = fails-IsSound seq_of s t (with_sender s e h)
    Step-IsSound s (writes t e) h = writes-IsSound seq_of s t (with_sender s e h)
    Step-IsSound s (registers t e) h = registers-IsSound seq_of s t (with_sender s e h)
    Step-IsSound s (flush_fails e) h =
        of_sender (record s { stream = stopped seq_of (broken s.stream) }) e
          (flush_fails-IsSound seq_of s (with_sender s e h))
    Step-IsSound s (pings e b) h =
        of_sender (record s { stream = seq_updated s.stream }) e
          (pings-IsSound seq_of s b (with_sender s e h))
    Step-IsSound s (ping_fails e) h = close-IsSoundAt seq_of s.sender s h
    Step-IsSound s (drops e) h = drops-IsSound seq_of s (with_sender s e h)
    Step-IsSound s (sets_error e) h =
        of_sender (record s { stream = record s.stream { has_err = true } }) e
          (sets_error-IsSound seq_of s (with_sender s e h))
    Step-IsSound s (ticks e) h = ticks-IsSound seq_of s e h
    Step-IsSound s (polls e) h = polls-IsSound seq_of s e h
    Step-IsSound s (checks e) h = checks-IsSound seq_of s e h
    Step-IsSound s (takes k e) h = takes-IsSound seq_of s k e h
    Step-IsSound s (closes e) h = close-IsSoundAt seq_of s.sender s h
    Step-IsSound s (errs e) h = errs-IsSound seq_of s e h
    Step-IsSound s (cleans e z) h = cleans-IsSound seq_of s e h
    Step-IsSound s (returns e z) h = returns-IsSound seq_of s e z h

    pub Reach-IsSound :
        (timeout thresholds : ℕ) {s : Threads T}
        → Reach seq_of set_seq (new_threads timeout thresholds) s
        → IsSound seq_of s
    Reach-IsSound timeout thresholds start = new_threads-IsSound timeout thresholds
    Reach-IsSound timeout thresholds (later {u} r step) =
        Step-IsSound u step (Reach-IsSound timeout thresholds r)

    NotSending-hand_count : (n : ℕ) (x : Sender T) → NotSending seq_of x → hand_count seq_of n x ≡ 0
    NotSending-hand_count n idle h = refl
    NotSending-hand_count n (counted t) h = refl
    NotSending-hand_count n (writing t) h = absurd h
    NotSending-hand_count n (written t) h = absurd h
    NotSending-hand_count n dropped h = refl

    -- A stream that was new, its sender and its receiver in any turns, while the numbers do not run
    -- out. When the receiver has returned, the stream is closed, its timer holds nothing, and the
    -- codec has refused no task; and each task that was given a number, every number being given at
    -- most once, has ended with an error in the timer, or was given to its response, or was not
    -- written and ended there, and so exactly one of these.
    pub Reach-returned :
        (timeout thresholds : ℕ) (s : Threads T)
        → Reach seq_of set_seq (new_threads timeout thresholds) s
        → s.receiver ≡ returned
        → (s.stream.closed ≡ true)
          × (held seq_of s.stream.timer ≡ [])
          × (s.refused ≡ [])
          × ((n : ℕ)
              → (count_by seq_of n s.given ≤ 1)
                × (count_by seq_of n s.given
                    ≡ count_by (ended_seq seq_of) n s.ended
                      + count_by seq_of n s.answered
                      + count_by seq_of n s.failed))
    Reach-returned timeout thresholds s r e =
        let h = Reach-IsSound timeout thresholds r in
        let p = subst (λ x. Phase seq_of x s.stream.closed s.stream.timer s.sender) e h.phase in
        let q = subst (λ x. Settled seq_of x s.refused) e h.settled in
        (
          p.0,
          p.1,
          q,
          λ n. (
            h.fresh.0 n,
            omega (
              arith,
              h.given_count n,
              h.account.balance n,
              ap (count_by (entry_seq seq_of) n) p.1,
              ap (count_by seq_of n) q,
              NotSending-hand_count n s.sender p.2,
            ),
          ),
        )
