-- ===== src/Client/Stream/Threads/Sound.antt =====
-- What stays true of a ClientStream (stream/src/client/stream.rs) while its sender and its receiver
-- take turns.
use occams_rpc.Base.{
  ℕ, suc, ◌+◌, ◌^◌, ◌≤◌, ◌<◌, ◌≡◌, ap, Bool, true, List, [], ◌∷◌, arith, length, once, count_by,
}
use occams_rpc.Base.Int.{IsU64}
use occams_rpc.Client.Timer.{Timer}
use occams_rpc.Client.Timer.Held.{held, flat}
use occams_rpc.Client.Timer.Life.{Life}
use occams_rpc.Client.Timer.Life.Ledger.{IsAccounted}
use occams_rpc.Client.Stream.Send.{Rises}
use occams_rpc.Client.Stream.Threads.{
  Sender, idle, counted, writing, written, dropped, Receiver, running, cleaning, returned, Threads,
  life_of, with_life,
}
use occams_rpc.Client.Stream.Threads.Front.{Counts, Front, Front-Counts}

module _ {T : Type 0} (seq_of : T → ℕ) where
  -- The task in the sender's hand: whether it is counted, whether it has its number, and which.
  abbrev pub in_hand : Sender T → ℕ
  in_hand idle = 0
  in_hand (counted t) = 1
  in_hand (writing t) = 1
  in_hand (written t) = 1
  in_hand dropped = 0

  abbrev pub numbered : Sender T → ℕ
  numbered idle = 0
  numbered (counted t) = 0
  numbered (writing t) = 1
  numbered (written t) = 1
  numbered dropped = 0

  abbrev pub hand_count : ℕ → Sender T → ℕ
  hand_count n idle = 0
  hand_count n (counted t) = 0
  hand_count n (writing t) = once n (seq_of t)
  hand_count n (written t) = once n (seq_of t)
  hand_count n dropped = 0

  -- The number that the next task to be registered has at least.
  abbrev pub bound : Sender T → ℕ → ℕ
  bound idle n = n
  bound (counted t) n = n
  bound (writing t) n = seq_of t
  bound (written t) n = seq_of t
  bound dropped n = n

  abbrev pub HandBelow : Sender T → ℕ → Type 0
  HandBelow idle n = Unit {0}
  HandBelow (counted t) n = Unit
  HandBelow (writing t) n = seq_of t < n
  HandBelow (written t) n = seq_of t < n
  HandBelow dropped n = Unit

  -- The sender holds no numbered task.
  abbrev pub NotSending : Sender T → Type 0
  NotSending idle = Unit {0}
  NotSending (counted t) = Unit
  NotSending (writing t) = ⊥
  NotSending (written t) = ⊥
  NotSending dropped = Unit

  -- At its end the receiver holds nothing but what is in the channel; when it has returned, nothing.
  abbrev pub Phase : Receiver → Bool → Timer T → Sender T → Type 0
  Phase running closed t s = Unit {0}
  Phase cleaning closed t s =
      (closed ≡ true) × (t.sent_tasks ≡ []) × (flat seq_of t.delay_tasks_queue ≡ [])
  Phase returned closed t s = (closed ≡ true) × (held seq_of t ≡ []) × NotSending s

  -- A refused task keeps the receiver from returning.
  abbrev pub Settled : Receiver → List T → Type 0
  Settled running xs = Unit {0}
  Settled cleaning xs = Unit
  Settled returned xs = xs ≡ []

  -- No number is given twice, and none that is still to come.
  abbrev pub Fresh : List T → ℕ → Type 0
  Fresh xs m = ((n : ℕ) → count_by seq_of n xs ≤ 1) × ((n : ℕ) → m ≤ n → count_by seq_of n xs ≡ 0)

  pub record IsSoundAt (x : Sender T) (s : Threads T) : Type 0 where
    pub account : IsAccounted seq_of (life_of s)
    pub front : Counts seq_of (bound x s.stream.seq) (in_hand x + length s.refused) s.stream.timer
    pub hand : HandBelow x s.stream.seq
    pub few : length s.stream.timer.pending_tasks + length s.refused + numbered x < s.stream.seq
    pub below : s.stream.seq < 2 ^ 64
    pub given_count :
        (n : ℕ)
        → count_by seq_of n s.given
          ≡ count_by seq_of n s.registered_log
            + hand_count n x
            + count_by seq_of n s.refused
            + count_by seq_of n s.failed
    pub phase : Phase s.receiver s.stream.closed s.stream.timer x
    pub fresh : Fresh s.given s.stream.seq
    pub settled : Settled s.receiver s.refused

  abbrev pub IsSound : Threads T → Type 0
  IsSound s = IsSoundAt s.sender s

  pub Rises-mono :
      (b : ℕ) (xs : List T) (m n : ℕ) → m ≤ n → Rises seq_of b xs m → Rises seq_of b xs n
  Rises-mono b [] m n h r = omega (arith, h, r)
  Rises-mono b (x ∷ xs) m n h r = (r.0, Rises-mono (suc (seq_of x)) xs m n h r.1)

  -- The counter and the flag of the timer are no part of what it holds.
  pub flags-IsAccounted :
      (l : Life T) (c : ℕ) (b : Bool)
      → IsAccounted seq_of l
      → IsAccounted seq_of
          (record l { timer = record l.timer { pending_task_count = c; reg_stopped_flag = b } })
  flags-IsAccounted l c b h = record {
    in_order = record {
      layered = h.in_order.layered;
      keyed = h.in_order.keyed;
      rising = h.in_order.rising;
    };
    balance = h.balance;
  }

  pub numbered-le : (x : Sender T) → in_hand x ≤ suc (numbered x)
  numbered-le idle = omega arith
  numbered-le (counted t) = omega arith
  numbered-le (writing t) = omega arith
  numbered-le (written t) = omega arith
  numbered-le dropped = omega arith

  pub fits :
      (s : Threads T)
      → IsSound s
      → IsU64 (length s.stream.timer.pending_tasks + (in_hand s.sender + length s.refused))
  fits s h = omega (arith, h.few, h.below, numbered-le s.sender)

  -- A step of the receiver on the timer.
  pub with_life-IsSound :
      (s : Threads T) (l : Life T)
      → IsSound s
      → IsAccounted seq_of l
      → Front seq_of s.stream.timer l.timer
      → l.registered ≡ s.registered_log
      → Phase s.receiver s.stream.closed l.timer s.sender
      → IsSound (with_life l s)
  with_life-IsSound s l h a f r p =
      let (c, le) =
        Front-Counts seq_of (bound s.sender s.stream.seq) (in_hand s.sender + length s.refused)
          s.stream.timer l.timer (fits s h) f h.front in
      record {
        account = a;
        front = c;
        hand = h.hand;
        few = omega (arith, h.few, le);
        below = h.below;
        given_count = λ n. omega (arith, h.given_count n, ap (count_by seq_of n) r);
        phase = p;
        fresh = h.fresh;
        settled = h.settled;
      }
