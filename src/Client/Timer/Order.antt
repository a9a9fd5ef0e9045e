-- ===== src/Client/Timer/Order.antt =====
-- The order in which `ClientTaskTimer` (stream/src/client/timer.rs) holds its tasks: what is waiting
-- in the channel is newer than what is in the map of this second, and that is newer than each batch of
-- the past seconds, the last of which is the oldest.
use occams_rpc.Base.{
  ℕ, suc, ◌≤◌, ◌<◌, ◌≡◌, Bool-cases, inl, inr, List, [], ◌∷◌, ◌++◌, arith, length, ltb,
}
use occams_rpc.Client.Map.{values, Under, Over, Over-mono}
use occams_rpc.Client.Timer.{Timer, batch_timed_out, pop_back, min_seq_from, adjust_task_queue}

module _ {T : Type 0} (seq : T → ℕ) where
  -- Each batch lies above a bound that the later ones lie below.
  abbrev pub Layered : ℕ → ℕ → List (List (ℕ × T)) → Type 0
  Layered low top [] = low ≤ top
  Layered low top (m ∷ ms) = (mid : ℕ) × (mid ≤ top) × Over mid m × Under top m × Layered low mid ms

  -- A task is held under its own number, which is not 0.
  abbrev pub Keyed : List (ℕ × T) → Type 0
  Keyed [] = Unit
  Keyed ((k, x) ∷ m) = (k ≡ seq x) × (0 < k) × Keyed m

  abbrev pub AllKeyed : List (List (ℕ × T)) → Type 0
  AllKeyed [] = Unit
  AllKeyed (m ∷ ms) = Keyed m × AllKeyed ms

  abbrev pub Rising : ℕ → List T → Type 0
  Rising b [] = Unit
  Rising b (x ∷ xs) = (b ≤ seq x) × Rising (suc (seq x)) xs

  pub record IsOrdered (t : Timer T) : Type 0 where
    pub layered : Layered t.min_delay_seq (suc t.processed_seq) (t.sent_tasks ∷ t.delay_tasks_queue)
    pub keyed : AllKeyed (t.sent_tasks ∷ t.delay_tasks_queue)
    pub rising : Rising (suc t.processed_seq) t.pending_tasks

  pub Layered-mono :
      (b low top : ℕ) (ms : List (List (ℕ × T))) → b ≤ low → Layered low top ms → Layered b top ms
  Layered-mono b low top [] h l = omega arith
  Layered-mono b low top (m ∷ ms) h l = (l.0, l.1, l.2, l.3, Layered-mono b low l.0 ms h l.4)

  pub Layered-le : (low top : ℕ) (ms : List (List (ℕ × T))) → Layered low top ms → low ≤ top
  Layered-le low top [] l = l
  Layered-le low top (m ∷ ms) l = omega (arith, l.1, Layered-le low l.0 ms l.4)

  -- The last batch is the oldest.
  pub pop_back-Layered :
      (low top : ℕ) (m : List (ℕ × T)) (ms : List (List (ℕ × T)))
      → Layered low top (m ∷ ms)
      → (mid : ℕ) × Layered mid top (pop_back seq m ms).1
        × (low ≤ mid)
        × Over low (pop_back seq m ms).0
        × Under mid (pop_back seq m ms).0
  pop_back-Layered low top m [] l =
      (top, omega arith, omega (arith, l.1, l.4), Over-mono low l.0 m l.4 l.2, l.3)
  pop_back-Layered low top m (n ∷ ms) l =
      let rest = pop_back-Layered low l.0 n ms l.4 in
      (rest.0, (l.0, l.1, l.2, l.3, rest.1), rest.2, rest.3, rest.4)

  pub pop_back-Keyed :
      (m : List (ℕ × T)) (ms : List (List (ℕ × T)))
      → AllKeyed (m ∷ ms)
      → Keyed (pop_back seq m ms).0 × AllKeyed (pop_back seq m ms).1
  pop_back-Keyed m [] a = (a.0, tt)
  pop_back-Keyed m (n ∷ ms) a = let rest = pop_back-Keyed n ms a.1 in (rest.0, (a.0, rest.1))

  -- The smallest number is none of the larger ones.
  min_seq_from-le :
      (least : ℕ) (m : List (ℕ × T))
      → 0 < least
      → Keyed m
      → min_seq_from seq least (values m) ≤ least
  min_seq_from-le least [] h k = omega arith
  min_seq_from-le least ((l, x) ∷ m) h k = elim (Bool-cases (ltb (seq x) least)) [
    | inl less ↦ ground (arith, k.0, k.1, min_seq_from-le (seq x) m (omega (arith, k.0, k.1)) k.2)
    | inr not_less ↦ ground (arith, min_seq_from-le least m h k.2)
  ]

  min_seq-le :
      (b : ℕ) (x : ℕ × T) (m : List (ℕ × T))
      → Keyed (x ∷ m)
      → Under b (x ∷ m)
      → min_seq_from seq 0 (values (x ∷ m)) ≤ b
  min_seq-le b (l, x) m k u =
      omega (arith, k.0, u.0, min_seq_from-le (seq x) m (omega (arith, k.0, k.1)) k.2)

  pub Keyed-append : (m n : List (ℕ × T)) → Keyed m → Keyed n → Keyed (m ++ n)
  Keyed-append [] n j k = k
  Keyed-append ((l, x) ∷ m) n j k = (j.0, j.1, Keyed-append m n j.2 k)

  timed_out-IsOrdered :
      (t : Timer T) (last : List (ℕ × T)) (init : List (List (ℕ × T))) (mid : ℕ)
      → Layered mid (suc t.processed_seq) init
      → t.min_delay_seq ≤ mid
      → Under mid last
      → Keyed last
      → AllKeyed init
      → Rising (suc t.processed_seq) t.pending_tasks
      → IsOrdered
          (batch_timed_out seq last (record t { sent_tasks = []; delay_tasks_queue = init })).1
  timed_out-IsOrdered t [] init mid l h u k a r = record {
    layered = (
      suc t.processed_seq,
      omega arith,
      tt,
      tt,
      Layered-mono t.min_delay_seq mid (suc t.processed_seq) init h l,
    );
    keyed = (tt, a);
    rising = r;
  }
  timed_out-IsOrdered t (x ∷ m) init mid l h u k a r = record {
    layered = (
      suc t.processed_seq,
      omega arith,
      tt,
      tt,
      Layered-mono (min_seq_from seq 0 (values (x ∷ m))) mid (suc t.processed_seq) init
          (min_seq-le mid x m k u) l,
    );
    keyed = (tt, a);
    rising = r;
  }

  -- A tick keeps the order, also when a batch times out and `min_delay_seq` moves up to its smallest
  -- number: no task that is still held, or is registered later, has a smaller one.
  pub adjust_task_queue-IsOrdered :
      (t : Timer T) → IsOrdered t → IsOrdered (adjust_task_queue seq t).1
  unfolding adjust_task_queue
  adjust_task_queue-IsOrdered t o =
      elim (Bool-cases (ltb t.task_timeout (suc (length t.delay_tasks_queue)))) [
        | inl full ↦ rw full (
            let p =
              pop_back-Layered t.min_delay_seq (suc t.processed_seq) t.sent_tasks
                t.delay_tasks_queue o.layered in
            let k = pop_back-Keyed t.sent_tasks t.delay_tasks_queue o.keyed in
            timed_out-IsOrdered t _ _ p.0 p.1 p.2 p.4 k.0 k.1 o.rising)
        | inr room ↦ rw room (record {
          layered = (suc t.processed_seq, omega arith, tt, tt, o.layered);
          keyed = (tt, o.keyed);
          rising = o.rising;
        })
      ]
