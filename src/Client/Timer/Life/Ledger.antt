-- ===== src/Client/Timer/Life/Ledger.antt =====
-- Each task that was registered with `ClientTaskTimer` (stream/src/client/timer.rs) is in one place.
use occams_rpc.Base.{
  ℕ, suc, ◌+◌, ◌≡◌, refl, ap, Bool-cases, inl, inr, Option, none, some, List, [], ◌∷◌, ◌++◌, arith,
  ◌==◌, once, count_by, count_by-append,
}
use occams_rpc.Error.{RpcIntErr}
use occams_rpc.Client.Map.{lookup, removed}
use occams_rpc.Client.Timer.{
  Poll, ready, pending, Timer, reg_task, ended as ended_with, drain, check_pending_tasks_empty,
  take_task, adjust_task_queue, clean_pending_tasks,
}
use occams_rpc.Client.Timer.Order.{IsOrdered, Rising, adjust_task_queue-IsOrdered}
use occams_rpc.Client.Timer.Held.{entries, flat, held, drain-IsOrdered}
use occams_rpc.Client.Timer.Take.{held-drain}
use occams_rpc.Client.Timer.Expiry.{
  batches, Ticked, adjust_task_queue_keeps, clean_pending_tasks_lem,
}
use occams_rpc.Client.Timer.Life.{
  Life, answer, ends, Step, registers, stops, polls, checks, takes, ticks, cleans, Reach, start,
  later, new_life,
}
use occams_rpc.Client.Timer.Life.Kept.{Keeps, take_task-Keeps, clean_pending_tasks-IsOrdered}

module _ {T : Type 0} (seq : T → ℕ) where
  -- How many entries hold a task with this number.
  abbrev pub entry_seq : ℕ × T → ℕ
  entry_seq x = seq x.1

  abbrev pub ended_seq : T × RpcIntErr → ℕ
  ended_seq x = seq x.0

  count-entries : (n : ℕ) (xs : List T) → count_by entry_seq n (entries seq xs) ≡ count_by seq n xs
  count-entries n [] = refl
  count-entries n (x ∷ xs) = omega (arith, count-entries n xs)

  count-ended :
      (n : ℕ) (e : RpcIntErr) (m : List (ℕ × T))
      → count_by ended_seq n (ended_with seq e m) ≡ count_by entry_seq n m
  count-ended n e [] = refl
  count-ended n e ((k, x) ∷ m) = omega (arith, count-ended n e m)

  count-removed :
      (n k : ℕ) (x : T) (m : List (ℕ × T))
      → lookup k m ≡ some x
      → count_by entry_seq n m ≡ once n (seq x) + count_by entry_seq n (removed k m)
  count-removed n k x [] h = absurd (ground arith)
  count-removed n k x ((l, y) ∷ m) h = elim (Bool-cases (l == k)) [
    | inl e ↦ rw e (ap (λ z. once n (seq z) + count_by entry_seq n m) (ground (arith, e, h)))
    | inr e ↦ rw e (omega (arith, count-removed n k x m (ground (arith, e, h))))
  ]

  -- What the timer holds of this number: in the map of this second, in the channel, in the batches.
  count-held :
      (n : ℕ) (t : Timer T)
      → count_by entry_seq n (held seq t)
        ≡ count_by entry_seq n t.sent_tasks
          + count_by seq n t.pending_tasks
          + count_by entry_seq n (flat seq t.delay_tasks_queue)
  count-held n t = omega (
    arith,
    count_by-append entry_seq n (t.sent_tasks ++ entries seq t.pending_tasks)
        (flat seq t.delay_tasks_queue),
    count_by-append entry_seq n t.sent_tasks (entries seq t.pending_tasks),
    count-entries n t.pending_tasks,
  )

  -- The timer is in order; and each task that was registered is held, or has ended with an error, or was
  -- given to its response.
  pub record IsAccounted (l : Life T) : Type 0 where
    pub in_order : IsOrdered seq l.timer
    pub balance :
        (n : ℕ)
        → count_by seq n l.registered
          ≡ count_by entry_seq n (held seq l.timer)
            + count_by ended_seq n l.ended
            + count_by seq n l.answered

  -- The held tasks stay the same.
  same-IsAccounted :
      (t : Timer T) (l : Life T)
      → IsOrdered seq t
      → held seq t ≡ held seq l.timer
      → IsAccounted l
      → IsAccounted (record l { timer = t })
  same-IsAccounted t l o e h = record {
    in_order = o;
    balance = λ n. omega (arith, h.balance n, ap (count_by entry_seq n) e);
  }

  answer-IsAccounted :
      (k : ℕ) (a : Poll (Option T)) (t : Timer T) (l : Life T)
      → Keeps seq k l.timer (a, t)
      → IsAccounted l
      → IsAccounted (answer (a, t) l)
  answer-IsAccounted k pending t l (o, e) h = same-IsAccounted t l o e h
  answer-IsAccounted k (ready none) t l (o, e) h = same-IsAccounted t l o e h
  answer-IsAccounted k (ready (some x)) t l (o, (f, e)) h = record {
    in_order = o;
    balance = λ n.
        omega (
          arith,
          h.balance n,
          ap (count_by entry_seq n) e,
          count-removed n k x (held seq l.timer) f,
        );
  }

  registers-IsAccounted :
      (x : T) (l : Life T)
      → Rising seq (suc l.timer.processed_seq) (l.timer.pending_tasks ++ (x ∷ []))
      → IsAccounted l
      → IsAccounted (record l { timer = reg_task seq x l.timer; registered = x ∷ l.registered })
  registers-IsAccounted x l r h = record {
    in_order = record { layered = h.in_order.layered; keyed = h.in_order.keyed; rising = r };
    balance = λ n. omega (
      arith,
      h.balance n,
      count-held n l.timer,
      count-held n (reg_task seq x l.timer),
      count_by-append seq n l.timer.pending_tasks (x ∷ []),
    );
  }

  -- Tasks that the timer gives up end, and no others.
  ends-IsAccounted :
      (out : List (T × RpcIntErr)) (t : Timer T) (l : Life T)
      → IsOrdered seq t
      → ((n : ℕ)
          → count_by entry_seq n (held seq t) + count_by ended_seq n out
            ≡ count_by entry_seq n (held seq l.timer))
      → IsAccounted l
      → IsAccounted (ends (out, t) l)
  ends-IsAccounted out t l o e h = record {
    in_order = o;
    balance = λ n. omega (arith, h.balance n, e n, count_by-append ended_seq n out l.ended);
  }

  Ticked-IsAccounted :
      (out : List (T × RpcIntErr)) (t : Timer T) (l : Life T)
      → IsOrdered seq t
      → Ticked seq l.timer (out, t)
      → IsAccounted l
      → IsAccounted (ends (out, t) l)
  Ticked-IsAccounted out t l o ((m, e, f), p) h =
      ends-IsAccounted out t l o
        (λ n. omega (
          arith,
          count-held n t,
          count-held n l.timer,
          ap (count_by seq n) p,
          ap (count_by ended_seq n) e,
          count-ended n RpcIntErr.timeout m,
          ap (count_by entry_seq n) f,
          count_by-append entry_seq n (flat seq (batches seq t)) m,
          count_by-append entry_seq n t.sent_tasks (flat seq t.delay_tasks_queue),
          count_by-append entry_seq n l.timer.sent_tasks (flat seq l.timer.delay_tasks_queue),
        ))
        h

  cleans-IsAccounted :
      (l : Life T) → IsAccounted l → IsAccounted (ends (clean_pending_tasks seq l.timer) l)
  cleans-IsAccounted l h =
      let (e, z) = clean_pending_tasks_lem seq l.timer h.in_order in
      ends-IsAccounted (clean_pending_tasks seq l.timer).0 (clean_pending_tasks seq l.timer).1 l
        (clean_pending_tasks-IsOrdered seq l.timer h.in_order)
        (λ n. omega (
          arith,
          ap (count_by ended_seq n) e,
          count-ended n RpcIntErr.io (held seq l.timer),
          ap (count_by entry_seq n) z,
        ))
        h

  checked-IsAccounted :
      (l : Life T)
      → IsAccounted l
      → IsAccounted (record l { timer = (check_pending_tasks_empty seq l.timer).1 })
  unfolding check_pending_tasks_empty
  checked-IsAccounted l h =
      same-IsAccounted (drain seq l.timer) l (drain-IsOrdered seq l.timer h.in_order).0
        (held-drain seq l.timer h.in_order) h

  pub Step-IsAccounted : {l l' : Life T} → Step seq l l' → IsAccounted l → IsAccounted l'
  Step-IsAccounted {l} (registers x r) h = registers-IsAccounted x l r h
  Step-IsAccounted stops h = record {
    in_order = record {
      layered = h.in_order.layered;
      keyed = h.in_order.keyed;
      rising = h.in_order.rising;
    };
    balance = h.balance;
  }
  Step-IsAccounted {l} polls h =
      same-IsAccounted (drain seq l.timer) l (drain-IsOrdered seq l.timer h.in_order).0
        (held-drain seq l.timer h.in_order) h
  Step-IsAccounted {l} checks h = checked-IsAccounted l h
  Step-IsAccounted {l} (takes k) h =
      answer-IsAccounted k (take_task seq k l.timer).0 (take_task seq k l.timer).1 l
        (take_task-Keeps seq k l.timer h.in_order) h
  Step-IsAccounted {l} ticks h =
      Ticked-IsAccounted (adjust_task_queue seq l.timer).0 (adjust_task_queue seq l.timer).1 l
        (adjust_task_queue-IsOrdered seq l.timer h.in_order) (adjust_task_queue_keeps seq l.timer) h
  Step-IsAccounted {l} cleans h = cleans-IsAccounted l h

  -- Whatever a new timer is asked to do and in whatever order (registering, polling, taking, ticking,
  -- cleaning up): each task that was registered is, counted by its number, held by the timer, or has
  -- ended with an error once, or was given to its response once. The condition, in each registration:
  -- the number lies above those before it.
  pub Reach-IsAccounted :
      (timeout thresholds : ℕ) {l : Life T}
      → Reach seq (new_life timeout thresholds) l
      → IsAccounted l
  Reach-IsAccounted timeout thresholds start = record {
    in_order = record {
      layered = (0, omega arith, tt, tt, omega arith);
      keyed = (tt, tt);
      rising = tt;
    };
    balance = λ n. refl;
  }
  Reach-IsAccounted timeout thresholds (later r s) =
      Step-IsAccounted s (Reach-IsAccounted timeout thresholds r)
