-- ===== src/Client/Timer/Held.antt =====
-- All that `ClientTaskTimer` (stream/src/client/timer.rs) holds, and what receiving from the channel
-- does to it.
use occams_rpc.Base.{
  ℕ, suc, ◌≡◌, refl, sym, ap, ◌∙◌, List, [], ◌∷◌, ◌++◌, arith, append_assoc, append-nil,
}
use occams_rpc.Client.Map.{Over, insert-Under, Under-mono, Over-mono, Under-append, Over-append}
use occams_rpc.Client.Timer.{Timer, got_pending_task, got_all, drain}
use occams_rpc.Client.Timer.Order.{Layered, Rising, IsOrdered, Layered-le, Keyed-append}

module _ {T : Type 0} (seq : T → ℕ) where
  abbrev pub entries : List T → List (ℕ × T)
  entries [] = []
  entries (x ∷ xs) = (seq x, x) ∷ entries xs

  abbrev pub flat : List (List (ℕ × T)) → List (ℕ × T)
  flat [] = []
  flat (m ∷ ms) = m ++ flat ms

  -- All that the timer holds, each under its number.
  abbrev pub held : Timer T → List (ℕ × T)
  held t = (t.sent_tasks ++ entries t.pending_tasks) ++ flat t.delay_tasks_queue

  got_pending_task-IsOrdered :
      (x : T) (t : Timer T)
      → IsOrdered seq (record t { pending_tasks = x ∷ t.pending_tasks })
      → IsOrdered seq (got_pending_task seq x t)
        × (got_pending_task seq x t).sent_tasks ≡ t.sent_tasks ++ ((seq x, x) ∷ [])
  got_pending_task-IsOrdered x t o =
      let l = o.layered in
      let fresh : (got_pending_task seq x t).sent_tasks ≡ t.sent_tasks ++ ((seq x, x) ∷ []) =
        insert-Under (seq x) x t.sent_tasks
          (Under-mono (suc t.processed_seq) (seq x) t.sent_tasks o.rising.0 l.3) in
      (
        record {
          layered = (
            l.0,
            omega (arith, l.1, o.rising.0),
            rw fresh (
                Over-append l.0 t.sent_tasks ((seq x, x) ∷ []) l.2
                  (omega (arith, l.1, o.rising.0), tt)),
            rw fresh (
                Under-append (suc (seq x)) t.sent_tasks ((seq x, x) ∷ [])
                  (Under-mono (suc t.processed_seq) (suc (seq x)) t.sent_tasks
                    (omega (arith, o.rising.0)) l.3)
                  (omega arith, tt)),
            l.4,
          );
          keyed = (
            rw fresh (
                Keyed-append seq t.sent_tasks ((seq x, x) ∷ []) o.keyed.0
                  (refl, omega (arith, o.rising.0), tt)),
            o.keyed.1,
          );
          rising = o.rising.1;
        },
        fresh,
      )

  got_all-IsOrdered :
      (xs : List T) (t : Timer T)
      → t.pending_tasks ≡ []
      → IsOrdered seq (record t { pending_tasks = xs })
      → IsOrdered seq (got_all seq xs t)
        × ((got_all seq xs t).sent_tasks ≡ t.sent_tasks ++ entries xs)
        × ((got_all seq xs t).delay_tasks_queue ≡ t.delay_tasks_queue)
        × ((got_all seq xs t).min_delay_seq ≡ t.min_delay_seq)
        × ((got_all seq xs t).pending_tasks ≡ [])
  got_all-IsOrdered [] t e o = (
    record { layered = o.layered; keyed = o.keyed; rising = rw e tt },
    sym (append-nil t.sent_tasks),
    refl,
    refl,
    e,
  )
  got_all-IsOrdered (x ∷ xs) t e o =
      let step = got_pending_task-IsOrdered x (record t { pending_tasks = xs }) o in
      let rest = got_all-IsOrdered xs (got_pending_task seq x t) e step.0 in
      (
        rest.0,
        rest.1
            ∙ (ap (λ m. m ++ entries xs) step.1
                ∙ append_assoc t.sent_tasks ((seq x, x) ∷ []) (entries xs)),
        rest.2,
        rest.3,
        rest.4,
      )

  -- Receiving all that waits in the channel keeps the order, and moves the waiting tasks, in the order
  -- in which they were registered, behind the ones of the map: nothing is replaced.
  pub drain-IsOrdered :
      (t : Timer T)
      → IsOrdered seq t
      → IsOrdered seq (drain seq t)
        × ((drain seq t).sent_tasks ≡ t.sent_tasks ++ entries t.pending_tasks)
        × ((drain seq t).delay_tasks_queue ≡ t.delay_tasks_queue)
        × ((drain seq t).min_delay_seq ≡ t.min_delay_seq)
        × ((drain seq t).pending_tasks ≡ [])
  unfolding drain
  drain-IsOrdered t o = got_all-IsOrdered t.pending_tasks (record t { pending_tasks = [] }) refl o

  pub entries-Over : (b : ℕ) (xs : List T) → Rising seq b xs → Over b (entries xs)
  entries-Over b [] r = tt
  entries-Over b (x ∷ xs) r = (
    r.0,
    Over-mono b (suc (seq x)) (entries xs) (omega (arith, r.0)) (entries-Over (suc (seq x)) xs r.1),
  )

  flat-Over : (low top : ℕ) (ms : List (List (ℕ × T))) → Layered seq low top ms → Over low (flat ms)
  flat-Over low top [] l = tt
  flat-Over low top (m ∷ ms) l =
      Over-append low m (flat ms) (Over-mono low l.0 m (Layered-le seq low l.0 ms l.4) l.2)
        (flat-Over low l.0 ms l.4)

  pub held-Over : (t : Timer T) → IsOrdered seq t → Over t.min_delay_seq (held t)
  held-Over t o =
      let l = o.layered in
      Over-append t.min_delay_seq (t.sent_tasks ++ entries t.pending_tasks)
        (flat t.delay_tasks_queue)
        (Over-append t.min_delay_seq t.sent_tasks (entries t.pending_tasks)
          (Over-mono t.min_delay_seq l.0 t.sent_tasks
            (Layered-le seq t.min_delay_seq l.0 t.delay_tasks_queue l.4) l.2)
          (Over-mono t.min_delay_seq (suc t.processed_seq) (entries t.pending_tasks)
            (Layered-le seq t.min_delay_seq (suc t.processed_seq)
              (t.sent_tasks ∷ t.delay_tasks_queue) l)
            (entries-Over (suc t.processed_seq) t.pending_tasks o.rising)))
        (flat-Over t.min_delay_seq l.0 t.delay_tasks_queue l.4)
